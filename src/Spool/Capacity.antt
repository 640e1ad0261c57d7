-- ===== src/Spool/Capacity.antt =====
-- What a trim and a purge drop, and that they keep the rest of the queue in order.
use mathlib.Core.List.{append-nil}
use metalwatch.Base.{
  All, ℕ, zero, suc, ◌+◌, ◌-◌, ◌^◌, ◌≤◌, ◌<◌, ◌≡◌, refl, sym, ap, ◌∙◌, subst, inl, inr, true, false,
  some, List, [], ◌∷◌, ◌++◌, length, length-append, take, drop, length-drop, ltb, arith,
  if◌then◌else◌, Bool-cases,
}
use metalwatch.Base.Int.{pos, ◌-ℤ◌}
use metalwatch.Base.Bytes.{
  Bytes, big_endian, bytes_lt, bytes_lt-big_endian, bytes_lt_irrefl, not-bytes_lt-nil,
  bytes_lt_trans,
}
use metalwatch.Spool.Store.{Entry, Bolt, Codec, delete_entry, IsSorted}
use metalwatch.Spool.{Spool, make_key, delete_keys, keys, overflow, trim, purge_loop, purge, len}

delete_entry-head : (e : Entry) (es : List Entry) → delete_entry e.key (e ∷ es) ≡ es
unfolding delete_entry
delete_entry-head e es = rw (bytes_lt_irrefl e.key)

-- The entries from the first whose key is not below the cutoff's.
unfoldable pub since_cut : Bytes → List Entry → List Entry
since_cut cut [] = []
since_cut cut (e ∷ es) = if bytes_lt e.key cut then since_cut cut es else e ∷ es

module _ (db : Bolt) (codec : Codec) where
  open db use {Bucket, entries, entries-delete}

  delete_keys-drop :
      (n : ℕ) (b : Bucket) (es : List Entry)
      → entries b ≡ es
      → entries (delete_keys db codec (take n (keys es)) b) ≡ drop n es
  unfolding delete_keys
  delete_keys-drop zero b es e = e
  delete_keys-drop (suc n) b [] e = e
  delete_keys-drop (suc n) b (x ∷ es) e =
      delete_keys-drop n (db.delete x.key b) es
        (entries-delete x.key b ∙ ap (delete_entry x.key) e ∙ delete_entry-head x es)

  overflow_lem :
      (s : Spool db codec) (m : ℕ)
      → s.max_entries ≡ pos m
      → (overflow db codec s ≡ len db codec s - m) × (length (entries s.bucket) ≡ len db codec s)
  unfolding overflow len ◌-ℤ◌
  overflow_lem s m h = ground arith

  -- With a capacity m, a committed trim drops the oldest entries above it, keeps the others in
  -- order, returns how many it dropped, and leaves at most m.
  pub trim-drops :
      (s : Spool db codec) (m : ℕ)
      → s.max_entries ≡ pos m
      → let (t, dropped) = trim db codec s true in
        (entries t.bucket ≡ drop (len db codec s - m) (entries s.bucket))
        × (dropped ≡ some (len db codec s - m))
        × (len db codec t ≤ m)
  unfolding trim len
  trim-drops s m h =
      let rest = delete_keys-drop (overflow db codec s) s.bucket (entries s.bucket) refl in
      let over = (overflow_lem s m h).0 in
      (
        rest ∙ ap (λ n. drop n (entries s.bucket)) over,
        ap some over,
        omega (arith, over, ap length rest, length-drop (overflow db codec s) (entries s.bucket)),
      )

  purge_loop-since_cut :
      (rounds : ℕ) (cut : Bytes) (b : Bucket) (es : List Entry)
      → entries b ≡ es
      → length es ≤ rounds
      → (entries (purge_loop db codec rounds cut b).0 ≡ since_cut cut es)
        × ((purge_loop db codec rounds cut b).1 + length (since_cut cut es) ≡ length es)
  unfolding purge_loop since_cut
  purge_loop-since_cut zero cut b [] e h = (e, refl)
  purge_loop-since_cut zero cut b (x ∷ es) e h = absurd (omega arith)
  purge_loop-since_cut (suc rounds) cut b [] e h = rw (e, purge_loop) (e, refl)
  purge_loop-since_cut (suc rounds) cut b (x ∷ es) e h =
      let rest =
        purge_loop-since_cut rounds cut (db.delete x.key b) es
          (entries-delete x.key b ∙ ap (delete_entry x.key) e ∙ delete_entry-head x es)
          (omega arith) in
      elim (Bool-cases (bytes_lt x.key cut)) [
        | inl expired ↦ rw (e, purge_loop) (rw expired (rest.0, omega (arith, rest.1)))
        | inr fresh ↦ rw (e, purge_loop) (rw fresh (e, omega arith))
      ]

-- The entries that a purge lets go: those before the first whose key is not below the cutoff's.
abbrev before_cut : Bytes → List Entry → List Entry
before_cut cut [] = []
before_cut cut (e ∷ es) = if bytes_lt e.key cut then e ∷ before_cut cut es else []

before-append-since : (cut : Bytes) (es : List Entry) → es ≡ before_cut cut es ++ since_cut cut es
unfolding since_cut
before-append-since cut [] = refl
before-append-since cut (e ∷ es) = ground (arith, before-append-since cut es)

before_cut-All :
    (cut : Bytes) (es : List Entry)
    → All (λ (e : Entry). bytes_lt e.key cut ≡ true) (before_cut cut es)
before_cut-All cut [] = tt
before_cut-All cut (e ∷ es) = ground (arith, before_cut-All cut es)

-- Behind an entry that is not below the cutoff there is none.
IsAfter-All :
    (cut : Bytes) (e : Entry) (es : List Entry)
    → IsSorted (e ∷ es)
    → bytes_lt e.key cut ≡ false
    → All (λ (x : Entry). bytes_lt x.key cut ≡ false) es
IsAfter-All cut e [] s h = tt
IsAfter-All cut e (x ∷ es) s h =
    let keeps : bytes_lt x.key cut ≡ false =
      ground (arith, s.0, h, bytes_lt_trans e.key x.key cut) in
    (keeps, IsAfter-All cut x es s.1 keeps)

since_cut-All :
    (cut : Bytes) (es : List Entry)
    → IsSorted es
    → All (λ (e : Entry). bytes_lt e.key cut ≡ false) (since_cut cut es)
unfolding since_cut
since_cut-All cut [] s = tt
since_cut-All cut (e ∷ es) s = ground (arith, since_cut-All cut es s.1, IsAfter-All cut e es s)

-- A key is below the key of a cutoff exactly where its time stamp is below the cutoff, for time
-- stamps and cutoffs of 64 bits.
pub make_key-below :
    (ts seq cutoff : ℕ)
    → ts < 2 ^ 64
    → cutoff < 2 ^ 64
    → bytes_lt (make_key ts seq) (big_endian 8 cutoff) ≡ ltb ts cutoff
unfolding make_key
make_key-below ts seq cutoff h k = rw (← append-nil (big_endian 8 cutoff)) (
    ground (
      arith,
      bytes_lt-big_endian 8 ts cutoff (big_endian 8 seq) [],
      not-bytes_lt-nil (big_endian 8 seq),
    ))

module _ (db : Bolt) (codec : Codec) where
  open db use {Bucket, entries, entries_sorted}

  -- A committed purge deletes exactly the entries whose key is below that of the cutoff, counts
  -- them, and keeps the others in order.
  pub purge-splits :
      (s : Spool db codec) (cutoff : ℕ)
      → let (t, removed) = purge db codec s cutoff true in
        let cut = big_endian 8 cutoff in
        (gone : List Entry) × (entries s.bucket ≡ gone ++ entries t.bucket)
        × All (λ (e : Entry). bytes_lt e.key cut ≡ true) gone
        × All (λ (e : Entry). bytes_lt e.key cut ≡ false) (entries t.bucket)
        × (removed ≡ some (length gone))
  unfolding purge
  purge-splits s cutoff =
      let cut = big_endian 8 cutoff in
      let all = entries s.bucket in
      let (kept, counted) =
        purge_loop-since_cut db codec (length all) cut s.bucket all refl (omega arith) in
      (
        before_cut cut all,
        before-append-since cut all ∙ ap (◌++◌ (before_cut cut all)) (sym kept),
        before_cut-All cut all,
        subst (All (λ (e : Entry). bytes_lt e.key cut ≡ false)) (sym kept)
            (since_cut-All cut all (entries_sorted s.bucket)),
        ap some (
            omega (
              arith,
              counted,
              ap length (before-append-since cut all),
              length-append (before_cut cut all) (since_cut cut all),
            )),
      )
