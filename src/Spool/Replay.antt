-- ===== src/Spool/Replay.antt =====
-- The reports that a spool holds, oldest first, and how `Peek` and `Ack` hand them out.
use metalwatch.Base.{
  ◌&&◌, not, All, ℕ, zero, suc, ◌≤◌, ◌≡◌, refl, sym, ap, ◌∙◌, subst, Bool, true, false, Option,
  none, some, List, [], ◌∷◌, length, take, drop, arith, if◌then◌else◌, Bool-cases, Option-cases,
  inl, inr,
}
use metalwatch.Base.Bytes.{
  Bytes, bytes_lt, bytes_lt_irrefl, bytes_lt-connex, bytes_lt_asymm, bytes_lt_trans,
}
use metalwatch.Spool.Store.{Entry, Bolt, Codec, delete_entry, IsSorted, IsAfter}
use metalwatch.Spool.{Spool, Queued, delete_keys, peek_loop, ack, peek, len}

module _ (db : Bolt) (codec : Codec) where
  open db use {Bucket, entries, entries_sorted, entries-delete}
  open codec use {unmarshal}

  -- The reports that can be read, with their keys.
  abbrev pub decoded : Option codec.Report → Bytes → List (Queued db codec) → List (Queued db codec)
  decoded none k rest = rest
  decoded (some rep) k rest = record { key = k; report = rep } ∷ rest

  unfoldable pub readable : List Entry → List (Queued db codec)
  readable [] = []
  readable (e ∷ es) = decoded (unmarshal e.value) e.key (readable es)

  -- The queue of a spool.
  abbrev pub backlog : Spool db codec → List (Queued db codec)
  backlog s = readable (entries s.bucket)

  abbrev pub queued_keys : List (Queued db codec) → List Bytes
  queued_keys [] = []
  queued_keys (q ∷ qs) = q.key ∷ queued_keys qs

  peek_loop-readable :
      (n : ℕ) (es : List Entry) → (peek_loop db codec n es).0 ≡ take n (readable es)
  unfolding peek_loop readable
  peek_loop-readable zero [] = refl
  peek_loop-readable (suc n) [] = refl
  peek_loop-readable zero (e ∷ es) = refl
  peek_loop-readable (suc n) (e ∷ es) =
      ground (arith, peek_loop-readable n es, peek_loop-readable (suc n) es)

  -- Entries with this key cannot be read.
  abbrev Broken : Bytes → List Entry → Type 0
  Broken k = All (λ (e : Entry). e.key ≡ k → unmarshal e.value ≡ none)

  readable-delete-Broken :
      (k : Bytes) (es : List Entry) → Broken k es → readable (delete_entry k es) ≡ readable es
  unfolding readable delete_entry
  readable-delete-Broken k [] h = refl
  readable-delete-Broken k (e ∷ es) h =
      ground (arith, bytes_lt-connex e.key k, readable-delete-Broken k es h.1, h.0)

  Broken-delete : (j k : Bytes) (es : List Entry) → Broken k es → Broken k (delete_entry j es)
  unfolding delete_entry
  Broken-delete j k [] h = tt
  Broken-delete j k (e ∷ es) h = elim (Bool-cases (bytes_lt j e.key)) [
    | inl below ↦ rw below h
    | inr above ↦ elim (Bool-cases (bytes_lt e.key j)) [
      | inl later ↦ rw (above, later) (h.0, Broken-delete j k es h.1)
      | inr equal ↦ rw (above, equal) h.1
    ]
  ]

  AllBroken-delete :
      (j : Bytes) (ks : List Bytes) (es : List Entry)
      → All (λ k. Broken k es) ks
      → All (λ k. Broken k (delete_entry j es)) ks
  AllBroken-delete j [] es h = tt
  AllBroken-delete j (k ∷ ks) es h = (Broken-delete j k es h.0, AllBroken-delete j ks es h.1)

  -- Deleting broken entries leaves the queue as it is.
  delete_keys-readable :
      (ks : List Bytes) (b : Bucket)
      → All (λ k. Broken k (entries b)) ks
      → readable (entries (delete_keys db codec ks b)) ≡ readable (entries b)
  unfolding delete_keys
  delete_keys-readable [] b h = refl
  delete_keys-readable (k ∷ ks) b h =
      delete_keys-readable ks (db.delete k b) (
        subst (λ es. All (λ j. Broken j es) ks) (sym (entries-delete k b))
          (AllBroken-delete k ks (entries b) h.1))
      ∙ ap readable (entries-delete k b)
      ∙ readable-delete-Broken k (entries b) h.0

  All-above :
      (k : Bytes) (es : List Entry)
      → IsSorted es
      → IsAfter k es
      → All (λ (x : Entry). bytes_lt k x.key ≡ true) es
  All-above k [] s a = tt
  All-above k (e ∷ []) s a = (a, tt)
  All-above k (e ∷ f ∷ es) s a = (a, All-above k (f ∷ es) s.1 (bytes_lt_trans k e.key f.key a s.0))

  above-Broken :
      (k : Bytes) (es : List Entry) → All (λ (x : Entry). bytes_lt k x.key ≡ true) es → Broken k es
  above-Broken k [] h = tt
  above-Broken k (e ∷ es) h =
      ((λ same. cc (bytes_lt_irrefl k, h.0, ap (bytes_lt k) same)), above-Broken k es h.1)

  -- Keys that are all above `k`.
  abbrev Above : Bytes → List Bytes → Type 0
  Above k = All (λ (j : Bytes). bytes_lt k j ≡ true)

  AllBroken-cons :
      (e : Entry) (es : List Entry) (ks : List Bytes)
      → Above e.key ks
      → All (λ k. Broken k es) ks
      → All (λ k. Broken k (e ∷ es)) ks
  AllBroken-cons e es [] a h = tt
  AllBroken-cons e es (k ∷ ks) a h = (
    ((λ same. cc (bytes_lt_irrefl k, a.0, ap (λ j. bytes_lt j k) same)), h.0),
    AllBroken-cons e es ks a.1 h.1,
  )

  peek_loop-Above :
      (n : ℕ) (es : List Entry) (k : Bytes)
      → All (λ (x : Entry). bytes_lt k x.key ≡ true) es
      → Above k (peek_loop db codec n es).1
  unfolding peek_loop
  peek_loop-Above zero [] k h = tt
  peek_loop-Above (suc n) [] k h = tt
  peek_loop-Above zero (e ∷ es) k h = tt
  peek_loop-Above (suc n) (e ∷ es) k h = elim (Option-cases (unmarshal e.value)) [
    | inl bad ↦ rw (bad, peek_loop) (h.0, peek_loop-Above (suc n) es k h.1)
    | inr (rep, good) ↦ rw (good, peek_loop) (peek_loop-Above n es k h.1)
  ]

  peek_loop_bad :
      (n : ℕ) (e : Entry) (es : List Entry)
      → unmarshal e.value ≡ none
      → (peek_loop db codec (suc n) (e ∷ es)).1 ≡ e.key ∷ (peek_loop db codec (suc n) es).1
  unfolding peek_loop
  peek_loop_bad n e es bad = ground arith

  peek_loop_good :
      (n : ℕ) (e : Entry) (es : List Entry) (rep : codec.Report)
      → unmarshal e.value ≡ some rep
      → (peek_loop db codec (suc n) (e ∷ es)).1 ≡ (peek_loop db codec n es).1
  unfolding peek_loop
  peek_loop_good n e es rep good = ground arith

  peek_loop-Broken :
      (n : ℕ) (es : List Entry) → IsSorted es → All (λ k. Broken k es) (peek_loop db codec n es).1
  unfolding peek_loop
  peek_loop-Broken zero [] s = tt
  peek_loop-Broken (suc n) [] s = tt
  peek_loop-Broken zero (e ∷ es) s = tt
  peek_loop-Broken (suc n) (e ∷ es) s =
      let above = All-above e.key es s.1 s.0 in
      elim (Option-cases (unmarshal e.value)) [
        | inl bad ↦ subst (All (λ k. Broken k (e ∷ es))) (sym (peek_loop_bad n e es bad)) (
          ((λ _. bad), above-Broken e.key es above),
          AllBroken-cons e es (peek_loop db codec (suc n) es).1
              (peek_loop-Above (suc n) es e.key above) (peek_loop-Broken (suc n) es s.1),
        )
        | inr (rep, good) ↦
            subst (All (λ k. Broken k (e ∷ es))) (sym (peek_loop_good n e es rep good)) (
              AllBroken-cons e es (peek_loop db codec n es).1 (peek_loop-Above n es e.key above)
                (peek_loop-Broken n es s.1))
      ]

  ack-backlog-Broken :
      (s : Spool db codec) (ks : List Bytes) (committed : Bool)
      → All (λ k. Broken k (entries s.bucket)) ks
      → backlog (ack db codec s ks committed).0 ≡ backlog s
  unfolding ack
  ack-backlog-Broken s [] committed h = refl
  ack-backlog-Broken s (k ∷ ks) true h = delete_keys-readable (k ∷ ks) s.bucket h
  ack-backlog-Broken s (k ∷ ks) false h = refl

  peek_done :
      (s : Spool db codec) (ks : List Bytes) (committed : Bool)
      → (committed && not (ack db codec s ks committed).1) ≡ false
  unfolding ack
  peek_done s [] committed = ground arith
  peek_done s (k ∷ ks) committed = ground arith

  -- A peek hands out the n oldest reports that can be read, or none where the view fails, and
  -- takes no readable report from the queue; it reports no error where the view and the deletion
  -- succeed.
  pub peek-backlog :
      (s : Spool db codec) (n : ℕ) (viewed committed : Bool)
      → let (t, out, done) = peek db codec s n viewed committed in
        (backlog t ≡ backlog s)
        × (out ≡ (if viewed then take n (backlog s) else []))
        × ((viewed && committed && not done) ≡ false)
  unfolding peek
  peek-backlog s zero viewed committed = ground arith
  peek-backlog s (suc n) false committed = (refl, refl, refl)
  peek-backlog s (suc n) true committed =
      let ks = (peek_loop db codec (suc n) (entries s.bucket)).1 in
      (
        ack-backlog-Broken s ks committed
            (peek_loop-Broken (suc n) (entries s.bucket) (entries_sorted s.bucket)),
        peek_loop-readable (suc n) (entries s.bucket),
        peek_done s ks committed,
      )

  -- The oldest report that can be read.
  readable-head_above :
      (k : Bytes) (es : List Entry) (q : Queued db codec) (qs : List (Queued db codec))
      → All (λ (x : Entry). bytes_lt k x.key ≡ true) es
      → readable es ≡ q ∷ qs
      → bytes_lt k q.key ≡ true
  unfolding readable
  readable-head_above k [] q qs h e = cc
  readable-head_above k (x ∷ es) q qs h e = ground (arith, h.0, readable-head_above k es q qs h.1)

  readable-delete_head :
      (es : List Entry) (q : Queued db codec) (qs : List (Queued db codec))
      → IsSorted es
      → readable es ≡ q ∷ qs
      → readable (delete_entry q.key es) ≡ qs
  unfolding readable delete_entry
  readable-delete_head [] q qs s e = cc
  readable-delete_head (x ∷ es) q qs s e = ground (
    arith,
    bytes_lt_irrefl x.key,
    readable-head_above x.key es q qs (All-above x.key es s.1 s.0),
    bytes_lt_asymm x.key q.key,
    readable-delete_head es q qs s.1,
  )

  -- Deleting the keys of the i oldest reports leaves the others.
  pub delete_keys-acked :
      (i : ℕ) (b : Bucket) (qs : List (Queued db codec))
      → readable (entries b) ≡ qs
      → readable (entries (delete_keys db codec (queued_keys (take i qs)) b)) ≡ drop i qs
  unfolding delete_keys
  delete_keys-acked zero b qs e = e
  delete_keys-acked (suc i) b [] e = e
  delete_keys-acked (suc i) b (q ∷ qs) e = delete_keys-acked i (db.delete q.key b) qs (
      ap readable (entries-delete q.key b)
      ∙ readable-delete_head (entries b) q qs (entries_sorted b) e)

  length-readable : (es : List Entry) → length (readable es) ≤ length es
  unfolding readable
  length-readable [] = omega arith
  length-readable (e ∷ es) = ground (arith, length-readable es)

  pub length-backlog : (s : Spool db codec) → length (backlog s) ≤ len db codec s
  unfolding len
  length-backlog s = length-readable (entries s.bucket)
