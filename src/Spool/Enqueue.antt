-- ===== src/Spool/Enqueue.antt =====
-- A new report never overwrites an old one, and goes to its place in time.
use mathlib.Core.List.{append-nil}
use metalwatch.Base.{
  All-map, All, ℕ, suc, ◌^◌, ◌≤◌, ◌<◌, ◌≡◌, ◌≢◌, refl, ap, ◌∙◌, true, some, List, [], ◌∷◌, ◌++◌,
  ltb, arith, if◌then◌else◌, ◌==◌, Bool-cases, inl, inr,
}
use metalwatch.Base.Bytes.{
  Bytes, big_endian, bytes_lt, bytes_lt-big_endian, bytes_lt_irrefl, bytes_lt-connex,
}
use metalwatch.Spool.Store.{Entry, Bolt, Codec, put_entry}
use metalwatch.Spool.{Spool, make_key, stamp, enqueue}

-- Keys of 64-bit time stamps and sequence numbers are ordered by time stamp, then by sequence
-- number.
pub make_key-order :
    (ts seq ts' seq' : ℕ)
    → ts < 2 ^ 64
    → seq < 2 ^ 64
    → ts' < 2 ^ 64
    → seq' < 2 ^ 64
    → bytes_lt (make_key ts seq) (make_key ts' seq')
      ≡ (if ts == ts' then ltb seq seq' else ltb ts ts')
unfolding make_key
make_key-order ts seq ts' seq' h k h' k' = ground (
  arith,
  bytes_lt-big_endian 8 ts ts' (big_endian 8 seq) (big_endian 8 seq'),
  bytes_lt-big_endian 8 seq seq' [] [],
  append-nil (big_endian 8 seq),
  append-nil (big_endian 8 seq'),
  bytes_lt_irrefl [],
)

-- The key of an entry carries a time stamp and a sequence number that has been given out.
abbrev pub Issued : ℕ → Entry → Type 0
Issued n e = (ts : ℕ) × (seq : ℕ) × (e.key ≡ make_key ts seq) × (ts < 2 ^ 64) × (seq ≤ n)

make_key-fresh :
    (n ts : ℕ) (e : Entry) → ts < 2 ^ 64 → suc n < 2 ^ 64 → Issued n e → e.key ≢ make_key ts (suc n)
make_key-fresh n ts e h k (ts', seq, eq, h', le) same = ground (
  arith,
  make_key-order ts' seq ts (suc n) h' (omega arith) h k,
  make_key-order ts (suc n) ts' seq h k h' (omega arith),
  bytes_lt_irrefl (make_key ts (suc n)),
  eq,
  same,
)

put_entry-split :
    (k v : Bytes) (es : List Entry)
    → All (λ (e : Entry). e.key ≢ k) es
    → (before : List Entry) × (after : List Entry) × (es ≡ before ++ after)
      × (put_entry k v es ≡ before ++ record { key = k; value = v } ∷ after)
      × All (λ (e : Entry). bytes_lt e.key k ≡ true) before
unfolding put_entry
put_entry-split k v [] h = ([], [], refl, refl, tt)
put_entry-split k v (e ∷ es) h = elim (Bool-cases (bytes_lt k e.key)) [
  | inl below ↦ ([], e ∷ es, refl, rw below, tt)
  | inr above ↦ elim (Bool-cases (bytes_lt e.key k)) [
    | inl later ↦
        let (before, after, split, put, low) = put_entry-split k v es h.1 in
        (e ∷ before, after, ap (◌∷◌ e) split, rw (above, later) (ap (◌∷◌ e) put), (later, low))
    | inr equal ↦ absurd (h.0 (bytes_lt-connex e.key k equal above))
  ]
]

Issued-later : (m n : ℕ) (es : List Entry) → m ≤ n → All (Issued m) es → All (Issued n) es
Issued-later m n [] le h = tt
Issued-later m n (e ∷ es) le ((ts, seq, eq, h, k), rest) =
    ((ts, seq, eq, h, omega arith), Issued-later m n es le rest)

put_entry-Issued :
    (k v : Bytes) (n : ℕ) (es : List Entry)
    → Issued n (record { key = k; value = v })
    → All (Issued n) es
    → All (Issued n) (put_entry k v es)
unfolding put_entry
put_entry-Issued k v n [] i h = (i, tt)
put_entry-Issued k v n (e ∷ es) i h = elim (Bool-cases (bytes_lt k e.key)) [
  | inl below ↦ rw below (i, h)
  | inr above ↦ elim (Bool-cases (bytes_lt e.key k)) [
    | inl later ↦ rw (above, later) (h.0, put_entry-Issued k v n es i h.1)
    | inr equal ↦ rw (above, equal) (i, h.1)
  ]
]

module _ (db : Bolt) (codec : Codec) where
  open db use {
    Bucket, entries, sequence, next_sequence, next_sequence_lem, entries-put, sequence-put,
  }

  enqueue-entries :
      (s : Spool db codec) (rep : codec.Report) (now : ℕ) (raw : Bytes)
      → codec.marshal rep ≡ some raw
      → let b = (enqueue db codec s (some rep) now true).0.bucket in
        (entries b
          ≡ put_entry
              (make_key (stamp db codec rep now) (suc (sequence s.bucket)))
              raw
              (entries s.bucket))
        × (sequence b ≡ suc (sequence s.bucket))
  unfolding enqueue
  enqueue-entries s rep now raw em =
      let (first, second, same) = next_sequence_lem s.bucket in
      let key = λ (n : ℕ). make_key (stamp db codec rep now) n in
      let nx = next_sequence s.bucket in
      rw (em, enqueue)
        (
          entries-put (key nx.0) raw nx.1
              ∙ ap (λ n. put_entry (key n) raw (entries nx.1)) first
              ∙ ap (put_entry (key (suc (sequence s.bucket))) raw) same,
          sequence-put (key nx.0) raw nx.1 ∙ second,
        )

  -- A report that can be encoded and whose time stamp and next sequence number fit 64 bits is put
  -- behind every entry of a smaller key and before the others, none of which is overwritten when
  -- all keys carry issued sequence numbers; it can be read back, and the keys stay issued.
  pub enqueue-inserts :
      (s : Spool db codec) (rep : codec.Report) (now : ℕ) (raw : Bytes)
      → codec.marshal rep ≡ some raw
      → stamp db codec rep now < 2 ^ 64
      → suc (sequence s.bucket) < 2 ^ 64
      → All (Issued (sequence s.bucket)) (entries s.bucket)
      → let t = (enqueue db codec s (some rep) now true).0 in
        let new = make_key (stamp db codec rep now) (suc (sequence s.bucket)) in
        (before : List Entry) × (after : List Entry) × (entries s.bucket ≡ before ++ after)
        × (entries t.bucket ≡ before ++ record { key = new; value = raw } ∷ after)
        × All (λ (e : Entry). bytes_lt e.key new ≡ true) before
        × (codec.unmarshal raw ≡ some rep)
        × All (Issued (sequence t.bucket)) (entries t.bucket)
  enqueue-inserts s rep now raw em ht hs issued =
      let n = sequence s.bucket in
      let ts = stamp db codec rep now in
      let new = make_key ts (suc n) in
      let (es, sq) = enqueue-entries s rep now raw em in
      let fresh = All-map (entries s.bucket) (λ e i. make_key-fresh n ts e ht hs i) issued in
      let (before, after, split, put, low) = put_entry-split new raw (entries s.bucket) fresh in
      (
        before,
        after,
        split,
        es ∙ put,
        low,
        codec.unmarshal-marshal rep raw em,
        rw (es, sq)
            (put_entry-Issued new raw (suc n) (entries s.bucket) (ts, suc n, refl, ht, omega arith)
              (Issued-later n (suc n) (entries s.bucket) (omega arith) issued)),
      )
