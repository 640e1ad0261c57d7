-- ===== src/Spool.antt =====
-- The agent's offline queue, agent/internal/spool/spool.go. An operation that writes takes the
-- outcome of its transaction: false is an error, after which bbolt has rolled back.
pub mod Store
pub mod Capacity
pub mod Enqueue
pub mod Replay
use metalwatch.Base.{
  ℕ, zero, suc, ◌-◌, Bool, true, false, Option, none, some, List, [], ◌∷◌, ◌++◌, take, length, ltb,
  if◌then◌else◌,
}
use metalwatch.Base.Int.{ℤ, pos, pos_part, leb_ℤ, ◌-ℤ◌}
use metalwatch.Base.Bytes.{Bytes, big_endian, bytes_lt}
use Store.{Entry, Bolt, Codec}

unfoldable pub make_key : ℕ → ℕ → Bytes
make_key ts seq = big_endian 8 ts ++ big_endian 8 seq

abbrev pub keys : List Entry → List Bytes
keys [] = []
keys (e ∷ es) = e.key ∷ keys es

module _ (db : Bolt) (codec : Codec) where
  open db use {Bucket, entries, next_sequence, put, delete}
  open codec use {Report, timestamp, marshal, unmarshal}

  pub record Spool : Type 0 where
    pub bucket : Bucket
    pub max_entries : ℤ

  pub record Queued : Type 0 where
    pub key : Bytes
    pub report : Report

  unfoldable pub open_spool : Bucket → ℤ → Spool
  open_spool b max = record {
    bucket = b;
    max_entries = if leb_ℤ max (pos 0) then pos 20000 else max;
  }

  -- A report with no timestamp gets the clock's, in milliseconds.
  unfoldable pub stamp : Report → ℕ → ℕ
  stamp rep now = if leb_ℤ (timestamp rep) (pos 0) then now else pos_part (timestamp rep)

  insert_raw : Spool → ℕ → Bytes → Spool
  insert_raw s ts raw =
      let (seq, b) = next_sequence s.bucket in record s { bucket = put (make_key ts seq) raw b }

  -- The result is false where the call returns an error.
  unfoldable pub enqueue : Spool → Option Report → ℕ → Bool → Spool × Bool
  unfolding insert_raw
  enqueue s none now committed = (s, true)
  enqueue s (some rep) now committed = elim (marshal rep) [
    | none ↦ (s, false)
    | some raw ↦ if committed then (insert_raw s (stamp rep now) raw, true) else (s, false)
  ]

  unfoldable pub delete_keys : List Bytes → Bucket → Bucket
  delete_keys [] b = b
  delete_keys (k ∷ ks) b = delete_keys ks (delete k b)

  unfoldable pub overflow : Spool → ℕ
  overflow s = pos_part (pos (length (entries s.bucket)) -ℤ s.max_entries)

  -- The keys are read first, then the oldest are deleted; with the number of them.
  unfoldable pub trim : Spool → Bool → Spool × Option ℕ
  trim s committed =
      if committed
      then (
        record s { bucket = delete_keys (take (overflow s) (keys (entries s.bucket))) s.bucket },
        some (overflow s),
      )
      else (s, none)

  -- The loop of `Peek`: at most n decoded entries, and the keys of the broken ones on the way.
  unfoldable pub peek_loop : ℕ → List Entry → List Queued × List Bytes
  peek_loop n [] = ([], [])
  peek_loop zero (e ∷ es) = ([], [])
  peek_loop (suc n) (e ∷ es) = elim (unmarshal e.value) [
    | none ↦ let (out, corrupt) = peek_loop (suc n) es in (out, e.key ∷ corrupt)
    | some rep ↦
        let (out, corrupt) = peek_loop n es in (record { key = e.key; report = rep } ∷ out, corrupt)
  ]

  unfoldable pub ack : Spool → List Bytes → Bool → Spool × Bool
  ack s [] committed = (s, true)
  ack s (k ∷ ks) committed =
      if committed then (record s { bucket = delete_keys (k ∷ ks) s.bucket }, true) else (s, false)

  abbrev is_empty {ℓ} : {A : Type ℓ} → List A → Bool
  is_empty [] = true
  is_empty (x ∷ xs) = false

  -- `readable` is the outcome of the view, `committed` that of the deletion of broken entries.
  unfoldable pub peek : Spool → ℕ → Bool → Bool → Spool × List Queued × Bool
  unfolding ack
  peek s zero readable committed = (s, [], true)
  peek s (suc n) readable committed =
      let (out, corrupt) = peek_loop (suc n) (entries s.bucket) in
      if readable
      then (let (s', done) = ack s corrupt committed in (s', out, done))
      else (s, [], false)

  -- Each round deletes the first entry while its key is below the cutoff's. A round takes an entry,
  -- so as many rounds as there are entries are enough.
  unfoldable pub purge_loop : ℕ → Bytes → Bucket → Bucket × ℕ
  purge_loop zero cut b = (b, 0)
  purge_loop (suc rounds) cut b = elim (entries b) [
    | [] ↦ (b, 0)
    | e ∷ es ↦
        let (b', removed) = purge_loop rounds cut (delete e.key b) in
        if bytes_lt e.key cut then (b', suc removed) else (b, 0)
  ]

  -- The cutoff is in milliseconds.
  unfoldable pub purge : Spool → ℕ → Bool → Spool × Option ℕ
  purge s cutoff committed =
      let (b, removed) = purge_loop (length (entries s.bucket)) (big_endian 8 cutoff) s.bucket in
      if committed then (record s { bucket = b }, some removed) else (s, none)

  unfoldable pub len : Spool → ℕ
  len s = length (entries s.bucket)
