-- ===== src/Spool/Store.antt =====
-- What the spool relies on and the repository does not implement: one bbolt bucket, and the encoding
-- of reports by protobuf. Each law is what the library documents.
use metalwatch.Base.{ℕ, suc, ◌≡◌, true, Option, some, List, [], ◌∷◌, if◌then◌else◌}
use metalwatch.Base.Int.{ℤ}
use metalwatch.Base.Bytes.{Bytes, bytes_lt}

pub record Entry : Type 0 where
  pub key : Bytes
  pub value : Bytes

-- A put in key order; an equal key is overwritten.
unfoldable pub put_entry : Bytes → Bytes → List Entry → List Entry
put_entry k v [] = record { key = k; value = v } ∷ []
put_entry k v (e ∷ es) =
    if bytes_lt k e.key
    then record { key = k; value = v } ∷ e ∷ es
    else if bytes_lt e.key k
    then e ∷ put_entry k v es
    else record { key = k; value = v } ∷ es

unfoldable pub delete_entry : Bytes → List Entry → List Entry
delete_entry k [] = []
delete_entry k (e ∷ es) =
    if bytes_lt k e.key then e ∷ es else if bytes_lt e.key k then e ∷ delete_entry k es else es

abbrev pub IsAfter : Bytes → List Entry → Type 0
IsAfter k [] = Unit {0}
IsAfter k (e ∷ es) = bytes_lt k e.key ≡ true

-- A cursor visits the entries in byte order, each key once.
abbrev pub IsSorted : List Entry → Type 0
IsSorted [] = Unit {0}
IsSorted (e ∷ es) = IsAfter e.key es × IsSorted es

-- A bucket inside an update transaction. A failed transaction is rolled back and leaves no bucket
-- behind: the operations of the spool take that as an outcome of their own.
pub record Bolt : Type 1 where
  pub Bucket : Type 0
  pub entries : Bucket → List Entry
  pub sequence : Bucket → ℕ
  pub next_sequence : Bucket → ℕ × Bucket
  pub put : Bytes → Bytes → Bucket → Bucket
  pub delete : Bytes → Bucket → Bucket
  pub entries_sorted : (b : Bucket) → IsSorted (entries b)
  pub next_sequence_lem :
      (b : Bucket)
      → ((next_sequence b).0 ≡ suc (sequence b))
        × (sequence (next_sequence b).1 ≡ suc (sequence b))
        × (entries (next_sequence b).1 ≡ entries b)
  pub entries-put : (k v : Bytes) (b : Bucket) → entries (put k v b) ≡ put_entry k v (entries b)
  pub sequence-put : (k v : Bytes) (b : Bucket) → sequence (put k v b) ≡ sequence b
  pub entries-delete : (k : Bytes) (b : Bucket) → entries (delete k b) ≡ delete_entry k (entries b)
  pub sequence-delete : (k : Bytes) (b : Bucket) → sequence (delete k b) ≡ sequence b

-- proto.Marshal and proto.Unmarshal of an AgentReport; `timestamp` is in milliseconds.
pub record Codec : Type 1 where
  pub Report : Type 0
  pub timestamp : Report → ℤ
  pub marshal : Report → Option Bytes
  pub unmarshal : Bytes → Option Report
  pub unmarshal-marshal : (r : Report) (raw : Bytes) → marshal r ≡ some raw → unmarshal raw ≡ some r
