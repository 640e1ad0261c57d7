-- ===== src/Examples/Memory.antt =====
-- A bucket in memory and a codec of one number, which have the laws of bbolt and protobuf.
use metalwatch.Base.{
  ℕ, suc, ◌≡◌, refl, subst, Bool-cases, inl, inr, true, Option, none, some, List, [], ◌∷◌, arith,
}
use metalwatch.Base.Int.{pos}
use metalwatch.Base.Bytes.{Bytes, bytes_lt, bytes_lt-connex, bytes_lt_trans}
use metalwatch.Spool.Store.{Entry, Bolt, Codec, put_entry, delete_entry, IsAfter, IsSorted}

put_entry-IsAfter :
    (j k v : Bytes) (es : List Entry)
    → bytes_lt j k ≡ true
    → IsAfter j es
    → IsAfter j (put_entry k v es)
unfolding put_entry
put_entry-IsAfter j k v [] h a = h
put_entry-IsAfter j k v (e ∷ es) h a = ground arith

pub put_entry-IsSorted : (k v : Bytes) (es : List Entry) → IsSorted es → IsSorted (put_entry k v es)
unfolding put_entry
put_entry-IsSorted k v [] s = (tt, tt)
put_entry-IsSorted k v (e ∷ es) s = elim (Bool-cases (bytes_lt k e.key)) [
  | inl below ↦ rw below (below, s)
  | inr above ↦ elim (Bool-cases (bytes_lt e.key k)) [
    | inl later ↦
        rw (above, later) (put_entry-IsAfter e.key k v es later s.0, put_entry-IsSorted k v es s.1)
    | inr equal ↦
        rw (above, equal) (subst (λ j. IsAfter j es) (bytes_lt-connex e.key k equal above) s.0, s.1)
  ]
]

delete_entry-IsAfter :
    (j k : Bytes) (es : List Entry) → IsSorted es → IsAfter j es → IsAfter j (delete_entry k es)
unfolding delete_entry
delete_entry-IsAfter j k [] s a = a
delete_entry-IsAfter j k (e ∷ []) s a = ground arith
delete_entry-IsAfter j k (e ∷ f ∷ es) s a = ground (arith, bytes_lt_trans j e.key f.key)

pub delete_entry-IsSorted :
    (k : Bytes) (es : List Entry) → IsSorted es → IsSorted (delete_entry k es)
unfolding delete_entry
delete_entry-IsSorted k [] s = tt
delete_entry-IsSorted k (e ∷ es) s = elim (Bool-cases (bytes_lt k e.key)) [
  | inl below ↦ rw below s
  | inr above ↦ elim (Bool-cases (bytes_lt e.key k)) [
    | inl later ↦
        rw (above, later) (delete_entry-IsAfter e.key k es s.1 s.0, delete_entry-IsSorted k es s.1)
    | inr equal ↦ rw (above, equal) s.1
  ]
]

pub record Bucket : Type 0 where
  pub entries : List Entry
  pub sorted : IsSorted entries
  pub sequence : ℕ

abbrev pub memory : Bolt
memory = record {
  Bucket = Bucket;
  entries = λ b. b.entries;
  sequence = λ b. b.sequence;
  next_sequence = λ b. (suc b.sequence, record b { sequence = suc b.sequence });
  put = λ k v b. record {
    entries = put_entry k v b.entries;
    sorted = put_entry-IsSorted k v b.entries b.sorted;
    sequence = b.sequence;
  };
  delete = λ k b. record {
    entries = delete_entry k b.entries;
    sorted = delete_entry-IsSorted k b.entries b.sorted;
    sequence = b.sequence;
  };
  entries_sorted = λ b. b.sorted;
  next_sequence_lem = λ b. (refl, refl, refl);
  entries-put = λ k v b. refl;
  sequence-put = λ k v b. refl;
  entries-delete = λ k b. refl;
  sequence-delete = λ k b. refl;
}

abbrev pub read_number : Bytes → Option ℕ
read_number (n ∷ []) = some n
read_number _ = none

pub read_number_back : (n : ℕ) (raw : Bytes) → some (n ∷ []) ≡ some raw → read_number raw ≡ some n
read_number_back n raw e = ground arith

-- A report is its time stamp.
abbrev pub numbers : Codec
numbers = record {
  Report = ℕ;
  timestamp = pos;
  marshal = λ n. some (n ∷ []);
  unmarshal = read_number;
  unmarshal-marshal = read_number_back;
}
