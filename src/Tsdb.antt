-- ===== src/Tsdb.antt =====
-- The encoding of chunks in the time-series store, backend/internal/adapter/tsdb/encode.go. A uint64
-- is a number below 2 ^ 64, an int64 its two's complement, and a float64 its bits. Positions are
-- absolute, as in the source.
pub mod Varint
pub mod Xor
pub mod Size
pub mod RoundTrip
use Prim.Native.Nat.{bit_xor}
use metalwatch.Base.{
  ℕ, zero, suc, ◌+◌, ◌-◌, ◌*◌, ◌/◌, ◌%◌, ◌^◌, min, Bool, true, false, ◌&&◌, Option, none, some,
  List, [], ◌∷◌, ◌++◌, length, take, drop, ltb, leb, ◌==◌, if◌then◌else◌,
}
use metalwatch.Base.Int.{ℤ, pos, negsuc, sub_ℕ}
use metalwatch.Base.Bytes.{Bytes}

-- binary.AppendUvarint: seven bits to a byte, the lowest first; a uint64 takes ten bytes at most.
unfoldable pub uvarint_groups : ℕ → ℕ → Bytes
uvarint_groups zero v = v ∷ []
uvarint_groups (suc left) v =
    let high = uvarint_groups left (v / 128) in if leb 128 v then (128 + v % 128) ∷ high else v ∷ []

unfoldable pub uvarint_bytes : ℕ → Bytes
uvarint_bytes v = uvarint_groups 9 v

-- binary.Uvarint, with the number of bytes that it took; `none` is a count of 0 or below, for an end
-- too early or a number above 64 bits. `place` is 2 to the shift; the sum stays below 2 ^ 64.
unfoldable pub uvarint_loop : ℕ → Bytes → ℕ → ℕ → ℕ → Option (ℕ × ℕ)
uvarint_loop left [] sum place n = none
uvarint_loop zero (b ∷ bs) sum place n = none
uvarint_loop (suc left) (b ∷ bs) sum place n =
    let longer = uvarint_loop left bs (sum + b % 128 * place) (place * 128) (suc n) in
    if leb 128 b
    then longer
    else if left == 0 && ltb 1 b
    then none
    else some (sum + b * place, suc n)

unfoldable pub read_uvarint : Bytes → Option (ℕ × ℕ)
read_uvarint bs = uvarint_loop 10 bs 0 1 0

-- The sign in the lowest bit, as binary.AppendVarint and binary.Varint have it.
unfoldable pub zigzag : ℕ → ℕ
zigzag w = if ltb w (2 ^ 63) then 2 * w else 2 ^ 65 - 1 - 2 * w

unfoldable pub unzigzag : ℕ → ℕ
unzigzag u = if u % 2 == 0 then u / 2 else 2 ^ 64 - 1 - u / 2

unfoldable pub varint_bytes : ℕ → Bytes
varint_bytes w = uvarint_bytes (zigzag w)

unfoldable pub read_varint : Bytes → Option (ℕ × ℕ)
read_varint bs = elim (read_uvarint bs) [ none ↦ none | some (u, n) ↦ some (unzigzag u, n) ]

unfoldable pub little_endian : ℕ → ℕ → Bytes
little_endian zero v = []
little_endian (suc k) v = (v % 256) ∷ little_endian k (v / 256)

-- The first k bytes; `none` where there are fewer.
unfoldable pub from_little : ℕ → Bytes → Option ℕ
from_little zero bs = some 0
from_little (suc k) [] = none
from_little (suc k) (b ∷ bs) = elim (from_little k bs) [
  | none ↦ none
  | some high ↦ some (b + 256 * high)
]

-- The bytes of `x` from place p down that are 0.
unfoldable pub lead_zeros : ℕ → ℕ → ℕ
lead_zeros zero x = 0
lead_zeros (suc p) x = let more = lead_zeros p x in if x / 256 ^ p % 256 == 0 then suc more else 0

-- The bytes of `x` from place i up that are 0, of those that are left.
unfoldable pub trail_zeros : ℕ → ℕ → ℕ → ℕ
trail_zeros zero i x = 0
trail_zeros (suc left) i x =
    let more = trail_zeros left (suc i) x in if x / 256 ^ i % 256 == 0 then suc more else 0

-- So many bytes of `x`, from place p down.
unfoldable pub bytes_down : ℕ → ℕ → ℕ → Bytes
bytes_down zero p x = []
bytes_down (suc left) p x = (x / 256 ^ p % 256) ∷ bytes_down left (p - 1) x

unfoldable pub xor_bytes : ℕ → ℕ → Bytes
xor_bytes v prev =
    let x = bit_xor v prev in
    let lead = lead_zeros 8 x in
    let sig = 8 - lead - trail_zeros 8 0 x in
    if x == 0
    then 0 ∷ []
    else 1 ∷ (uvarint_bytes lead ++ (uvarint_bytes sig ++ bytes_down sig (7 - lead) x))

-- A result, `ErrBadChunk`, or a panic: an index out of range.
pub data Read {ℓ} (A : Type ℓ) : Type ℓ where
  got : A → Read A
  bad : Read A
  panics : Read A

infixl 5 ◌>>=◌
abbrev pub ◌>>=◌ {ℓ κ} : {A : Type ℓ} {B : Type κ} → Read A → (A → Read B) → Read B
got a >>= f = f a
bad >>= f = bad
panics >>= f = panics

-- `binary` returns a count of 0 or below.
abbrev pub or_bad {ℓ} : {A : Type ℓ} → Option A → Read A
or_bad none = bad
or_bad (some a) = got a

-- `x<<8 | b` for each byte: the low bits are clear, so that `|` is `+`.
unfoldable pub join_bytes : ℕ → Bytes → ℕ
join_bytes x [] = x
join_bytes x (b ∷ bs) = join_bytes (x * 256 % 2 ^ 64 + b) bs

-- The end of `readXOR`, with `body` from position p on. A `sig` from 2 ^ 63 on is a negative int: the
-- position goes back, and no byte is read. A sum that passes int64 is no more than the length, and
-- the loop runs out of the data.
unfoldable pub xor_body : Bytes → ℕ → ℕ → ℕ → ℕ → Read (ℕ × ℤ)
xor_body body p lead sig prev =
    let used = (lead + sig) % 2 ^ 64 in
    let x = join_bytes 0 (take sig body) in
    if ltb 8 used
    then bad
    else if leb (2 ^ 63) sig
    then got (bit_xor 0 prev, sub_ℕ p (2 ^ 64 - sig))
    else if leb (2 ^ 63) (p + sig)
    then panics
    else if ltb (length body) sig
    then bad
    else got (bit_xor (x * 256 ^ (8 - used) % 2 ^ 64) prev, pos (p + sig))

-- The two counts behind the mark, and what follows them from position p on.
unfoldable pub xor_fields : Bytes → ℕ → ℕ → Read (ℕ × ℤ)
xor_fields rest p prev = do
  (lead, n) ← or_bad (read_uvarint rest)
  (sig, m) ← or_bad (read_uvarint (drop n rest))
  xor_body (drop m (drop n rest)) (p + n + m) lead sig prev

-- `readXOR` at position p, with the data from there on.
unfoldable pub xor_at : Bytes → ℕ → ℕ → Read (ℕ × ℤ)
xor_at [] p prev = bad
xor_at (b ∷ rest) p prev = if b == 0 then got (prev, pos (p + 1)) else xor_fields rest (p + 1) prev

unfoldable pub read_xor : Bytes → ℤ → ℕ → Read (ℕ × ℤ)
read_xor bytes (pos p) prev = xor_at (drop p bytes) p prev
read_xor bytes (negsuc p) prev = panics

-- The loop over the time stamps that are left, from the last one.
unfoldable pub delta_bytes : ℕ → List ℕ → Bytes
delta_bytes prev [] = []
delta_bytes prev (ts ∷ tss) = varint_bytes ((ts + 2 ^ 64 - prev) % 2 ^ 64) ++ delta_bytes ts tss

unfoldable pub value_bytes : ℕ → List ℕ → Bytes
value_bytes prev [] = []
value_bytes prev (v ∷ vs) = xor_bytes v prev ++ value_bytes v vs

-- The aggregate tier: two values to a point.
unfoldable pub pair_bytes : ℕ → ℕ → List ℕ → List ℕ → Bytes
pair_bytes prev_a prev_m [] ms = []
pair_bytes prev_a prev_m (a ∷ avgs) [] = []
pair_bytes prev_a prev_m (a ∷ avgs) (m ∷ ms) =
    xor_bytes a prev_a ++ (xor_bytes m prev_m ++ pair_bytes a m avgs ms)

abbrev encode_version : ℕ
encode_version = 1

-- `none` is a panic, on an empty column; `max` is read also where it is not written.
unfoldable pub encode_columns : List ℕ → List ℕ → List ℕ → Bool → Option Bytes
encode_columns (t ∷ ts) (a ∷ avgs) (m ∷ ms) agg = some (
    encode_version
    ∷ (uvarint_bytes t
        ++ (delta_bytes t ts
            ++ (little_endian 8 a
                ++ (if agg
                    then little_endian 8 m ++ pair_bytes a m avgs ms
                    else value_bytes a avgs)))))
encode_columns _ _ _ agg = none

-- The aggregate tier cuts its columns to one length.
unfoldable pub encode_chunk : List ℕ → List ℕ → List ℕ → Bool → Option Bytes
encode_chunk tss avg max false = encode_columns tss avg max false
encode_chunk tss avg max true =
    let n = min (length tss) (min (length avg) (length max)) in
    encode_columns (take n tss) (take n avg) (take n max) true

pub record Chunk : Type 0 where
  pub tss : List ℕ
  pub avg : List ℕ
  pub max : List ℕ

unfoldable pub read_deltas : ℕ → Bytes → ℕ → ℕ → Read (List ℕ × ℕ)
read_deltas zero bytes p ts = got ([], p)
read_deltas (suc left) bytes p ts = do
  (delta, n) ← or_bad (read_varint (drop p bytes))
  let ts' = (ts + delta) % 2 ^ 64
  (more, p') ← read_deltas left bytes (p + n) ts'
  got (ts' ∷ more, p')

unfoldable pub read_values : ℕ → Bytes → ℤ → ℕ → Read (List ℕ)
read_values zero bytes p prev = got []
read_values (suc left) bytes p prev = do
  (v, p') ← read_xor bytes p prev
  more ← read_values left bytes p' v
  got (v ∷ more)

unfoldable pub read_pairs : ℕ → Bytes → ℤ → ℕ → ℕ → Read (List ℕ × List ℕ)
read_pairs zero bytes p prev_a prev_m = got ([], [])
read_pairs (suc left) bytes p prev_a prev_m = do
  (a, p1) ← read_xor bytes p prev_a
  (m, p2) ← read_xor bytes p1 prev_m
  (avg, max) ← read_pairs left bytes p2 a m
  got (a ∷ avg, m ∷ max)

-- The values, from the first one on; `left` points come behind it.
unfoldable pub read_columns : ℕ → Bytes → ℕ → List ℕ → Bool → Read Chunk
read_columns left bytes p tss false = do
  a ← or_bad (from_little 8 (drop p bytes))
  avg ← read_values left bytes (pos (p + 8)) a
  got (record { tss = tss; avg = a ∷ avg; max = [] })
read_columns left bytes p tss true = do
  a ← or_bad (from_little 8 (drop p bytes))
  m ← or_bad (from_little 8 (drop (p + 8) bytes))
  (avg, max) ← read_pairs left bytes (pos (p + 16)) a m
  got (record { tss = tss; avg = a ∷ avg; max = m ∷ max })

unfoldable pub decode_points : Bytes → ℕ → Bool → Read Chunk
decode_points bytes left agg = do
  (ts, n) ← or_bad (read_uvarint (drop 1 bytes))
  (tss, p) ← read_deltas left bytes (1 + n) ts
  read_columns left bytes p (ts ∷ tss) agg

-- A number of points below 1 is 0 here.
unfoldable pub decode_chunk : Bytes → ℕ → Bool → Read Chunk
decode_chunk [] points agg = bad
decode_chunk (version ∷ bytes) zero agg = bad
decode_chunk (version ∷ bytes) (suc left) agg =
    if version == encode_version then decode_points (version ∷ bytes) left agg else bad
