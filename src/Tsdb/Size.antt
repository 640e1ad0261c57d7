-- ===== src/Tsdb/Size.antt =====
-- How long the parts of a chunk are at most.
use Prim.Native.Nat.{bit_xor}
use metalwatch.Base.{
  ℕ, zero, suc, ◌+◌, ◌-◌, ◌*◌, ◌/◌, ◌%◌, ◌^◌, ◌≤◌, List, [], ◌∷◌, ◌++◌, length, length-append,
  arith,
}
use metalwatch.Tsdb.{
  uvarint_groups, uvarint_bytes, varint_bytes, zigzag, lead_zeros, trail_zeros, bytes_down,
  xor_bytes, delta_bytes, value_bytes, pair_bytes,
}
use metalwatch.Tsdb.Xor.{length-bytes_down}

uvarint_groups-le : (k v : ℕ) → length (uvarint_groups k v) ≤ suc k
unfolding uvarint_groups
uvarint_groups-le zero v = omega arith
uvarint_groups-le (suc k) v = ground (arith, uvarint_groups-le k (v / 128))

pub uvarint_bytes-le : (v : ℕ) → length (uvarint_bytes v) ≤ 10
unfolding uvarint_bytes
uvarint_bytes-le v = uvarint_groups-le 9 v

xor_bytes-le : (v prev : ℕ) → length (xor_bytes v prev) ≤ 29
unfolding xor_bytes
xor_bytes-le v prev =
    let x = bit_xor v prev in
    let lead = lead_zeros 8 x in
    let sig = 8 - lead - trail_zeros 8 0 x in
    let bs = bytes_down sig (7 - lead) x in
    ground (
      arith,
      length-append (uvarint_bytes lead) (uvarint_bytes sig ++ bs),
      length-append (uvarint_bytes sig) bs,
      uvarint_bytes-le lead,
      uvarint_bytes-le sig,
      length-bytes_down sig (7 - lead) x,
    )

pub delta_bytes-le : (prev : ℕ) (tss : List ℕ) → length (delta_bytes prev tss) ≤ 10 * length tss
unfolding delta_bytes varint_bytes
delta_bytes-le prev [] = omega arith
delta_bytes-le prev (t ∷ tss) =
    let delta = (t + 2 ^ 64 - prev) % 2 ^ 64 in
    omega (
      arith,
      length-append (uvarint_bytes (zigzag delta)) (delta_bytes t tss),
      uvarint_bytes-le (zigzag delta),
      delta_bytes-le t tss,
    )

pub value_bytes-le : (prev : ℕ) (vs : List ℕ) → length (value_bytes prev vs) ≤ 29 * length vs
unfolding value_bytes
value_bytes-le prev [] = omega arith
value_bytes-le prev (v ∷ vs) = omega (
  arith,
  length-append (xor_bytes v prev) (value_bytes v vs),
  xor_bytes-le v prev,
  value_bytes-le v vs,
)

pub pair_bytes-le :
    (prev_a prev_m : ℕ) (avgs maxs : List ℕ)
    → length (pair_bytes prev_a prev_m avgs maxs) ≤ 58 * length avgs
unfolding pair_bytes
pair_bytes-le prev_a prev_m [] maxs = omega arith
pair_bytes-le prev_a prev_m (a ∷ avgs) [] = omega arith
pair_bytes-le prev_a prev_m (a ∷ avgs) (m ∷ maxs) = omega (
  arith,
  length-append (xor_bytes a prev_a) (xor_bytes m prev_m ++ pair_bytes a m avgs maxs),
  length-append (xor_bytes m prev_m) (pair_bytes a m avgs maxs),
  xor_bytes-le a prev_a,
  xor_bytes-le m prev_m,
  pair_bytes-le a m avgs maxs,
)
