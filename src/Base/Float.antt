-- ===== src/Base/Float.antt =====
-- float64 as its 64-bit pattern (math.Float64bits), with the comparisons of IEEE 754: a NaN is
-- unequal to everything and unordered, and the two zeros are equal.
pub mod Sum
use Prim.Native.Nat.{ℕ, ◌%◌, ◌^◌, ◌≤◌}
use mathlib.Core.Path.{◌≡◌}
use mathlib.Core.Bool.{Bool, true, false, ◌&&◌, not}
use native.Mathlib.Omega.{arith}
use metalwatch.Base.Tests.{ltb, leb, if◌then◌else◌}
use metalwatch.Base.Int.{ℤ, pos, sub_ℕ, ltb_ℤ, leb_ℤ, eqb_ℤ}

abbrev pub Float64 : Type 0
Float64 = ℕ

-- The exponent and fraction bits: the pattern without its sign.
abbrev magnitude : Float64 → ℕ
magnitude x = x % 2 ^ 63

unfoldable pub is_nan : Float64 → Bool
is_nan x = ltb 0x7ff0000000000000 (magnitude x)

-- An integer that stands in the order of the number, the same for both zeros.
unfoldable pub rank : Float64 → ℤ
rank x = if ltb x (2 ^ 63) then pos (magnitude x) else sub_ℕ 0 (magnitude x)

unfoldable pub flt : Float64 → Float64 → Bool
flt x y = not (is_nan x) && not (is_nan y) && ltb_ℤ (rank x) (rank y)

unfoldable pub fle : Float64 → Float64 → Bool
fle x y = not (is_nan x) && not (is_nan y) && leb_ℤ (rank x) (rank y)

unfoldable pub feq : Float64 → Float64 → Bool
feq x y = not (is_nan x) && not (is_nan y) && eqb_ℤ (rank x) (rank y)

-- Where the first number is under a bound, so is every smaller one.
pub fle_trans : (x y z : Float64) → fle x y ≡ true → fle y z ≡ true → fle x z ≡ true
unfolding fle
fle_trans x y z h k = ground arith

pub flt→fle : (x y : Float64) → flt x y ≡ true → fle x y ≡ true
unfolding flt fle
flt→fle x y h = ground arith

pub not-fle-flt :
    (x y : Float64) → is_nan x ≡ false → is_nan y ≡ false → fle x y ≡ false → flt y x ≡ true
unfolding flt fle
not-fle-flt x y h k e = ground arith

-- Neither negative nor a NaN: such numbers stand in the order of their patterns.
abbrev pub IsNonneg : Float64 → Type 0
IsNonneg x = x ≤ 0x7ff0000000000000

pub flt-ltb : (x y : Float64) → IsNonneg x → IsNonneg y → flt x y ≡ ltb x y
unfolding flt is_nan rank
flt-ltb x y h k = ground arith

pub fle-leb : (x y : Float64) → IsNonneg x → IsNonneg y → fle x y ≡ leb x y
unfolding fle is_nan rank
fle-leb x y h k = ground arith
