-- ===== src/Base/Float/Sum.antt =====
-- Sums and products of float64 with the rounding of IEEE 754, to the nearest and to an even last bit
-- on a tie. A magnitude is a whole number of the least positive float64.
use Prim.Native.Nat.{ℕ, zero, suc, ◌+◌, ◌-◌, ◌*◌, ◌/◌, ◌%◌, ◌^◌, ◌≤◌, ◌<◌, min}
use mathlib.Core.Path.{◌≡◌, refl}
use mathlib.Core.Logic.{inl, inr}
use mathlib.Core.Bool.{Bool, true, false, ◌&&◌, ◌||◌, not}
use native.Mathlib.Omega.{arith}
use metalwatch.Base.Tests.{ltb, leb, if◌then◌else◌, ◌==◌, Bool-cases}
use metalwatch.Base.Int.{ℤ, pos, negsuc, sub_ℕ}
use metalwatch.Base.Float.{Float64, is_nan, magnitude, IsNonneg}

abbrev pub infinity : Float64
infinity = 0x7ff0000000000000

-- The magnitude of a pattern without sign; each step is one binade.
unfoldable units : ℕ → ℕ → ℕ
units zero p = p
units (suc k) p = elim (ltb p 0x20000000000000) [
  | true ↦ p
  | false ↦ 2 * units k (p - 0x10000000000000)
]

-- A number in quarters to a whole number, the nearest, the even one of two.
abbrev nearest : ℕ → ℕ
nearest n = if ltb 2 (n % 4) || (n % 4 == 2) && (n / 4 % 2 == 1) then suc (n / 4) else n / 4

-- Half of a number in quarters; a part lost below a quarter keeps the last bit set.
abbrev halve : ℕ → ℕ
halve n = 2 * (n / 4) + min 1 (n % 4)

-- The pattern of a number in quarters; each step is one binade.
unfoldable round : ℕ → ℕ → ℕ → ℕ
round zero s n = s * 0x10000000000000 + nearest n
round (suc k) s n = elim (ltb n 0x80000000000000) [
  | true ↦ s * 0x10000000000000 + nearest n
  | false ↦ round k (suc s) (halve n)
]

unfoldable halve_times : ℕ → ℕ → ℕ
halve_times zero n = n
halve_times (suc k) n = halve_times k (halve n)

unfoldable size_of : Float64 → ℕ
unfolding units
size_of x = units 2046 (magnitude x)

unfoldable is_negative : Float64 → Bool
is_negative x = leb 0x8000000000000000 x

unfoldable with_sign : Bool → ℕ → Float64
with_sign true m = 0x8000000000000000 + m
with_sign false m = m

unfoldable not_a_number : Float64
not_a_number = 0x7ff8000000000001

unfoldable is_inf : Float64 → Bool
is_inf x = magnitude x == infinity

unfoldable same_sign : Float64 → Float64 → Bool
unfolding is_negative
same_sign x y = if is_negative x then is_negative y else not (is_negative y)

unfoldable sum_size : ℕ → ℕ
unfolding round
sum_size n = min infinity (round 2100 0 (4 * n))

-- `x + y` in Go.
unfoldable pub fadd : Float64 → Float64 → Float64
unfolding sum_size size_of is_negative with_sign not_a_number is_inf same_sign
fadd x y =
    let a = size_of x in
    let b = size_of y in
    if is_nan x || is_nan y
    then not_a_number
    else if same_sign x y
    then with_sign (is_negative x) (sum_size (a + b))
    else if is_inf x && is_inf y
    then not_a_number
    else if is_inf x
    then x
    else if is_inf y
    then y
    else if a == b
    then 0
    else if ltb b a
    then with_sign (is_negative x) (sum_size (a - b))
    else with_sign (is_negative y) (sum_size (b - a))

unfoldable product_size : ℕ → ℕ
unfolding round halve_times
product_size n = round 3100 0 (halve_times 1074 (4 * n))

-- The product of two numbers, given its size.
unfoldable product_sized : Float64 → Float64 → ℕ → Float64
unfolding with_sign not_a_number is_inf same_sign
product_sized x y m =
    if is_nan x || is_nan y
    then not_a_number
    else if is_inf x && (magnitude y == 0) || is_inf y && (magnitude x == 0)
    then not_a_number
    else with_sign (not (same_sign x y)) m

-- `x * y` in Go.
unfoldable pub fmul : Float64 → Float64 → Float64
unfolding product_sized product_size size_of
fmul x y = product_sized x y (min infinity (product_size (size_of x * size_of y)))

nearest_mono : (m n : ℕ) → m ≤ n → nearest m ≤ nearest n
nearest_mono m n h = ground arith

units-Large : (k p : ℕ) → 0x10000000000000 ≤ p → 0x10000000000000 ≤ units k p
unfolding units
units-Large zero p h = h
units-Large (suc k) p h = ground (arith, units-Large k (p - 0x10000000000000))

units_mono : (k p q : ℕ) → p ≤ q → units k p ≤ units k q
unfolding units
units_mono zero p q h = h
units_mono (suc k) p q h = ground (
  arith,
  units_mono k (p - 0x10000000000000) (q - 0x10000000000000),
  units-Large k (q - 0x10000000000000),
)

round-Large : (k s n : ℕ) → 0x40000000000000 ≤ n → suc s * 0x10000000000000 ≤ round k s n
unfolding round
round-Large zero s n h = ground arith
round-Large (suc k) s n h = ground (arith, round-Large k (suc s) (halve n))

round_mono : (k s m n : ℕ) → m ≤ n → round k s m ≤ round k s n
unfolding round
round_mono zero s m n h = ground (arith, nearest_mono m n h)
round_mono (suc k) s m n h = ground (
  arith,
  nearest_mono m n h,
  round_mono k (suc s) (halve m) (halve n),
  round-Large k (suc s) (halve n),
)

-- A magnitude that a pattern has is kept.
round-units :
    (k f s p : ℕ)
    → k ≤ f
    → p < 0x20000000000000 + k * 0x10000000000000
    → round f s (4 * units k p) ≡ s * 0x10000000000000 + p
unfolding round units
round-units zero zero s p h l = ground arith
round-units zero (suc f) s p h l = ground arith
round-units (suc k) zero s p h l = absurd (omega arith)
round-units (suc k) (suc f) s p h l = elim (Bool-cases (ltb p 0x20000000000000)) [
  | inl e ↦ ground (arith, e)
  | inr e ↦
      let q = p - 0x10000000000000 in
      let large = units-Large k q (ground (arith, e)) in
      let half : halve (4 * (2 * units k q)) ≡ 4 * units k q = omega arith in
      ground (arith, e, large, half, round-units k f (suc s) q (omega arith) (ground (arith, e)))
]

-- What the tests on a nonnegative number give.
IsNonneg-magnitude : (x : Float64) → IsNonneg x → magnitude x ≡ x
IsNonneg-magnitude x h = omega arith

IsNonneg-sign : (x : Float64) → IsNonneg x → leb 0x8000000000000000 x ≡ false
IsNonneg-sign x h = ground arith

IsNonneg-is_nan : (x : Float64) → IsNonneg x → is_nan x ≡ false
unfolding is_nan
IsNonneg-is_nan x h = ground arith

fadd-sum_size :
    (x y : Float64) → IsNonneg x → IsNonneg y → fadd x y ≡ sum_size (units 2046 x + units 2046 y)
unfolding fadd
fadd-sum_size x y h k =
    rw
      (
        IsNonneg-is_nan x h,
        IsNonneg-is_nan y k,
        IsNonneg-sign x h,
        IsNonneg-sign y k,
        IsNonneg-magnitude x h,
        IsNonneg-magnitude y k,
      )
      refl

pub fadd-IsNonneg : (x y : Float64) → IsNonneg x → IsNonneg y → IsNonneg (fadd x y)
unfolding sum_size
fadd-IsNonneg x y h k = ground (arith, fadd-sum_size x y h k)

-- No sum of nonnegative numbers is smaller than one of them.
pub fadd_grows : (x y : Float64) → IsNonneg x → IsNonneg y → x ≤ fadd x y
unfolding sum_size
fadd_grows x y h k =
    let a = units 2046 x in
    let b = units 2046 y in
    ground (
      arith,
      fadd-sum_size x y h k,
      round-units 2046 2100 0 x (omega arith) (omega arith),
      round_mono 2100 0 (4 * a) (4 * (a + b)) (omega arith),
    )

pub fadd_mono : (x z y : Float64) → IsNonneg z → IsNonneg y → x ≤ z → fadd x y ≤ fadd z y
unfolding sum_size
fadd_mono x z y h k le =
    let a = units 2046 x in
    let b = units 2046 y in
    let c = units 2046 z in
    ground (
      arith,
      fadd-sum_size x y (omega arith) k,
      fadd-sum_size z y h k,
      round_mono 2100 0 (4 * (a + b)) (4 * (c + b)) (omega (arith, units_mono 2046 x z le)),
    )

product_sized-IsNonneg :
    (x y : Float64) (m : ℕ)
    → x < infinity
    → y < infinity
    → IsNonneg m
    → IsNonneg (product_sized x y m)
unfolding product_sized
product_sized-IsNonneg x y m h k l =
    rw
      (
        IsNonneg-is_nan x (omega arith),
        IsNonneg-is_nan y (omega arith),
        IsNonneg-sign x (omega arith),
        IsNonneg-sign y (omega arith),
        IsNonneg-magnitude x (omega arith),
        IsNonneg-magnitude y (omega arith),
      )
      (ground arith)

min_le : (n : ℕ) → min infinity n ≤ infinity
min_le n = omega arith

-- A product of nonnegative numbers is one, unless a zero meets an infinity.
pub fmul-IsNonneg : (x y : Float64) → x < infinity → y < infinity → IsNonneg (fmul x y)
unfolding fmul
fmul-IsNonneg x y h k =
    let n = product_size (size_of x * size_of y) in
    product_sized-IsNonneg x y (min infinity n) h k (min_le n)

-- `int(x)` on amd64: towards zero, and the least integer where the number is out of range.
unfoldable pub truncated : Float64 → ℤ
unfolding size_of is_negative is_nan
truncated x =
    let n = size_of x / 2 ^ 1074 in
    if is_nan x || not (ltb n (2 ^ 63))
    then negsuc (2 ^ 63 - 1)
    else if is_negative x
    then sub_ℕ 0 n
    else pos n
