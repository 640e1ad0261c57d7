-- ===== src/Base/Bytes.antt =====
-- Byte slices: bytes.Compare, and big-endian words, whose order is that of the numbers.
use native.Mathlib.Nat.{
  pow-suc, mod-eq-sub-div-mul, div-mul-le_self, div-div-eq-div-mul, mod-lt, one-le-pow,
}
use metalwatch.Base.Tests.{ltb, ◌==◌, if◌then◌else◌}
use Prim.Native.Nat.{ℕ, zero, suc, ◌+◌, ◌*◌, ◌/◌, ◌%◌, ◌^◌, ◌<◌}
use mathlib.Core.Path.{◌≡◌, refl, ap}
use mathlib.Core.Bool.{Bool, true, false}
use mathlib.Core.List.{List, [], ◌∷◌, ◌++◌}
use native.Mathlib.Omega.{arith}

abbrev pub Bytes : Type 0
Bytes = List ℕ

-- `bytes.Compare(x, y) < 0`
unfoldable pub bytes_lt : Bytes → Bytes → Bool
bytes_lt [] [] = false
bytes_lt [] (b ∷ y) = true
bytes_lt (a ∷ x) [] = false
bytes_lt (a ∷ x) (b ∷ y) = if a == b then bytes_lt x y else ltb a b

pub bytes_lt_irrefl : (k : Bytes) → bytes_lt k k ≡ false
unfolding bytes_lt
bytes_lt_irrefl [] = refl
bytes_lt_irrefl (a ∷ k) = ground (arith, bytes_lt_irrefl k)

-- Two keys that are not below one another are equal.
pub bytes_lt-connex : (x y : Bytes) → bytes_lt x y ≡ false → bytes_lt y x ≡ false → x ≡ y
unfolding bytes_lt
bytes_lt-connex [] [] h k = refl
bytes_lt-connex [] (b ∷ y) h k = cc
bytes_lt-connex (a ∷ x) [] h k = cc
bytes_lt-connex (a ∷ x) (b ∷ y) h k = ground (arith, bytes_lt-connex x y)

pub bytes_lt_asymm : (x y : Bytes) → bytes_lt x y ≡ true → bytes_lt y x ≡ false
unfolding bytes_lt
bytes_lt_asymm [] [] h = refl
bytes_lt_asymm [] (b ∷ y) h = refl
bytes_lt_asymm (a ∷ x) [] h = cc
bytes_lt_asymm (a ∷ x) (b ∷ y) h = ground (arith, bytes_lt_asymm x y)

pub bytes_lt_trans :
    (x y z : Bytes) → bytes_lt x y ≡ true → bytes_lt y z ≡ true → bytes_lt x z ≡ true
unfolding bytes_lt
bytes_lt_trans [] [] z h k = cc
bytes_lt_trans [] (b ∷ y) [] h k = cc
bytes_lt_trans [] (b ∷ y) (c ∷ z) h k = refl
bytes_lt_trans (a ∷ x) [] z h k = cc
bytes_lt_trans (a ∷ x) (b ∷ y) [] h k = cc
bytes_lt_trans (a ∷ x) (b ∷ y) (c ∷ z) h k = ground (arith, bytes_lt_trans x y z)

pub not-bytes_lt-nil : (x : Bytes) → bytes_lt x [] ≡ false
unfolding bytes_lt
not-bytes_lt-nil [] = refl
not-bytes_lt-nil (a ∷ x) = refl

-- The low k bytes of a number, the most significant first.
unfoldable pub big_endian : ℕ → ℕ → Bytes
big_endian zero n = []
big_endian (suc k) n = (n / 256 ^ k % 256) ∷ big_endian k n

digit_split : (n p : ℕ) → 0 < p → n % (p * 256) ≡ n / p % 256 * p + n % p
digit_split n p h =
    let q : n / p ≡ n / p / 256 * 256 + n / p % 256 = omega arith in
    omega (
      arith,
      mod-eq-sub-div-mul n p,
      mod-eq-sub-div-mul n (p * 256),
      div-mul-le_self n p,
      ap (λ (t : ℕ). t * p) (div-div-eq-div-mul n p 256),
      ap (λ (t : ℕ). t * p) q,
    )

digits_order : (p d e r s : ℕ) → r < p → s < p → d < e → d * p + r < e * p + s
digits_order p d e r s hr hs h = grind arith

big_endian_split :
    (k n : ℕ)
    → (n % 256 ^ suc k ≡ n / 256 ^ k % 256 * 256 ^ k + n % 256 ^ k) × (n % 256 ^ k < 256 ^ k)
big_endian_split k n = (
  rw (pow-suc 256 k) (digit_split n (256 ^ k) (one-le-pow k 256 (omega arith))),
  mod-lt n (one-le-pow k 256 (omega arith)),
)

pub bytes_lt-big_endian :
    (k a b : ℕ) (x y : Bytes)
    → bytes_lt (big_endian k a ++ x) (big_endian k b ++ y)
      ≡ (if a % 256 ^ k == b % 256 ^ k then bytes_lt x y else ltb (a % 256 ^ k) (b % 256 ^ k))
unfolding bytes_lt big_endian
bytes_lt-big_endian zero a b x y = ground arith
bytes_lt-big_endian (suc k) a b x y = ground (
  arith,
  big_endian_split k a,
  big_endian_split k b,
  digits_order (256 ^ k) (a / 256 ^ k % 256) (b / 256 ^ k % 256) (a % 256 ^ k) (b % 256 ^ k),
  digits_order (256 ^ k) (b / 256 ^ k % 256) (a / 256 ^ k % 256) (b % 256 ^ k) (a % 256 ^ k),
  bytes_lt-big_endian k a b x y,
)
