-- ===== src/Base/Text.antt =====
-- The order of Go strings, as far as sorting by it needs.
use Prim.Native.Nat.{Ordering}
use Prim.Native.String.compare
use Prim.Native.String.{String, [], ◌∷◌, compare}
use mathlib.Core.Path.{◌≡◌}
use mathlib.Core.Bool.{true, false}
use native.Mathlib.Omega.{arith}
use text.Mathlib.TextEquality.{path_by_compare}
use metalwatch.Base.Tests.{str_gt}

pub str_gt_asymm : (s t : String) → str_gt s t ≡ true → str_gt t s ≡ false
str_gt_asymm [] [] h = ground (arith, compare.nil-nil)
str_gt_asymm [] (d ∷ t) h = ground (arith, compare.nil-cons d t)
str_gt_asymm (c ∷ s) [] h = ground (arith, compare.nil-cons c s)
str_gt_asymm (c ∷ s) (d ∷ t) h =
    ground (arith, compare.cons-cons c d s t, compare.cons-cons d c t s, str_gt_asymm s t)

-- The order read from the other side.
compare-gt : (s t : String) → compare s t ≡ Ordering.lt → str_gt t s ≡ true
compare-gt [] [] h = ground (arith, h, compare.nil-nil)
compare-gt [] (d ∷ t) h = ground (arith, compare.cons-nil d t)
compare-gt (c ∷ s) [] h = ground (arith, h, compare.cons-nil c s)
compare-gt (c ∷ s) (d ∷ t) h =
    ground (arith, h, compare.cons-cons c d s t, compare.cons-cons d c t s, compare-gt s t)

pub str_gt_connex : (s t : String) → str_gt s t ≡ false → str_gt t s ≡ false → s ≡ t
str_gt_connex s t h k = path_by_compare s t (ground (arith, h, k, compare-gt s t))
