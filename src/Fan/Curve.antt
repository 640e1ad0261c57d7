-- ===== src/Fan/Curve.antt =====
-- The curve: a hotter device is never cooled less.
use metalwatch.Base.{◌≡◌, refl, true, List, [], ◌∷◌, arith}
use metalwatch.Base.Int.{ℤ, pos, ◌≤ℤ◌}
use metalwatch.Base.Float.{Float64, fle, is_nan, fle_trans}
use metalwatch.Fan.{FanCurvePoint, FanPolicy, curve_speed, clamp_speed, target_speed}

-- Speeds that do not fall along the curve, none below `s`.
abbrev pub Rising : ℤ → List FanCurvePoint → Type 0
Rising s [] = Unit {0}
Rising s (p ∷ rest) = (s ≤ℤ p.speed_percent) × Rising p.speed_percent rest

curve_speed-ge :
    (s : ℤ) (curve : List FanCurvePoint) (temp : Float64)
    → Rising s curve
    → s ≤ℤ curve_speed s curve temp
unfolding curve_speed
curve_speed-ge s [] temp h = omega arith
curve_speed-ge s (p ∷ rest) temp h = ground (arith, curve_speed-ge p.speed_percent rest temp h.1)

curve_speed-mono :
    (s : ℤ) (curve : List FanCurvePoint) (x y : Float64)
    → Rising s curve
    → fle x y ≡ true
    → curve_speed s curve x ≤ℤ curve_speed s curve y
unfolding curve_speed
curve_speed-mono s [] x y h k = omega arith
curve_speed-mono s (p ∷ rest) x y h k = ground (
  arith,
  fle_trans x y p.temp_max k,
  curve_speed-ge p.speed_percent rest y h.1,
  curve_speed-mono p.speed_percent rest x y h.1 k,
)

clamp_speed-mono : (p : FanPolicy) (a b : ℤ) → a ≤ℤ b → clamp_speed p a ≤ℤ clamp_speed p b
unfolding clamp_speed
clamp_speed-mono p a b h = ground arith

-- With a curve whose speeds start at 0 or more and do not fall, a temperature that is not higher
-- gets no higher target speed.
pub target_speed-mono :
    (p : FanPolicy) (x y : Float64)
    → Rising (pos 0) p.curve
    → fle x y ≡ true
    → target_speed p x ≤ℤ target_speed p y
unfolding target_speed
target_speed-mono p x y h k = clamp_speed-mono p _ _ (curve_speed-mono (pos 0) p.curve x y h k)

abbrev pub last_speed : ℤ → List FanCurvePoint → ℤ
last_speed s [] = s
last_speed s (p ∷ rest) = last_speed p.speed_percent rest

-- A temperature that is not a number gets the last speed of the curve.
pub curve_speed_nan :
    (s : ℤ) (curve : List FanCurvePoint) (temp : Float64)
    → is_nan temp ≡ true
    → curve_speed s curve temp ≡ last_speed s curve
unfolding curve_speed fle
curve_speed_nan s [] temp h = refl
curve_speed_nan s (p ∷ rest) temp h = ground (arith, curve_speed_nan p.speed_percent rest temp h)
