-- ===== src/Fan.antt =====
-- The closed-loop fan controller, backend/internal/engine/control_engine.go.
pub mod Curve
pub mod Limits
use metalwatch.Base.{
  ℕ, ◌*◌, String, Bool, true, false, Option, none, some, List, [], ◌∷◌, if◌then◌else◌,
}
use metalwatch.Base.Int.{ℤ, pos, ltb_ℤ, leb_ℤ, eqb_ℤ, ◌-ℤ◌, wrap32}
use metalwatch.Base.Clock.{Time, Duration, since, second}
use metalwatch.Base.Float.{Float64, fle}

pub record FanCurvePoint : Type 0 where
  pub temp_max : Float64
  pub speed_percent : ℤ

pub record FanPolicy : Type 0 where
  pub curve : List FanCurvePoint
  pub min_interval : Duration
  pub min_delta : ℤ
  pub min_speed : ℤ
  pub max_speed : ℤ

abbrev point : Float64 → ℕ → FanCurvePoint
point t s = record { temp_max = t; speed_percent = pos s }

-- The temperatures 30, 45, 60, 75 and 90, by their bits.
unfoldable pub default_fan_policy : FanPolicy
default_fan_policy = record {
  curve =
      point 0x403e000000000000 20
      ∷ point 0x4046800000000000 35
      ∷ point 0x404e000000000000 55
      ∷ point 0x4052c00000000000 80
      ∷ point 0x4056800000000000 100
      ∷ [];
  min_interval = pos (10 * second);
  min_delta = pos 5;
  min_speed = pos 10;
  max_speed = pos 100;
}

pub data ChangeKind : Type 0 where
  change_none change_set_speed change_handoff : ChangeKind

-- The fields of the generated `BmcCommand` that the controller sets.
pub record BmcCommand : Type 0 where
  pub cmd_type : String
  pub target : String
  pub auto_mode : Bool
  pub speed_percent : ℤ

pub record FanController : Type 0 where
  pub policy : FanPolicy
  pub last_speed : ℤ
  pub last_change_at : Time
  pub now : Unit {0} → Time

abbrev floor_zero : ℤ → ℤ
floor_zero v = if ltb_ℤ v (pos 0) then pos 0 else v

abbrev or_default_policy : FanPolicy → List FanCurvePoint → FanPolicy
or_default_policy p [] = default_fan_policy
or_default_policy p (x ∷ xs) = p

unfoldable pub normalized : FanPolicy → FanPolicy
unfolding default_fan_policy
normalized p =
    let q = or_default_policy p p.curve in
    record q {
      min_interval = floor_zero q.min_interval;
      min_delta = floor_zero q.min_delta;
      min_speed = floor_zero q.min_speed;
      max_speed =
          if leb_ℤ q.max_speed (pos 0)
          then pos 100
          else if ltb_ℤ (pos 100) q.max_speed
          then pos 100
          else q.max_speed;
    }

unfoldable pub new_fan_controller : FanPolicy → (Unit {0} → Time) → FanController
unfolding normalized
new_fan_controller p clock = record {
  policy = normalized p;
  last_speed = pos 0;
  last_change_at = 0;
  now = clock;
}

unfoldable pub set_clock : FanController → (Unit {0} → Time) → FanController
set_clock c clock = record c { now = clock }

-- The loop of `targetSpeed`: the last segment serves all temperatures above it.
unfoldable pub curve_speed : ℤ → List FanCurvePoint → Float64 → ℤ
curve_speed t [] temp = t
curve_speed t (seg ∷ rest) temp =
    if fle temp seg.temp_max then seg.speed_percent else curve_speed seg.speed_percent rest temp

unfoldable pub clamp_speed : FanPolicy → ℤ → ℤ
clamp_speed p t =
    let t' = if ltb_ℤ t p.min_speed then p.min_speed else t in
    if ltb_ℤ p.max_speed t' then p.max_speed else t'

unfoldable pub target_speed : FanPolicy → Float64 → ℤ
target_speed p temp = clamp_speed p (curve_speed (pos 0) p.curve temp)

-- `absInt` on int32.
unfoldable pub abs_int : ℤ → ℤ
unfolding wrap32
abs_int v = if ltb_ℤ v (pos 0) then wrap32 (pos 0 -ℤ v) else v

command : String → Bool → ℤ → BmcCommand
command host auto speed = record {
  cmd_type = "fan_speed";
  target = host;
  auto_mode = auto;
  speed_percent = speed;
}

pub record Input : Type 0 where
  pub temp : Float64
  pub current_speed : ℤ
  pub host : String
  pub now : Time
  pub auto : Bool

unfoldable pub step : FanController → Input → FanController × Option BmcCommand × ChangeKind
unfolding command
step c i =
    let target = target_speed c.policy i.temp in
    if i.auto
    then (
      record c { last_speed = pos 0; last_change_at = i.now },
      some (command i.host true (pos 0)),
      change_handoff,
    )
    else if eqb_ℤ target i.current_speed
    then (c, none, change_none)
    else if ltb_ℤ (abs_int (wrap32 (target -ℤ c.last_speed))) c.policy.min_delta
    then (c, none, change_none)
    else if ltb_ℤ (since i.now c.last_change_at) c.policy.min_interval
    then (c, none, change_none)
    else (
      record c { last_speed = target; last_change_at = i.now },
      some (command i.host false target),
      change_set_speed,
    )
