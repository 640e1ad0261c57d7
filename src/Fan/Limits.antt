-- ===== src/Fan/Limits.antt =====
-- The limits that every command of the controller keeps.
use metalwatch.Base.{
  ℕ, ◌+◌, ◌≤◌, ◌≡◌, ◌⊎◌, true, false, Option, none, some, List, [], ◌∷◌, arith, if◌then◌else◌,
}
use metalwatch.Base.Int.{ℤ, pos, ltb_ℤ, ◌≤ℤ◌, ◌<ℤ◌, ◌-ℤ◌, wrap32, max_int64}
use metalwatch.Base.Clock.{Time, ltb-since}
use metalwatch.Fan.{
  FanPolicy, FanController, BmcCommand, ChangeKind, change_none, change_set_speed, change_handoff,
  Input, new_fan_controller, clamp_speed, target_speed, abs_int, step,
}

-- What `NewFanController` makes sure of.
pub record IsValid (c : FanController) : Type 0 where
  pub interval_nonneg : pos 0 ≤ℤ c.policy.min_interval
  pub delta_nonneg : pos 0 ≤ℤ c.policy.min_delta
  pub min_nonneg : pos 0 ≤ℤ c.policy.min_speed
  pub max_pos : pos 0 <ℤ c.policy.max_speed
  pub max_percent : c.policy.max_speed ≤ℤ pos 100
  pub last_nonneg : pos 0 ≤ℤ c.last_speed
  pub last_percent : c.last_speed ≤ℤ pos 100

-- A new controller has its policy in range, whatever policy it was given.
pub new_fan_controller-IsValid :
    (p : FanPolicy) (clock : Unit {0} → Time) → IsValid (new_fan_controller p clock)
unfolding new_fan_controller
new_fan_controller-IsValid p clock = ground arith

-- The target speed of a valid controller is between 0 and the maximum, and at least the minimum
-- unless the maximum is below it.
pub target_speed_bounds :
    (c : FanController) (temp : ℕ)
    → IsValid c
    → let t = target_speed c.policy temp in
      (pos 0 ≤ℤ t)
      × (t ≤ℤ c.policy.max_speed)
      × ((c.policy.min_speed ≤ℤ t) ⊎ (c.policy.max_speed <ℤ c.policy.min_speed))
unfolding target_speed clamp_speed
target_speed_bounds c temp v = ground arith

-- A step keeps a valid controller valid.
pub step-IsValid : (c : FanController) (i : Input) → IsValid c → IsValid (step c i).0
unfolding step
step-IsValid c i v = ground (arith, target_speed_bounds c i.temp v)

-- The distance of two percentages is not touched by the wrap of int32.
abs_diff :
    (a b : ℤ)
    → pos 0 ≤ℤ a
    → a ≤ℤ pos 100
    → pos 0 ≤ℤ b
    → b ≤ℤ pos 100
    → abs_int (wrap32 (a -ℤ b)) ≡ (if ltb_ℤ a b then b -ℤ a else a -ℤ b)
unfolding abs_int wrap32 ◌-ℤ◌
abs_diff a b h k h' k' = ground arith

-- What a step may do to a controller and send, by the kind of change that it reports.
abbrev pub Sends :
    ℕ → ℕ → FanController → Input → FanController → Option BmcCommand → ChangeKind → Type 0
Sends delta interval c i c' cmd change_none = (c' ≡ c) × (cmd ≡ none)
Sends delta interval c i c' cmd change_set_speed =
    (pos 0 ≤ℤ c'.last_speed)
    × (c'.last_speed ≤ℤ c.policy.max_speed)
    × (pos delta ≤ℤ (
        if ltb_ℤ c'.last_speed c.last_speed
        then c.last_speed -ℤ c'.last_speed
        else c'.last_speed -ℤ c.last_speed))
    × (c.last_change_at + interval ≤ i.now)
    × (c'.last_change_at ≡ i.now)
    × (cmd
        ≡ some (record {
          cmd_type = "fan_speed";
          target = i.host;
          auto_mode = false;
          speed_percent = c'.last_speed;
        }))
Sends delta interval c i c' cmd change_handoff =
    (c'.last_speed ≡ pos 0)
    × (c'.last_change_at ≡ i.now)
    × (cmd
        ≡ some (record {
          cmd_type = "fan_speed";
          target = i.host;
          auto_mode = true;
          speed_percent = pos 0;
        }))

-- A speed that a valid controller sends is a percentage within the maximum, the minimum change
-- away from the last speed and the minimum interval after the last command; a hand-over resets the
-- last speed; with no command the controller is unchanged.
pub step-Sends :
    (c : FanController) (i : Input) (delta interval : ℕ)
    → IsValid c
    → c.policy.min_delta ≡ pos delta
    → c.policy.min_interval ≡ pos interval
    → interval ≤ max_int64
    → let (c', cmd, kind) = step c i in Sends delta interval c i c' cmd kind
unfolding step
step-Sends c i delta interval v ed ei hi =
    let (lo, hi_, _) = target_speed_bounds c i.temp v in
    ground (
      arith,
      lo,
      hi_,
      abs_diff (target_speed c.policy i.temp) c.last_speed lo (omega (arith, hi_, v)) v.last_nonneg
          v.last_percent,
      ltb-since i.now c.last_change_at interval hi,
    )

-- What a series of readings makes the controller send, with the times.
unfoldable pub sent : FanController → List Input → List (Time × ChangeKind)
sent c [] = []
sent c (i ∷ is) =
    let (c', cmd, kind) = step c i in
    let rest = sent c' is in elim cmd [ none ↦ rest | some _ ↦ (i.now, kind) ∷ rest ]

-- Each speed is sent later by `d` than the command before it; a hand-over may come at any time.
abbrev pub Spaced : ℕ → Time → List (Time × ChangeKind) → Type 0
Spaced d last [] = Unit {0}
Spaced d last ((t, change_set_speed) ∷ rest) = (last + d ≤ t) × Spaced d t rest
Spaced d last ((t, _) ∷ rest) = Spaced d t rest

-- Over any series of readings each speed that is sent comes later than the command before it by
-- the minimum interval, where int64 holds that interval.
pub sent-Spaced :
    (c : FanController) (is : List Input) (interval : ℕ)
    → c.policy.min_interval ≡ pos interval
    → interval ≤ max_int64
    → Spaced interval c.last_change_at (sent c is)
unfolding sent step
sent-Spaced c [] interval ei hi = tt
sent-Spaced c (i ∷ is) interval ei hi =
    ground
      (arith, ltb-since i.now c.last_change_at interval hi, sent-Spaced (step c i).0 is interval)
