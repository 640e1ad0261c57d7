-- ===== src/Examples/Fans.antt =====
-- A fan controller with the default policy.
use metalwatch.Base.{ℕ, ◌*◌, refl, false, [], ◌∷◌, arith}
use metalwatch.Base.Int.{pos}
use metalwatch.Base.Clock.{Time, second, minute}
use metalwatch.Fan.{FanController, Input, default_fan_policy, new_fan_controller, normalized, step}
use metalwatch.Fan.Limits.{new_fan_controller-IsValid, Sends, step-Sends, sent, Spaced, sent-Spaced}

abbrev clock : Unit {0} → Time
clock _ = minute

abbrev controller : FanController
controller = new_fan_controller default_fan_policy clock

-- The temperatures 40 and 70.
abbrev warm : ℕ
warm = 0x4044000000000000

abbrev hotter : ℕ
hotter = 0x4051800000000000

abbrev at_time : ℕ → Input
at_time t = record { temp = warm; current_speed = pos 20; host = "srv1"; now = t; auto = false }

step-Sends_example :
    let (c', cmd, kind) = step controller (at_time minute) in
    Sends 5 (10 * second) controller (at_time minute) c' cmd kind
unfolding new_fan_controller normalized default_fan_policy
step-Sends_example =
    step-Sends controller (at_time minute) 5 (10 * second)
      (new_fan_controller-IsValid default_fan_policy clock) refl refl (omega arith)

sent-Spaced_example :
    Spaced
      (10 * second)
      controller.last_change_at
      (sent controller (at_time minute ∷ at_time (2 * minute) ∷ []))
unfolding new_fan_controller normalized default_fan_policy
sent-Spaced_example =
    sent-Spaced controller (at_time minute ∷ at_time (2 * minute) ∷ []) (10 * second) refl
      (omega arith)
