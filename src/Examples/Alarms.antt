-- ===== src/Examples/Alarms.antt =====
-- A rule on a temperature, its samples and its engine.
use metalwatch.Base.{ℕ, ◌+◌, ◌*◌, ◌≤◌, ◌≡◌, refl, true, false, List, [], ◌∷◌, arith, All}
use metalwatch.Base.Int.{pos}
use metalwatch.Base.Clock.{Time, second, minute, since}
use metalwatch.Base.Float.{is_nan, rank, fle}
use metalwatch.Alarm.Rule.{AlarmRule, Sample, AlarmEvent, EventState, firing, gte, matches}
use metalwatch.Alarm.Engine.{
  AlarmState, AlarmEngine, judge, process, breach_began, in_maintenance, process_samples,
  process_rules, eval_rule, state_for, parent_fires, too_early,
}
use metalwatch.Alarm.Sort.{sort_rules}
use metalwatch.Base.Sort.{sort_by}
use metalwatch.Base.Map.{lookup}
use metalwatch.Alarm.Batch.{Explained, process-Explained}
use metalwatch.Alarm.History.{
  Observation, state_after, BreachesSince, firing_was_held, recovery_counts_all,
}

-- The thresholds 80 and the readings 85 and 60.
abbrev hot : AlarmRule
hot = record {
  id = "hot";
  metric = "temp";
  comparator = gte;
  threshold = 0x4054000000000000;
  for_duration = pos (10 * second);
  level = "critical";
  host = "";
  parent = "";
  active_key = "";
  enabled = true;
}

abbrev reading : ℕ → ℕ → Sample
reading v t = record { metric = "temp"; value = v; host = "srv1"; at = t; object = "" }

abbrev seen : ℕ → ℕ → Observation
seen v t = record { sample = reading v t; now = t; parent = false }

abbrev high : ℕ
high = 0x4055400000000000

abbrev low : ℕ
low = 0x404e000000000000

abbrev quiet : AlarmState
quiet = record {
  rule_id = "hot";
  level = "critical";
  breach_start = 0;
  firing = false;
  last_fired_at = 0;
  consecutive_below = 0;
}

abbrev alight : AlarmState
alight = record quiet { firing = true; last_fired_at = 5 * second }

abbrev states_of : List AlarmEvent → List EventState
states_of [] = []
states_of (ev ∷ evs) = ev.state ∷ states_of evs

-- The engine as it is made.
abbrev engine : AlarmEngine
engine = record { states = []; maint = []; recover_n = pos 3; suppress_window = pos (5 * minute) }

-- A rule without a hold time fires on its first high reading.
abbrev hot_at_once : AlarmRule
hot_at_once = record hot { for_duration = pos 0 }

process-Explained_example :
    All
      (Explained [] (hot_at_once ∷ []) (reading high minute ∷ []) minute)
      (process engine (reading high minute ∷ []) (hot_at_once ∷ []) minute).1
process-Explained_example =
    process-Explained engine (reading high minute ∷ []) (hot_at_once ∷ []) minute

one_event :
    states_of (process engine (reading high minute ∷ []) (hot_at_once ∷ []) minute).1 ≡ firing ∷ []
unfolding process process_samples process_rules sort_rules sort_by eval_rule judge matches fle
    is_nan rank state_for lookup too_early parent_fires in_maintenance
one_event = refl

firing_was_held_example :
    (b : Time) × (BreachesSince hot b (seen high (15 * second) ∷ seen high (5 * second) ∷ [])
      × (b + 10 * second ≤ 15 * second))
unfolding state_after judge matches fle is_nan rank breach_began too_early since
firing_was_held_example =
    firing_was_held engine hot quiet (seen high (15 * second)) (seen high (5 * second) ∷ [])
      (10 * second) refl refl (omega arith) (omega arith) refl refl

-- A breach between the calm samples does not set the count back.
recovery_counts_all_example :
    ((state_after engine hot alight
        (seen low (30 * second) ∷ seen high (20 * second) ∷ seen low (10 * second) ∷ [])).firing
      ≡ true)
    × ((state_after engine hot alight (
          seen low (40 * second)
          ∷ seen low (30 * second)
          ∷ seen high (20 * second)
          ∷ seen low (10 * second)
          ∷ [])).firing
        ≡ false)
unfolding matches fle is_nan rank
recovery_counts_all_example =
    recovery_counts_all engine hot alight (seen low (40 * second))
      (seen low (30 * second) ∷ seen high (20 * second) ∷ seen low (10 * second) ∷ []) 3 refl refl
      refl refl
