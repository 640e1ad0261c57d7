-- ===== src/Examples/Events.antt =====
-- A host with one rule, whose reading goes too high in one report.
use metalwatch.Base.{String, ℕ, ◌*◌, ◌≡◌, refl, true, false, List, [], ◌∷◌, map, arith}
use metalwatch.Base.Int.{pos}
use metalwatch.Base.Clock.{minute}
use metalwatch.Alarm.Rule.{gte}
use metalwatch.Alarm.Engine.{AlarmEngine, process}
use metalwatch.Rules.{RuleSet, rules_for}
use metalwatch.Alerts.{Table, Attempt}
use metalwatch.Alerts.Service.{Notice, blank_row, Texts, Reported, evaluate, to_sample}
use metalwatch.Alerts.Outbox.{
  Turn, dispatches, takes, returns, run_turns, dispatch, take_notice, finish_call, pick,
  start_dispatch,
}
use metalwatch.Alerts.Dispatch.{with_worker, Served, started-Served}
use metalwatch.Alerts.Open.{Sound, firing_count}
use metalwatch.Alerts.Notified.{Alarms, Shows, Agrees, promised}
use metalwatch.Alerts.Evaluated.{evaluate-Agrees, evaluate-Sound}

abbrev plain : Texts
plain = record { format_g = λ v. "90"; marshal = λ ev meta obj host v. "" }

-- The threshold 80 and the reading 90, with no hold time.
abbrev rules : RuleSet
rules = record {
  templates =
      (
        "temp",
        record {
          id = "tpl-1-crit";
          metric = "temp";
          comparator = gte;
          threshold = 0x4054000000000000;
          for_duration = pos 0;
          level = "critical";
          host = "";
          parent = "";
          active_key = "";
          enabled = true;
        }
            ∷ [],
      )
      ∷ [];
  overrides = [];
  metas =
      (
        "tpl-1-crit",
        record {
          title = "CPU";
          category = "sensor";
          metric = "temp";
          op = "gt";
          threshold = 0x4054000000000000;
          host_id = pos 0;
        },
      )
      ∷ [];
}

abbrev report : List Reported
report =
    record { metric = "temp"; value = 0x4056800000000000; labels = ("chip", " k10 ") ∷ [] } ∷ []

abbrev engine : AlarmEngine
engine = record { states = []; maint = []; recover_n = pos 3; suppress_window = pos (5 * minute) }

abbrev no_rows : Table
no_rows = record { rows = []; next_id = 1 }

abbrev works : ℕ → Attempt
works n = record { first_ok = true; second_ok = true; third_ok = true }

abbrev half_works : ℕ → Attempt
half_works n = record { first_ok = true; second_ok = false; third_ok = true }

abbrev no_alarms : Alarms
no_alarms key = false

empty_Sound : Sound []
unfolding firing_count
empty_Sound = record { keyed = tt; once = λ key. omega arith }

empty_Shows : Shows no_rows no_alarms
unfolding firing_count
empty_Shows = record { sound = empty_Sound; same = λ key. refl }

evaluate-Agrees_example :
    let ((eng', t'), notices) = evaluate plain (pos 3) "srv1" 7 works rules report engine no_rows in
    Agrees
      (t', notices)
      (promised rules.metas
        (process engine (map (to_sample "srv1" 7) report) (rules_for rules "srv1") 7).1
        no_alarms)
evaluate-Agrees_example =
    evaluate-Agrees plain (pos 3) "srv1" 7 works rules report engine no_rows no_alarms
      (λ k. (refl, refl)) empty_Shows

-- The alarm of the first report is in the table when the second one is evaluated, and its touch fails.
abbrev after_first : AlarmEngine × Table
after_first = (evaluate plain (pos 3) "srv1" 7 works rules report engine no_rows).0

evaluate-Sound_example :
    Sound
      (evaluate plain (pos 3) "srv1" 8 half_works rules report after_first.0 after_first.1).0.1.rows
evaluate-Sound_example =
    evaluate-Sound plain (pos 3) "srv1" 8 half_works rules report after_first.0 after_first.1
      (evaluate-Sound plain (pos 3) "srv1" 7 works rules report engine no_rows empty_Sound)

-- Five notices for a channel with room for two and two workers: "a" and "b" are taken, the call for
-- "b" returns first, and "e" is dropped.
abbrev notice : String → Notice
notice kind = record { row = blank_row; kind = kind; at = 7 }

abbrev turns : List Turn
turns =
    dispatches (notice "a")
    ∷ dispatches (notice "b")
    ∷ takes
    ∷ takes
    ∷ returns 1
    ∷ dispatches (notice "c")
    ∷ dispatches (notice "d")
    ∷ dispatches (notice "e")
    ∷ []

started-Served_example :
    Served
      (pos 2)
      (pos 2)
      (run_turns turns (with_worker (record { workers = pos 2; capacity = pos 2; queue = [] })))
      (notice "a" ∷ notice "b" ∷ notice "c" ∷ notice "d" ∷ notice "e" ∷ [])
unfolding start_dispatch
started-Served_example = started-Served (pos 2) (pos 2) turns

b_is_delivered :
    (run_turns turns
      (with_worker (record { workers = pos 2; capacity = pos 2; queue = [] }))).delivered
    ≡ notice "b" ∷ []
unfolding run_turns dispatch take_notice finish_call pick
b_is_delivered = refl
