-- ===== src/Examples/Schedules.antt =====
-- Two targets, one of which is on a host in backoff.
use metalwatch.Base.{◌≡◌, refl, true, false, String, some, List, [], ◌∷◌}
use metalwatch.Base.Int.{ℤ, pos}
use metalwatch.Base.Clock.{Time}
use metalwatch.Base.Map.{lookup, insert}
use metalwatch.Task.{Pool, Run}
use metalwatch.Schedule.{
  sensor, CollectionTask, ScheduleConfig, ScheduleEngine, new_schedule_engine, interval_of,
  add_target, is_due, tick, sleep_until,
}
use metalwatch.Schedule.Ticks.{Reach, start, adds, due_count, tick_polls_all}
use metalwatch.Schedule.Sleep.{Waits, sleep_until-Waits}

abbrev unset : ScheduleConfig
unset = record { sensor_interval = pos 0; asset_interval = pos 0 }

abbrev polled : String → CollectionTask
polled id = record { id = id; kind = sensor; host = ""; interval = pos 0; has_run = true }

abbrev two : ScheduleEngine
two = record {
  cfg = record { sensor_interval = pos 30000000000; asset_interval = pos 300000000000 };
  targets =
      (
        "b",
        record { task = polled "b"; interval = pos 30000000000; next_due = 7; in_flight = false },
      )
      ∷ (
        "a",
        record { task = polled "a"; interval = pos 30000000000; next_due = 9; in_flight = false },
      )
      ∷ [];
  stopped = false;
}

two_Reach : Reach unset two
unfolding new_schedule_engine add_target interval_of lookup insert
two_Reach = adds (polled "a") 9 (adds (polled "b") 7 start)

abbrev good_run : String → Run
good_run id = record {
  first_look = 9;
  cancelled = false;
  second_look = 9;
  succeeds = true;
  finished = 9;
}

abbrev pool_of : List (String × Time) → Pool
pool_of blocked = record {
  opt = record {
    concurrency = pos 1;
    timeout = pos 1;
    retry_threshold = pos 3;
    backoff_base = pos 1;
    backoff_max = pos 1;
  };
  fails = [];
  blocked = blocked;
}

tick_polls_all_example :
    let ((_, s'), n) = tick good_run 9 (pool_of []) two in (n ≡ 2) × (due_count 9 s'.targets ≡ 0)
unfolding due_count is_due lookup
tick_polls_all_example =
    tick_polls_all unset good_run 9 (pool_of []) two_Reach (refl, (refl, tt)) (λ id. refl)
      (λ id. refl)

sleep_until-Waits_example : (d : ℤ) × (sleep_until false 8 two ≡ some d) × Waits d 8 two.targets
sleep_until-Waits_example = sleep_until-Waits 8 two refl
