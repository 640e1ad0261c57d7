-- ===== src/Examples/Polls.antt =====
-- A pool of the BMC poller and calls for one target.
use metalwatch.Base.{suc, ◌+◌, ◌-◌, ◌*◌, ◌^◌, ◌≤◌, min, ◌≡◌, refl, false, ◌&&◌, [], ◌∷◌, arith, leb}
use metalwatch.Base.Int.{pos, pos_part}
use metalwatch.Base.Clock.{second, minute}
use metalwatch.Base.Map.{lookup, insert}
use metalwatch.Task.{
  Options, Pool, Run, new_pool, do_task, check_backoff, backoff_delay, double_delay,
}
use metalwatch.Task.Backoff.{backoff_delay-pow}
use metalwatch.Task.Window.{failures, failed_run_backs_off}
use metalwatch.Task.History.{pool_after, failed_in_row, failures-pool_after}
use metalwatch.Task.Goroutines.{
  Locker, idle, lock_for, Sys, Reach, here, next, enters, takes_token, asks, locks, start,
}
use metalwatch.Task.Concurrency.{Distinct, inside, Reach-bounded_serial}

abbrev options : Options
options = record {
  concurrency = pos 2;
  timeout = pos (30 * second);
  retry_threshold = pos 3;
  backoff_base = pos (30 * second);
  backoff_max = pos (30 * minute);
}

abbrev unset : Options
unset = record {
  concurrency = pos 0;
  timeout = pos 0;
  retry_threshold = pos 0;
  backoff_base = pos 0;
  backoff_max = pos 0;
}

-- Two failures have been counted.
abbrev failing : Pool
failing = record { opt = options; fails = ("bmc1", 2) ∷ []; blocked = [] }

abbrev failed_run : Run
failed_run = record {
  first_look = minute;
  cancelled = false;
  second_look = minute;
  succeeds = false;
  finished = 2 * minute;
}

backoff_delay-pow_example :
    backoff_delay options 5
    ≡ pos (min (30 * second * 2 ^ (5 - pos_part options.retry_threshold)) (30 * minute))
backoff_delay-pow_example =
    backoff_delay-pow options 5 (30 * second) (30 * minute) refl refl (omega arith) (omega arith)

-- The third failure in a row closes the target for half a minute.
failed_run_backs_off_example :
    (failures (do_task failing "bmc1" failed_run).0 "bmc1" ≡ suc (failures failing "bmc1"))
    × ((check_backoff (do_task failing "bmc1" failed_run).0 "bmc1" (3 * minute)).1 ≡ (
        leb 3 (suc (failures failing "bmc1"))
        && leb (3 * minute) (failed_run.finished + 30 * second)))
unfolding do_task check_backoff lookup backoff_delay double_delay
failed_run_backs_off_example =
    failed_run_backs_off failing (do_task failing "bmc1" failed_run).0 "bmc1" failed_run
      (3 * minute) 3 (30 * second) refl refl refl

failures-pool_after_example :
    failures
      (pool_after (new_pool options) (record { target = "bmc1"; run = failed_run } ∷ []))
      "bmc1"
    ≡ failed_in_row "bmc1" (new_pool options) (record { target = "bmc1"; run = failed_run } ∷ [])
failures-pool_after_example =
    failures-pool_after options (record { target = "bmc1"; run = failed_run } ∷ []) "bmc1"

-- One call is let in and holds the mutex that was made for it, while a second one waits for that.
abbrev first_lock : Locker
first_lock = record { target = "bmc1"; lock = 0 }

abbrev held_system : Sys
held_system = record {
  pool = failing;
  mutexes = record { locks = ("bmc1", 0) ∷ []; made = 1 };
  taken = 2;
  waiting = [];
  admitted = [];
  queued = first_lock ∷ [];
  holders = idle first_lock ∷ [];
  leaving = 0;
}

held_reached : Reach (start failing) held_system
unfolding start check_backoff lookup lock_for insert
held_reached =
    next
      (next
        (next
          (next
            (next (next (next here (enters "bmc1" minute refl)) (enters "bmc1" minute refl))
              (takes_token "bmc1" [] ("bmc1" ∷ []) refl (omega arith)))
            (takes_token "bmc1" [] [] refl (omega arith)))
          (asks "bmc1" [] ("bmc1" ∷ []) refl))
        (locks first_lock [] [] refl tt))
      (asks "bmc1" [] [] refl)

Reach-bounded_serial_example :
    (inside held_system ≤ pos_part failing.opt.concurrency) × Distinct held_system.holders
Reach-bounded_serial_example = Reach-bounded_serial failing held_reached
