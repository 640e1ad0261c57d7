-- ===== src/Task/Window.antt =====
-- The backoff window that a failed run opens, and that it keeps to its own target.
use metalwatch.Base.{
  ℕ, suc, ◌+◌, ◌≡◌, String, false, ◌&&◌, none, some, arith, ltb, leb, eq_refl, if◌then◌else◌, ◌≢◌,
}
use metalwatch.Base.Int.{pos}
use metalwatch.Base.Clock.{Time, add}
use metalwatch.Base.Map.{lookup, lookup-insert, lookup-erase}
use metalwatch.Task.{
  Pool, Run, Outcome, backing_off, context_done, ran_ok, ran_failed, do_task, check_backoff,
  backoff_delay, record_failure, record_result, count_of,
}

-- The failures in a row that a pool holds against a target.
abbrev pub failures : Pool → String → ℕ
failures p target = count_of (lookup target p.fails)

check_backoff_opens :
    (p : Pool) (target : String) (now : Time)
    → (check_backoff p target now).1 ≡ false
    → (lookup target (check_backoff p target now).0.blocked ≡ none)
      × ((check_backoff p target now).0.fails ≡ p.fails)
      × ((check_backoff p target now).0.opt ≡ p.opt)
unfolding check_backoff
check_backoff_opens p target now h =
    ground (arith, lookup-erase target target p.blocked, eq_refl target)

-- `none` where no window is open: a failure then opens one exactly from the threshold on.
record_failure-blocked :
    (p : Pool) (target : String) (now : Time) (th d : ℕ)
    → p.opt.retry_threshold ≡ pos th
    → backoff_delay p.opt (suc (failures p target)) ≡ pos d
    → lookup target p.blocked ≡ none
    → lookup target (record_failure p target now).blocked
      ≡ (if ltb (suc (failures p target)) th then none else some (now + d))
unfolding record_failure add
record_failure-blocked p target now th d et ed h =
    ground (arith, lookup-insert target target (now + d) p.blocked, eq_refl target)

record_failure-failures :
    (p : Pool) (target : String) (now : Time)
    → failures (record_failure p target now) target ≡ suc (failures p target)
unfolding record_failure
record_failure-failures p target now =
    ground (arith, lookup-insert target target (suc (failures p target)) p.fails, eq_refl target)

-- The pool at the moment the task runs.
abbrev admitted : Pool → String → Run → Pool
admitted p target run =
    (check_backoff (check_backoff p target run.first_look).0 target run.second_look).0

do_task_runs :
    (p q : Pool) (target : String) (run : Run) (out : Outcome)
    → do_task p target run ≡ (q, out)
    → out ≢ backing_off
    → out ≢ context_done
    → let p2 = admitted p target run in
      (lookup target p2.blocked ≡ none)
      × (p2.fails ≡ p.fails)
      × (p2.opt ≡ p.opt)
      × (q ≡ record_result p2 target run.succeeds run.finished)
      × (out ≡ (if run.succeeds then ran_ok else ran_failed))
unfolding do_task
do_task_runs p q target run out e nb nc =
    let p1 = (check_backoff p target run.first_look).0 in
    ground (
      arith,
      check_backoff_opens p target run.first_look,
      check_backoff_opens p1 target run.second_look,
    )

record_failure_window :
    (p : Pool) (target : String) (now later : Time) (th d : ℕ)
    → p.opt.retry_threshold ≡ pos th
    → backoff_delay p.opt (suc (failures p target)) ≡ pos d
    → lookup target p.blocked ≡ none
    → (failures (record_failure p target now) target ≡ suc (failures p target))
      × ((check_backoff (record_failure p target now) target later).1
          ≡ (leb th (suc (failures p target)) && leb later (now + d)))
unfolding check_backoff
record_failure_window p target now later th d et ed h = (
  record_failure-failures p target now,
  ground (arith, record_failure-blocked p target now th d et ed h),
)

-- When a call of Do runs its task and the task fails, the failures in a row grow by one, and a
-- later call is turned away exactly while they have reached the threshold and the clock has not
-- passed the end of the run plus the delay.
pub failed_run_backs_off :
    (p q : Pool) (target : String) (run : Run) (later : Time) (th d : ℕ)
    → do_task p target run ≡ (q, ran_failed)
    → p.opt.retry_threshold ≡ pos th
    → backoff_delay p.opt (suc (failures p target)) ≡ pos d
    → (failures q target ≡ suc (failures p target))
      × ((check_backoff q target later).1
          ≡ (leb th (suc (failures p target)) && leb later (run.finished + d)))
unfolding do_task record_result
failed_run_backs_off p q target run later th d e et ed =
    let p2 = admitted p target run in
    let (free, same_fails, same_opt, eq, out) =
      do_task_runs p q target run ran_failed e (λ a. cc) (λ a. cc) in
    ground (
      arith,
      free,
      same_fails,
      same_opt,
      eq,
      out,
      record_failure_window p2 target run.finished later th d,
    )
