-- ===== src/Task/History.antt =====
-- The failure counts after any sequence of calls of `Do`, on any targets.
use metalwatch.Base.{ℕ, suc, ◌≡◌, refl, String, List, [], ◌∷◌, arith, str_eq, eq_iff, if◌then◌else◌}
use metalwatch.Base.Clock.{Time}
use metalwatch.Base.Map.{lookup, lookup-insert, lookup-erase}
use metalwatch.Task.{
  Options, Pool, Run, Outcome, ran_ok, ran_failed, new_pool, do_task, check_backoff, record_result,
}
use metalwatch.Task.Window.{failures}

pub record Call : Type 0 where
  pub target : String
  pub run : Run

-- The pool after a list of calls, newest first.
unfoldable pub pool_after : Pool → List Call → Pool
pool_after p [] = p
pool_after p (c ∷ older) = (do_task (pool_after p older) c.target c.run).0

abbrev pub outcome_of : Pool → Call → Outcome
outcome_of p c = (do_task p c.target c.run).1

abbrev pub tally : Outcome → ℕ → ℕ
tally ran_ok n = 0
tally ran_failed n = suc n
tally _ n = n

-- The runs of a target that failed since its last success: calls that do not run do not count.
abbrev pub failed_in_row : String → Pool → List Call → ℕ
failed_in_row target p [] = 0
failed_in_row target p (c ∷ older) =
    let n = failed_in_row target p older in
    if str_eq c.target target then tally (outcome_of (pool_after p older) c) n else n

check_backoff-fails :
    (p : Pool) (target : String) (now : Time) → (check_backoff p target now).0.fails ≡ p.fails
unfolding check_backoff
check_backoff-fails p target now = ground arith

do_task-failures :
    (p : Pool) (c : Call) (target : String)
    → failures (do_task p c.target c.run).0 target ≡ (
        if str_eq c.target target
        then tally (outcome_of p c) (failures p target)
        else failures p target)
unfolding do_task record_result
do_task-failures p c target =
    let p1 = (check_backoff p c.target c.run.first_look).0 in
    let p2 = (check_backoff p1 c.target c.run.second_look).0 in
    ground (
      arith,
      eq_iff c.target target,
      check_backoff-fails p c.target c.run.first_look,
      check_backoff-fails p1 c.target c.run.second_look,
      lookup-insert c.target target (suc (failures p2 c.target)) p2.fails,
      lookup-erase c.target target p2.fails,
    )

-- After any sequence of calls on a new pool, the failure count of a target is the number of its
-- runs that failed since its last success; calls that are turned away or cancelled do not count.
pub failures-pool_after :
    (opt : Options) (cs : List Call) (target : String)
    → failures (pool_after (new_pool opt) cs) target ≡ failed_in_row target (new_pool opt) cs
unfolding pool_after new_pool lookup
failures-pool_after opt [] target = refl
failures-pool_after opt (c ∷ older) target = ground (
  arith,
  do_task-failures (pool_after (new_pool opt) older) c target,
  failures-pool_after opt older target,
)
