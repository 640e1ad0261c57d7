-- ===== src/Task.antt =====
-- The task pool that polls BMCs, backend/internal/task/pool.go: failure counts, backoff windows and
-- the path of one call of `Do`. The pool's mutex makes each operation atomic; a clock reading is an
-- argument of the operation that takes it.
pub mod Backoff
pub mod Window
pub mod History
pub mod Goroutines
pub mod Concurrency
use metalwatch.Base.{
  ℕ, zero, suc, ◌+◌, ◌-◌, ◌*◌, String, Bool, true, false, not, Option, none, some, [], ◌∷◌, length,
  ltb, if◌then◌else◌,
}
use metalwatch.Base.Int.{ℤ, pos, pos_part, ltb_ℤ, leb_ℤ, ◌+ℤ◌, wrap64}
use metalwatch.Base.Clock.{Time, Duration, second, minute, add}
use metalwatch.Base.Map.{Map, lookup, insert, erase}

pub record Options : Type 0 where
  pub concurrency : ℤ
  pub timeout : Duration
  pub retry_threshold : ℤ
  pub backoff_base : Duration
  pub backoff_max : Duration

pub record Pool : Type 0 where
  pub opt : Options
  pub fails : Map ℕ
  pub blocked : Map Time

abbrev or_default : ℤ → ℤ → ℤ
or_default v d = if leb_ℤ v (pos 0) then d else v

unfoldable pub new_pool : Options → Pool
new_pool opt = record {
  opt = record {
    concurrency = or_default opt.concurrency (pos 1);
    timeout = or_default opt.timeout (pos (30 * second));
    retry_threshold = or_default opt.retry_threshold (pos 3);
    backoff_base = or_default opt.backoff_base (pos (30 * second));
    backoff_max = or_default opt.backoff_max (pos (30 * minute));
  };
  fails = [];
  blocked = [];
}

-- `checkBackoff`: true is `ErrBackoff`.
unfoldable pub check_backoff : Pool → String → Time → Pool × Bool
check_backoff p target now = elim (lookup target p.blocked) [
  | none ↦ (p, false)
  | some until ↦
      if ltb until now then (record p { blocked = erase target p.blocked }, false) else (p, true)
]

-- The doubling loop of `recordResult`, with the rounds that are left; int64 wraps.
unfoldable pub double_delay : ℕ → Duration → Duration → Duration
double_delay zero delay max = delay
double_delay (suc rounds) delay max =
    let doubled = double_delay rounds (wrap64 (delay +ℤ delay)) max in
    if ltb_ℤ delay max then doubled else delay

unfoldable pub backoff_delay : Options → ℕ → Duration
unfolding double_delay
backoff_delay opt n =
    let delay = double_delay (n - pos_part opt.retry_threshold) opt.backoff_base opt.backoff_max in
    if ltb_ℤ opt.backoff_max delay then opt.backoff_max else delay

abbrev pub count_of : Option ℕ → ℕ
count_of none = 0
count_of (some n) = n

-- `recordResult` after a failure.
unfoldable pub record_failure : Pool → String → Time → Pool
record_failure p target now =
    let n = suc (count_of (lookup target p.fails)) in
    let p' = record p { fails = insert target n p.fails } in
    if ltb_ℤ (pos n) p.opt.retry_threshold
    then p'
    else record p' { blocked = insert target (add now (backoff_delay p.opt n)) p'.blocked }

-- `recordResult` after a success.
unfoldable pub record_success : Pool → String → Pool
record_success p target = record p {
  fails = erase target p.fails;
  blocked = erase target p.blocked;
}

unfoldable pub record_result : Pool → String → Bool → Time → Pool
unfolding record_failure record_success
record_result p target succeeded now =
    if succeeded then record_success p target else record_failure p target now

-- What the environment decides in one call of `Do`: the clock at the two tests and at the end,
-- whether the context is cancelled while the call waits, and how the task ends.
pub record Run : Type 0 where
  pub first_look : Time
  pub cancelled : Bool
  pub second_look : Time
  pub succeeds : Bool
  pub finished : Time

pub data Outcome : Type 0 where
  backing_off context_done ran_ok ran_failed : Outcome

unfoldable pub do_task : Pool → String → Run → Pool × Outcome
do_task p target run =
    let (p1, early) = check_backoff p target run.first_look in
    if early
    then (p1, backing_off)
    else if run.cancelled
    then (p1, context_done)
    else let (p2, late) = check_backoff p1 target run.second_look in
      if late then (p2, backing_off) else (
        record_result p2 target run.succeeds run.finished,
        if run.succeeds then ran_ok else ran_failed,
      )

-- `Stats`: how many targets have failed, and how many are in backoff.
abbrev count_failing : Map ℕ → ℕ
count_failing [] = 0
count_failing ((k, n) ∷ m) = if ltb 0 n then suc (count_failing m) else count_failing m

unfoldable pub stats : Pool → ℕ × ℕ
stats p = (count_failing p.fails, length p.blocked)
