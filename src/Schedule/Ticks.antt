-- ===== src/Schedule/Ticks.antt =====
-- What a tick does to the targets that are due.
use metalwatch.Base.{
  ℕ, suc, ◌+◌, ◌*◌, ◌<◌, ◌≡◌, refl, ap, ◌∙◌, String, true, false, not, ◌||◌, none, [], ◌∷◌, map,
  All, str_eq, if◌then◌else◌, inl, inr, Bool-cases, Option-cases, arith,
}
use metalwatch.Base.Int.{pos, negsuc, ltb_ℤ, leb_ℤ}
use metalwatch.Base.Clock.{Time, Duration, second, minute, add}
use metalwatch.Base.Map.{lookup-erase, Map, lookup, insert, erase}
use metalwatch.Task.{
  check_backoff, record_result, record_success, Pool, Run, Outcome, backing_off, context_done,
  ran_ok, ran_failed, do_task,
}
use metalwatch.Base.Sort.{sort_by, IsSortedBy, sort_by-IsSortedBy}
use metalwatch.Schedule.{
  target_ids, TargetKind, sensor, asset, CollectionTask, ScheduleConfig, TargetState,
  ScheduleEngine, new_schedule_engine, of_kind, interval_of, add_target, remove_target, key_of,
  is_due, pool_key, is_backing_off, landed, tick_targets, tick, stop,
}

unfoldable pub due_count : Time → Map TargetState → ℕ
due_count now [] = 0
due_count now ((id, st) ∷ rest) = let n = due_count now rest in if is_due now st then suc n else n

-- The state of a target has a period above 0.
abbrev Periodic : String × TargetState → Type 0
Periodic entry = ltb_ℤ (pos 0) entry.1.interval ≡ true

lt-add : (now : Time) (d : Duration) → ltb_ℤ (pos 0) d ≡ true → now < add now d
unfolding add
lt-add now (pos n) h = ground arith
lt-add now (negsuc n) h = ground arith

landed-is_due :
    (out : Outcome) (now : Time) (st : TargetState)
    → ltb_ℤ (pos 0) st.interval ≡ true
    → is_due now st ≡ true
    → is_due now (landed out now st) ≡ is_backing_off out
unfolding landed is_due
landed-is_due backing_off now st h d = ground arith
landed-is_due context_done now st h d = ground (arith, lt-add now st.interval h)
landed-is_due ran_ok now st h d = ground (arith, lt-add now st.interval h)
landed-is_due ran_failed now st h d = ground (arith, lt-add now st.interval h)

tick_targets-due_count :
    (runs : String → Run) (now : Time) (pool : Pool) (m : Map TargetState)
    → All Periodic m
    → let r = tick_targets runs now pool m in r.1 + due_count now r.0.1 ≡ due_count now m
unfolding tick_targets due_count
tick_targets-due_count runs now pool [] h = refl
tick_targets-due_count runs now pool ((id, st) ∷ rest) h =
    let (pool', out) = do_task pool (pool_key st.task) (runs id) in
    elim (Bool-cases (is_due now st)) [
      | inl d ↦
          ground (
            arith,
            d,
            landed-is_due out now st h.0 d,
            tick_targets-due_count runs now pool' rest h.1,
          )
      | inr d ↦ ground (arith, d, tick_targets-due_count runs now pool rest h.1)
    ]

-- Periods above 0, of the defaults and of every target.
record Valid (s : ScheduleEngine) : Type 0 where
  sensor_positive : ltb_ℤ (pos 0) s.cfg.sensor_interval ≡ true
  asset_positive : ltb_ℤ (pos 0) s.cfg.asset_interval ≡ true
  periodic : All Periodic s.targets

Periodic-insert :
    (id : String) (st : TargetState) (m : Map TargetState)
    → ltb_ℤ (pos 0) st.interval ≡ true
    → All Periodic m
    → All Periodic (insert id st m)
unfolding insert
Periodic-insert id st [] h a = (h, tt)
Periodic-insert id st ((at, held) ∷ rest) h a = elim (Bool-cases (str_eq at id)) [
  | inl e ↦ rw e (h, a.1)
  | inr e ↦ rw e (a.0, Periodic-insert id st rest h a.1)
]

Periodic-erase : (id : String) (m : Map TargetState) → All Periodic m → All Periodic (erase id m)
unfolding erase
Periodic-erase id [] a = tt
Periodic-erase id ((at, held) ∷ rest) a = elim (Bool-cases (str_eq at id)) [
  | inl e ↦ rw e (Periodic-erase id rest a.1)
  | inr e ↦ rw e (a.0, Periodic-erase id rest a.1)
]

Periodic-tick_targets :
    (runs : String → Run) (now : Time) (pool : Pool) (m : Map TargetState)
    → All Periodic m
    → All Periodic (tick_targets runs now pool m).0.1
unfolding tick_targets landed
Periodic-tick_targets runs now pool [] a = tt
Periodic-tick_targets runs now pool ((id, st) ∷ rest) a =
    let (pool', out) = do_task pool (pool_key st.task) (runs id) in
    elim (Bool-cases (is_due now st)) [
      | inl d ↦ elim (Bool-cases (is_backing_off out)) [
        | inl b ↦ rw (d, b) (a.0, Periodic-tick_targets runs now pool' rest a.1)
        | inr b ↦ rw (d, b) (a.0, Periodic-tick_targets runs now pool' rest a.1)
      ]
      | inr d ↦ rw d (a.0, Periodic-tick_targets runs now pool rest a.1)
    ]

interval_of-positive :
    (s : ScheduleEngine) (t : CollectionTask) → Valid s → ltb_ℤ (pos 0) (interval_of s t) ≡ true
unfolding interval_of
interval_of-positive s t v = elim (Bool-cases (ltb_ℤ (pos 0) t.interval)) [
  | inl e ↦ rw e e
  | inr e ↦ rw e (kind_positive t.kind)
]
  where
    kind_positive : (k : TargetKind) → ltb_ℤ (pos 0) (of_kind k s.cfg) ≡ true
    kind_positive sensor = v.sensor_positive
    kind_positive asset = v.asset_positive

add_target-Valid :
    (t : CollectionTask) (now : Time) (s : ScheduleEngine) → Valid s → Valid (add_target t now s)
unfolding add_target
add_target-Valid t now s v =
    let kept = interval_of-positive s t v in
    elim (Bool-cases (str_eq t.id "" || not t.has_run)) [
      | inl e ↦ rw e v
      | inr e ↦ elim (Option-cases (lookup t.id s.targets)) [
        | inl f ↦
            rw (e, f)
              (record {
                sensor_positive = v.sensor_positive;
                asset_positive = v.asset_positive;
                periodic = Periodic-insert t.id _ s.targets kept v.periodic;
              })
        | inr (st, f) ↦
            rw (e, f)
              (record {
                sensor_positive = v.sensor_positive;
                asset_positive = v.asset_positive;
                periodic = Periodic-insert t.id _ s.targets kept v.periodic;
              })
      ]
    ]

-- Calls one after another on a new engine. A tick comes with its pool and the runs of that.
pub data Reach (cfg : ScheduleConfig) : ScheduleEngine → Type 0 where
  start : Reach cfg (new_schedule_engine cfg)
  adds :
      {s : ScheduleEngine} (t : CollectionTask) (now : Time)
      → Reach cfg s
      → Reach cfg (add_target t now s)
  removes : {s : ScheduleEngine} (id : String) → Reach cfg s → Reach cfg (remove_target id s)
  ticks :
      {s : ScheduleEngine} (runs : String → Run) (now : Time) (pool : Pool)
      → Reach cfg s
      → Reach cfg (tick runs now pool s).0.1
  stops : {s : ScheduleEngine} → Reach cfg s → Reach cfg (stop s)

default_positive :
    (d : Duration) (n : ℕ) → 0 < n → ltb_ℤ (pos 0) (if leb_ℤ d (pos 0) then pos n else d) ≡ true
default_positive (pos k) n h = ground arith
default_positive (negsuc k) n h = ground arith

Reach-Valid : (cfg : ScheduleConfig) {s : ScheduleEngine} → Reach cfg s → Valid s
unfolding new_schedule_engine remove_target tick stop
Reach-Valid cfg start = record {
  sensor_positive = default_positive cfg.sensor_interval (30 * second) (omega arith);
  asset_positive = default_positive cfg.asset_interval (5 * minute) (omega arith);
  periodic = tt;
}
Reach-Valid cfg (adds {s} t now r) = add_target-Valid t now s (Reach-Valid cfg r)
Reach-Valid cfg (removes {s} id r) =
    let v = Reach-Valid cfg r in
    record {
      sensor_positive = v.sensor_positive;
      asset_positive = v.asset_positive;
      periodic = Periodic-erase id s.targets v.periodic;
    }
Reach-Valid cfg (ticks {s} runs now pool r) =
    let v = Reach-Valid cfg r in
    record {
      sensor_positive = v.sensor_positive;
      asset_positive = v.asset_positive;
      periodic = Periodic-tick_targets runs now pool s.targets v.periodic;
    }
Reach-Valid cfg (stops r) =
    let v = Reach-Valid cfg r in
    record {
      sensor_positive = v.sensor_positive;
      asset_positive = v.asset_positive;
      periodic = v.periodic;
    }

tick_targets-key_of :
    (runs : String → Run) (now : Time) (pool : Pool) (m : Map TargetState)
    → map key_of (tick_targets runs now pool m).0.1 ≡ map key_of m
unfolding tick_targets
tick_targets-key_of runs now pool [] = refl
tick_targets-key_of runs now pool ((id, st) ∷ rest) =
    let (pool', out) = do_task pool (pool_key st.task) (runs id) in
    elim (Bool-cases (is_due now st)) [
      | inl d ↦ rw d (ap (◌∷◌ id) (tick_targets-key_of runs now pool' rest))
      | inr d ↦ rw d (ap (◌∷◌ id) (tick_targets-key_of runs now pool rest))
    ]

-- On an engine that any calls lead to, whatever the pool and the runs do, the number that a tick
-- returns and the targets that are still due add up to the targets that were due; no target comes
-- or goes.
pub tick-due_count :
    (cfg : ScheduleConfig) {s : ScheduleEngine} (runs : String → Run) (now : Time) (pool : Pool)
    → Reach cfg s
    → let ((_, s'), n) = tick runs now pool s in
      (n + due_count now s'.targets ≡ due_count now s.targets)
      × (map key_of s'.targets ≡ map key_of s.targets)
unfolding tick
tick-due_count cfg {s} runs now pool r = (
  tick_targets-due_count runs now pool s.targets (Reach-Valid cfg r).periodic,
  tick_targets-key_of runs now pool s.targets,
)

-- No failed run keeps the targets' hosts in backoff.
abbrev pub Clear : Pool → Map TargetState → Type 0
Clear pool = All (λ (e : String × TargetState). lookup (pool_key e.1.task) pool.blocked ≡ none)

do_task-clear :
    (p : Pool) (target : String) (run : Run)
    → lookup target p.blocked ≡ none
    → run.cancelled ≡ false
    → run.succeeds ≡ true
    → ((do_task p target run).1 ≡ ran_ok)
      × ((do_task p target run).0.blocked ≡ erase target p.blocked)
unfolding do_task check_backoff record_result record_success
do_task-clear p target run h c s = ground (arith, h, c, s)

Clear-erase :
    (p q : Pool) (target : String) (m : Map TargetState)
    → q.blocked ≡ erase target p.blocked
    → Clear p m
    → Clear q m
Clear-erase p q target [] e h = tt
Clear-erase p q target ((id, st) ∷ rest) e h =
    let key = pool_key st.task in
    (
      ap (lookup key) e ∙ lookup-erase target key p.blocked ∙ ground (arith, h.0),
      Clear-erase p q target rest e h.1,
    )

tick_targets-all :
    (runs : String → Run) (now : Time) (pool : Pool) (m : Map TargetState)
    → Clear pool m
    → ((id : String) → (runs id).cancelled ≡ false)
    → ((id : String) → (runs id).succeeds ≡ true)
    → (tick_targets runs now pool m).1 ≡ due_count now m
unfolding tick_targets due_count
tick_targets-all runs now pool [] h c s = refl
tick_targets-all runs now pool ((id, st) ∷ rest) h c s =
    let target = pool_key st.task in
    let (ok, cleared) = do_task-clear pool target (runs id) h.0 (c id) (s id) in
    let (pool', out) = do_task pool target (runs id) in
    elim (Bool-cases (is_due now st)) [
      | inl d ↦ ground (
        arith,
        d,
        ok,
        ap is_backing_off ok,
        tick_targets-all runs now pool' rest (Clear-erase pool pool' target rest cleared h.1) c s,
      )
      | inr d ↦ ground (arith, d, tick_targets-all runs now pool rest h.1 c s)
    ]

-- On an engine that any calls lead to, where no target waits for a host in backoff and no run
-- fails or is cancelled, a tick polls as many targets as are due, and none is due afterwards.
pub tick_polls_all :
    (cfg : ScheduleConfig) {s : ScheduleEngine} (runs : String → Run) (now : Time) (pool : Pool)
    → Reach cfg s
    → Clear pool s.targets
    → ((id : String) → (runs id).cancelled ≡ false)
    → ((id : String) → (runs id).succeeds ≡ true)
    → let ((_, s'), n) = tick runs now pool s in
      (n ≡ due_count now s.targets) × (due_count now s'.targets ≡ 0)
unfolding tick
tick_polls_all cfg {s} runs now pool r h c k =
    let all = tick_targets-all runs now pool s.targets h c k in
    let left = tick_targets-due_count runs now pool s.targets (Reach-Valid cfg r).periodic in
    (all, omega (arith, all, left))

-- A tick shows the same IDs, in the order of the IDs.
pub tick-target_ids :
    (runs : String → Run) (now : Time) (pool : Pool) (s : ScheduleEngine)
    → (target_ids (tick runs now pool s).0.1 ≡ target_ids s)
      × IsSortedBy (λ (id : String). id) (target_ids s)
unfolding tick target_ids
tick-target_ids runs now pool s = (
  ap (sort_by (λ (id : String). id)) (tick_targets-key_of runs now pool s.targets),
  (sort_by-IsSortedBy (λ (id : String). id) (map key_of s.targets)).0,
)
