-- ===== src/Schedule.antt =====
-- The schedule engine, backend/internal/engine/schedule_engine.go: targets with the time at which they
-- are due next, polled through the task pool. A clock reading is an argument.
pub mod Sleep
pub mod Ticks
use metalwatch.Base.{
  ℕ, zero, suc, ◌+◌, ◌*◌, String, Bool, true, false, ◌&&◌, ◌||◌, not, Option, none, some, List, [],
  ◌∷◌, ◌++◌, map, leb, str_eq, ◌==◌, if◌then◌else◌,
}
use metalwatch.Base.Int.{ℤ, pos, pos_part, neg_part, ltb_ℤ, leb_ℤ, max_int64}
use metalwatch.Base.Clock.{Time, Duration, second, minute, add, since}
use metalwatch.Base.Map.{Map, lookup, insert, erase}
use metalwatch.Base.Sort.{sort_by}
use metalwatch.Task.{
  Pool, Run, Outcome, backing_off, context_done, ran_ok, ran_failed, do_task, new_pool,
}

pub data TargetKind : Type 0 where
  sensor asset : TargetKind

-- `has_run`: the action is there. What it does is in the runs of the pool.
pub record CollectionTask : Type 0 where
  pub id : String
  pub kind : TargetKind
  pub host : String
  pub interval : Duration
  pub has_run : Bool

pub record ScheduleConfig : Type 0 where
  pub sensor_interval : Duration
  pub asset_interval : Duration

pub record TargetState : Type 0 where
  pub task : CollectionTask
  pub interval : Duration
  pub next_due : Time
  pub in_flight : Bool

pub record ScheduleEngine : Type 0 where
  pub cfg : ScheduleConfig
  pub targets : Map TargetState
  pub stopped : Bool

unfoldable pub new_schedule_engine : ScheduleConfig → ScheduleEngine
new_schedule_engine cfg = record {
  cfg = record {
    sensor_interval =
        if leb_ℤ cfg.sensor_interval (pos 0) then pos (30 * second) else cfg.sensor_interval;
    asset_interval =
        if leb_ℤ cfg.asset_interval (pos 0) then pos (5 * minute) else cfg.asset_interval;
  };
  targets = [];
  stopped = false;
}

abbrev of_kind : TargetKind → ScheduleConfig → Duration
of_kind sensor cfg = cfg.sensor_interval
of_kind asset cfg = cfg.asset_interval

unfoldable pub interval_of : ScheduleEngine → CollectionTask → Duration
interval_of s t = if ltb_ℤ (pos 0) t.interval then t.interval else of_kind t.kind s.cfg

-- An existing target keeps its due time and its flight.
unfoldable pub add_target : CollectionTask → Time → ScheduleEngine → ScheduleEngine
unfolding interval_of
add_target t now s = if str_eq t.id "" || not t.has_run then s else elim (lookup t.id s.targets) [
  | some st ↦ record s {
    targets = insert t.id (record st { task = t; interval = interval_of s t }) s.targets;
  }
  | none ↦ record s {
    targets =
        insert t.id
          (record { task = t; interval = interval_of s t; next_due = now; in_flight = false })
          s.targets;
  }
]

unfoldable pub remove_target : String → ScheduleEngine → ScheduleEngine
remove_target id s = record s { targets = erase id s.targets }

abbrev key_of : String × TargetState → String
key_of entry = entry.0

unfoldable pub target_ids : ScheduleEngine → List String
target_ids s = sort_by (λ (id : String). id) (map key_of s.targets)

-- The shortest wait of the targets, from a start.
unfoldable pub min_wait : Duration → Time → Map TargetState → Duration
min_wait least now [] = least
min_wait least now ((id, st) ∷ rest) =
    let d = since st.next_due now in min_wait (if ltb_ℤ d least then d else least) now rest

-- `none` is the negative result: the context is cancelled or the engine stopped.
unfoldable pub sleep_until : Bool → Time → ScheduleEngine → Option Duration
sleep_until cancelled now s =
    let wait = min_wait (pos max_int64) now s.targets in
    if cancelled || s.stopped
    then none
    else if pos_part wait == max_int64
    then some (pos (60 * minute))
    else if ltb_ℤ wait (pos 0)
    then some (pos 0)
    else some wait

-- Due now and not in flight.
unfoldable pub is_due : Time → TargetState → Bool
is_due now st = not st.in_flight && leb st.next_due now

-- The serial key for the pool.
unfoldable pub pool_key : CollectionTask → String
pool_key t = if str_eq t.host "" then t.id else t.host

abbrev pub is_backing_off : Outcome → Bool
is_backing_off backing_off = true
is_backing_off context_done = false
is_backing_off ran_ok = false
is_backing_off ran_failed = false

-- The end of a poll: in backoff the phase stays, else the next period starts now.
unfoldable pub landed : Outcome → Time → TargetState → TargetState
landed out now st =
    let down = record st { in_flight = false } in
    if is_backing_off out then down else record down { next_due = add now st.interval }

-- `Tick` over the targets that are left, with no other call in between. The runs of the pool are given
-- by ID: a target is polled once at most.
unfoldable pub tick_targets :
    (String → Run) → Time → Pool → Map TargetState → (Pool × Map TargetState) × ℕ
unfolding is_due pool_key landed
tick_targets runs now pool [] = ((pool, []), 0)
tick_targets runs now pool ((id, st) ∷ rest) =
    let (pool', out) = do_task pool (pool_key st.task) (runs id) in
    let after = if is_due now st then pool' else pool in
    let ((last, rest'), n) = tick_targets runs now after rest in
    if is_due now st
    then ((last, (id, landed out now st) ∷ rest'), if is_backing_off out then n else suc n)
    else ((last, (id, st) ∷ rest'), n)

unfoldable pub tick : (String → Run) → Time → Pool → ScheduleEngine → (Pool × ScheduleEngine) × ℕ
tick runs now pool s =
    let ((pool', targets), n) = tick_targets runs now pool s.targets in
    ((pool', record s { targets = targets }), n)

unfoldable pub stop : ScheduleEngine → ScheduleEngine
stop s = record s { stopped = true }
