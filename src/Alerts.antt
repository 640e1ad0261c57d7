-- ===== src/Alerts.antt =====
-- Alarm events as rows: the event repository of backend/internal/adapter/threshold.go, and Evaluate and
-- the agent-offline alarms of backend/internal/service/alerting.go over it. An SQL statement is atomic;
-- whether it fails is an argument, and one that fails changes nothing. Times stand for their texts.
pub mod Open
pub mod Service
pub mod Statements
pub mod Notified
pub mod Evaluated
pub mod Outbox
pub mod Dispatch
pub mod Offline
pub mod Repeat
use metalwatch.Base.{
  ℕ, zero, suc, ◌+◌, String, ◌<>◌, Bool, true, false, ◌&&◌, not, Option, none, some, List, [], ◌∷◌,
  ◌++◌, ltb, str_eq, ◌==◌, if◌then◌else◌,
}
use metalwatch.Base.Int.{ℤ, pos}
use metalwatch.Base.Clock.{Time}
use metalwatch.Base.Float.{Float64}
use metalwatch.Base.Map.{Map, lookup, insert}
use metalwatch.Auth.{trim_space}
use metalwatch.Alarm.Rule.{
  AlarmRule, AlarmEvent, EventState, Sample, firing, recovered, suppressed, muted,
}
use metalwatch.Alarm.Engine.{AlarmEngine, process}
use metalwatch.Rules.{RuleMeta, RuleSet, rules_for, decimal}

-- The columns of alert_event that the program sets here.
pub record Row : Type 0 where
  pub id : ℕ
  pub host_id : Option ℤ
  pub severity : String
  pub category : String
  pub metric : Option String
  pub object_name : Option String
  pub value : Option Float64
  pub threshold : Option Float64
  pub title : String
  pub detail : Option String
  pub state : String
  pub active_key : Option String
  pub first_seen_at : Time
  pub last_seen_at : Time
  pub resolved_at : Option Time
  pub notify_state : String

-- `next_id` is what the database gives the next row.
pub record Table : Type 0 where
  pub rows : List Row
  pub next_id : ℕ

abbrev pub has_key : String → Option String → Bool
has_key key none = false
has_key key (some k) = str_eq k key

-- `active_key = ? AND state = 'firing'`
unfoldable pub is_firing : String → Row → Bool
is_firing key r = has_key key r.active_key && str_eq r.state "firing"

-- UPDATE ... WHERE, with the number of rows affected.
unfoldable pub update_where : (Row → Bool) → (Row → Row) → List Row → List Row × ℕ
update_where p f [] = ([], 0)
update_where p f (r ∷ rs) =
    let (rest, n) = update_where p f rs in if p r then (f r ∷ rest, suc n) else (r ∷ rest, n)

-- The unique index on active_key.
unfoldable pub is_taken : String → List Row → Bool
is_taken key [] = false
is_taken key (r ∷ rs) =
    let more = is_taken key rs in if has_key key r.active_key then true else more

-- 0 where there is none.
unfoldable pub firing_id : String → List Row → ℕ
firing_id key [] = 0
firing_id key (r ∷ rs) = let more = firing_id key rs in if is_firing key r then r.id else more

unfoldable pub refresh : Row → Time → Row → Row
refresh e at r = record r {
  last_seen_at = at;
  value = e.value;
  severity = e.severity;
  title = e.title;
}

-- Which of the statements of one call succeed, in their order.
pub record Attempt : Type 0 where
  pub first_ok : Bool
  pub second_ok : Bool
  pub third_ok : Bool

unfoldable pub refresh_firing : Row → String → Time → List Row → List Row × ℕ
unfolding refresh is_firing
refresh_firing e key at rows = update_where (is_firing key) (refresh e at) rows

-- The rows that the two INSERTs make.
abbrev pub firing_row : Row → String → Time → ℕ → Row
firing_row e key at id = record e {
  id = id;
  state = "firing";
  active_key = some key;
  first_seen_at = at;
  last_seen_at = at;
  resolved_at = none;
  notify_state = "pending";
}

abbrev pub silenced_row : Row → Time → ℕ → Row
silenced_row e at id = record e {
  id = id;
  state = "silenced";
  active_key = none;
  first_seen_at = at;
  last_seen_at = at;
  resolved_at = none;
  notify_state = "skipped";
}

-- `none` is an error; else whether a row was made, and its ID. No other statement comes in between, so
-- the UPDATE after a conflict on the index leaves what the first one left.
unfoldable pub upsert_firing : Attempt → Row → String → Time → Table → Table × Option (Bool × ℕ)
unfolding refresh_firing
upsert_firing a e key at t =
    let (rows, n) = refresh_firing e key at t.rows in
    if not a.first_ok
    then (t, none)
    else if ltb 0 n
    then (record t { rows = rows }, some (false, firing_id key rows))
    else if not a.second_ok
    then (t, none)
    else if is_taken key t.rows
    then (if a.third_ok
        then (record t { rows = rows }, some (false, firing_id key rows))
        else (t, none))
    else (
      record { rows = t.rows ++ (firing_row e key at t.next_id ∷ []); next_id = suc t.next_id },
      some (true, t.next_id),
    )

unfoldable pub close_row : Time → Row → Row
close_row at r = record r {
  state = "resolved";
  resolved_at = some at;
  last_seen_at = at;
  active_key = none;
}

unfoldable pub resolve : Attempt → String → Time → Table → Table × Option Bool
unfolding close_row
resolve a key at t =
    let (rows, n) = update_where (is_firing key) (close_row at) t.rows in
    if a.first_ok then (record t { rows = rows }, some (ltb 0 n)) else (t, none)

unfoldable pub touch : Attempt → String → Time → Option Float64 → Table → Table
touch a key at v t =
    if a.first_ok
    then record t {
      rows =
          (update_where (is_firing key) (λ r. record r { last_seen_at = at; value = v }) t.rows).0;
    }
    else t

unfoldable pub insert_silenced : Attempt → Row → Time → Table → Table
insert_silenced a e at t =
    if a.first_ok
    then record { rows = t.rows ++ (silenced_row e at t.next_id ∷ []); next_id = suc t.next_id }
    else t
