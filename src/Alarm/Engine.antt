-- ===== src/Alarm/Engine.antt =====
-- The engine's state and operations: `NewAlarmEngine`, the setters, `evalRule` and `Process`.
use Prim.Native.String.{◌++◌}
use metalwatch.Base.{
  ℕ, suc, ◌*◌, String, Bool, true, false, ◌&&◌, not, Option, none, some, List, [], ◌∷◌, str_eq,
  if◌then◌else◌,
}
use metalwatch.Base.Int.{ℤ, pos, ltb_ℤ, leb_ℤ}
use metalwatch.Base.Clock.{Time, Duration, since, is_zero, minute}
use metalwatch.Base.Map.{Map, lookup, insert}
use metalwatch.Alarm.Rule.{
  AlarmRule, MaintenanceWindow, Sample, AlarmEvent, EventState, firing, recovered, suppressed,
  muted, matches, covers,
}
use metalwatch.Alarm.Sort.{sort_rules}
use mathlib.Core.List.{◌++◌ as ◌⊕◌}

pub record AlarmState : Type 0 where
  pub rule_id : String
  pub level : String
  pub breach_start : Time
  pub firing : Bool
  pub last_fired_at : Time
  pub consecutive_below : ℕ

pub record AlarmEngine : Type 0 where
  pub states : Map AlarmState
  pub maint : List MaintenanceWindow
  pub recover_n : ℤ
  pub suppress_window : Duration

unfoldable pub new_alarm_engine : AlarmEngine
new_alarm_engine = record {
  states = [];
  maint = [];
  recover_n = pos 3;
  suppress_window = pos (5 * minute);
}

unfoldable pub set_recovery_threshold : AlarmEngine → ℤ → AlarmEngine
set_recovery_threshold e n = record e { recover_n = if ltb_ℤ n (pos 1) then pos 1 else n }

unfoldable pub set_suppress_window : AlarmEngine → Duration → AlarmEngine
set_suppress_window e d = record e { suppress_window = if ltb_ℤ d (pos 0) then pos 0 else d }

unfoldable pub set_maintenance : AlarmEngine → List MaintenanceWindow → AlarmEngine
set_maintenance e windows = record e { maint = windows }

unfoldable pub covered : List MaintenanceWindow → Time → String → Bool
covered [] t host = false
covered (m ∷ ms) t host = if covers m t host then true else covered ms t host

unfoldable pub in_maintenance : AlarmEngine → Time → String → Bool
unfolding covered
in_maintenance e t host = covered e.maint t host

unfoldable pub level_of : AlarmRule → String
level_of r = if str_eq r.level "" then "warning" else r.level

-- `id@host`, with `/object` behind it where the sample has one.
unfoldable pub instance_key : String → Sample → String
instance_key id s =
    let base = id ++ ("@" ++ s.host) in
    if not (str_eq s.object "") then base ++ ("/" ++ s.object) else base

unfoldable pub active_key_of : AlarmRule → Sample → String
active_key_of r s = if str_eq r.active_key "" then instance_key r.id s else r.active_key

event : EventState → String → String → AlarmRule → Sample → Time → AlarmEvent
event st message key r s now = record {
  active_key = key;
  rule_id = r.id;
  host = s.host;
  object = s.object;
  level = level_of r;
  state = st;
  message = message;
  at = now;
}

unfoldable pub firing_event : AlarmEngine → AlarmRule → Sample → Time → AlarmEvent
unfolding event
firing_event e r s now =
    if in_maintenance e now s.host
    then event muted "维护窗口内，仅记录" (active_key_of r s) r s now
    else event firing "指标越限" (active_key_of r s) r s now

-- `breachStart` once the condition holds: kept where it is set.
unfoldable pub breach_began : AlarmState → Time → Time
breach_began st now = if is_zero st.breach_start then now else st.breach_start

-- The condition has not held for the rule's duration.
unfoldable pub too_early : Duration → Time → Time → Bool
too_early for_duration began now =
    ltb_ℤ (pos 0) for_duration && ltb_ℤ (since now began) for_duration

-- The condition holds and the alarm is not firing.
unfoldable pub start_firing :
    AlarmEngine → AlarmRule → Sample → Time → Bool → AlarmState → AlarmState × List AlarmEvent
unfolding event firing_event
start_firing e r s now parent_firing st =
    let held = record st { breach_start = breach_began st now } in
    if too_early r.for_duration held.breach_start now
    then (held, [])
    else if parent_firing
    then (held, event suppressed "被父告警抑制" (active_key_of r s) r s now ∷ [])
    else (
      record held { firing = true; last_fired_at = now; consecutive_below = 0; breach_start = 0 },
      firing_event e r s now ∷ [],
    )

-- The condition holds and the alarm is firing already.
unfoldable pub fire_again :
    AlarmEngine → AlarmRule → Sample → Time → AlarmState → AlarmState × List AlarmEvent
unfolding event firing_event
fire_again e r s now st =
    if ltb_ℤ (since now st.last_fired_at) e.suppress_window
    then (st, event suppressed "抑制窗口内重复触发" (active_key_of r s) r s now ∷ [])
    else (record st { last_fired_at = now }, firing_event e r s now ∷ [])

-- The condition does not hold.
unfoldable pub calm_down :
    AlarmEngine → AlarmRule → Sample → Time → AlarmState → AlarmState × List AlarmEvent
unfolding event
calm_down e r s now st =
    let below = record st { consecutive_below = suc st.consecutive_below; breach_start = 0 } in
    if below.firing && leb_ℤ e.recover_n (pos below.consecutive_below)
    then (
      record below { firing = false; consecutive_below = 0 },
      event recovered "指标已恢复" (active_key_of r s) r s now ∷ [],
    )
    else (below, [])

-- `evalRule` on the state of its key.
unfoldable pub judge :
    AlarmEngine → AlarmRule → Sample → Time → Bool → AlarmState → AlarmState × List AlarmEvent
unfolding start_firing fire_again calm_down
judge e r s now parent_firing st =
    if matches r.comparator s.value r.threshold
    then (if st.firing then fire_again e r s now st else start_firing e r s now parent_firing st)
    else calm_down e r s now st

fresh_state : AlarmRule → AlarmState
fresh_state r = record {
  rule_id = r.id;
  level = level_of r;
  breach_start = 0;
  firing = false;
  last_fired_at = 0;
  consecutive_below = 0;
}

-- The state of a key, which is made on first use.
unfoldable pub state_for : AlarmRule → Option AlarmState → AlarmState
unfolding fresh_state
state_for r none = fresh_state r
state_for r (some st) = st

abbrev is_firing : Option AlarmState → Bool
is_firing none = false
is_firing (some st) = st.firing

unfoldable pub parent_fires : Map AlarmState → AlarmRule → Sample → Bool
parent_fires states r s =
    if not (str_eq r.parent "") then is_firing (lookup (instance_key r.parent s) states) else false

unfoldable pub eval_rule : AlarmEngine → AlarmRule → Sample → Time → AlarmEngine × List AlarmEvent
eval_rule e r s now =
    let key = active_key_of r s in
    let st = state_for r (lookup key e.states) in
    let states = insert key st e.states in
    let (st', events) = judge e r s now (parent_fires states r s) st in
    (record e { states = insert key st' states }, events)

-- The tests that skip a rule in the inner loop of `Process`.
unfoldable pub applies : AlarmRule → Sample → Bool
applies r s =
    if not r.enabled
    then false
    else if not (str_eq r.metric s.metric)
    then false
    else if not (str_eq r.host "") && not (str_eq r.host s.host)
    then false
    else true

unfoldable pub process_rules :
    AlarmEngine → List AlarmRule → Sample → Time → AlarmEngine × List AlarmEvent
unfolding applies
process_rules e [] s now = (e, [])
process_rules e (r ∷ rs) s now =
    let (e', events) = if applies r s then eval_rule e r s now else (e, []) in
    let (e'', more) = process_rules e' rs s now in (e'', events ⊕ more)

unfoldable pub process_samples :
    AlarmEngine → List AlarmRule → List Sample → Time → AlarmEngine × List AlarmEvent
process_samples e rs [] now = (e, [])
process_samples e rs (s ∷ samples) now =
    let (e', events) = process_rules e rs s now in
    let (e'', more) = process_samples e' rs samples now in (e'', events ⊕ more)

unfoldable pub process :
    AlarmEngine → List Sample → List AlarmRule → Time → AlarmEngine × List AlarmEvent
process e samples rules now = process_samples e (sort_rules rules) samples now
