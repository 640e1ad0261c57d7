-- ===== src/Alerts/Service.antt =====
-- AlertService.Evaluate and the agent-offline alarms, backend/internal/service/alerting.go. A notice is
-- what goes to `dispatch`.
use metalwatch.Base.{
  ℕ, suc, String, ◌<>◌, Bool, true, false, Option, none, some, List, [], ◌∷◌, ◌++◌, map, str_eq,
  if◌then◌else◌,
}
use metalwatch.Base.Int.{ℤ}
use metalwatch.Base.Clock.{Time}
use metalwatch.Base.Float.{Float64}
use metalwatch.Base.Map.{Map, lookup, insert}
use metalwatch.Auth.{trim_space}
use metalwatch.Alarm.Rule.{
  AlarmRule, AlarmEvent, EventState, Sample, firing, recovered, suppressed, muted,
}
use metalwatch.Alarm.Engine.{AlarmEngine, process}
use metalwatch.Rules.{RuleMeta, RuleSet, rules_for}
use metalwatch.Alerts.{Row, Table, Attempt, upsert_firing, resolve, touch, insert_silenced}

-- A sample as it is reported.
pub record Reported : Type 0 where
  pub metric : String
  pub value : Float64
  pub labels : Map String

abbrev pub or_blank : Option String → String
or_blank none = ""
or_blank (some s) = s

abbrev first_label : List String → Map String → String
first_label [] labels = ""
first_label (k ∷ ks) labels =
    let v = trim_space (or_blank (lookup k labels)) in
    let more = first_label ks labels in if str_eq v "" then more else v

unfoldable pub object_of : Map String → String
object_of labels = first_label ("device" ∷ "slot" ∷ "array" ∷ "chip" ∷ "rail" ∷ []) labels

-- The key of a time line.
abbrev line_key : String → String → String
line_key metric object = metric <> "\u{1f}" <> object

abbrev pub to_sample : String → Time → Reported → Sample
to_sample hostname at sm = record {
  metric = sm.metric;
  value = sm.value;
  host = hostname;
  at = at;
  object = object_of sm.labels;
}

-- The last value of each time line.
unfoldable pub values_of : Map Float64 → List Reported → Map Float64
values_of values [] = values
values_of values (sm ∷ sms) =
    values_of (insert (line_key sm.metric (object_of sm.labels)) sm.value values) sms

-- A key that is missing gives 0.
abbrev or_zero : Option Float64 → Float64
or_zero none = 0
or_zero (some v) = v

abbrev severity_of : String → String
severity_of level = if str_eq level "critical" then "critical" else "major"

abbrev op_symbol : String → String
op_symbol op =
    if str_eq op "gt"
    then ">"
    else if str_eq op "lt"
    then "<"
    else if str_eq op "eq"
    then "=="
    else if str_eq op "ne"
    then "!="
    else op

-- The AlertEvent that a literal leaves as it is.
abbrev pub blank_row : Row
blank_row = record {
  id = 0;
  host_id = none;
  severity = "";
  category = "";
  metric = none;
  object_name = none;
  value = none;
  threshold = none;
  title = "";
  detail = none;
  state = "";
  active_key = none;
  first_seen_at = 0;
  last_seen_at = 0;
  resolved_at = none;
  notify_state = "";
}

-- The text of a state is used by nobody: UpsertFiring and InsertSilenced set their own.
abbrev state_text : EventState → String
state_text firing = "firing"
state_text recovered = "recovered"
state_text suppressed = "suppressed"
state_text muted = "muted"

pub record Notice : Type 0 where
  pub row : Row
  pub kind : String
  pub at : Time

-- `%g` of fmt and the JSON text of the details.
pub record Texts : Type 0 where
  pub format_g : Float64 → String
  pub marshal : AlarmEvent → RuleMeta → String → String → Float64 → String

module _ (texts : Texts) (host_id : ℤ) (hostname : String) (at : Time) where
  unfoldable pub to_event : AlarmEvent → RuleMeta → Float64 → Row
  to_event ev meta val =
      let obj = trim_space ev.object in
      let op_text = op_symbol meta.op <> " " <> texts.format_g meta.threshold in
      record blank_row {
        host_id = some host_id;
        severity = severity_of ev.level;
        category = meta.category;
        metric = some meta.metric;
        object_name = if str_eq obj "" then none else some obj;
        value = some val;
        threshold = some meta.threshold;
        title =
            meta.title
            <> "："
            <> hostname
            <> " "
            <> meta.metric
            <> " "
            <> texts.format_g val
            <> "（阈值 "
            <> op_text
            <> "）";
        detail = some (texts.marshal ev meta obj hostname val);
        state = state_text ev.state;
      }

  abbrev pub resolved_event : AlarmEvent → RuleMeta → Row
  resolved_event ev meta = record blank_row {
    host_id = some host_id;
    severity = severity_of ev.level;
    category = meta.category;
    metric = some meta.metric;
    first_seen_at = at;
    last_seen_at = at;
  }

  abbrev pub notices_of : Row → Option (Bool × ℕ) → List Notice
  notices_of e none = []
  notices_of e (some (false, id)) = []
  notices_of e (some (true, id)) =
      record { row = record e { id = id }; kind = "alert.firing"; at = at } ∷ []

  abbrev pub recovery_notices : Row → Option Bool → List Notice
  recovery_notices e none = []
  recovery_notices e (some false) = []
  recovery_notices e (some true) = record { row = e; kind = "alert.resolved"; at = at } ∷ []

  -- One event of the engine, whose rule has these metadata.
  unfoldable pub record_event :
      Attempt → AlarmEvent → EventState → RuleMeta → Float64 → Table → Table × List Notice
  unfolding to_event
  record_event a ev firing meta val t =
      let e = to_event ev meta val in
      let (t', out) = upsert_firing a e ev.active_key at t in (t', notices_of e out)
  record_event a ev recovered meta val t =
      let (t', out) = resolve a ev.active_key at t in
      (t', recovery_notices (resolved_event ev meta) out)
  record_event a ev suppressed meta val t = (touch a ev.active_key at (some val) t, [])
  record_event a ev muted meta val t = (insert_silenced a (to_event ev meta val) at t, [])

  -- An event of a rule that has no metadata is passed over.
  abbrev pub record_known :
      Attempt → Map Float64 → AlarmEvent → Option RuleMeta → Table → Table × List Notice
  record_known a values ev none t = (t, [])
  record_known a values ev (some meta) t =
      record_event a ev ev.state meta (or_zero (lookup (line_key meta.metric ev.object) values)) t

  -- The loop over the events; the n-th event has the n-th attempt.
  unfoldable pub record_events :
      (ℕ → Attempt) → ℕ → Map RuleMeta → Map Float64 → List AlarmEvent → Table → Table × List Notice
  record_events attempts n metas values [] t = (t, [])
  record_events attempts n metas values (ev ∷ evs) t =
      let (t', out) = record_known (attempts n) values ev (lookup ev.rule_id metas) t in
      let (t'', more) = record_events attempts (suc n) metas values evs t' in (t'', out ++ more)

  abbrev evaluate_rules :
      (ℕ → Attempt)
      → List AlarmRule
      → RuleSet
      → List Reported
      → AlarmEngine
      → Table
      → (AlarmEngine × Table) × List Notice
  evaluate_rules attempts [] rs sms eng t = ((eng, t), [])
  evaluate_rules attempts (r ∷ rules) rs sms eng t =
      let (eng', evs) = process eng (map (to_sample hostname at) sms) (r ∷ rules) at in
      let (t', notices) = record_events attempts 0 rs.metas (values_of [] sms) evs t in
      ((eng', t'), notices)

  unfoldable pub evaluate :
      (ℕ → Attempt)
      → RuleSet
      → List Reported
      → AlarmEngine
      → Table
      → (AlarmEngine × Table) × List Notice
  unfolding record_events values_of object_of
  evaluate attempts rs sms eng t = evaluate_rules attempts (rules_for rs hostname) rs sms eng t
