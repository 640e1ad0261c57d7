-- ===== src/Rules.antt =====
-- How thresholds become alarm rules: the rule set of backend/internal/service/alerting.go, over the
-- rows of backend/internal/adapter/threshold.go. A range over a Go map, whose order is not fixed, goes
-- here in the order of insertion; `Process` sorts the rules by their IDs.
pub mod Owners
pub mod Coverage
pub mod Complete
use Prim.Native.String.{◌++◌}
use mathlib.Core.List.{◌++◌ as ◌⊕◌}
use metalwatch.Base.{
  ℕ, zero, suc, ◌*◌, ◌/◌, ◌%◌, String, Bool, true, false, Option, none, some, List, [], ◌∷◌, ltb,
  ◌==◌, str_eq, if◌then◌else◌,
}
use metalwatch.Base.Int.{ℤ, pos, negsuc, pos_part, neg_part, sub_ℕ, eqb_ℤ, wrap64}
use metalwatch.Base.Clock.{Duration, second}
use metalwatch.Base.Float.{Float64}
use metalwatch.Base.Map.{Map, lookup, insert}
use metalwatch.Alarm.Rule.{AlarmRule, Comparator, gt, lt, eq, ne}

pub record ThresholdTemplate : Type 0 where
  pub id : ℤ
  pub name : String
  pub metric : String
  pub category : String
  pub op : String
  pub warn_value : Option Float64
  pub crit_value : Option Float64
  pub duration_sec : ℤ
  pub enabled : Bool
  pub builtin : Bool

pub record ThresholdOverride : Type 0 where
  pub id : ℤ
  pub host_id : ℤ
  pub hostname : String
  pub metric : String
  pub op : String
  pub warn_value : Option Float64
  pub crit_value : Option Float64
  pub duration_sec : ℤ
  pub enabled : Bool

pub record RuleMeta : Type 0 where
  pub title : String
  pub category : String
  pub metric : String
  pub op : String
  pub threshold : Float64
  pub host_id : ℤ

abbrev pub HostRules : Type 0
HostRules = Map (List AlarmRule)

pub record RuleSet : Type 0 where
  pub templates : HostRules
  pub overrides : Map HostRules
  pub metas : Map RuleMeta

unfoldable pub empty_rule_set : RuleSet
empty_rule_set = record { templates = []; overrides = []; metas = [] }

unfoldable pub comparator_of : String → Comparator
comparator_of op =
    if str_eq op "lt" then lt else if str_eq op "eq" then eq else if str_eq op "ne" then ne else gt

digit : ℕ → String
digit n =
    if n == 0
    then "0"
    else if n == 1
    then "1"
    else if n == 2
    then "2"
    else if n == 3
    then "3"
    else if n == 4
    then "4"
    else if n == 5
    then "5"
    else if n == 6
    then "6"
    else if n == 7
    then "7"
    else if n == 8
    then "8"
    else "9"

-- An int64 has at most 19 digits.
digits : ℕ → ℕ → String
digits zero n = ""
digits (suc places) n =
    let higher = digits places (n / 10) in if ltb n 10 then digit n else higher ++ digit (n % 10)

-- `%d`
unfoldable pub decimal : ℤ → String
unfolding digits digit
decimal (pos n) = digits 19 n
decimal (negsuc n) = "-" ++ digits 19 (suc n)

-- `time.Duration(v) * time.Second`, which wraps.
unfoldable pub seconds : ℤ → Duration
seconds v = wrap64 (sub_ℕ (pos_part v * second) (neg_part v * second))

abbrev pub or_empty {ℓ} : {A : Type ℓ} → Option (List A) → List A
or_empty none = []
or_empty (some xs) = xs

unfoldable pub append_rule : String → AlarmRule → HostRules → HostRules
append_rule metric r m = insert metric (or_empty (lookup metric m) ⊕ (r ∷ [])) m

unfoldable pub template_rule : ThresholdTemplate → String → String → String → Float64 → AlarmRule
template_rule t id level parent v = record {
  id = id;
  metric = t.metric;
  comparator = comparator_of t.op;
  threshold = v;
  for_duration = seconds t.duration_sec;
  level = level;
  host = "";
  parent = parent;
  active_key = "";
  enabled = true;
}

template_meta : ThresholdTemplate → Float64 → RuleMeta
template_meta t v = record {
  title = t.name;
  category = t.category;
  metric = t.metric;
  op = t.op;
  threshold = v;
  host_id = pos 0;
}

-- One of the two rules of a template, which has it where its value is set; with the ID, or none.
unfoldable pub add_template_rule :
    RuleSet → ThresholdTemplate → String → String → String → Option Float64 → RuleSet × String
unfolding template_meta
add_template_rule rs t id level parent none = (rs, "")
add_template_rule rs t id level parent (some v) = (
  record rs {
    templates = append_rule t.metric (template_rule t id level parent v) rs.templates;
    metas = insert id (template_meta t v) rs.metas;
  },
  id,
)

unfoldable pub add_template : RuleSet → ThresholdTemplate → RuleSet
add_template rs t =
    let prefix = "tpl-" ++ decimal t.id in
    let (rs', crit_id) = add_template_rule rs t (prefix ++ "-crit") "critical" "" t.crit_value in
    (add_template_rule rs' t (prefix ++ "-warn") "major" crit_id t.warn_value).0

unfoldable pub add_templates : RuleSet → List ThresholdTemplate → RuleSet
add_templates rs [] = rs
add_templates rs (t ∷ ts) = add_templates (add_template rs t) ts

-- The duration of the last template of the metric.
unfoldable pub template_duration : ℤ → String → List ThresholdTemplate → ℤ
template_duration d metric [] = d
template_duration d metric (t ∷ ts) =
    template_duration (if str_eq t.metric metric then t.duration_sec else d) metric ts

unfoldable pub override_rule :
    ThresholdOverride → ℤ → String → String → String → Float64 → AlarmRule
override_rule o d id level parent v = record {
  id = id;
  metric = o.metric;
  comparator = comparator_of o.op;
  threshold = v;
  for_duration = seconds d;
  level = level;
  host = o.hostname;
  parent = parent;
  active_key = "";
  enabled = true;
}

override_meta : ThresholdOverride → Float64 → RuleMeta
override_meta o v = record {
  title = "覆盖 · " ++ o.metric;
  category = "sensor";
  metric = o.metric;
  op = o.op;
  threshold = v;
  host_id = o.host_id;
}

unfoldable pub add_override_rule :
    RuleSet → ThresholdOverride → ℤ → String → String → String → Option Float64 → RuleSet × String
unfolding override_meta
add_override_rule rs o d id level parent none = (rs, "")
add_override_rule rs o d id level parent (some v) =
    let rules = or_empty (lookup o.hostname rs.overrides) in
    let rules' = append_rule o.metric (override_rule o d id level parent v) rules in
    (
      record rs {
        overrides = insert o.hostname rules' rs.overrides;
        metas = insert id (override_meta o v) rs.metas;
      },
      id,
    )

-- The host has an entry from its first override on, whether a value is set or not.
unfoldable pub make_host : RuleSet → String → RuleSet
make_host rs host = record rs {
  overrides = insert host (or_empty (lookup host rs.overrides)) rs.overrides;
}

unfoldable pub add_override : List ThresholdTemplate → RuleSet → ThresholdOverride → RuleSet
add_override tpls rs o =
    let d =
      if eqb_ℤ o.duration_sec (pos 0)
      then template_duration o.duration_sec o.metric tpls
      else o.duration_sec in
    let prefix = "ovr-" ++ decimal o.id in
    let (rs', crit_id) =
      add_override_rule (make_host rs o.hostname) o d (prefix ++ "-crit") "critical" ""
        o.crit_value in
    (add_override_rule rs' o d (prefix ++ "-warn") "major" crit_id o.warn_value).0

unfoldable pub add_overrides : List ThresholdTemplate → RuleSet → List ThresholdOverride → RuleSet
add_overrides tpls rs [] = rs
add_overrides tpls rs (o ∷ os) = add_overrides tpls (add_override tpls rs o) os

unfoldable pub build_rule_set : List ThresholdTemplate → List ThresholdOverride → RuleSet
build_rule_set tpls ovs = add_overrides tpls (add_templates empty_rule_set tpls) ovs

abbrev pub is_some {ℓ} : {A : Type ℓ} → Option A → Bool
is_some none = false
is_some (some x) = true

unfoldable pub uncovered : HostRules → HostRules → List AlarmRule
uncovered ov [] = []
uncovered ov ((metric, rules) ∷ rest) =
    let later = uncovered ov rest in if is_some (lookup metric ov) then later else rules ⊕ later

unfoldable pub all_rules : HostRules → List AlarmRule
all_rules [] = []
all_rules ((metric, rules) ∷ rest) = rules ⊕ all_rules rest

-- A host without overrides has an empty map, which covers nothing and adds nothing.
unfoldable pub rules_for : RuleSet → String → List AlarmRule
rules_for rs host =
    let ov = or_empty (lookup host rs.overrides) in uncovered ov rs.templates ⊕ all_rules ov
