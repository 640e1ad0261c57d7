-- ===== src/Rules/Coverage.antt =====
-- Which rules a host gets: for a metric that an override of the host sets, those of the overrides, and
-- for any other metric those of the templates.
use metalwatch.Base.{
  ◌≡◌, refl, sym, ap, ◌∙◌, subst, inl, inr, String, Bool, true, false, ◌&&◌, ◌||◌, Option, none,
  some, List, [], ◌∷◌, ◌++◌, arith, All, All-append, All-map, str_eq, eq_iff, eq_refl,
  if◌then◌else◌, Bool-cases,
}
use metalwatch.Base.Int.{ℤ}
use metalwatch.Base.Float.{Float64}
use metalwatch.Base.Map.{lookup, lookup-insert}
use metalwatch.Alarm.Rule.{AlarmRule}
use metalwatch.Rules.{
  ThresholdTemplate, ThresholdOverride, RuleSet, HostRules, empty_rule_set, or_empty, append_rule,
  add_templates, override_rule, add_override_rule, make_host, add_override, add_overrides,
  build_rule_set, is_some, uncovered, all_rules, rules_for,
}
use metalwatch.Rules.Owners.{
  Entries, OfHost, Hosts, lookup-Hosts, add_templates-Entries, add_overrides-Hosts,
  add_templates-overrides,
}

-- An override of the host sets a value for the metric.
abbrev pub overridden : List ThresholdOverride → String → String → Bool
overridden [] host metric = false
overridden (o ∷ os) host metric =
    (str_eq o.hostname host
      && str_eq o.metric metric
      && (is_some o.crit_value || is_some o.warn_value))
    || overridden os host metric

-- Whether a rule set has rules of the host for the metric.
abbrev pub has_rules : RuleSet → String → String → Bool
has_rules rs host metric = is_some (lookup metric (or_empty (lookup host rs.overrides)))

-- What an override of a host adds to the metrics that the host has rules for.
has_rules-add_override_rule :
    (rs : RuleSet) (o : ThresholdOverride) (d : ℤ) (id level parent : String) (v : Option Float64)
    (host metric : String)
    → has_rules (add_override_rule rs o d id level parent v).0 host metric ≡ (
        (str_eq o.hostname host && str_eq o.metric metric && is_some v) || has_rules rs host metric)
unfolding add_override_rule append_rule
has_rules-add_override_rule rs o d id level parent none host metric = ground arith
has_rules-add_override_rule rs o d id level parent (some v) host metric =
    let rules = or_empty (lookup o.hostname rs.overrides) in
    ground (
      arith,
      eq_iff o.hostname host,
      lookup-insert o.hostname host
          (append_rule o.metric (override_rule o d id level parent v) rules) rs.overrides,
      lookup-insert o.metric metric
          (or_empty (lookup o.metric rules) ++ override_rule o d id level parent v ∷ []) rules,
    )

has_rules-make_host :
    (rs : RuleSet) (h host metric : String)
    → has_rules (make_host rs h) host metric ≡ has_rules rs host metric
unfolding make_host
has_rules-make_host rs h host metric =
    ground
      (arith, eq_iff h host, lookup-insert h host (or_empty (lookup h rs.overrides)) rs.overrides)

has_rules-add_override :
    (tpls : List ThresholdTemplate) (rs : RuleSet) (o : ThresholdOverride) (host metric : String)
    → has_rules (add_override tpls rs o) host metric
      ≡ (overridden (o ∷ []) host metric || has_rules rs host metric)
unfolding add_override
has_rules-add_override tpls rs o host metric =
    has_rules-add_override_rule _ o _ _ _ _ o.warn_value host metric
    ∙ ap
        (λ (b : Bool).
          (str_eq o.hostname host && str_eq o.metric metric && is_some o.warn_value) || b)
        (has_rules-add_override_rule (make_host rs o.hostname) o _ _ _ _ o.crit_value host metric)
    ∙ (rw (has_rules-make_host rs o.hostname host metric) (ground arith))

has_rules-add_overrides :
    (tpls : List ThresholdTemplate) (rs : RuleSet) (os : List ThresholdOverride)
    (host metric : String)
    → has_rules (add_overrides tpls rs os) host metric
      ≡ (overridden os host metric || has_rules rs host metric)
unfolding add_overrides
has_rules-add_overrides tpls rs [] host metric = refl
has_rules-add_overrides tpls rs (o ∷ os) host metric = ground (
  arith,
  has_rules-add_overrides tpls (add_override tpls rs o) os host metric,
  has_rules-add_override tpls rs o host metric,
)

add_override_rule-templates :
    (rs : RuleSet) (o : ThresholdOverride) (d : ℤ) (id level parent : String) (v : Option Float64)
    → (add_override_rule rs o d id level parent v).0.templates ≡ rs.templates
unfolding add_override_rule
add_override_rule-templates rs o d id level parent none = refl
add_override_rule-templates rs o d id level parent (some v) = refl

pub add_overrides-templates :
    (tpls : List ThresholdTemplate) (rs : RuleSet) (os : List ThresholdOverride)
    → (add_overrides tpls rs os).templates ≡ rs.templates
unfolding add_overrides add_override make_host
add_overrides-templates tpls rs [] = refl
add_overrides-templates tpls rs (o ∷ os) =
    add_overrides-templates tpls (add_override tpls rs o) os
    ∙ add_override_rule-templates _ o _ _ _ _ o.warn_value
    ∙ add_override_rule-templates (make_host rs o.hostname) o _ _ _ _ o.crit_value

-- A rule is of the host where an override of it sets the metric, and of every host elsewhere.
abbrev pub Fits : List ThresholdOverride → String → AlarmRule → Type 0
Fits ovs host r = r.host ≡ (if overridden ovs host r.metric then host else "")

module _ (ovs : List ThresholdOverride) (host : String) (ov : HostRules)
    (known : (metric : String) → is_some (lookup metric ov) ≡ overridden ovs host metric) where
  template-Fits :
      (metric : String) (rules : List AlarmRule)
      → is_some (lookup metric ov) ≡ false
      → OfHost "" metric rules
      → All (Fits ovs host) rules
  template-Fits metric [] free h = tt
  template-Fits metric (r ∷ rules) free h =
      (h.0.1 ∙ rw (h.0.0, sym (known metric), free) refl, template-Fits metric rules free h.1)

  uncovered-Fits : (m : HostRules) → Entries (OfHost "") m → All (Fits ovs host) (uncovered ov m)
  unfolding uncovered
  uncovered-Fits [] h = tt
  uncovered-Fits ((metric, rules) ∷ m) h = elim (Bool-cases (is_some (lookup metric ov))) [
    | inl hidden ↦ rw hidden (uncovered-Fits m h.1)
    | inr free ↦
        rw free (All-append _ rules _ (template-Fits metric rules free h.0) (uncovered-Fits m h.1))
  ]

  override-Fits :
      (metric : String) (rules : List AlarmRule)
      → is_some (lookup metric ov) ≡ true
      → OfHost host metric rules
      → All (Fits ovs host) rules
  override-Fits metric [] set h = tt
  override-Fits metric (r ∷ rules) set h =
      (h.0.1 ∙ rw (h.0.0, sym (known metric), set) refl, override-Fits metric rules set h.1)

  all_rules-Fits :
      (m : HostRules)
      → All (λ (e : String × List AlarmRule). is_some (lookup e.0 ov) ≡ true) m
      → Entries (OfHost host) m
      → All (Fits ovs host) (all_rules m)
  unfolding all_rules
  all_rules-Fits [] set h = tt
  all_rules-Fits ((metric, rules) ∷ m) set h =
      All-append _ rules _ (override-Fits metric rules set.0 h.0) (all_rules-Fits m set.1 h.1)

-- Each key of a map is found in it.
keys_found :
    (m : HostRules) → All (λ (e : String × List AlarmRule). is_some (lookup e.0 m) ≡ true) m
unfolding lookup
keys_found [] = tt
keys_found ((j, w) ∷ m) = (rw (eq_refl j) refl, All-map m (λ e found. ground arith) (keys_found m))

pub has_rules-build_rule_set :
    (tpls : List ThresholdTemplate) (ovs : List ThresholdOverride) (host metric : String)
    → has_rules (build_rule_set tpls ovs) host metric ≡ overridden ovs host metric
unfolding build_rule_set empty_rule_set lookup
has_rules-build_rule_set tpls ovs host metric = ground (
  arith,
  has_rules-add_overrides tpls (add_templates empty_rule_set tpls) ovs host metric,
  add_templates-overrides empty_rule_set tpls,
)

build-Entries :
    (tpls : List ThresholdTemplate) (ovs : List ThresholdOverride)
    → Entries (OfHost "") (build_rule_set tpls ovs).templates
unfolding build_rule_set empty_rule_set
build-Entries tpls ovs =
    subst (Entries (OfHost "")) (sym (add_overrides-templates tpls _ ovs))
      (add_templates-Entries empty_rule_set tpls tt)

build-Hosts :
    (tpls : List ThresholdTemplate) (ovs : List ThresholdOverride) → Hosts (build_rule_set tpls ovs)
unfolding build_rule_set empty_rule_set
build-Hosts tpls ovs = add_overrides-Hosts tpls _ ovs (
    subst (Entries (λ h (w : HostRules). Entries (OfHost h) w))
      (sym (add_templates-overrides empty_rule_set tpls)) tt)

-- Whatever the templates and overrides, each rule that a host gets is of the host where an
-- override of it sets a value for the metric of the rule, and is of no host, as those of templates
-- are, elsewhere.
pub rules_for-Fits :
    (tpls : List ThresholdTemplate) (ovs : List ThresholdOverride) (host : String)
    → All (Fits ovs host) (rules_for (build_rule_set tpls ovs) host)
unfolding rules_for
rules_for-Fits tpls ovs host =
    let rs = build_rule_set tpls ovs in
    let ov = or_empty (lookup host rs.overrides) in
    let known = has_rules-build_rule_set tpls ovs host in
    All-append _ (uncovered ov rs.templates) _
      (uncovered-Fits ovs host ov known rs.templates (build-Entries tpls ovs))
      (all_rules-Fits ovs host ov known ov (keys_found ov)
        (lookup-Hosts host rs.overrides (build-Hosts tpls ovs)))
