-- ===== src/Rules/Complete.antt =====
-- That the rules of a template reach every host for which no override stands in their way.
use mathlib.Core.List.{Mem, mem-append_left, mem-append_right, append_assoc, append-nil}
use metalwatch.Base.{
  ◌≡◌, refl, sym, ap, ◌∙◌, subst, inl, inr, String, Bool, true, false, Option, none, some, List, [],
  ◌∷◌, ◌++◌, ◌<>◌, arith, str_eq, eq_iff, if◌then◌else◌, Bool-cases,
}
use metalwatch.Base.Float.{Float64}
use metalwatch.Base.Map.{lookup, lookup-insert}
use metalwatch.Alarm.Rule.{AlarmRule}
use metalwatch.Rules.{
  ThresholdTemplate, ThresholdOverride, RuleSet, HostRules, empty_rule_set, or_empty, append_rule,
  template_rule, add_template_rule, add_template, add_templates, build_rule_set, is_some, uncovered,
  rules_for, decimal,
}
use metalwatch.Rules.Coverage.{overridden, add_overrides-templates, has_rules-build_rule_set}

abbrev one_rule : ThresholdTemplate → String → String → String → Option Float64 → List AlarmRule
one_rule t id level parent none = []
one_rule t id level parent (some v) = template_rule t id level parent v ∷ []

lookup-append_rule :
    (metric k : String) (r : AlarmRule) (m : HostRules)
    → or_empty (lookup k (append_rule metric r m))
      ≡ (if str_eq metric k then or_empty (lookup k m) ++ (r ∷ []) else or_empty (lookup k m))
unfolding append_rule
lookup-append_rule metric k r m =
    ground
      (arith, eq_iff metric k, lookup-insert metric k (or_empty (lookup metric m) ++ (r ∷ [])) m)

lookup-add_template_rule :
    (rs : RuleSet) (t : ThresholdTemplate) (id level parent k : String) (v : Option Float64)
    → or_empty (lookup k (add_template_rule rs t id level parent v).0.templates)
      ≡ or_empty (lookup k rs.templates)
        ++ (if str_eq t.metric k then one_rule t id level parent v else [])
unfolding add_template_rule
lookup-add_template_rule rs t id level parent k none =
    ground (arith, append-nil (or_empty (lookup k rs.templates)))
lookup-add_template_rule rs t id level parent k (some v) = ground (
  arith,
  lookup-append_rule t.metric k (template_rule t id level parent v) rs.templates,
  append-nil (or_empty (lookup k rs.templates)),
)

-- The rules of a template: the warning has the critical rule as its parent where there is one.
abbrev pub template_pair : ThresholdTemplate → List AlarmRule
template_pair t =
    let prefix = "tpl-" <> decimal t.id in
    let crit_id = if is_some t.crit_value then prefix <> "-crit" else "" in
    one_rule t (prefix <> "-crit") "critical" "" t.crit_value
    ++ one_rule t (prefix <> "-warn") "major" crit_id t.warn_value

-- The rules of the templates of a metric, in order.
abbrev pub template_rules : String → List ThresholdTemplate → List AlarmRule
template_rules metric [] = []
template_rules metric (t ∷ ts) =
    (if str_eq t.metric metric then template_pair t else []) ++ template_rules metric ts

add_template_rule-id :
    (rs : RuleSet) (t : ThresholdTemplate) (id level parent : String) (v : Option Float64)
    → (add_template_rule rs t id level parent v).1 ≡ (if is_some v then id else "")
unfolding add_template_rule
add_template_rule-id rs t id level parent none = refl
add_template_rule-id rs t id level parent (some v) = refl

join_if :
    (b : Bool) (xs ys : List AlarmRule)
    → (if b then xs else []) ++ (if b then ys else []) ≡ (if b then xs ++ ys else [])
join_if true xs ys = refl
join_if false xs ys = refl

lookup-add_template :
    (rs : RuleSet) (t : ThresholdTemplate) (k : String)
    → or_empty (lookup k (add_template rs t).templates)
      ≡ or_empty (lookup k rs.templates) ++ (if str_eq t.metric k then template_pair t else [])
unfolding add_template
lookup-add_template rs t k =
    let prefix = "tpl-" <> decimal t.id in
    let warn = λ (id : String). one_rule t (prefix <> "-warn") "major" id t.warn_value in
    let old = or_empty (lookup k rs.templates) in
    let here = str_eq t.metric k in
    let crit = one_rule t (prefix <> "-crit") "critical" "" t.crit_value in
    let r1 = add_template_rule rs t (prefix <> "-crit") "critical" "" t.crit_value in
    lookup-add_template_rule r1.0 t (prefix <> "-warn") "major" r1.1 k t.warn_value
    ∙ ap (λ xs. xs ++ (if here then warn r1.1 else []))
        (lookup-add_template_rule rs t (prefix <> "-crit") "critical" "" k t.crit_value)
    ∙ ap (λ id. (old ++ (if here then crit else [])) ++ (if here then warn id else []))
        (add_template_rule-id rs t (prefix <> "-crit") "critical" "" t.crit_value)
    ∙ append_assoc old (if here then crit else []) _
    ∙ ap (◌++◌ old) (join_if here crit _)

lookup-add_templates :
    (rs : RuleSet) (ts : List ThresholdTemplate) (k : String)
    → or_empty (lookup k (add_templates rs ts).templates)
      ≡ or_empty (lookup k rs.templates) ++ template_rules k ts
unfolding add_templates
lookup-add_templates rs [] k = sym (append-nil (or_empty (lookup k rs.templates)))
lookup-add_templates rs (t ∷ ts) k =
    lookup-add_templates (add_template rs t) ts k
    ∙ ap (λ xs. xs ++ template_rules k ts) (lookup-add_template rs t k)
    ∙ append_assoc (or_empty (lookup k rs.templates)) _ (template_rules k ts)

mem-uncovered :
    (ov m : HostRules) (k : String) (r : AlarmRule)
    → is_some (lookup k ov) ≡ false
    → Mem r (or_empty (lookup k m))
    → Mem r (uncovered ov m)
unfolding uncovered lookup
mem-uncovered ov [] k r free h = h
mem-uncovered ov ((j, rules) ∷ m) k r free h = elim (Bool-cases (str_eq j k)) [
  | inl same ↦
      let open_here : is_some (lookup j ov) ≡ false =
        subst (λ i. is_some (lookup i ov) ≡ false) (sym ((eq_iff j k).0 same)) free in
      rw open_here (mem-append_left (uncovered ov m) (subst (Mem r) (rw same refl) h))
  | inr other ↦
      let inside = mem-uncovered ov m k r free (subst (Mem r) (rw other refl) h) in
      elim (Bool-cases (is_some (lookup j ov))) [
        | inl hidden ↦ rw hidden inside
        | inr shown ↦ rw shown (mem-append_right rules inside)
      ]
]

build_rule_set-templates :
    (tpls : List ThresholdTemplate) (ovs : List ThresholdOverride) (metric : String)
    → or_empty (lookup metric (build_rule_set tpls ovs).templates) ≡ template_rules metric tpls
unfolding build_rule_set empty_rule_set lookup
build_rule_set-templates tpls ovs metric =
    ap (λ (m : HostRules). or_empty (lookup metric m)) (add_overrides-templates tpls _ ovs)
    ∙ lookup-add_templates empty_rule_set tpls metric

-- A host for which no override sets a value for a metric gets all rules of the templates of the
-- metric: for each the critical rule and the warning, as far as their values are set, the first
-- being the parent of the second.
pub template_rules_reach :
    (tpls : List ThresholdTemplate) (ovs : List ThresholdOverride) (host metric : String)
    (r : AlarmRule)
    → overridden ovs host metric ≡ false
    → Mem r (template_rules metric tpls)
    → Mem r (rules_for (build_rule_set tpls ovs) host)
unfolding rules_for
template_rules_reach tpls ovs host metric r free m =
    let rs = build_rule_set tpls ovs in
    let ov = or_empty (lookup host rs.overrides) in
    mem-append_left _ (
      mem-uncovered ov rs.templates metric r (has_rules-build_rule_set tpls ovs host metric ∙ free)
        (subst (Mem r) (sym (build_rule_set-templates tpls ovs metric)) m))
