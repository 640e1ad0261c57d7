-- ===== src/Rules/Owners.antt =====
-- Whose rules stand where in a rule set: those of templates are of no host, those of overrides of the
-- host that they are filed under.
use metalwatch.Base.{
  ◌≡◌, refl, ◌∙◌, subst, inl, inr, String, Option, none, some, List, [], ◌∷◌, All, All-append,
  str_eq, eq_iff, Bool-cases,
}
use metalwatch.Base.Int.{ℤ}
use metalwatch.Base.Float.{Float64}
use metalwatch.Base.Map.{Map, lookup, insert}
use metalwatch.Alarm.Rule.{AlarmRule}
use metalwatch.Rules.{
  ThresholdTemplate, ThresholdOverride, RuleSet, HostRules, or_empty, append_rule, template_rule,
  add_template_rule, add_template, add_templates, override_rule, add_override_rule, make_host,
  add_override, add_overrides,
}

module _ {ℓ κ} {V : Type ℓ} (P : String → V → Type κ) where
  abbrev pub Entries : Map V → Type κ
  Entries m = All (λ (e : String × V). P e.0 e.1) m

  insert-Entries : (k : String) (v : V) (m : Map V) → P k v → Entries m → Entries (insert k v m)
  unfolding insert
  insert-Entries k v [] p h = (p, tt)
  insert-Entries k v ((j, w) ∷ m) p h = elim (Bool-cases (str_eq j k)) [
    | inl same ↦ rw same (p, h.1)
    | inr other ↦ rw other (h.0, insert-Entries k v m p h.1)
  ]

-- Every rule under a metric is for the metric, and of the host that is named.
abbrev pub OfHost : String → String → List AlarmRule → Type 0
OfHost host metric rules = All (λ (r : AlarmRule). (r.metric ≡ metric) × (r.host ≡ host)) rules

lookup-OfHost :
    (host metric : String) (m : HostRules)
    → Entries (OfHost host) m
    → OfHost host metric (or_empty (lookup metric m))
unfolding lookup
lookup-OfHost host metric [] h = tt
lookup-OfHost host metric ((j, w) ∷ m) h = elim (Bool-cases (str_eq j metric)) [
  | inl same ↦ rw same (subst (λ k. OfHost host k w) ((eq_iff j metric).0 same) h.0)
  | inr other ↦ rw other (lookup-OfHost host metric m h.1)
]

append_rule-Entries :
    (host metric : String) (r : AlarmRule) (m : HostRules)
    → r.metric ≡ metric
    → r.host ≡ host
    → Entries (OfHost host) m
    → Entries (OfHost host) (append_rule metric r m)
unfolding append_rule
append_rule-Entries host metric r m e k h =
    insert-Entries (OfHost host) metric _ m
      (All-append _ (or_empty (lookup metric m)) (r ∷ []) (lookup-OfHost host metric m h)
        ((e, k), tt))
      h

add_template_rule-Entries :
    (rs : RuleSet) (t : ThresholdTemplate) (id level parent : String) (v : Option Float64)
    → Entries (OfHost "") rs.templates
    → Entries (OfHost "") (add_template_rule rs t id level parent v).0.templates
unfolding add_template_rule template_rule
add_template_rule-Entries rs t id level parent none h = h
add_template_rule-Entries rs t id level parent (some v) h =
    append_rule-Entries "" t.metric (template_rule t id level parent v) rs.templates refl refl h

add_template-Entries :
    (rs : RuleSet) (t : ThresholdTemplate)
    → Entries (OfHost "") rs.templates
    → Entries (OfHost "") (add_template rs t).templates
unfolding add_template
add_template-Entries rs t h =
    add_template_rule-Entries _ t _ _ _ t.warn_value
      (add_template_rule-Entries rs t _ _ _ t.crit_value h)

add_template_rule-overrides :
    (rs : RuleSet) (t : ThresholdTemplate) (id level parent : String) (v : Option Float64)
    → (add_template_rule rs t id level parent v).0.overrides ≡ rs.overrides
unfolding add_template_rule
add_template_rule-overrides rs t id level parent none = refl
add_template_rule-overrides rs t id level parent (some v) = refl

add_template-overrides :
    (rs : RuleSet) (t : ThresholdTemplate) → (add_template rs t).overrides ≡ rs.overrides
unfolding add_template
add_template-overrides rs t =
    add_template_rule-overrides _ t _ _ _ t.warn_value
    ∙ add_template_rule-overrides rs t _ _ _ t.crit_value

pub add_templates-Entries :
    (rs : RuleSet) (ts : List ThresholdTemplate)
    → Entries (OfHost "") rs.templates
    → Entries (OfHost "") (add_templates rs ts).templates
unfolding add_templates
add_templates-Entries rs [] h = h
add_templates-Entries rs (t ∷ ts) h =
    add_templates-Entries (add_template rs t) ts (add_template-Entries rs t h)

pub add_templates-overrides :
    (rs : RuleSet) (ts : List ThresholdTemplate) → (add_templates rs ts).overrides ≡ rs.overrides
unfolding add_templates
add_templates-overrides rs [] = refl
add_templates-overrides rs (t ∷ ts) =
    add_templates-overrides (add_template rs t) ts ∙ add_template-overrides rs t

-- The rules of each host are its own.
abbrev pub Hosts : RuleSet → Type 0
Hosts rs = Entries (λ host (m : HostRules). Entries (OfHost host) m) rs.overrides

pub lookup-Hosts :
    (host : String) (m : Map HostRules)
    → Entries (λ h (w : HostRules). Entries (OfHost h) w) m
    → Entries (OfHost host) (or_empty (lookup host m))
unfolding lookup
lookup-Hosts host [] h = tt
lookup-Hosts host ((j, w) ∷ m) h = elim (Bool-cases (str_eq j host)) [
  | inl same ↦ rw same (subst (λ k. Entries (OfHost k) w) ((eq_iff j host).0 same) h.0)
  | inr other ↦ rw other (lookup-Hosts host m h.1)
]

add_override_rule-Hosts :
    (rs : RuleSet) (o : ThresholdOverride) (d : ℤ) (id level parent : String) (v : Option Float64)
    → Hosts rs
    → Hosts (add_override_rule rs o d id level parent v).0
unfolding add_override_rule override_rule
add_override_rule-Hosts rs o d id level parent none h = h
add_override_rule-Hosts rs o d id level parent (some v) h =
    insert-Entries (λ host (m : HostRules). Entries (OfHost host) m) o.hostname _ rs.overrides
      (append_rule-Entries o.hostname o.metric (override_rule o d id level parent v) _ refl refl
        (lookup-Hosts o.hostname rs.overrides h))
      h

make_host-Hosts : (rs : RuleSet) (host : String) → Hosts rs → Hosts (make_host rs host)
unfolding make_host
make_host-Hosts rs host h =
    insert-Entries (λ k (m : HostRules). Entries (OfHost k) m) host _ rs.overrides
      (lookup-Hosts host rs.overrides h) h

add_override-Hosts :
    (tpls : List ThresholdTemplate) (rs : RuleSet) (o : ThresholdOverride)
    → Hosts rs
    → Hosts (add_override tpls rs o)
unfolding add_override
add_override-Hosts tpls rs o h = add_override_rule-Hosts _ o _ _ _ _ o.warn_value (
    add_override_rule-Hosts (make_host rs o.hostname) o _ _ _ _ o.crit_value
      (make_host-Hosts rs o.hostname h))

pub add_overrides-Hosts :
    (tpls : List ThresholdTemplate) (rs : RuleSet) (os : List ThresholdOverride)
    → Hosts rs
    → Hosts (add_overrides tpls rs os)
unfolding add_overrides
add_overrides-Hosts tpls rs [] h = h
add_overrides-Hosts tpls rs (o ∷ os) h =
    add_overrides-Hosts tpls (add_override tpls rs o) os (add_override-Hosts tpls rs o h)
