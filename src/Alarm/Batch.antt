-- ===== src/Alarm/Batch.antt =====
-- What a batch of samples, `Process`, may send out.
use mathlib.Core.List.{Mem, mem-cons_self, mem-cons_of_mem}
use mathlib.Core.List.Perm
use metalwatch.Base.{
  ◌≡◌, refl, ◌∙◌, subst, inl, inr, ◌⊎◌, eq_iff, Bool, true, false, List, [], ◌∷◌, arith, All,
  All-append, All-map, Bool-cases,
}
use metalwatch.Base.Clock.{Time}
use metalwatch.Alarm.Rule.{
  AlarmRule, MaintenanceWindow, Sample, AlarmEvent, EventState, firing, recovered, muted, matches,
}
use metalwatch.Alarm.Sort.{sort_rules, sort_rules-perm}
use metalwatch.Alarm.Engine.{
  AlarmState, AlarmEngine, judge, eval_rule, process_rules, process_samples, process,
  in_maintenance, covered, active_key_of, level_of, applies,
}

abbrev pub has_breach : EventState → Bool
has_breach recovered = false
has_breach _ = true

-- A maintenance window mutes what would be sent otherwise.
abbrev pub Routed : EventState → Bool → Type 0
Routed firing in_window = in_window ≡ false
Routed muted in_window = in_window ≡ true
Routed _ in_window = Unit {0}

-- What an event says of the rule and the sample that it comes from.
pub record Justified (maint : List MaintenanceWindow) (r : AlarmRule) (s : Sample) (now : Time)
    (ev : AlarmEvent) : Type 0 where
  pub enabled : r.enabled ≡ true
  pub same_metric : r.metric ≡ s.metric
  pub same_host : (r.host ≡ "") ⊎ (r.host ≡ s.host)
  pub of_rule : (ev.rule_id ≡ r.id) × (ev.level ≡ level_of r)
  pub of_sample : (ev.host ≡ s.host) × (ev.object ≡ s.object)
  pub of_key : (ev.active_key ≡ active_key_of r s) × (ev.at ≡ now)
  pub breached : matches r.comparator s.value r.threshold ≡ has_breach ev.state
  pub routed : Routed ev.state (covered maint now s.host)

applies_lem :
    (r : AlarmRule) (s : Sample)
    → applies r s ≡ true
    → (r.enabled ≡ true) × (r.metric ≡ s.metric) × ((r.host ≡ "") ⊎ (r.host ≡ s.host))
unfolding applies
applies_lem r s h = ground (arith, eq_iff r.metric s.metric, eq_iff r.host "", eq_iff r.host s.host)

judge-Justified :
    (e : AlarmEngine) (r : AlarmRule) (s : Sample) (now : Time) (parent : Bool) (st : AlarmState)
    → applies r s ≡ true
    → All (Justified e.maint r s now) (judge e r s now parent st).1
unfolding judge in_maintenance
judge-Justified e r s now parent st h = let (on, metric, host) = applies_lem r s h in ground arith

-- The rule of the batch and the sample that an event comes from.
abbrev pub Explained :
    List MaintenanceWindow → List AlarmRule → List Sample → Time → AlarmEvent → Type 0
Explained maint rules samples now ev =
    (r : AlarmRule) × (s : Sample) × Mem r rules × Mem s samples × Justified maint r s now ev

eval_rule-maint :
    (e : AlarmEngine) (r : AlarmRule) (s : Sample) (now : Time)
    → (eval_rule e r s now).0.maint ≡ e.maint
unfolding eval_rule
eval_rule-maint e r s now = refl

module _ (rules : List AlarmRule) (s : Sample) (now : Time) where
  abbrev ByRule : List MaintenanceWindow → AlarmEvent → Type 0
  ByRule maint ev = (r : AlarmRule) × Mem r rules × Justified maint r s now ev

eval_rule-Justified :
    (e : AlarmEngine) (r : AlarmRule) (s : Sample) (now : Time)
    → applies r s ≡ true
    → All (Justified e.maint r s now) (eval_rule e r s now).1
unfolding eval_rule
eval_rule-Justified e r s now h = judge-Justified e r s now _ _ h

later_rule :
    (r : AlarmRule) (rs : List AlarmRule) (s : Sample) (now : Time)
    (maint maint' : List MaintenanceWindow) (ev : AlarmEvent)
    → maint' ≡ maint
    → ByRule rs s now maint' ev
    → ByRule (r ∷ rs) s now maint ev
later_rule r rs s now maint maint' ev e (r', m, j) =
    (r', mem-cons_of_mem r m, subst (λ w. Justified w r' s now ev) e j)

process_rules-maint :
    (e : AlarmEngine) (rs : List AlarmRule) (s : Sample) (now : Time)
    → (process_rules e rs s now).0.maint ≡ e.maint
unfolding process_rules
process_rules-maint e [] s now = refl
process_rules-maint e (r ∷ rs) s now = elim (Bool-cases (applies r s)) [
  | inl taken ↦
      rw taken (process_rules-maint (eval_rule e r s now).0 rs s now ∙ eval_rule-maint e r s now)
  | inr skipped ↦ rw skipped (process_rules-maint e rs s now)
]

process_rules-ByRule :
    (e : AlarmEngine) (rs : List AlarmRule) (s : Sample) (now : Time)
    → All (ByRule rs s now e.maint) (process_rules e rs s now).1
unfolding process_rules
process_rules-ByRule e [] s now = tt
process_rules-ByRule e (r ∷ rs) s now = elim (Bool-cases (applies r s)) [
  | inl taken ↦ rw taken (
      All-append _ (eval_rule e r s now).1 _
        (All-map _ (λ ev j. (r, mem-cons_self, j)) (eval_rule-Justified e r s now taken))
        (All-map _ (λ ev b. later_rule r rs s now e.maint _ ev (eval_rule-maint e r s now) b)
          (process_rules-ByRule (eval_rule e r s now).0 rs s now)))
  | inr skipped ↦ rw skipped (
      All-map _ (λ ev b. later_rule r rs s now e.maint _ ev refl b)
        (process_rules-ByRule e rs s now))
]

later_sample :
    (rules : List AlarmRule) (s : Sample) (samples : List Sample) (now : Time)
    (maint maint' : List MaintenanceWindow) (ev : AlarmEvent)
    → maint' ≡ maint
    → Explained maint' rules samples now ev
    → Explained maint rules (s ∷ samples) now ev
later_sample rules s samples now maint maint' ev e (r, t, m, n, j) =
    (r, t, m, mem-cons_of_mem s n, subst (λ w. Justified w r t now ev) e j)

process_samples-Explained :
    (e : AlarmEngine) (rs : List AlarmRule) (samples : List Sample) (now : Time)
    → All (Explained e.maint rs samples now) (process_samples e rs samples now).1
unfolding process_samples
process_samples-Explained e rs [] now = tt
process_samples-Explained e rs (s ∷ samples) now =
    All-append _ (process_rules e rs s now).1 _
      (All-map _ (λ ev b. (b.0, s, b.1, mem-cons_self, b.2)) (process_rules-ByRule e rs s now))
      (All-map _
        (λ ev b. later_sample rs s samples now e.maint _ ev (process_rules-maint e rs s now) b)
        (process_samples-Explained (process_rules e rs s now).0 rs samples now))

-- Every event of a batch comes from an enabled rule of the batch that applies to one of its
-- samples, with their names, level and key; a recovery comes from a sample that does not breach
-- and any other event from one that does; an event is firing only outside the maintenance windows
-- and muted only inside one.
pub process-Explained :
    (e : AlarmEngine) (samples : List Sample) (rules : List AlarmRule) (now : Time)
    → All (Explained e.maint rules samples now) (process e samples rules now).1
unfolding process
process-Explained e samples rules now =
    All-map _ (λ ev (r, s, m, n, j). (r, s, Perm.subset (sort_rules-perm rules) r m, n, j))
      (process_samples-Explained e (sort_rules rules) samples now)
