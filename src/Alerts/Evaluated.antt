-- ===== src/Alerts/Evaluated.antt =====
-- Evaluate as a whole, over the alarm engine and the rules of a host.
use metalwatch.Base.{List-cases, ℕ, ◌≡◌, refl, ap, String, List, [], ◌∷◌, map, inl, inr}
use metalwatch.Base.Int.{ℤ}
use metalwatch.Base.Clock.{Time}
use metalwatch.Alarm.Rule.{Sample, AlarmEvent}
use metalwatch.Alarm.Engine.{AlarmEngine, process, process_samples, process_rules}
use metalwatch.Alarm.Sort.{sort_rules}
use metalwatch.Base.Sort.{sort_by, sort_loop}
use metalwatch.Rules.{RuleSet, rules_for}
use metalwatch.Alerts.{Table, Attempt}
use metalwatch.Alerts.Service.{Reported, values_of, to_sample, evaluate, Texts}
use metalwatch.Alerts.Open.{Sound}
use metalwatch.Alerts.Notified.{
  Alarms, promised, Shows, Succeeds, Agrees, record_events-Agrees, record_events-Sound,
}

process_samples-none :
    (eng : AlarmEngine) (samples : List Sample) (now : Time)
    → process_samples eng [] samples now ≡ (eng, [])
unfolding process_samples process_rules
process_samples-none eng [] now = refl
process_samples-none eng (s ∷ samples) now = rw (process_samples-none eng samples now) refl

process-none :
    (eng : AlarmEngine) (samples : List Sample) (now : Time) → (process eng samples [] now).1 ≡ []
unfolding process sort_rules sort_by sort_loop
process-none eng samples now =
    ap (λ (r : AlarmEngine × List AlarmEvent). r.1) (process_samples-none eng samples now)

module _ (texts : Texts) (host_id : ℤ) (hostname : String) (at : Time) where
  -- Where the statements succeed, and the table has exactly one firing row for each alarm that is
  -- open and none for the others, Evaluate does to the alarms, and sends in notices, what the
  -- events of the engine promise: a firing event opens its alarm, and is notified if it was
  -- closed; a recovery closes it, and is notified if it was open; other events, and those whose
  -- rule has no metadata, do neither. The table shows the alarms again.
  pub evaluate-Agrees :
      (attempts : ℕ → Attempt) (rs : RuleSet) (sms : List Reported) (eng : AlarmEngine) (t : Table)
      (is_open : Alarms)
      → ((k : ℕ) → Succeeds (attempts k))
      → Shows t is_open
      → let ((eng', t'), notices) = evaluate texts host_id hostname at attempts rs sms eng t in
        let evs = (process eng (map (to_sample hostname at) sms) (rules_for rs hostname) at).1 in
        Agrees (t', notices) (promised rs.metas evs is_open)
  unfolding evaluate promised
  evaluate-Agrees attempts rs sms eng t is_open ok s = elim (List-cases (rules_for rs hostname)) [
    | inl e ↦ rw (e, process-none eng (map (to_sample hostname at) sms) at) (s, refl)
    | inr (r, rules, e) ↦ rw e (
        record_events-Agrees texts host_id hostname at attempts 0 rs.metas (values_of [] sms)
          (process eng (map (to_sample hostname at) sms) (r ∷ rules) at).1 t is_open ok s)
  ]

  -- Whichever statements of it fail, Evaluate keeps the table sound: a row has a key exactly where
  -- it fires, and no two rows fire under one key.
  pub evaluate-Sound :
      (attempts : ℕ → Attempt) (rs : RuleSet) (sms : List Reported) (eng : AlarmEngine) (t : Table)
      → Sound t.rows
      → Sound (evaluate texts host_id hostname at attempts rs sms eng t).0.1.rows
  unfolding evaluate
  evaluate-Sound attempts rs sms eng t s = elim (List-cases (rules_for rs hostname)) [
    | inl e ↦ rw e s
    | inr (r, rules, e) ↦ rw e (
        record_events-Sound texts host_id hostname at attempts 0 rs.metas (values_of [] sms)
          (process eng (map (to_sample hostname at) sms) (r ∷ rules) at).1 t s)
  ]
