-- ===== src/Alarm/Step.antt =====
-- What one evaluation of a rule does, and what one batch of samples does.
use metalwatch.Base.{
  ℕ, ◌+◌, ◌≤◌, ◌≡◌, String, Bool, true, false, ◌&&◌, not, some, List, [], ◌∷◌, arith, ltb, str_eq,
  if◌then◌else◌,
}
use metalwatch.Base.Int.{pos, max_int64}
use metalwatch.Base.Clock.{Time, Duration, ltb-since}
use metalwatch.Base.Float.{Float64, is_nan, flt, fle, feq}
use metalwatch.Base.Map.{lookup, insert, lookup-insert_twice}
use metalwatch.Alarm.Rule.{AlarmRule, Sample, AlarmEvent, Comparator, ne, firing, muted, matches}
use metalwatch.Alarm.Engine.{
  AlarmState, AlarmEngine, judge, eval_rule, active_key_of, breach_began, too_early, parent_fires,
  state_for,
}

-- A sample that is not a number breaches a rule only where the comparator is ne.
pub nan_breaches_ne_only :
    (c : Comparator) (v threshold : Float64)
    → is_nan v ≡ true
    → matches c v threshold ≡ true
    → c ≡ ne
unfolding matches flt fle feq
nan_breaches_ne_only c v threshold n h = ground arith

-- A firing event goes out to the notifiers; one that a maintenance window mutes is recorded only.
abbrev pub notifies : List AlarmEvent → Bool
notifies [] = false
notifies (ev ∷ evs) = elim ev.state [ firing ↦ true | _ ↦ notifies evs ]

-- An alarm that is raised: sent out, or recorded by a maintenance window.
abbrev pub raises : List AlarmEvent → Bool
raises [] = false
raises (ev ∷ evs) = elim ev.state [ firing ↦ true | muted ↦ true | _ ↦ raises evs ]

-- A hold time that int64 holds has passed where it is 0 or its end is reached.
pub too_early-hold :
    (d : Duration) (hold began now : ℕ)
    → d ≡ pos hold
    → hold ≤ max_int64
    → too_early d began now ≡ (ltb 0 hold && ltb now (began + hold))
unfolding too_early
too_early-hold d hold began now e h = rw e (ground (arith, ltb-since now began hold h))

abbrev pub may_raise : AlarmRule → AlarmState → Bool → ℕ → ℕ → Time → Bool
may_raise r st parent hold window now =
    if st.firing
    then not (ltb now (st.last_fired_at + window))
    else not (ltb 0 hold && ltb now (breach_began st now + hold)) && not parent

-- While the parent fires, an alarm that is not firing stays so, and nothing is sent out or
-- muted.
pub judge_parent_suppresses :
    (e : AlarmEngine) (r : AlarmRule) (s : Sample) (now : Time) (st : AlarmState)
    → st.firing ≡ false
    → let (st', events) = judge e r s now true st in (st'.firing ≡ false) × (raises events ≡ false)
unfolding judge
judge_parent_suppresses e r s now st h = ground arith

-- An evaluation puts the judged state under its own key, the parent being looked up in the states
-- with that key made, and leaves the state of every other key as it was.
pub eval_rule-lookup :
    (e : AlarmEngine) (r : AlarmRule) (s : Sample) (now : Time) (k : String)
    → lookup k (eval_rule e r s now).0.states ≡ (
        let key = active_key_of r s in
        let st = state_for r (lookup key e.states) in
        let parent = parent_fires (insert key st e.states) r s in
        if str_eq key k then some (judge e r s now parent st).0 else lookup k e.states)
unfolding eval_rule
eval_rule-lookup e r s now k = lookup-insert_twice (active_key_of r s) k _ _ e.states
