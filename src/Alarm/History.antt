-- ===== src/Alarm/History.antt =====
-- The life of one alarm over any history of evaluations of its rule, newest first.
use metalwatch.Base.{
  ℕ, suc, ◌+◌, ◌≤◌, ◌<◌, ◌≡◌, ◌⊎◌, Bool, true, false, List, [], ◌∷◌, arith, if◌then◌else◌,
}
use metalwatch.Base.Int.{pos, max_int64}
use metalwatch.Base.Clock.{Time, is_zero}
use metalwatch.Alarm.Rule.{AlarmRule, Sample, matches}
use metalwatch.Alarm.Engine.{AlarmState, AlarmEngine, judge, breach_began, too_early}
use metalwatch.Alarm.Step.{too_early-hold}

-- An evaluation: the sample, the clock, and whether the parent was firing.
pub record Observation : Type 0 where
  pub sample : Sample
  pub now : Time
  pub parent : Bool

abbrev pub breaches : AlarmRule → Observation → Bool
breaches r o = matches r.comparator o.sample.value r.threshold

abbrev pub observe : AlarmEngine → AlarmRule → AlarmState → Observation → AlarmState
observe e r st o = (judge e r o.sample o.now o.parent st).0

unfoldable pub state_after : AlarmEngine → AlarmRule → AlarmState → List Observation → AlarmState
state_after e r st [] = st
state_after e r st (o ∷ older) = observe e r (state_after e r st older) o

-- Every sample breaches, from the newest back to one that was evaluated at `b`.
abbrev pub BreachesSince : AlarmRule → Time → List Observation → Type 0
BreachesSince r b [] = ⊥
BreachesSince r b (o ∷ older) = (breaches r o ≡ true) × ((o.now ≡ b) ⊎ BreachesSince r b older)

-- A quiet alarm that has begun to breach has breached ever since.
abbrev Tracks : AlarmRule → AlarmState → List Observation → Type 0
Tracks r st os =
    st.firing ≡ false → is_zero st.breach_start ≡ false → BreachesSince r st.breach_start os

observe-Tracks :
    (e : AlarmEngine) (r : AlarmRule) (st : AlarmState) (o : Observation) (older : List Observation)
    → Tracks r st older
    → Tracks r (observe e r st o) (o ∷ older)
unfolding judge breach_began
observe-Tracks e r st o older h = ground arith

state_after-Tracks :
    (e : AlarmEngine) (r : AlarmRule) (st : AlarmState) (os : List Observation)
    → is_zero st.breach_start ≡ true
    → Tracks r (state_after e r st os) os
unfolding state_after
state_after-Tracks e r st [] z = λ f b. ground arith
state_after-Tracks e r st (o ∷ older) z =
    observe-Tracks e r (state_after e r st older) o older (state_after-Tracks e r st older z)

observe_fires :
    (e : AlarmEngine) (r : AlarmRule) (st : AlarmState) (o : Observation)
    → st.firing ≡ false
    → (observe e r st o).firing ≡ true
    → (breaches r o ≡ true) × (too_early r.for_duration (breach_began st o.now) o.now ≡ false)
unfolding judge
observe_fires e r st o q f = ground arith

observe-BreachesSince :
    (e : AlarmEngine) (r : AlarmRule) (st : AlarmState) (o : Observation) (older : List Observation)
    (hold : ℕ)
    → Tracks r st older
    → r.for_duration ≡ pos hold
    → 0 < hold
    → hold ≤ max_int64
    → st.firing ≡ false
    → (observe e r st o).firing ≡ true
    → BreachesSince r (breach_began st o.now) (o ∷ older) × (breach_began st o.now + hold ≤ o.now)
unfolding breach_began
observe-BreachesSince e r st o older hold t ed pd hd q f =
    let began = breach_began st o.now in
    ground (arith, observe_fires e r st o q f, too_early-hold r.for_duration hold began o.now ed hd)

-- From a state in which no breach has begun, for a rule with a hold time of 1 ns to 2^63 - 1 ns:
-- when an evaluation turns the alarm from quiet to firing, every sample back to one that was
-- evaluated at least the hold time before breached the threshold.
pub firing_was_held :
    (e : AlarmEngine) (r : AlarmRule) (st : AlarmState) (o : Observation) (older : List Observation)
    (hold : ℕ)
    → is_zero st.breach_start ≡ true
    → r.for_duration ≡ pos hold
    → 0 < hold
    → hold ≤ max_int64
    → (state_after e r st older).firing ≡ false
    → (state_after e r st (o ∷ older)).firing ≡ true
    → (b : Time) × (BreachesSince r b (o ∷ older) × (b + hold ≤ o.now))
unfolding state_after
firing_was_held e r st o older hold z ed pd hd quiet fires = (
  breach_began (state_after e r st older) o.now,
  observe-BreachesSince e r (state_after e r st older) o older hold
      (state_after-Tracks e r st older z) ed pd hd quiet fires,
)

-- How many of the samples do not breach.
abbrev pub calm_count : AlarmRule → List Observation → ℕ
calm_count r [] = 0
calm_count r (o ∷ older) = if breaches r o then calm_count r older else suc (calm_count r older)

observe-count :
    (e : AlarmEngine) (r : AlarmRule) (st : AlarmState) (o : Observation) (n : ℕ)
    → e.recover_n ≡ pos n
    → st.firing ≡ true
    → st.consecutive_below + (if breaches r o then 0 else 1) < n
    → ((observe e r st o).firing ≡ true)
      × ((observe e r st o).consecutive_below
          ≡ (if breaches r o then st.consecutive_below else suc st.consecutive_below))
unfolding judge
observe-count e r st o n en f h = ground arith

-- While the calm samples are too few, a firing alarm goes on firing and counts them all: a sample
-- that breaches in between does not set the count back.
firing_counts :
    (e : AlarmEngine) (r : AlarmRule) (st : AlarmState) (os : List Observation) (n : ℕ)
    → e.recover_n ≡ pos n
    → st.firing ≡ true
    → st.consecutive_below + calm_count r os < n
    → ((state_after e r st os).firing ≡ true)
      × ((state_after e r st os).consecutive_below ≡ st.consecutive_below + calm_count r os)
unfolding state_after
firing_counts e r st [] n en f h = (f, omega arith)
firing_counts e r st (o ∷ older) n en f h =
    ground (
      arith,
      firing_counts e r st older n en f,
      observe-count e r (state_after e r st older) o n en,
    )

-- A firing alarm recovers with the sample that is the n-th not to breach, n being the recovery
-- threshold, and is still firing before it, however many samples breach in between.
pub recovery_counts_all :
    (e : AlarmEngine) (r : AlarmRule) (st : AlarmState) (o : Observation) (older : List Observation)
    (n : ℕ)
    → e.recover_n ≡ pos n
    → st.firing ≡ true
    → st.consecutive_below + calm_count r older + 1 ≡ n
    → breaches r o ≡ false
    → ((state_after e r st older).firing ≡ true) × ((state_after e r st (o ∷ older)).firing ≡ false)
unfolding state_after judge
recovery_counts_all e r st o older n en f h q = ground (arith, firing_counts e r st older n en f)
