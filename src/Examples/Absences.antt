-- ===== src/Examples/Absences.antt =====
-- A host that has not been seen for ten minutes, twice in a row, the second time with its status unset.
use metalwatch.Base.{◌*◌, ◌≡◌, refl, String, true, false, some, none, [], ◌∷◌, arith}
use metalwatch.Base.Int.{pos}
use metalwatch.Base.Clock.{Time, minute}
use metalwatch.Alerts.{Attempt}
use metalwatch.Alerts.Open.{Sound, firing_count}
use metalwatch.Alerts.Offline.{Host, Sweep, Look, judge_hosts}
use metalwatch.Alerts.Repeat.{judged_again_sends_nothing}

abbrev away : Host
away = record { id = pos 4; hostname = "srv4"; status = "online"; last_seen_at = some minute }

abbrev works : Attempt
works = record { first_ok = true; second_ok = true; third_ok = true }

abbrev look : Look
look = record {
  hosts = some (away ∷ []);
  firing_rows = none;
  get_by_id = λ id. none;
  status_ok = λ id. false;
  raise_attempt = λ id. works;
  resolve_attempt = λ id. works;
  has_pipe = true;
}

abbrev nothing_yet : Sweep
nothing_yet = record {
  raised = [];
  table = record { rows = []; next_id = 1 };
  went_offline = [];
  down_samples = [];
  notices = [];
}

empty_Sound : Sound []
unfolding firing_count
empty_Sound = record { keyed = tt; once = λ key. omega arith }

abbrev plain_text : Time → String
plain_text t = "0001-01-01T00:11:00Z"

judged_again_sends_nothing_example :
    let s' = judge_hosts plain_text look (11 * minute) (pos (2 * minute)) (away ∷ []) nothing_yet in
    (judge_hosts plain_text look (11 * minute) (pos (2 * minute)) (away ∷ []) s').notices
    ≡ s'.notices
judged_again_sends_nothing_example =
    judged_again_sends_nothing plain_text (11 * minute) (pos (2 * minute)) look look (away ∷ [])
      nothing_yet (λ id. (refl, refl)) (λ id. (refl, refl)) empty_Sound
