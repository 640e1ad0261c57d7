-- ===== src/Alerts/Repeat.antt =====
-- A host that stays away is notified once.
use mathlib.Core.List.{append-nil}
use metalwatch.Base.{
  ◌≡◌, refl, ap, ◌∙◌, String, Bool, true, not, some, List, [], ◌∷◌, ◌++◌, All, All-map, ltb,
  eq_refl, Bool-cases, inl, inr, arith,
}
use metalwatch.Base.Int.{ℤ}
use metalwatch.Base.Clock.{Time, Duration}
use metalwatch.Alerts.{Table, Attempt}
use metalwatch.Alerts.Service.{Notice}
use metalwatch.Alerts.Open.{firing_count, Sound}
use metalwatch.Alerts.Statements.{upsert_firing-Opened, upsert_firing-Sound}
use metalwatch.Alerts.Notified.{Succeeds}
use metalwatch.Alerts.Offline.{
  Host, agent_offline_key, offline_event, offline_notices, raise_agent_offline, is_stale, Sweep,
  Look, take_down, judge_hosts,
}

-- A row fires under the key.
abbrev pub IsOpen : String → Table → Type 0
IsOpen key t = ltb 0 (firing_count key t.rows) ≡ true

module _ (rfc3339 : Time → String) where
  record Raised (h : Host) (t t' : Table) (out : List Notice) : Type 0 where
    sound : Sound t'.rows
    still : (k : String) → IsOpen k t → IsOpen k t'
    opened : IsOpen (agent_offline_key h.id) t'
    quiet : IsOpen (agent_offline_key h.id) t → out ≡ []

  raise-Raised :
      (a : Attempt) (h : Host) (at : Time) (t : Table)
      → Succeeds a
      → Sound t.rows
      → let (t', out) = raise_agent_offline rfc3339 a h at t in Raised h t t' out
  unfolding raise_agent_offline
  raise-Raised a h at t ok s =
      let e = offline_event rfc3339 h at in
      let key = agent_offline_key h.id in
      let ((id, made), opened) = upsert_firing-Opened a e key at t s ok.0 ok.1 in
      record {
        sound = upsert_firing-Sound a e key at t s;
        still = λ k was. ground (arith, opened k, was);
        opened = ground (arith, opened key, eq_refl key);
        quiet = λ was.
            ap (offline_notices rfc3339 e at) (made ∙ ap (λ (b : Bool). some (not b, id)) was);
      }

  module _ (now : Time) (stale_after : Duration) where
    -- The alarms of the hosts that are away are open.
    abbrev Known : Table → List Host → Type 0
    Known t =
        All (λ (h : Host). is_stale stale_after now h ≡ true → IsOpen (agent_offline_key h.id) t)

    record Judged (s s' : Sweep) (hs : List Host) : Type 0 where
      sound : Sound s'.table.rows
      still : (k : String) → IsOpen k s.table → IsOpen k s'.table
      known : Known s'.table hs

    judge_hosts-Judged :
        (look : Look) (hs : List Host) (s : Sweep)
        → ((id : ℤ) → Succeeds (look.raise_attempt id))
        → Sound s.table.rows
        → Judged s (judge_hosts rfc3339 look now stale_after hs s) hs
    unfolding judge_hosts take_down
    judge_hosts-Judged look [] s ok sound = record {
      sound = sound;
      still = λ k was. was;
      known = tt;
    }
    judge_hosts-Judged look (h ∷ hs) s ok sound = elim (Bool-cases (is_stale stale_after now h)) [
      | inl e ↦
          let r = raise-Raised (look.raise_attempt h.id) h now s.table (ok h.id) sound in
          let j = judge_hosts-Judged look hs (take_down rfc3339 look now h s) ok r.sound in
          rw e (record {
            sound = j.sound;
            still = λ k was. j.still k (r.still k was);
            known = ((λ _. j.still (agent_offline_key h.id) r.opened), j.known);
          })
      | inr e ↦
          let j = judge_hosts-Judged look hs s ok sound in
          rw e (record {
            sound = j.sound;
            still = j.still;
            known = ((λ away. ground (arith, e, away)), j.known);
          })
    ]

    judge_hosts-quiet :
        (look : Look) (hs : List Host) (s : Sweep)
        → ((id : ℤ) → Succeeds (look.raise_attempt id))
        → Sound s.table.rows
        → Known s.table hs
        → (judge_hosts rfc3339 look now stale_after hs s).notices ≡ s.notices
    unfolding judge_hosts take_down
    judge_hosts-quiet look [] s ok sound known = refl
    judge_hosts-quiet look (h ∷ hs) s ok sound known =
        elim (Bool-cases (is_stale stale_after now h)) [
          | inl e ↦
              let r = raise-Raised (look.raise_attempt h.id) h now s.table (ok h.id) sound in
              let s' = take_down rfc3339 look now h s in
              let known' : Known s'.table hs =
                All-map hs
                  (λ g
                      (k : is_stale stale_after now g ≡ true
                        → IsOpen (agent_offline_key g.id) s.table)
                      away.
                    r.still (agent_offline_key g.id) (k away))
                  known.1 in
              rw (e, judge_hosts)
                (judge_hosts-quiet look hs s' ok r.sound known'
                  ∙ ap (◌++◌ s.notices) (r.quiet (known.0 e))
                  ∙ append-nil s.notices)
          | inr e ↦ rw (e, judge_hosts) (judge_hosts-quiet look hs s ok sound known.1)
        ]

    -- Where the statements succeed and the table is sound, judging the same hosts at the same time
    -- once more, as when their status could not be written, sends no further notice.
    pub judged_again_sends_nothing :
        (look later : Look) (hs : List Host) (s : Sweep)
        → ((id : ℤ) → Succeeds (look.raise_attempt id))
        → ((id : ℤ) → Succeeds (later.raise_attempt id))
        → Sound s.table.rows
        → let s' = judge_hosts rfc3339 look now stale_after hs s in
          (judge_hosts rfc3339 later now stale_after hs s').notices ≡ s'.notices
    judged_again_sends_nothing look later hs s ok ok' sound =
        let j = judge_hosts-Judged look hs s ok sound in
        judge_hosts-quiet later hs (judge_hosts rfc3339 look now stale_after hs s) ok' j.sound
          j.known
