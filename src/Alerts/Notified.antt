-- ===== src/Alerts/Notified.antt =====
-- Evaluate against its promise: an alarm that opens is notified once, and its end once.
use metalwatch.Base.{
  ℕ, suc, ◌≡◌, refl, ap, ◌∙◌, String, Bool, true, false, not, Option, none, some, List, [], ◌∷◌,
  ◌++◌, map, ltb, str_eq, if◌then◌else◌, arith,
}
use metalwatch.Base.Int.{ℤ}
use metalwatch.Base.Clock.{Time}
use metalwatch.Base.Float.{Float64}
use metalwatch.Base.Map.{Map, lookup}
use metalwatch.Alarm.Rule.{AlarmEvent, EventState, firing, recovered, suppressed, muted}
use metalwatch.Rules.{RuleMeta}
use metalwatch.Alerts.{Row, Table, Attempt}
use metalwatch.Alerts.Service.{
  Texts, Notice, to_event, notices_of, recovery_notices, resolved_event, record_event, record_known,
  record_events,
}
use metalwatch.Alerts.Open.{firing_count, Sound}
use metalwatch.Alerts.Statements.{
  upsert_firing-Opened, upsert_firing-Sound, resolve-Closed, resolve-Sound, touch-firing_count,
  touch-Sound, insert_silenced-firing_count, insert_silenced-Sound,
}

-- The promise: which keys have an open alarm, and the kinds of the notices that go out.
abbrev pub Alarms : Type 0
Alarms = String → Bool

unfoldable pub promised_event : EventState → String → Alarms → Alarms × List String
promised_event firing key is_open = (
  (λ k. if str_eq key k then true else is_open k),
  if is_open key then [] else "alert.firing" ∷ [],
)
promised_event recovered key is_open = (
  (λ k. if str_eq key k then false else is_open k),
  if is_open key then "alert.resolved" ∷ [] else [],
)
promised_event suppressed key is_open = (is_open, [])
promised_event muted key is_open = (is_open, [])

abbrev promised_known : AlarmEvent → Option RuleMeta → Alarms → Alarms × List String
promised_known ev none is_open = (is_open, [])
promised_known ev (some meta) is_open = promised_event ev.state ev.active_key is_open

unfoldable pub promised : Map RuleMeta → List AlarmEvent → Alarms → Alarms × List String
promised metas [] is_open = (is_open, [])
promised metas (ev ∷ evs) is_open =
    let (is_open', out) = promised_known ev (lookup ev.rule_id metas) is_open in
    let (is_open'', more) = promised metas evs is_open' in (is_open'', out ++ more)

-- The table has one firing row for each open alarm, and no other.
pub record Shows (t : Table) (is_open : Alarms) : Type 0 where
  pub sound : Sound t.rows
  pub same : (key : String) → ltb 0 (firing_count key t.rows) ≡ is_open key

abbrev pub kinds : List Notice → List String
kinds = map (λ (n : Notice). n.kind)

abbrev pub Succeeds : Attempt → Type 0
Succeeds a = (a.first_ok ≡ true) × (a.second_ok ≡ true)

-- A step keeps its side of the promise.
abbrev pub Agrees : Table × List Notice → Alarms × List String → Type 0
Agrees (t, out) (is_open, promises) = Shows t is_open × (kinds out ≡ promises)

module _ (texts : Texts) (host_id : ℤ) (hostname : String) (at : Time) where
  kinds-notices_of :
      (e : Row) (id : ℕ) (b : Bool)
      → kinds (notices_of texts host_id hostname at e (some (not b, id)))
        ≡ (if b then [] else "alert.firing" ∷ [])
  kinds-notices_of e id true = refl
  kinds-notices_of e id false = refl

  kinds-recovery_notices :
      (e : Row) (b : Bool)
      → kinds (recovery_notices texts host_id hostname at e (some b))
        ≡ (if b then "alert.resolved" ∷ [] else [])
  kinds-recovery_notices e true = refl
  kinds-recovery_notices e false = refl

  record_event-Agrees :
      (a : Attempt) (ev : AlarmEvent) (st : EventState) (meta : RuleMeta) (val : Float64)
      (t : Table) (is_open : Alarms)
      → Succeeds a
      → Shows t is_open
      → Agrees
          (record_event texts host_id hostname at a ev st meta val t)
          (promised_event st ev.active_key is_open)
  unfolding record_event promised_event
  record_event-Agrees a ev firing meta val t is_open ok s =
      let e = to_event texts host_id hostname at ev meta val in
      let ((id, out), opened) = upsert_firing-Opened a e ev.active_key at t s.sound ok.0 ok.1 in
      (
        record {
          sound = upsert_firing-Sound a e ev.active_key at t s.sound;
          same = λ k. ground (arith, opened k, s.same k);
        },
        ap (λ (o : Option (Bool × ℕ)). kinds (notices_of texts host_id hostname at e o)) out
            ∙ kinds-notices_of e id (ltb 0 (firing_count ev.active_key t.rows))
            ∙ ap (λ (b : Bool). if b then [] else "alert.firing" ∷ []) (s.same ev.active_key),
      )
  record_event-Agrees a ev recovered meta val t is_open ok s =
      let (out, closed) = resolve-Closed a ev.active_key at t ok.0 in
      (
        record {
          sound = resolve-Sound a ev.active_key at t s.sound;
          same = λ k. ground (arith, closed k, s.same k);
        },
        ap
              (λ (o : Option Bool). kinds (
                recovery_notices texts host_id hostname at
                  (resolved_event texts host_id hostname at ev meta) o))
              out
            ∙ kinds-recovery_notices (resolved_event texts host_id hostname at ev meta)
                (ltb 0 (firing_count ev.active_key t.rows))
            ∙ ap (λ (b : Bool). if b then "alert.resolved" ∷ [] else []) (s.same ev.active_key),
      )
  record_event-Agrees a ev suppressed meta val t is_open ok s = (
    record {
      sound = touch-Sound a ev.active_key at (some val) t s.sound;
      same = λ k. rw (touch-firing_count a ev.active_key k at (some val) t) (s.same k);
    },
    refl,
  )
  record_event-Agrees a ev muted meta val t is_open ok s =
      let e = to_event texts host_id hostname at ev meta val in
      (
        record {
          sound = insert_silenced-Sound a e at t s.sound;
          same = λ k. rw (insert_silenced-firing_count a e k at t) (s.same k);
        },
        refl,
      )

  record_known-Agrees :
      (a : Attempt) (values : Map Float64) (ev : AlarmEvent) (meta : Option RuleMeta) (t : Table)
      (is_open : Alarms)
      → Succeeds a
      → Shows t is_open
      → Agrees
          (record_known texts host_id hostname at a values ev meta t)
          (promised_known ev meta is_open)
  record_known-Agrees a values ev none t is_open ok s = (s, refl)
  record_known-Agrees a values ev (some meta) t is_open ok s =
      record_event-Agrees a ev ev.state meta _ t is_open ok s

  map-append : (xs ys : List Notice) → kinds (xs ++ ys) ≡ kinds xs ++ kinds ys
  map-append [] ys = refl
  map-append (x ∷ xs) ys = ap (◌∷◌ x.kind) (map-append xs ys)

  pub record_events-Agrees :
      (attempts : ℕ → Attempt) (n : ℕ) (metas : Map RuleMeta) (values : Map Float64)
      (evs : List AlarmEvent) (t : Table) (is_open : Alarms)
      → ((k : ℕ) → Succeeds (attempts k))
      → Shows t is_open
      → Agrees
          (record_events texts host_id hostname at attempts n metas values evs t)
          (promised metas evs is_open)
  unfolding record_events promised
  record_events-Agrees attempts n metas values [] t is_open ok s = (s, refl)
  record_events-Agrees attempts n metas values (ev ∷ evs) t is_open ok s =
      let known = lookup ev.rule_id metas in
      let (t', out) = record_known texts host_id hostname at (attempts n) values ev known t in
      let (is_open', promises) = promised_known ev known is_open in
      let (s', same) = record_known-Agrees (attempts n) values ev known t is_open (ok n) s in
      let (s'', more) = record_events-Agrees attempts (suc n) metas values evs t' is_open' ok s' in
      (
        s'',
        map-append out
              (record_events texts host_id hostname at attempts (suc n) metas values evs t').1
            ∙ ap
                (λ (xs : List String).
                  xs
                  ++ kinds
                      (record_events texts host_id hostname at attempts (suc n) metas values evs
                        t').1)
                same
            ∙ ap (◌++◌ promises) more,
      )

  record_event-Sound :
      (a : Attempt) (ev : AlarmEvent) (st : EventState) (meta : RuleMeta) (val : Float64)
      (t : Table)
      → Sound t.rows
      → Sound (record_event texts host_id hostname at a ev st meta val t).0.rows
  unfolding record_event
  record_event-Sound a ev firing meta val t s =
      upsert_firing-Sound a (to_event texts host_id hostname at ev meta val) ev.active_key at t s
  record_event-Sound a ev recovered meta val t s = resolve-Sound a ev.active_key at t s
  record_event-Sound a ev suppressed meta val t s = touch-Sound a ev.active_key at (some val) t s
  record_event-Sound a ev muted meta val t s =
      insert_silenced-Sound a (to_event texts host_id hostname at ev meta val) at t s

  record_known-Sound :
      (a : Attempt) (values : Map Float64) (ev : AlarmEvent) (meta : Option RuleMeta) (t : Table)
      → Sound t.rows
      → Sound (record_known texts host_id hostname at a values ev meta t).0.rows
  record_known-Sound a values ev none t s = s
  record_known-Sound a values ev (some meta) t s = record_event-Sound a ev ev.state meta _ t s

  pub record_events-Sound :
      (attempts : ℕ → Attempt) (n : ℕ) (metas : Map RuleMeta) (values : Map Float64)
      (evs : List AlarmEvent) (t : Table)
      → Sound t.rows
      → Sound (record_events texts host_id hostname at attempts n metas values evs t).0.rows
  unfolding record_events
  record_events-Sound attempts n metas values [] t s = s
  record_events-Sound attempts n metas values (ev ∷ evs) t s =
      let known = lookup ev.rule_id metas in
      record_events-Sound attempts (suc n) metas values evs
        (record_known texts host_id hostname at (attempts n) values ev known t).0
        (record_known-Sound (attempts n) values ev known t s)
