-- ===== src/Stream/Collect.antt =====
-- One round of collection, `collectOnce`, `trySend` and `drain` under the session's mutex.
use metalwatch.Base.{ℕ, ◌-◌, Bool, false, Option, none, some, List, [], ◌∷◌, ◌++◌, if◌then◌else◌}
use metalwatch.Spool.Store.{Bolt, Codec}
use metalwatch.Spool.{Spool, enqueue, purge, trim}
use metalwatch.Stream.{next, Replayed, drain, spool_retention_ms}

module _ (db : Bolt) (codec : Codec) where
  -- `connected` is whether the session has published a stream.
  pub record Session : Type 0 where
    pub spool : Option (Spool db codec)
    pub connected : Bool
    pub sent : List codec.Report
    pub outcomes : List Bool

  after_drain : Session → Replayed db codec → Session
  after_drain t d = record t { spool = some d.spool; sent = d.sent; outcomes = d.outcomes }

  abbrev drain_spool : Session → Option (Spool db codec) → Session
  drain_spool t none = t
  drain_spool t (some s) = after_drain t (drain db codec s t.sent t.outcomes)

  -- `drain`, of which `collectOnce` only logs the error.
  unfoldable pub drain_session : Session → Session
  unfolding after_drain
  drain_session t = if t.connected then drain_spool t t.spool else t

  unfoldable pub try_send : Session → codec.Report → Session × Bool
  try_send t msg =
      let (delivered, os) = next t.outcomes in
      if t.connected
      then (
        record t { sent = if delivered then t.sent ++ msg ∷ [] else t.sent; outcomes = os },
        delivered,
      )
      else (t, false)

  -- What is done with a report that could not be sent: it is queued, then what is expired and what is
  -- above the capacity is dropped. A failed clean-up is only logged.
  unfoldable pub keep_offline : Session → Spool db codec → codec.Report → ℕ → Session
  keep_offline t s msg now =
      let (c1, os1) = next t.outcomes in
      let (c2, os2) = next os1 in
      let (c3, os3) = next os2 in
      let (s1, queued) = enqueue db codec s (some msg) now c1 in
      let s2 = (purge db codec s1 (now - spool_retention_ms) c2).0 in
      let s3 = (trim db codec s2 c3).0 in
      if queued
      then record t { spool = some s3; outcomes = os3 }
      else record t { spool = some s1; outcomes = os1 }

  abbrev keep_unsent : Session → Option (Spool db codec) → codec.Report → ℕ → Session
  keep_unsent t none msg now = t
  keep_unsent t (some s) msg now = keep_offline t s msg now

  unfoldable pub collect_once : Session → codec.Report → ℕ → Session
  collect_once t msg now =
      let (t', delivered) = try_send (drain_session t) msg in
      if delivered then t' else keep_unsent t' t'.spool msg now
