-- ===== src/Stream/Replay.antt =====
-- Replaying the queue: reports are sent oldest first, and none leaves the queue unsent.
use mathlib.Core.List.{append_assoc}
use metalwatch.Base.{
  take-add, drop-add, ℕ, zero, suc, ◌+◌, ◌<◌, ◌≡◌, ◌≢◌, refl, sym, ap, ◌∙◌, Bool, List, ◌++◌,
  length, take, drop, length-drop, arith, inr,
}
use metalwatch.Spool.Store.{Bolt, Codec}
use metalwatch.Spool.{Spool, Queued}
use metalwatch.Spool.Replay.{backlog, length-backlog}
use metalwatch.Stream.{
  Replayed, DrainResult, drained, failed, unfinished, drain_round, drain_loop, drain,
}
use metalwatch.Stream.Rounds.{reports, reports-append, Prefix, Round, nothing, drain_round-Round}

module _ (db : Bolt) (codec : Codec) where
  -- A replay of one queue goes on from where a round left it.
  Prefix-trans :
      (q : List (Queued db codec)) (sent : List codec.Report) (r d : Replayed db codec)
      → (p : Round db codec q sent r) → r.result ≡ unfinished
      → Prefix db codec (backlog db codec r.spool) r.sent d
      → Prefix db codec q sent d
  Prefix-trans q sent r d p u n =
      let j = p.prefix.delivered in
      let even = p.even u in
      record {
        gone = j + n.gone;
        delivered = j + n.delivered;
        gone_le = omega (arith, n.gone_le);
        log =
            n.log
            ∙ ap (λ b. r.sent ++ reports db codec (take n.delivered b)) even
            ∙ ap (λ l. l ++ reports db codec (take n.delivered (drop j q))) p.prefix.log
            ∙ append_assoc sent (reports db codec (take j q))
                (reports db codec (take n.delivered (drop j q)))
            ∙ ap (◌++◌ sent) (
                sym (reports-append db codec (take j q) (take n.delivered (drop j q)))
                ∙ ap (reports db codec) (take-add j n.delivered q));
        left = n.left ∙ ap (drop n.gone) even ∙ drop-add j n.gone q;
        complete = n.complete;
      }

  continued :
      (q : List (Queued db codec)) (sent : List codec.Report) (r rest : Replayed db codec)
      (end : DrainResult)
      → r.result ≡ end
      → Round db codec q sent r
      → Prefix db codec (backlog db codec r.spool) r.sent rest
      → Prefix db codec q sent (elim end [ unfinished ↦ rest | _ ↦ r ])
  continued q sent r rest unfinished e p n = Prefix-trans q sent r rest p e n
  continued q sent r rest drained e p n = p.prefix
  continued q sent r rest failed e p n = p.prefix

  drain_loop-Prefix :
      (fuel : ℕ) (s : Spool db codec) (sent : List codec.Report) (os : List Bool)
      → Prefix db codec (backlog db codec s) sent (drain_loop db codec fuel s sent os)
  unfolding drain_loop
  drain_loop-Prefix zero s sent os =
      nothing db codec (drain_loop db codec 0 s sent os) (backlog db codec s) sent refl refl
        (inr (λ r. cc))
  drain_loop-Prefix (suc fuel) s sent os =
      let r = drain_round db codec s sent os in
      continued (backlog db codec s) sent r (drain_loop db codec fuel r.spool r.sent r.outcomes)
        r.result refl (drain_round-Round db codec s sent os)
        (drain_loop-Prefix fuel r.spool r.sent r.outcomes)

  ended :
      (r rest : Replayed db codec) (end : DrainResult)
      → r.result ≡ end
      → (r.result ≡ unfinished → rest.result ≢ unfinished)
      → (let d : Replayed db codec = elim end [ unfinished ↦ rest | _ ↦ r ] in
          d.result ≢ unfinished)
  ended r rest unfinished e h = h e
  ended r rest drained e h = λ u. cc
  ended r rest failed e h = λ u. cc

  -- A round that goes on leaves a shorter queue, so as many rounds as there are reports are enough.
  drain_loop-ends :
      (fuel : ℕ) (s : Spool db codec) (sent : List codec.Report) (os : List Bool)
      → length (backlog db codec s) < fuel
      → (drain_loop db codec fuel s sent os).result ≢ unfinished
  unfolding drain_loop
  drain_loop-ends zero s sent os h = absurd (omega arith)
  drain_loop-ends (suc fuel) s sent os h =
      let r = drain_round db codec s sent os in
      let p = drain_round-Round db codec s sent os in
      ended r (drain_loop db codec fuel r.spool r.sent r.outcomes) r.result refl (λ u.
        drain_loop-ends fuel r.spool r.sent r.outcomes (
          omega (
            arith,
            h,
            p.progress u,
            p.in_range,
            ap length (p.even u),
            length-drop p.prefix.delivered (backlog db codec s),
          )))

  -- A replay ends, whatever sends and transactions fail. The reports it sends are the oldest of
  -- the queue, in order; the reports that have left the queue are among them; and where the result
  -- is success the queue is empty.
  pub drain-at_least_once :
      (s : Spool db codec) (sent : List codec.Report) (os : List Bool)
      → Prefix db codec (backlog db codec s) sent (drain db codec s sent os)
        × ((drain db codec s sent os).result ≢ unfinished)
  unfolding drain
  drain-at_least_once s sent os = (
    drain_loop-Prefix _ s sent os,
    drain_loop-ends _ s sent os (omega (arith, length-backlog db codec s)),
  )
