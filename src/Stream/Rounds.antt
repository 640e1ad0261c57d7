-- ===== src/Stream/Rounds.antt =====
-- What one round of a replay does to the queue and to the log of what was sent.
use mathlib.Core.List.{append_assoc, append-nil}
use metalwatch.Base.{
  take-take, length-take-length, length-take-le, ◌⊎◌, ℕ, zero, suc, ◌≤◌, ◌<◌, ◌≡◌, ◌≢◌, refl, sym,
  ap, ◌∙◌, Bool, true, false, ◌&&◌, List, [], ◌∷◌, ◌++◌, length, take, drop, arith, if◌then◌else◌,
  inl, inr,
}
use metalwatch.Base.Bytes.{Bytes}
use metalwatch.Spool.Store.{Bolt, Codec}
use metalwatch.Spool.{Spool, Queued, peek, ack}
use metalwatch.Spool.Replay.{backlog, queued_keys, peek-backlog, delete_keys-acked}
use metalwatch.Stream.{
  next, Replayed, drained, failed, unfinished, send_batch, replay_batch, replay_items, drain_round,
  replay_batch_size,
}

module _ (db : Bolt) (codec : Codec) where
  abbrev pub reports : List (Queued db codec) → List codec.Report
  reports [] = []
  reports (q ∷ qs) = q.report ∷ reports qs

  -- The first j items of a batch were sent and are to be confirmed; all of them if no send failed.
  send_batch-prefix :
      (items : List (Queued db codec)) (acked : List Bytes) (sent : List codec.Report)
      (os : List Bool)
      → let b = send_batch db codec items acked sent os in
        (j : ℕ) × (j ≤ length items)
        × (b.acked ≡ acked ++ queued_keys db codec (take j items))
        × (b.sent ≡ sent ++ reports (take j items))
        × (b.all_sent ≡ true → j ≡ length items)
  unfolding send_batch
  send_batch-prefix [] acked sent os =
      (0, omega arith, sym (append-nil acked), sym (append-nil sent), λ _. refl)
  send_batch-prefix (it ∷ items) acked sent [] =
      (0, omega arith, sym (append-nil acked), sym (append-nil sent), λ e. cc)
  send_batch-prefix (it ∷ items) acked sent (false ∷ os) =
      (0, omega arith, sym (append-nil acked), sym (append-nil sent), λ e. cc)
  send_batch-prefix (it ∷ items) acked sent (true ∷ os) =
      let (j, le, ka, ks, all) =
        send_batch-prefix items (acked ++ it.key ∷ []) (sent ++ it.report ∷ []) os in
      (
        suc j,
        omega arith,
        ka ∙ append_assoc acked _ _,
        ks ∙ append_assoc sent _ _,
        λ e. ap suc (all e),
      )

  pub reports-append :
      (xs ys : List (Queued db codec)) → reports (xs ++ ys) ≡ reports xs ++ reports ys
  reports-append [] ys = refl
  reports-append (x ∷ xs) ys = ap (◌∷◌ x.report) (reports-append xs ys)

  -- What a replay has done to a queue: the j oldest reports were sent, in order, and the i oldest have
  -- left the queue, which are among those sent.
  pub record Prefix (q : List (Queued db codec)) (sent : List codec.Report) (d : Replayed db codec)
      : Type 0 where
    pub gone : ℕ
    pub delivered : ℕ
    pub gone_le : gone ≤ delivered
    pub log : d.sent ≡ sent ++ reports (take delivered q)
    pub left : backlog db codec d.spool ≡ drop gone q
    pub complete : (backlog db codec d.spool ≡ []) ⊎ (d.result ≢ drained)

  pub nothing :
      (d : Replayed db codec) (q : List (Queued db codec)) (sent : List codec.Report)
      → d.sent ≡ sent
      → backlog db codec d.spool ≡ q
      → (q ≡ []) ⊎ (d.result ≢ drained)
      → Prefix q sent d
  nothing d q sent es e c = record {
    gone = 0;
    delivered = 0;
    gone_le = omega arith;
    log = es ∙ sym (append-nil sent);
    left = e;
    complete = elim c [ inl none_left ↦ inl (e ∙ none_left) | inr undone ↦ inr undone ];
  }

  -- Confirming the j oldest reports takes them off the queue, or leaves it where that fails.
  ack-backlog :
      (s : Spool db codec) (q : List (Queued db codec)) (j : ℕ) (confirmed : Bool)
      → backlog db codec s ≡ q
      → let (t, done) = ack db codec s (queued_keys db codec (take j q)) confirmed in
        (i : ℕ) × (i ≤ j)
        × (backlog db codec t ≡ drop i q)
        × (done ≡ true → backlog db codec t ≡ drop j q)
  unfolding ack
  ack-backlog s q zero confirmed e = (0, omega arith, e, λ _. e)
  ack-backlog s [] (suc j) confirmed e = (0, omega arith, e, λ _. e)
  ack-backlog s (x ∷ q) (suc j) false e = (0, omega arith, e, λ h. cc)
  ack-backlog s (x ∷ q) (suc j) true e =
      let kept = delete_keys-acked db codec (suc j) s.bucket (x ∷ q) e in
      (suc j, omega arith, kept, λ _. kept)

  -- A round that lets the loop go on has taken as many reports off the queue as it sent.
  pub record Round (q : List (Queued db codec)) (sent : List codec.Report) (d : Replayed db codec)
      : Type 0 where
    pub prefix : Prefix q sent d
    pub even : d.result ≡ unfinished → backlog db codec d.spool ≡ drop prefix.delivered q
    pub progress : d.result ≡ unfinished → 0 < prefix.delivered
    pub in_range : prefix.delivered ≤ length q

  never_drained : (b : Bool) → (if b then unfinished else failed) ≢ drained
  never_drained b e = ground arith

  goes_on :
      (a b : Bool) → (if a && b then unfinished else failed) ≡ unfinished → (a ≡ true) × (b ≡ true)
  goes_on a b e = ground arith

  confirm-Round :
      (s : Spool db codec) (q : List (Queued db codec)) (sent log : List codec.Report) (all : Bool)
      (confirmed : Bool) (os : List Bool) (j : ℕ) (ks : List Bytes)
      → backlog db codec s ≡ q
      → queued_keys db codec (take j q) ≡ ks
      → log ≡ sent ++ reports (take j q)
      → j ≤ length q
      → (all ≡ true → 0 < j)
      → let (t, done) = ack db codec s ks confirmed in
        Round q sent (record {
          spool = t;
          sent = log;
          outcomes = os;
          result = if all && done then unfinished else failed;
        })
  confirm-Round s q sent log all confirmed os j ks e ek el le some_sent = rw (← ek) (
      let (i, low, left, done) = ack-backlog s q j confirmed e in
      record {
        prefix = record {
          gone = i;
          delivered = j;
          gone_le = low;
          log = el;
          left = left;
          complete = inr (λ r. never_drained _ r);
        };
        even = λ r. done (goes_on all _ r).1;
        progress = λ r. some_sent (goes_on all _ r).0;
        in_range = le;
      })

  replay_batch-Round :
      (s : Spool db codec) (q : List (Queued db codec)) (x : Queued db codec)
      (sent : List codec.Report) (os : List Bool)
      → backlog db codec s ≡ x ∷ q
      → Round (x ∷ q) sent (replay_batch db codec s (take replay_batch_size (x ∷ q)) sent os)
  unfolding replay_batch
  replay_batch-Round s q x sent os e =
      let items = take replay_batch_size (x ∷ q) in
      let batch = send_batch db codec items [] sent os in
      let (j, le, ka, ks, all) = send_batch-prefix items [] sent os in
      let same =
        take-take j replay_batch_size (x ∷ q)
          (omega (arith, le, length-take-le replay_batch_size (x ∷ q))) in
      confirm-Round s (x ∷ q) sent batch.sent batch.all_sent (next batch.outcomes).0
        (next batch.outcomes).1 j batch.acked e (sym (ka ∙ ap (queued_keys db codec) same))
        (ks ∙ ap (λ qs. sent ++ reports qs) same)
        (omega (arith, le, length-take-length replay_batch_size (x ∷ q)))
        (λ a. omega (arith, all a))

  idle-Round :
      (d : Replayed db codec) (q : List (Queued db codec))
      → backlog db codec d.spool ≡ q
      → (q ≡ []) ⊎ (d.result ≢ drained)
      → d.result ≢ unfinished
      → Round q d.sent d
  unfolding nothing
  idle-Round d q e c u = record {
    prefix = nothing d q d.sent refl e c;
    even = λ r. absurd (u r);
    progress = λ r. absurd (u r);
    in_range = omega arith;
  }

  replay_items-Round :
      (s : Spool db codec) (q : List (Queued db codec)) (sent : List codec.Report) (os : List Bool)
      → backlog db codec s ≡ q
      → Round q sent (replay_items db codec s (take replay_batch_size q) sent os)
  replay_items-Round s [] sent os e =
      idle-Round (replay_items db codec s [] sent os) [] e (inl refl) (λ r. cc)
  replay_items-Round s (x ∷ q) sent os e = replay_batch-Round s q x sent os e

  peeked-Round :
      (t : Spool db codec) (items : List (Queued db codec)) (peeked : Bool)
      (q : List (Queued db codec)) (sent : List codec.Report) (os : List Bool)
      → backlog db codec t ≡ q
      → items ≡ take replay_batch_size q
      → Round q sent (
          if peeked
          then replay_items db codec t items sent os
          else record { spool = t; sent = sent; outcomes = os; result = failed })
  peeked-Round t items true q sent os e i = rw i (replay_items-Round t q sent os e)
  peeked-Round t items false q sent os e i =
      idle-Round (record { spool = t; sent = sent; outcomes = os; result = failed }) q e
        (inr (λ r. cc)) (λ r. cc)

  pub drain_round-Round :
      (s : Spool db codec) (sent : List codec.Report) (os : List Bool)
      → Round (backlog db codec s) sent (drain_round db codec s sent os)
  unfolding drain_round peek
  drain_round-Round s sent [] =
      idle-Round (drain_round db codec s sent []) (backlog db codec s) refl (inr (λ r. cc))
        (λ r. cc)
  drain_round-Round s sent (false ∷ os) =
      idle-Round (drain_round db codec s sent (false ∷ os)) (backlog db codec s) refl
        (inr (λ r. cc)) (λ r. cc)
  drain_round-Round s sent (true ∷ os) =
      let (same, out, _) = peek-backlog db codec s replay_batch_size true (next os).0 in
      peeked-Round _ _ _ (backlog db codec s) sent _ same out
