-- ===== src/Stream.antt =====
-- The agent's gRPC session, agent/internal/grpcstream/session.go: the replay of the offline queue and
-- one round of collection. A send, a view or a transaction takes its outcome from a list, one from
-- each place of the code where the call may stand; false is an error, and so is the end of the list.
pub mod Backoff
pub mod Rounds
pub mod Replay
pub mod Collect
use metalwatch.Base.{
  ℕ, zero, suc, Bool, true, false, ◌&&◌, not, Option, none, some, List, [], ◌∷◌, ◌++◌,
  if◌then◌else◌,
}
use metalwatch.Base.Bytes.{Bytes}
use metalwatch.Spool.Store.{Bolt, Codec}
use metalwatch.Spool.{Spool, Queued, peek, ack, enqueue, purge, trim, len}

abbrev pub next : List Bool → Bool × List Bool
next [] = (false, [])
next (b ∷ bs) = (b, bs)

-- `unfinished` is no result of the program: the loop of `drain` goes on, or ran out of fuel.
pub data DrainResult : Type 0 where
  drained failed unfinished : DrainResult

abbrev pub replay_batch_size : ℕ
replay_batch_size = 100

abbrev pub spool_retention_ms : ℕ
spool_retention_ms = 86_400_000

module _ (db : Bolt) (codec : Codec) where
  -- `sent` is the log of the reports that the peer was sent, oldest first.
  pub record Replayed : Type 0 where
    pub spool : Spool db codec
    pub sent : List codec.Report
    pub outcomes : List Bool
    pub result : DrainResult

  pub record Batch : Type 0 where
    pub acked : List Bytes
    pub sent : List codec.Report
    pub outcomes : List Bool
    pub all_sent : Bool

  -- The inner loop of `drain`.
  unfoldable pub send_batch :
      List (Queued db codec) → List Bytes → List codec.Report → List Bool → Batch
  send_batch [] acked sent os = record {
    acked = acked;
    sent = sent;
    outcomes = os;
    all_sent = true;
  }
  send_batch (it ∷ items) acked sent os =
      let (delivered, os') = next os in
      let rest = send_batch items (acked ++ it.key ∷ []) (sent ++ it.report ∷ []) os' in
      if delivered
      then rest
      else record { acked = acked; sent = sent; outcomes = os'; all_sent = false }

  -- The sends and the confirmation of one round. Where a send fails the error of `Ack` is dropped.
  unfoldable pub replay_batch :
      Spool db codec → List (Queued db codec) → List codec.Report → List Bool → Replayed
  replay_batch s items sent os =
      let batch = send_batch items [] sent os in
      let (confirmed, os') = next batch.outcomes in
      let (s', acked) = ack db codec s batch.acked confirmed in
      record {
        spool = s';
        sent = batch.sent;
        outcomes = os';
        result = if batch.all_sent && acked then unfinished else failed;
      }

  abbrev replay_items :
      Spool db codec → List (Queued db codec) → List codec.Report → List Bool → Replayed
  replay_items s [] sent os = record { spool = s; sent = sent; outcomes = os; result = drained }
  replay_items s (it ∷ items) sent os = replay_batch s (it ∷ items) sent os

  -- One round of the loop of `drain`.
  unfoldable pub drain_round : Spool db codec → List codec.Report → List Bool → Replayed
  drain_round s sent os =
      let (viewed, os1) = next os in
      let (committed, os2) = next os1 in
      let (s1, items, peeked) = peek db codec s replay_batch_size viewed committed in
      if peeked
      then replay_items s1 items sent os2
      else record { spool = s1; sent = sent; outcomes = os2; result = failed }

  unfoldable pub drain_loop : ℕ → Spool db codec → List codec.Report → List Bool → Replayed
  drain_loop zero s sent os = record { spool = s; sent = sent; outcomes = os; result = unfinished }
  drain_loop (suc fuel) s sent os =
      let r = drain_round s sent os in
      let rest = drain_loop fuel r.spool r.sent r.outcomes in
      elim r.result [ unfinished ↦ rest | _ ↦ r ]

  -- A round takes a report off the queue or is the last one.
  unfoldable pub drain : Spool db codec → List codec.Report → List Bool → Replayed
  drain s sent os = drain_loop (suc (len db codec s)) s sent os
