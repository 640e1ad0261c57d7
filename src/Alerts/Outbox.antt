-- ===== src/Alerts/Outbox.antt =====
-- StartDispatch and dispatch of backend/internal/service/alerting.go, with the workers' loop as steps:
-- a receive from the channel, and the return of a call of dispatchSync.
use metalwatch.Base.{ℕ, zero, suc, Option, none, some, List, [], ◌∷◌, ◌++◌, length, if◌then◌else◌}
use metalwatch.Base.Int.{ℤ, pos, ltb_ℤ}
use metalwatch.Alerts.Service.{Notice}

-- The channel of dispatchWorker, oldest notice first.
pub record DispatchWorker : Type 0 where
  pub workers : ℤ
  pub capacity : ℤ
  pub queue : List Notice

-- `taken` are the notices that the workers have received from the channel, in that order; `busy` are
-- those whose dispatchSync a worker is still in, `delivered` those whose dispatchSync has returned, in
-- the order of the returns; `dropped` are the notices that are only logged.
pub record Outbox : Type 0 where
  pub worker : Option DispatchWorker
  pub taken : List Notice
  pub busy : List Notice
  pub delivered : List Notice
  pub dropped : List Notice

unfoldable pub start_dispatch : ℤ → ℤ → DispatchWorker
start_dispatch workers queue = record {
  workers = if ltb_ℤ workers (pos 1) then pos 1 else workers;
  capacity = if ltb_ℤ queue (pos 1) then pos 128 else queue;
  queue = [];
}

abbrev pub offer : Notice → DispatchWorker → Outbox → Outbox
offer n w o =
    if ltb_ℤ (pos (length w.queue)) w.capacity
    then record o { worker = some (record w { queue = w.queue ++ (n ∷ []) }) }
    else record o { dropped = o.dropped ++ (n ∷ []) }

unfoldable pub dispatch : Notice → Outbox → Outbox
dispatch n o = elim o.worker [
  | none ↦ record o { delivered = o.delivered ++ (n ∷ []) }
  | some w ↦ offer n w o
]

-- `it := <-w.ch` of a worker that is in no call of dispatchSync, where there is one.
abbrev pub take_next : List Notice → DispatchWorker → Outbox → Outbox
take_next [] w o = o
take_next (n ∷ rest) w o =
    if ltb_ℤ (pos (length o.busy)) w.workers
    then record o {
      worker = some (record w { queue = rest });
      taken = o.taken ++ (n ∷ []);
      busy = o.busy ++ (n ∷ []);
    }
    else o

unfoldable pub take_notice : Outbox → Outbox
take_notice o = elim o.worker [ none ↦ o | some w ↦ take_next w.queue w o ]

-- One of the busy notices, and the others.
abbrev pub behind : Notice → Option (Notice × List Notice) → Option (Notice × List Notice)
behind n none = none
behind n (some (m, rest)) = some (m, n ∷ rest)

unfoldable pub pick : ℕ → List Notice → Option (Notice × List Notice)
pick k [] = none
pick zero (n ∷ ns) = some (n, ns)
pick (suc k) (n ∷ ns) = behind n (pick k ns)

-- The dispatchSync of any one of the workers returns.
abbrev pub finish_with : Option (Notice × List Notice) → Outbox → Outbox
finish_with none o = o
finish_with (some (n, rest)) o = record o { busy = rest; delivered = o.delivered ++ (n ∷ []) }

unfoldable pub finish_call : ℕ → Outbox → Outbox
unfolding pick
finish_call k o = finish_with (pick k o.busy) o

-- Calls of dispatch, with the receives of the workers and the returns of their calls in between.
pub data Turn : Type 0 where
  dispatches : Notice → Turn
  takes : Turn
  returns : ℕ → Turn

unfoldable pub run_turns : List Turn → Outbox → Outbox
unfolding dispatch take_notice finish_call
run_turns [] o = o
run_turns (dispatches n ∷ ts) o = run_turns ts (dispatch n o)
run_turns (takes ∷ ts) o = run_turns ts (take_notice o)
run_turns (returns k ∷ ts) o = run_turns ts (finish_call k o)
