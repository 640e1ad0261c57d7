-- ===== src/Lib.antt =====
-- A model of MetalWatch, a monitor for bare-metal servers: agents collect readings on each host and send
-- them to a server, which stores them, raises alarms, polls BMCs and sets fan speeds.
--
-- Parts and files (a Go name is followed by the name that it has here):
--   Alarm: backend/internal/engine/alarm_engine.go. Rule has the data (AlarmRule, Sample,
--     MaintenanceWindow, AlarmEvent), Comparator.Match (matches) and Covers (covers); Sort has sortRules;
--     Engine has AlarmEngine, its setters, evalRule (eval_rule, of which judge is what it does to the
--     state of its key) and Process (process). Step, Batch and History hold the theorems on one
--     evaluation, on a batch and on a history of evaluations.
--   Rules: the rule set of backend/internal/service/alerting.go over the rows of
--     backend/internal/adapter/threshold.go. buildRuleSet, rulesFor and comparatorOf; Owners,
--     Coverage and Complete hold the theorems.
--   Task: backend/internal/task/pool.go. NewPool, checkBackoff, recordResult, Do (do_task) and Stats.
--     Goroutines has Do as atomic steps of goroutines over the semaphore, lockFor and the mutexes,
--     Concurrency the theorem on it.
--   Fan: backend/internal/engine/control_engine.go. NewFanController, targetSpeed, absInt and Step.
--   Spool: agent/internal/spool/spool.go. Open, Enqueue, Trim, Peek, Ack, Purge, Len and makeKey, over a
--     bucket of bbolt and a protobuf codec, which are the parameters Bolt and Codec of Spool.Store.
--   Stream: agent/internal/grpcstream/session.go and backoff.go. drain, trySend, collectOnce over the
--     spool, and the wait before a reconnect. Rounds has what one round of drain does.
--   Auth: backend/internal/authz/subject.go, with the tests of Middleware in backend/api/web/auth.go and
--     login of backend/api/web/handler/auth.go. IsUser, HasScope, CanWrite, IsAdmin, IsReadOnly, LoginGuard
--     with Allow, Fail and Success; attempt is one login through both;
--     Action has ActionFor.
--   Tsdb: backend/internal/adapter/tsdb/encode.go. encodeChunk, decodeChunk, appendXOR (xor_bytes) and
--     readXOR; Varint, Xor and Size have what the parts of a chunk read back as and how long they are.
--   Pipeline: backend/internal/pipeline/pipeline.go. New, Ingest, run and Stop, as moves on the channel,
--     the batch and the writes so far. Order has the invariant, Stop what a stop leads to.
--   Hub: backend/internal/ws/hub.go. NewHub, BroadcastJSON, ClientCount, subscribe, unsubscribe, and serve
--     as events. Delivery follows one subscriber among others, Subscriber from its connection on.
--   Schedule: backend/internal/engine/schedule_engine.go. NewScheduleEngine, AddTarget, RemoveTarget,
--     TargetIDs, sleepUntil, Tick over Task, and Stop. Sleep has the theorem on waits, Ticks those on ticks.
--   Alerts: the event repository of backend/internal/adapter/threshold.go (UpsertFiring, firingID, Resolve,
--     Touch, InsertSilenced) as statements on a list of rows, and Evaluate of
--     backend/internal/service/alerting.go over Alarm and Rules (Service). Open and Statements follow the
--     firing rows, Notified and Evaluated compare Evaluate with what it promises. Offline
--     has the agent-offline alarms and Tick of backend/internal/service/offline.go, Repeat its theorem;
--     Outbox has StartDispatch, dispatch and the workers' loop, as receives from the channel and returns
--     of dispatchSync, Dispatch its theorem.
--   Mesh: backend/internal/engine/mesh_engine.go. Heap is the indexed heap (push, pop, update, bubbleUp,
--     bubbleDown), with its theorems in Heap.Order and Heap.Offer; Graph has the configuration, costFn and
--     buildGraph; Search has dijkstra, whose loops are relax (one edge), take_nearest (one item of the
--     heap) and settle_all, and rebuildPath; Table the entries of Compute; Fingerprint and Compute the
--     version. Search.State, Sweep and Turn carry the invariant over edges, an agent and the heap.
--   Bmc: backend/internal/service/bmcctl.go and ApplyCommand of backend/pkg/ipmi/ipmi.go. Validate,
--     buildProtoCommand and marshalParams (params_of) on requests; Client has ApplyCommand, as the arguments
--     of its calls of ipmitool; Execute has Execute over a Scene, which holds what the store, the password
--     and the BMC answer, and the audit rows of backend/internal/adapter/bmcctl.go. Checked, Refusals,
--     Sent and Audit hold the theorems; Capability has Capability and mcInfoField.
--   Base: the numbers, clock readings, doubles, byte strings and maps that these share.
--   Examples: concrete runs; Memory is a bucket and a codec that have the laws of Bolt and Codec.
--
-- How the code is modelled. A mutex makes an operation atomic, so an operation is a function from state to
-- state. A clock reading is an argument, in nanoseconds since Go's zero time; a duration is an int64, and
-- the saturation of Sub and the wrap of a doubled delay are written out. A float64 is its bit pattern, and
-- its sums and products are rounded as IEEE 754 says (Base.Float.Sum). The
-- outcome of a transaction or a send is an argument, or is taken from a list of outcomes; a failed
-- transaction leaves the bucket as it was. A map is an association list; where the order of a range
-- over a map may show, it is a parameter (IsRange).
--
-- Bounds and fuel. The doubling loop of recordResult runs for the rounds that the failure count allows. A
-- purge has as many rounds as there are entries, and each round takes one. The loop of drain has one round
-- more than there are entries: a round that goes on takes a report off the queue. A uvarint has ten groups of
-- seven bits at most, which hold 64 bits. A chunk of at most 2^56 points keeps its positions within int64. dijkstra has as
-- many turns as the graph has agents, since each visits a new one; a path has one agent more than its hops.
--
-- Not modelled: logging, the other SQL repositories, HTTP and gRPC transport, the collectors, generated
-- code, the goroutines of dispatchDue, the other services and the rest
-- of backend/pkg.
pub mod Base
pub mod Alarm
pub mod Rules
pub mod Task
pub mod Fan
pub mod Spool
pub mod Stream
pub mod Auth
pub mod Tsdb
pub mod Pipeline
pub mod Hub
pub mod Schedule
pub mod Alerts
pub mod Mesh
pub mod Bmc
pub mod Examples
