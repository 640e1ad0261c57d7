-- ===== src/Alerts/Offline.antt =====
-- The agent-offline alarms of backend/internal/service/alerting.go, and the offline monitor of
-- backend/internal/service/offline.go. What the queries return, and what fails, are arguments.
use metalwatch.Base.{
  ℕ, ◌*◌, String, ◌<>◌, Bool, true, false, ◌&&◌, Option, none, some, List, [], ◌∷◌, ◌++◌, str_eq,
  if◌then◌else◌,
}
use metalwatch.Base.Int.{ℤ, pos, ltb_ℤ, leb_ℤ, eqb_ℤ}
use metalwatch.Base.Clock.{Time, Duration, second, minute, since}
use metalwatch.Rules.{decimal}
use metalwatch.Alerts.{Row, Table, Attempt, upsert_firing, resolve}
use metalwatch.Alerts.Service.{Notice, blank_row}

pub record Host : Type 0 where
  pub id : ℤ
  pub hostname : String
  pub status : String
  pub last_seen_at : Option Time

unfoldable pub agent_offline_key : ℤ → String
agent_offline_key host_id = "agent-offline:" <> decimal host_id

-- `rfc3339` is time.Time.Format.
module _ (rfc3339 : Time → String) where
  unfoldable pub offline_event : Host → Time → Row
  offline_event host at = record blank_row {
    host_id = some host.id;
    severity = "info";
    category = "agent_offline";
    metric = some "up";
    value = some 0;
    threshold = some 0;
    title = "Agent 离线：" <> host.hostname <> " 超过 2×采集周期未上报";
    detail =
        some ("{\"host_id\":" <> decimal host.id <> ",\"last_seen_at\":\"" <> rfc3339 at <> "\"}");
  }

  abbrev pub offline_notices : Row → Time → Option (Bool × ℕ) → List Notice
  offline_notices e at none = []
  offline_notices e at (some (false, id)) = []
  offline_notices e at (some (true, id)) =
      record { row = record e { id = id }; kind = "agent.offline"; at = at } ∷ []

  unfoldable pub raise_agent_offline : Attempt → Host → Time → Table → Table × List Notice
  unfolding offline_event agent_offline_key
  raise_agent_offline a host at t =
      let e = offline_event host at in
      let (t', out) = upsert_firing a e (agent_offline_key host.id) at t in
      (t', offline_notices e at out)

abbrev online_notices : Host → Time → Option Bool → List Notice
online_notices host at none = []
online_notices host at (some false) = []
online_notices host at (some true) =
    record {
      row = record blank_row {
        host_id = some host.id;
        severity = "info";
        category = "agent_offline";
        metric = some "up";
        first_seen_at = at;
        last_seen_at = at;
      };
      kind = "agent.online";
      at = at;
    }
    ∷ []

-- The result: whether a row was closed; `none` is an error.
unfoldable pub resolve_agent_offline :
    Attempt → Host → Time → Table → (Table × List Notice) × Option Bool
unfolding agent_offline_key
resolve_agent_offline a host at t =
    let (t', out) = resolve a (agent_offline_key host.id) at t in
    ((t', online_notices host at out), out)

pub record OfflineMonitor : Type 0 where
  pub stale_after : Duration
  pub tick_every : Duration
  pub raised : List ℤ

unfoldable pub new_offline_monitor : Duration → Duration → OfflineMonitor
new_offline_monitor stale_after tick_every = record {
  stale_after = if leb_ℤ stale_after (pos 0) then pos (2 * minute) else stale_after;
  tick_every = if leb_ℤ tick_every (pos 0) then pos (15 * second) else tick_every;
  raised = [];
}

-- Online, seen before, and not seen for longer than the limit.
unfoldable pub is_stale : Duration → Time → Host → Bool
is_stale stale_after now h =
    str_eq h.status "online"
    && elim h.last_seen_at [ none ↦ false | some seen ↦ ltb_ℤ stale_after (since now seen) ]

-- What a tick has done so far: the hosts whose status it has set to offline, those for which it has
-- stored a sample up = 0, and the rest.
pub record Sweep : Type 0 where
  pub raised : List ℤ
  pub table : Table
  pub went_offline : List ℤ
  pub down_samples : List Host
  pub notices : List Notice

-- What the database and the pipeline do in a tick.
pub record Look : Type 0 where
  pub hosts : Option (List Host)
  pub firing_rows : Option (List Row)
  pub get_by_id : ℤ → Option Host
  pub status_ok : ℤ → Bool
  pub raise_attempt : ℤ → Attempt
  pub resolve_attempt : ℤ → Attempt
  pub has_pipe : Bool

abbrev mark : ℤ → List ℤ → List ℤ
mark id [] = id ∷ []
mark id (x ∷ xs) = let more = mark id xs in if eqb_ℤ x id then x ∷ xs else x ∷ more

abbrev unmark : ℤ → List ℤ → List ℤ
unmark id [] = []
unmark id (x ∷ xs) = let more = unmark id xs in if eqb_ℤ x id then xs else x ∷ more

module _ (rfc3339 : Time → String) (look : Look) (now : Time) where
  unfoldable pub take_down : Host → Sweep → Sweep
  unfolding raise_agent_offline
  take_down h s =
      let (t, out) = raise_agent_offline rfc3339 (look.raise_attempt h.id) h now s.table in
      record {
        raised = mark h.id s.raised;
        table = t;
        went_offline =
            if look.status_ok h.id then s.went_offline ++ (h.id ∷ []) else s.went_offline;
        down_samples = if look.has_pipe then s.down_samples ++ (h ∷ []) else s.down_samples;
        notices = s.notices ++ out;
      }

  unfoldable pub judge_hosts : Duration → List Host → Sweep → Sweep
  unfolding is_stale take_down
  judge_hosts stale_after [] s = s
  judge_hosts stale_after (h ∷ hs) s =
      judge_hosts stale_after hs (if is_stale stale_after now h then take_down h s else s)

  abbrev host_of : Option ℤ → Option Host
  host_of none = none
  host_of (some id) = look.get_by_id id

  abbrev settle : Option Bool → ℤ → List ℤ → List ℤ
  settle none id raised = raised
  settle (some b) id raised = if b then unmark id raised else raised

  abbrev bring_up : Option Host → Sweep → Sweep
  bring_up none s = s
  bring_up (some h) s =
      let ((t, out), resolved) = resolve_agent_offline (look.resolve_attempt h.id) h now s.table in
      if str_eq h.status "online"
      then record s {
        raised = settle resolved h.id s.raised;
        table = t;
        notices = s.notices ++ out;
      }
      else s

  unfoldable pub judge_rows : List Row → Sweep → Sweep
  judge_rows [] s = s
  judge_rows (r ∷ rs) s =
      judge_rows rs (if str_eq r.state "firing" then bring_up (host_of r.host_id) s else s)

  abbrev second_half : Option (List Row) → Sweep → Sweep
  second_half none s = s
  second_half (some rows) s = judge_rows rows s

  abbrev sweep : Duration → Option (List Host) → Sweep → Sweep
  sweep stale_after none s = s
  sweep stale_after (some hs) s = second_half look.firing_rows (judge_hosts stale_after hs s)

  -- One `Tick`.
  unfoldable pub tick : OfflineMonitor → Table → OfflineMonitor × Sweep
  unfolding judge_hosts judge_rows
  tick m t =
      let s = sweep m.stale_after look.hosts (record {
        raised = m.raised;
        table = t;
        went_offline = [];
        down_samples = [];
        notices = [];
      }) in
      (record m { raised = s.raised }, s)
