-- ===== src/Hub.antt =====
-- The WebSocket hub, backend/internal/ws/hub.go: the set of subscribers, each a channel with room for
-- 32 messages, the broadcast that drops a message for a full channel, and the write pump of `serve`.
-- A channel is a number that `subscribe` has not given out before.
pub mod Delivery
pub mod Subscriber
use metalwatch.Base.{
  ℕ, zero, suc, Bool, true, false, Option, none, some, List, [], ◌∷◌, ◌++◌, length, ltb, ◌==◌,
  if◌then◌else◌,
}

abbrev queue_size : ℕ
queue_size = 32

-- A subscriber's channel: `queue` is its buffer, oldest first, `written` what its pump has written.
pub record Client {ℓ} (A : Type ℓ) : Type ℓ where
  pub id : ℕ
  pub queue : List A
  pub written : List A

-- `next_id` stands for the allocation of channels.
pub record Hub {ℓ} (A : Type ℓ) : Type ℓ where
  pub clients : List (Client A)
  pub next_id : ℕ

module _ {ℓ} {A : Type ℓ} where
  unfoldable pub new_hub : Hub A
  new_hub = record { clients = []; next_id = 0 }

  -- `select { case ch <- data: default: }`.
  unfoldable pub offer : A → Client A → Client A
  offer data_bytes c =
      if ltb (length c.queue) queue_size
      then record c { queue = c.queue ++ (data_bytes ∷ []) }
      else c

  unfoldable pub offer_all : A → List (Client A) → List (Client A)
  offer_all data_bytes [] = []
  offer_all data_bytes (c ∷ cs) = offer data_bytes c ∷ offer_all data_bytes cs

  -- The result of json.Marshal is the argument: `none` is its error.
  unfoldable pub broadcast_json : Option A → Hub A → Hub A
  broadcast_json none h = h
  broadcast_json (some data_bytes) h = record h { clients = offer_all data_bytes h.clients }

  unfoldable pub client_count : Hub A → ℕ
  client_count h = length h.clients

  unfoldable pub subscribe : Hub A → Hub A × ℕ
  subscribe h = (
    record {
      clients = h.clients ++ ((record { id = h.next_id; queue = []; written = [] }) ∷ []);
      next_id = suc h.next_id;
    },
    h.next_id,
  )

  unfoldable pub remove : ℕ → List (Client A) → List (Client A)
  remove ch [] = []
  remove ch (c ∷ cs) = if c.id == ch then cs else c ∷ remove ch cs

  unfoldable pub unsubscribe : ℕ → Hub A → Hub A
  unsubscribe ch h = record h { clients = remove ch h.clients }

  -- The write pump takes the oldest message and writes it; where the write fails the pump ends.
  unfoldable pub pump : Client A → Client A
  pump c = elim c.queue [
    | [] ↦ c
    | m ∷ rest ↦ record c { queue = rest; written = c.written ++ (m ∷ []) }
  ]

  unfoldable pub pump_one : ℕ → List (Client A) → List (Client A)
  pump_one ch [] = []
  pump_one ch (c ∷ cs) = if c.id == ch then pump c ∷ cs else c ∷ pump_one ch cs

  unfoldable pub write_next : ℕ → Hub A → Hub A
  write_next ch h = record h { clients = pump_one ch h.clients }

  -- The start of `serve`: it subscribes before the upgrade, and takes that back where it fails.
  unfoldable pub serve_start : Bool → Hub A → Hub A
  unfolding subscribe unsubscribe
  serve_start upgraded h = let (h', ch) = subscribe h in if upgraded then h' else unsubscribe ch h'

-- What happens to a hub, one call after another: a call of BroadcastJSON, a connection, the end of
-- `serve` for a channel, and a message that its pump writes.
pub data Event {ℓ} (A : Type ℓ) : Type ℓ where
  broadcasts : Option A → Event A
  connects : Bool → Event A
  disconnects writes : ℕ → Event A

unfoldable pub apply_event {ℓ} : {A : Type ℓ} → Event A → Hub A → Hub A
unfolding broadcast_json serve_start unsubscribe write_next
apply_event (broadcasts m) h = broadcast_json m h
apply_event (connects upgraded) h = serve_start upgraded h
apply_event (disconnects ch) h = unsubscribe ch h
apply_event (writes ch) h = write_next ch h

unfoldable pub run {ℓ} : {A : Type ℓ} → List (Event A) → Hub A → Hub A
run [] h = h
run (e ∷ es) h = run es (apply_event e h)
