-- ===== src/Examples/Pushes.antt =====
-- Two subscribers, one of which has gone when the second message is broadcast.
use metalwatch.Base.{ℕ, ◌≡◌, refl, true, false, some, none, List, [], ◌∷◌, ◌++◌, arith}
use metalwatch.Hub.{
  Client, Hub, new_hub, offer, offer_all, broadcast_json, subscribe, remove, unsubscribe, pump,
  pump_one, write_next, serve_start, Event, broadcasts, connects, disconnects, writes, apply_event,
  run, client_count,
}
use metalwatch.Hub.Delivery.{find, own_event, run_own, find-run}
use metalwatch.Hub.Subscriber.{pumps, few_are_received}

abbrev early : List (Event ℕ)
early = connects true ∷ connects false ∷ broadcasts (some 4) ∷ []

abbrev late : List (Event ℕ)
late = broadcasts (some 5) ∷ disconnects 0 ∷ broadcasts none ∷ broadcasts (some 6) ∷ writes 2 ∷ []

counted : client_count (run late (apply_event (connects true) (run early new_hub))) ≡ 1
unfolding run apply_event new_hub serve_start broadcast_json offer_all offer subscribe unsubscribe
    remove write_next pump_one pump client_count
counted = refl

few_are_received_example :
    (c : Client ℕ) × (find 2
        (run (late ++ pumps 2 2) (apply_event (connects true) (run early new_hub))).clients
      ≡ some c)
    × (c.written ≡ (5 ∷ 6 ∷ []))
    × (c.queue ≡ [])
unfolding run apply_event new_hub serve_start broadcast_json offer_all offer subscribe unsubscribe
    remove
few_are_received_example =
    few_are_received early late 2 (tt, ((λ e. absurd (omega arith)), (tt, (tt, (tt, tt)))))
      (omega arith) (omega arith)

abbrev two_there : Hub ℕ
two_there = record {
  clients =
      record { id = 0; queue = []; written = [] }
      ∷ record { id = 1; queue = 3 ∷ []; written = [] }
      ∷ [];
  next_id = 2;
}

find-run_example :
    find 1 (run (broadcasts (some 9) ∷ writes 1 ∷ []) two_there).clients
    ≡ some (record { id = 1; queue = 9 ∷ []; written = 3 ∷ [] })
unfolding run_own own_event pump offer
find-run_example =
    find-run 1 (broadcasts (some 9) ∷ writes 1 ∷ []) two_there
      (record { id = 1; queue = 3 ∷ []; written = [] }) (omega arith, (omega arith, tt))
      (tt, (tt, tt)) refl
