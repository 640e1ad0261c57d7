-- ===== src/Hub/Subscriber.antt =====
-- The messages that a subscriber gets from its connection on.
use mathlib.Core.List.{append_assoc, append-nil}
use metalwatch.Base.{
  Sublist, done, Sublist-skips, Sublist-keeps, List-cases, ℕ, ◌+◌, ◌≤◌, ◌<◌, ◌≡◌, refl, sym, ap,
  ◌∙◌, subst, Bool, true, false, none, some, List, [], ◌∷◌, ◌++◌, zero, suc, ◌-◌, All, length,
  length-append, arith, ltb, ◌==◌, if◌then◌else◌, Bool-cases, inl, inr,
}
use metalwatch.Hub.{
  Client, Hub, queue_size, new_hub, offer, subscribe, pump, serve_start, Event, broadcasts,
  connects, disconnects, writes, apply_event, run,
}
use metalwatch.Hub.Delivery.{
  find, own_event, run_own, Stays, Fresh-run, Fresh-apply_event, find-run, find-append-Fresh,
}

module _ {ℓ} {A : Type ℓ} where
  abbrev message : Event A → List A
  message (broadcasts none) = []
  message (broadcasts (some m)) = m ∷ []
  message (connects upgraded) = []
  message (disconnects ch) = []
  message (writes ch) = []

  -- The messages that were broadcast.
  abbrev pub sent : List (Event A) → List A
  sent [] = []
  sent (e ∷ es) = message e ++ sent es

  -- What a subscriber has been written, then what waits for it.
  abbrev pub received : Client A → List A
  received c = c.written ++ c.queue

  received-pump : (c : Client A) → received (pump c) ≡ received c
  unfolding pump
  received-pump c = elim (List-cases c.queue) [
    | inl e ↦ rw e refl
    | inr (m, rest, e) ↦ rw e (append_assoc c.written (m ∷ []) rest)
  ]

  received-offer :
      (m : A) (c : Client A)
      → length c.queue < queue_size
      → received (offer m c) ≡ received c ++ (m ∷ [])
  unfolding offer
  received-offer m c h = ground (arith, append_assoc c.written c.queue (m ∷ []))

  offer-Sublist :
      (m : A) (c : Client A) (ms : List A)
      → Sublist (received c) ms
      → Sublist (received (offer m c)) (ms ++ (m ∷ []))
  unfolding offer
  offer-Sublist m c ms s = elim (Bool-cases (ltb (length c.queue) queue_size)) [
    | inl e ↦ rw e (
        subst (λ (xs : List A). Sublist xs (ms ++ (m ∷ [])))
          (append_assoc c.written c.queue (m ∷ [])) (Sublist-keeps m s))
    | inr e ↦ rw e (Sublist-skips (m ∷ []) s)
  ]

  received-write : (b : Bool) (c : Client A) → received (if b then pump c else c) ≡ received c
  received-write true c = received-pump c
  received-write false c = refl

  received-Sublist :
      (ch : ℕ) (e : Event A) (c : Client A) (ms : List A)
      → Sublist (received c) ms
      → Sublist (received (own_event ch e c)) (ms ++ message e)
  unfolding own_event
  received-Sublist ch (broadcasts none) c ms s = Sublist-skips [] s
  received-Sublist ch (broadcasts (some m)) c ms s = offer-Sublist m c ms s
  received-Sublist ch (connects upgraded) c ms s = Sublist-skips [] s
  received-Sublist ch (disconnects ch') c ms s = Sublist-skips [] s
  received-Sublist ch (writes ch') c ms s =
      subst (λ (xs : List A). Sublist xs (ms ++ [])) (sym (received-write (ch' == ch) c))
        (Sublist-skips [] s)

  run_own-Sublist :
      (ch : ℕ) (es : List (Event A)) (c : Client A) (ms : List A)
      → Sublist (received c) ms
      → Sublist (received (run_own ch es c)) (ms ++ sent es)
  unfolding run_own
  run_own-Sublist ch [] c ms s = Sublist-skips [] s
  run_own-Sublist ch (e ∷ es) c ms s =
      subst (Sublist (received (run_own ch es (own_event ch e c))))
        (append_assoc ms (message e) (sent es))
        (run_own-Sublist ch es (own_event ch e c) (ms ++ message e) (received-Sublist ch e c ms s))

  length-zero : (xs : List A) → length xs ≡ 0 → xs ≡ []
  length-zero [] h = refl
  length-zero (x ∷ xs) h = absurd (omega arith)

  pump-room : (c : Client A) → length (pump c).queue ≤ length c.queue
  unfolding pump
  pump-room c = elim (List-cases c.queue) [
    | inl e ↦ rw e (omega arith)
    | inr (m, rest, e) ↦ rw e (omega arith)
  ]

  own_event-room :
      (ch : ℕ) (e : Event A) (c : Client A)
      → length c.queue ≤ queue_size
      → length (own_event ch e c).queue ≤ queue_size
  unfolding own_event offer
  own_event-room ch (broadcasts none) c h = h
  own_event-room ch (broadcasts (some m)) c h = ground (arith, length-append c.queue (m ∷ []))
  own_event-room ch (connects upgraded) c h = h
  own_event-room ch (disconnects ch') c h = h
  own_event-room ch (writes ch') c h = ground (arith, pump-room c)

  run_own-room :
      (ch : ℕ) (es : List (Event A)) (c : Client A)
      → length c.queue ≤ queue_size
      → length (run_own ch es c).queue ≤ queue_size
  unfolding run_own
  run_own-room ch [] c h = h
  run_own-room ch (e ∷ es) c h = run_own-room ch es (own_event ch e c) (own_event-room ch e c h)

  received-own :
      (ch : ℕ) (e : Event A) (c : Client A)
      → length (received c) + length (message e) ≤ queue_size
      → received (own_event ch e c) ≡ received c ++ message e
  unfolding own_event
  received-own ch (broadcasts none) c h = sym (append-nil (received c))
  received-own ch (broadcasts (some m)) c h =
      received-offer m c (omega (arith, length-append c.written c.queue))
  received-own ch (connects upgraded) c h = sym (append-nil (received c))
  received-own ch (disconnects ch') c h = sym (append-nil (received c))
  received-own ch (writes ch') c h = received-write (ch' == ch) c ∙ sym (append-nil (received c))

  run_own-all :
      (ch : ℕ) (es : List (Event A)) (c : Client A)
      → length (received c) + length (sent es) ≤ queue_size
      → received (run_own ch es c) ≡ received c ++ sent es
  unfolding run_own
  run_own-all ch [] c h = sym (append-nil (received c))
  run_own-all ch (e ∷ es) c h =
      let width = length-append (message e) (sent es) in
      let step = received-own ch e c (omega (arith, width)) in
      let wider = length-append (received c) (message e) in
      run_own-all ch es (own_event ch e c) (omega (arith, ap length step, width, wider))
      ∙ ap (λ (xs : List A). xs ++ sent es) step
      ∙ append_assoc (received c) (message e) (sent es)

  -- What the hub holds for a channel.
  pub record Served (es : List (Event A)) (ch : ℕ) (h : Hub A) : Type ℓ where
    pub client : Client A
    pub found : find ch h.clients ≡ some client
    pub some_sent : Sublist (received client) (sent es)
    pub room : length client.queue ≤ 32

  abbrev fresh_client : ℕ → Client A
  fresh_client ch = record { id = ch; queue = []; written = [] }

  found_own :
      (before after : List (Event A))
      → All (Stays (run before (new_hub {A = A})).next_id) after
      → let h = run before (new_hub {A = A}) in
        find h.next_id (run after (apply_event (connects true) h)).clients
        ≡ some (run_own h.next_id after (fresh_client h.next_id))
  unfolding new_hub apply_event serve_start subscribe
  found_own before after stays =
      let h = run before new_hub in
      let c = fresh_client h.next_id in
      let fresh = Fresh-run before new_hub tt in
      find-run h.next_id after (apply_event (connects true) h) c
        (Fresh-apply_event (connects true) h fresh) stays (find-append-Fresh h c fresh refl)

  -- After any events on a new hub, a client that connects and does not disconnect is found under
  -- its channel; what was written to it and what waits for it are some of the messages broadcast
  -- from then on, in order, and never more than 32 of them wait.
  pub run-Served :
      (before after : List (Event A))
      → All (Stays (run before (new_hub {A = A})).next_id) after
      → let h = run before (new_hub {A = A}) in
        Served after h.next_id (run after (apply_event (connects true) h))
  run-Served before after stays =
      let ch = (run before (new_hub {A = A})).next_id in
      record {
        client = run_own ch after (fresh_client ch);
        found = found_own before after stays;
        some_sent = run_own-Sublist ch after (fresh_client ch) [] done;
        room = run_own-room ch after (fresh_client ch) (omega arith);
      }

  -- The pump of a channel writes this often.
  abbrev pub pumps : ℕ → ℕ → List (Event A)
  pumps zero ch = []
  pumps (suc n) ch = writes ch ∷ pumps n ch

  append_pumps-Stays :
      (after : List (Event A)) (n ch other : ℕ)
      → All (Stays other) after
      → All (Stays other) (after ++ pumps n ch)
  append_pumps-Stays [] zero ch other h = tt
  append_pumps-Stays [] (suc n) ch other h = (tt, append_pumps-Stays [] n ch other h)
  append_pumps-Stays (e ∷ es) n ch other h = (h.0, append_pumps-Stays es n ch other h.1)

  sent-pumps : (es : List (Event A)) (n ch : ℕ) → sent (es ++ pumps n ch) ≡ sent es
  sent-pumps [] zero ch = refl
  sent-pumps [] (suc n) ch = sent-pumps [] n ch
  sent-pumps (e ∷ es) n ch = ap (◌++◌ (message e)) (sent-pumps es n ch)

  run_own-append :
      (ch : ℕ) (es fs : List (Event A)) (c : Client A)
      → run_own ch (es ++ fs) c ≡ run_own ch fs (run_own ch es c)
  unfolding run_own
  run_own-append ch [] fs c = refl
  run_own-append ch (e ∷ es) fs c = run_own-append ch es fs (own_event ch e c)

  own_write-shortens :
      (ch : ℕ) (c : Client A) → length (own_event ch (writes ch) c).queue ≡ length c.queue - 1
  unfolding own_event pump
  own_write-shortens ch c = ground arith

  pumps-shortens :
      (n ch : ℕ) (c : Client A) → length (run_own ch (pumps n ch) c).queue ≡ length c.queue - n
  unfolding run_own
  pumps-shortens zero ch c = omega arith
  pumps-shortens (suc n) ch c =
      omega (arith, pumps-shortens n ch (own_event ch (writes ch) c), own_write-shortens ch c)

  -- A client that connects after any events on a new hub and does not disconnect has been written
  -- all messages that are broadcast from then on, in order, and none waits for it, once its pump
  -- has then written as often as there are such messages, if these are 32 at most.
  pub few_are_received :
      (before after : List (Event A)) (n : ℕ)
      → All (Stays (run before (new_hub {A = A})).next_id) after
      → length (sent after) ≤ 32
      → length (sent after) ≤ n
      → let h = run before (new_hub {A = A}) in
        (c : Client A) × (find h.next_id
            (run (after ++ pumps n h.next_id) (apply_event (connects true) h)).clients
          ≡ some c)
        × (c.written ≡ sent after)
        × (c.queue ≡ [])
  few_are_received before after n stays few enough =
      let ch = (run before (new_hub {A = A})).next_id in
      let es = after ++ pumps n ch in
      let c = run_own ch after (fresh_client ch) in
      let last = run_own ch es (fresh_client ch) in
      let all = run_own-all ch after (fresh_client ch) (omega arith) in
      let total =
        run_own-all ch es (fresh_client ch) (omega (arith, ap length (sent-pumps after n ch)))
        ∙ sent-pumps after n ch in
      let parts = length-append c.written c.queue in
      let none_left : last.queue ≡ [] = length-zero last.queue (
        omega (
          arith,
          ap (λ (x : Client A). length x.queue)
              (run_own-append ch after (pumps n ch) (fresh_client ch)),
          pumps-shortens n ch c,
          ap length all,
          parts,
        )) in
      (
        last,
        found_own before es (append_pumps-Stays after n ch ch stays),
        sym (append-nil last.written) ∙ ap (◌++◌ last.written) (sym none_left) ∙ total,
        none_left,
      )
