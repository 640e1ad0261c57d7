-- ===== src/Hub/Delivery.antt =====
-- What one subscriber gets, whatever the others do.
use mathlib.Core.Option.{none-ne-some}
use metalwatch.Base.{
  ℕ, suc, ◌<◌, ◌≡◌, ◌≢◌, refl, true, false, Option, none, some, List, [], ◌∷◌, ◌++◌, All,
  All-append, All-map, arith, ◌==◌, ==_iff, if◌then◌else◌, Bool-cases, inl, inr,
}
use metalwatch.Hub.{
  Client, Hub, offer, offer_all, broadcast_json, subscribe, remove, unsubscribe, pump, pump_one,
  write_next, serve_start, Event, broadcasts, connects, disconnects, writes, apply_event, run,
}

module _ {ℓ} {A : Type ℓ} where
  abbrev pub find : ℕ → List (Client A) → Option (Client A)
  find ch [] = none
  find ch (c ∷ cs) = if c.id == ch then some c else find ch cs

  -- A subscriber by itself.
  unfoldable pub own_event : ℕ → Event A → Client A → Client A
  own_event ch (broadcasts none) c = c
  own_event ch (broadcasts (some m)) c = offer m c
  own_event ch (connects upgraded) c = c
  own_event ch (disconnects ch') c = c
  own_event ch (writes ch') c = if ch' == ch then pump c else c

  unfoldable pub run_own : ℕ → List (Event A) → Client A → Client A
  run_own ch [] c = c
  run_own ch (e ∷ es) c = run_own ch es (own_event ch e c)

  abbrev pub Stays : ℕ → Event A → Type 0
  Stays ch (disconnects ch') = ch' ≢ ch
  Stays ch (broadcasts m) = Unit {0}
  Stays ch (connects upgraded) = Unit {0}
  Stays ch (writes ch') = Unit {0}

  offer-id : (m : A) (c : Client A) → (offer m c).id ≡ c.id
  unfolding offer
  offer-id m c = ground arith

  pump-id : (c : Client A) → (pump c).id ≡ c.id
  unfolding pump
  pump-id c = ground arith

  find-offer_all :
      (ch : ℕ) (m : A) (cs : List (Client A)) (c : Client A)
      → find ch cs ≡ some c
      → find ch (offer_all m cs) ≡ some (offer m c)
  unfolding offer_all
  find-offer_all ch m [] c e = absurd (none-ne-some c e)
  find-offer_all ch m (d ∷ cs) c e = ground (arith, offer-id m d, find-offer_all ch m cs c)

  find-append :
      (ch : ℕ) (cs ds : List (Client A)) (c : Client A)
      → find ch cs ≡ some c
      → find ch (cs ++ ds) ≡ some c
  find-append ch [] ds c e = absurd (none-ne-some c e)
  find-append ch (d ∷ cs) ds c e = ground (arith, find-append ch cs ds c)

  find-remove :
      (ch ch' : ℕ) (cs : List (Client A)) (c : Client A)
      → ch' ≢ ch
      → find ch cs ≡ some c
      → find ch (remove ch' cs) ≡ some c
  unfolding remove
  find-remove ch ch' [] c n e = absurd (none-ne-some c e)
  find-remove ch ch' (d ∷ cs) c n e = ground (arith, find-remove ch ch' cs c n)

  find-pump_one :
      (ch ch' : ℕ) (cs : List (Client A)) (c : Client A)
      → find ch cs ≡ some c
      → find ch (pump_one ch' cs) ≡ some (if ch' == ch then pump c else c)
  unfolding pump_one
  find-pump_one ch ch' [] c e = absurd (none-ne-some c e)
  find-pump_one ch ch' (d ∷ cs) c e = ground (arith, pump-id d, find-pump_one ch ch' cs c)

  -- The channels of the subscribers were given out.
  abbrev Below : ℕ → List (Client A) → Type 0
  Below n = All (λ (c : Client A). c.id < n)

  find-Below :
      (ch n : ℕ) (cs : List (Client A)) (c : Client A) → Below n cs → find ch cs ≡ some c → ch < n
  find-Below ch n [] c b e = absurd (none-ne-some c e)
  find-Below ch n (d ∷ cs) c b e = elim (Bool-cases (d.id == ch)) [
    | inl f ↦ let same = (==_iff d.id ch).0 f in omega (arith, b.0)
    | inr f ↦ find-Below ch n cs c b.1 (ground arith)
  ]

  Below-Fresh : (n : ℕ) (cs : List (Client A)) → Below n cs → find n cs ≡ none
  Below-Fresh n [] b = refl
  Below-Fresh n (d ∷ cs) b = ground (arith, b.0, Below-Fresh n cs b.1)

  Below-offer_all : (n : ℕ) (m : A) (cs : List (Client A)) → Below n cs → Below n (offer_all m cs)
  unfolding offer_all
  Below-offer_all n m [] b = tt
  Below-offer_all n m (c ∷ cs) b = (omega (arith, offer-id m c, b.0), Below-offer_all n m cs b.1)

  Below-remove : (n ch : ℕ) (cs : List (Client A)) → Below n cs → Below n (remove ch cs)
  unfolding remove
  Below-remove n ch [] b = tt
  Below-remove n ch (c ∷ cs) b = elim (Bool-cases (c.id == ch)) [
    | inl e ↦ rw e b.1
    | inr e ↦ rw e (b.0, Below-remove n ch cs b.1)
  ]

  Below-pump_one : (n ch : ℕ) (cs : List (Client A)) → Below n cs → Below n (pump_one ch cs)
  unfolding pump_one
  Below-pump_one n ch [] b = tt
  Below-pump_one n ch (c ∷ cs) b = elim (Bool-cases (c.id == ch)) [
    | inl e ↦ rw e (omega (arith, pump-id c, b.0), b.1)
    | inr e ↦ rw e (b.0, Below-pump_one n ch cs b.1)
  ]

  abbrev pub Fresh : Hub A → Type 0
  Fresh h = Below h.next_id h.clients

  Fresh-subscribe : (h : Hub A) → Fresh h → Fresh (subscribe h).0
  unfolding subscribe
  Fresh-subscribe h b =
      All-append (λ (c : Client A). c.id < suc h.next_id) h.clients _
        (All-map h.clients (λ c (k : c.id < h.next_id). omega arith) b) (omega arith, tt)

  pub Fresh-apply_event : (e : Event A) (h : Hub A) → Fresh h → Fresh (apply_event e h)
  unfolding apply_event broadcast_json serve_start unsubscribe write_next subscribe
  Fresh-apply_event (broadcasts none) h b = b
  Fresh-apply_event (broadcasts (some m)) h b = Below-offer_all h.next_id m h.clients b
  Fresh-apply_event (connects true) h b = Fresh-subscribe h b
  Fresh-apply_event (connects false) h b =
      Below-remove (suc h.next_id) h.next_id (subscribe h).0.clients (Fresh-subscribe h b)
  Fresh-apply_event (disconnects ch) h b = Below-remove h.next_id ch h.clients b
  Fresh-apply_event (writes ch) h b = Below-pump_one h.next_id ch h.clients b

  pub Fresh-run : (es : List (Event A)) (h : Hub A) → Fresh h → Fresh (run es h)
  unfolding run
  Fresh-run [] h b = b
  Fresh-run (e ∷ es) h b = Fresh-run es (apply_event e h) (Fresh-apply_event e h b)

  find-apply_event :
      (ch : ℕ) (e : Event A) (h : Hub A) (c : Client A)
      → Fresh h
      → Stays ch e
      → find ch h.clients ≡ some c
      → find ch (apply_event e h).clients ≡ some (own_event ch e c)
  unfolding apply_event broadcast_json serve_start unsubscribe write_next subscribe own_event
  find-apply_event ch (broadcasts none) h c b s e = e
  find-apply_event ch (broadcasts (some m)) h c b s e = find-offer_all ch m h.clients c e
  find-apply_event ch (connects true) h c b s e = find-append ch h.clients _ c e
  find-apply_event ch (connects false) h c b s e =
      find-remove ch h.next_id _ c
        (λ same. absurd (omega (arith, find-Below ch h.next_id h.clients c b e)))
        (find-append ch h.clients _ c e)
  find-apply_event ch (disconnects ch') h c b s e = find-remove ch ch' h.clients c s e
  find-apply_event ch (writes ch') h c b s e = find-pump_one ch ch' h.clients c e

  -- In a hub whose channels were all given out, a subscriber that does not disconnect ends up,
  -- after any events, exactly as it would by itself: what other subscribers do, and how full they
  -- are, makes no difference to it.
  pub find-run :
      (ch : ℕ) (es : List (Event A)) (h : Hub A) (c : Client A)
      → Fresh h
      → All (Stays ch) es
      → find ch h.clients ≡ some c
      → find ch (run es h).clients ≡ some (run_own ch es c)
  unfolding run run_own
  find-run ch [] h c b s e = e
  find-run ch (v ∷ es) h c b s e =
      find-run ch es (apply_event v h) (own_event ch v c) (Fresh-apply_event v h b) s.1
        (find-apply_event ch v h c b s.0 e)

  find-append-none :
      (ch : ℕ) (cs : List (Client A)) (c : Client A)
      → find ch cs ≡ none
      → c.id ≡ ch
      → find ch (cs ++ (c ∷ [])) ≡ some c
  find-append-none ch [] c n e = ground (arith, e)
  find-append-none ch (d ∷ cs) c n e = ground (arith, find-append-none ch cs c, e)

  pub find-append-Fresh :
      (h : Hub A) (c : Client A)
      → Fresh h
      → c.id ≡ h.next_id
      → find h.next_id (h.clients ++ (c ∷ [])) ≡ some c
  find-append-Fresh h c b e =
      find-append-none h.next_id h.clients c (Below-Fresh h.next_id h.clients b) e
