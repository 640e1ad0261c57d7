-- ===== src/Alerts/Dispatch.antt =====
-- What becomes of the notices that are dispatched while the workers of StartDispatch run.
use mathlib.Core.List.{append_assoc, append-nil, Perm}
use mathlib.Core.List.Perm
use mathlib.Core.Option.{some-injective, none-ne-some}
use metalwatch.Base.{
  ℕ, zero, suc, Option-cases, ◌+◌, ◌≤◌, ◌<◌, ◌≡◌, refl, sym, ap, ◌∙◌, subst, Option, none, some,
  List, [], ◌∷◌, ◌++◌, length, length-append, Sublist, done, Sublist-skips, Sublist-keeps,
  Bool-cases, inl, inr, ◌⊎◌, arith,
}
use metalwatch.Base.Int.{ℤ, pos, ltb_ℤ, pos_part}
use metalwatch.Alerts.Service.{Notice}
use metalwatch.Alerts.Outbox.{
  DispatchWorker, Outbox, start_dispatch, dispatch, take_next, take_notice, behind, pick,
  finish_with, finish_call, Turn, dispatches, takes, returns, run_turns,
}

-- The notices given, in order.
abbrev pub given : List Turn → List Notice
given [] = []
given (dispatches n ∷ ts) = n ∷ given ts
given (takes ∷ ts) = given ts
given (returns k ∷ ts) = given ts

abbrev pub waiting : Option DispatchWorker → List Notice
waiting none = []
waiting (some w) = w.queue

-- What has been received from the channel, or waits in it.
abbrev pub accepted : Outbox → List Notice
accepted o = o.taken ++ waiting o.worker

-- After these notices.
pub record Served (workers capacity : ℤ) (o : Outbox) (all : List Notice) : Type 0 where
  pub worker_there :
      (w : DispatchWorker) × (o.worker ≡ some w)
      × (w.workers ≡ workers)
      × (w.capacity ≡ capacity)
      × (length w.queue ≤ pos_part capacity)
  pub few_busy : length o.busy ≤ pos_part workers
  pub each_once : Perm (o.delivered ++ o.busy) o.taken
  pub in_order : Sublist (accepted o) all
  pub none_lost : length (accepted o) + length o.dropped ≡ length all
  pub lossless : (o.dropped ≡ []) ⊎ (pos_part capacity < length all)

dispatch-Served :
    (workers capacity : ℤ) (n : Notice) (o : Outbox) (all : List Notice)
    → Served workers capacity o all
    → Served workers capacity (dispatch n o) (all ++ (n ∷ []))
unfolding dispatch
dispatch-Served workers capacity n o all s =
    let (w, e, ws, c, room) = s.worker_there in
    let order : Sublist (o.taken ++ w.queue) all =
      subst (λ (x : Option DispatchWorker). Sublist (o.taken ++ waiting x) all) e s.in_order in
    let count : length (o.taken ++ w.queue) + length o.dropped ≡ length all =
      subst
        (λ (x : Option DispatchWorker).
          length (o.taken ++ waiting x) + length o.dropped ≡ length all)
        e s.none_lost in
    let more = append_assoc o.taken w.queue (n ∷ []) in
    elim (Bool-cases (ltb_ℤ (pos (length w.queue)) w.capacity)) [
      | inl f ↦
          let fits : length (w.queue ++ (n ∷ [])) ≤ pos_part capacity =
            ground (arith, length-append w.queue (n ∷ [])) in
          rw (e, f)
            (record {
              worker_there = (record w { queue = w.queue ++ (n ∷ []) }, refl, ws, c, fits);
              few_busy = s.few_busy;
              each_once = s.each_once;
              in_order =
                  subst (λ (xs : List Notice). Sublist xs (all ++ (n ∷ []))) more
                    (Sublist-keeps n order);
              none_lost = omega (
                arith,
                ap length more,
                length-append (o.taken ++ w.queue) (n ∷ []),
                length-append all (n ∷ []),
                count,
              );
              lossless = elim s.lossless [
                | inl g ↦ inl g
                | inr g ↦ inr (omega (arith, length-append all (n ∷ [])))
              ];
            })
      | inr f ↦
          let full : pos_part capacity < length (all ++ (n ∷ [])) =
            ground
              (arith, c, f, count, length-append o.taken w.queue, length-append all (n ∷ [])) in
          rw (e, f)
            (record {
              worker_there = (w, refl, ws, c, room);
              few_busy = s.few_busy;
              each_once = s.each_once;
              in_order = Sublist-skips (n ∷ []) order;
              none_lost =
                  omega
                    (arith, count, length-append o.dropped (n ∷ []), length-append all (n ∷ []));
              lossless = inr full;
            })
    ]

take_notice-some :
    (o : Outbox) (w : DispatchWorker) → o.worker ≡ some w → take_notice o ≡ take_next w.queue w o
unfolding take_notice
take_notice-some o w e =
    ap
      (λ (x : Option DispatchWorker). elim x as (λ _. Outbox) [
        | none ↦ o
        | some v ↦ take_next v.queue v o
      ])
      e

take_next-Served :
    (workers capacity : ℤ) (q : List Notice) (w : DispatchWorker) (o : Outbox) (all : List Notice)
    → o.worker ≡ some w
    → w.queue ≡ q
    → Served workers capacity o all
    → Served workers capacity (take_next q w o) all
take_next-Served workers capacity [] w o all e f s = s
take_next-Served workers capacity (n ∷ rest) w o all e f s =
    let (v, ev, ws, c, room) = s.worker_there in
    let same_worker : v ≡ w = some-injective v w (sym ev ∙ e) in
    let same : (o.taken ++ (n ∷ [])) ++ rest ≡ accepted o =
      append_assoc o.taken (n ∷ []) rest
      ∙ ap (◌++◌ o.taken) (sym f)
      ∙ ap (λ (x : Option DispatchWorker). o.taken ++ waiting x) (sym e) in
    elim (Bool-cases (ltb_ℤ (pos (length o.busy)) w.workers)) [
      | inr k ↦ rw k s
      | inl k ↦
          let few : length (o.busy ++ (n ∷ [])) ≤ pos_part workers =
            ground (arith, k, ws, same_worker, length-append o.busy (n ∷ [])) in
          let fits : length rest ≤ pos_part capacity =
            ground (arith, ap length f, same_worker, room) in
          rw k (record {
            worker_there = (
              record w { queue = rest },
              refl,
              ground (arith, ws, same_worker),
              ground (arith, c, same_worker),
              fits,
            );
            few_busy = few;
            each_once =
                subst (λ (xs : List Notice). Perm xs (o.taken ++ (n ∷ [])))
                  (append_assoc o.delivered o.busy (n ∷ []))
                  (Perm.append_right (n ∷ []) s.each_once);
            in_order = subst (λ (xs : List Notice). Sublist xs all) (sym same) s.in_order;
            none_lost = ap (λ (xs : List Notice). length xs + length o.dropped) same ∙ s.none_lost;
            lossless = s.lossless;
          })
    ]

take_notice-Served :
    (workers capacity : ℤ) (o : Outbox) (all : List Notice)
    → Served workers capacity o all
    → Served workers capacity (take_notice o) all
take_notice-Served workers capacity o all s =
    let (w, e, ws, c, room) = s.worker_there in
    subst (λ (x : Outbox). Served workers capacity x all) (sym (take_notice-some o w e))
      (take_next-Served workers capacity w.queue w o all e refl s)

-- A pick takes one notice out.
abbrev TookOut : List Notice → Notice × List Notice → Type 0
TookOut ns x = Perm (x.0 ∷ x.1) ns × (length ns ≡ suc (length x.1))

pick-TookOut :
    (k : ℕ) (ns : List Notice) (x : Notice × List Notice) → pick k ns ≡ some x → TookOut ns x
unfolding pick
pick-TookOut k [] x e = absurd (none-ne-some x e)
pick-TookOut zero (m ∷ ns) x e =
    subst (TookOut (m ∷ ns)) (some-injective (m, ns) x e) (Perm.refl (m ∷ ns), refl)
pick-TookOut (suc k) (m ∷ ns) x e = elim (Option-cases (pick k ns)) [
  | inl h ↦ absurd (none-ne-some x (sym (ap (behind m) h) ∙ e))
  | inr (y, h) ↦
      let (same, count) = pick-TookOut k ns y h in
      subst (TookOut (m ∷ ns)) (some-injective (y.0, m ∷ y.1) x (sym (ap (behind m) h) ∙ e))
        (Perm.trans (Perm.swap m y.0 y.1) (Perm.cons m same), ap suc count)
]

finish_with-Served :
    (workers capacity : ℤ) (x : Option (Notice × List Notice)) (k : ℕ) (o : Outbox)
    (all : List Notice)
    → pick k o.busy ≡ x
    → Served workers capacity o all
    → Served workers capacity (finish_with x o) all
finish_with-Served workers capacity none k o all e s = s
finish_with-Served workers capacity (some (n, rest)) k o all e s =
    let (same, count) = pick-TookOut k o.busy (n, rest) e in
    record {
      worker_there = s.worker_there;
      few_busy = omega (arith, count, s.few_busy);
      each_once =
          subst (λ (xs : List Notice). Perm xs o.taken)
            (sym (append_assoc o.delivered (n ∷ []) rest))
            (Perm.trans (Perm.append_left o.delivered same) s.each_once);
      in_order = s.in_order;
      none_lost = s.none_lost;
      lossless = s.lossless;
    }

finish_call-Served :
    (workers capacity : ℤ) (k : ℕ) (o : Outbox) (all : List Notice)
    → Served workers capacity o all
    → Served workers capacity (finish_call k o) all
unfolding finish_call
finish_call-Served workers capacity k o all s =
    finish_with-Served workers capacity (pick k o.busy) k o all refl s

run_turns-Served :
    (workers capacity : ℤ) (ts : List Turn) (o : Outbox) (all : List Notice)
    → Served workers capacity o all
    → Served workers capacity (run_turns ts o) (all ++ given ts)
unfolding run_turns
run_turns-Served workers capacity [] o all s =
    subst (Served workers capacity o) (sym (append-nil all)) s
run_turns-Served workers capacity (dispatches n ∷ ts) o all s =
    subst (Served workers capacity (run_turns ts (dispatch n o)))
      (append_assoc all (n ∷ []) (given ts))
      (run_turns-Served workers capacity ts (dispatch n o) (all ++ (n ∷ []))
        (dispatch-Served workers capacity n o all s))
run_turns-Served workers capacity (takes ∷ ts) o all s =
    run_turns-Served workers capacity ts (take_notice o) all
      (take_notice-Served workers capacity o all s)
run_turns-Served workers capacity (returns k ∷ ts) o all s =
    run_turns-Served workers capacity ts (finish_call k o) all
      (finish_call-Served workers capacity k o all s)

-- No notice has been given yet.
abbrev pub with_worker : DispatchWorker → Outbox
with_worker w = record { worker = some w; taken = []; busy = []; delivered = []; dropped = [] }

-- After StartDispatch, whatever notices are dispatched, whenever the workers receive one and in
-- whatever order their calls of dispatchSync return: the notices received from the channel and
-- those that wait in it are some of the notices given, in order, and together with the dropped
-- ones as many; the notices delivered and those of the calls that go on are just those received,
-- each once; never more calls go on than there are workers, never more than the capacity wait, and
-- none is dropped before more than that have been given.
pub started-Served :
    (workers queue : ℤ) (ts : List Turn)
    → let w = start_dispatch workers queue in
      Served w.workers w.capacity (run_turns ts (with_worker w)) (given ts)
unfolding start_dispatch
started-Served workers queue ts =
    let w = start_dispatch workers queue in
    run_turns-Served w.workers w.capacity ts (with_worker w) [] (record {
      worker_there = (w, refl, refl, refl, omega arith);
      few_busy = omega arith;
      each_once = Perm.refl [];
      in_order = done;
      none_lost = refl;
      lossless = inl refl;
    })
