-- ===== src/Pipeline/Stop.antt =====
-- `Stop`: the goroutine takes what is left in the channel, writes it and returns.
use mathlib.Core.List.{append-nil}
use mathlib.Core.Option.{some-injective}
use metalwatch.Base.{
  List-cases, ℕ, zero, suc, ◌+◌, ◌≤◌, ◌≡◌, refl, sym, ap, ◌∙◌, Bool, true, false, ◌&&◌, ◌||◌, some,
  List, [], ◌∷◌, ◌++◌, length, arith, guarded, ◌==◌, inl, inr, ◌⊎◌, ◌≢◌,
}
use metalwatch.Pipeline.{
  Options, Phase, looping, draining, ended, is_looping, is_draining, Pipeline, flush, accept,
  receive, Move, receives, ticks, ends, stops, sees_stop, move,
}
use metalwatch.Pipeline.Order.{
  samples_of, Reach, moved, Reach-Kept, Kept, receive-cons, received, flush-empties,
}

abbrev pub is_stop : Move → Bool
is_stop (receives ok) = false
is_stop (ticks ok) = false
is_stop (ends ok) = false
is_stop stops = true
is_stop sees_stop = false

-- The write that a move may make has this outcome.
abbrev pub WithOutcome : Bool → Move → Type 0
WithOutcome ok (receives b) = b ≡ ok
WithOutcome ok (ticks b) = b ≡ ok
WithOutcome ok (ends b) = b ≡ ok
WithOutcome ok stops = Unit {0}
WithOutcome ok sees_stop = Unit {0}

phase_cases : (ph : Phase) → (ph ≡ looping) ⊎ ((ph ≡ draining) ⊎ (ph ≡ ended))
phase_cases looping = inl refl
phase_cases draining = inr (inl refl)
phase_cases ended = inr (inr refl)

module _ {ℓ} {A : Type ℓ} where
  length-zero : (xs : List A) → length xs ≡ 0 → xs ≡ []
  length-zero [] h = refl
  length-zero (x ∷ xs) h = absurd (omega arith)

  all_written :
      (opt : Options) (sent : List A) (q : Pipeline A)
      → Kept opt sent q
      → length q.batch ≡ 0
      → length q.channel ≡ 0
      → samples_of q.writes ≡ sent
  all_written opt sent q h b c =
      let nil : q.batch ++ q.channel ≡ [] =
        ap (λ (xs : List A). xs ++ q.channel) (length-zero q.batch b) ∙ length-zero q.channel c in
      sym (append-nil (samples_of q.writes)) ∙ ap (◌++◌ (samples_of q.writes)) (sym nil) ∙ h.ordered

  flush-channel : (ok : Bool) (p : Pipeline A) → (flush ok p).channel ≡ p.channel
  unfolding flush
  flush-channel ok p = ground arith

  flush-phase : (ok : Bool) (p : Pipeline A) → (flush ok p).phase ≡ p.phase
  unfolding flush
  flush-phase ok p = ground arith

  accept-channel : (ok : Bool) (s : A) (p : Pipeline A) → (accept ok s p).channel ≡ p.channel
  unfolding accept
  accept-channel ok s p =
      ground (arith, flush-channel ok (record p { batch = p.batch ++ (s ∷ []) }))

  accept-phase : (ok : Bool) (s : A) (p : Pipeline A) → (accept ok s p).phase ≡ p.phase
  unfolding accept
  accept-phase ok s p = ground (arith, flush-phase ok (record p { batch = p.batch ++ (s ∷ []) }))

  -- After the goroutine has seen the stop, each move but a further call of Stop either ends it,
  -- with every sample that was sent handed to the store, or takes one sample off the channel.
  pub draining_move :
      (opt : Options) {sent : List A} {p q : Pipeline A} (m : Move)
      → Reach opt sent p
      → p.phase ≡ draining
      → is_stop m ≡ false
      → move m p ≡ some q
      → ((q.phase ≡ ended) × (samples_of q.writes ≡ sent))
        ⊎ ((q.phase ≡ draining) × (suc (length q.channel) ≡ length p.channel))
  unfolding move
  draining_move opt {sent} {p} {q} (receives ok) r d n e =
      let (s, rest, f, g) =
        received ok p q
          (guarded (is_looping p.phase || is_draining p.phase) (receive ok p) q e).1 in
      let p' = record p { channel = rest } in
      inr (
        ap (λ (x : Pipeline A). x.phase) g ∙ accept-phase ok s p' ∙ d,
        ap suc (ap (λ (x : Pipeline A). length x.channel) g ∙ ap length (accept-channel ok s p'))
            ∙ sym (ap length f),
      )
  draining_move opt {sent} {p} {q} (ticks ok) r d n e = ground (arith, ap is_looping d)
  draining_move opt {sent} {p} {q} stops r d n e = ground arith
  draining_move opt {sent} {p} {q} sees_stop r d n e = ground (arith, ap is_looping d)
  draining_move opt {sent} {p} {q} (ends ok) r d n e =
      let last = record (flush ok p) { phase = ended } in
      let (at, k) = guarded (is_draining p.phase && length p.channel == 0) (some last) q e in
      let same = some-injective last q k in
      let empty : length p.channel ≡ 0 = ground arith in
      inl (
        ap (λ (x : Pipeline A). x.phase) (sym same),
        all_written opt sent q (Reach-Kept opt (moved (ends ok) r e))
            (ap (λ (x : Pipeline A). length x.batch) (sym same) ∙ flush-empties ok p)
            (ap (λ (x : Pipeline A). length x.channel) (sym same)
              ∙ ap length (flush-channel ok p)
              ∙ empty),
      )

  -- Moves from a state on, with no send among them; `oks` are the outcomes of writes, by move.
  pub data Runs (oks : ℕ → Bool) (p : Pipeline A) : ℕ → Pipeline A → Type ℓ where
    not_yet : Runs oks p 0 p
    and_then :
        {n : ℕ} {q u : Pipeline A} (m : Move)
        → Runs oks p n q
        → WithOutcome (oks n) m
        → move m q ≡ some u
        → Runs oks p (suc n) u

  -- From this state the goroutine can return, with the samples handed to the store.
  pub record Finished (oks : ℕ → Bool) (p : Pipeline A) (sent : List A) : Type ℓ where
    pub steps : ℕ
    pub last : Pipeline A
    pub runs : Runs oks p steps last
    pub soon : steps ≤ length p.channel + 3
    pub returned : last.phase ≡ ended
    pub handed : samples_of last.writes ≡ sent

  drain_on :
      (opt : Options) {sent : List A} {first : Pipeline A} (oks : ℕ → Bool) (k n : ℕ)
      (p : Pipeline A)
      → Runs oks first n p
      → Reach opt sent p
      → p.phase ≡ draining
      → length p.channel ≡ k
      → n + suc k ≤ length first.channel + 3
      → Finished oks first sent
  unfolding move
  drain_on opt {sent} {first} oks zero n p go r d c b =
      let last = record (flush (oks n) p) { phase = ended } in
      let here : move (ends (oks n)) p ≡ some last = ground (arith, ap is_draining d) in
      elim (draining_move opt (ends (oks n)) r d refl here) [
        | inl (e, w) ↦ record {
          steps = suc n;
          last = last;
          runs = and_then (ends (oks n)) go refl here;
          soon = omega arith;
          returned = e;
          handed = w;
        }
        | inr (e, w) ↦ absurd (omega (arith, w))
      ]
  drain_on opt {sent} {first} oks (suc k) n p go r d c b = elim (List-cases p.channel) [
    | inl f ↦ absurd (omega (arith, ap length f))
    | inr (s, rest, f) ↦
        let ok = oks n in
        let p' = record p { channel = rest } in
        let here : move (receives ok) p ≡ some (accept ok s p') =
          ground (arith, ap is_draining d, ap is_looping d, receive-cons ok s rest p f) in
        drain_on opt oks k (suc n) (accept ok s p') (and_then (receives ok) go refl here)
          (moved (receives ok) r here) (accept-phase ok s p' ∙ d)
          (ap length (accept-channel ok s p') ∙ omega (arith, ap length f)) (omega arith)
  ]

  -- From every state that the pipeline can reach and in which its goroutine has not returned,
  -- moves of the goroutine, and a call of Stop before them, lead on to its return with no further
  -- send and with every sample that was sent handed to the store, whichever of its writes succeed
  -- or fail; three more moves than samples wait in the channel are enough.
  pub Reach-Finished :
      (opt : Options) {sent : List A} {p : Pipeline A} (oks : ℕ → Bool)
      → Reach opt sent p
      → p.phase ≢ ended
      → Finished oks p sent
  unfolding move
  Reach-Finished opt {sent} {p} oks r live = elim (phase_cases p.phase) [
    | inl at ↦
        let p' = record p { cancelled = true } in
        let q = record p' { phase = draining } in
        let here : move sees_stop p' ≡ some q = ground (arith, ap is_looping at) in
        drain_on opt oks (length q.channel) 2 q
          (and_then sees_stop (and_then stops not_yet tt refl) tt here)
          (moved sees_stop (moved stops r refl) here) refl refl (omega arith)
    | inr (inl at) ↦ drain_on opt oks (length p.channel) 0 p not_yet r at refl (omega arith)
    | inr (inr at) ↦ absurd (live at)
  ]
