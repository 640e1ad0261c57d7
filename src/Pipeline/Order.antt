-- ===== src/Pipeline/Order.antt =====
-- What becomes of the samples: every one that was sent is in a write, in the batch or in the channel.
use mathlib.Core.List.{append_assoc, append-nil}
use mathlib.Core.Option.{some-injective, none-ne-some}
use metalwatch.Base.{
  List-cases, ℕ, ◌≤◌, ◌<◌, ◌≡◌, refl, sym, ap, ◌∙◌, subst, Bool, true, ◌&&◌, ◌||◌, none, some, List,
  [], ◌∷◌, ◌++◌, All, All-append, length, length-append, arith, guarded, ◌==◌, ==_iff, Bool-cases,
  Option-cases, inl, inr,
}
use metalwatch.Base.Int.{pos, ltb_ℤ, leb_ℤ, pos_part}
use metalwatch.Pipeline.{
  ingest, Options, draining, ended, is_looping, is_draining, Pipeline, normalized, new_pipeline,
  send, flush, accept, receive, Move, receives, ticks, ends, stops, sees_stop, move,
}

normalized_positive :
    (opt : Options)
    → (0 < pos_part (normalized opt).max_batch) × (0 < pos_part (normalized opt).buffer_size)
unfolding normalized
normalized_positive opt = (ground arith, ground arith)

module _ {ℓ} {A : Type ℓ} where
  -- What was handed to the store, in order.
  abbrev pub samples_of : List (List A × Bool) → List A
  samples_of [] = []
  samples_of ((batch, ok) ∷ ws) = batch ++ samples_of ws

  -- The samples of the writes, then the batch, then the channel.
  abbrev pub trail : Pipeline A → List A
  trail p = samples_of p.writes ++ (p.batch ++ p.channel)

  samples_of-snoc :
      (ws : List (List A × Bool)) (batch : List A) (ok : Bool) (rest : List A)
      → samples_of (ws ++ ((batch, ok) ∷ [])) ++ rest ≡ samples_of ws ++ (batch ++ rest)
  samples_of-snoc [] batch ok rest = ap (λ (xs : List A). xs ++ rest) (append-nil batch)
  samples_of-snoc ((b, k) ∷ ws) batch ok rest =
      append_assoc b (samples_of (ws ++ ((batch, ok) ∷ []))) rest
      ∙ ap (◌++◌ b) (samples_of-snoc ws batch ok rest)
      ∙ sym (append_assoc b (samples_of ws) (batch ++ rest))

  flush-trail : (ok : Bool) (p : Pipeline A) → trail (flush ok p) ≡ trail p
  unfolding flush
  flush-trail ok p = elim (Bool-cases (length p.batch == 0)) [
    | inl e ↦ rw e refl
    | inr e ↦ rw e (samples_of-snoc p.writes p.batch ok p.channel)
  ]

  accept-trail :
      (ok : Bool) (s : A) (rest : List A) (p : Pipeline A)
      → p.channel ≡ s ∷ rest
      → trail (accept ok s (record p { channel = rest })) ≡ trail p
  unfolding accept
  accept-trail ok s rest p e =
      let q = record p { channel = rest; batch = p.batch ++ (s ∷ []) } in
      let same : trail q ≡ trail p =
        ap (◌++◌ (samples_of p.writes))
          (append_assoc p.batch (s ∷ []) rest ∙ ap (◌++◌ p.batch) (sym e)) in
      elim (Bool-cases (leb_ℤ p.opt.max_batch (pos (length (p.batch ++ (s ∷ [])))))) [
        | inl f ↦ rw f (flush-trail ok q ∙ same)
        | inr f ↦ rw f same
      ]

  -- No write is empty or above the batch size, and the batch and the channel are within bounds.
  pub record Bounded (p : Pipeline A) : Type ℓ where
    pub sizes :
        All (λ (w : List A × Bool). 0 < length w.0 × length w.0 ≤ pos_part p.opt.max_batch) p.writes
    pub batch_room : length p.batch < pos_part p.opt.max_batch
    pub channel_room : length p.channel ≤ pos_part p.opt.buffer_size
    pub ended_empty : p.phase ≡ ended → length p.batch ≡ 0

  -- The goroutine and the producers on a new pipeline, with the samples sent so far.
  pub data Reach (opt : Options) : List A → Pipeline A → Type ℓ where
    start : Reach opt [] (new_pipeline opt)
    sent_one :
        {sent : List A} {p q : Pipeline A} (s : A)
        → Reach opt sent p
        → send s p ≡ some q
        → Reach opt (sent ++ (s ∷ [])) q
    moved :
        {sent : List A} {p q : Pipeline A} (m : Move)
        → Reach opt sent p
        → move m p ≡ some q
        → Reach opt sent q

  send-trail : (s : A) (p q : Pipeline A) → send s p ≡ some q → trail q ≡ trail p ++ (s ∷ [])
  unfolding send
  send-trail s p q e =
      let sent = record p { channel = p.channel ++ (s ∷ []) } in
      let same : trail sent ≡ trail p ++ (s ∷ []) = sym (
        append_assoc (samples_of p.writes) (p.batch ++ p.channel) (s ∷ [])
        ∙ ap (◌++◌ (samples_of p.writes)) (append_assoc p.batch p.channel (s ∷ []))) in
      ground (arith, same)

  receive-empty : (ok : Bool) (p : Pipeline A) → p.channel ≡ [] → receive ok p ≡ none
  unfolding receive
  receive-empty ok p f = rw f refl

  pub receive-cons :
      (ok : Bool) (s : A) (rest : List A) (p : Pipeline A)
      → p.channel ≡ s ∷ rest
      → receive ok p ≡ some (accept ok s (record p { channel = rest }))
  unfolding receive
  receive-cons ok s rest p f = rw f refl

  -- A receive takes the head of the channel.
  pub received :
      (ok : Bool) (p q : Pipeline A)
      → receive ok p ≡ some q
      → (s : A) × (rest : List A) × (p.channel ≡ s ∷ rest)
        × (q ≡ accept ok s (record p { channel = rest }))
  received ok p q e = elim (List-cases p.channel) [
    | inl f ↦ absurd (none-ne-some q (sym (receive-empty ok p f) ∙ e))
    | inr (s, rest, f) ↦ (
      s,
      rest,
      f,
      some-injective q (accept ok s (record p { channel = rest }))
          (sym e ∙ receive-cons ok s rest p f),
    )
  ]

  receive-trail : (ok : Bool) (p q : Pipeline A) → receive ok p ≡ some q → trail q ≡ trail p
  receive-trail ok p q e =
      let (s, rest, f, g) = received ok p q e in ap trail g ∙ accept-trail ok s rest p f

  move-trail : (m : Move) (p q : Pipeline A) → move m p ≡ some q → trail q ≡ trail p
  unfolding move
  move-trail (receives ok) p q e = ground (arith, receive-trail ok p q)
  move-trail (ticks ok) p q e = ground (arith, flush-trail ok p)
  move-trail stops p q e = ground arith
  move-trail sees_stop p q e = ground arith
  move-trail (ends ok) p q e = ground (arith, flush-trail ok p)

  flush-opt : (ok : Bool) (p : Pipeline A) → (flush ok p).opt ≡ p.opt
  unfolding flush
  flush-opt ok p = ground arith

  -- The writes of a batch size.
  abbrev Sized : ℕ → List (List A × Bool) → Type 0
  Sized n = All (λ (w : List A × Bool). 0 < length w.0 × length w.0 ≤ n)

  flush-Bounded :
      (ok : Bool) (p : Pipeline A)
      → Sized (pos_part p.opt.max_batch) p.writes
      → 0 < pos_part p.opt.max_batch
      → length p.batch ≤ pos_part p.opt.max_batch
      → length p.channel ≤ pos_part p.opt.buffer_size
      → Bounded (flush ok p)
  unfolding flush
  flush-Bounded ok p w h b c = elim (Bool-cases (length p.batch == 0)) [
    | inl e ↦
        let none_held = (==_iff (length p.batch) 0).0 e in
        let room : length p.batch < pos_part p.opt.max_batch = omega arith in
        rw e
          (record { sizes = w; batch_room = room; channel_room = c; ended_empty = λ _. none_held })
    | inr e ↦
        let some_held : 0 < length p.batch = ground arith in
        rw e (record {
          sizes = All-append _ p.writes ((p.batch, ok) ∷ []) w ((some_held, b), tt);
          batch_room = h;
          channel_room = c;
          ended_empty = λ _. refl;
        })
  ]

  accept-Bounded :
      (ok : Bool) (s : A) (p : Pipeline A)
      → Bounded p
      → (is_looping p.phase || is_draining p.phase) ≡ true
      → Bounded (accept ok s p)
  unfolding accept
  accept-Bounded ok s p h live =
      let more = length-append p.batch (s ∷ []) in
      let room = h.batch_room in
      let q = record p { batch = p.batch ++ (s ∷ []) } in
      elim (Bool-cases (leb_ℤ p.opt.max_batch (pos (length (p.batch ++ (s ∷ [])))))) [
        | inl e ↦ rw e (flush-Bounded ok q h.sizes (omega arith) (omega arith) h.channel_room)
        | inr e ↦
            let below : length (p.batch ++ (s ∷ [])) < pos_part p.opt.max_batch = ground arith in
            rw e (record {
              sizes = h.sizes;
              batch_room = below;
              channel_room = h.channel_room;
              ended_empty =
                  λ at_end. ground (arith, live, ap is_looping at_end, ap is_draining at_end);
            })
      ]

  pub flush-empties : (ok : Bool) (p : Pipeline A) → length (flush ok p).batch ≡ 0
  unfolding flush
  flush-empties ok p = ground arith

  move-Bounded : (m : Move) (p q : Pipeline A) → Bounded p → move m p ≡ some q → Bounded q
  unfolding move
  move-Bounded (receives ok) p q h e =
      let (live, r) = guarded (is_looping p.phase || is_draining p.phase) (receive ok p) q e in
      let (s, rest, f, g) = received ok p q r in
      let shorter = ap length f in
      let room : length rest ≤ pos_part p.opt.buffer_size = omega (arith, h.channel_room) in
      subst Bounded (sym g) (
        accept-Bounded ok s (record p { channel = rest })
          (record {
            sizes = h.sizes;
            batch_room = h.batch_room;
            channel_room = room;
            ended_empty = h.ended_empty;
          })
          live)
  move-Bounded (ticks ok) p q h e =
      let (live, r) = guarded (is_looping p.phase) (some (flush ok p)) q e in
      subst Bounded (some-injective (flush ok p) q r) (
        flush-Bounded ok p h.sizes (omega (arith, h.batch_room)) (omega (arith, h.batch_room))
          h.channel_room)
  move-Bounded stops p q h e =
      subst Bounded (some-injective (record p { cancelled = true }) q e) (record {
        sizes = h.sizes;
        batch_room = h.batch_room;
        channel_room = h.channel_room;
        ended_empty = h.ended_empty;
      })
  move-Bounded sees_stop p q h e =
      let (live, r) =
        guarded (is_looping p.phase && p.cancelled) (some (record p { phase = draining })) q e in
      subst Bounded (some-injective (record p { phase = draining }) q r) (record {
        sizes = h.sizes;
        batch_room = h.batch_room;
        channel_room = h.channel_room;
        ended_empty = λ same. ground (arith, ap is_draining same);
      })
  move-Bounded (ends ok) p q h e =
      let r =
        (guarded (is_draining p.phase && length p.channel == 0)
          (some (record (flush ok p) { phase = ended })) q e).1 in
      let k =
        flush-Bounded ok p h.sizes (omega (arith, h.batch_room)) (omega (arith, h.batch_room))
          h.channel_room in
      subst Bounded (some-injective (record (flush ok p) { phase = ended }) q r) (record {
        sizes = k.sizes;
        batch_room = k.batch_room;
        channel_room = k.channel_room;
        ended_empty = λ _. flush-empties ok p;
      })

  send-Bounded : (s : A) (p q : Pipeline A) → Bounded p → send s p ≡ some q → Bounded q
  unfolding send
  send-Bounded s p q h e =
      let sent = record p { channel = p.channel ++ (s ∷ []) } in
      let (room, r) = guarded (ltb_ℤ (pos (length p.channel)) p.opt.buffer_size) (some sent) q e in
      let longer = length-append p.channel (s ∷ []) in
      let fits : length (p.channel ++ (s ∷ [])) ≤ pos_part p.opt.buffer_size = ground arith in
      subst Bounded (some-injective sent q r) (record {
        sizes = h.sizes;
        batch_room = h.batch_room;
        channel_room = fits;
        ended_empty = h.ended_empty;
      })

  -- What holds of every state that producers, ticks, writes and `Stop` lead to.
  pub record Kept (opt : Options) (sent : List A) (p : Pipeline A) : Type ℓ where
    pub ordered : trail p ≡ sent
    pub bounded : Bounded p

  -- In every state of the pipeline that sends, receives, ticks, writes and Stop lead to, the
  -- samples of the writes, then the batch, then the channel are exactly the samples sent, in
  -- order; no write is empty or above the batch size, batch and channel keep their bounds, and a
  -- goroutine that has returned holds no batch.
  pub Reach-Kept :
      (opt : Options) {sent : List A} {p : Pipeline A} → Reach opt sent p → Kept opt sent p
  unfolding new_pipeline
  Reach-Kept opt start = record {
    ordered = refl;
    bounded = record {
      sizes = tt;
      batch_room = (normalized_positive opt).0;
      channel_room = omega arith;
      ended_empty = λ _. refl;
    };
  }
  Reach-Kept opt (sent_one {sent} {p} {q} s r e) =
      let h = Reach-Kept opt r in
      record {
        ordered = send-trail s p q e ∙ ap (λ (xs : List A). xs ++ (s ∷ [])) h.ordered;
        bounded = send-Bounded s p q h.bounded e;
      }
  Reach-Kept opt (moved {sent} {p} {q} m r e) =
      let h = Reach-Kept opt r in
      record { ordered = move-trail m p q e ∙ h.ordered; bounded = move-Bounded m p q h.bounded e }

  -- `Ingest` sends the samples it is given from the first on, up to where it blocks.
  pub ingest-Reach :
      (opt : Options) (ss : List A) {sent : List A} {p : Pipeline A}
      → Reach opt sent p
      → (taken : List A) × Reach opt (sent ++ taken) (ingest ss p).0
        × (taken ++ (ingest ss p).1 ≡ ss)
  unfolding ingest
  ingest-Reach opt [] {sent} {p} r =
      ([], subst (λ (xs : List A). Reach opt xs p) (sym (append-nil sent)) r, refl)
  ingest-Reach opt (s ∷ ss) {sent} {p} r = elim (Option-cases (send s p)) [
    | inl e ↦
        rw (e, ingest) ([], subst (λ (xs : List A). Reach opt xs p) (sym (append-nil sent)) r, refl)
    | inr (q, e) ↦
        let (taken, r', all) = ingest-Reach opt ss (sent_one s r e) in
        rw (e, ingest)
          (
            s ∷ taken,
            subst (λ (xs : List A). Reach opt xs (ingest ss q).0) (append_assoc sent (s ∷ []) taken)
                r',
            ap (◌∷◌ s) all,
          )
  ]
