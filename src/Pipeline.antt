-- ===== src/Pipeline.antt =====
-- The ingest pipeline, backend/internal/pipeline/pipeline.go: a bounded channel, and one goroutine
-- that gathers batches from it and writes them to the time-series store. What a select picks, the
-- sends of producers and the outcomes of writes are the moves of an interleaving.
pub mod Order
pub mod Stop
use metalwatch.Base.{
  ℕ, zero, suc, ◌*◌, Bool, true, false, ◌&&◌, ◌||◌, Option, none, some, List, [], ◌∷◌, ◌++◌, length,
  ◌==◌, if◌then◌else◌,
}
use metalwatch.Base.Int.{ℤ, pos, ltb_ℤ, leb_ℤ}
use metalwatch.Base.Clock.{Duration, second}

pub record Options : Type 0 where
  pub buffer_size : ℤ
  pub flush_interval : Duration
  pub max_batch : ℤ

-- Where the goroutine stands: in its outer loop, in the loop after the stop, or returned.
pub data Phase : Type 0 where
  looping draining ended : Phase

abbrev pub is_looping : Phase → Bool
is_looping looping = true
is_looping draining = false
is_looping ended = false

abbrev pub is_draining : Phase → Bool
is_draining looping = false
is_draining draining = true
is_draining ended = false

-- `writes` are the calls of the store's `Write` so far, each with whether it succeeded.
pub record Pipeline {ℓ} (A : Type ℓ) : Type ℓ where
  pub opt : Options
  pub channel : List A
  pub batch : List A
  pub cancelled : Bool
  pub phase : Phase
  pub writes : List (List A × Bool)

abbrev positive_or : ℤ → ℤ → ℤ
positive_or d v = if leb_ℤ v (pos 0) then d else v

unfoldable pub normalized : Options → Options
normalized opt = record {
  buffer_size = positive_or (pos 8192) opt.buffer_size;
  flush_interval = positive_or (pos (5 * second)) opt.flush_interval;
  max_batch = positive_or (pos 5000) opt.max_batch;
}

module _ {ℓ} {A : Type ℓ} where
  unfoldable pub new_pipeline : Options → Pipeline A
  new_pipeline opt = record {
    opt = normalized opt;
    channel = [];
    batch = [];
    cancelled = false;
    phase = looping;
    writes = [];
  }

  -- One send of `Ingest`; `none` where it blocks.
  unfoldable pub send : A → Pipeline A → Option (Pipeline A)
  send s p =
      if ltb_ℤ (pos (length p.channel)) p.opt.buffer_size
      then some (record p { channel = p.channel ++ (s ∷ []) })
      else none

  -- `Ingest` while nobody receives: it stops where the channel is full, with the samples left over.
  unfoldable pub ingest : List A → Pipeline A → Pipeline A × List A
  ingest [] p = (p, [])
  ingest (s ∷ ss) p = elim (send s p) [ none ↦ (p, s ∷ ss) | some q ↦ ingest ss q ]

  unfoldable pub flush : Bool → Pipeline A → Pipeline A
  flush ok p =
      if length p.batch == 0
      then p
      else record p { batch = []; writes = p.writes ++ ((p.batch, ok) ∷ []) }

  unfoldable pub accept : Bool → A → Pipeline A → Pipeline A
  accept ok s p =
      let p' = record p { batch = p.batch ++ (s ∷ []) } in
      if leb_ℤ p'.opt.max_batch (pos (length p'.batch)) then flush ok p' else p'

  unfoldable pub receive : Bool → Pipeline A → Option (Pipeline A)
  receive ok p = elim p.channel [
    | [] ↦ none
    | s ∷ rest ↦ some (accept ok s (record p { channel = rest }))
  ]

-- What can happen beside a send: a receive, a tick, a call of `Stop`, the case of `ctx.Done`, and
-- the default case that ends the goroutine. A move that writes says whether the write succeeds.
pub data Move : Type 0 where
  receives ticks ends : Bool → Move
  stops sees_stop : Move

unfoldable pub move {ℓ} : {A : Type ℓ} → Move → Pipeline A → Option (Pipeline A)
move (receives ok) p = if is_looping p.phase || is_draining p.phase then receive ok p else none
move (ticks ok) p = if is_looping p.phase then some (flush ok p) else none
move stops p = some (record p { cancelled = true })
move sees_stop p =
    if is_looping p.phase && p.cancelled then some (record p { phase = draining }) else none
move (ends ok) p =
    if is_draining p.phase && length p.channel == 0
    then some (record (flush ok p) { phase = ended })
    else none
