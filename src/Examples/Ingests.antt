-- ===== src/Examples/Ingests.antt =====
-- A pipeline with room for two samples and batches of two.
use metalwatch.Base.{ℕ, ◌+◌, ◌≡◌, ◌⊎◌, refl, Bool, zero, suc, true, false, List, [], ◌∷◌, ap, arith}
use metalwatch.Base.Int.{pos}
use metalwatch.Pipeline.{
  Options, Pipeline, looping, draining, ended, is_looping, normalized, new_pipeline, send, ingest,
  flush, accept, receive, receives, stops, sees_stop, move,
}
use metalwatch.Pipeline.Order.{Reach, start, sent_one, moved, Kept, Reach-Kept}
use metalwatch.Pipeline.Stop.{Finished, Reach-Finished, draining_move}

abbrev small : Options
small = record { buffer_size = pos 2; flush_interval = pos 0; max_batch = pos 2 }

abbrev three : List ℕ
three = 7 ∷ 8 ∷ 9 ∷ []

-- Two samples are sent, one is received, a third one is sent.
abbrev half_way : Pipeline ℕ
half_way = record {
  opt = record { buffer_size = pos 2; flush_interval = pos 5000000000; max_batch = pos 2 };
  channel = 8 ∷ 9 ∷ [];
  batch = 7 ∷ [];
  cancelled = false;
  phase = looping;
  writes = [];
}

half_way_Reach : Reach small (7 ∷ 8 ∷ 9 ∷ []) half_way
unfolding new_pipeline normalized send move receive accept flush
half_way_Reach =
    sent_one 9 (moved (receives true) (sent_one 8 (sent_one 7 start refl) refl) refl) refl

Reach-Kept_example : Kept small three half_way
Reach-Kept_example = Reach-Kept small half_way_Reach

-- The outcomes of writes, by the number of the move: the first is a failure.
abbrev first_fails : ℕ → Bool
first_fails zero = false
first_fails (suc n) = true

Reach-Finished_example : Finished first_fails half_way three
Reach-Finished_example =
    Reach-Finished small first_fails half_way_Reach (λ same. ground (arith, ap is_looping same))

-- A third send waits.
third_waits : (ingest three (new_pipeline small)).1 ≡ (9 ∷ [])
unfolding new_pipeline normalized ingest send
third_waits = refl

abbrev at_end : Pipeline ℕ
at_end = record half_way { cancelled = true; phase = draining }

at_end_Reach : Reach small (7 ∷ 8 ∷ 9 ∷ []) at_end
unfolding move
at_end_Reach = moved sees_stop (moved stops half_way_Reach refl) refl

draining_move_example :
    ((draining ≡ ended) × ((7 ∷ 8 ∷ []) ≡ three)) ⊎ ((draining ≡ draining) × (1 + 1 ≡ 2))
unfolding move receive accept flush
draining_move_example = draining_move small (receives true) at_end_Reach refl refl refl
