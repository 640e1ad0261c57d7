-- ===== src/Examples/Queues.antt =====
-- A spool of three entries, of which one cannot be read.
use metalwatch.Base.{
  ℕ, ◌≡◌, refl, true, false, ◌&&◌, not, some, List, [], ◌∷◌, ◌++◌, take, arith, All, if◌then◌else◌,
}
use metalwatch.Base.Int.{pos}
use metalwatch.Base.Bytes.{Bytes, bytes_lt}
use metalwatch.Spool.Store.{Entry}
use metalwatch.Spool.{Spool, make_key, stamp, enqueue, peek}
use metalwatch.Spool.Enqueue.{Issued, make_key-order, enqueue-inserts}
use metalwatch.Spool.Replay.{backlog, peek-backlog}
use metalwatch.Examples.Memory.{memory, numbers}

abbrev entry : ℕ → ℕ → Bytes → Entry
entry ts seq v = record { key = make_key ts seq; value = v }

abbrev pub queue : Spool memory numbers
queue = record {
  bucket = record {
    entries = entry 5 1 (5 ∷ []) ∷ entry 7 2 [] ∷ entry 9 3 (9 ∷ []) ∷ [];
    sorted = (
      make_key-order 5 1 7 2 (omega arith) (omega arith) (omega arith) (omega arith),
      (make_key-order 7 2 9 3 (omega arith) (omega arith) (omega arith) (omega arith), (tt, tt)),
    );
    sequence = 3;
  };
  max_entries = pos 2;
}

enqueue-inserts_example :
    let t = (enqueue memory numbers queue (some 6) 100 true).0 in
    let new = make_key (stamp memory numbers 6 100) 4 in
    (before : List Entry) × (after : List Entry) × (queue.bucket.entries ≡ before ++ after)
    × (t.bucket.entries ≡ before ++ record { key = new; value = 6 ∷ [] } ∷ after)
    × All (λ (e : Entry). bytes_lt e.key new ≡ true) before
    × (numbers.unmarshal (6 ∷ []) ≡ some 6)
    × All (Issued t.bucket.sequence) t.bucket.entries
unfolding stamp
enqueue-inserts_example =
    enqueue-inserts memory numbers queue 6 100 (6 ∷ []) refl (omega arith) (omega arith) (
      (5, 1, refl, omega arith, omega arith),
      ((7, 2, refl, omega arith, omega arith), ((9, 3, refl, omega arith, omega arith), tt)),
    )

peek-backlog_example :
    let (t, out, done) = peek memory numbers queue 2 true true in
    (backlog memory numbers t ≡ backlog memory numbers queue)
    × (out ≡ (if true then take 2 (backlog memory numbers queue) else []))
    × ((true && true && not done) ≡ false)
peek-backlog_example = peek-backlog memory numbers queue 2 true true
