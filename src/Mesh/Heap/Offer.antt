-- ===== src/Mesh/Heap/Offer.antt =====
-- What the search does with the heap: an agent goes in with its key, or its key goes down.
use metalwatch.Base.{
  ◌≤◌, ◌<◌, ◌≡◌, ap, String, none, some, str_eq, if◌then◌else◌, Option-cases, inl, inr,
}
use metalwatch.Base.Float.{Float64, IsNonneg}
use metalwatch.Mesh.Heap.{PqItem, IndexHeap, contains, pop}
use metalwatch.Mesh.Heap.Order.{key}
use metalwatch.Mesh.Heap.Queue.{
  IsHeap, held, key_at, push-IsHeap, push-held, update-IsHeap, update-held, pop-IsHeap, pop-held,
  pop-found, pop-Least,
}
use metalwatch.Mesh.Search.{offer}

-- A heap with one key replaced or added.
pub record Offered (x : String) (d : Float64) (h h' : IndexHeap) : Type 0 where
  pub is_heap : IsHeap h'
  pub keys : (y : String) → held h' y ≡ (if str_eq x y then some d else held h y)

-- A heap seen as a map from agents to keys: where a key that is no negative number goes in, or is
-- not above the one held, the outcome is a heap whose map is the old one with that key.
pub offer-Offered :
    (x : String) (d : Float64) (h : IndexHeap)
    → IsHeap h
    → IsNonneg d
    → ((old : Float64) → held h x ≡ some old → d ≤ old)
    → Offered x d h (offer x d h)
unfolding offer contains
offer-Offered x d h q n le = elim (Option-cases (h.pos x)) [
  | inl e ↦
      rw (offer, contains, e)
        (record {
          is_heap = push-IsHeap h q (record { node = x; dist = d }) e n;
          keys = push-held h q (record { node = x; dist = d }) e n;
        })
  | inr (i, e) ↦
      let low = le (key h i) (ap (key_at h) e) in
      rw (offer, contains, e)
        (record { is_heap = update-IsHeap h q x d i e n low; keys = update-held h q x d i e n low })
]

-- What `pop` takes and leaves.
pub record Taken (h : IndexHeap) (it : PqItem) (h' : IndexHeap) : Type 0 where
  pub is_heap : IsHeap h'
  pub was_held : held h it.node ≡ some it.dist
  pub least : (x : String) (d : Float64) → held h x ≡ some d → it.dist ≤ d
  pub keys : (x : String) → held h' x ≡ (if str_eq it.node x then none else held h x)

-- A heap with an item, seen as a map from agents to keys: pop takes an agent with the least key,
-- and leaves a heap whose map is the old one without that agent.
pub pop-Taken : (h : IndexHeap) → IsHeap h → 0 < h.size → Taken h (pop h).0 (pop h).1
pop-Taken h q more = record {
  is_heap = pop-IsHeap h q more;
  was_held = pop-found h q more;
  least = pop-Least h q more;
  keys = pop-held h q more;
}
