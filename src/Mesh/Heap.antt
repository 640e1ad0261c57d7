-- ===== src/Mesh/Heap.antt =====
-- The indexed heap of the mesh engine, backend/internal/engine/mesh_engine.go: a slice of items with
-- the place of each node. The slice is its length and a function; nothing reads past the length.
pub mod Place
pub mod Order
pub mod Queue
pub mod Offer
use metalwatch.Base.{
  ℕ, zero, suc, ◌+◌, ◌-◌, ◌*◌, ◌/◌, String, Bool, true, false, ◌&&◌, Option, none, some, ltb,
  str_eq, ◌==◌, if◌then◌else◌,
}
use metalwatch.Base.Float.{Float64, flt, fle}

pub record PqItem : Type 0 where
  pub node : String
  pub dist : Float64

pub record IndexHeap : Type 0 where
  pub size : ℕ
  pub items : ℕ → PqItem
  pub pos : String → Option ℕ

-- A write to a Go map, as a function.
abbrev pub map_put {ℓ} : {A : Type ℓ} → (String → A) → String → A → String → A
map_put m key new x = if str_eq key x then new else m x

abbrev pub put_at : (ℕ → PqItem) → ℕ → PqItem → ℕ → PqItem
put_at items i it k = if i == k then it else items k

unfoldable pub contains : String → IndexHeap → Bool
contains node h = elim (h.pos node) [ none ↦ false | some i ↦ true ]

unfoldable pub swap : ℕ → ℕ → IndexHeap → IndexHeap
swap i j h =
    let items = put_at (put_at h.items i (h.items j)) j (h.items i) in
    record h {
      items = items;
      pos = map_put (map_put h.pos (items i).node (some i)) (items j).node (some j);
    }

abbrev pub parent_of : ℕ → ℕ
parent_of i = (i - 1) / 2

-- An index goes up at most as often as it is high.
unfoldable pub bubble_up : ℕ → ℕ → IndexHeap → IndexHeap
unfolding swap
bubble_up zero i h = h
bubble_up (suc left) i h =
    let risen = bubble_up left (parent_of i) (swap i (parent_of i) h) in
    if i == 0 then h else if fle (h.items (parent_of i)).dist (h.items i).dist then h else risen

-- The smaller child, where it is smaller than the item itself.
unfoldable pub smallest_of : ℕ → IndexHeap → ℕ
smallest_of i h =
    let l = 2 * i + 1 in
    let r = 2 * i + 2 in
    let s = if ltb l h.size && flt (h.items l).dist (h.items i).dist then l else i in
    if ltb r h.size && flt (h.items r).dist (h.items s).dist then r else s

-- An index goes down at most as often as there are items.
unfoldable pub bubble_down : ℕ → ℕ → IndexHeap → IndexHeap
unfolding smallest_of swap
bubble_down zero i h = h
bubble_down (suc left) i h =
    let s = smallest_of i h in
    let sunk = bubble_down left s (swap i s h) in if s == i then h else sunk

unfoldable pub push : PqItem → IndexHeap → IndexHeap
unfolding bubble_up
push it h = bubble_up h.size h.size (record {
  size = suc h.size;
  items = put_at h.items h.size it;
  pos = map_put h.pos it.node (some h.size);
})

-- Only where the heap has an item.
unfoldable pub pop : IndexHeap → PqItem × IndexHeap
unfolding bubble_down swap
pop h =
    let n = h.size - 1 in
    let h' = swap 0 n h in
    let it = h'.items n in
    (it, bubble_down n 0 (record { size = n; items = h'.items; pos = map_put h'.pos it.node none }))

unfoldable pub update : String → Float64 → IndexHeap → IndexHeap
unfolding bubble_up
update node dist h = elim (h.pos node) [
  | none ↦ h
  | some i ↦
      bubble_up i i
        (record h { items = put_at h.items i (record { node = (h.items i).node; dist = dist }) })
]
