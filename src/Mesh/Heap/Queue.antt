-- ===== src/Mesh/Heap/Queue.antt =====
-- What the heap's operations do to the keys it holds, and that they keep it a heap.
use metalwatch.Base.{
  ℕ, zero, suc, ◌+◌, ◌-◌, ◌≤◌, ◌<◌, ◌≡◌, refl, sym, ap, ◌∙◌, subst, String, Option, none, some,
  str_eq, eq_iff, eq_refl, ◌==◌, ==_iff, if◌then◌else◌, Bool-cases, Option-cases, inl, inr, arith,
}
use metalwatch.Base.Float.{Float64, IsNonneg}
use metalwatch.Mesh.Heap.{
  PqItem, IndexHeap, map_put, put_at, swap, parent_of, bubble_down, push, pop, update,
}
use metalwatch.Mesh.Heap.Place.{Placed, swap-items, swap-size, swap-Placed}
use metalwatch.Mesh.Heap.Order.{
  Has, Nonneg, key, Ordered, Same, Same-refl, swap-Same, Sifted, UpInv, DownInv, bubble_up-Sifted,
  bubble_down-Sifted,
}

-- The key that the heap holds for a node.
abbrev pub key_at : IndexHeap → Option ℕ → Option Float64
key_at h none = none
key_at h (some i) = some (key h i)

abbrev pub held : IndexHeap → String → Option Float64
held h x = key_at h (h.pos x)

pub record IsHeap (h : IndexHeap) : Type 0 where
  pub in_place : Placed h
  pub nonneg : Nonneg h
  pub ordered : Ordered h

held-Has : (h : IndexHeap) (x : String) (d : Float64) → Placed h → held h x ≡ some d → Has h x d
held-Has h x d p e = elim (Option-cases (h.pos x)) [
  | inl n ↦ absurd (ground (arith, e, n))
  | inr (i, f) ↦ let (l, g) = p.found x i f in (i, l, g, ground (arith, e, f))
]

Has-held : (h : IndexHeap) (x : String) (d : Float64) → Placed h → Has h x d → held h x ≡ some d
Has-held h x d p (i, l, g, k) =
    subst (λ (y : String). held h y ≡ some d) g (ground (arith, p.placed i l, k))

Same-held :
    (h h' : IndexHeap) (x : String) → Placed h → Placed h' → Same h h' → held h' x ≡ held h x
Same-held h h' x p p' s = elim (Option-cases (held h x)) [
  | inr (d, e) ↦ Has-held h' x d p' (s.to x d (held-Has h x d p e)) ∙ sym e
  | inl n ↦ elim (Option-cases (held h' x)) [
    | inl m ↦ m ∙ sym n
    | inr (d, e) ↦ absurd (ground (arith, n, Has-held h x d p (s.from x d (held-Has h' x d p' e))))
  ]
]

Sifted-held : (h h' : IndexHeap) (x : String) → Placed h → Sifted h h' → held h' x ≡ held h x
Sifted-held h h' x p s = Same-held h h' x p s.in_place s.same

Sifted-IsHeap : (h h' : IndexHeap) → Sifted h h' → IsHeap h'
Sifted-IsHeap h h' s = record { in_place = s.in_place; nonneg = s.nonneg; ordered = s.ordered }

module _ (h : IndexHeap) (q : IsHeap h) (it : PqItem) (fresh : h.pos it.node ≡ none) where
  pushed : IndexHeap
  pushed = record {
    size = suc h.size;
    items = put_at h.items h.size it;
    pos = map_put h.pos it.node (some h.size);
  }

  pushed-Placed : Placed pushed
  unfolding pushed
  pushed-Placed = record {
    placed = λ i hi. ground (
      arith,
      ==_iff i h.size,
      eq_refl it.node,
      eq_iff it.node (h.items i).node,
      q.in_place.placed i,
    );
    found = λ x i e. ground (arith, ==_iff i h.size, eq_iff it.node x, q.in_place.found x i);
  }

  pushed-UpInv : UpInv pushed h.size
  unfolding pushed
  pushed-UpInv = record {
    inside = omega arith;
    edges =
        λ k hp hk n. ground (arith, ==_iff k h.size, ==_iff (parent_of k) h.size, q.ordered k hp);
    bridged = λ k hp hk e f. absurd (omega arith);
  }

  push-Sifted : IsNonneg it.dist → Sifted pushed (push it h)
  unfolding push pushed
  push-Sifted n =
      bubble_up-Sifted h.size h.size pushed (omega arith) pushed-Placed
        (λ k hk. ground (arith, ==_iff k h.size, q.nonneg k, n)) pushed-UpInv

  pushed-held : (x : String) → held pushed x ≡ (if str_eq it.node x then some it.dist else held h x)
  unfolding pushed
  pushed-held x = elim (Option-cases (h.pos x)) [
    | inl e ↦ ground (arith, e, ==_iff h.size h.size)
    | inr (i, e) ↦ ground (arith, e, ==_iff h.size h.size, ==_iff i h.size, q.in_place.found x i e)
  ]

  pub push-IsHeap : IsNonneg it.dist → IsHeap (push it h)
  push-IsHeap n = Sifted-IsHeap pushed (push it h) (push-Sifted n)

  pub push-held :
      IsNonneg it.dist
      → (x : String) → held (push it h) x ≡ (if str_eq it.node x then some it.dist else held h x)
  push-held n x = Sifted-held pushed (push it h) x pushed-Placed (push-Sifted n) ∙ pushed-held x

module _ (h : IndexHeap) (q : IsHeap h) (x : String) (d : Float64) (i : ℕ)
    (at : h.pos x ≡ some i) where
  lowered : IndexHeap
  lowered = record h { items = put_at h.items i (record { node = (h.items i).node; dist = d }) }

  lowered-Placed : Placed lowered
  unfolding lowered
  lowered-Placed = record {
    placed = λ k hk. ground (arith, ==_iff k i, q.in_place.placed k, q.in_place.found x i);
    found = λ y k e. ground (arith, ==_iff k i, q.in_place.found y k, q.in_place.found x i);
  }

  lowered-UpInv : d ≤ key h i → UpInv lowered i
  unfolding lowered
  lowered-UpInv le = record {
    inside = (q.in_place.found x i at).0;
    edges = λ k hp hk n. ground (arith, ==_iff k i, ==_iff (parent_of k) i, q.ordered k hp);
    bridged = λ k hp hk e f. ground (
      arith,
      ==_iff k i,
      ==_iff (parent_of i) i,
      q.ordered k hp,
      q.ordered i f,
      ap (key h) e,
      (q.in_place.found x i at).0,
    );
  }

  update-Sifted : IsNonneg d → d ≤ key h i → Sifted lowered (update x d h)
  unfolding update lowered
  update-Sifted n le =
      rw (update, at)
        (bubble_up-Sifted i i lowered (omega arith) lowered-Placed
          (λ k hk. ground (arith, ==_iff k i, q.nonneg k, n)) (lowered-UpInv le))

  lowered-held : (y : String) → held lowered y ≡ (if str_eq x y then some d else held h y)
  unfolding lowered
  lowered-held y = elim (Option-cases (h.pos y)) [
    | inl e ↦ ground (arith, e, eq_iff x y, at)
    | inr (k, e) ↦ ground (
      arith,
      e,
      eq_iff x y,
      at,
      ==_iff k i,
      ==_iff i i,
      q.in_place.found y k e,
      q.in_place.found x i at,
    )
  ]

  pub update-IsHeap : IsNonneg d → d ≤ key h i → IsHeap (update x d h)
  update-IsHeap n le = Sifted-IsHeap lowered (update x d h) (update-Sifted n le)

  pub update-held :
      IsNonneg d
      → d ≤ key h i
      → (y : String) → held (update x d h) y ≡ (if str_eq x y then some d else held h y)
  update-held n le y =
      Sifted-held lowered (update x d h) y lowered-Placed (update-Sifted n le) ∙ lowered-held y

root-Least : (h : IndexHeap) → Ordered h → (left k : ℕ) → k ≤ left → k < h.size → key h 0 ≤ key h k
root-Least h o zero k le hk = ground (arith, ap (key h))
root-Least h o (suc left) zero le hk = omega arith
root-Least h o (suc left) (suc k) le hk = omega (
  arith,
  o (suc k) (omega arith) hk,
  root-Least h o left (parent_of (suc k)) (omega arith) (omega arith),
)

module _ (h : IndexHeap) (q : IsHeap h) (some_held : 0 < h.size) where
  last : ℕ
  last = h.size - 1

  rotated : IndexHeap
  rotated = swap 0 last h

  popped : IndexHeap
  popped = record {
    size = last;
    items = rotated.items;
    pos = map_put rotated.pos (rotated.items last).node none;
  }

  pub pop-root : (pop h).0 ≡ h.items 0
  unfolding pop
  pop-root =
      swap-items h 0 (h.size - 1) (h.size - 1) ∙ ground (arith, ==_iff (h.size - 1) (h.size - 1))

  rotated-Placed : Placed rotated
  unfolding rotated last
  rotated-Placed = swap-Placed h 0 last q.in_place some_held (omega arith)

  rotated-size : rotated.size ≡ h.size
  unfolding rotated
  rotated-size = swap-size h 0 last

  popped-Placed : Placed popped
  unfolding popped last
  popped-Placed =
      let p = rotated-Placed in
      let x = (rotated.items (h.size - 1)).node in
      record {
        placed = λ i hi. ground (
          arith,
          rotated-size,
          eq_iff x (rotated.items i).node,
          p.placed i,
          p.placed (h.size - 1),
          ap rotated.pos,
        );
        found = λ y i e. ground (arith, rotated-size, eq_iff x y, p.found y i);
      }

  popped-key : (k : ℕ) → k < last → key popped k ≡ (if k == 0 then key h last else key h k)
  unfolding popped rotated last
  popped-key k hk = ground (arith, swap-items h 0 (h.size - 1) k, ==_iff k (h.size - 1))

  popped-DownInv : DownInv popped 0
  unfolding popped last
  popped-DownInv = record {
    edges = λ k hp hk n. ground (
      arith,
      popped-key k,
      popped-key (parent_of k),
      q.ordered k hp,
      ==_iff k 0,
      ==_iff (parent_of k) 0,
    );
    bridged = λ k hp hk e f. absurd (omega arith);
  }

  popped-Nonneg : Nonneg popped
  unfolding popped last
  popped-Nonneg k hk = ground (arith, popped-key k, q.nonneg k, q.nonneg (h.size - 1))

  popped-full : (m : ℕ) → suc m ≡ last → popped.size ≤ 0 + suc m
  unfolding popped
  popped-full m e = omega arith

  popped-some : (m : ℕ) → suc m ≡ last → 0 < popped.size
  unfolding popped
  popped-some m e = omega arith

  popped-Ordered : last ≡ 0 → Ordered popped
  unfolding popped last
  popped-Ordered e k hp hk = absurd (omega arith)

  sunk : (left : ℕ) → left ≡ last → Sifted popped (bubble_down left 0 popped)
  unfolding bubble_down
  sunk zero e = record {
    same = Same-refl popped;
    in_place = popped-Placed;
    nonneg = popped-Nonneg;
    ordered = popped-Ordered (sym e);
  }
  sunk (suc m) e =
      bubble_down-Sifted (suc m) 0 popped (popped-full m e) (popped-some m e) popped-Placed
        popped-Nonneg popped-DownInv

  pop-Sifted : Sifted popped (pop h).1
  unfolding pop popped rotated last
  pop-Sifted = sunk last refl

  rotated-root : (rotated.items last).node ≡ (h.items 0).node
  unfolding rotated last
  rotated-root =
      ground (arith, swap-items h 0 (h.size - 1) (h.size - 1), ==_iff (h.size - 1) (h.size - 1))

  popped-key_at : (o : Option ℕ) → key_at popped o ≡ key_at rotated o
  unfolding popped
  popped-key_at none = refl
  popped-key_at (some i) = refl

  popped-held :
      (x : String) → held popped x ≡ (if str_eq (h.items 0).node x then none else held h x)
  unfolding popped rotated last
  popped-held x =
      let same =
        Same-held h rotated x q.in_place rotated-Placed
          (swap-Same h 0 last some_held (omega arith)) in
      elim (Bool-cases (str_eq (h.items 0).node x)) [
        | inl e ↦ rw (rotated-root, e) refl
        | inr e ↦ rw (rotated-root, e) (popped-key_at (rotated.pos x) ∙ same)
      ]

  pub pop-IsHeap : IsHeap (pop h).1
  pop-IsHeap = Sifted-IsHeap popped (pop h).1 pop-Sifted

  pub pop-held :
      (x : String) → held (pop h).1 x ≡ (if str_eq (pop h).0.node x then none else held h x)
  pop-held x =
      Sifted-held popped (pop h).1 x popped-Placed pop-Sifted
      ∙ popped-held x
      ∙ ap (λ (it : PqItem). if str_eq it.node x then none else held h x) (sym pop-root)

  pub pop-found : held h (pop h).0.node ≡ some (pop h).0.dist
  pop-found =
      subst (λ (it : PqItem). held h it.node ≡ some it.dist) (sym pop-root)
        (Has-held h (h.items 0).node (h.items 0).dist q.in_place (0, some_held, refl, refl))

  pub pop-Least : (x : String) (d : Float64) → held h x ≡ some d → (pop h).0.dist ≤ d
  pop-Least x d e =
      let (i, l, g, k) = held-Has h x d q.in_place e in
      ground (
        arith,
        pop-root,
        ap (λ (it : PqItem). it.dist) pop-root,
        root-Least h q.ordered i i (omega arith) l,
        k,
      )

-- An empty heap holds nothing, and only an empty one.
pub empty-held : (h : IndexHeap) → IsHeap h → h.size ≡ 0 → (x : String) → held h x ≡ none
empty-held h q e x = elim (Option-cases (h.pos x)) [
  | inl n ↦ rw n refl
  | inr (i, f) ↦ absurd (omega (arith, (q.in_place.found x i f).0))
]
