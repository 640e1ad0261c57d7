-- ===== src/Mesh/Heap/Place.antt =====
-- Every item stands at the place that the index gives for its node.
use metalwatch.Base.{
  ℕ, ◌<◌, ◌≡◌, refl, ap, String, some, str_eq, eq_iff, eq_refl, ◌==◌, ==_iff, if◌then◌else◌,
  Bool-cases, inl, inr, arith,
}
use metalwatch.Mesh.Heap.{IndexHeap, swap}

pub record Placed (h : IndexHeap) : Type 0 where
  pub placed : (i : ℕ) → i < h.size → h.pos (h.items i).node ≡ some i
  pub found : (x : String) (i : ℕ) → h.pos x ≡ some i → (i < h.size) × ((h.items i).node ≡ x)

-- Two items are two nodes.
node_injective :
    (h : IndexHeap) (i j : ℕ)
    → Placed h
    → i < h.size
    → j < h.size
    → (h.items i).node ≡ (h.items j).node
    → i ≡ j
node_injective h i j p hi hj e = ground (arith, p.placed i hi, p.placed j hj, ap h.pos e)

pub swap-items :
    (h : IndexHeap) (i j k : ℕ)
    → (swap i j h).items k ≡ (if k == j then h.items i else if k == i then h.items j else h.items k)
unfolding swap
swap-items h i j k = ground (arith, ==_iff j k, ==_iff i k)

pub swap-pos :
    (h : IndexHeap) (i j : ℕ) (x : String)
    → Placed h
    → i < h.size
    → j < h.size
    → (swap i j h).pos x ≡ (
        if str_eq (h.items i).node x
        then some j
        else if str_eq (h.items j).node x
        then some i
        else h.pos x)
unfolding swap
swap-pos h i j x p hi hj = elim (Bool-cases (i == j)) [
  | inl e ↦ ground (arith, e, ap h.items ((==_iff i j).0 e))
  | inr e ↦ ground (
    arith,
    e,
    node_injective h i j p hi hj,
    eq_iff (h.items i).node (h.items j).node,
    eq_iff (h.items i).node x,
    eq_iff (h.items j).node x,
  )
]

pub swap-size : (h : IndexHeap) (i j : ℕ) → (swap i j h).size ≡ h.size
unfolding swap
swap-size h i j = refl

pub swap-Placed :
    (h : IndexHeap) (i j : ℕ) → Placed h → i < h.size → j < h.size → Placed (swap i j h)
swap-Placed h i j p hi hj = record {
  placed = λ k hk'.
      let hk : k < h.size = omega (arith, swap-size h i j) in
      elim (Bool-cases (k == j)) [
        | inl e ↦
            let x = (h.items i).node in
            rw (swap-items h i j k, e)
              (ground (arith, swap-pos h i j x p hi hj, eq_refl x, (==_iff k j).0 e))
        | inr e ↦ elim (Bool-cases (k == i)) [
          | inl f ↦
              let x = (h.items j).node in
              rw (swap-items h i j k, e, f)
                (ground (
                  arith,
                  swap-pos h i j x p hi hj,
                  eq_refl x,
                  eq_iff (h.items i).node x,
                  node_injective h i j p hi hj,
                  (==_iff k i).0 f,
                  e,
                  ==_iff k j,
                ))
          | inr f ↦
              let x = (h.items k).node in
              rw (swap-items h i j k, e, f)
                (ground (
                  arith,
                  swap-pos h i j x p hi hj,
                  p.placed k hk,
                  eq_iff (h.items i).node x,
                  eq_iff (h.items j).node x,
                  node_injective h i k p hi hk,
                  node_injective h j k p hj hk,
                  f,
                  e,
                  ==_iff k j,
                  ==_iff k i,
                ))
        ]
      ];
  found = λ x k e. ground (
    arith,
    swap-size h i j,
    swap-pos h i j x p hi hj,
    swap-items h i j k,
    p.found x k,
    eq_iff (h.items i).node x,
    eq_iff (h.items j).node x,
    node_injective h i j p hi hj,
    ==_iff k j,
    ==_iff k i,
    hi,
    hj,
  );
}
