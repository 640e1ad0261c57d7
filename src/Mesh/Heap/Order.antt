-- ===== src/Mesh/Heap/Order.antt =====
-- The heap order, and that moving an item up or down restores it.
use metalwatch.Base.{
  ℕ, zero, suc, ◌+◌, ◌*◌, ◌≤◌, ◌<◌, ◌≡◌, ◌≢◌, refl, sym, ap, ◌∙◌, subst, String, Bool, false, ◌&&◌,
  ltb, ◌==◌, ==_iff, if◌then◌else◌, Bool-cases, inl, inr, ◌⊎◌, arith,
}
use metalwatch.Base.Float.{Float64, flt, fle, IsNonneg, flt-ltb, fle-leb}
use metalwatch.Mesh.Heap.{IndexHeap, swap, parent_of, bubble_up, smallest_of, bubble_down}
use metalwatch.Mesh.Heap.Place.{Placed, swap-items, swap-size, swap-Placed}

-- An item with this node and key is in the heap.
abbrev pub Has : IndexHeap → String → Float64 → Type 0
Has h x d = (i : ℕ) × (i < h.size) × ((h.items i).node ≡ x) × ((h.items i).dist ≡ d)

abbrev pub Nonneg : IndexHeap → Type 0
Nonneg h = (i : ℕ) → i < h.size → IsNonneg (h.items i).dist

abbrev pub key : IndexHeap → ℕ → Float64
key h i = (h.items i).dist

abbrev pub Ordered : IndexHeap → Type 0
Ordered h = (k : ℕ) → 0 < k → k < h.size → key h (parent_of k) ≤ key h k

-- A heap with the same items.
pub record Same (h h' : IndexHeap) : Type 0 where
  pub size : h'.size ≡ h.size
  pub to : (x : String) (d : Float64) → Has h x d → Has h' x d
  pub from : (x : String) (d : Float64) → Has h' x d → Has h x d

pub Same-refl : (h : IndexHeap) → Same h h
Same-refl h = record { size = refl; to = λ x d t. t; from = λ x d t. t }

Same-trans : {f g h : IndexHeap} → Same f g → Same g h → Same f h
Same-trans s t = record {
  size = t.size ∙ s.size;
  to = λ x d e. t.to x d (s.to x d e);
  from = λ x d e. s.from x d (t.from x d e);
}

pub swap-Same : (h : IndexHeap) (i j : ℕ) → i < h.size → j < h.size → Same h (swap i j h)
swap-Same h i j hi hj = record {
  size = swap-size h i j;
  to = λ x d (k, l, e, f).
      let k' = if k == j then i else if k == i then j else k in
      (
        k',
        ground (arith, swap-size h i j),
        ground (arith, swap-items h i j k', ==_iff k j, ==_iff k i, e),
        ground (arith, swap-items h i j k', ==_iff k j, ==_iff k i, f),
      );
  from = λ x d (k, l, e, f).
      let k' = if k == j then i else if k == i then j else k in
      (
        k',
        ground (arith, swap-size h i j),
        ground (arith, swap-items h i j k, e),
        ground (arith, swap-items h i j k, f),
      );
}

swap-Nonneg : (h : IndexHeap) (i j : ℕ) → i < h.size → j < h.size → Nonneg h → Nonneg (swap i j h)
swap-Nonneg h i j hi hj n k hk = ground (arith, swap-size h i j, swap-items h i j k, n i, n j, n k)

-- Only the edge above `i` may be out of order.
pub record UpInv (h : IndexHeap) (i : ℕ) : Type 0 where
  pub inside : i < h.size
  pub edges : (k : ℕ) → 0 < k → k < h.size → k ≢ i → key h (parent_of k) ≤ key h k
  pub bridged :
      (k : ℕ) → 0 < k → k < h.size → parent_of k ≡ i → 0 < i → key h (parent_of i) ≤ key h k

swap-UpInv :
    (h : IndexHeap) (i : ℕ)
    → UpInv h i
    → 0 < i
    → key h i < key h (parent_of i)
    → UpInv (swap i (parent_of i) h) (parent_of i)
swap-UpInv h i v p below =
    let p' = parent_of i in
    let at = λ (k : ℕ). swap-items h i p' k in
    record {
      inside = ground (arith, swap-size h i p');
      edges = λ k hp hk n. ground (
        arith,
        swap-size h i p',
        at k,
        at (parent_of k),
        v.edges k hp,
        v.bridged k hp,
        v.edges i p,
      );
      bridged = λ k hp hk e q. ground (
        arith,
        swap-size h i p',
        at k,
        at (parent_of p'),
        v.edges k hp,
        v.edges p' q,
        v.edges i p,
      );
    }

-- A heap in order with the same items.
pub record Sifted (h h' : IndexHeap) : Type 0 where
  pub same : Same h h'
  pub in_place : Placed h'
  pub nonneg : Nonneg h'
  pub ordered : Ordered h'

Sifted-after : {f g h : IndexHeap} → Same f g → Sifted g h → Sifted f h
Sifted-after s t = record {
  same = Same-trans s t.same;
  in_place = t.in_place;
  nonneg = t.nonneg;
  ordered = t.ordered;
}

pub bubble_up-Sifted :
    (left i : ℕ) (h : IndexHeap)
    → i ≤ left
    → Placed h
    → Nonneg h
    → UpInv h i
    → Sifted h (bubble_up left i h)
unfolding bubble_up
bubble_up-Sifted zero i h f p n v = record {
  same = Same-refl h;
  in_place = p;
  nonneg = n;
  ordered = λ k hp hk. v.edges k hp hk (omega arith);
}
bubble_up-Sifted (suc left) i h f p n v = elim (Bool-cases (i == 0)) [
  | inl e ↦ rw e (record {
    same = Same-refl h;
    in_place = p;
    nonneg = n;
    ordered = λ k hp hk. v.edges k hp hk (ground (arith, e));
  })
  | inr e ↦
      let above : parent_of i < h.size = omega (arith, v.inside) in
      let cmp = fle-leb (key h (parent_of i)) (key h i) (n (parent_of i) above) (n i v.inside) in
      elim (Bool-cases (fle (key h (parent_of i)) (key h i))) [
        | inl g ↦
            rw (e, g)
              (record {
                same = Same-refl h;
                in_place = p;
                nonneg = n;
                ordered = λ k hp hk. elim (Bool-cases (k == i)) [
                  | inl same ↦ ground (arith, (==_iff k i).0 same, g, cmp)
                  | inr other ↦ v.edges k hp hk (ground (arith, other, ==_iff k i))
                ];
              })
        | inr g ↦
            let below : key h i < key h (parent_of i) = ground (arith, g, cmp) in
            let up : 0 < i = ground (arith, e) in
            rw (e, g)
              (Sifted-after (swap-Same h i (parent_of i) v.inside above) (
                bubble_up-Sifted left (parent_of i) (swap i (parent_of i) h) (omega arith)
                  (swap-Placed h i (parent_of i) p v.inside above)
                  (swap-Nonneg h i (parent_of i) v.inside above n) (swap-UpInv h i v up below)))
      ]
]

-- Only the edges below `i` may be out of order.
pub record DownInv (h : IndexHeap) (i : ℕ) : Type 0 where
  pub edges : (k : ℕ) → 0 < k → k < h.size → parent_of k ≢ i → key h (parent_of k) ≤ key h k
  pub bridged :
      (k : ℕ) → 0 < k → k < h.size → parent_of k ≡ i → 0 < i → key h (parent_of i) ≤ key h k

record Smallest (h : IndexHeap) (i s : ℕ) : Type 0 where
  at_or_below : s ≢ i → (parent_of s ≡ i) × (0 < s) × (s < h.size)
  least : (k : ℕ) → 0 < k → k < h.size → parent_of k ≡ i → key h s ≤ key h k
  no_more : key h s ≤ key h i

child : (i k : ℕ) → parent_of k ≡ i → 0 < k → (k ≡ 2 * i + 1) ⊎ (k ≡ 2 * i + 2)
child i k e h = ground arith

-- One comparison of `bubbleDown`, of the smallest so far with a child.
record Picked (h : IndexHeap) (c s t : ℕ) : Type 0 where
  which : (t ≡ c) ⊎ (t ≡ s)
  pub inside : t < h.size
  below_old : key h t ≤ key h s
  below_child : c < h.size → key h t ≤ key h c

pick :
    (h : IndexHeap) (c s : ℕ)
    → Nonneg h
    → s < h.size
    → Picked h c s (if ltb c h.size && flt (h.items c).dist (h.items s).dist then c else s)
pick h c s n hs = elim (Bool-cases (ltb c h.size)) [
  | inr e ↦ rw e (record {
    which = inr refl;
    inside = hs;
    below_old = omega arith;
    below_child = λ hc. ground (arith, e);
  })
  | inl e ↦
      let hc : c < h.size = ground (arith, e) in
      let cmp = flt-ltb (key h c) (key h s) (n c hc) (n s hs) in
      elim (Bool-cases (flt (key h c) (key h s))) [
        | inl f ↦
            let below : key h c < key h s = ground (arith, f, cmp) in
            rw (e, f)
              (record {
                which = inl refl;
                inside = hc;
                below_old = omega arith;
                below_child = λ _. omega arith;
              })
        | inr f ↦
            let above : key h s ≤ key h c = ground (arith, f, cmp) in
            rw (e, f)
              (record {
                which = inr refl;
                inside = hs;
                below_old = omega arith;
                below_child = λ _. above;
              })
      ]
]

smallest_of-Smallest :
    (h : IndexHeap) (i : ℕ) → Nonneg h → i < h.size → Smallest h i (smallest_of i h)
unfolding smallest_of
smallest_of-Smallest h i n hi =
    let l = 2 * i + 1 in
    let r = 2 * i + 2 in
    let s = if ltb l h.size && flt (h.items l).dist (h.items i).dist then l else i in
    let one = pick h l i n hi in
    let two = pick h r s n one.inside in
    record {
      at_or_below = λ ne. ground (arith, one.which, two.which, two.inside, ne);
      least = λ k hp hk e. ground (
        arith,
        one.below_old,
        one.below_child,
        two.below_old,
        two.below_child,
        child i k e hp,
        hk,
      );
      no_more = ground (arith, one.below_old, two.below_old);
    }

swap-DownInv :
    (h : IndexHeap) (i s : ℕ) → DownInv h i → Smallest h i s → s ≢ i → DownInv (swap i s h) s
swap-DownInv h i s v m ne =
    let at = λ (k : ℕ). swap-items h i s k in
    let low = m.at_or_below ne in
    record {
      edges = λ k hp hk n. ground (
        arith,
        swap-size h i s,
        low,
        at k,
        at (parent_of k),
        v.edges k hp,
        v.bridged k hp,
        v.bridged s,
        m.least k hp,
        m.no_more,
        ==_iff k s,
        ==_iff k i,
        ==_iff (parent_of k) s,
        ==_iff (parent_of k) i,
      );
      bridged = λ k hp hk e q. ground (
        arith,
        swap-size h i s,
        low,
        at k,
        at (parent_of s),
        v.edges k hp,
        ==_iff k s,
        ==_iff k i,
        ==_iff (parent_of s) s,
        ==_iff (parent_of s) i,
      );
    }

bubble_down-deeper :
    (left i : ℕ) (h : IndexHeap)
    → (smallest_of i h == i) ≡ false
    → bubble_down (suc left) i h ≡ bubble_down left (smallest_of i h) (swap i (smallest_of i h) h)
unfolding bubble_down
bubble_down-deeper left i h e =
    ap
      (λ (b : Bool).
        if b then h else bubble_down left (smallest_of i h) (swap i (smallest_of i h) h))
      e

pub bubble_down-Sifted :
    (left i : ℕ) (h : IndexHeap)
    → h.size ≤ i + left
    → i < h.size
    → Placed h
    → Nonneg h
    → DownInv h i
    → Sifted h (bubble_down left i h)
unfolding bubble_down
bubble_down-Sifted zero i h f hi p n v = absurd (omega arith)
bubble_down-Sifted (suc left) i h f hi p n v =
    let s = smallest_of i h in
    let m = smallest_of-Smallest h i n hi in
    elim (Bool-cases (s == i)) [
      | inl e ↦ rw e (record {
        same = Same-refl h;
        in_place = p;
        nonneg = n;
        ordered = λ k hp hk. elim (Bool-cases (parent_of k == i)) [
          | inl g ↦
              let at = (==_iff (parent_of k) i).0 g in
              let same = (==_iff s i).0 e in
              ground (arith, m.least k hp hk at, ap (key h) same, ap (key h) at)
          | inr g ↦ v.edges k hp hk (ground (arith, g, ==_iff (parent_of k) i))
        ];
      })
      | inr e ↦
          let ne : s ≢ i = ground (arith, e, ==_iff s i) in
          let (below, pos, hs) = m.at_or_below ne in
          let next = swap i s h in
          subst (Sifted h) (sym (bubble_down-deeper left i h e)) (
            Sifted-after (swap-Same h i s hi hs) (
              bubble_down-Sifted left s next (omega (arith, swap-size h i s))
                (omega (arith, swap-size h i s)) (swap-Placed h i s p hi hs)
                (swap-Nonneg h i s hi hs n) (swap-DownInv h i s v m ne)))
    ]
