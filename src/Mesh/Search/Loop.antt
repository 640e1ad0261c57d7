-- ===== src/Mesh/Search/Loop.antt =====
-- The whole search: it starts with the invariant, ends, and every agent that has a route is visited.
use metalwatch.Base.{
  ℕ, zero, suc, ◌+◌, ◌≤◌, ◌<◌, ◌≡◌, refl, ap, String, Bool, true, false, none, some, [], ◌∷◌,
  str_eq, eq_iff, ◌==◌, ==_iff, if◌then◌else◌, Bool-cases, inl, inr, length, arith,
}
use metalwatch.Base.Map.{lookup, lookup-insert}
use metalwatch.Base.Float.Sum.{infinity}
use metalwatch.Mesh.Heap.{contains}
use metalwatch.Mesh.Heap.Queue.{IsHeap}
use metalwatch.Mesh.Heap.Offer.{offer-Offered}
use metalwatch.Mesh.Graph.{Graph}
use metalwatch.Mesh.Search.{
  Search, offer, is_visited, take_nearest, settle_all, all_infinite, no_items, unsearched, started,
}
use metalwatch.Mesh.Search.State.{is_known, IsGraph}
use metalwatch.Mesh.Search.Turn.{Inv, take_nearest-Turned}

-- How many entries of the graph are not visited.
pub unseen : (String → Bool) → Graph → ℕ
unseen seen [] = 0
unseen seen ((n, es) ∷ rest) = (if seen n then 0 else 1) + unseen seen rest

pub unseen-length : (seen : String → Bool) (g : Graph) → unseen seen g ≤ length g
unfolding unseen
unseen-length seen [] = omega arith
unseen-length seen (e ∷ rest) = ground (arith, unseen-length seen rest)

module _ (x : String) (old new : String → Bool)
    (visits : (y : String) → new y ≡ (if str_eq x y then true else old y)) where
  unseen_mono : (g : Graph) → unseen new g ≤ unseen old g
  unfolding unseen
  unseen_mono [] = omega arith
  unseen_mono ((n, es) ∷ rest) = ground (arith, visits n, unseen_mono rest)

  unseen_fewer : (g : Graph) → old x ≡ false → is_known g x ≡ true → unseen new g < unseen old g
  unfolding unseen lookup
  unseen_fewer [] o k = absurd (ground (arith, k))
  unseen_fewer ((n, es) ∷ rest) o k = elim (Bool-cases (str_eq n x)) [
    | inl e ↦ ground (
      arith,
      visits n,
      unseen_mono rest,
      (eq_iff n x).0 e,
      eq_iff x n,
      ap old ((eq_iff n x).0 e),
      o,
    )
    | inr e ↦ ground (arith, visits n, unseen_fewer rest o, k, e)
  ]

pub all_infinite-known :
    (h : Graph) (x : String)
    → lookup x (all_infinite h) ≡ (if is_known h x then some infinity else none)
unfolding all_infinite lookup
all_infinite-known [] x = refl
all_infinite-known ((n, es) ∷ rest) x =
    ground (arith, lookup-insert n x infinity (all_infinite rest), all_infinite-known rest x)

pub no_items-IsHeap : IsHeap no_items
no_items-IsHeap = record {
  in_place = record {
    placed = λ i h. absurd (omega arith);
    found = λ x i e. absurd (ground (arith, e));
  };
  nonneg = λ i h. absurd (omega arith);
  ordered = λ k h l. absurd (omega arith);
}

module _ (g : Graph) (src : String) (ok : IsGraph g) where
  pub settle_all-Inv :
      (left : ℕ) (s : Search)
      → unseen (is_visited s) g ≤ left
      → Inv g src s
      → Inv g src (settle_all left g s) × ((settle_all left g s).heap.size ≡ 0)
  unfolding settle_all
  settle_all-Inv zero s le i = elim (Bool-cases (s.heap.size == 0)) [
    | inl e ↦ (i, (==_iff s.heap.size 0).0 e)
    | inr e ↦
        let t = take_nearest-Turned g src s i (ground (arith, e)) ok in
        absurd (
          omega (
            arith,
            le,
            unseen_fewer t.agent (is_visited s) (is_visited (take_nearest g s)) t.visits g
                t.taken_new t.taken_known,
          ))
  ]
  settle_all-Inv (suc left) s le i = elim (Bool-cases (s.heap.size == 0)) [
    | inl e ↦ rw e (i, (==_iff s.heap.size 0).0 e)
    | inr e ↦
        let t = take_nearest-Turned g src s i (ground (arith, e)) ok in
        let fewer =
          unseen_fewer t.agent (is_visited s) (is_visited (take_nearest g s)) t.visits g t.taken_new
            t.taken_known in
        rw e (settle_all-Inv left (take_nearest g s) (omega (arith, le, fewer)) t.inv)
  ]

  pub started-Inv : is_known g src ≡ true → Inv g src (started g src)
  unfolding started unsearched lookup offer contains
  started-Inv known =
      let o =
        offer-Offered src 0 no_items no_items-IsHeap (omega arith)
          (λ old h. absurd (ground (arith, h))) in
      let d = λ (x : String). lookup-insert src x 0 (all_infinite g) in
      let a = all_infinite-known g in
      record {
        state = record {
          is_heap = o.is_heap;
          nonneg = λ x. ground (arith, d x, a x);
          waiting = λ x. ground (arith, o.keys x, d x, a x, known, eq_iff src x);
          visited_known = λ x v. absurd (ground (arith, v));
          visited_finite = λ x v. absurd (ground (arith, v));
          at_source = ground (arith, d src, eq_iff src src);
          no_hop = refl;
          parent = λ x k f n. absurd (ground (arith, d x, a x, k, f, n, eq_iff src x));
        };
        level = 0;
        below = λ x v. absurd (ground (arith, v));
        above = λ x k v. omega arith;
        closed = λ x e v m. absurd (ground (arith, v));
      }
