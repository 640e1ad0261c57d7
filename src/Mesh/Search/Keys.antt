-- ===== src/Mesh/Search/Keys.antt =====
-- The distances have an entry for each agent of the graph, once, and for no other.
use metalwatch.Base.{
  ℕ, zero, suc, ◌≡◌, refl, String, true, false, none, some, Among, found, later, List, [], ◌∷◌,
  eq_iff, ◌==◌, Bool-cases, Option-cases, inl, inr, length, arith,
}
use metalwatch.Base.Map.{Map, lookup, insert, lookup-insert, HasUniqueKeys, insert-HasUniqueKeys}
use metalwatch.Base.Float.{Float64, flt}
use metalwatch.Base.Float.Sum.{fadd, infinity}
use metalwatch.Mesh.Graph.{Graph, Edge, edges_of}
use metalwatch.Mesh.Heap.{pop}
use metalwatch.Mesh.Search.{
  Search, dist_of, is_visited, relax, relax_all, take_nearest, settle_all, all_infinite, unsearched,
  started, dijkstra,
}
use metalwatch.Mesh.Search.State.{is_known, IsGraph}
use metalwatch.Mesh.Search.Loop.{all_infinite-known}

module _ (g : Graph) where
  pub record HasKeys (m : Map Float64) : Type 0 where
    pub unique : HasUniqueKeys m
    pub keys : (x : String) → (elim (lookup x m) [ none ↦ false | some d ↦ true ]) ≡ is_known g x

  insert-HasKeys :
      (x : String) (d : Float64) (m : Map Float64)
      → is_known g x ≡ true
      → HasKeys m
      → HasKeys (insert x d m)
  insert-HasKeys x d m k h = record {
    unique = insert-HasUniqueKeys x d m h.unique;
    keys = λ y. ground (arith, lookup-insert x y d m, h.keys y, k, eq_iff x y);
  }

  all_infinite_unique : (h : Graph) → HasUniqueKeys (all_infinite h)
  unfolding all_infinite
  all_infinite_unique [] = tt
  all_infinite_unique ((n, es) ∷ rest) =
      insert-HasUniqueKeys n infinity (all_infinite rest) (all_infinite_unique rest)

  all_infinite-HasKeys : HasKeys (all_infinite g)
  all_infinite-HasKeys = record {
    unique = all_infinite_unique g;
    keys = λ x. ground (arith, all_infinite-known g x);
  }

  module _ (ok : IsGraph g) where
    relax-HasKeys :
        (u : String) (e : Edge) (s : Search)
        → Among e (edges_of g u)
        → HasKeys s.dist
        → HasKeys (relax u e s).dist
    unfolding relax
    relax-HasKeys u e s m h = elim (Bool-cases (is_visited s e.to)) [
      | inl v ↦ rw v h
      | inr v ↦ elim (Bool-cases (flt (fadd (dist_of s u) e.w) (dist_of s e.to))) [
        | inl f ↦ rw (v, f) (insert-HasKeys e.to (fadd (dist_of s u) e.w) s.dist (ok.ends u e m) h)
        | inr f ↦ rw (v, f) h
      ]
    ]

    relax_all-HasKeys :
        (u : String) (es : List Edge) (s : Search)
        → ((e : Edge) → Among e es → Among e (edges_of g u))
        → HasKeys s.dist
        → HasKeys (relax_all u es s).dist
    unfolding relax_all
    relax_all-HasKeys u [] s m h = h
    relax_all-HasKeys u (e ∷ es) s m h =
        relax_all-HasKeys u es (relax u e s) (λ f n. m f (later n))
          (relax-HasKeys u e s (m e (found refl)) h)

    take_nearest-HasKeys : (s : Search) → HasKeys s.dist → HasKeys (take_nearest g s).dist
    unfolding take_nearest
    take_nearest-HasKeys s h =
        let u = (pop s.heap).0.node in
        elim (Bool-cases (is_visited s u)) [
          | inl v ↦ rw v h
          | inr v ↦ rw v (
              relax_all-HasKeys u (edges_of g u)
                (record s { heap = (pop s.heap).1; visited = insert u true s.visited }) (λ e m. m)
                h)
        ]

    settle_all-HasKeys :
        (left : ℕ) (s : Search) → HasKeys s.dist → HasKeys (settle_all left g s).dist
    unfolding settle_all
    settle_all-HasKeys zero s h = h
    settle_all-HasKeys (suc left) s h = elim (Bool-cases (s.heap.size == 0)) [
      | inl e ↦ rw e h
      | inr e ↦ rw e (settle_all-HasKeys left (take_nearest g s) (take_nearest-HasKeys s h))
    ]

    pub dijkstra-HasKeys : (src : String) → HasKeys (dijkstra g src).dist
    unfolding dijkstra unsearched started
    dijkstra-HasKeys src = elim (Option-cases (lookup src g)) [
      | inl e ↦ rw (dijkstra, e) all_infinite-HasKeys
      | inr (es, e) ↦
          rw (dijkstra, e)
            (settle_all-HasKeys (length g) (started g src)
              (insert-HasKeys src 0 (all_infinite g) (ground (arith, e)) all_infinite-HasKeys))
    ]
