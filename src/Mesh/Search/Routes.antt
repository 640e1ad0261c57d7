-- ===== src/Mesh/Search/Routes.antt =====
-- The routes that the search finds: each is a walk over the links, and no walk costs less.
use metalwatch.Base.{
  ℕ, zero, suc, ◌+◌, ◌≤◌, ◌<◌, ◌≡◌, refl, ap, ◌∙◌, subst, String, Bool, true, false, Option, none,
  some, Among, List, [], ◌∷◌, str_eq, eq_iff, ltb, if◌then◌else◌, Bool-cases, Option-cases, inl,
  inr, length, arith,
}
use metalwatch.Base.Map.{lookup}
use metalwatch.Base.Float.{Float64, IsNonneg}
use metalwatch.Base.Float.Sum.{fadd, infinity, fadd_grows, fadd_mono, fadd-IsNonneg}
use metalwatch.Mesh.Heap.Queue.{empty-held}
use metalwatch.Mesh.Graph.{Graph, Edge, edges_of}
use metalwatch.Mesh.Search.{
  Search, dist_of, hops_of, is_visited, settle_all, started, dijkstra, rebuild, rebuild_path,
}
use metalwatch.Mesh.Search.State.{is_known, IsGraph}
use metalwatch.Mesh.Search.Turn.{Inv}
use metalwatch.Mesh.Search.Loop.{unseen-length, settle_all-Inv, started-Inv}

module _ (g : Graph) where
  -- A walk from `u` at cost `c`, by the agents of the list, to `v` at cost `d`; each link adds its
  -- weight.
  abbrev pub Walk : Float64 → String → List String → Float64 → String → Type 0
  Walk c u [] d v = (c ≡ d) × (u ≡ v)
  Walk c u (x ∷ p) d v =
      (e : Edge) × Among e (edges_of g u) × (e.to ≡ x) × Walk (fadd c e.w) x p d v

  module _ (src : String) (ok : IsGraph g) where
    -- What holds when the heap is empty.
    pub record Done (s : Search) : Type 0 where
      pub inv : Inv g src s
      pub emptied : s.heap.size ≡ 0
      pub all_seen :
          (x : String) → is_known g x ≡ true → dist_of s x < infinity → is_visited s x ≡ true

    pub dijkstra-Done : is_known g src ≡ true → Done (dijkstra g src)
    unfolding dijkstra
    dijkstra-Done k = elim (Option-cases (lookup src g)) [
      | inl e ↦ absurd (ground (arith, k, e))
      | inr (es, e) ↦
          let s = started g src in
          let (i, z) =
            settle_all-Inv g src ok (length g) s (unseen-length (is_visited s) g)
              (started-Inv g src ok k) in
          let t = settle_all (length g) g s in
          rw (dijkstra, e)
            (record {
              inv = i;
              emptied = z;
              all_seen = λ x h l.
                  ground (arith, empty-held t.heap i.state.is_heap z x, i.state.waiting x, h, l);
            })
    ]

    module _ (s : Search) (f : Done s) where
      Walk-Least :
          (c : Float64) (u : String) (p : List String) (d : Float64) (v : String)
          → is_known g u ≡ true
          → IsNonneg c
          → dist_of s u ≤ c
          → Walk c u p d v
          → dist_of s v ≤ d
      Walk-Least c u [] d v k n le (e, l) = ground (arith, e, ap (dist_of s) l, le)
      Walk-Least c u (x ∷ p) d v k n le (e, m, at, w) =
          let weight = ok.weights u e m in
          let step : dist_of s e.to ≤ fadd c e.w = elim (Bool-cases (ltb (dist_of s u) infinity)) [
            | inl fin ↦ omega (
              arith,
              f.inv.closed u e (f.all_seen u k (ground (arith, fin))) m,
              fadd_mono (dist_of s u) c e.w n weight le,
            )
            | inr inf ↦ ground (arith, inf, le, fadd_grows c e.w n weight, f.inv.state.nonneg e.to)
          ] in
          Walk-Least (fadd c e.w) x p d v
            (subst (λ (y : String). is_known g y ≡ true) at (ok.ends u e m))
            (fadd-IsNonneg c e.w n weight)
            (subst (λ (y : String). dist_of s y ≤ fadd c e.w) at step) w

      known_named : (x : String) → is_known g x ≡ true → str_eq x "" ≡ false
      known_named x k = elim (Bool-cases (str_eq x "")) [
        | inl e ↦ absurd (ground (arith, k, ok.named, ap (is_known g) ((eq_iff x "").0 e)))
        | inr e ↦ e
      ]

      -- A path that is built up to `x` goes on to the source.
      rebuild-Walk :
          (left : ℕ) (x : String) (p : List String) (d : Float64) (v : String)
          → is_known g x ≡ true
          → dist_of s x < infinity
          → hops_of s x < left
          → Walk (dist_of s x) x p d v
          → (q : List String) × (rebuild left s.prev src x p ≡ some (src ∷ q))
            × Walk 0 src q d v
            × (length q ≡ hops_of s x + length p)
      unfolding rebuild
      rebuild-Walk zero x p d v k l h w = absurd (omega arith)
      rebuild-Walk (suc left) x p d v k l h w = elim (Bool-cases (str_eq x src)) [
        | inl at ↦
            let same = (eq_iff x src).0 at in
            (
              p,
              rw (known_named x k, at) (ap (λ (y : String). some (y ∷ p)) same),
              subst (λ (c : Float64). Walk c src p d v) f.inv.state.at_source
                  (subst (λ (y : String). Walk (dist_of s y) y p d v) same w),
              omega (arith, f.inv.state.no_hop, ap (hops_of s) same),
            )
        | inr other ↦
            let b = f.inv.state.parent x k l (λ same. ground (arith, other, eq_iff x src, same)) in
            let u = b.before in
            let w' : Walk (dist_of s u) u (x ∷ p) d v =
              (b.edge, b.there, b.ends_at, subst (λ (c : Float64). Walk c x p d v) b.cost w) in
            let (q, r, walk, len) =
              rebuild-Walk left u (x ∷ p) d v (f.inv.state.visited_known u b.visited)
                (f.inv.state.visited_finite u b.visited) (omega (arith, b.hop)) w' in
            (q, rw (known_named x k, other, b.recorded) r, walk, omega (arith, len, b.hop))
      ]

-- The guard of `rebuildPath` lets a recorded agent through.
traced_path :
    (here : Bool) (before : Option String) (path : Option (List String))
    → (here ≡ false → (u : String) × (before ≡ some u))
    → (if here then path else elim before [ none ↦ none | some _ ↦ path ]) ≡ path
traced_path true before path h = refl
traced_path false (some u) path h = refl
traced_path false none path h = absurd (ground (arith, h refl))

module _ (g : Graph) (src : String) (ok : IsGraph g) (known : is_known g src ≡ true) where
  -- No walk from the source costs less than the distance that `dijkstra` gives its end.
  pub dijkstra-Least :
      (p : List String) (c : Float64) (v : String)
      → Walk g 0 src p c v
      → dist_of (dijkstra g src) v ≤ c
  dijkstra-Least p c v w =
      let f = dijkstra-Done g src ok known in
      Walk-Least g src ok (dijkstra g src) f 0 src p c v known (omega arith)
        (omega (arith, f.inv.state.at_source)) w

  -- An agent at a finite distance has the path that `rebuildPath` reads: a walk of that cost, with as
  -- many links as the recorded hops.
  pub dijkstra-Walk :
      (x : String)
      → is_known g x ≡ true
      → dist_of (dijkstra g src) x < infinity
      → (q : List String) × (rebuild_path
            (suc (hops_of (dijkstra g src) x))
            (dijkstra g src).prev
            src
            x
          ≡ some (src ∷ q))
        × Walk g 0 src q (dist_of (dijkstra g src) x) x
        × (length q ≡ hops_of (dijkstra g src) x)
  unfolding rebuild_path
  dijkstra-Walk x k l =
      let s = dijkstra g src in
      let f = dijkstra-Done g src ok known in
      let (q, r, w, n) =
        rebuild-Walk g src ok s f (suc (hops_of s x)) x [] (dist_of s x) x k l (omega arith)
          (refl, refl) in
      let traced : str_eq x src ≡ false → (u : String) × (lookup x s.prev ≡ some u) = λ e.
        let b = f.inv.state.parent x k l (λ same. ground (arith, e, eq_iff x src, same)) in
        (b.before, b.recorded) in
      (
        q,
        traced_path (str_eq x src) (lookup x s.prev) (rebuild (suc (hops_of s x)) s.prev src x [])
              traced
            ∙ r,
        w,
        omega (arith, n),
      )

  -- On a graph whose edges have weights and lead to named agents of it, with the source among
  -- them, the search ends with an empty heap after at most as many turns as the graph has agents,
  -- and an agent is visited exactly where its distance is finite.
  pub dijkstra_ends :
      ((dijkstra g src).heap.size ≡ 0)
      × ((x : String)
          → is_known g x ≡ true
          → is_visited (dijkstra g src) x ≡ ltb (dist_of (dijkstra g src) x) infinity)
  dijkstra_ends =
      let f = dijkstra-Done g src ok known in
      (
        f.emptied,
        λ x k. elim (Bool-cases (is_visited (dijkstra g src) x)) [
          | inl v ↦ ground (arith, v, f.inv.state.visited_finite x v)
          | inr v ↦ ground (arith, v, f.all_seen x k)
        ],
      )
