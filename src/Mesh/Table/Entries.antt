-- ===== src/Mesh/Table/Entries.antt =====
-- What the entries of the route table say of the graph.
use metalwatch.Base.{
  ℕ, ◌%◌, ◌^◌, ◌≤◌, ◌<◌, ◌≡◌, ◌≢◌, refl, sym, ap, ◌∙◌, subst, String, true, false, Option, some,
  Among, found, later, All, List, [], ◌∷◌, eq_iff, ◌==◌, Bool-cases, Option-cases, inl, inr, ◌⊎◌,
  length, arith,
}
use metalwatch.Base.Map.{Map, lookup, lookup-Among, Among-lookup}
use metalwatch.Base.Sort.{sort_by-All, sort_by-Among}
use metalwatch.Base.Float.{Float64, feq, is_nan, rank, IsNonneg}
use metalwatch.Base.Float.Sum.{fadd, infinity}
use metalwatch.Mesh.Graph.{LinkProbe, MeshConfig, Links, Graph, cost_fn, build_graph}
use metalwatch.Mesh.Graph.Build.{HasCosts, IsRange, build_graph-IsGraph}
use metalwatch.Mesh.Search.{
  Search, dist_of, hops_of, dijkstra, unsearched, all_infinite, path_next_hop,
}
use metalwatch.Mesh.Search.State.{is_known, IsGraph}
use metalwatch.Mesh.Search.Loop.{all_infinite-known}
use metalwatch.Mesh.Search.Keys.{dijkstra-HasKeys}
use metalwatch.Mesh.Search.Routes.{Walk, dijkstra-Least, dijkstra-Walk, dijkstra-Done}
use metalwatch.Mesh.Table.{RouteEntry, path_list, is_listed, entry_for, entries_of, route_entries}

abbrev pub first_of : List String → String
first_of [] = ""
first_of (x ∷ p) = x

-- An entry tells a cheapest walk from the source.
pub record IsRoute (g : Graph) (max_hops : ℕ) (source : String) (e : RouteEntry) : Type 0 where
  pub rest : List String
  pub path : e.path ≡ source ∷ rest
  pub walk : Walk g 0 source rest e.cost e.dst_agent
  pub least : (p : List String) (c : Float64) → Walk g 0 source p c e.dst_agent → e.cost ≤ c
  pub next : e.next_hop ≡ first_of rest
  pub hops : e.hop_count ≡ length rest % 2 ^ 32
  pub within : 0 < max_hops → e.hop_count ≤ max_hops
  pub elsewhere : e.dst_agent ≢ source
  pub reached : e.cost < infinity

feq-infinity : (x : Float64) → IsNonneg x → feq x infinity ≡ (x == infinity)
unfolding feq is_nan rank
feq-infinity x h = ground arith

module _ (g : Graph) (max_hops : ℕ) (source : String) (ok : IsGraph g) where
  -- What the guards of the loop let through.
  is_listed_lem :
      (s : Search) (dst : String) (d : Float64)
      → IsNonneg d
      → is_listed max_hops source s dst d ≡ true
      → (dst ≢ source) × (d < infinity) × (0 < max_hops → hops_of s dst % 2 ^ 32 ≤ max_hops)
  unfolding is_listed
  is_listed_lem s dst d n h = (
    λ e. ground (arith, h, e, eq_iff dst source),
    ground (arith, h, feq-infinity d n, n),
    λ p. ground (arith, h, p),
  )

  entry_for-IsRoute :
      (dst : String)
      → is_known g source ≡ true
      → is_known g dst ≡ true
      → is_listed max_hops source (dijkstra g source) dst (dist_of (dijkstra g source) dst) ≡ true
      → IsRoute g max_hops source
          (entry_for max_hops source (dijkstra g source) dst (dist_of (dijkstra g source) dst))
  unfolding entry_for path_next_hop
  entry_for-IsRoute dst ks kd h =
      let s = dijkstra g source in
      let done = dijkstra-Done g source ok ks in
      let (other, fin, max) = is_listed_lem s dst (dist_of s dst) (done.inv.state.nonneg dst) h in
      let (q, r, w, n) = dijkstra-Walk g source ok ks dst kd fin in
      record {
        rest = q;
        path = ap path_list r;
        walk = w;
        least = λ p c v. dijkstra-Least g source ok ks p c dst v;
        next = ap path_next_hop r ∙ next_of q;
        hops = ap (λ (k : ℕ). k % 2 ^ 32) (sym n);
        within = max;
        elsewhere = other;
        reached = fin;
      }
    where
      next_of : (q : List String) → path_next_hop (some (source ∷ q)) ≡ first_of q
      next_of [] = refl
      next_of (x ∷ q) = refl

  -- The loop over the distances, for any part of them.
  entries_of-All :
      (s : Search) (P : RouteEntry → Type 0) (m : Map Float64)
      → ((dst : String) (d : Float64)
          → Among (dst, d) m
          → is_listed max_hops source s dst d ≡ true
          → P (entry_for max_hops source s dst d))
      → All P (entries_of max_hops source s m)
  unfolding entries_of
  entries_of-All s P [] h = tt
  entries_of-All s P ((dst, d) ∷ rest) h =
      let later_on = entries_of-All s P rest (λ x c m. h x c (later m)) in
      elim (Bool-cases (is_listed max_hops source s dst d)) [
        | inl e ↦ rw e (h dst d (found refl) e, later_on)
        | inr e ↦ rw e later_on
      ]

  entries_of-Among :
      (s : Search) (m : Map Float64) (dst : String) (d : Float64)
      → Among (dst, d) m
      → is_listed max_hops source s dst d ≡ true
      → Among (entry_for max_hops source s dst d) (entries_of max_hops source s m)
  unfolding entries_of
  entries_of-Among s ((x, c) ∷ rest) dst d (found e) h =
      let same = ap (λ (p : String × Float64). is_listed max_hops source s p.0 p.1) e in
      rw (sym same ∙ h)
        (found (ap (λ (p : String × Float64). entry_for max_hops source s p.0 p.1) e))
  entries_of-Among s ((x, c) ∷ rest) dst d (later m) h =
      let there = entries_of-Among s rest dst d m h in
      elim (Bool-cases (is_listed max_hops source s x c)) [
        | inl e ↦ rw e (later there)
        | inr e ↦ rw e there
      ]
  entries_of-Among s [] dst d m h = elim m [ ]

  Among-known :
      (dst : String) (d : Float64)
      → Among (dst, d) (dijkstra g source).dist
      → (d ≡ dist_of (dijkstra g source) dst) × (is_known g dst ≡ true)
  Among-known dst d m =
      let k = dijkstra-HasKeys g ok source in
      let e = Among-lookup dst d (dijkstra g source).dist k.unique m in
      (ground (arith, e), ground (arith, e, k.keys dst))

  -- Without the source in the graph every distance is infinite.
  unsearched-dist : is_known g source ≡ false → (dijkstra g source).dist ≡ all_infinite g
  unfolding dijkstra unsearched
  unsearched-dist u = elim (Option-cases (lookup source g)) [
    | inl e ↦ rw (dijkstra, e) refl
    | inr (es, e) ↦ absurd (ground (arith, e, u))
  ]

  unsearched-none :
      (dst : String) (d : Float64)
      → is_known g source ≡ false
      → Among (dst, d) (dijkstra g source).dist
      → is_listed max_hops source (dijkstra g source) dst d ≡ false
  unsearched-none dst d u m =
      elim (Bool-cases (is_listed max_hops source (dijkstra g source) dst d)) [
        | inr e ↦ e
        | inl e ↦
            let k = dijkstra-HasKeys g ok source in
            let at = Among-lookup dst d (dijkstra g source).dist k.unique m in
            let inf : d ≡ infinity =
              ground (arith, at, ap (lookup dst) (unsearched-dist u), all_infinite-known g dst) in
            absurd (
              omega
                (arith, inf, (is_listed_lem (dijkstra g source) dst d (omega (arith, inf)) e).1))
      ]

  dijkstra-IsRoute :
      (dst : String) (d : Float64)
      → Among (dst, d) (dijkstra g source).dist
      → is_listed max_hops source (dijkstra g source) dst d ≡ true
      → IsRoute g max_hops source (entry_for max_hops source (dijkstra g source) dst d)
  dijkstra-IsRoute dst d m h =
      let (same, kd) = Among-known dst d m in
      elim (Bool-cases (is_known g source)) [
        | inr u ↦ absurd (ground (arith, h, unsearched-none dst d u m))
        | inl ks ↦
            subst
              (λ (c : Float64).
                IsRoute g max_hops source (entry_for max_hops source (dijkstra g source) dst c))
              (sym same)
              (entry_for-IsRoute dst ks kd
                (ap (is_listed max_hops source (dijkstra g source) dst) (sym same) ∙ h))
      ]

  Walk-known :
      (c : Float64) (u : String) (p : List String) (d : Float64) (v : String)
      → is_known g u ≡ true
      → Walk g c u p d v
      → is_known g v ≡ true
  Walk-known c u [] d v k (e, l) = subst (λ (x : String). is_known g x ≡ true) l k
  Walk-known c u (x ∷ p) d v k (e, m, at, w) =
      Walk-known (fadd c e.w) x p d v
        (subst (λ (y : String). is_known g y ≡ true) at (ok.ends u e m)) w

  -- An agent at a finite distance has an entry, but for the source and for one that is too far.
  listed_or_far :
      (s : Search) (dst : String) (d : Float64)
      → IsNonneg d
      → d < infinity
      → dst ≢ source
      → (is_listed max_hops source s dst d ≡ true)
        ⊎ ((0 < max_hops) × (max_hops < hops_of s dst % 2 ^ 32))
  unfolding is_listed
  listed_or_far s dst d n l ne = ground (arith, feq-infinity d n, l, ne, eq_iff dst source)

  dijkstra-listed :
      (p : List String) (c : Float64) (v : String)
      → is_known g source ≡ true
      → Walk g 0 source p c v
      → c < infinity
      → v ≢ source
      → ((e : RouteEntry) × Among e
            (entries_of max_hops source (dijkstra g source) (dijkstra g source).dist)
          × (e.dst_agent ≡ v))
        ⊎ ((0 < max_hops) × (max_hops < hops_of (dijkstra g source) v % 2 ^ 32))
  unfolding entry_for
  dijkstra-listed p c v ks w l ne =
      let s = dijkstra g source in
      let least = dijkstra-Least g source ok ks p c v w in
      let keys = (dijkstra-HasKeys g ok source).keys v in
      elim (Option-cases (lookup v s.dist)) [
        | inl e ↦ absurd (ground (arith, e, keys, Walk-known 0 source p c v ks w))
        | inr (d, e) ↦
            let n = (dijkstra-Done g source ok ks).inv.state.nonneg v in
            let small : d ≤ c = ground (arith, e, least) in
            elim (listed_or_far s v d (omega (arith, small, l)) (omega (arith, small, l)) ne) [
              | inr far ↦ inr far
              | inl h ↦ inl (
                entry_for max_hops source s v d,
                entries_of-Among s s.dist v d (lookup-Among v d s.dist e) h,
                refl,
              )
            ]
      ]

module _ (cfg : MeshConfig) (order : Links → Links) (probes : List (Option LinkProbe))
    (source : String) (range : IsRange order) (costs : All (HasCosts (cost_fn cfg)) probes) where
  abbrev pub the_graph : Graph
  the_graph = build_graph (cost_fn cfg) order probes

  -- Where no probe has a negative cost or one that is no number, each entry of the table has as
  -- path a walk from the source to its agent over the links of the graph, of the cost and the
  -- number of hops of the entry, within the limit; its next hop is the first agent of the walk;
  -- and no walk to the agent costs less.
  pub route_entries-IsRoute :
      All (IsRoute the_graph cfg.max_hops source) (route_entries cfg order probes source)
  unfolding route_entries
  route_entries-IsRoute =
      let ok = build_graph-IsGraph (cost_fn cfg) order probes range costs in
      let s = dijkstra the_graph source in
      sort_by-All (λ (e : RouteEntry). e.dst_agent) (IsRoute the_graph cfg.max_hops source)
        (entries_of cfg.max_hops source s s.dist)
        (entries_of-All the_graph cfg.max_hops source ok s (IsRoute the_graph cfg.max_hops source)
          s.dist (dijkstra-IsRoute the_graph cfg.max_hops source ok))

  -- Under the same condition, an agent that a walk of finite cost leads to from the source has an
  -- entry in the table, but for the source itself and for an agent whose recorded hops are above
  -- the limit.
  pub route_entries-Complete :
      (p : List String) (c : Float64) (v : String)
      → is_known the_graph source ≡ true
      → Walk the_graph 0 source p c v
      → c < infinity
      → v ≢ source
      → ((e : RouteEntry) × Among e (route_entries cfg order probes source) × (e.dst_agent ≡ v))
        ⊎ ((0 < cfg.max_hops) × (cfg.max_hops < hops_of (dijkstra the_graph source) v % 2 ^ 32))
  unfolding route_entries
  route_entries-Complete p c v ks w l ne =
      let ok = build_graph-IsGraph (cost_fn cfg) order probes range costs in
      let s = dijkstra the_graph source in
      elim (dijkstra-listed the_graph cfg.max_hops source ok p c v ks w l ne) [
        | inr far ↦ inr far
        | inl (e, m, at) ↦ inl (
          e,
          sort_by-Among (λ (r : RouteEntry). r.dst_agent) e
              (entries_of cfg.max_hops source s s.dist) m,
          at,
        )
      ]
