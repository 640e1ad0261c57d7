-- ===== src/Mesh/Search/Turn.antt =====
-- One turn of the loop over the heap.
use metalwatch.Base.{
  ◌≤◌, ◌<◌, ◌≡◌, refl, sym, ap, ◌∙◌, subst, String, true, false, Among, [], str_eq, eq_iff,
  if◌then◌else◌, Bool-cases, inl, inr, arith,
}
use metalwatch.Base.Map.{insert, lookup-insert}
use metalwatch.Base.Float.{Float64}
use metalwatch.Base.Float.Sum.{fadd, infinity}
use metalwatch.Mesh.Heap.{pop}
use metalwatch.Mesh.Heap.Queue.{pop-IsHeap, pop-held, pop-found, pop-Least}
use metalwatch.Mesh.Graph.{Graph, Edge, edges_of}
use metalwatch.Mesh.Search.{Search, dist_of, is_visited, relax_all, take_nearest}
use metalwatch.Mesh.Search.State.{is_known, IsGraph, State}
use metalwatch.Mesh.Search.Sweep.{EdgeSweep, relax_all-EdgeSweep}

module _ (g : Graph) (src : String) where
  -- Between turns: the visited agents are the nearest, and none of their edges shortens a route.
  pub record Inv (s : Search) : Type 0 where
    pub state : State g src s
    pub level : Float64
    pub below : (x : String) → is_visited s x ≡ true → dist_of s x ≤ level
    pub above : (x : String) → is_known g x ≡ true → is_visited s x ≡ false → level ≤ dist_of s x
    pub closed :
        (x : String) (e : Edge)
        → is_visited s x ≡ true
        → Among e (edges_of g x)
        → dist_of s e.to ≤ fadd (dist_of s x) e.w

  module _ (s : Search) (i : Inv s) (more : 0 < s.heap.size) where
    next : String
    next = (pop s.heap).0.node

    taken : Search
    taken = record s { heap = (pop s.heap).1; visited = insert next true s.visited }

    -- The agent that is taken from the heap.
    record Nearest : Type 0 where
      known : is_known g next ≡ true
      unseen : is_visited s next ≡ false
      finite : dist_of s next < infinity
      nearest :
          (x : String) → is_known g x ≡ true → is_visited s x ≡ false → dist_of s next ≤ dist_of s x

    next-Nearest : Nearest
    unfolding next
    next-Nearest =
        let x = (pop s.heap).0.node in
        let d = (pop s.heap).0.dist in
        let at = pop-found s.heap i.state.is_heap more in
        let w = i.state.waiting x in
        let same : dist_of s x ≡ d = ground (arith, at, w) in
        record {
          known = ground (arith, at, w);
          unseen = ground (arith, at, w);
          finite = ground (arith, at, w);
          nearest = λ y k v. ground (
            arith,
            same,
            at,
            w,
            i.state.waiting y,
            k,
            v,
            pop-Least s.heap i.state.is_heap more y (dist_of s y),
          );
        }

    taken-is_visited :
        (x : String) → is_visited taken x ≡ (if str_eq next x then true else is_visited s x)
    unfolding taken
    taken-is_visited x = ground (arith, lookup-insert next x true s.visited)

    taken-State : State g src taken
    unfolding taken next
    taken-State =
        let n = next-Nearest in
        let st = i.state in
        let visits = taken-is_visited in
        record {
          is_heap = pop-IsHeap s.heap st.is_heap more;
          nonneg = st.nonneg;
          waiting = λ x. ground (arith, pop-held s.heap st.is_heap more x, st.waiting x, visits x);
          visited_known =
              λ x v. ground (arith, visits x, v, st.visited_known x, n.known, eq_iff next x);
          visited_finite = λ x v.
              ground
                (arith, visits x, v, st.visited_finite x, n.finite, eq_iff next x, ap (dist_of s));
          at_source = st.at_source;
          no_hop = st.no_hop;
          parent = λ x k f ne.
              let p = st.parent x k f ne in
              record {
                before = p.before;
                edge = p.edge;
                there = p.there;
                ends_at = p.ends_at;
                visited = ground (arith, visits p.before, p.visited);
                cost = p.cost;
                hop = p.hop;
                recorded = p.recorded;
              };
        }

    taken-EdgeSweep : (ok : IsGraph g) → EdgeSweep g src ok next (edges_of g next) taken
    unfolding taken
    taken-EdgeSweep ok =
        let n = next-Nearest in
        let visits = taken-is_visited in
        record {
          state = taken-State;
          seen = ground (arith, visits next, eq_iff next next);
          below = λ x v. ground (
            arith,
            visits x,
            v,
            eq_iff next x,
            ap (dist_of s),
            i.below x,
            i.above next n.known n.unseen,
          );
          above = λ x k v. ground (arith, visits x, v, n.nearest x k);
          closed = λ x e v m. elim (Bool-cases (str_eq next x)) [
            | inl at ↦
                let same = (eq_iff next x).0 at in
                inl (sym same, subst (λ (y : String). Among e (edges_of g y)) (sym same) m)
            | inr other ↦ inr (i.closed x e (ground (arith, visits x, v, other)) m)
          ];
        }

    settled : Search
    settled = relax_all next (edges_of g next) taken

    take_nearest-settled : take_nearest g s ≡ settled
    unfolding take_nearest settled taken next
    take_nearest-settled = let u = (pop s.heap).0.node in rw (next-Nearest.unseen) refl

    -- A turn keeps the invariant and visits one more agent of the graph.
    pub record Turned (s' : Search) : Type 0 where
      pub inv : Inv s'
      pub agent : String
      pub taken_known : is_known g agent ≡ true
      pub taken_new : is_visited s agent ≡ false
      pub visits :
          (x : String) → is_visited s' x ≡ (if str_eq agent x then true else is_visited s x)

    pub take_nearest-Turned : IsGraph g → Turned (take_nearest g s)
    unfolding settled
    take_nearest-Turned ok =
        let n = next-Nearest in
        let (w, k) =
          relax_all-EdgeSweep g src ok next (edges_of g next) taken (λ e m. m)
            (taken-EdgeSweep ok) in
        subst Turned (sym take_nearest-settled) (record {
          inv = record {
            state = w.state;
            level = dist_of settled next;
            below = w.below;
            above = w.above;
            closed = λ x e v m. elim (w.closed x e v m) [ inl at ↦ none_left at.1 | inr le ↦ le ];
          };
          agent = next;
          taken_known = n.known;
          taken_new = n.unseen;
          visits = λ x. k.visits x ∙ taken-is_visited x;
        })
      where
        none_left : {e : Edge} {P : Type 0} → Among e [] → P
        none_left m = elim m [ ]
