-- ===== src/Mesh/Search/State.antt =====
-- What holds of the search between its steps.
use metalwatch.Base.{
  ◌+◌, ◌<◌, ◌≡◌, ◌≢◌, refl, sym, ap, ◌∙◌, String, Bool, true, false, ◌&&◌, not, none, some, Among,
  str_eq, eq_iff, ltb, if◌then◌else◌, Bool-cases, inl, inr, arith,
}
use metalwatch.Base.Map.{lookup, insert, lookup-insert}
use metalwatch.Base.Float.{IsNonneg}
use metalwatch.Base.Float.Sum.{fadd, infinity, fadd-IsNonneg}
use metalwatch.Mesh.Heap.Queue.{IsHeap, held}
use metalwatch.Mesh.Heap.Offer.{Offered, offer-Offered}
use metalwatch.Mesh.Graph.{Graph, Edge, edges_of}
use metalwatch.Mesh.Search.{Search, dist_of, hops_of, is_visited, offer}

abbrev pub is_known : Graph → String → Bool
is_known g x = elim (lookup x g) [ none ↦ false | some es ↦ true ]

-- Every edge ends at an agent of the graph and has a weight, and every agent has a name.
pub record IsGraph (g : Graph) : Type 0 where
  pub ends : (u : String) (e : Edge) → Among e (edges_of g u) → is_known g e.to ≡ true
  pub weights : (u : String) (e : Edge) → Among e (edges_of g u) → IsNonneg e.w
  pub named : is_known g "" ≡ false

module _ (g : Graph) (src : String) where
  -- The last link of the route to an agent.
  pub record Parent (s : Search) (x : String) : Type 0 where
    pub before : String
    pub edge : Edge
    pub there : Among edge (edges_of g before)
    pub ends_at : edge.to ≡ x
    pub visited : is_visited s before ≡ true
    pub cost : dist_of s x ≡ fadd (dist_of s before) edge.w
    pub hop : hops_of s x ≡ hops_of s before + 1
    pub recorded : lookup x s.prev ≡ some before

  pub record State (s : Search) : Type 0 where
    pub is_heap : IsHeap s.heap
    pub nonneg : (x : String) → IsNonneg (dist_of s x)
    pub waiting :
        (x : String)
        → held s.heap x ≡ (
            if is_known g x && not (is_visited s x) && ltb (dist_of s x) infinity
            then some (dist_of s x)
            else none)
    pub visited_known : (x : String) → is_visited s x ≡ true → is_known g x ≡ true
    pub visited_finite : (x : String) → is_visited s x ≡ true → dist_of s x < infinity
    pub at_source : dist_of s src ≡ 0
    pub no_hop : hops_of s src ≡ 0
    pub parent : (x : String) → is_known g x ≡ true → dist_of s x < infinity → x ≢ src → Parent s x

  module _ (s : Search) (u : String) (e : Edge) where
    unfoldable pub lowered : Search
    lowered =
        let nd = fadd (dist_of s u) e.w in
        record s {
          dist = insert e.to nd s.dist;
          prev = insert e.to u s.prev;
          hops = insert e.to (hops_of s u + 1) s.hops;
          heap = offer e.to nd s.heap;
        }

    pub lowered-dist_of :
        (x : String)
        → dist_of lowered x ≡ (if str_eq e.to x then fadd (dist_of s u) e.w else dist_of s x)
    unfolding lowered
    lowered-dist_of x = ground (arith, lookup-insert e.to x (fadd (dist_of s u) e.w) s.dist)

    lowered-hops_of :
        (x : String) → hops_of lowered x ≡ (if str_eq e.to x then hops_of s u + 1 else hops_of s x)
    unfolding lowered
    lowered-hops_of x = ground (arith, lookup-insert e.to x (hops_of s u + 1) s.hops)

    lowered-prev :
        (x : String) → lookup x lowered.prev ≡ (if str_eq e.to x then some u else lookup x s.prev)
    unfolding lowered
    lowered-prev x = lookup-insert e.to x u s.prev

    pub lowered-is_visited : (x : String) → is_visited lowered x ≡ is_visited s x
    unfolding lowered
    lowered-is_visited x = refl

    module _ (ok : IsGraph g) (st : State s) (of_u : Among e (edges_of g u))
        (seen : is_visited s u ≡ true) (unseen : is_visited s e.to ≡ false)
        (better : fadd (dist_of s u) e.w < dist_of s e.to) where
      lowered-Offered : Offered e.to (fadd (dist_of s u) e.w) s.heap lowered.heap
      unfolding lowered
      lowered-Offered =
          offer-Offered e.to (fadd (dist_of s u) e.w) s.heap st.is_heap
            (fadd-IsNonneg (dist_of s u) e.w (st.nonneg u) (ok.weights u e of_u))
            (λ old h. ground (arith, h, st.waiting e.to, better))

      other_agent : (y : String) → is_visited s y ≡ true → str_eq e.to y ≡ false
      other_agent y v = elim (Bool-cases (str_eq e.to y)) [
        | inl same ↦ absurd (ground (arith, unseen, v, ap (is_visited s) ((eq_iff e.to y).0 same)))
        | inr other ↦ other
      ]

      pub lowered-kept : (y : String) → is_visited s y ≡ true → dist_of lowered y ≡ dist_of s y
      lowered-kept y v = ground (arith, lowered-dist_of y, other_agent y v)

      lowered-hops_kept : (y : String) → is_visited s y ≡ true → hops_of lowered y ≡ hops_of s y
      lowered-hops_kept y v = ground (arith, lowered-hops_of y, other_agent y v)

      lowered-Parent :
          (x : String)
          → is_known g x ≡ true
          → dist_of lowered x < infinity
          → x ≢ src
          → Parent lowered x
      lowered-Parent x k f n = elim (Bool-cases (str_eq e.to x)) [
        | inl same ↦ record {
          before = u;
          edge = e;
          there = of_u;
          ends_at = (eq_iff e.to x).0 same;
          visited = lowered-is_visited u ∙ seen;
          cost = ground (arith, lowered-dist_of x, same, lowered-kept u seen);
          hop = ground (arith, lowered-hops_of x, same, lowered-hops_kept u seen);
          recorded = ground (arith, lowered-prev x, same);
        }
        | inr other ↦
            let p = st.parent x k (ground (arith, lowered-dist_of x, other, f)) n in
            record {
              before = p.before;
              edge = p.edge;
              there = p.there;
              ends_at = p.ends_at;
              visited = lowered-is_visited p.before ∙ p.visited;
              cost =
                  ground (arith, lowered-dist_of x, other, lowered-kept p.before p.visited, p.cost);
              hop =
                  ground
                    (arith, lowered-hops_of x, other, lowered-hops_kept p.before p.visited, p.hop);
              recorded = ground (arith, lowered-prev x, other, p.recorded);
            }
      ]

      not_source : str_eq e.to src ≡ false
      not_source = elim (Bool-cases (str_eq e.to src)) [
        | inl same ↦
            absurd (omega (arith, better, st.at_source, ap (dist_of s) ((eq_iff e.to src).0 same)))
        | inr other ↦ other
      ]

      pub lowered-State : State lowered
      lowered-State = record {
        is_heap = lowered-Offered.is_heap;
        nonneg = λ x. ground (arith, lowered-dist_of x, st.nonneg x, st.nonneg e.to, better);
        waiting = λ x. ground (
          arith,
          lowered-Offered.keys x,
          lowered-dist_of x,
          lowered-is_visited x,
          st.waiting x,
          eq_iff e.to x,
          unseen,
          ok.ends u e of_u,
          better,
          st.nonneg e.to,
        );
        visited_known = λ x v. st.visited_known x (sym (lowered-is_visited x) ∙ v);
        visited_finite = λ x v.
            let w = sym (lowered-is_visited x) ∙ v in
            omega (arith, lowered-kept x w, st.visited_finite x w);
        at_source = ground (arith, lowered-dist_of src, not_source, st.at_source);
        no_hop = ground (arith, lowered-hops_of src, not_source, st.no_hop);
        parent = lowered-Parent;
      }
