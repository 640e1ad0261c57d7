-- ===== src/Mesh/Search/Sweep.antt =====
-- The loop over the edges of one agent.
use metalwatch.Base.{
  ◌≤◌, ◌<◌, ◌≡◌, refl, sym, ap, ◌∙◌, subst, String, true, false, Among, found, later, List, [], ◌∷◌,
  eq_iff, Bool-cases, inl, inr, ◌⊎◌, arith,
}
use metalwatch.Base.Float.{Float64, flt, flt-ltb}
use metalwatch.Base.Float.Sum.{fadd, fadd-IsNonneg, fadd_grows}
use metalwatch.Mesh.Graph.{Graph, Edge, edges_of}
use metalwatch.Mesh.Search.{Search, dist_of, is_visited, relax, relax_all}
use metalwatch.Mesh.Search.State.{
  is_known, IsGraph, State, lowered, lowered-dist_of, lowered-is_visited, lowered-kept,
  lowered-State,
}

module _ (g : Graph) (src : String) (ok : IsGraph g) (u : String) where
  -- No edge of a visited agent shortens a route, but for those of `u` that are still to come.
  pub record EdgeSweep (pending : List Edge) (s : Search) : Type 0 where
    pub state : State g src s
    pub seen : is_visited s u ≡ true
    pub below : (x : String) → is_visited s x ≡ true → dist_of s x ≤ dist_of s u
    pub above :
        (x : String) → is_known g x ≡ true → is_visited s x ≡ false → dist_of s u ≤ dist_of s x
    pub closed :
        (x : String) (e : Edge)
        → is_visited s x ≡ true
        → Among e (edges_of g x)
        → ((x ≡ u) × Among e pending) ⊎ (dist_of s e.to ≤ fadd (dist_of s x) e.w)

  -- What one turn leaves as it was.
  pub record Kept (s s' : Search) : Type 0 where
    pub visits : (x : String) → is_visited s' x ≡ is_visited s x
    pub dists : (x : String) → is_visited s x ≡ true → dist_of s' x ≡ dist_of s x

  -- The edge in turn shortens no route any more.
  done_with :
      (s : Search) (e : Edge) (es : List Edge)
      → EdgeSweep (e ∷ es) s
      → dist_of s e.to ≤ fadd (dist_of s u) e.w
      → EdgeSweep es s
  done_with s e es w le = record {
    state = w.state;
    seen = w.seen;
    below = w.below;
    above = w.above;
    closed = λ x f v m. after x f (w.closed x f v m);
  }
    where
      after :
          (x : String) (f : Edge)
          → ((x ≡ u) × Among f (e ∷ es)) ⊎ (dist_of s f.to ≤ fadd (dist_of s x) f.w)
          → ((x ≡ u) × Among f es) ⊎ (dist_of s f.to ≤ fadd (dist_of s x) f.w)
      after x f (inr shorter) = inr shorter
      after x f (inl (at, later m)) = inl (at, m)
      after x f (inl (at, found same)) = inr (rw (at, same) le)

  lowered-EdgeSweep :
      (s : Search) (e : Edge) (es : List Edge)
      → Among e (edges_of g u)
      → EdgeSweep (e ∷ es) s
      → is_visited s e.to ≡ false
      → fadd (dist_of s u) e.w < dist_of s e.to
      → EdgeSweep (e ∷ es) (lowered g src s u e)
  lowered-EdgeSweep s e es m w unseen better =
      let kept = lowered-kept g src s u e ok w.state m w.seen unseen better in
      let dist' = lowered-dist_of g src s u e in
      let visits = lowered-is_visited g src s u e in
      let grows = fadd_grows (dist_of s u) e.w (w.state.nonneg u) (ok.weights u e m) in
      record {
        state = lowered-State g src s u e ok w.state m w.seen unseen better;
        seen = visits u ∙ w.seen;
        below = λ x v.
            let v' = sym (visits x) ∙ v in omega (arith, kept x v', kept u w.seen, w.below x v');
        above = λ x k v.
            let v' = sym (visits x) ∙ v in
            ground (arith, dist' x, kept u w.seen, w.above x k v', grows);
        closed = λ x f v n.
            let v' = sym (visits x) ∙ v in
            elim (w.closed x f v' n) [
              | inl at ↦ inl at
              | inr le ↦ inr (
                  subst (λ (d : Float64). dist_of (lowered g src s u e) f.to ≤ fadd d f.w)
                    (sym (kept x v'))
                    (ground (arith, dist' f.to, le, better, ap (dist_of s), eq_iff e.to f.to)))
            ];
      }

  relax-EdgeSweep :
      (s : Search) (e : Edge) (es : List Edge)
      → Among e (edges_of g u)
      → EdgeSweep (e ∷ es) s
      → EdgeSweep es (relax u e s) × Kept s (relax u e s)
  unfolding relax lowered
  relax-EdgeSweep s e es m w =
      let weight = ok.weights u e m in
      let nd = fadd (dist_of s u) e.w in
      let cmp =
        flt-ltb nd (dist_of s e.to) (fadd-IsNonneg (dist_of s u) e.w (w.state.nonneg u) weight)
          (w.state.nonneg e.to) in
      let same : Kept s s = record { visits = λ x. refl; dists = λ x v. refl } in
      elim (Bool-cases (is_visited s e.to)) [
        | inl v ↦
            let grows = fadd_grows (dist_of s u) e.w (w.state.nonneg u) weight in
            rw v (done_with s e es w (omega (arith, w.below e.to v, grows)), same)
        | inr v ↦ elim (Bool-cases (flt nd (dist_of s e.to))) [
          | inr h ↦ rw (v, h) (done_with s e es w (ground (arith, cmp, h)), same)
          | inl h ↦
              let better : nd < dist_of s e.to = ground (arith, cmp, h) in
              let kept = lowered-kept g src s u e ok w.state m w.seen v better in
              rw (v, h)
                (
                  done_with (lowered g src s u e) e es (lowered-EdgeSweep s e es m w v better) (
                      ground
                        (arith, lowered-dist_of g src s u e e.to, eq_iff e.to e.to, kept u w.seen)),
                  record { visits = lowered-is_visited g src s u e; dists = kept },
                )
        ]
      ]

  Kept-trans : {r s t : Search} → Kept r s → Kept s t → Kept r t
  Kept-trans k l = record {
    visits = λ x. l.visits x ∙ k.visits x;
    dists = λ x v. l.dists x (k.visits x ∙ v) ∙ k.dists x v;
  }

  pub relax_all-EdgeSweep :
      (es : List Edge) (s : Search)
      → ((e : Edge) → Among e es → Among e (edges_of g u))
      → EdgeSweep es s
      → EdgeSweep [] (relax_all u es s) × Kept s (relax_all u es s)
  unfolding relax_all
  relax_all-EdgeSweep [] s m w = (w, record { visits = λ x. refl; dists = λ x v. refl })
  relax_all-EdgeSweep (e ∷ es) s m w =
      let (w', k) = relax-EdgeSweep s e es (m e (found refl)) w in
      let (w'', l) = relax_all-EdgeSweep es (relax u e s) (λ f n. m f (later n)) w' in
      (w'', Kept-trans k l)
