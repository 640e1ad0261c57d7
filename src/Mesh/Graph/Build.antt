-- ===== src/Mesh/Graph/Build.antt =====
-- The graph of the probes: every edge leads to an agent of the graph, and no agent is unnamed.
use metalwatch.Base.{
  ◌≡◌, refl, sym, ap, subst, String, true, false, ◌&&◌, Option, none, some, Among, found, later,
  All, List, [], ◌∷◌, ◌++◌, str_eq, str_gt, eq_iff, if◌then◌else◌, Bool-cases, Option-cases, inl,
  inr, ◌⊎◌, arith,
}
use metalwatch.Base.Map.{lookup, insert, lookup-insert}
use metalwatch.Base.Float.{Float64, IsNonneg, fle}
use metalwatch.Mesh.Graph.{
  LinkProbe, Edge, Links, Graph, edges_of, attach, connect, pair_key, link_of, set_link, best_link,
  best_links, build_graph,
}
use metalwatch.Mesh.Search.State.{is_known, IsGraph}

-- Between two named agents, with a weight.
abbrev IsLink : ((String × String) × Float64) → Type 0
IsLink ((a, b), w) = (str_eq a "" ≡ false) × (str_eq b "" ≡ false) × IsNonneg w

Among-snoc : (e y : Edge) (xs : List Edge) → Among e (xs ++ (y ∷ [])) → Among e xs ⊎ (e ≡ y)
Among-snoc e y [] (found p) = inr p
Among-snoc e y [] (later m) = elim m [ ]
Among-snoc e y (x ∷ xs) (found p) = inl (found p)
Among-snoc e y (x ∷ xs) (later m) = elim (Among-snoc e y xs m) [
  | inl n ↦ inl (later n)
  | inr p ↦ inr p
]

attach-is_known :
    (a b : String) (w : Float64) (g : Graph) (x : String)
    → is_known (attach a b w g) x ≡ (if str_eq a x then true else is_known g x)
unfolding attach
attach-is_known a b w g x =
    ground (arith, lookup-insert a x (edges_of g a ++ (record { to = b; w = w } ∷ [])) g)

listed : Option (List Edge) → List Edge
listed o = elim o [ none ↦ [] | some es ↦ es ]

attach-Among :
    (a b : String) (w : Float64) (g : Graph) (x : String) (e : Edge)
    → Among e (edges_of (attach a b w g) x)
    → Among e (edges_of g x) ⊎ ((a ≡ x) × (e ≡ record { to = b; w = w }))
unfolding attach edges_of listed
attach-Among a b w g x e m =
    let es = edges_of g a ++ (record { to = b; w = w } ∷ []) in
    let look = lookup-insert a x es g in
    elim (Bool-cases (str_eq a x)) [
      | inl same ↦
          let at = (eq_iff a x).0 same in
          let here : lookup x (insert a es g) ≡ some es = ground (arith, look, same) in
          elim (Among-snoc e (record { to = b; w = w }) (edges_of g a)
            (subst (λ (o : Option (List Edge)). Among e (listed o)) here m)) [
              | inl n ↦ inl (subst (λ (y : String). Among e (edges_of g y)) at n)
              | inr p ↦ inr (at, p)
            ]
      | inr other ↦
          let there : lookup x (insert a es g) ≡ lookup x g = ground (arith, look, other) in
          inl (subst (λ (o : Option (List Edge)). Among e (listed o)) there m)
    ]

connect-IsGraph : (ls : Links) (g : Graph) → All IsLink ls → IsGraph g → IsGraph (connect ls g)
unfolding connect
connect-IsGraph [] g h ok = ok
connect-IsGraph (((a, b), w) ∷ rest) g ((na, nb, nw), h) ok =
    let g1 = attach a b w g in
    let k1 = attach-is_known a b w g in
    let k2 = attach-is_known b a w g1 in
    connect-IsGraph rest (attach b a w g1) h (record {
      ends = λ u e m. elim (attach-Among b a w g1 u e m) [
        | inr (at, p) ↦ ground (arith, k2 e.to, k1 e.to, ap (λ (f : Edge). f.to) p, eq_iff a e.to)
        | inl n ↦ elim (attach-Among a b w g u e n) [
          | inr (at, p) ↦ ground (arith, k2 e.to, k1 e.to, ap (λ (f : Edge). f.to) p, eq_iff b e.to)
          | inl o ↦ ground (arith, k2 e.to, k1 e.to, ok.ends u e o)
        ]
      ];
      weights = λ u e m. elim (attach-Among b a w g1 u e m) [
        | inr (at, p) ↦ omega (arith, nw, ap (λ (f : Edge). f.w) p)
        | inl n ↦ elim (attach-Among a b w g u e n) [
          | inr (at, p) ↦ omega (arith, nw, ap (λ (f : Edge). f.w) p)
          | inl o ↦ ok.weights u e o
        ]
      ];
      named = ground (arith, k2 "", k1 "", na, nb, ok.named);
    })

set_link-All :
    (key : String × String) (w : Float64) (ls : Links)
    → IsLink (key, w)
    → All IsLink ls
    → All IsLink (set_link key w ls)
unfolding set_link
set_link-All key w [] l h = (l, tt)
set_link-All key w ((at, old) ∷ rest) l (k, h) =
    elim (Bool-cases (str_eq at.0 key.0 && str_eq at.1 key.1)) [
      | inl e ↦ rw e (l, h)
      | inr e ↦ rw e (k, set_link-All key w rest l h)
    ]

-- Of the probes between two named agents.
abbrev pub HasCosts : (LinkProbe → Float64) → Option LinkProbe → Type 0
HasCosts cost none = Unit {0}
HasCosts cost (some p) = IsNonneg (cost p)

pair_key-IsLink :
    (a b : String) (w : Float64)
    → str_eq a "" ≡ false
    → str_eq b "" ≡ false
    → IsNonneg w
    → IsLink (pair_key a b, w)
unfolding pair_key
pair_key-IsLink a b w na nb h = elim (Bool-cases (str_gt b a)) [
  | inl e ↦ rw e (na, nb, h)
  | inr e ↦ rw e (nb, na, h)
]

best_link-All :
    (cost : LinkProbe → Float64) (p : Option LinkProbe) (best : Links)
    → HasCosts cost p
    → All IsLink best
    → All IsLink (best_link cost p best)
unfolding best_link
best_link-All cost none best c h = h
best_link-All cost (some p) best c h =
    let key = pair_key p.from_agent p.to_agent in
    let kept = λ (na : str_eq p.from_agent "" ≡ false) (nb : str_eq p.to_agent "" ≡ false).
      set_link-All key (cost p) best (pair_key-IsLink p.from_agent p.to_agent (cost p) na nb c) h in
    elim (Bool-cases (str_eq p.from_agent "")) [
      | inl e ↦ rw e h
      | inr na ↦ elim (Bool-cases (str_eq p.to_agent "")) [
        | inl e ↦ rw (na, e) h
        | inr nb ↦ elim (Bool-cases (str_eq p.from_agent p.to_agent)) [
          | inl e ↦ rw (na, nb, e) h
          | inr ne ↦ elim (Option-cases (link_of key best)) [
            | inl e ↦ rw (na, nb, ne, e) (kept na nb)
            | inr (old, e) ↦ elim (Bool-cases (fle old (cost p))) [
              | inl f ↦ rw (na, nb, ne, e, f) h
              | inr f ↦ rw (na, nb, ne, e, f) (kept na nb)
            ]
          ]
        ]
      ]
    ]

best_links-All :
    (cost : LinkProbe → Float64) (probes : List (Option LinkProbe)) (best : Links)
    → All (HasCosts cost) probes
    → All IsLink best
    → All IsLink (best_links cost probes best)
unfolding best_links
best_links-All cost [] best c h = h
best_links-All cost (p ∷ probes) best c h =
    best_links-All cost probes (best_link cost p best) c.1 (best_link-All cost p best c.0 h)

All-Among : (ls : Links) (l : (String × String) × Float64) → All IsLink ls → Among l ls → IsLink l
All-Among (x ∷ ls) l h (found e) = subst IsLink (sym e) h.0
All-Among (x ∷ ls) l h (later m) = All-Among ls l h.1 m
All-Among [] l h m = elim m [ ]

Among-All :
    (ls : Links) → ((l : (String × String) × Float64) → Among l ls → IsLink l) → All IsLink ls
Among-All [] h = tt
Among-All (x ∷ ls) h = (h x (found refl), Among-All ls (λ l m. h l (later m)))

-- A range over a Go map visits the links of the map and nothing else.
pub record IsRange (order : Links → Links) : Type 0 where
  pub from : (ls : Links) (l : (String × String) × Float64) → Among l (order ls) → Among l ls
  pub to : (ls : Links) (l : (String × String) × Float64) → Among l ls → Among l (order ls)

nothing : {e : Edge} {P : Type 0} → Among e [] → P
nothing m = elim m [ ]

-- Where no probe has a negative cost or one that is no number, `buildGraph` gives a graph whose edges
-- have weights and lead to named agents of the graph, in whatever order Go ranges over the links.
pub build_graph-IsGraph :
    (cost : LinkProbe → Float64) (order : Links → Links) (probes : List (Option LinkProbe))
    → IsRange order
    → All (HasCosts cost) probes
    → IsGraph (build_graph cost order probes)
unfolding build_graph edges_of lookup
build_graph-IsGraph cost order probes o c =
    connect-IsGraph (order (best_links cost probes [])) []
      (Among-All (order (best_links cost probes [])) (λ l m.
        All-Among (best_links cost probes []) l (best_links-All cost probes [] c tt)
          (o.from (best_links cost probes []) l m)))
      (record { ends = λ u e m. nothing m; weights = λ u e m. nothing m; named = refl })
