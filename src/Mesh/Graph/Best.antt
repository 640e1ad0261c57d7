-- ===== src/Mesh/Graph/Best.antt =====
-- Of the probes of one link, in either direction, the graph keeps the least cost.
use metalwatch.Base.{
  ◌≡◌, refl, sym, ap, ◌∙◌, min, String, Bool, true, false, ◌&&◌, ◌||◌, not, str_gt, Option, none,
  some, All, List, [], ◌∷◌, str_eq, eq_iff, if◌then◌else◌, Bool-cases, Option-cases, inl, inr,
  arith,
}
use metalwatch.Base.Text.{str_gt_asymm, str_gt_connex}
use metalwatch.Base.Float.{Float64, IsNonneg, fle, fle-leb}
use metalwatch.Mesh.Graph.{
  LinkProbe, Links, same_pair, pair_key, link_of, set_link, best_link, best_links,
}
use metalwatch.Mesh.Graph.Build.{HasCosts}

-- The smaller of two costs, where there are two.
abbrev pub lesser : Option Float64 → Option Float64 → Option Float64
lesser none o = o
lesser (some a) none = some a
lesser (some a) (some b) = some (min a b)

-- A probe between two named agents that differ, in either direction.
abbrev pub between : String → String → LinkProbe → Bool
between a b p =
    not (str_eq p.from_agent "")
    && not (str_eq p.to_agent "")
    && not (str_eq p.from_agent p.to_agent)
    && (str_eq p.from_agent a && str_eq p.to_agent b
        || str_eq p.from_agent b && str_eq p.to_agent a)

-- A probe that the code puts under a key.
abbrev stands_under : String × String → LinkProbe → Bool
stands_under key p =
    not (str_eq p.from_agent "")
    && not (str_eq p.to_agent "")
    && not (str_eq p.from_agent p.to_agent)
    && same_pair (pair_key p.from_agent p.to_agent) key

module _ (cost : LinkProbe → Float64) where
  -- The least cost of the probes between two agents.
  abbrev pub cheapest : String → String → List (Option LinkProbe) → Option Float64
  cheapest a b [] = none
  cheapest a b (none ∷ probes) = cheapest a b probes
  cheapest a b (some p ∷ probes) =
      lesser (if between a b p then some (cost p) else none) (cheapest a b probes)

  abbrev cost_of : String × String → Option LinkProbe → Option Float64
  cost_of key none = none
  cost_of key (some p) = if stands_under key p then some (cost p) else none

  abbrev cheapest_keyed : String × String → List (Option LinkProbe) → Option Float64
  cheapest_keyed key [] = none
  cheapest_keyed key (p ∷ probes) = lesser (cost_of key p) (cheapest_keyed key probes)

link_of-set_link :
    (key other : String × String) (w : Float64) (ls : Links)
    → link_of other (set_link key w ls) ≡ (if same_pair key other then some w else link_of other ls)
unfolding link_of set_link
link_of-set_link key other w [] = refl
link_of-set_link key other w ((at, old) ∷ rest) = ground (
  arith,
  link_of-set_link key other w rest,
  eq_iff at.0 other.0,
  eq_iff at.1 other.1,
  eq_iff key.0 other.0,
  eq_iff key.1 other.1,
  eq_iff at.0 key.0,
  eq_iff at.1 key.1,
)

lesser_assoc : (a b c : Option Float64) → lesser (lesser a b) c ≡ lesser a (lesser b c)
lesser_assoc none b c = refl
lesser_assoc (some a) none c = refl
lesser_assoc (some a) (some b) none = refl
lesser_assoc (some a) (some b) (some c) = ap (λ (x : Float64). some x) (omega arith)

lesser-IsNonneg :
    (a b : Option Float64) (w : Float64)
    → ((v : Float64) → a ≡ some v → IsNonneg v)
    → ((v : Float64) → b ≡ some v → IsNonneg v)
    → lesser a b ≡ some w
    → IsNonneg w
lesser-IsNonneg none b w h k e = k w e
lesser-IsNonneg (some a) none w h k e = h w e
lesser-IsNonneg (some a) (some b) w h k e = ground (arith, h a refl, k b refl, e)

same_pair→≡ : (k l : String × String) → same_pair k l ≡ true → k ≡ l
same_pair→≡ k l e = ground (arith, e, eq_iff k.0 l.0, eq_iff k.1 l.1)

abbrev Weighted : Links → Type 0
Weighted ls = (key : String × String) (w : Float64) → link_of key ls ≡ some w → IsNonneg w

module _ (cost : LinkProbe → Float64) where
  set_link-lesser :
      (k key : String × String) (w : Float64) (best : Links) (old : Option Float64)
      → link_of k best ≡ old
      → lesser old (some w) ≡ some w
      → link_of key (set_link k w best)
        ≡ lesser (link_of key best) (if same_pair k key then some w else none)
  set_link-lesser k key w best old e le = elim (Bool-cases (same_pair k key)) [
    | inl s ↦ ground (
      arith,
      link_of-set_link k key w best,
      s,
      e,
      le,
      ap (λ (j : String × String). link_of j best) (same_pair→≡ k key s),
    )
    | inr s ↦ ground (arith, link_of-set_link k key w best, s)
  ]

  keep-lesser :
      (k key : String × String) (w : Float64) (best : Links) (old : Float64)
      → link_of k best ≡ some old
      → lesser (some old) (some w) ≡ some old
      → link_of key best ≡ lesser (link_of key best) (if same_pair k key then some w else none)
  keep-lesser k key w best old e le = elim (Bool-cases (same_pair k key)) [
    | inl s ↦
        ground (arith, s, e, le, ap (λ (j : String × String). link_of j best) (same_pair→≡ k key s))
    | inr s ↦ ground (arith, s)
  ]

  best_link-lesser :
      (key : String × String) (p : Option LinkProbe) (best : Links)
      → HasCosts cost p
      → Weighted best
      → link_of key (best_link cost p best) ≡ lesser (link_of key best) (cost_of cost key p)
  unfolding best_link
  best_link-lesser key none best c h = ground arith
  best_link-lesser key (some p) best c h =
      let k = pair_key p.from_agent p.to_agent in
      let none_more : lesser (link_of key best) none ≡ link_of key best = ground arith in
      elim (Bool-cases (str_eq p.from_agent "")) [
        | inl e ↦ rw e (sym none_more)
        | inr na ↦ elim (Bool-cases (str_eq p.to_agent "")) [
          | inl e ↦ rw (na, e) (sym none_more)
          | inr nb ↦ elim (Bool-cases (str_eq p.from_agent p.to_agent)) [
            | inl e ↦ rw (na, nb, e) (sym none_more)
            | inr ne ↦ elim (Option-cases (link_of k best)) [
              | inl e ↦ rw (na, nb, ne, e) (set_link-lesser k key (cost p) best none e refl)
              | inr (old, e) ↦ elim (Bool-cases (fle old (cost p))) [
                | inl f ↦
                    rw (na, nb, ne, e, f)
                      (keep-lesser k key (cost p) best old e (
                        ap (λ (x : Float64). some x)
                          (ground (arith, f, fle-leb old (cost p) (h k old e) c))))
                | inr f ↦
                    rw (na, nb, ne, e, f)
                      (set_link-lesser k key (cost p) best (some old) e (
                        ap (λ (x : Float64). some x)
                          (ground (arith, f, fle-leb old (cost p) (h k old e) c))))
              ]
            ]
          ]
        ]
      ]

  best_link-Weighted :
      (p : Option LinkProbe) (best : Links)
      → HasCosts cost p
      → Weighted best
      → Weighted (best_link cost p best)
  best_link-Weighted none best c h key w e =
      h key w (ground (arith, best_link-lesser key none best c h, e))
  best_link-Weighted (some p) best c h key w e =
      lesser-IsNonneg (link_of key best) (cost_of cost key (some p)) w (h key)
        (λ v f. ground (arith, f, c)) (sym (best_link-lesser key (some p) best c h) ∙ e)

  best_links-lesser :
      (key : String × String) (probes : List (Option LinkProbe)) (best : Links)
      → All (HasCosts cost) probes
      → Weighted best
      → link_of key (best_links cost probes best)
        ≡ lesser (link_of key best) (cheapest_keyed cost key probes)
  unfolding best_links
  best_links-lesser key [] best c h = ground arith
  best_links-lesser key (p ∷ probes) best c h =
      best_links-lesser key probes (best_link cost p best) c.1 (best_link-Weighted p best c.0 h)
      ∙ ap (λ (o : Option Float64). lesser o (cheapest_keyed cost key probes))
          (best_link-lesser key p best c.0 h)
      ∙ lesser_assoc (link_of key best) (cost_of cost key p) (cheapest_keyed cost key probes)

  -- The same with the code's own key.
  best_links_lem :
      (key : String × String) (probes : List (Option LinkProbe))
      → All (HasCosts cost) probes
      → link_of key (best_links cost probes []) ≡ cheapest_keyed cost key probes
  unfolding link_of
  best_links_lem key probes c =
      best_links-lesser key probes [] c (λ k w e. absurd (ground (arith, e)))

-- A pair in its order is the key of both directions, and no other key is asked for.
between-keyed :
    (a b : String) (p : LinkProbe) → str_gt b a ≡ true → stands_under (a, b) p ≡ between a b p
unfolding pair_key
between-keyed a b p h = ground (
  arith,
  str_gt_asymm b a h,
  str_gt_connex p.from_agent p.to_agent,
  eq_iff p.from_agent "",
  eq_iff p.to_agent "",
  eq_iff p.from_agent p.to_agent,
  eq_iff p.from_agent a,
  eq_iff p.from_agent b,
  eq_iff p.to_agent a,
  eq_iff p.to_agent b,
)

disordered_key : (a b : String) (p : LinkProbe) → str_gt b a ≡ false → stands_under (a, b) p ≡ false
unfolding pair_key
disordered_key a b p h = ground (
  arith,
  str_gt_connex p.from_agent p.to_agent,
  eq_iff p.from_agent p.to_agent,
  eq_iff p.from_agent a,
  eq_iff p.from_agent b,
  eq_iff p.to_agent a,
  eq_iff p.to_agent b,
)

module _ (cost : LinkProbe → Float64) where
  cheapest_keyed-ordered :
      (a b : String) (probes : List (Option LinkProbe))
      → str_gt b a ≡ true
      → cheapest_keyed cost (a, b) probes ≡ cheapest cost a b probes
  cheapest_keyed-ordered a b [] h = refl
  cheapest_keyed-ordered a b (none ∷ probes) h = cheapest_keyed-ordered a b probes h
  cheapest_keyed-ordered a b (some p ∷ probes) h =
      ap
        (λ (t : Bool).
          lesser (if t then some (cost p) else none) (cheapest_keyed cost (a, b) probes))
        (between-keyed a b p h)
      ∙ ap (lesser (if between a b p then some (cost p) else none))
          (cheapest_keyed-ordered a b probes h)

  cheapest_keyed-disordered :
      (a b : String) (probes : List (Option LinkProbe))
      → str_gt b a ≡ false
      → cheapest_keyed cost (a, b) probes ≡ none
  cheapest_keyed-disordered a b [] h = refl
  cheapest_keyed-disordered a b (none ∷ probes) h = cheapest_keyed-disordered a b probes h
  cheapest_keyed-disordered a b (some p ∷ probes) h =
      ap
        (λ (t : Bool).
          lesser (if t then some (cost p) else none) (cheapest_keyed cost (a, b) probes))
        (disordered_key a b p h)
      ∙ cheapest_keyed-disordered a b probes h

  -- Where no probe has a negative cost or one that is no number, the first loop of buildGraph
  -- holds for two agents in the order of their names the least cost of the probes from either one
  -- to the other, and nothing where there is no such probe between named agents that differ; for
  -- two agents that are not in order it holds nothing.
  pub best_links-cheapest :
      (a b : String) (probes : List (Option LinkProbe))
      → All (HasCosts cost) probes
      → link_of (a, b) (best_links cost probes [])
        ≡ (if str_gt b a then cheapest cost a b probes else none)
  best_links-cheapest a b probes c =
      best_links_lem cost (a, b) probes c ∙ elim (Bool-cases (str_gt b a)) [
        | inl h ↦ rw h (cheapest_keyed-ordered a b probes h)
        | inr h ↦ rw h (cheapest_keyed-disordered a b probes h)
      ]
