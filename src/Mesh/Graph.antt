-- ===== src/Mesh/Graph.antt =====
-- The link probes and the undirected graph that they give, the first half of
-- backend/internal/engine/mesh_engine.go.
pub mod Build
pub mod Best
use metalwatch.Base.{
  ℕ, String, Bool, true, false, ◌&&◌, ◌||◌, not, Option, none, some, List, [], ◌∷◌, ◌++◌, str_eq,
  str_gt, if◌then◌else◌, arith,
}
use metalwatch.Base.Map.{Map, lookup, insert}
use metalwatch.Base.Int.{ℤ}
use metalwatch.Base.Float.{Float64, feq, fle}
use metalwatch.Base.Float.Sum.{fadd, fmul}

pub record LinkProbe : Type 0 where
  pub from_agent : String
  pub to_agent : String
  pub rtt_ms : Float64
  pub loss_rate : Float64
  pub measured_at : ℤ
  pub direct : Bool

pub record MeshConfig : Type 0 where
  pub loss_penalty : Float64
  pub hop_factor : Float64
  pub max_hops : ℕ

abbrev pub one : Float64
one = 0x3ff0000000000000

abbrev pub ten : Float64
ten = 0x4024000000000000

abbrev pub thousand : Float64
thousand = 0x408f400000000000

abbrev pub default_mesh_config : MeshConfig
default_mesh_config = record { loss_penalty = one; hop_factor = ten; max_hops = 255 }

-- What `NewMeshEngine` fills in.
unfoldable pub with_defaults : MeshConfig → MeshConfig
unfolding feq
with_defaults cfg = record cfg {
  loss_penalty = if feq cfg.loss_penalty 0 then one else cfg.loss_penalty;
  hop_factor = if feq cfg.hop_factor 0 then ten else cfg.hop_factor;
}

pub record Edge : Type 0 where
  pub to : String
  pub w : Float64

-- `costFn`, rounded after each operation, as Go does on amd64.
unfoldable pub cost_fn : MeshConfig → LinkProbe → Float64
cost_fn cfg p =
    fadd (fadd p.rtt_ms (fmul (fmul p.loss_rate thousand) cfg.loss_penalty)) cfg.hop_factor

unfoldable pub pair_key : String → String → String × String
pair_key a b = if str_gt b a then (a, b) else (b, a)

-- `map[[2]string]float64`
abbrev pub Links : Type 0
Links = List ((String × String) × Float64)

abbrev pub same_pair : String × String → String × String → Bool
same_pair k l = str_eq k.0 l.0 && str_eq k.1 l.1

unfoldable pub link_of : String × String → Links → Option Float64
link_of key [] = none
link_of key ((at, w) ∷ rest) = if same_pair at key then some w else link_of key rest

unfoldable pub set_link : String × String → Float64 → Links → Links
set_link key w [] = (key, w) ∷ []
set_link key w ((at, old) ∷ rest) =
    let later = set_link key w rest in
    if same_pair at key then (key, w) ∷ rest else (at, old) ∷ later

abbrev pub Graph : Type 0
Graph = Map (List Edge)

-- `g[u]`, nil on a missing key.
unfoldable pub edges_of : Graph → String → List Edge
unfolding lookup
edges_of g u = elim (lookup u g) [ none ↦ [] | some es ↦ es ]

-- `g[a] = append(g[a], edge{to: b, w: w})`
unfoldable pub attach : String → String → Float64 → Graph → Graph
unfolding edges_of insert
attach a b w g = insert a (edges_of g a ++ (record { to = b; w = w } ∷ [])) g

-- The second loop of `buildGraph`, over the links in the order of the range.
unfoldable pub connect : Links → Graph → Graph
unfolding attach
connect [] g = g
connect (((a, b), w) ∷ rest) g = connect rest (attach b a w (attach a b w g))

module _ (cost : LinkProbe → Float64) where
  -- One turn of the first loop of `buildGraph`.
  unfoldable pub best_link : Option LinkProbe → Links → Links
  unfolding pair_key link_of set_link
  best_link none best = best
  best_link (some p) best =
      let key = pair_key p.from_agent p.to_agent in
      if str_eq p.from_agent "" || str_eq p.to_agent ""
      then best
      else if str_eq p.from_agent p.to_agent
      then best
      else elim (link_of key best) [
        | none ↦ set_link key (cost p) best
        | some old ↦ if fle old (cost p) then best else set_link key (cost p) best
      ]

  unfoldable pub best_links : List (Option LinkProbe) → Links → Links
  unfolding best_link
  best_links [] best = best
  best_links (p ∷ probes) best = best_links probes (best_link p best)

  -- `order` is the order in which Go ranges over the links.
  unfoldable pub build_graph : (Links → Links) → List (Option LinkProbe) → Graph
  unfolding best_links connect
  build_graph order probes = connect (order (best_links probes [])) []
