-- ===== src/Mesh/Table.antt =====
-- The route table, `Compute` of backend/internal/engine/mesh_engine.go: an entry for each agent that
-- has a route within the limit of hops, sorted by the agent.
pub mod Entries
use metalwatch.Base.{
  ℕ, zero, suc, ◌+◌, ◌%◌, ◌^◌, String, Bool, true, false, ◌&&◌, not, Option, none, some, List, [],
  ◌∷◌, str_eq, ltb, ◌==◌, if◌then◌else◌, arith,
}
use metalwatch.Base.Map.{Map, lookup}
use metalwatch.Base.Int.{ℤ}
use metalwatch.Base.Sort.{sort_by}
use metalwatch.Base.Float.{Float64, feq}
use metalwatch.Base.Float.Sum.{infinity}
use metalwatch.Mesh.Graph.{LinkProbe, MeshConfig, Links, cost_fn, build_graph}
use metalwatch.Mesh.Search.{Search, or_else, hops_of, dijkstra, rebuild_path, path_next_hop}

pub record RouteEntry : Type 0 where
  pub dst_agent : String
  pub next_hop : String
  pub hop_count : ℕ
  pub cost : Float64
  pub path : List String

-- `append([]string{cur}, path...)` is nil only where `rebuildPath` returns nil.
abbrev pub path_list : Option (List String) → List String
path_list none = []
path_list (some p) = p

module _ (max_hops : ℕ) (source : String) (s : Search) where
  -- `uint32(hops[dst])`
  abbrev pub hop_count_of : String → ℕ
  hop_count_of dst = hops_of s dst % 2 ^ 32

  unfoldable pub is_listed : String → Float64 → Bool
  is_listed dst d =
      if str_eq dst source
      then false
      else if feq d infinity
      then false
      else not (ltb 0 max_hops && ltb max_hops (hop_count_of dst))

  unfoldable pub entry_for : String → Float64 → RouteEntry
  unfolding rebuild_path path_next_hop
  entry_for dst d =
      let path = rebuild_path (suc (hops_of s dst)) s.prev source dst in
      record {
        dst_agent = dst;
        next_hop = path_next_hop path;
        hop_count = hop_count_of dst;
        cost = d;
        path = path_list path;
      }

  unfoldable pub entries_of : Map Float64 → List RouteEntry
  unfolding is_listed entry_for
  entries_of [] = []
  entries_of ((dst, d) ∷ rest) =
      let later = entries_of rest in if is_listed dst d then entry_for dst d ∷ later else later

-- The order of the range over the distances does not show: the entries are sorted by distinct agents.
unfoldable pub route_entries :
    MeshConfig → (Links → Links) → List (Option LinkProbe) → String → List RouteEntry
unfolding dijkstra build_graph cost_fn entries_of sort_by
route_entries cfg order probes source =
    let s = dijkstra (build_graph (cost_fn cfg) order probes) source in
    sort_by (λ e. e.dst_agent) (entries_of cfg.max_hops source s s.dist)

pub record RouteTable : Type 0 where
  pub version : ℤ
  pub computed_at : ℤ
  pub entries : List RouteEntry
  pub max_hops : ℕ
