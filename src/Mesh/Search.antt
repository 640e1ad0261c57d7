-- ===== src/Mesh/Search.antt =====
-- `dijkstra` and `rebuildPath`, backend/internal/engine/mesh_engine.go: shortest routes from one
-- agent, by the indexed heap.
pub mod State
pub mod Sweep
pub mod Turn
pub mod Loop
pub mod Routes
pub mod Keys
use metalwatch.Base.{
  ℕ, zero, suc, ◌+◌, String, Bool, true, false, Option, none, some, List, [], ◌∷◌, str_eq, ◌==◌,
  if◌then◌else◌, length, arith,
}
use metalwatch.Base.Map.{Map, lookup, insert}
use metalwatch.Base.Float.{Float64, flt}
use metalwatch.Base.Float.Sum.{fadd, infinity}
use metalwatch.Mesh.Heap.{PqItem, IndexHeap, contains, push, pop, update}
use metalwatch.Mesh.Graph.{Graph, Edge, edges_of}

pub record Search : Type 0 where
  pub dist : Map Float64
  pub prev : Map String
  pub hops : Map ℕ
  pub visited : Map Bool
  pub heap : IndexHeap

-- The reads of the maps, with Go's zero value on a missing key.
abbrev pub or_else {ℓ} : {A : Type ℓ} → A → Option A → A
or_else a none = a
or_else a (some b) = b

abbrev pub dist_of : Search → String → Float64
dist_of s x = or_else 0 (lookup x s.dist)

abbrev pub hops_of : Search → String → ℕ
hops_of s x = or_else 0 (lookup x s.hops)

abbrev pub is_visited : Search → String → Bool
is_visited s x = or_else false (lookup x s.visited)

unfoldable pub all_infinite : Graph → Map Float64
unfolding insert
all_infinite [] = []
all_infinite ((n, es) ∷ rest) = insert n infinity (all_infinite rest)

unfoldable pub offer : String → Float64 → IndexHeap → IndexHeap
unfolding contains update push
offer x d h = if contains x h then update x d h else push (record { node = x; dist = d }) h

-- One turn of the loop over the edges of `u`.
unfoldable pub relax : String → Edge → Search → Search
unfolding offer
relax u e s =
    let nd = fadd (dist_of s u) e.w in
    if is_visited s e.to
    then s
    else if flt nd (dist_of s e.to)
    then record s {
      dist = insert e.to nd s.dist;
      prev = insert e.to u s.prev;
      hops = insert e.to (hops_of s u + 1) s.hops;
      heap = offer e.to nd s.heap;
    }
    else s

unfoldable pub relax_all : String → List Edge → Search → Search
unfolding relax
relax_all u [] s = s
relax_all u (e ∷ es) s = relax_all u es (relax u e s)

-- One turn of the loop over the heap.
unfoldable pub take_nearest : Graph → Search → Search
unfolding pop relax_all edges_of
take_nearest g s =
    let u = (pop s.heap).0.node in
    let s' = record s { heap = (pop s.heap).1 } in
    if is_visited s u
    then s'
    else relax_all u (edges_of g u) (record s' { visited = insert u true s.visited })

-- Each turn visits another agent of the graph, so it has as many turns as the graph has agents.
unfoldable pub settle_all : ℕ → Graph → Search → Search
unfolding take_nearest
settle_all zero g s = s
settle_all (suc left) g s =
    let rest = settle_all left g (take_nearest g s) in if s.heap.size == 0 then s else rest

abbrev pub no_items : IndexHeap
no_items = record { size = 0; items = λ i. record { node = ""; dist = 0 }; pos = λ x. none }

unfoldable pub unsearched : Graph → Search
unsearched g = record { dist = all_infinite g; prev = []; hops = []; visited = []; heap = no_items }

unfoldable pub started : Graph → String → Search
unfolding unsearched insert push
started g src = record (unsearched g) {
  dist = insert src 0 (all_infinite g);
  heap = push (record { node = src; dist = 0 }) no_items;
}

unfoldable pub dijkstra : Graph → String → Search
unfolding settle_all started unsearched
dijkstra g src = elim (lookup src g) [
  | none ↦ unsearched g
  | some es ↦ settle_all (length g) g (started g src)
]

-- The path that is built from its end: `path` holds what follows `cur`.
unfoldable pub rebuild : ℕ → Map String → String → String → List String → Option (List String)
rebuild zero prev src cur path = none
rebuild (suc left) prev src cur path =
    let rest = rebuild left prev src (or_else "" (lookup cur prev)) (cur ∷ path) in
    if str_eq cur "" then none else if str_eq cur src then some (cur ∷ path) else rest

-- `left` bounds the agents on the path.
unfoldable pub rebuild_path : ℕ → Map String → String → String → Option (List String)
unfolding rebuild lookup
rebuild_path left prev src dst =
    let path = rebuild left prev src dst [] in
    if str_eq dst src then path else elim (lookup dst prev) [ none ↦ none | some _ ↦ path ]

unfoldable pub path_next_hop : Option (List String) → String
path_next_hop (some (here ∷ next ∷ rest)) = next
path_next_hop _ = ""
