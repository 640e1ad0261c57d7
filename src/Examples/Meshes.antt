-- ===== src/Examples/Meshes.antt =====
-- Runs of the mesh engine: three agents in a row.
use metalwatch.Base.{
  ◌<◌, ◌≡◌, ◌≢◌, refl, String, true, false, Option, none, some, str_gt, Among, found, All, List, [],
  ◌∷◌, eq_iff, ◌%◌, ◌^◌, if◌then◌else◌, ◌⊎◌, ◌==◌, ltb, arith,
}
use metalwatch.Base.Map.{lookup}
use metalwatch.Base.Int.{pos, ◌+ℤ◌, wrap64}
use metalwatch.Base.Float.{Float64, is_nan, flt, rank}
use metalwatch.Base.Float.Sum.{fadd, fmul, infinity}
use metalwatch.Mesh.Heap.{IndexHeap, contains, push, pop, bubble_up}
use metalwatch.Mesh.Heap.Offer.{Offered, offer-Offered, Taken, pop-Taken}
use metalwatch.Mesh.Search.Loop.{no_items-IsHeap}
use metalwatch.Mesh.Fingerprint.{fingerprint}
use metalwatch.Mesh.Compute.{new_mesh_engine, compute, compute_twice}
use metalwatch.Mesh.Graph.{
  LinkProbe, Links, Graph, default_mesh_config, cost_fn, link_of, best_links, build_graph,
}
use metalwatch.Mesh.Graph.Build.{HasCosts, IsRange, build_graph-IsGraph}
use metalwatch.Mesh.Graph.Best.{cheapest, best_links-cheapest}
use metalwatch.Mesh.Search.{all_infinite, no_items, offer, dijkstra, dist_of, hops_of, is_visited}
use metalwatch.Mesh.Search.State.{is_known, IsGraph}
use metalwatch.Mesh.Search.Routes.{Walk, dijkstra_ends}
use metalwatch.Mesh.Table.{RouteEntry, route_entries}
use metalwatch.Mesh.Table.Entries.{IsRoute, route_entries-IsRoute, route_entries-Complete}

abbrev link : String → String → Float64 → Option LinkProbe
link a b rtt = some (record {
  from_agent = a;
  to_agent = b;
  rtt_ms = rtt;
  loss_rate = 0;
  measured_at = pos 0;
  direct = false;
})

-- 10 ms from A to B, 20 ms from B to C.
abbrev chain : List (Option LinkProbe)
chain = link "A" "B" 0x4024000000000000 ∷ link "B" "C" 0x4034000000000000 ∷ []

abbrev as_stored : Links → Links
as_stored ls = ls

as_stored-IsRange : IsRange as_stored
as_stored-IsRange = record { from = λ ls l m. m; to = λ ls l m. m }

chain-HasCosts : All (HasCosts (cost_fn default_mesh_config)) chain
unfolding cost_fn fadd fmul is_nan
chain-HasCosts = (omega arith, (omega arith, tt))

route_entries-IsRoute_example :
    All
      (IsRoute (build_graph (cost_fn default_mesh_config) as_stored chain) 255 "A")
      (route_entries default_mesh_config as_stored chain "A")
route_entries-IsRoute_example =
    route_entries-IsRoute default_mesh_config as_stored chain "A" as_stored-IsRange chain-HasCosts

abbrev chain_graph : Graph
chain_graph = build_graph (cost_fn default_mesh_config) as_stored chain

-- C is two links away, at 10 + 10 and 20 + 10.
route_to_C : dist_of (dijkstra chain_graph "A") "C" ≡ 0x4049000000000000
unfolding dijkstra build_graph cost_fn fadd fmul is_nan flt rank lookup all_infinite
route_to_C = refl

hops_to_C : hops_of (dijkstra chain_graph "A") "C" ≡ 2
unfolding dijkstra build_graph cost_fn fadd fmul is_nan flt rank lookup all_infinite
hops_to_C = refl

A_known : is_known chain_graph "A" ≡ true
unfolding build_graph lookup
A_known = refl

chain_graph-IsGraph : IsGraph chain_graph
chain_graph-IsGraph =
    build_graph-IsGraph (cost_fn default_mesh_config) as_stored chain as_stored-IsRange
      chain-HasCosts

dijkstra_ends_example :
    ((dijkstra chain_graph "A").heap.size ≡ 0)
    × ((x : String)
        → is_known chain_graph x ≡ true
        → is_visited (dijkstra chain_graph "A") x
          ≡ ltb (dist_of (dijkstra chain_graph "A") x) infinity)
dijkstra_ends_example = dijkstra_ends chain_graph "A" chain_graph-IsGraph A_known

best_links-cheapest_example :
    link_of ("A", "B") (best_links (cost_fn default_mesh_config) chain [])
    ≡ (if str_gt "B" "A" then cheapest (cost_fn default_mesh_config) "A" "B" chain else none)
best_links-cheapest_example =
    best_links-cheapest (cost_fn default_mesh_config) "A" "B" chain chain-HasCosts

abbrev to_B : Float64
to_B = cost_fn default_mesh_config (record {
  from_agent = "A";
  to_agent = "B";
  rtt_ms = 0x4024000000000000;
  loss_rate = 0;
  measured_at = pos 0;
  direct = false;
})

way_to_B : Walk chain_graph 0 "A" ("B" ∷ []) (fadd 0 to_B) "B"
unfolding build_graph
way_to_B = (record { to = "B"; w = to_B }, found refl, refl, (refl, refl))

cheap_to_B : fadd 0 to_B < infinity
unfolding cost_fn fadd fmul is_nan
cheap_to_B = omega arith

abbrev far_end : String
far_end = "B"

B_is_not_A : far_end ≢ "A"
B_is_not_A e = ground (arith, (eq_iff "B" "A").1 e)

route_entries-Complete_example :
    ((e : RouteEntry) × Among e (route_entries default_mesh_config as_stored chain "A")
      × (e.dst_agent ≡ "B"))
    ⊎ ((0 < 255) × (255 < hops_of (dijkstra chain_graph "A") "B" % 2 ^ 32))
route_entries-Complete_example =
    route_entries-Complete default_mesh_config as_stored chain "A" as_stored-IsRange chain-HasCosts
      ("B" ∷ []) (fadd 0 to_B) "B" A_known way_to_B cheap_to_B B_is_not_A

abbrev queue : IndexHeap
queue = offer "A" 7 no_items

queue-Offered : Offered "A" 7 no_items queue
queue-Offered =
    offer-Offered "A" 7 no_items no_items-IsHeap (omega arith) (λ old e. ground (arith, e))

offer-Offered_example : Offered "A" 3 queue (offer "A" 3 queue)
offer-Offered_example =
    offer-Offered "A" 3 queue queue-Offered.is_heap (omega arith)
      (λ old e. ground (arith, e, queue-Offered.keys "A", eq_iff "A" "A"))

pop-Taken_example : Taken queue (pop queue).0 (pop queue).1
unfolding offer contains push bubble_up
pop-Taken_example = pop-Taken queue queue-Offered.is_heap (omega arith)

compute_twice_example :
    let first = compute as_stored (new_mesh_engine default_mesh_config) chain "A" (pos 1) in
    let second = compute as_stored first.0 (link "A" "B" 0x4024000000000000 ∷ []) "B" (pos 2) in
    (second.1.version ≡ (
      if fingerprint (link "A" "B" 0x4024000000000000 ∷ []) == fingerprint chain
      then first.1.version
      else wrap64 (first.1.version +ℤ pos 1)))
    × (second.1.entries
        ≡ route_entries
            (new_mesh_engine default_mesh_config).cfg
            as_stored
            (link "A" "B" 0x4024000000000000 ∷ [])
            "B")
compute_twice_example =
    compute_twice as_stored (new_mesh_engine default_mesh_config) chain
      (link "A" "B" 0x4024000000000000 ∷ []) "A" "B" (pos 1) (pos 2)
