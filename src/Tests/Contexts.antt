-- ===== src/Tests/Contexts.antt =====
-- The analysis of map contexts at a small graph: a map, a block in its context that a block outside feeds
-- too, and a reduce.
use psae_monorepo.Prelude.{
  ℕ, zero, suc, ◌≤◌, ◌<◌, String, true, false, ◌≡◌, refl, ap, ◌↔◌, some, List, [], ◌∷◌, Memᴰ, arith,
  ◌==◌, if◌then◌else◌, Distinct, contains, not-contains_iff, All, All-mem, length,
}
use mathlib.Core.WellFounded.{Acc}
use psae_monorepo.Dict
use psae_monorepo.Dict.{Dict}
use psae_monorepo.Types.{BlockKind}
use psae_monorepo.MapContext.{
  MapGraphNode, MapContextResult, ready, degree, unlinked, link_dep, link_deps, link_nodes,
  links_of, relax, sort_loop, sorted, order_of, by_id, deepest, without_last, stack_after,
  is_nested, place, place_all, placed, entries_in_context, compute_map_context, innermost,
  active_map_for, is_broadcast_edge,
}
use psae_monorepo.MapContext.Linking.{ids}
use psae_monorepo.MapContext.Loop.{sorted-ends}
use psae_monorepo.MapContext.Topological.{Precedes, IsTopological, order_of-IsTopological}
use psae_monorepo.MapContext.Contexts.{IsAnalysis, compute_map_context-IsAnalysis}
use psae_monorepo.MapContext.Ancestors.{
  IsMapBefore, compute_map_context-IsMapBefore, compute_map_context-le-one,
}
use psae_monorepo.MapContext.Broadcast.{IsOutside, is_broadcast_edge_iff}

abbrev tiles : MapGraphNode
tiles = record { id = "tiles"; kind = BlockKind.map; deps = [] }

abbrev mask : MapGraphNode
mask = record { id = "mask"; kind = BlockKind.standard; deps = [] }

abbrev clip : MapGraphNode
clip = record { id = "clip"; kind = BlockKind.standard; deps = "tiles" ∷ "mask" ∷ [] }

abbrev mosaic : MapGraphNode
mosaic = record { id = "mosaic"; kind = BlockKind.reduce; deps = "clip" ∷ "elsewhere" ∷ [] }

abbrev graph : List MapGraphNode
graph = mosaic ∷ clip ∷ tiles ∷ mask ∷ []

abbrev cycle : List MapGraphNode
cycle =
    record { id = "a"; kind = BlockKind.map; deps = "b" ∷ [] }
    ∷ record { id = "b"; kind = BlockKind.map; deps = "a" ∷ [] }
    ∷ mask
    ∷ []

graph_order : order_of graph ≡ "tiles" ∷ "mask" ∷ "clip" ∷ "mosaic" ∷ []
unfolding order_of sorted sort_loop ready degree Dict.get links_of link_nodes link_deps link_dep
    Dict.has by_id Dict.set unlinked relax contains
graph_order = refl

-- The blocks of a cycle come last, in the order in which they are given.
cycle_order : order_of cycle ≡ "mask" ∷ "a" ∷ "b" ∷ []
unfolding order_of sorted sort_loop ready degree Dict.get links_of link_nodes link_deps link_dep
    Dict.has by_id Dict.set unlinked relax contains
cycle_order = refl

abbrev graph_result : MapContextResult
graph_result = record {
  incoming = ("tiles", []) ∷ ("mask", []) ∷ ("clip", "tiles" ∷ []) ∷ ("mosaic", "tiles" ∷ []) ∷ [];
  outgoing = ("tiles", "tiles" ∷ []) ∷ ("mask", []) ∷ ("clip", "tiles" ∷ []) ∷ ("mosaic", []) ∷ [];
  in_context = "clip" ∷ "mosaic" ∷ [];
  nested_maps = [];
}

graph_contexts : compute_map_context graph ≡ graph_result
unfolding compute_map_context placed place_all place deepest stack_after without_last is_nested
    by_id Dict.get Dict.set entries_in_context
graph_contexts = rw graph_order refl

mask_broadcast : is_broadcast_edge (compute_map_context graph) "mask" "clip" ≡ true
unfolding is_broadcast_edge active_map_for innermost Dict.get contains
mask_broadcast = rw graph_contexts refl

abbrev rank : String → ℕ
rank s = if s == "clip" then 1 else if s == "mosaic" then 2 else 0

-- Dependencies whose ranks grow are well founded.
ranked-Acc :
    (nodes : List MapGraphNode)
    → All (λ n. All (λ d. rank d < rank n.id) n.deps) nodes
    → (k : ℕ) (c : String) → rank c < k
    → Acc (Precedes nodes) c
ranked-Acc nodes grows zero c l = absurd (omega (arith, l))
ranked-Acc nodes grows (suc k) c l = Acc.intro c (λ d (n, m, e, i, _).
    let low : rank d < rank n.id =
      All-mem (λ x. rank x < rank n.id) n.deps
        (All-mem (λ y. All (λ x. rank x < rank y.id) y.deps) nodes grows m) i in
    let same : rank c ≡ rank n.id = ap rank e in
    ranked-Acc nodes grows k d (omega (arith, low, same, l)))

graph-Distinct : Distinct (ids graph)
unfolding contains
graph-Distinct =
    let apart =
      λ (x : String) (xs : List String) (e : contains x xs ≡ false). (not-contains_iff x xs).0 e in
    (
      apart "mosaic" ("clip" ∷ "tiles" ∷ "mask" ∷ []) refl,
      (
        apart "clip" ("tiles" ∷ "mask" ∷ []) refl,
        (apart "tiles" ("mask" ∷ []) refl, (apart "mask" [] refl, tt)),
      ),
    )

graph_acyclic : (c : String) → Acc (Precedes graph) c
graph_acyclic c = ranked-Acc graph grows (suc (rank c)) c (omega arith)
  where
    grows : All (λ n. All (λ d. rank d < rank n.id) n.deps) graph
    grows = ((omega arith, (omega arith, tt)), ((omega arith, (omega arith, tt)), (tt, (tt, tt))))

clip_there : Memᴰ clip graph
clip_there = Memᴰ.tail (Memᴰ.head refl)

mask_there : Memᴰ mask graph
mask_there = Memᴰ.tail (Memᴰ.tail (Memᴰ.tail (Memᴰ.head refl)))

clip_stack : Dict.get "clip" (compute_map_context graph).incoming ≡ some ("tiles" ∷ [])
unfolding Dict.get
clip_stack = rw graph_contexts refl

sorted-ends_example : (order : List String) × (sorted cycle ≡ some order)
sorted-ends_example = sorted-ends cycle

order_of-IsTopological_example : IsTopological graph (order_of graph)
order_of-IsTopological_example = order_of-IsTopological graph graph-Distinct graph_acyclic

compute_map_context-IsAnalysis_example : IsAnalysis graph (compute_map_context graph)
compute_map_context-IsAnalysis_example =
    compute_map_context-IsAnalysis graph graph-Distinct graph_acyclic

compute_map_context-IsMapBefore_example : IsMapBefore graph "tiles" "clip"
compute_map_context-IsMapBefore_example =
    compute_map_context-IsMapBefore graph clip ("tiles" ∷ []) "tiles" graph-Distinct graph_acyclic
      clip_there clip_stack (Memᴰ.head refl)

compute_map_context-le-one_example : length {A = String} ("tiles" ∷ []) ≤ 1
compute_map_context-le-one_example =
    compute_map_context-le-one graph clip ("tiles" ∷ []) graph-Distinct graph_acyclic
      (ap (λ r. r.nested_maps) graph_contexts) clip_there clip_stack

is_broadcast_edge_iff_example :
    (is_broadcast_edge (compute_map_context graph) "mask" "clip" ≡ true)
    ↔ IsOutside (compute_map_context graph) "mask" "clip"
is_broadcast_edge_iff_example =
    is_broadcast_edge_iff graph mask clip graph-Distinct graph_acyclic mask_there clip_there
