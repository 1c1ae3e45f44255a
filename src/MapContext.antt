-- ===== src/MapContext.antt =====
-- The analysis of map contexts (web_ui/utils/mapContext.ts). A context is the stack of the ids of the map
-- blocks that are open, the innermost last.
pub mod Linking
pub mod Relax
pub mod Loop
pub mod Order
pub mod Sorting
pub mod Topological
pub mod Stacks
pub mod Deepest
pub mod Contexts
pub mod Ancestors
pub mod Broadcast
use psae_monorepo.Prelude.{
  ℕ, zero, suc, ◌+◌, String, Bool, true, false, not, Option, none, some, get_or, List, [], ◌∷◌,
  ◌++◌, length, filter, map, contains, if◌then◌else◌, ◌==◌, ltb,
}
use psae_monorepo.Dict
use psae_monorepo.Dict.{Dict}
use psae_monorepo.Types.{BlockKind}

pub record MapGraphNode : Type 0 where
  pub id : String
  pub kind : BlockKind
  pub deps : List String

-- The numbers of JavaScript that the code counts with: `negsuc n` is -(n + 1).
pub data ℤ : Type 0 where
  pos : ℕ → ℤ
  negsuc : ℕ → ℤ

abbrev pub succ_ℤ : ℤ → ℤ
succ_ℤ (pos n) = pos (suc n)
succ_ℤ (negsuc zero) = pos zero
succ_ℤ (negsuc (suc n)) = negsuc n

abbrev pub pred_ℤ : ℤ → ℤ
pred_ℤ (pos zero) = negsuc zero
pred_ℤ (pos (suc n)) = pos n
pred_ℤ (negsuc n) = negsuc (suc n)

abbrev pub is_zero : ℤ → Bool
is_zero (pos zero) = true
is_zero (pos (suc n)) = false
is_zero (negsuc n) = false

-- `indeg.get(id) ?? 0`
unfoldable pub degree : String → Dict ℤ → ℤ
degree id indeg = get_or (Dict.get id indeg) (pos 0)

unfoldable pub by_id : List MapGraphNode → Dict MapGraphNode → Dict MapGraphNode
by_id [] m = m
by_id (n ∷ nodes) m = by_id nodes (Dict.set n.id n m)

-- The two maps that the sort starts from.
pub record Links : Type 0 where
  pub indeg : Dict ℤ
  pub children : Dict (List String)

unfoldable pub unlinked : List MapGraphNode → Links → Links
unlinked [] l = l
unlinked (n ∷ nodes) l =
    unlinked nodes
      (record { indeg = Dict.set n.id (pos 0) l.indeg; children = Dict.set n.id [] l.children })

unfoldable pub link_dep : Dict MapGraphNode → String → String → Links → Links
link_dep known id d l = if not (Dict.has d known) then l else record {
  indeg = Dict.set id (succ_ℤ (degree id l.indeg)) l.indeg;
  children = Dict.set d (get_or (Dict.get d l.children) [] ++ id ∷ []) l.children;
}

unfoldable pub link_deps : Dict MapGraphNode → String → List String → Links → Links
link_deps known id [] l = l
link_deps known id (d ∷ deps) l = link_deps known id deps (link_dep known id d l)

unfoldable pub link_nodes : Dict MapGraphNode → List MapGraphNode → Links → Links
link_nodes known [] l = l
link_nodes known (n ∷ nodes) l = link_nodes known nodes (link_deps known n.id n.deps l)

unfoldable pub links_of : List MapGraphNode → Links
links_of nodes =
    link_nodes (by_id nodes []) nodes (unlinked nodes (record { indeg = []; children = [] }))

-- The children of a block that was taken from the queue: each loses one dependency, and those that have
-- none left join the queue.
unfoldable pub relax : List String → List String → Dict ℤ → List String × Dict ℤ
relax [] queue indeg = (queue, indeg)
relax (c ∷ cs) queue indeg =
    let left = pred_ℤ (degree c indeg) in
    relax cs (if is_zero left then queue ++ c ∷ [] else queue) (Dict.set c left indeg)

-- The `while` loop; `none` is the end of the fuel.
unfoldable pub sort_loop :
    (fuel : ℕ) → Dict (List String) → (queue order : List String) → Dict ℤ → Option (List String)
sort_loop fuel children [] order indeg = some order
sort_loop zero children (id ∷ queue) order indeg = none
sort_loop (suc fuel) children (id ∷ queue) order indeg =
    let (queue', indeg') = relax (get_or (Dict.get id children) []) queue indeg in
    sort_loop fuel children queue' (order ++ id ∷ []) indeg'

unfoldable pub ready : List MapGraphNode → Dict ℤ → List String
ready nodes indeg = map (λ n. n.id) (filter (λ n. is_zero (degree n.id indeg)) nodes)

-- A round for each block that is ready and each that is counted.
unfoldable pub sorted : List MapGraphNode → Option (List String)
sorted nodes =
    let l = links_of nodes in
    let queue = ready nodes l.indeg in
    sort_loop (length queue + length l.indeg) l.children queue [] l.indeg

-- The blocks that a cycle left out come last.
unfoldable pub order_of : List MapGraphNode → List String
order_of nodes =
    let order = get_or (sorted nodes) [] in
    order ++ filter (λ id. not (contains id order)) (map (λ n. n.id) nodes)

-- The longest of the stacks, the first of those that are as long.
unfoldable pub deepest : Dict (List String) → List String → List String → List String
deepest outgoing [] inc = inc
deepest outgoing (d ∷ deps) inc = deepest outgoing deps (elim (Dict.get d outgoing) [
  | none ↦ inc
  | some o ↦ if ltb (length inc) (length o) then o else inc
])

-- `inc.slice(0, -1)`
unfoldable pub without_last : List String → List String
without_last [] = []
without_last (x ∷ []) = []
without_last (x ∷ y ∷ xs) = x ∷ without_last (y ∷ xs)

unfoldable pub stack_after : BlockKind → String → List String → List String
stack_after BlockKind.map id inc = inc ++ id ∷ []
stack_after BlockKind.reduce id inc = without_last inc
stack_after BlockKind.standard id inc = inc

unfoldable pub is_nested : BlockKind → List String → Bool
is_nested BlockKind.map [] = false
is_nested BlockKind.map (x ∷ inc) = true
is_nested _ inc = false

pub record MapContexts : Type 0 where
  pub incoming : Dict (List String)
  pub outgoing : Dict (List String)
  pub nested_maps : List String

-- A block without an entry cannot be in the order: the code relies on that.
unfoldable pub place : Dict MapGraphNode → String → MapContexts → MapContexts
place known id c = elim (Dict.get id known) [
  | none ↦ c
  | some node ↦
      let inc = deepest c.outgoing node.deps [] in
      record {
        incoming = Dict.set id inc c.incoming;
        outgoing = Dict.set id (stack_after node.kind id inc) c.outgoing;
        nested_maps = if is_nested node.kind inc then c.nested_maps ++ id ∷ [] else c.nested_maps;
      }
]

unfoldable pub place_all : Dict MapGraphNode → List String → MapContexts → MapContexts
place_all known [] c = c
place_all known (id ∷ order) c = place_all known order (place known id c)

-- The result, with the blocks whose incoming context is not empty.
pub record MapContextResult : Type 0 where
  pub incoming : Dict (List String)
  pub outgoing : Dict (List String)
  pub in_context : List String
  pub nested_maps : List String

unfoldable pub entries_in_context : Dict (List String) → List String
entries_in_context [] = []
entries_in_context ((id, inc) ∷ rest) =
    if ltb 0 (length inc) then id ∷ entries_in_context rest else entries_in_context rest

unfoldable pub placed : List MapGraphNode → MapContexts
placed nodes =
    place_all (by_id nodes []) (order_of nodes)
      (record { incoming = []; outgoing = []; nested_maps = [] })

unfoldable pub compute_map_context : List MapGraphNode → MapContextResult
compute_map_context nodes =
    let c = placed nodes in
    record {
      incoming = c.incoming;
      outgoing = c.outgoing;
      in_context = entries_in_context c.incoming;
      nested_maps = c.nested_maps;
    }

-- The last item.
unfoldable pub innermost : List String → Option String
innermost [] = none
innermost (x ∷ []) = some x
innermost (x ∷ y ∷ xs) = innermost (y ∷ xs)

unfoldable pub active_map_for : MapContextResult → String → Option String
active_map_for result id = elim (Dict.get id result.incoming) [
  | none ↦ none
  | some inc ↦ innermost inc
]

unfoldable pub is_broadcast_edge : MapContextResult → String → String → Bool
is_broadcast_edge result source target = elim (active_map_for result target) [
  | none ↦ false
  | some active ↦
      if source == active
      then false
      else not (contains active (get_or (Dict.get source result.outgoing) []))
]
