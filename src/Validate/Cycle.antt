-- ===== src/Validate/Cycle.antt =====
-- `findCycle` and `refToId` of web_ui/utils/validate.ts: a depth-first search with three colours.
-- The search calls itself at most once for each white block, so as much fuel as there are blocks is
-- enough (`Cycle/Search`). `None` stands for `null`.
pub mod Graph
pub mod Search
pub mod Correct
pub mod Adjacency
use psae_monorepo.Prelude.{
  ℕ, zero, suc, String, Bool, true, false, not, Option, none, some, get_or, List, [], ◌∷◌, ◌++◌,
  if◌then◌else◌, ◌==◌, contains, map, length,
}
use psae_monorepo.Dict
use psae_monorepo.Dict.{Dict}
use psae_monorepo.Types.{InputRef, bare, explicit, Block}

pub data Color : Type 0 where
  white gray black : Color

-- The two variables that the nested function `dfs` writes: `color` and `stack`.
pub record State : Type 0 where
  pub color : Dict Color
  pub stack : List String

-- How a call of `dfs` ends: with `null`, with a cycle, or (in the model only) with no fuel left.
pub data Outcome : Type 0 where
  done : State → Outcome
  found : List String → Outcome
  out_of_fuel : Outcome

-- `const found = dfs(dep); if (found) return found;` and then the rest.
infixl 5 ◌>>=◌
abbrev pub ◌>>=◌ : Outcome → (State → Outcome) → Outcome
done s >>= k = k s
found c >>= k = found c
out_of_fuel >>= k = out_of_fuel

unfoldable pub ref_to_id : InputRef → String
ref_to_id (bare id) = id
ref_to_id (explicit block output) = block

-- `adj.get(node) ?? []`
unfoldable pub deps_of : Dict (List String) → String → List String
deps_of adj node = get_or (Dict.get node adj) []

-- `stack.pop()`
unfoldable pub pop : List String → List String
pop [] = []
pop (x ∷ []) = []
pop (x ∷ y ∷ r) = x ∷ pop (y ∷ r)

-- `stack.slice(-1)`, which is what `slice(stack.indexOf(dep))` is where `dep` is not on the stack
unfoldable pub last_one : List String → List String
last_one [] = []
last_one (x ∷ []) = x ∷ []
last_one (x ∷ y ∷ r) = last_one (y ∷ r)

unfoldable pub from_first : String → List String → List String
from_first dep [] = []
from_first dep (x ∷ xs) = if x == dep then x ∷ xs else from_first dep xs

-- `stack.slice(stack.indexOf(dep))`
unfoldable pub slice_from : String → List String → List String
unfolding from_first last_one
slice_from dep stack = if contains dep stack then from_first dep stack else last_one stack

-- `color.set(node, GRAY); stack.push(node)`
unfoldable pub enter : String → State → State
enter node s = record { color = Dict.set node gray s.color; stack = s.stack ++ node ∷ [] }

-- `stack.pop(); color.set(node, BLACK); return null`
unfoldable pub leave : String → State → State
leave node s = record { color = Dict.set node black s.color; stack = pop s.stack }

-- One round of the loop over the dependencies, with the recursive call as `visit`.
unfoldable pub visit_dep :
    (String → State → Outcome) → Dict (List String) → String → State → Outcome
visit_dep visit adj dep s =
    if Dict.has dep adj
    then (elim (Dict.get dep s.color) [
      | some gray ↦ found (slice_from dep s.stack ++ dep ∷ [])
      | some white ↦ visit dep s
      | _ ↦ done s
    ])
    else done s

unfoldable pub scan :
    (String → State → Outcome) → Dict (List String) → List String → State → Outcome
scan visit adj [] s = done s
scan visit adj (dep ∷ deps) s = do s' ← visit_dep visit adj dep s; scan visit adj deps s'

unfoldable pub finish : String → Outcome → Outcome
finish node o = do s ← o; done (leave node s)

unfoldable pub dfs : ℕ → Dict (List String) → String → State → Outcome
dfs zero adj node s = out_of_fuel
dfs (suc fuel) adj node s = finish node (scan (dfs fuel adj) adj (deps_of adj node) (enter node s))

-- The loop over `adj.keys()` that starts a search at each block that is still white.
unfoldable pub visit_root : ℕ → Dict (List String) → String → State → Outcome
visit_root fuel adj id s = elim (Dict.get id s.color) [
  | some white ↦ dfs fuel adj id s
  | _ ↦ done s
]

unfoldable pub roots : ℕ → Dict (List String) → List String → State → Outcome
roots fuel adj [] s = done s
roots fuel adj (id ∷ ids) s = do s' ← visit_root fuel adj id s; roots fuel adj ids s'

-- `for (const id of adj.keys()) color.set(id, WHITE)`
unfoldable pub whiten : List String → Dict Color → Dict Color
whiten [] color = color
whiten (id ∷ ids) color = whiten ids (Dict.set id white color)

unfoldable pub cycle_of : Outcome → Option (List String)
cycle_of (done s) = none
cycle_of (found c) = some c
cycle_of out_of_fuel = none

module _ {A : Type 0} where
  -- `adj.set(b.id, (b.inputs ?? []).map(refToId))` for each block
  unfoldable pub link : Dict (List String) → List (Block A) → Dict (List String)
  link adj [] = adj
  link adj (b ∷ bs) = link (Dict.set b.id (map ref_to_id b.inputs) adj) bs

  unfoldable pub adjacency : List (Block A) → Dict (List String)
  unfolding link
  adjacency blocks = link [] blocks

  unfoldable pub run_search : List (Block A) → Outcome
  run_search blocks =
      let adj = adjacency blocks in
      roots (length adj) adj (Dict.keys adj)
        (record { color = whiten (Dict.keys adj) []; stack = [] })

  unfoldable pub find_cycle : List (Block A) → Option (List String)
  find_cycle blocks = cycle_of (run_search blocks)
