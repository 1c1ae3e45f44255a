-- ===== src/PipelineBuilder.antt =====
-- The builder that makes a pipeline document of the nodes and edges of the editor
-- (web_ui/utils/pipeline.ts).
pub mod Dedupe
pub mod Edges
use psae_monorepo.Prelude.{
  String, Bool, true, false, Option, none, some, get_or, List, [], ◌∷◌, ◌++◌, ◌==◌, ◌<>◌,
  if◌then◌else◌, map, flat_map, contains, filter,
}
use psae_monorepo.Dict.{Dict}
use psae_monorepo.Types.{
  InputRef, bare, explicit, Block, Pipeline, PipelineMetadata, Binding, EdgeData,
}

-- A node of the editor, with what the builder reads of its data.
pub record Node (A : Type 0) : Type 0 where
  pub id : String
  pub name : Option String
  pub label : Option String
  pub args : Option (Dict A)

pub record Edge : Type 0 where
  pub source : String
  pub target : String
  pub bindings : Option EdgeData

-- The references that an edge adds to its target: one for each binding, or a bare one.
unfoldable pub bound_refs : String → Option (List Binding) → List InputRef
bound_refs upstream (some (b ∷ bs)) = map (λ x. explicit upstream x.output) (b ∷ bs)
bound_refs upstream _ = bare upstream ∷ []

unfoldable pub edge_refs : Edge → List InputRef
edge_refs e = elim e.bindings [
  | none ↦ bare e.source ∷ []
  | some d ↦ bound_refs e.source d.bindings
]

-- The key that `dedupeInputs` makes of a reference with an output.
unfoldable pub ref_key : String → String → String
ref_key block output = block <> "::" <> output

-- `seen_bare` and `seen_explicit` list the items of the two sets.
unfoldable pub dedupe_from : (seen_bare seen_explicit : List String) → List InputRef → List InputRef
dedupe_from bares keys [] = []
dedupe_from bares keys (bare s ∷ refs) =
    if contains s bares
    then dedupe_from bares keys refs
    else bare s ∷ dedupe_from (s ∷ bares) keys refs
dedupe_from bares keys (explicit block output ∷ refs) =
    if contains (ref_key block output) keys
    then dedupe_from bares keys refs
    else explicit block output ∷ dedupe_from bares (ref_key block output ∷ keys) refs

unfoldable pub dedupe_inputs : List InputRef → List InputRef
dedupe_inputs = dedupe_from [] []

pub record PartialMetadata : Type 0 where
  pub id : Option String
  pub name : Option String
  pub version : Option String
  pub description : Option String

-- The constructor; `uuid` is what `v7()` returns.
unfoldable pub new_metadata : String → PartialMetadata → PipelineMetadata
new_metadata uuid m = record {
  id = get_or m.id uuid;
  name = get_or m.name "untitled-pipeline";
  version = get_or m.version "0.1.0";
  description = m.description;
}

unfoldable pub set_name : String → PipelineMetadata → PipelineMetadata
set_name name m = record m { name = name }

unfoldable pub set_description : String → PipelineMetadata → PipelineMetadata
set_description description m = record m { description = some description }

unfoldable pub set_version : String → PipelineMetadata → PipelineMetadata
set_version version m = record m { version = version }

unfoldable pub fresh_submission_id : String → PipelineMetadata → PipelineMetadata
fresh_submission_id uuid m = record m { id = uuid }

module _ {A : Type 0} where
  -- `node.data?.name ?? node.data?.label ?? ""`
  unfoldable pub node_name : Node A → String
  node_name n = elim n.name [ none ↦ get_or n.label "" | some name ↦ name ]

  unfoldable pub block_of_node : Node A → Block A
  block_of_node n = record { id = n.id; name = node_name n; inputs = []; args = get_or n.args [] }

  unfoldable pub add_block_from_node : List (Block A) → Node A → List (Block A)
  add_block_from_node blocks n = blocks ++ block_of_node n ∷ []

  unfoldable pub add_refs : List InputRef → Block A → Block A
  add_refs refs b = record b { inputs = b.inputs ++ refs }

  -- The first block of the edge's target takes the references; without one nothing happens.
  unfoldable pub parse_edge : List (Block A) → Edge → List (Block A)
  parse_edge [] e = []
  parse_edge (b ∷ blocks) e =
      if b.id == e.target then add_refs (edge_refs e) b ∷ blocks else b ∷ parse_edge blocks e

  unfoldable pub parse_edges : List (Block A) → List Edge → List (Block A)
  parse_edges blocks [] = blocks
  parse_edges blocks (e ∷ es) = parse_edges (parse_edge blocks e) es

  unfoldable pub export_block : Block A → Block A
  export_block b = record b { inputs = dedupe_inputs b.inputs }

  unfoldable pub export_pipeline : PipelineMetadata → List (Block A) → Pipeline A
  export_pipeline metadata blocks = record {
    id = some metadata.id;
    name = metadata.name;
    version = metadata.version;
    description = metadata.description;
    blocks = map export_block blocks;
  }
