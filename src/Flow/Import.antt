-- ===== src/Flow/Import.antt =====
-- `yamlToNodes`: a document replaces the nodes and edges.
use psae_monorepo.Prelude.{ℕ, suc, ◌+◌, String, none, some, get_or, List, [], ◌∷◌}
use Prim.Native.Nat.{◌*◌, ◌/◌, ◌%◌}
use psae_monorepo.Flow.{
  FlowNode, FlowEdge, Flow, ParsedBlock, ParsedPipeline, ParsedText, unparsable, nothing, parsed,
  group_all, connect_bares, connect_bound, clear,
}

-- The edges that a block's references become: the bare ones first.
unfoldable pub connect_block : {A : Type 0} → ParsedBlock A → List FlowEdge → List FlowEdge
connect_block b es =
    let g = group_all (get_or b.inputs []) (record { bares = []; bindings = [] }) in
    connect_bound b.id g.bindings (connect_bares b.id g.bares es)

unfoldable pub connect_blocks : {A : Type 0} → List (ParsedBlock A) → List FlowEdge → List FlowEdge
connect_blocks [] es = es
connect_blocks (b ∷ blocks) es = connect_blocks blocks (connect_block b es)

-- An exception leaves the store as it was.
pub data Imported (A N : Type 0) : Type 0 where
  failed : (message : String) → Imported A N
  imported : Flow A N → Imported A N

-- `number` is the number of JavaScript that a natural number is.
module _ {A N : Type 0} (number : ℕ → N) (parse : String → ParsedText A) where
  -- Four blocks in a row.
  unfoldable pub grid_node : ℕ → ParsedBlock A → FlowNode A N
  grid_node i b = record {
    id = b.id;
    x = number (80 + i % 4 * 240);
    y = number (80 + i / 4 * 160);
    node_data =
        some (record { label = some b.name; name = some b.name; args = some (get_or b.args []) });
  }

  unfoldable pub grid_nodes : ℕ → List (ParsedBlock A) → List (FlowNode A N)
  grid_nodes i [] = []
  grid_nodes i (b ∷ blocks) = grid_node i b ∷ grid_nodes (suc i) blocks

  unfoldable pub replace_with : ParsedPipeline A → List (ParsedBlock A) → Flow A N → Flow A N
  replace_with pipe blocks flow = record (clear flow) {
    nodes = grid_nodes 0 blocks;
    edges = connect_blocks blocks [];
    pipeline_meta = record {
      name = get_or pipe.name "untitled-pipeline";
      version = get_or pipe.version "0.1.0";
      description = pipe.description;
    };
  }

  unfoldable pub yaml_to_nodes : String → Flow A N → Imported A N
  yaml_to_nodes pipeline_yaml flow = elim (parse pipeline_yaml) [
    | unparsable message ↦ failed message
    | nothing ↦ failed "Pipeline YAML must contain a `blocks` array."
    | parsed pipe ↦ elim pipe.blocks [
      | none ↦ failed "Pipeline YAML must contain a `blocks` array."
      | some blocks ↦ imported (replace_with pipe blocks flow)
    ]
  ]
