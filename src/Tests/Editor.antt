-- ===== src/Tests/Editor.antt =====
-- The store of the editor at a small document: a block that feeds another by two of its outputs, and one
-- that feeds it whole.
use psae_monorepo.Prelude.{
  ℕ, String, true, ◌≡◌, refl, none, some, List, [], ◌∷◌, Distinct, contains, not-contains_iff, map,
  flat_map,
}
use psae_monorepo.Dict
use psae_monorepo.Dict.{Dict}
use psae_monorepo.Types.{Block, PipelineMetadata, bare, explicit}
use psae_monorepo.PipelineBuilder.{block_of_node, parse_edges, dedupe_inputs, export_pipeline}
use psae_monorepo.Flow.{
  FlowMeta, Flow, ParsedBlock, ParsedPipeline, ParsedText, parsed, edge_id, connect_edge, joins,
  set_edge, group_one, group_all, connect_bares, connect_bound, refs_of_bindings, refs_of_edge,
}
use psae_monorepo.Flow.Import.{connect_block}
use psae_monorepo.Flow.Export.{export_pipeline_object}
use psae_monorepo.Flow.Edges.{edge_ids, IsLinked, nil-IsLinked}
use psae_monorepo.Flow.Exporters.{as_node, as_edge, export_pipeline-export_pipeline_object}
use psae_monorepo.Flow.Attach.{wanted_edges}
use psae_monorepo.Flow.Commands.{Command, link, bind, remove, run_all, run_all-IsLinked}
use psae_monorepo.Flow.RoundTrip.{parsed_ids}
use psae_monorepo.Flow.Restored.{RoundTrips, yaml_to_nodes-export_pipeline_object}

abbrev load_block : ParsedBlock String
load_block = record { id = "l"; name = "load"; inputs = none; args = none }

abbrev mask_block : ParsedBlock String
mask_block = record { id = "m"; name = "mask"; inputs = some []; args = some [] }

abbrev merge_block : ParsedBlock String
merge_block = record {
  id = "g";
  name = "merge";
  inputs = some (explicit "l" "red" ∷ bare "m" ∷ explicit "l" "nir" ∷ []);
  args = some [];
}

abbrev document : List (ParsedBlock String)
document = load_block ∷ mask_block ∷ merge_block ∷ []

abbrev pipe : ParsedPipeline String
pipe = record { name = some "ndvi"; version = none; description = none; blocks = some document }

abbrev parse : String → ParsedText String
parse text = parsed pipe

abbrev number : ℕ → ℕ
number n = n

abbrev untitled : FlowMeta
untitled = record { name = "untitled-pipeline"; version = "0.1.0"; description = none }

abbrev empty : Flow String ℕ
empty = record { nodes = []; edges = []; pipeline_meta = untitled }

abbrev two_nodes : Flow String ℕ
two_nodes = record {
  nodes =
      record { id = "a"; x = 0; y = 0; node_data = none }
      ∷ record { id = "b"; x = 0; y = 0; node_data = none }
      ∷ [];
  edges = record { id = "a->b"; source = "a"; target = "b"; edge_data = none } ∷ [];
  pipeline_meta = untitled;
}

document_edges : edge_ids (flat_map wanted_edges document) ≡ "m->g" ∷ "l->g" ∷ []
unfolding edge_id group_all group_one Dict.get Dict.set contains
document_edges = refl

abbrev both_ways : ParsedBlock String
both_ways = record {
  id = "g";
  name = "merge";
  inputs = some (bare "l" ∷ explicit "l" "red" ∷ []);
  args = none;
}

-- A block that names another both whole and by an output keeps the output alone.
both_ways_run : map refs_of_edge (connect_block both_ways []) ≡ (explicit "l" "red" ∷ []) ∷ []
unfolding connect_block connect_bares connect_bound connect_edge set_edge joins edge_id group_all
    group_one Dict.get Dict.set contains refs_of_edge refs_of_bindings
both_ways_run = refl

document-Distinct : Distinct (parsed_ids document)
unfolding contains
document-Distinct = (
  (not-contains_iff "l" ("m" ∷ "g" ∷ [])).0 refl,
  ((not-contains_iff "m" ("g" ∷ [])).0 refl, ((not-contains_iff "g" []).0 refl, tt)),
)

document_edges-Distinct : Distinct (edge_ids (flat_map wanted_edges document))
unfolding contains edge_id group_all group_one Dict.get Dict.set
document_edges-Distinct =
    ((not-contains_iff "m->g" ("l->g" ∷ [])).0 refl, ((not-contains_iff "l->g" []).0 refl, tt))

two_nodes-Distinct : Distinct (map (λ n. n.id) two_nodes.nodes)
unfolding contains
two_nodes-Distinct =
    ((not-contains_iff "a" ("b" ∷ [])).0 refl, ((not-contains_iff "b" []).0 refl, tt))

abbrev calls : List (Command String ℕ)
calls =
    link "a" "b"
    ∷ link "a" "b"
    ∷ bind "a" "b" (record { bindings = none; unresolved = some true })
    ∷ link "b" "c"
    ∷ remove "c"
    ∷ []

run_all-IsLinked_example : IsLinked (run_all number parse calls empty).edges
run_all-IsLinked_example = run_all-IsLinked number parse calls empty nil-IsLinked

abbrev metadata : PipelineMetadata
metadata = record { id = "u"; name = "ndvi"; version = "1"; description = none }

export_pipeline-export_pipeline_object_example :
    (export_pipeline metadata (
      parse_edges
        (map (λ n. block_of_node (as_node n)) two_nodes.nodes)
        (map as_edge two_nodes.edges))).blocks
    ≡ map
        (λ (b : Block String). record b { inputs = dedupe_inputs b.inputs })
        (export_pipeline_object "u" two_nodes).blocks
export_pipeline-export_pipeline_object_example =
    export_pipeline-export_pipeline_object "u" metadata two_nodes two_nodes-Distinct

yaml_to_nodes-export_pipeline_object_example :
    RoundTrips number parse "ndvi.yaml" "u" two_nodes pipe document
yaml_to_nodes-export_pipeline_object_example =
    yaml_to_nodes-export_pipeline_object number parse "ndvi.yaml" "u" two_nodes pipe document refl
      refl document-Distinct document_edges-Distinct
