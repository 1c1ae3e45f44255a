-- ===== src/Flow/Export.antt =====
-- `exportPipelineObject`: the pipeline that the nodes and edges stand for.
use psae_monorepo.Prelude.{
  String, none, some, get_or, List, [], ◌∷◌, ◌++◌, ◌==◌, if◌then◌else◌, map, any,
}
use psae_monorepo.Types.{InputRef, Block, Pipeline}
use psae_monorepo.Flow.{FlowNode, FlowEdge, Flow, refs_of_edge}

module _ {A N : Type 0} where
  -- `n.data?.name ?? n.data?.label ?? ""`
  unfoldable pub flow_name : FlowNode A N → String
  flow_name n = elim n.node_data [
    | none ↦ ""
    | some d ↦ elim d.name [ none ↦ get_or d.label "" | some name ↦ name ]
  ]

  unfoldable pub flow_block : FlowNode A N → Block A
  flow_block n = record {
    id = n.id;
    name = flow_name n;
    inputs = [];
    args = elim n.node_data [ none ↦ [] | some d ↦ get_or d.args [] ];
  }

module _ {A : Type 0} where
  -- `byId` has the last block of an id.
  unfoldable pub push_refs : String → List InputRef → List (Block A) → List (Block A)
  push_refs target refs [] = []
  push_refs target refs (b ∷ blocks) =
      let rest = push_refs target refs blocks in
      if any (λ x. x.id == target) blocks
      then b ∷ rest
      else if b.id == target
      then record b { inputs = b.inputs ++ refs } ∷ blocks
      else b ∷ blocks

  unfoldable pub push_edges : List FlowEdge → List (Block A) → List (Block A)
  push_edges [] blocks = blocks
  push_edges (e ∷ es) blocks = push_edges es (push_refs e.target (refs_of_edge e) blocks)

-- `uuid` is what `v7()` returns.
unfoldable pub export_pipeline_object : {A N : Type 0} → (uuid : String) → Flow A N → Pipeline A
export_pipeline_object uuid flow = record {
  id = some uuid;
  name = flow.pipeline_meta.name;
  version = flow.pipeline_meta.version;
  description = flow.pipeline_meta.description;
  blocks = push_edges flow.edges (map flow_block flow.nodes);
}
