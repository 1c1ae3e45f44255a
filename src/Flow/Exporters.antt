-- ===== src/Flow/Exporters.antt =====
-- The export of the store beside the pipeline builder (web_ui/utils/pipeline.ts), which exports the same
-- nodes and edges.
use psae_monorepo.Prelude.{
  String, false, ◌≡◌, refl, sym, ap, subst, ◌∙◌, Option, none, some, List, [], ◌∷◌, ◌==◌, ==_iff,
  ==-cases, map, any, any_iff, Bool-cases, inl, inr, Option-cases, Memᴰ, Distinct,
}
use psae_monorepo.Types.{Block, Binding, PipelineMetadata}
use psae_monorepo.PipelineBuilder.{
  Node, Edge, block_of_node, node_name, add_refs, bound_refs, edge_refs, parse_edge, parse_edges,
  dedupe_inputs, export_block, export_pipeline,
}
use psae_monorepo.PipelineBuilder.Edges.{
  ids, mem-ids, updated, map-same, parse_edge_lem, ids-updated,
}
use psae_monorepo.Flow.{NodeData, FlowNode, FlowEdge, Flow, refs_of_bindings, refs_of_edge}
use psae_monorepo.Flow.Export.{flow_name, flow_block, push_refs, push_edges, export_pipeline_object}

-- What the builder reads of a node and of an edge.
abbrev pub as_node : {A N : Type 0} → FlowNode A N → Node A
as_node n = record {
  id = n.id;
  name = elim n.node_data [ none ↦ none | some d ↦ d.name ];
  label = elim n.node_data [ none ↦ none | some d ↦ d.label ];
  args = elim n.node_data [ none ↦ none | some d ↦ d.args ];
}

abbrev pub as_edge : FlowEdge → Edge
as_edge e = record { source = e.source; target = e.target; bindings = e.edge_data }

bindings-same :
    (source : String) (bs : Option (List Binding))
    → refs_of_bindings source bs ≡ bound_refs source bs
unfolding refs_of_bindings bound_refs
bindings-same source none = refl
bindings-same source (some []) = refl
bindings-same source (some (b ∷ bs)) = refl

pub refs_of_edge_lem : (e : FlowEdge) → refs_of_edge e ≡ edge_refs (as_edge e)
unfolding refs_of_edge edge_refs
refs_of_edge_lem e = elim (Option-cases e.edge_data) [
  | inl n ↦ rw n refl
  | inr (d, p) ↦ rw p (bindings-same e.source d.bindings)
]

module _ {A N : Type 0} where
  pub ids-flow_block :
      (nodes : List (FlowNode A N)) → ids (map flow_block nodes) ≡ map (λ n. n.id) nodes
  unfolding flow_block
  ids-flow_block [] = refl
  ids-flow_block (n ∷ nodes) = ap (λ l. n.id ∷ l) (ids-flow_block nodes)

  of_data :
      (n : FlowNode A N) (o : Option (NodeData A))
      → flow_block (record n { node_data = o })
        ≡ block_of_node (as_node (record n { node_data = o }))
  unfolding flow_block flow_name block_of_node node_name
  of_data n none = refl
  of_data n (some d) = refl

  pub flow_block_lem : (n : FlowNode A N) → flow_block n ≡ block_of_node (as_node n)
  flow_block_lem n = of_data n n.node_data

module _ {A : Type 0} where
  not-any :
      (target : String) (blocks : List (Block A))
      → any (λ x. x.id == target) blocks ≡ false
      → (b : Block A) → Memᴰ b blocks
      → (b.id == target) ≡ false
  not-any target blocks none_there b m = elim (Bool-cases (b.id == target)) [
    | inl t ↦ let found = (any_iff (λ x. x.id == target) blocks).1 (b, m, t) in cc
    | inr f ↦ f
  ]

  -- Where ids are distinct, the last block of an id is the only one.
  push_refs_lem :
      (e : FlowEdge) (blocks : List (Block A))
      → Distinct (ids blocks)
      → push_refs e.target (edge_refs (as_edge e)) blocks ≡ map (updated (as_edge e)) blocks
  unfolding push_refs add_refs
  push_refs_lem e [] d = refl
  push_refs_lem e (b ∷ blocks) (new, d) = elim (Bool-cases (any (λ x. x.id == e.target) blocks)) [
    | inl t ↦
        let (x, m, p) = (any_iff (λ y. y.id == e.target) blocks).0 t in
        let apart : (b.id == e.target) ≡ false = elim (==-cases b.id e.target) [
          | inl (_, q) ↦ absurd (
              new (
                subst (λ i. Memᴰ i (ids blocks)) ((==_iff x.id e.target).0 p ∙ sym q)
                  (mem-ids x blocks m)))
          | inr (f, _) ↦ f
        ] in
        rw (t, apart) (ap (λ l. b ∷ l) (push_refs_lem e blocks d))
    | inr f ↦
        let rest =
          map-same (updated (as_edge e)) blocks (λ x m. rw (not-any e.target blocks f x m) refl) in
        elim (Bool-cases (b.id == e.target)) [
          | inl t ↦ rw (f, t) (ap (λ l. add_refs (edge_refs (as_edge e)) b ∷ l) (sym rest))
          | inr n ↦ rw (f, n) (ap (λ l. b ∷ l) (sym rest))
        ]
  ]

  pub push_edges_lem :
      (es : List FlowEdge) (blocks : List (Block A))
      → Distinct (ids blocks)
      → push_edges es blocks ≡ parse_edges blocks (map as_edge es)
  unfolding push_edges parse_edges
  push_edges_lem [] blocks d = refl
  push_edges_lem (e ∷ es) blocks d =
      let one =
        ap (λ r. push_refs e.target r blocks) (refs_of_edge_lem e) ∙ push_refs_lem e blocks d in
      let both = one ∙ sym (parse_edge_lem blocks (as_edge e) d) in
      ap (push_edges es) both
      ∙ push_edges_lem es (parse_edge blocks (as_edge e)) (
          subst (λ l. Distinct (ids l)) (sym (parse_edge_lem blocks (as_edge e) d))
            (subst (λ l. Distinct l) (sym (ids-updated (as_edge e) blocks)) d))

-- Where the nodes have distinct ids, the store exports the blocks that the pipeline builder makes of the
-- same nodes and edges.
pub export_pipeline_object-parse_edges :
    {A N : Type 0} (uuid : String) (flow : Flow A N)
    → Distinct (map (λ n. n.id) flow.nodes)
    → (export_pipeline_object uuid flow).blocks
      ≡ parse_edges (map (λ n. block_of_node (as_node n)) flow.nodes) (map as_edge flow.edges)
unfolding export_pipeline_object
export_pipeline_object-parse_edges {A} {N} uuid flow d =
    push_edges_lem flow.edges (map flow_block flow.nodes)
      (subst Distinct (sym (ids-flow_block flow.nodes)) d)
    ∙ ap (λ l. parse_edges l (map as_edge flow.edges)) (same flow.nodes)
  where
    same :
        (nodes : List (FlowNode A N))
        → map flow_block nodes ≡ map (λ n. block_of_node (as_node n)) nodes
    same [] = refl
    same (n ∷ nodes) = λ i. flow_block_lem n i ∷ same nodes i

-- Where the nodes have distinct ids, the builder's export of the same nodes and edges has the blocks that
-- the store exports, with the inputs of each deduplicated by `dedupeInputs`, which the store leaves out.
pub export_pipeline-export_pipeline_object :
    {A N : Type 0} (uuid : String) (metadata : PipelineMetadata) (flow : Flow A N)
    → Distinct (map (λ n. n.id) flow.nodes)
    → (export_pipeline metadata (
        parse_edges
          (map (λ n. block_of_node (as_node n)) flow.nodes)
          (map as_edge flow.edges))).blocks
      ≡ map
          (λ (b : Block A). record b { inputs = dedupe_inputs b.inputs })
          (export_pipeline_object uuid flow).blocks
unfolding export_pipeline export_block
export_pipeline-export_pipeline_object {A} {N} uuid metadata flow d =
    ap (map (λ (b : Block A). record b { inputs = dedupe_inputs b.inputs }))
      (sym (export_pipeline_object-parse_edges uuid flow d))
