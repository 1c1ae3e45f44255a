-- ===== src/Flow/Restored.antt =====
-- The export of what was imported.
use psae_monorepo.Prelude.{
  ℕ, suc, String, ◌≡◌, refl, sym, ap, subst, ◌∙◌, ◌↔◌, some, get_or, List, [], ◌∷◌, map, flat_map,
  Memᴰ, Distinct,
}
use psae_monorepo.Types.{InputRef, Block}
use psae_monorepo.PipelineBuilder.{block_of_node, node_name, add_refs, parse_edges}
use psae_monorepo.PipelineBuilder.Edges.{ids, with_refs, parse_edges_lem}
use psae_monorepo.Flow.{FlowNode, Flow, ParsedBlock, ParsedPipeline, ParsedText, parsed}
use psae_monorepo.Flow.Import.{
  connect_blocks, grid_node, grid_nodes, replace_with, imported, yaml_to_nodes,
}
use psae_monorepo.Flow.Export.{export_pipeline_object}
use psae_monorepo.Flow.Edges.{edge_ids, nil-IsLinked}
use psae_monorepo.Flow.Exporters.{as_node, as_edge, export_pipeline_object-parse_edges}
use psae_monorepo.Flow.Attach.{wanted_edges, connect_blocks_lem}
use psae_monorepo.Flow.RoundTrip.{parsed_ids, refs_to_iff}

module _ {A : Type 0} where
  -- The block that is exported for one that was imported: its references are the same, but for their order
  -- and for repetitions.
  pub record IsRestored (b : ParsedBlock A) (c : Block A) : Type 0 where
    pub same_id : c.id ≡ b.id
    pub same_name : c.name ≡ b.name
    pub same_args : c.args ≡ get_or b.args []
    pub inputs_iff : (r : InputRef) → Memᴰ r c.inputs ↔ Memᴰ r (get_or b.inputs [])

  abbrev pub AreRestored : List (ParsedBlock A) → List (Block A) → Type 0
  AreRestored [] [] = Unit
  AreRestored (b ∷ blocks) (c ∷ cs) = IsRestored b c × AreRestored blocks cs
  AreRestored _ _ = ⊥

  -- The text can be imported, and the next export has the name, version and description of the document,
  -- with defaults where there is none, and its blocks.
  pub record RoundTrips {N : Type 0} (number : ℕ → N) (parse : String → ParsedText A)
      (text uuid : String) (flow : Flow A N) (pipe : ParsedPipeline A)
      (blocks : List (ParsedBlock A)) : Type 0 where
    pub next : Flow A N
    pub accepted : yaml_to_nodes number parse text flow ≡ imported next
    pub fresh_id : (export_pipeline_object uuid next).id ≡ some uuid
    pub name : (export_pipeline_object uuid next).name ≡ get_or pipe.name "untitled-pipeline"
    pub version : (export_pipeline_object uuid next).version ≡ get_or pipe.version "0.1.0"
    pub description : (export_pipeline_object uuid next).description ≡ pipe.description
    pub restored : AreRestored blocks (export_pipeline_object uuid next).blocks

module _ {A N : Type 0} (number : ℕ → N) (parse : String → ParsedText A) where
  node_ids :
      (i : ℕ) (blocks : List (ParsedBlock A))
      → map (λ n. n.id) (grid_nodes number parse i blocks) ≡ parsed_ids blocks
  unfolding grid_nodes grid_node
  node_ids i [] = refl
  node_ids i (b ∷ blocks) = ap (λ l. b.id ∷ l) (node_ids (suc i) blocks)

  block_ids :
      (nodes : List (FlowNode A N))
      → ids (map (λ n. block_of_node (as_node n)) nodes) ≡ map (λ n. n.id) nodes
  unfolding block_of_node
  block_ids [] = refl
  block_ids (n ∷ nodes) = ap (λ l. n.id ∷ l) (block_ids nodes)

  each-restored :
      (blocks : List (ParsedBlock A))
      → Distinct (parsed_ids blocks)
      → (i : ℕ) (some_of : List (ParsedBlock A))
      → ((b : ParsedBlock A) → Memᴰ b some_of → Memᴰ b blocks)
      → AreRestored some_of (
          map
            (with_refs (map as_edge (flat_map wanted_edges blocks)))
            (map (λ n. block_of_node (as_node n)) (grid_nodes number parse i some_of)))
  unfolding grid_nodes grid_node block_of_node node_name add_refs
  each-restored blocks d i [] sub = tt
  each-restored blocks d i (b ∷ bs) sub = (
    record {
      same_id = refl;
      same_name = refl;
      same_args = refl;
      inputs_iff = λ r. refs_to_iff blocks b r d (sub b (Memᴰ.head refl));
    },
    each-restored blocks d (suc i) bs (λ x m. sub x (Memᴰ.tail m)),
  )

  -- Where the blocks of a document have distinct ids, and the edges for which its references ask have
  -- distinct ids, importing the document and exporting the store gives its name, version, description and
  -- blocks again, with defaults for a missing name, version or args, and with the id that is drawn for
  -- the export. The blocks have the same ids, names and args, in the same order; each has the same
  -- references, but for their order and for repetitions.
  pub yaml_to_nodes-export_pipeline_object :
      (text uuid : String) (flow : Flow A N) (pipe : ParsedPipeline A)
      (blocks : List (ParsedBlock A))
      → parse text ≡ parsed pipe
      → pipe.blocks ≡ some blocks
      → Distinct (parsed_ids blocks)
      → Distinct (edge_ids (flat_map wanted_edges blocks))
      → RoundTrips number parse text uuid flow pipe blocks
  unfolding yaml_to_nodes replace_with export_pipeline_object
  yaml_to_nodes-export_pipeline_object text uuid flow pipe blocks e p d apart = record {
    next = next;
    accepted = rw (e, p, yaml_to_nodes) refl;
    fresh_id = refl;
    name = refl;
    version = refl;
    description = refl;
    restored =
        subst (AreRestored blocks) (sym exported) (each-restored blocks d 0 blocks (λ b m. m));
  }
    where
      next : Flow A N
      next = replace_with number parse pipe blocks flow

      nodes : List (FlowNode A N)
      nodes = grid_nodes number parse 0 blocks

      node_blocks : List (Block A)
      node_blocks = map (λ n. block_of_node (as_node n)) nodes

      distinct : Distinct (map (λ n. n.id) nodes)
      distinct = subst Distinct (sym (node_ids 0 blocks)) d

      made : connect_blocks blocks [] ≡ flat_map wanted_edges blocks
      made = connect_blocks_lem blocks [] nil-IsLinked apart

      exported :
          (export_pipeline_object uuid next).blocks
          ≡ map (with_refs (map as_edge (flat_map wanted_edges blocks))) node_blocks
      exported =
          export_pipeline_object-parse_edges uuid next distinct
          ∙ ap (λ es. parse_edges node_blocks (map as_edge es)) made
          ∙ parse_edges_lem node_blocks (map as_edge (flat_map wanted_edges blocks))
              (subst Distinct (sym (block_ids nodes)) distinct)
