-- ===== src/Flow/Commands.antt =====
-- The store under the calls of the editor, one after the other.
use psae_monorepo.Prelude.{
  ℕ, String, not, ◌&&◌, ◌≡◌, refl, sym, subst, some, List, [], ◌∷◌, ◌==◌, Option-cases, inl, inr,
}
use psae_monorepo.Dict.{Dict}
use psae_monorepo.Types.{EdgeData}
use psae_monorepo.Flow.{
  Flow, FlowMetaPatch, NodeOptions, ParsedText, unparsable, nothing, parsed, edge_id, clear,
  set_meta, add_node, remove_node, update_first, update_node, connect, disconnect, set_edge_data,
}
use psae_monorepo.Flow.Import.{failed, imported, yaml_to_nodes, replace_with}
use psae_monorepo.Flow.Edges.{
  IsLinked, nil-IsLinked, connect_edge-IsLinked, set_edge-IsLinked, filter-IsLinked,
  connect_blocks-IsLinked,
}

-- The operations of the store that change it, with their arguments.
pub data Command (A N : Type 0) : Type 0 where
  clear_all : Command A N
  change_meta : FlowMetaPatch → Command A N
  add : (uuid : String) (random_x random_y : N) → NodeOptions A N → Command A N
  remove : (id : String) → Command A N
  change : (id label name : String) → Dict A → Command A N
  link : (source target : String) → Command A N
  unlink : (source target : String) → Command A N
  bind : (source target : String) → EdgeData → Command A N
  load : (pipeline_yaml : String) → Command A N

module _ {A N : Type 0} (number : ℕ → N) (parse : String → ParsedText A) where
  -- The caller goes on with the store as it is where `yamlToNodes` throws.
  unfoldable pub run : Command A N → Flow A N → Flow A N
  run clear_all flow = clear flow
  run (change_meta given) flow = set_meta given flow
  run (add uuid random_x random_y opts) flow = (add_node uuid random_x random_y opts flow).1
  run (remove id) flow = remove_node id flow
  run (change id label name args) flow = (update_node id label name args flow).1
  run (link source target) flow = connect source target flow
  run (unlink source target) flow = disconnect source target flow
  run (bind source target given) flow = set_edge_data source target given flow
  run (load pipeline_yaml) flow = elim (yaml_to_nodes number parse pipeline_yaml flow) [
    | failed message ↦ flow
    | imported next ↦ next
  ]

  unfoldable pub run_all : List (Command A N) → Flow A N → Flow A N
  run_all [] flow = flow
  run_all (c ∷ cs) flow = run_all cs (run c flow)

  update_node-edges :
      (id label name : String) (args : Dict A) (flow : Flow A N)
      → (update_node id label name args flow).1.edges ≡ flow.edges
  unfolding update_node
  update_node-edges id label name args flow =
      elim (Option-cases (
        update_first id (record { label = some label; name = some name; args = some args })
          flow.nodes)) [
            | inl n ↦ rw (n, update_node) refl
            | inr (nodes, e) ↦ rw (e, update_node) refl
          ]

  load-IsLinked :
      (text : String) (flow : Flow A N)
      → (t : ParsedText A) → parse text ≡ t
      → IsLinked flow.edges
      → IsLinked (run (load text) flow).edges
  unfolding run yaml_to_nodes replace_with
  load-IsLinked text flow (unparsable message) e l = rw (e, run, yaml_to_nodes) l
  load-IsLinked text flow nothing e l = rw (e, run, yaml_to_nodes) l
  load-IsLinked text flow (parsed pipe) e l = elim (Option-cases pipe.blocks) [
    | inl n ↦ rw (e, n, run, yaml_to_nodes) l
    | inr (blocks, b) ↦
        rw (e, b, run, yaml_to_nodes) (connect_blocks-IsLinked blocks [] nil-IsLinked)
  ]

  run-IsLinked :
      (c : Command A N) (flow : Flow A N) → IsLinked flow.edges → IsLinked (run c flow).edges
  unfolding run clear set_meta add_node remove_node connect disconnect set_edge_data
  run-IsLinked clear_all flow l = nil-IsLinked
  run-IsLinked (change_meta given) flow l = l
  run-IsLinked (add uuid random_x random_y opts) flow l = l
  run-IsLinked (remove id) flow l =
      filter-IsLinked (λ e. not (e.source == id) && not (e.target == id)) flow.edges l
  run-IsLinked (change id label name args) flow l =
      subst IsLinked (sym (update_node-edges id label name args flow)) l
  run-IsLinked (link source target) flow l = connect_edge-IsLinked source target flow.edges l
  run-IsLinked (unlink source target) flow l =
      filter-IsLinked (λ e. not (e.id == edge_id source target)) flow.edges l
  run-IsLinked (bind source target given) flow l =
      set_edge-IsLinked source target given flow.edges l
  run-IsLinked (load text) flow l = load-IsLinked text flow (parse text) refl l

  -- Whatever the calls, and also where a text is refused, every edge keeps the id made of its ends, and
  -- no two edges have one id, if that was so before.
  pub run_all-IsLinked :
      (cs : List (Command A N)) (flow : Flow A N)
      → IsLinked flow.edges
      → IsLinked (run_all cs flow).edges
  unfolding run_all
  run_all-IsLinked [] flow l = l
  run_all-IsLinked (c ∷ cs) flow l = run_all-IsLinked cs (run c flow) (run-IsLinked c flow l)
