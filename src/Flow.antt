-- ===== src/Flow.antt =====
-- The store of the graph editor (web_ui/composables/useFlow.ts): the nodes, the edges and the metadata of
-- the pipeline that is edited.
pub mod Edges
pub mod Import
pub mod Export
pub mod Commands
pub mod Exporters
pub mod Attach
pub mod Grouping
pub mod RoundTrip
pub mod Restored
pub mod Resolve
pub mod Live
use psae_monorepo.Prelude.{
  ℕ, zero, suc, ◌+◌, String, Bool, true, false, not, ◌&&◌, Option, none, some, get_or, List, [],
  ◌∷◌, ◌++◌, ◌==◌, ◌<>◌, if◌then◌else◌, map, filter, find?, any, contains,
}
use psae_monorepo.Dict
use psae_monorepo.Dict.{Dict}
use psae_monorepo.Types.{InputRef, bare, explicit, Block, Pipeline, Binding, EdgeData}

-- What the store keeps with a node; `any` in the code, so each field can be missing.
pub record NodeData (A : Type 0) : Type 0 where
  pub label : Option String
  pub name : Option String
  pub args : Option (Dict A)

-- A node of type "block". A coordinate is a number of JavaScript, of the type `N`.
pub record FlowNode (A N : Type 0) : Type 0 where
  pub id : String
  pub x : N
  pub y : N
  pub node_data : Option (NodeData A)

pub record FlowEdge : Type 0 where
  pub id : String
  pub source : String
  pub target : String
  pub edge_data : Option EdgeData

pub record FlowMeta : Type 0 where
  pub name : String
  pub version : String
  pub description : Option String

-- The fields that a partial update gives; `none` is a field that it leaves out.
pub record FlowMetaPatch : Type 0 where
  pub name : Option String
  pub version : Option String
  pub description : Option String

pub record Flow (A N : Type 0) : Type 0 where
  pub nodes : List (FlowNode A N)
  pub edges : List FlowEdge
  pub pipeline_meta : FlowMeta

pub record NodeOptions (A N : Type 0) : Type 0 where
  pub name : String
  pub label : String
  pub args : Option (Dict A)
  pub x : Option N
  pub y : Option N
  pub id : Option String

-- A document as it is parsed: a field can be missing, and a block can be without `inputs` or `args`.
pub record ParsedBlock (A : Type 0) : Type 0 where
  pub id : String
  pub name : String
  pub inputs : Option (List InputRef)
  pub args : Option (Dict A)

pub record ParsedPipeline (A : Type 0) : Type 0 where
  pub name : Option String
  pub version : Option String
  pub description : Option String
  pub blocks : Option (List (ParsedBlock A))

-- What `YAML.parse` does with a text: an exception, an empty document, or a value with or without a list
-- of blocks.
pub data ParsedText (A : Type 0) : Type 0 where
  unparsable : String → ParsedText A
  nothing : ParsedText A
  parsed : ParsedPipeline A → ParsedText A

-- The edges, by themselves: no operation on them reads the nodes.
unfoldable pub edge_id : String → String → String
edge_id source target = source <> "->" <> target

unfoldable pub connect_edge : String → String → List FlowEdge → List FlowEdge
connect_edge source target es =
    if any (λ e. e.id == edge_id source target) es
    then es
    else es
      ++ record {
        id = edge_id source target;
        source = source;
        target = target;
        edge_data = some (record { bindings = none; unresolved = some false });
      }
        ∷ []

unfoldable pub joins : String → String → FlowEdge → Bool
joins source target e = e.source == source && e.target == target

-- The first edge between the two nodes takes the data.
unfoldable pub set_edge : String → String → EdgeData → List FlowEdge → List FlowEdge
set_edge source target given [] = []
set_edge source target given (e ∷ es) =
    if joins source target e
    then record e { edge_data = some given } ∷ es
    else e ∷ set_edge source target given es

-- The references of a block, grouped by the block that they name: the set of the bare ones, and the map
-- of the bindings.
pub record Grouped : Type 0 where
  pub bares : List String
  pub bindings : Dict (List Binding)

unfoldable pub group_one : InputRef → Grouped → Grouped
group_one (bare s) g = if contains s g.bares then g else record g { bares = g.bares ++ s ∷ [] }
group_one (explicit block output) g = record g {
  bindings =
      Dict.set block
        (get_or (Dict.get block g.bindings) [] ++ record { output = output; input = "" } ∷ [])
        g.bindings;
}

unfoldable pub group_all : List InputRef → Grouped → Grouped
group_all [] g = g
group_all (r ∷ refs) g = group_all refs (group_one r g)

unfoldable pub connect_bares : String → List String → List FlowEdge → List FlowEdge
connect_bares id [] es = es
connect_bares id (upstream ∷ rest) es = connect_bares id rest (connect_edge upstream id es)

unfoldable pub connect_bound : String → Dict (List Binding) → List FlowEdge → List FlowEdge
connect_bound id [] es = es
connect_bound id ((upstream, bindings) ∷ rest) es = connect_bound id rest (
    set_edge upstream id (record { bindings = some bindings; unresolved = some false })
      (connect_edge upstream id es))

-- The references that an edge stands for: those of its bindings, where it has some, or a bare one.
unfoldable pub refs_of_bindings : String → Option (List Binding) → List InputRef
refs_of_bindings source (some (b ∷ bs)) = map (λ x. explicit source x.output) (b ∷ bs)
refs_of_bindings source _ = bare source ∷ []

unfoldable pub refs_of_edge : FlowEdge → List InputRef
refs_of_edge e = elim e.edge_data [
  | none ↦ bare e.source ∷ []
  | some given ↦ refs_of_bindings e.source given.bindings
]

module _ {A N : Type 0} where
  unfoldable pub clear : Flow A N → Flow A N
  clear flow = record flow { nodes = []; edges = [] }

  unfoldable pub set_meta : FlowMetaPatch → Flow A N → Flow A N
  set_meta given flow = record flow {
    pipeline_meta = record {
      name = get_or given.name flow.pipeline_meta.name;
      version = get_or given.version flow.pipeline_meta.version;
      description = elim given.description [
        | none ↦ flow.pipeline_meta.description
        | some d ↦ some d
      ];
    };
  }

  -- `random_x` and `random_y` are the coordinates that the code draws, `uuid` is what `v7()` returns.
  unfoldable pub add_node :
      (uuid : String) (random_x random_y : N) → NodeOptions A N → Flow A N → String × Flow A N
  add_node uuid random_x random_y opts flow =
      let id = get_or opts.id uuid in
      (
        id,
        record flow {
          nodes =
              flow.nodes
              ++ record {
                id = id;
                x = get_or opts.x random_x;
                y = get_or opts.y random_y;
                node_data = some (record {
                  label = some opts.label;
                  name = some opts.name;
                  args = some (get_or opts.args []);
                });
              }
                ∷ [];
        },
      )

  unfoldable pub remove_node : String → Flow A N → Flow A N
  remove_node id flow = record flow {
    nodes = filter (λ n. not (n.id == id)) flow.nodes;
    edges = filter (λ e. not (e.source == id) && not (e.target == id)) flow.edges;
  }

  -- The first node of the id takes the data; there can be none.
  unfoldable pub update_first :
      String → NodeData A → List (FlowNode A N) → Option (List (FlowNode A N))
  update_first id given [] = none
  update_first id given (n ∷ nodes) =
      let rest = update_first id given nodes in
      if n.id == id
      then some (record n { node_data = some given } ∷ nodes)
      else elim rest [ none ↦ none | some ns ↦ some (n ∷ ns) ]

  unfoldable pub update_node : String → (label name : String) → Dict A → Flow A N → Bool × Flow A N
  update_node id label name args flow =
      elim (update_first id (record { label = some label; name = some name; args = some args })
        flow.nodes) [ none ↦ (false, flow) | some nodes ↦ (true, record flow { nodes = nodes }) ]

  unfoldable pub data_by_id : String → Flow A N → Option (NodeData A)
  data_by_id id flow = elim (find? (λ n. n.id == id) flow.nodes) [
    | none ↦ none
    | some n ↦ n.node_data
  ]

  unfoldable pub get_args_by_id : String → Flow A N → Option (Dict A)
  get_args_by_id id flow = elim (data_by_id id flow) [ none ↦ none | some d ↦ d.args ]

  unfoldable pub get_name_by_id : String → Flow A N → Option String
  get_name_by_id id flow = elim (data_by_id id flow) [ none ↦ none | some d ↦ d.name ]

  unfoldable pub connect : String → String → Flow A N → Flow A N
  connect source target flow = record flow { edges = connect_edge source target flow.edges }

  unfoldable pub disconnect : String → String → Flow A N → Flow A N
  disconnect source target flow = record flow {
    edges = filter (λ e. not (e.id == edge_id source target)) flow.edges;
  }

  unfoldable pub set_edge_data : String → String → EdgeData → Flow A N → Flow A N
  set_edge_data source target given flow = record flow {
    edges = set_edge source target given flow.edges;
  }

  unfoldable pub get_edge_data : String → String → Flow A N → Option EdgeData
  get_edge_data source target flow = elim (find? (joins source target) flow.edges) [
    | none ↦ none
    | some e ↦ e.edge_data
  ]
