-- ===== src/Flow/Live.antt =====
-- The analysis of map contexts for the graph in the editor (web_ui/composables/useMapContext.ts), with the
-- kinds from the block catalogue (web_ui/composables/useBlockCatalogue.ts).
use psae_monorepo.Prelude.{
  String, Bool, true, ◌≡◌, refl, sym, ap, subst, ◌∙◌, Option, none, some, List, [], ◌∷◌, ◌==◌,
  ==_iff, if◌then◌else◌, map, filter, mem-filter, filter_of_mem, mem-map_of_mem, ==-cases,
  Option-cases, ◌⊎◌, inl, inr, ◌↔◌, Memᴰ, Memᴰ-map, Distinct,
}
use mathlib.Core.WellFounded.{Acc}
use psae_monorepo.Dict
use psae_monorepo.Dict.{Dict}
use psae_monorepo.Types.{BlockKind}
use psae_monorepo.MapContext.{MapGraphNode, MapContextResult, compute_map_context}
use psae_monorepo.MapContext.Linking.{ids}
use psae_monorepo.MapContext.Topological.{Precedes}
use psae_monorepo.MapContext.Contexts.{IsAnalysis, compute_map_context-IsAnalysis}
use psae_monorepo.Api.Submit.{truthy}
use psae_monorepo.Api.Catalogue.{BlockListItem}
use psae_monorepo.Flow.{NodeData, FlowNode, FlowEdge, Flow}
use psae_monorepo.Flow.Export.{flow_name}

-- The cached catalogue.
pub record Catalogue : Type 0 where
  pub items : Dict BlockListItem
  pub loaded : Bool

unfoldable pub items_by_name : List BlockListItem → Dict BlockListItem → Dict BlockListItem
items_by_name [] items = items
items_by_name (b ∷ blocks) items = items_by_name blocks (Dict.set b.name b items)

-- `response` is what the fetch gives; `none` is a fetch that fails, which is logged.
unfoldable pub load_catalogue : (response : Option (List BlockListItem)) → Catalogue → Catalogue
load_catalogue response c = if c.loaded then c else elim response [
  | none ↦ c
  | some blocks ↦ record { items = items_by_name blocks []; loaded = true }
]

unfoldable pub catalogue_get : Option String → Catalogue → Option BlockListItem
catalogue_get name c = elim (truthy name) [ none ↦ none | some n ↦ Dict.get n c.items ]

-- The kind of a node: that of the catalogue's item of its name, and standard where there is none.
pub data HasKind (catalogue : Catalogue) (name : String) : BlockKind → Type 0 where
  listed :
      (b : BlockListItem)
      → ¬ (name ≡ "")
      → Dict.get name catalogue.items ≡ some b
      → HasKind catalogue name b.kind
  unlisted :
      (name ≡ "") ⊎ (Dict.get name catalogue.items ≡ none)
      → HasKind catalogue name BlockKind.standard

module _ {A N : Type 0} where
  unfoldable pub live_node : Catalogue → List FlowEdge → FlowNode A N → MapGraphNode
  live_node catalogue es node = record {
    id = node.id;
    kind = elim (catalogue_get (some (flow_name node)) catalogue) [
      | none ↦ BlockKind.standard
      | some b ↦ b.kind
    ];
    deps = map (λ e. e.source) (filter (λ e. e.target == node.id) es);
  }

  unfoldable pub live_nodes : Catalogue → Flow A N → List MapGraphNode
  live_nodes catalogue flow = map (live_node catalogue flow.edges) flow.nodes

  unfoldable pub live_context : Catalogue → Flow A N → MapContextResult
  live_context catalogue flow = compute_map_context (live_nodes catalogue flow)

  -- An edge leads from `d` to `c`.
  abbrev pub Feeds : Flow A N → String → String → Type 0
  Feeds flow d c = (e : FlowEdge) × Memᴰ e flow.edges × (e.source ≡ d) × (e.target ≡ c)

  live-ids :
      (catalogue : Catalogue) (es : List FlowEdge) (nodes : List (FlowNode A N))
      → ids (map (live_node catalogue es) nodes) ≡ map (λ n. n.id) nodes
  unfolding live_node
  live-ids catalogue es [] = refl
  live-ids catalogue es (n ∷ nodes) = ap (λ l. n.id ∷ l) (live-ids catalogue es nodes)

  live_node-id :
      (catalogue : Catalogue) (es : List FlowEdge) (n : FlowNode A N)
      → (live_node catalogue es n).id ≡ n.id
  unfolding live_node
  live_node-id catalogue es n = refl

  Precedes-Feeds :
      (catalogue : Catalogue) (flow : Flow A N) (d c : String)
      → Precedes (live_nodes catalogue flow) d c
      → Feeds flow d c
  unfolding live_nodes live_node
  Precedes-Feeds catalogue flow d c (n, k, p, i, _) =
      let (node, _, q) = Memᴰ-map (live_node catalogue flow.edges) n flow.nodes k in
      let (e, j, s) =
        Memᴰ-map (λ x. x.source) d (filter (λ x. x.target == node.id) flow.edges)
          (subst (λ y. Memᴰ d y.deps) q i) in
      let (m, t) = mem-filter (λ x. x.target == node.id) flow.edges j in
      (e, m, sym s, (==_iff e.target node.id).0 t ∙ sym (p ∙ ap (λ y. y.id) q))

  Feeds-Acc :
      (catalogue : Catalogue) (flow : Flow A N) (c : String)
      → Acc (Feeds flow) c
      → Acc (Precedes (live_nodes catalogue flow)) c
  Feeds-Acc catalogue flow c (Acc.intro _ before) =
      Acc.intro c
        (λ d p. Feeds-Acc catalogue flow d (before d (Precedes-Feeds catalogue flow d c p)))

  -- The name of a node's block: that in its data, or else the label there, or else none.
  pub data IsNamed (node : FlowNode A N) : String → Type 0 where
    by_name :
        (d : NodeData A) (name : String)
        → node.node_data ≡ some d
        → d.name ≡ some name
        → IsNamed node name
    by_label :
        (d : NodeData A) (label : String)
        → node.node_data ≡ some d
        → d.name ≡ none
        → d.label ≡ some label
        → IsNamed node label
    unlabelled :
        (d : NodeData A)
        → node.node_data ≡ some d
        → d.name ≡ none
        → d.label ≡ none
        → IsNamed node ""
    without_data : node.node_data ≡ none → IsNamed node ""

  flow_name-IsNamed : (node : FlowNode A N) → IsNamed node (flow_name node)
  unfolding flow_name
  flow_name-IsNamed node = elim (Option-cases node.node_data) [
    | inl n ↦
        let e : flow_name node ≡ "" = rw (n, flow_name) refl in
        subst (IsNamed node) (sym e) (IsNamed.without_data n)
    | inr (d, p) ↦ elim (Option-cases d.name) [
      | inr (name, q) ↦
          let e : flow_name node ≡ name = rw (p, q, flow_name) refl in
          subst (IsNamed node) (sym e) (IsNamed.by_name d name p q)
      | inl q ↦ elim (Option-cases d.label) [
        | inr (label, l) ↦
            let e : flow_name node ≡ label = rw (p, q, l, flow_name) refl in
            subst (IsNamed node) (sym e) (IsNamed.by_label d label p q l)
        | inl l ↦
            let e : flow_name node ≡ "" = rw (p, q, l, flow_name) refl in
            subst (IsNamed node) (sym e) (IsNamed.unlabelled d p q l)
      ]
    ]
  ]

  live_node-HasKind :
      (catalogue : Catalogue) (es : List FlowEdge) (node : FlowNode A N)
      → HasKind catalogue (flow_name node) (live_node catalogue es node).kind
  unfolding live_node catalogue_get truthy
  live_node-HasKind catalogue es node = elim (==-cases (flow_name node) "") [
    | inl (b, e) ↦ rw (b, live_node, catalogue_get, truthy) (HasKind.unlisted (inl e))
    | inr (b, ne) ↦ elim (Option-cases (Dict.get (flow_name node) catalogue.items)) [
      | inl n ↦ rw (b, n, live_node, catalogue_get, truthy) (HasKind.unlisted (inr n))
      | inr (item, q) ↦ rw (b, q, live_node, catalogue_get, truthy) (HasKind.listed item ne q)
    ]
  ]

  live_node-deps_iff :
      (catalogue : Catalogue) (flow : Flow A N) (node : FlowNode A N) (d : String)
      → Memᴰ d (live_node catalogue flow.edges node).deps ↔ Feeds flow d node.id
  unfolding live_node
  live_node-deps_iff catalogue flow node d = (
    λ i.
        let (e, j, s) =
          Memᴰ-map (λ x. x.source) d (filter (λ x. x.target == node.id) flow.edges) i in
        let (m, t) = mem-filter (λ x. x.target == node.id) flow.edges j in
        (e, m, sym s, (==_iff e.target node.id).0 t),
    λ (e, m, s, t).
        subst (λ x. Memᴰ x (map (λ y. y.source) (filter (λ x. x.target == node.id) flow.edges))) s
          (mem-map_of_mem (λ y. y.source) (filter (λ x. x.target == node.id) flow.edges)
            (filter_of_mem (λ x. x.target == node.id) flow.edges m
              ((==_iff e.target node.id).1 t))),
  )

  -- The graph that the editor holds: its nodes in their order, each with the kind that the catalogue
  -- gives its name, and the sources of the edges that end in it.
  pub record IsGraphOf (catalogue : Catalogue) (flow : Flow A N) (graph : List MapGraphNode)
      : Type 0 where
    pub ids_same : map (λ g. g.id) graph ≡ map (λ n. n.id) flow.nodes
    pub node_of :
        (g : MapGraphNode)
        → Memᴰ g graph
        → (n : FlowNode A N) × Memᴰ n flow.nodes
          × (g.id ≡ n.id)
          × ((name : String) × IsNamed n name × HasKind catalogue name g.kind)
          × ((d : String) → Memᴰ d g.deps ↔ Feeds flow d n.id)

  live_nodes-IsGraphOf :
      (catalogue : Catalogue) (flow : Flow A N)
      → IsGraphOf catalogue flow (live_nodes catalogue flow)
  unfolding live_nodes
  live_nodes-IsGraphOf catalogue flow = record {
    ids_same = live-ids catalogue flow.edges flow.nodes;
    node_of = λ g m.
        let (n, k, e) = Memᴰ-map (live_node catalogue flow.edges) g flow.nodes m in
        (n, k, ap (λ x. x.id) e ∙ live_node-id catalogue flow.edges n, kind g n e, deps g n e);
  }
    where
      kind :
          (g : MapGraphNode) (n : FlowNode A N)
          → g ≡ live_node catalogue flow.edges n
          → (name : String) × IsNamed n name × HasKind catalogue name g.kind
      kind g n e = (
        flow_name n,
        flow_name-IsNamed n,
        subst (λ x. HasKind catalogue (flow_name n) x.kind) (sym e)
            (live_node-HasKind catalogue flow.edges n),
      )

      deps :
          (g : MapGraphNode) (n : FlowNode A N)
          → g ≡ live_node catalogue flow.edges n
          → (d : String) → Memᴰ d g.deps ↔ Feeds flow d n.id
      deps g n e d =
          subst (λ x. Memᴰ d x.deps ↔ Feeds flow d n.id) (sym e)
            (live_node-deps_iff catalogue flow n d)

  -- Where the nodes have distinct ids and the edges make no cycle, the editor shows the analysis of a
  -- graph that has its nodes in their order, each with the kind of the catalogue's item of its name,
  -- standard where there is none, and with the sources of the edges that end in it.
  pub live_context-IsAnalysis :
      (catalogue : Catalogue) (flow : Flow A N)
      → Distinct (map (λ n. n.id) flow.nodes)
      → ((c : String) → Acc (Feeds flow) c)
      → (graph : List MapGraphNode) × IsGraphOf catalogue flow graph
        × IsAnalysis graph (live_context catalogue flow)
  unfolding live_context live_nodes
  live_context-IsAnalysis catalogue flow d wf = (
    live_nodes catalogue flow,
    live_nodes-IsGraphOf catalogue flow,
    compute_map_context-IsAnalysis (live_nodes catalogue flow)
        (subst Distinct (sym (live-ids catalogue flow.edges flow.nodes)) d)
        (λ c. Feeds-Acc catalogue flow c (wf c)),
  )
