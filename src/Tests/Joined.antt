-- ===== src/Tests/Joined.antt =====
-- A fresh edge of the editor with the manifests of its blocks, and the graph it belongs to.
use psae_monorepo.Prelude.{
  ℕ, String, true, false, List, ◌≡◌, refl, sym, ap, subst, ◌∙◌, ◌⊎◌, inl, inr, Option, none, some,
  [], ◌∷◌, Distinct, Bool-cases, contains, not-contains_iff, map, ◌==◌, ==_iff, if◌then◌else◌,
}
use mathlib.Core.List.Memᴰ
use mathlib.Core.WellFounded.{Acc}
use psae_monorepo.Dict
use psae_monorepo.Dict.{Dict}
use psae_monorepo.Types.{PortType, PortDecl, BlockManifest, BlockKind}
use psae_monorepo.Wiring.Steps.{IsObjects}
use psae_monorepo.MapContext.Contexts.{IsAnalysis}
use psae_monorepo.Flow.{FlowNode, FlowEdge, Flow, joins}
use psae_monorepo.Flow.Resolve.{unknown, resolve_and_apply, IsBound, resolve_and_apply_lem}
use psae_monorepo.Flow.Live.{Catalogue, Feeds, IsGraphOf, live_context, live_context-IsAnalysis}
use psae_monorepo.MapContext.{MapGraphNode}

abbrev file : PortDecl
file = record { type = PortType.file; format = none; description = none; item_type = none }

abbrev reader : BlockManifest
reader = record {
  id = "reader";
  version = "1";
  kind = BlockKind.standard;
  network = false;
  description = none;
  entrypoint = none;
  inputs = [];
  outputs = ("tile", file) ∷ [];
}

abbrev clipper : BlockManifest
clipper = record {
  id = "clipper";
  version = "1";
  kind = BlockKind.standard;
  network = false;
  description = none;
  entrypoint = none;
  inputs = ("image", file) ∷ [];
  outputs = ("image", file) ∷ [];
}

abbrev load : String → Option BlockManifest
load name =
    if name == "reader" then some reader else if name == "clipper" then some clipper else none

abbrev node : String → FlowNode String ℕ
node name = record {
  id = name;
  x = 0;
  y = 0;
  node_data = some (record { label = some name; name = some name; args = none });
}

abbrev wire : FlowEdge
wire = record { id = "reader->clipper"; source = "reader"; target = "clipper"; edge_data = none }

abbrev joined : Flow String ℕ
joined = record {
  nodes = node "reader" ∷ node "clipper" ∷ [];
  edges = wire ∷ [];
  pipeline_meta = record { name = "p"; version = "1"; description = none };
}

one_item-Distinct : (k : String) → Distinct (k ∷ [])
one_item-Distinct k = (λ m. Memᴰ.not-nil m, tt)

nodes-Distinct : Distinct (map (λ n. n.id) joined.nodes)
unfolding contains
nodes-Distinct = ((not-contains_iff "reader" ("clipper" ∷ [])).0 refl, one_item-Distinct "clipper")

loaded-Distinct :
    (name : String) (m : BlockManifest)
    → load name ≡ some m
    → Distinct (Dict.keys m.outputs) × Distinct (Dict.keys m.inputs)
loaded-Distinct name m e = elim (Bool-cases (name == "reader")) [
  | inl t ↦ of (some reader) (rw t at e) (one_item-Distinct "tile", tt)
  | inr f ↦ elim (Bool-cases (name == "clipper")) [
    | inl t ↦
        of (some clipper) (rw (f, t) at e) (one_item-Distinct "image", one_item-Distinct "image")
    | inr g ↦ absurd (nothing (rw (f, g) at e))
  ]
]
  where
    nothing : none ≡ some m → ⊥
    nothing p = cc

    injective : {x : BlockManifest} → some x ≡ some m → x ≡ m
    injective p = cc

    of :
        (o : Option BlockManifest)
        → o ≡ some m
        → elim o as (λ _. Type 0) [
          | none ↦ Unit
          | some x ↦ Distinct (Dict.keys x.outputs) × Distinct (Dict.keys x.inputs)
        ]
        → Distinct (Dict.keys m.outputs) × Distinct (Dict.keys m.inputs)
    of none p h = absurd (nothing p)
    of (some x) p h =
        subst (λ y. Distinct (Dict.keys y.outputs) × Distinct (Dict.keys y.inputs)) (injective p) h

loaded-IsObjects :
    (up down : String) (u d : BlockManifest) → load up ≡ some u → load down ≡ some d → IsObjects u d
loaded-IsObjects up down u d e f = record {
  outputs = (loaded-Distinct up u e).0;
  inputs = (loaded-Distinct down d f).1;
}

joined-Acc : (c : String) → Acc (Feeds joined) c
joined-Acc c = Acc.intro c (λ d (e, m, s, _). Acc.intro d (λ b (x, k, _, t). absurd (
    apart (
      sym (ap (λ y. y.source) (Memᴰ.eq_of_singleton m))
      ∙ s
      ∙ sym t
      ∙ ap (λ y. y.target) (Memᴰ.eq_of_singleton k)))))
  where
    apart : ◌≡◌ {A = String} "reader" "clipper" → ⊥
    apart p = let t = (==_iff "reader" "clipper").1 p in cc

resolve_and_apply_lem_example :
    let answer = resolve_and_apply load "reader" "clipper" joined joined in
    ((answer.0 ≡ unknown) × (answer.1 ≡ joined)) ⊎ IsBound load "reader" "clipper" joined answer
unfolding joins
resolve_and_apply_lem_example =
    resolve_and_apply_lem load "reader" "clipper" joined joined refl loaded-IsObjects

abbrev catalogue : Catalogue
catalogue = record {
  items =
      (
        "reader",
        record {
          id = "reader";
          name = "reader";
          label = "Reader";
          kind = BlockKind.map;
          network = false;
          description = none;
        },
      )
      ∷ [];
  loaded = true;
}

live_context-IsAnalysis_example :
    (graph : List MapGraphNode) × IsGraphOf catalogue joined graph
    × IsAnalysis graph (live_context catalogue joined)
live_context-IsAnalysis_example = live_context-IsAnalysis catalogue joined nodes-Distinct joined-Acc
