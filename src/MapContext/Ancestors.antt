-- ===== src/MapContext/Ancestors.antt =====
-- The maps that are open at a block.
use psae_monorepo.Prelude.{
  ◌≤◌, String, ◌≡◌, refl, sym, ap, subst, ◌∙◌, ◌⊎◌, inl, inr, some, List, [], ◌∷◌, ◌++◌, Memᴰ,
  arith, Distinct, length, length-append, Memᴰ-map,
}
use mathlib.Core.List.Memᴰ
use mathlib.Core.WellFounded.{Acc}
use psae_monorepo.Dict
use psae_monorepo.Dict.{Dict}
use psae_monorepo.Types.{BlockKind}
use psae_monorepo.MapContext.{MapGraphNode, MapContextResult, compute_map_context}
use psae_monorepo.MapContext.Linking.{ids}
use psae_monorepo.MapContext.Topological.{Precedes}
use psae_monorepo.MapContext.Deepest.{Leaves-cases}
use psae_monorepo.MapContext.Contexts.{HasContext, IsAnalysis, compute_map_context-IsAnalysis}

-- `c` depends on `d`, directly or through other blocks.
pub data Reaches (nodes : List MapGraphNode) : String → String → Type 0 where
  direct : {d c : String} → Precedes nodes d c → Reaches nodes d c
  through : {x c : String} (d : String) → Reaches nodes x d → Precedes nodes d c → Reaches nodes x c

-- `x` is a map block before `c`.
pub record IsMapBefore (nodes : List MapGraphNode) (x c : String) : Type 0 where
  pub node : MapGraphNode
  pub there : Memᴰ node nodes
  pub named : x ≡ node.id
  pub is_map : node.kind ≡ BlockKind.map
  pub before : Reaches nodes x c

module _ (nodes : List MapGraphNode) (result : MapContextResult) (a : IsAnalysis nodes result) where
  -- A stack that is not empty at an input is that at the output of a block before.
  source :
      (n : MapGraphNode)
      → Memᴰ n nodes
      → (h : HasContext result n)
      → (h.input ≡ [])
        ⊎ ((m : MapGraphNode) × Memᴰ m nodes
            × Precedes nodes m.id n.id
            × (g : HasContext result m) × (g.output ≡ h.input))
  source n k h = elim h.is_deepest.from_dep [
    | inl e ↦ inl e
    | inr (d, i, q) ↦
        let known = a.only_blocks d h.input q in
        let (m, j, e) = Memᴰ-map (λ y. y.id) d nodes known in
        let g = a.contexts m j in
        let same = ap (λ x. Dict.get x result.outgoing) e in
        let out = g.outgoing in
        inr (m, j, subst (λ x. Precedes nodes x n.id) e (n, k, refl, i, known), g, cc)
  ]

  input-IsMapBefore :
      (c : String)
      → Acc (Precedes nodes) c
      → (n : MapGraphNode) → Memᴰ n nodes
      → n.id ≡ c
      → (h : HasContext result n) → (x : String) → Memᴰ x h.input
      → IsMapBefore nodes x n.id
  input-IsMapBefore c (Acc.intro _ smaller) n k e h x m = elim (source n k h) [
    | inl z ↦ absurd (Memᴰ.not-nil (subst (Memᴰ x) z m))
    | inr (d, j, p, g, o) ↦
        let below =
          input-IsMapBefore d.id (smaller d.id (subst (Precedes nodes d.id) e p)) d j refl g x in
        elim (Leaves-cases g.leaves) [
          | inl (is_map, out) ↦ elim (Memᴰ.append_cases g.input (subst (Memᴰ x) (sym o ∙ out) m)) [
            | inl i ↦ later d.id p (below i)
            | inr i ↦ record {
              node = d;
              there = j;
              named = Memᴰ.eq_of_singleton i;
              is_map = is_map;
              before =
                  Reaches.direct
                    (subst (λ y. Precedes nodes y n.id) (sym (Memᴰ.eq_of_singleton i)) p);
            }
          ]
          | inr (_, rest, out) ↦
              later d.id p (
                below (subst (Memᴰ x) (sym out) (Memᴰ.append_left rest (subst (Memᴰ x) (sym o) m))))
        ]
  ]
    where
      later :
          (d : String) → Precedes nodes d n.id → IsMapBefore nodes x d → IsMapBefore nodes x n.id
      later d p b = record {
        node = b.node;
        there = b.there;
        named = b.named;
        is_map = b.is_map;
        before = Reaches.through d b.before p;
      }

  input-le-one :
      result.nested_maps ≡ []
      → (c : String) → Acc (Precedes nodes) c
      → (n : MapGraphNode) → Memᴰ n nodes
      → n.id ≡ c
      → (h : HasContext result n) → length h.input ≤ 1
  input-le-one flat c (Acc.intro _ smaller) n k e h = elim (source n k h) [
    | inl z ↦ subst (λ l. length l ≤ 1) (sym z) (omega arith)
    | inr (d, j, p, g, o) ↦
        let below =
          input-le-one flat d.id (smaller d.id (subst (Precedes nodes d.id) e p)) d j refl g in
        elim (Leaves-cases g.leaves) [
          | inl (is_map, out) ↦
              subst (λ l. length l ≤ 1)
                (sym (sym o ∙ out ∙ ap (λ l. l ++ d.id ∷ []) (outermost d j is_map g)))
                (omega arith)
          | inr (_, rest, out) ↦
              let sum = length-append h.input rest in
              let same : length g.input ≡ length (h.input ++ rest) =
                ap length out ∙ ap (λ l. length (l ++ rest)) o in
              omega (arith, sum, same, below)
        ]
  ]
    where
      outermost :
          (d : MapGraphNode)
          → Memᴰ d nodes
          → d.kind ≡ BlockKind.map
          → (g : HasContext result d) → g.input ≡ []
      outermost d j is_map g = elim (nil-or g.input) [
        | inl z ↦ z
        | inr ne ↦ absurd (
            Memᴰ.not-nil (
              subst (Memᴰ d.id) flat (
                (a.nested_iff d.id).1
                  (d, j, refl, is_map, (a.in_context_iff d.id).1 (g.input, g.incoming, ne)))))
      ]
        where
          nil-or : (xs : List String) → (xs ≡ []) ⊎ (¬ (xs ≡ []))
          nil-or [] = inl refl
          nil-or (x ∷ xs) = inr (λ e. cc)

  input-of :
      (n : MapGraphNode) (inc : List String)
      → (h : HasContext result n) → Dict.get n.id result.incoming ≡ some inc
      → h.input ≡ inc
  input-of n inc h e = let e' = h.incoming in cc

-- Where the ids are distinct and the dependencies well founded, the blocks in the stack at the input of
-- a block are maps that it depends on, directly or through other blocks.
pub compute_map_context-IsMapBefore :
    (nodes : List MapGraphNode) (n : MapGraphNode) (inc : List String) (x : String)
    → Distinct (ids nodes)
    → ((c : String) → Acc (Precedes nodes) c)
    → Memᴰ n nodes
    → Dict.get n.id (compute_map_context nodes).incoming ≡ some inc
    → Memᴰ x inc
    → IsMapBefore nodes x n.id
compute_map_context-IsMapBefore nodes n inc x d wf k e m =
    let r = compute_map_context nodes in
    let a = compute_map_context-IsAnalysis nodes d wf in
    let h = a.contexts n k in
    input-IsMapBefore nodes r a n.id (wf n.id) n k refl h x
      (subst (Memᴰ x) (sym (input-of nodes r a n inc h e)) m)

-- Where the ids are distinct and the dependencies well founded, if no nested maps are found, at most one
-- map is open at any block.
pub compute_map_context-le-one :
    (nodes : List MapGraphNode) (n : MapGraphNode) (inc : List String)
    → Distinct (ids nodes)
    → ((c : String) → Acc (Precedes nodes) c)
    → (compute_map_context nodes).nested_maps ≡ []
    → Memᴰ n nodes
    → Dict.get n.id (compute_map_context nodes).incoming ≡ some inc
    → length inc ≤ 1
compute_map_context-le-one nodes n inc d wf flat k e =
    let r = compute_map_context nodes in
    let a = compute_map_context-IsAnalysis nodes d wf in
    let h = a.contexts n k in
    subst (λ l. length l ≤ 1) (input-of nodes r a n inc h e)
      (input-le-one nodes r a flat n.id (wf n.id) n k refl h)
