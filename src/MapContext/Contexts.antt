-- ===== src/MapContext/Contexts.antt =====
-- What the analysis of map contexts finds.
use psae_monorepo.Prelude.{
  String, true, ◌≡◌, refl, ap, ◌∙◌, ◌↔◌, inl, inr, some, List, [], ◌∷◌, Memᴰ, arith, Bool-cases,
  Distinct, contains, contains_iff, not-contains_iff, length, ltb,
}
use mathlib.Core.List.Memᴰ
use mathlib.Core.WellFounded.{Acc}
use psae_monorepo.Dict
use psae_monorepo.Dict.{Dict}
use psae_monorepo.Types.{BlockKind}
use psae_monorepo.MapContext.{
  MapGraphNode, order_of, stack_after, is_nested, MapContexts, MapContextResult, entries_in_context,
  placed, compute_map_context,
}
use psae_monorepo.MapContext.Linking.{ids, mem-ids}
use psae_monorepo.MapContext.Topological.{Precedes, IsTopological, order_of-IsTopological}
use psae_monorepo.MapContext.Deepest.{Leaves, IsDeepest, stack_after-Leaves, input_stack-IsDeepest}
use psae_monorepo.MapContext.Stacks.{input_stack, IsPlaced, place_all-IsPlaced}

pub record HasContext (result : MapContextResult) (n : MapGraphNode) : Type 0 where
  pub input : List String
  pub output : List String
  pub incoming : Dict.get n.id result.incoming ≡ some input
  pub outgoing : Dict.get n.id result.outgoing ≡ some output
  pub is_deepest : IsDeepest result.outgoing n.deps input
  pub leaves : Leaves n.kind n.id input output

pub record IsAnalysis (nodes : List MapGraphNode) (result : MapContextResult) : Type 0 where
  pub contexts : (n : MapGraphNode) → Memᴰ n nodes → HasContext result n
  pub only_blocks :
      (id : String) (o : List String) → Dict.get id result.outgoing ≡ some o → Memᴰ id (ids nodes)
  pub in_context_iff :
      (id : String)
      → Memᴰ id result.in_context
        ↔ ((inc : List String) × (Dict.get id result.incoming ≡ some inc) × ¬ (inc ≡ []))
  pub nested_iff :
      (id : String)
      → Memᴰ id result.nested_maps ↔ (
          (n : MapGraphNode) × Memᴰ n nodes
          × (id ≡ n.id)
          × (n.kind ≡ BlockKind.map)
          × Memᴰ id result.in_context)

has_items_iff : (xs : List String) → (ltb 0 (length xs) ≡ true) ↔ (¬ (xs ≡ []))
has_items_iff [] = (λ e. cc, λ n. absurd (n refl))
has_items_iff (x ∷ xs) = (λ e q. cc, λ n. ground arith)

is_nested_iff :
    (k : BlockKind) (inc : List String)
    → (is_nested k inc ≡ true) ↔ ((k ≡ BlockKind.map) × ¬ (inc ≡ []))
unfolding is_nested
is_nested_iff BlockKind.map [] = (λ e. cc, λ (_, n). absurd (n refl))
is_nested_iff BlockKind.map (x ∷ inc) = (λ e. (refl, λ q. cc), λ _. refl)
is_nested_iff BlockKind.reduce inc = (λ e. cc, λ (e, _). cc)
is_nested_iff BlockKind.standard inc = (λ e. cc, λ (e, _). cc)

mem-entries_iff :
    (id : String) (m : Dict (List String))
    → Memᴰ id (entries_in_context m) ↔ ((inc : List String) × Memᴰ (id, inc) m × ¬ (inc ≡ []))
unfolding entries_in_context
mem-entries_iff id [] = (λ k. absurd (Memᴰ.not-nil k), λ (_, k, _). absurd (Memᴰ.not-nil k))
mem-entries_iff id ((x, xs) ∷ m) =
    let rest = mem-entries_iff id m in
    let (some_of, of_some) = has_items_iff xs in
    elim (Bool-cases (ltb 0 (length xs))) [
      | inl t ↦ rw t (
        λ k. elim (Memᴰ.cases_cons k) [
          | inl e ↦ (xs, Memᴰ.head (λ i. (e i, xs)), some_of t)
          | inr r ↦ let (inc, q, n) = rest.0 r in (inc, Memᴰ.tail q, n)
        ],
        λ (inc, k, n). elim (Memᴰ.cases_cons k) [
          | inl e ↦ Memᴰ.head (ap (λ p. p.0) e)
          | inr r ↦ Memᴰ.tail (rest.1 (inc, r, n))
        ],
      )
      | inr f ↦ rw f (
        λ k. let (inc, q, n) = rest.0 k in (inc, Memᴰ.tail q, n),
        λ (inc, k, n). elim (Memᴰ.cases_cons k) [
          | inl e ↦ let t = of_some (λ z. n (ap (λ p. p.1) e ∙ z)) in cc
          | inr r ↦ rest.1 (inc, r, n)
        ],
      )
    ]

in_context_iff :
    (id : String) (m : Dict (List String))
    → Distinct (Dict.keys m)
    → Memᴰ id (entries_in_context m)
      ↔ ((inc : List String) × (Dict.get id m ≡ some inc) × ¬ (inc ≡ []))
in_context_iff id m d =
    let entries = mem-entries_iff id m in
    (
      λ k. let (inc, q, n) = entries.0 k in (inc, Dict.get_of_mem m d q, n),
      λ (inc, q, n). entries.1 (inc, Dict.mem_of_get m q, n),
    )

start-IsPlaced :
    (nodes : List MapGraphNode)
    → IsPlaced nodes [] (record { incoming = []; outgoing = []; nested_maps = [] })
unfolding Dict.get
start-IsPlaced nodes = record {
  unplaced = λ x _. refl;
  inputs = λ n k m. absurd (Memᴰ.not-nil m);
  outputs = λ n k m. absurd (Memᴰ.not-nil m);
  closed = λ n k m. absurd (Memᴰ.not-nil m);
  nested_iff = λ x. (λ m. absurd (Memᴰ.not-nil m), λ (_, _, m, _, _). absurd (Memᴰ.not-nil m));
  keyed = tt;
}

placed-IsPlaced :
    (nodes : List MapGraphNode)
    → Distinct (ids nodes)
    → ((c : String) → Acc (Precedes nodes) c)
    → IsPlaced nodes (order_of nodes) (placed nodes)
unfolding placed
placed-IsPlaced nodes d wf =
    let t = order_of-IsTopological nodes d wf in
    place_all-IsPlaced nodes [] (order_of nodes)
      (record { incoming = []; outgoing = []; nested_maps = [] }) d t.distinct
      (λ x m. (t.blocks_iff x).0 m) t.behind (start-IsPlaced nodes)

-- Where the ids are distinct and the dependencies well founded, the stack at the input of every block is
-- the deepest of those at the outputs of its dependencies, the one at its output comes from it by its
-- kind, the blocks in a context are those with an open map at their input, and the nested maps are the
-- maps among these.
pub compute_map_context-IsAnalysis :
    (nodes : List MapGraphNode)
    → Distinct (ids nodes)
    → ((c : String) → Acc (Precedes nodes) c)
    → IsAnalysis nodes (compute_map_context nodes)
unfolding compute_map_context
compute_map_context-IsAnalysis nodes d wf = record {
  contexts = λ n k.
      let i = (t.blocks_iff n.id).1 (mem-ids n nodes k) in
      record {
        input = input_stack c.outgoing n;
        output = stack_after n.kind n.id (input_stack c.outgoing n);
        incoming = s.inputs n k i;
        outgoing = s.outputs n k i;
        is_deepest = input_stack-IsDeepest c.outgoing n;
        leaves = stack_after-Leaves n.kind n.id (input_stack c.outgoing n);
      };
  only_blocks = λ id o e. elim (Bool-cases (contains id (order_of nodes))) [
    | inl y ↦ (t.blocks_iff id).0 ((contains_iff id (order_of nodes)).0 y)
    | inr f ↦ let none_there = s.unplaced id ((not-contains_iff id (order_of nodes)).0 f) in cc
  ];
  in_context_iff = λ id. in_context_iff id c.incoming s.keyed;
  nested_iff = λ id. (
    λ m.
        let (n, k, i, e, q) = (s.nested_iff id).0 m in
        let (is_map, inside) = (is_nested_iff n.kind (input_stack c.outgoing n)).0 q in
        (
          n,
          k,
          e,
          is_map,
          (in_context_iff id c.incoming s.keyed).1 (
            input_stack c.outgoing n,
            ap (λ x. Dict.get x c.incoming) e ∙ s.inputs n k i,
            inside,
          ),
        ),
    λ (n, k, e, is_map, m).
        let (inc, q, inside) = (in_context_iff id c.incoming s.keyed).0 m in
        let i = (t.blocks_iff n.id).1 (mem-ids n nodes k) in
        let found = s.inputs n k i in
        let same = ap (λ x. Dict.get x c.incoming) e in
        let it : inc ≡ input_stack c.outgoing n = cc in
        (s.nested_iff id).1 (
          n,
          k,
          i,
          e,
          (is_nested_iff n.kind (input_stack c.outgoing n)).1 (is_map, λ z. inside (it ∙ z)),
        ),
  );
}
  where
    c : MapContexts
    c = placed nodes

    s : IsPlaced nodes (order_of nodes) c
    s = placed-IsPlaced nodes d wf

    t : IsTopological nodes (order_of nodes)
    t = order_of-IsTopological nodes d wf
