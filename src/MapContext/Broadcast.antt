-- ===== src/MapContext/Broadcast.antt =====
-- The edges that bring a value from outside into a map context.
use psae_monorepo.Prelude.{
  String, true, false, ◌≡◌, refl, sym, ap, subst, ◌∙◌, ◌↔◌, inl, inr, some, List, [], ◌∷◌, ◌++◌,
  Memᴰ, arith, Option-cases, ==-cases, ◌==◌, Distinct, not-contains_iff,
}
use mathlib.Core.List.Memᴰ
use mathlib.Core.WellFounded.{Acc}
use psae_monorepo.Dict
use psae_monorepo.Dict.{Dict}
use psae_monorepo.MapContext.{
  MapGraphNode, MapContextResult, compute_map_context, innermost, active_map_for, is_broadcast_edge,
}
use psae_monorepo.MapContext.Linking.{ids}
use psae_monorepo.MapContext.Topological.{Precedes}
use psae_monorepo.MapContext.Deepest.{Leaves-cases}
use psae_monorepo.MapContext.Stacks.{same_node}
use psae_monorepo.MapContext.Contexts.{IsAnalysis, compute_map_context-IsAnalysis}
use psae_monorepo.MapContext.Ancestors.{compute_map_context-IsMapBefore}

innermost-some :
    (xs : List String) (x : String)
    → innermost xs ≡ some x
    → (init : List String) × (xs ≡ init ++ x ∷ [])
unfolding innermost
innermost-some [] x e = absurd (cc)
innermost-some (y ∷ []) x e = ([], cc)
innermost-some (y ∷ z ∷ xs) x e =
    let (init, p) = innermost-some (z ∷ xs) x e in (y ∷ init, ap (λ l. y ∷ l) p)

innermost-last : (init : List String) (x : String) → innermost (init ++ x ∷ []) ≡ some x
unfolding innermost
innermost-last [] x = refl
innermost-last (y ∷ []) x = refl
innermost-last (y ∷ z ∷ init) x = innermost-last (z ∷ init) x

-- The source has a stack in which the innermost map at the target is not.
pub record IsOutside (result : MapContextResult) (source target : String) : Type 0 where
  pub init : List String
  pub active : String
  pub output : List String
  pub incoming : Dict.get target result.incoming ≡ some (init ++ active ∷ [])
  pub outgoing : Dict.get source result.outgoing ≡ some output
  pub outside : ¬ Memᴰ active output

active_map_for-some :
    (result : MapContextResult) (id x : String)
    → active_map_for result id ≡ some x
    → (init : List String) × (Dict.get id result.incoming ≡ some (init ++ x ∷ []))
unfolding active_map_for
active_map_for-some result id x e = elim (Option-cases (Dict.get id result.incoming)) [
  | inl n ↦ let e' = rw (n, active_map_for) at e in absurd (cc)
  | inr (inc, p) ↦
      let (init, q) = innermost-some inc x (rw (p, active_map_for) at e) in (init, p ∙ ap some q)
]

active_map_for-last :
    (result : MapContextResult) (id x : String) (init : List String)
    → Dict.get id result.incoming ≡ some (init ++ x ∷ [])
    → active_map_for result id ≡ some x
unfolding active_map_for
active_map_for-last result id x init e = rw (e, active_map_for) (innermost-last init x)

-- Where the ids are distinct and the dependencies well founded, an edge between two blocks is a broadcast
-- exactly if a map is open at its target and the innermost such map is not open at the output of its
-- source.
pub is_broadcast_edge_iff :
    (nodes : List MapGraphNode) (s t : MapGraphNode)
    → Distinct (ids nodes)
    → ((c : String) → Acc (Precedes nodes) c)
    → Memᴰ s nodes
    → Memᴰ t nodes
    → (is_broadcast_edge (compute_map_context nodes) s.id t.id ≡ true)
      ↔ IsOutside (compute_map_context nodes) s.id t.id
unfolding is_broadcast_edge
is_broadcast_edge_iff nodes s t d wf i j = (
  λ e. elim (Option-cases (active_map_for r t.id)) [
    | inl n ↦ let e' = rw (n, is_broadcast_edge) at e in absurd (cc)
    | inr (x, p) ↦
        let (init, q) = active_map_for-some r t.id x p in
        let h = a.contexts s i in
        let tested = rw (p, h.outgoing, is_broadcast_edge) at e in
        record {
          init = init;
          active = x;
          output = h.output;
          incoming = q;
          outgoing = h.outgoing;
          outside = (not-contains_iff x h.output).0 (ground (arith, tested));
        }
  ],
  λ o.
      let p = active_map_for-last r t.id o.active o.init o.incoming in
      let different = other o in
      let unseen = (not-contains_iff o.active o.output).1 o.outside in
      rw (p, o.outgoing, different, unseen, is_broadcast_edge) refl,
)
  where
    r : MapContextResult
    r = compute_map_context nodes

    a : IsAnalysis nodes r
    a = compute_map_context-IsAnalysis nodes d wf

    -- A map block is open at its own output.
    other : (o : IsOutside r s.id t.id) → (s.id == o.active) ≡ false
    other o = elim (==-cases s.id o.active) [
      | inr (f, _) ↦ f
      | inl (_, e) ↦
          let b =
            compute_map_context-IsMapBefore nodes t (o.init ++ o.active ∷ []) o.active d wf j
              o.incoming (Memᴰ.append_right o.init (Memᴰ.head refl)) in
          let same = same_node nodes s b.node d i b.there (e ∙ b.named) in
          let h = a.contexts s i in
          let out = h.outgoing in
          let there = o.outgoing in
          let it : h.output ≡ o.output = cc in
          elim (Leaves-cases h.leaves) [
            | inl (_, q) ↦ absurd (
                o.outside (
                  subst (Memᴰ o.active) (sym q ∙ it)
                    (Memᴰ.append_right h.input (Memᴰ.head (sym e)))))
            | inr (no_map, _, _) ↦ absurd (no_map (ap (λ y. y.kind) same ∙ b.is_map))
          ]
    ]
