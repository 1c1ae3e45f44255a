-- ===== src/Flow/RoundTrip.antt =====
-- A document that is imported and exported again.
use psae_monorepo.Prelude.{
  String, ◌≡◌, refl, sym, ap, subst, ◌∙◌, ◌↔◌, inl, inr, some, get_or, List, [], ◌∷◌, ◌++◌, ◌==◌,
  ==_iff, map, flat_map, filter, mem-filter, filter_of_mem, Memᴰ, Distinct, Memᴰ-map,
  mem-map_of_mem, Memᴰ-flat_map,
}
use mathlib.Core.List.Memᴰ
use psae_monorepo.Dict
use psae_monorepo.Dict.{Dict}
use psae_monorepo.Types.{InputRef, bare, explicit, Binding}
use psae_monorepo.PipelineBuilder.{Edge, edge_refs}
use psae_monorepo.PipelineBuilder.Edges.{refs_to}
use psae_monorepo.Flow.{FlowEdge, ParsedBlock, Grouped, refs_of_bindings, refs_of_edge}
use psae_monorepo.Flow.Exporters.{as_edge, refs_of_edge_lem}
use psae_monorepo.Flow.Attach.{
  edge_with, bare_data, bound_data, bare_edges, bound_edges, grouped, wanted_edges,
}
use psae_monorepo.Flow.Grouping.{
  Holds, IsGrouped, outputs, group_all_lem, group_all-IsGrouped, nil-IsGrouped,
}

refs-bare_edge : (s id : String) → refs_of_edge (edge_with s id bare_data) ≡ bare s ∷ []
unfolding refs_of_edge refs_of_bindings
refs-bare_edge s id = refl

refs-bound_edge :
    (s id : String) (bs : List Binding)
    → ¬ (bs ≡ [])
    → refs_of_edge (edge_with s id (bound_data bs)) ≡ map (λ b. explicit s b.output) bs
unfolding refs_of_edge refs_of_bindings
refs-bound_edge s id [] ne = absurd (ne refl)
refs-bound_edge s id (b ∷ bs) ne = refl

mem-explicit_iff :
    (s : String) (bs : List Binding) (r : InputRef)
    → Memᴰ r (map (λ b. explicit s b.output) bs)
      ↔ ((o : String) × (r ≡ explicit s o) × Memᴰ o (outputs bs))
mem-explicit_iff s bs r = (
  λ m.
      let (b, k, e) = Memᴰ-map (λ x. explicit s x.output) r bs m in
      (b.output, e, mem-map_of_mem (λ x. x.output) bs k),
  λ (o, e, m).
      let (b, k, q) = Memᴰ-map (λ x. x.output) o bs m in
      subst (λ x. Memᴰ x (map (λ y. explicit s y.output) bs)) (sym (e ∙ ap (explicit s) q))
        (mem-map_of_mem (λ x. explicit s x.output) bs k),
)

-- The edges that a grouping makes stand for the references that it holds.
edges_iff :
    (id : String) (g : Grouped) (r : InputRef)
    → IsGrouped g
    → Memᴰ r (flat_map refs_of_edge (bare_edges id g.bares ++ bound_edges id g.bindings))
      ↔ Holds g r
edges_iff id g r h = (
  λ m.
      let (e, k, i) =
        (Memᴰ-flat_map refs_of_edge r (bare_edges id g.bares ++ bound_edges id g.bindings)).0 m in
      elim (Memᴰ.append_cases (bare_edges id g.bares) k) [
        | inl j ↦
            let (s, l, q) = Memᴰ-map (λ x. edge_with x id bare_data) e g.bares j in
            let is_bare =
              Memᴰ.eq_of_singleton (subst (Memᴰ r) (ap refs_of_edge q ∙ refs-bare_edge s id) i) in
            subst (Holds g) (sym is_bare) l
        | inr j ↦
            let ((s, bs), l, q) =
              Memᴰ-map (λ p. edge_with p.0 id (bound_data p.1)) e g.bindings j in
            let found = Dict.get_of_mem g.bindings h.keyed l in
            let (o, p, n) = (mem-explicit_iff s bs r).0 (
              subst (Memᴰ r) (ap refs_of_edge q ∙ refs-bound_edge s id bs (filled s bs found)) i) in
            subst (Holds g) (sym p) (bs, found, n)
      ],
  backward r,
)
  where
    all : List FlowEdge
    all = bare_edges id g.bares ++ bound_edges id g.bindings

    filled : (s : String) (bs : List Binding) → Dict.get s g.bindings ≡ some bs → ¬ (bs ≡ [])
    filled s bs found z = h.filled s (found ∙ ap some z)

    backward : (x : InputRef) → Holds g x → Memᴰ x (flat_map refs_of_edge all)
    backward (bare s) m = (Memᴰ-flat_map refs_of_edge (bare s) all).1 (
      edge_with s id bare_data,
      Memᴰ.append_left (bound_edges id g.bindings)
          (mem-map_of_mem (λ x. edge_with x id bare_data) g.bares m),
      subst (Memᴰ (bare s)) (sym (refs-bare_edge s id)) (Memᴰ.head refl),
    )
    backward (explicit s o) (bs, found, m) = (Memᴰ-flat_map refs_of_edge (explicit s o) all).1 (
      edge_with s id (bound_data bs),
      Memᴰ.append_right (bare_edges id g.bares) (
          mem-map_of_mem (λ p. edge_with p.0 id (bound_data p.1)) g.bindings
            (Dict.mem_of_get g.bindings found)),
      subst (Memᴰ (explicit s o)) (sym (refs-bound_edge s id bs (filled s bs found)))
          ((mem-explicit_iff s bs (explicit s o)).1 (o, refl, m)),
    )

module _ {A : Type 0} where
  abbrev pub parsed_ids : List (ParsedBlock A) → List String
  parsed_ids blocks = map (λ b. b.id) blocks

  same_block :
      (blocks : List (ParsedBlock A)) (b c : ParsedBlock A)
      → Distinct (parsed_ids blocks)
      → Memᴰ b blocks
      → Memᴰ c blocks
      → b.id ≡ c.id
      → b ≡ c
  same_block [] b c d m k e = absurd (Memᴰ.not-nil m)
  same_block (x ∷ blocks) b c (new, d) m k e = elim (Memᴰ.cases_cons m) [
    | inl p ↦ elim (Memᴰ.cases_cons k) [
      | inl q ↦ p ∙ sym q
      | inr q ↦ absurd (
          new (
            subst (λ i. Memᴰ i (parsed_ids blocks)) (sym e ∙ ap (λ y. y.id) p)
              (mem-map_of_mem (λ y. y.id) blocks q)))
    ]
    | inr p ↦ elim (Memᴰ.cases_cons k) [
      | inl q ↦ absurd (
          new (
            subst (λ i. Memᴰ i (parsed_ids blocks)) (e ∙ ap (λ y. y.id) q)
              (mem-map_of_mem (λ y. y.id) blocks p)))
      | inr q ↦ same_block blocks b c d p q e
    ]
  ]

  target-wanted : (b : ParsedBlock A) (e : FlowEdge) → Memᴰ e (wanted_edges b) → e.target ≡ b.id
  target-wanted b e m = elim (Memᴰ.append_cases (bare_edges b.id (grouped b).bares) m) [
    | inl k ↦
        let (s, _, q) = Memᴰ-map (λ x. edge_with x b.id bare_data) e (grouped b).bares k in
        ap (λ y. y.target) q
    | inr k ↦
        let (p, _, q) =
          Memᴰ-map (λ x. edge_with x.0 b.id (bound_data x.1)) e (grouped b).bindings k in
        ap (λ y. y.target) q
  ]

  -- The references of a block are those of the edges to it.
  pub refs_to_iff :
      (blocks : List (ParsedBlock A)) (b : ParsedBlock A) (r : InputRef)
      → Distinct (parsed_ids blocks)
      → Memᴰ b blocks
      → Memᴰ r (refs_to b.id (map as_edge (flat_map wanted_edges blocks)))
        ↔ Memᴰ r (get_or b.inputs [])
  refs_to_iff blocks b r d m =
      let all = map as_edge (flat_map wanted_edges blocks) in
      let here = λ (x : Edge). b.id == x.target in
      let refs = group_all_lem (get_or b.inputs []) r in
      let held =
        edges_iff b.id (grouped b) r (group_all-IsGrouped (get_or b.inputs []) _ nil-IsGrouped) in
      (
        λ k.
            let (x, i, j) = (Memᴰ-flat_map edge_refs r (filter here all)).0 k in
            let (l, t) = mem-filter here all i in
            let (e, n, q) = Memᴰ-map as_edge x (flat_map wanted_edges blocks) l in
            let (c, o, w) = (Memᴰ-flat_map wanted_edges e blocks).0 n in
            let same = same_block blocks c b d o m (
              sym (target-wanted c e w)
              ∙ ap (λ y. y.target) (sym q)
              ∙ sym ((==_iff b.id x.target).0 t)) in
            refs.0 (
              held.0 (
                (Memᴰ-flat_map refs_of_edge r (wanted_edges b)).1 (
                  e,
                  subst (λ y. Memᴰ e (wanted_edges y)) same w,
                  subst (Memᴰ r) (ap edge_refs q ∙ sym (refs_of_edge_lem e)) j,
                ))),
        λ k.
            let (e, w, j) = (Memᴰ-flat_map refs_of_edge r (wanted_edges b)).0 (held.1 (refs.1 k)) in
            let there =
              mem-map_of_mem as_edge (flat_map wanted_edges blocks)
                ((Memᴰ-flat_map wanted_edges e blocks).1 (b, m, w)) in
            (Memᴰ-flat_map edge_refs r (filter here all)).1 (
              as_edge e,
              filter_of_mem here all there ((==_iff b.id e.target).1 (sym (target-wanted b e w))),
              subst (Memᴰ r) (refs_of_edge_lem e) j,
            ),
      )
