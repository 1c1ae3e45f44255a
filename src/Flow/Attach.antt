-- ===== src/Flow/Attach.antt =====
-- The edges that an import makes: where no two would have one id, one for each block that a block names.
use psae_monorepo.Prelude.{
  String, Bool, true, false, ◌≡◌, refl, sym, ap, subst, ◌∙◌, none, some, get_or, List, [], ◌∷◌,
  ◌++◌, append_assoc, append-nil, ◌==◌, ◌&&◌, ==_iff, map, map-append, flat_map, any, any_iff,
  Bool-cases, inl, inr, Memᴰ, Distinct, Distinct-middle, mem-map_of_mem,
}
use mathlib.Core.List.Memᴰ
use psae_monorepo.Dict.{Dict}
use psae_monorepo.Types.{Binding, EdgeData}
use psae_monorepo.Flow.{
  FlowEdge, ParsedBlock, Grouped, edge_id, connect_edge, joins, set_edge, group_all, connect_bares,
  connect_bound,
}
use psae_monorepo.Flow.Import.{connect_block, connect_blocks}
use psae_monorepo.Flow.Edges.{edge_ids, IsLinked, connect_edge-IsLinked, set_edge-IsLinked}

abbrev pub edge_with : String → String → EdgeData → FlowEdge
edge_with source target given = record {
  id = edge_id source target;
  source = source;
  target = target;
  edge_data = some given;
}

abbrev pub bare_data : EdgeData
bare_data = record { bindings = none; unresolved = some false }

abbrev pub bound_data : List Binding → EdgeData
bound_data bindings = record { bindings = some bindings; unresolved = some false }

connect-new :
    (source target : String) (es : List FlowEdge)
    → ¬ Memᴰ (edge_id source target) (edge_ids es)
    → connect_edge source target es ≡ es ++ edge_with source target bare_data ∷ []
unfolding connect_edge
connect-new source target es new = elim (Bool-cases (any (λ e. e.id == edge_id source target) es)) [
  | inl t ↦
      let (e, m, p) = (any_iff (λ x. x.id == edge_id source target) es).0 t in
      absurd (
        new (
          subst (λ i. Memᴰ i (edge_ids es)) ((==_iff e.id (edge_id source target)).0 p)
            (mem-map_of_mem (λ x. x.id) es m)))
  | inr f ↦ rw f refl
]

-- No edge from before joins the two nodes, since it would have their id.
set-last :
    (source target : String) (given : EdgeData) (es : List FlowEdge)
    → ((e : FlowEdge) → Memᴰ e es → e.id ≡ edge_id e.source e.target)
    → ¬ Memᴰ (edge_id source target) (edge_ids es)
    → set_edge source target given (es ++ edge_with source target bare_data ∷ [])
      ≡ es ++ edge_with source target given ∷ []
unfolding set_edge joins
set-last source target given [] named new =
    let s = (==_iff source source).1 refl in let t = (==_iff target target).1 refl in rw (s, t) refl
set-last source target given (e ∷ es) named new = elim (Bool-cases (joins source target e)) [
  | inl t ↦
      let (p, q) = both (e.source == source) (e.target == target) t in
      let same : e.id ≡ edge_id source target =
        named e (Memᴰ.head refl)
        ∙ ap (λ x. edge_id x e.target) ((==_iff e.source source).0 p)
        ∙ ap (edge_id source) ((==_iff e.target target).0 q) in
      absurd (new (Memᴰ.head (sym same)))
  | inr f ↦ rw f (
      ap (λ l. e ∷ l)
        (set-last source target given es (λ x m. named x (Memᴰ.tail m)) (λ m. new (Memᴰ.tail m))))
]
  where
    both : (a b : Bool) → (a && b) ≡ true → (a ≡ true) × (b ≡ true)
    both true true h = (refl, refl)
    both true false h = absurd (cc)
    both false b h = absurd (cc)

abbrev pub bare_edges : String → List String → List FlowEdge
bare_edges id bares = map (λ s. edge_with s id bare_data) bares

abbrev pub bound_edges : String → Dict (List Binding) → List FlowEdge
bound_edges id bound = map (λ p. edge_with p.0 id (bound_data p.1)) bound

-- The id of the edge that is added next is not there yet.
fresh :
    (es : List FlowEdge) (e : FlowEdge) (rest : List FlowEdge)
    → Distinct (edge_ids (es ++ e ∷ rest))
    → ¬ Memᴰ e.id (edge_ids es)
fresh es e rest d =
    Distinct-middle (edge_ids es) e.id (edge_ids rest)
      (subst Distinct (map-append (λ x. x.id) es (e ∷ rest)) d)

connect_bares_lem :
    (id : String) (bares : List String) (es : List FlowEdge)
    → IsLinked es
    → Distinct (edge_ids (es ++ bare_edges id bares))
    → (connect_bares id bares es ≡ es ++ bare_edges id bares) × IsLinked (es ++ bare_edges id bares)
unfolding connect_bares
connect_bares_lem id [] es l d = (sym (append-nil es), subst IsLinked (sym (append-nil es)) l)
connect_bares_lem id (s ∷ bares) es l d =
    let e = edge_with s id bare_data in
    let one = connect-new s id es (fresh es e (bare_edges id bares) d) in
    let again = append_assoc es (e ∷ []) (bare_edges id bares) in
    let (rest, linked) =
      connect_bares_lem id bares (es ++ e ∷ [])
        (subst IsLinked one (connect_edge-IsLinked s id es l))
        (subst (λ x. Distinct (edge_ids x)) (sym again) d) in
    (ap (connect_bares id bares) one ∙ rest ∙ again, subst IsLinked again linked)

connect_bound_lem :
    (id : String) (bound : Dict (List Binding)) (es : List FlowEdge)
    → IsLinked es
    → Distinct (edge_ids (es ++ bound_edges id bound))
    → (connect_bound id bound es ≡ es ++ bound_edges id bound)
      × IsLinked (es ++ bound_edges id bound)
unfolding connect_bound
connect_bound_lem id [] es l d = (sym (append-nil es), subst IsLinked (sym (append-nil es)) l)
connect_bound_lem id ((s, bindings) ∷ bound) es l d =
    let e = edge_with s id (bound_data bindings) in
    let new = fresh es e (bound_edges id bound) d in
    let one : set_edge s id (bound_data bindings) (connect_edge s id es) ≡ es ++ e ∷ [] =
      ap (set_edge s id (bound_data bindings)) (connect-new s id es new)
      ∙ set-last s id (bound_data bindings) es l.named new in
    let again = append_assoc es (e ∷ []) (bound_edges id bound) in
    let (rest, linked) =
      connect_bound_lem id bound (es ++ e ∷ [])
        (subst IsLinked one (
          set_edge-IsLinked s id (bound_data bindings) (connect_edge s id es)
            (connect_edge-IsLinked s id es l)))
        (subst (λ x. Distinct (edge_ids x)) (sym again) d) in
    (ap (connect_bound id bound) one ∙ rest ∙ again, subst IsLinked again linked)

module _ {A : Type 0} where
  abbrev pub grouped : ParsedBlock A → Grouped
  grouped b = group_all (get_or b.inputs []) (record { bares = []; bindings = [] })

  -- The edges for which a block asks.
  abbrev pub wanted_edges : ParsedBlock A → List FlowEdge
  wanted_edges b = bare_edges b.id (grouped b).bares ++ bound_edges b.id (grouped b).bindings

  pub connect_blocks_lem :
      (blocks : List (ParsedBlock A)) (es : List FlowEdge)
      → IsLinked es
      → Distinct (edge_ids (es ++ flat_map wanted_edges blocks))
      → connect_blocks blocks es ≡ es ++ flat_map wanted_edges blocks
  unfolding connect_blocks connect_block
  connect_blocks_lem [] es l d = sym (append-nil es)
  connect_blocks_lem (b ∷ blocks) es l d =
      let bares = bare_edges b.id (grouped b).bares in
      let bound = bound_edges b.id (grouped b).bindings in
      let others = flat_map wanted_edges blocks in
      let whole : es ++ ((bares ++ bound) ++ others) ≡ ((es ++ bares) ++ bound) ++ others =
        sym (append_assoc es (bares ++ bound) others)
        ∙ ap (λ x. x ++ others) (sym (append_assoc es bares bound)) in
      let d' = subst (λ x. Distinct (edge_ids x)) whole d in
      let d2 = before ((es ++ bares) ++ bound) others d' in
      let (one, linked) =
        connect_bares_lem b.id (grouped b).bares es l (before (es ++ bares) bound d2) in
      let (two, linked') = connect_bound_lem b.id (grouped b).bindings (es ++ bares) linked d2 in
      ap (λ x. connect_blocks blocks (connect_bound b.id (grouped b).bindings x)) one
      ∙ ap (connect_blocks blocks) two
      ∙ connect_blocks_lem blocks ((es ++ bares) ++ bound) linked' d'
      ∙ sym whole
    where
      before : (xs ys : List FlowEdge) → Distinct (edge_ids (xs ++ ys)) → Distinct (edge_ids xs)
      before [] ys d = tt
      before (x ∷ xs) ys (new, d) = (
        λ m. new (
            subst (Memᴰ x.id) (sym (map-append (λ y. y.id) xs ys))
              (Memᴰ.append_left (edge_ids ys) m)),
        before xs ys d,
      )
