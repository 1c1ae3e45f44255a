-- ===== src/Flow/Edges.antt =====
-- The edges of the store under every operation: an edge has the id of its ends, and no two have one id.
use psae_monorepo.Prelude.{
  String, Bool, false, ◌≡◌, refl, sym, ap, subst, ◌∙◌, inl, inr, some, List, [], ◌∷◌, ◌==◌, ==_iff,
  map, map-append, filter, any, any_iff, Bool-cases, Memᴰ, Distinct, Distinct-concat, mem-filter,
  Memᴰ-map, mem-map_of_mem,
}
use mathlib.Core.List.Memᴰ
use psae_monorepo.Dict.{Dict}
use psae_monorepo.Types.{EdgeData, Binding}
use psae_monorepo.Flow.{
  FlowEdge, ParsedBlock, edge_id, connect_edge, joins, set_edge, connect_bares, connect_bound,
}
use psae_monorepo.Flow.Import.{connect_block, connect_blocks}

abbrev pub edge_ids : List FlowEdge → List String
edge_ids es = map (λ e. e.id) es

pub record IsLinked (es : List FlowEdge) : Type 0 where
  pub named : (e : FlowEdge) → Memᴰ e es → e.id ≡ edge_id e.source e.target
  pub distinct : Distinct (edge_ids es)

pub nil-IsLinked : IsLinked []
nil-IsLinked = record { named = λ e m. absurd (Memᴰ.not-nil m); distinct = tt }

pub connect_edge-IsLinked :
    (source target : String) (es : List FlowEdge)
    → IsLinked es
    → IsLinked (connect_edge source target es)
unfolding connect_edge
connect_edge-IsLinked source target es l =
    elim (Bool-cases (any (λ e. e.id == edge_id source target) es)) [
      | inl t ↦ rw t l
      | inr f ↦ rw f (record {
        named = λ e m. elim (Memᴰ.append_cases es m) [
          | inl k ↦ l.named e k
          | inr k ↦
              subst (λ x. x.id ≡ edge_id x.source x.target) (sym (Memᴰ.eq_of_singleton k)) refl
        ];
        distinct = subst Distinct (sym (map-append (λ e. e.id) es _)) (
            Distinct-concat (edge_ids es) (edge_id source target) l.distinct (λ m.
              let (e, k, p) = Memᴰ-map (λ x. x.id) (edge_id source target) es m in
              let found =
                (any_iff (λ x. x.id == edge_id source target) es).1
                  (e, k, (==_iff e.id (edge_id source target)).1 (sym p)) in
              cc));
      })
    ]

ids-set_edge :
    (source target : String) (given : EdgeData) (es : List FlowEdge)
    → edge_ids (set_edge source target given es) ≡ edge_ids es
unfolding set_edge
ids-set_edge source target given [] = refl
ids-set_edge source target given (e ∷ es) = elim (Bool-cases (joins source target e)) [
  | inl t ↦ rw t refl
  | inr f ↦ rw f (ap (λ l. e.id ∷ l) (ids-set_edge source target given es))
]

-- An edge of the result is one from before, but for its data.
mem-set_edge :
    (source target : String) (given : EdgeData) (es : List FlowEdge) (e : FlowEdge)
    → Memᴰ e (set_edge source target given es)
    → (x : FlowEdge) × Memᴰ x es × (e.id ≡ x.id) × (e.source ≡ x.source) × (e.target ≡ x.target)
unfolding set_edge
mem-set_edge source target given [] e m = absurd (Memᴰ.not-nil m)
mem-set_edge source target given (x ∷ es) e m = elim (Bool-cases (joins source target x)) [
  | inl t ↦ elim (Memᴰ.cases_cons (rw t at m)) [
    | inl p ↦ (x, Memᴰ.head refl, ap (λ y. y.id) p, ap (λ y. y.source) p, ap (λ y. y.target) p)
    | inr k ↦ (e, Memᴰ.tail k, refl, refl, refl)
  ]
  | inr f ↦ elim (Memᴰ.cases_cons (rw f at m)) [
    | inl p ↦ (e, Memᴰ.head p, refl, refl, refl)
    | inr k ↦
        let (y, i, p, q, r) = mem-set_edge source target given es e k in (y, Memᴰ.tail i, p, q, r)
  ]
]

pub set_edge-IsLinked :
    (source target : String) (given : EdgeData) (es : List FlowEdge)
    → IsLinked es
    → IsLinked (set_edge source target given es)
set_edge-IsLinked source target given es l = record {
  named = λ e m.
      let (x, k, i, s, t) = mem-set_edge source target given es e m in
      i ∙ l.named x k ∙ sym (ap (λ y. edge_id y e.target) s ∙ ap (edge_id x.source) t);
  distinct = subst Distinct (sym (ids-set_edge source target given es)) l.distinct;
}

Distinct-filter :
    (p : FlowEdge → Bool) (es : List FlowEdge)
    → Distinct (edge_ids es)
    → Distinct (edge_ids (filter p es))
Distinct-filter p [] d = tt
Distinct-filter p (e ∷ es) (new, d) = elim (Bool-cases (p e)) [
  | inl t ↦ rw t (
    λ m.
        let (x, k, q) = Memᴰ-map (λ y. y.id) e.id (filter p es) m in
        new (
          subst (λ i. Memᴰ i (edge_ids es)) (sym q)
            (mem-map_of_mem (λ y. y.id) es (mem-filter p es k).0)),
    Distinct-filter p es d,
  )
  | inr f ↦ rw f (Distinct-filter p es d)
]

pub filter-IsLinked :
    (p : FlowEdge → Bool) (es : List FlowEdge) → IsLinked es → IsLinked (filter p es)
filter-IsLinked p es l = record {
  named = λ e m. l.named e (mem-filter p es m).0;
  distinct = Distinct-filter p es l.distinct;
}

connect_bares-IsLinked :
    (id : String) (bares : List String) (es : List FlowEdge)
    → IsLinked es
    → IsLinked (connect_bares id bares es)
unfolding connect_bares
connect_bares-IsLinked id [] es l = l
connect_bares-IsLinked id (s ∷ bares) es l =
    connect_bares-IsLinked id bares (connect_edge s id es) (connect_edge-IsLinked s id es l)

connect_bound-IsLinked :
    (id : String) (bound : Dict (List Binding)) (es : List FlowEdge)
    → IsLinked es
    → IsLinked (connect_bound id bound es)
unfolding connect_bound
connect_bound-IsLinked id [] es l = l
connect_bound-IsLinked id ((s, bindings) ∷ bound) es l =
    let given : EdgeData = record { bindings = some bindings; unresolved = some false } in
    connect_bound-IsLinked id bound (set_edge s id given (connect_edge s id es))
      (set_edge-IsLinked s id given (connect_edge s id es) (connect_edge-IsLinked s id es l))

pub connect_blocks-IsLinked :
    {A : Type 0} (blocks : List (ParsedBlock A)) (es : List FlowEdge)
    → IsLinked es
    → IsLinked (connect_blocks blocks es)
unfolding connect_blocks connect_block
connect_blocks-IsLinked [] es l = l
connect_blocks-IsLinked (b ∷ blocks) es l =
    connect_blocks-IsLinked blocks (connect_block b es)
      (connect_bound-IsLinked b.id _ _ (connect_bares-IsLinked b.id _ es l))
