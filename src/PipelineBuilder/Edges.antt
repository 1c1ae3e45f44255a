-- ===== src/PipelineBuilder/Edges.antt =====
-- Which references the edges give to which block.
use psae_monorepo.Prelude.{
  String, true, ◌≡◌, refl, sym, ap, subst, ◌∙◌, List, [], ◌∷◌, append_assoc, append-nil, Memᴰ, ◌==◌,
  ==_iff, Bool-cases, inl, inr, if◌then◌else◌, map, filter, flat_map, Distinct,
}
use mathlib.Core.List.Memᴰ
use psae_monorepo.Types.{InputRef, Block}
use psae_monorepo.PipelineBuilder.{Edge, edge_refs, add_refs, parse_edge, parse_edges}

-- The references of the edges to a block, in the order of the edges.
abbrev pub refs_to : String → List Edge → List InputRef
refs_to id es = flat_map edge_refs (filter (λ e. id == e.target) es)

module _ {A : Type 0} where
  abbrev pub ids : List (Block A) → List String
  ids blocks = map (λ b. b.id) blocks

  abbrev pub updated : Edge → Block A → Block A
  updated e b = if b.id == e.target then add_refs (edge_refs e) b else b

  -- A block with the references of all its edges.
  abbrev pub with_refs : List Edge → Block A → Block A
  with_refs es b = add_refs (refs_to b.id es) b

  updated-id : (e : Edge) (b : Block A) → (updated e b).id ≡ b.id
  unfolding add_refs
  updated-id e b = elim (Bool-cases (b.id == e.target)) [ inl t ↦ rw t refl | inr f ↦ rw f refl ]

  pub mem-ids : (x : Block A) (blocks : List (Block A)) → Memᴰ x blocks → Memᴰ x.id (ids blocks)
  mem-ids x [] m = absurd (Memᴰ.not-nil m)
  mem-ids x (b ∷ blocks) m = elim (Memᴰ.cases_cons m) [
    | inl e ↦ Memᴰ.head (ap (λ y. y.id) e)
    | inr k ↦ Memᴰ.tail (mem-ids x blocks k)
  ]

  pub map-same :
      (f : Block A → Block A) (blocks : List (Block A))
      → ((b : Block A) → Memᴰ b blocks → f b ≡ b)
      → map f blocks ≡ blocks
  map-same f [] h = refl
  map-same f (b ∷ blocks) h =
      λ i. h b (Memᴰ.head refl) i ∷ map-same f blocks (λ x m. h x (Memᴰ.tail m)) i

  pub parse_edge_lem :
      (blocks : List (Block A)) (e : Edge)
      → Distinct (ids blocks)
      → parse_edge blocks e ≡ map (updated e) blocks
  unfolding parse_edge
  parse_edge_lem [] e d = refl
  parse_edge_lem (b ∷ blocks) e (new, d) = elim (Bool-cases (b.id == e.target)) [
    | inl t ↦
        rw t (ap (λ l. add_refs (edge_refs e) b ∷ l) (sym (map-same (updated e) blocks (others t))))
    | inr f ↦ rw f (ap (λ l. b ∷ l) (parse_edge_lem blocks e d))
  ]
    where
      others : (b.id == e.target) ≡ true → (x : Block A) → Memᴰ x blocks → updated e x ≡ x
      others t x m = elim (Bool-cases (x.id == e.target)) [
        | inl s ↦
            let same : x.id ≡ b.id =
              (==_iff x.id e.target).0 s ∙ sym ((==_iff b.id e.target).0 t) in
            absurd (new (subst (λ i. Memᴰ i (ids blocks)) same (mem-ids x blocks m)))
        | inr f ↦ rw f refl
      ]

  pub ids-updated : (e : Edge) (blocks : List (Block A)) → ids (map (updated e) blocks) ≡ ids blocks
  ids-updated e [] = refl
  ids-updated e (b ∷ blocks) = λ i. updated-id e b i ∷ ids-updated e blocks i

  with_refs-updated :
      (e : Edge) (es : List Edge) (b : Block A) → with_refs es (updated e b) ≡ with_refs (e ∷ es) b
  unfolding add_refs
  with_refs-updated e es b = elim (Bool-cases (b.id == e.target)) [
    | inl t ↦
        rw t (λ i. record b { inputs = append_assoc b.inputs (edge_refs e) (refs_to b.id es) i })
    | inr f ↦ rw f refl
  ]

  map-with_refs-updated :
      (e : Edge) (es : List Edge) (blocks : List (Block A))
      → map (with_refs es) (map (updated e) blocks) ≡ map (with_refs (e ∷ es)) blocks
  map-with_refs-updated e es [] = refl
  map-with_refs-updated e es (b ∷ blocks) =
      λ i. with_refs-updated e es b i ∷ map-with_refs-updated e es blocks i

  -- Where the ids of the blocks are distinct, parsing the edges one after the other gives each block
  -- the references of exactly the edges that end in it, in their order.
  pub parse_edges_lem :
      (blocks : List (Block A)) (es : List Edge)
      → Distinct (ids blocks)
      → parse_edges blocks es ≡ map (with_refs es) blocks
  unfolding parse_edges add_refs
  parse_edges_lem blocks [] d =
      sym (map-same (with_refs []) blocks (λ b m i. record b { inputs = append-nil b.inputs i }))
  parse_edges_lem blocks (e ∷ es) d =
      let once = parse_edge_lem blocks e d in
      ap (λ l. parse_edges l es) once
      ∙ parse_edges_lem (map (updated e) blocks) es
          (subst (λ l. Distinct l) (sym (ids-updated e blocks)) d)
      ∙ map-with_refs-updated e es blocks
