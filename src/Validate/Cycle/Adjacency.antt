-- ===== src/Validate/Cycle/Adjacency.antt =====
-- The adjacency map that `findCycle` builds says which block depends on which.
use psae_monorepo.Prelude.{
  String, ◌≡◌, refl, sym, subst, ◌∙◌, ◌↔◌, ◌⊎◌, inl, inr, true, Option, none, some, get_or, List,
  [], ◌∷◌, Memᴰ, arith, ==_iff, ==_refl, ==-cases, Memᴰ-cons, map, Distinct,
}
use mathlib.Core.List.Memᴰ
use psae_monorepo.Dict
use psae_monorepo.Dict.{Dict, is_some}
use psae_monorepo.Types.{Block}
use psae_monorepo.Validate.Cycle.{deps_of, ref_to_id, link, adjacency}
use psae_monorepo.Validate.Cycle.Graph.{Dep}

abbrev pub ids_of : {A : Type 0} → List (Block A) → List String
ids_of blocks = map (λ b. b.id) blocks

module _ {A : Type 0} where
  -- The entries of the adjacency map: an old one, or that of a block.
  get-link :
      (adj : Dict (List String)) (bs : List (Block A)) (n : String) (ids : List String)
      → Dict.get n (link adj bs) ≡ some ids
      → (Dict.get n adj ≡ some ids)
        ⊎ ((b : Block A) × Memᴰ b bs × (b.id ≡ n) × (map ref_to_id b.inputs ≡ ids))
  unfolding link
  get-link adj [] n ids h = inl h
  get-link adj (b ∷ bs) n ids h =
      elim (get-link (Dict.set b.id (map ref_to_id b.inputs) adj) bs n ids h) [
        | inl e ↦ elim (==-cases b.id n) [
          | inl (t, p) ↦ inr (
            b,
            Memᴰ.head refl,
            p,
            ground (arith, Dict.get-set b.id n (map ref_to_id b.inputs) adj),
          )
          | inr (t, p) ↦ inl (ground (arith, Dict.get-set b.id n (map ref_to_id b.inputs) adj))
        ]
        | inr (b', m, p, q) ↦ inr (b', Memᴰ.tail m, p, q)
      ]

  get-link_other :
      (adj : Dict (List String)) (bs : List (Block A)) (n : String)
      → ¬ Memᴰ n (map (λ b. b.id) bs)
      → Dict.get n (link adj bs) ≡ Dict.get n adj
  unfolding link
  get-link_other adj [] n h = refl
  get-link_other adj (b ∷ bs) n h =
      get-link_other (Dict.set b.id (map ref_to_id b.inputs) adj) bs n (λ m. h (Memᴰ.tail m))
      ∙ ground (
        arith,
        Dict.get-set b.id n (map ref_to_id b.inputs) adj,
        ==_iff b.id n,
        λ (e : n ≡ b.id). h (Memᴰ.head e),
      )

  get-link_own :
      (adj : Dict (List String)) (bs : List (Block A)) (b : Block A)
      → Distinct (map (λ b'. b'.id) bs)
      → Memᴰ b bs
      → Dict.get b.id (link adj bs) ≡ some (map ref_to_id b.inputs)
  unfolding link
  get-link_own adj [] b d m = absurd (Memᴰ.not-nil m)
  get-link_own adj (b' ∷ bs) b (new, d) (Memᴰ.head e) =
      subst
        (λ x.
          Dict.get x.id (link (Dict.set b'.id (map ref_to_id b'.inputs) adj) bs)
          ≡ some (map ref_to_id x.inputs))
        (sym e)
        (get-link_other (Dict.set b'.id (map ref_to_id b'.inputs) adj) bs b'.id new
          ∙ ground (arith, Dict.get-set b'.id b'.id (map ref_to_id b'.inputs) adj, ==_refl b'.id))
  get-link_own adj (b' ∷ bs) b (new, d) (Memᴰ.tail m) =
      get-link_own (Dict.set b'.id (map ref_to_id b'.inputs) adj) bs b d m

  has-link :
      (adj : Dict (List String)) (bs : List (Block A)) (n : String)
      → (Dict.has n (link adj bs) ≡ true) ↔ ((Dict.has n adj ≡ true) ⊎ Memᴰ n (ids_of bs))
  unfolding link
  has-link adj [] n = (inl, λ h. elim h [ inl e ↦ e | inr m ↦ absurd (Memᴰ.not-nil m) ])
  has-link adj (b ∷ bs) n = ground (
    arith,
    has-link (Dict.set b.id (map ref_to_id b.inputs) adj) bs n,
    Dict.has-set b.id n (map ref_to_id b.inputs) adj,
    ==_iff b.id n,
    Memᴰ-cons n b.id (ids_of bs),
  )

  -- Some block of the pipeline has the id `n` and an input that names `d`, and `d` is in the pipeline.
  pub record DependsOn (blocks : List (Block A)) (d n : String) : Type 0 where
    pub block : Block A
    pub listed : Memᴰ block blocks
    pub named : block.id ≡ n
    pub refers : Memᴰ d (map ref_to_id block.inputs)
    pub present : Memᴰ d (ids_of blocks)

  -- Where the ids are distinct, the edges of the adjacency map are exactly the dependencies between
  -- the blocks of the pipeline.
  pub Dep-adjacency_iff :
      (blocks : List (Block A)) (d n : String)
      → Distinct (ids_of blocks)
      → Dep (adjacency blocks) d n ↔ DependsOn blocks d n
  unfolding adjacency deps_of Dict.get Dict.has
  Dep-adjacency_iff blocks d n distinct = (
    λ e. from_deps (Dict.get n (link [] blocks)) refl e.0 e.1,
    λ r. (
      subst (λ x. Memᴰ d (get_or (Dict.get x (link [] blocks)) [])) r.named
          (subst (λ o. Memᴰ d (get_or o []))
            (sym (get-link_own [] blocks r.block distinct r.listed)) r.refers),
      (has-link [] blocks d).1 (inr r.present),
    ),
  )
    where
      from_deps :
          (o : Option (List String))
          → Dict.get n (link [] blocks) ≡ o
          → Memᴰ d (get_or o [])
          → Dict.has d (link [] blocks) ≡ true
          → DependsOn blocks d n
      from_deps none e m h = absurd (Memᴰ.not-nil m)
      from_deps (some ids) e m h = elim (get-link [] blocks n ids e) [
        | inl none_listed ↦ cc
        | inr (b, listed, named, q) ↦ record {
          block = b;
          listed = listed;
          named = named;
          refers = subst (Memᴰ d) (sym q) m;
          present = elim ((has-link [] blocks d).0 h) [ inl f ↦ cc | inr p ↦ p ];
        }
      ]
