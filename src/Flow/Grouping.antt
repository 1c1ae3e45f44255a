-- ===== src/Flow/Grouping.antt =====
-- The references of a block, before and after they are grouped.
use psae_monorepo.Prelude.{
  String, false, ◌≡◌, refl, sym, ap, subst, ◌∙◌, ◌↔◌, ◌⊎◌, inl, inr, some, get_or, List, [], ◌∷◌,
  ◌++◌, ◌==◌, ==_iff, ==-cases, map, contains, contains_iff, Bool-cases, Option-cases, Memᴰ,
  Distinct, Memᴰ-map, mem-map_of_mem,
}
use mathlib.Core.List.Memᴰ
use psae_monorepo.Dict
use psae_monorepo.Dict.{Dict}
use psae_monorepo.Types.{InputRef, bare, explicit, Binding}
use psae_monorepo.Flow.{Grouped, group_one, group_all}

abbrev pub outputs : List Binding → List String
outputs bs = map (λ b. b.output) bs

-- A reference that the groups hold.
abbrev pub Holds : Grouped → InputRef → Type 0
Holds g (bare s) = Memᴰ s g.bares
Holds g (explicit block output) =
    (bs : List Binding) × (Dict.get block g.bindings ≡ some bs) × Memᴰ output (outputs bs)

-- No group is empty, and each has one entry.
pub record IsGrouped (g : Grouped) : Type 0 where
  pub keyed : Distinct (Dict.keys g.bindings)
  pub filled : (block : String) → ¬ (Dict.get block g.bindings ≡ some [])

bare-injective : {s t : String} → bare s ≡ bare t → s ≡ t
bare-injective e = cc

bare-ne-explicit : {s b o : String} → bare s ≡ explicit b o → ⊥
bare-ne-explicit e = cc

explicit-injective : {b o c p : String} → explicit b o ≡ explicit c p → (b ≡ c) × (o ≡ p)
explicit-injective e = (cc, cc)

group_bare-Holds :
    (s : String) (g : Grouped) (r : InputRef)
    → Holds (group_one (bare s) g) r ↔ (Holds g r ⊎ (r ≡ bare s))
unfolding group_one
group_bare-Holds s g (bare t) = elim (Bool-cases (contains s g.bares)) [
  | inl y ↦ rw y (
    λ m. inl m,
    λ w. elim w [
      | inl m ↦ m
      | inr e ↦ subst (λ x. Memᴰ x g.bares) (sym (bare-injective e)) ((contains_iff s g.bares).0 y)
    ],
  )
  | inr f ↦ rw f (
    λ m. elim (Memᴰ.append_cases g.bares m) [
      | inl k ↦ inl k
      | inr k ↦ inr (ap bare (Memᴰ.eq_of_singleton k))
    ],
    λ w. elim w [
      | inl m ↦ Memᴰ.append_left (s ∷ []) m
      | inr e ↦ Memᴰ.append_right g.bares (Memᴰ.head (bare-injective e))
    ],
  )
]
group_bare-Holds s g (explicit block output) = elim (Bool-cases (contains s g.bares)) [
  | inl y ↦ rw y (λ h. inl h, λ w. elim w [ inl h ↦ h | inr e ↦ absurd (bare-ne-explicit (sym e)) ])
  | inr f ↦ rw f (λ h. inl h, λ w. elim w [ inl h ↦ h | inr e ↦ absurd (bare-ne-explicit (sym e)) ])
]

outputs-append :
    (bs : List Binding) (b : Binding) (o : String)
    → Memᴰ o (outputs (bs ++ b ∷ [])) ↔ (Memᴰ o (outputs bs) ⊎ (o ≡ b.output))
outputs-append bs b o = (
  λ m.
      let (x, k, e) = Memᴰ-map (λ y. y.output) o (bs ++ b ∷ []) m in
      elim (Memᴰ.append_cases bs k) [
        | inl i ↦
            inl (subst (λ y. Memᴰ y (outputs bs)) (sym e) (mem-map_of_mem (λ y. y.output) bs i))
        | inr i ↦ inr (e ∙ ap (λ y. y.output) (Memᴰ.eq_of_singleton i))
      ],
  λ w. elim w [
    | inl m ↦
        let (x, k, e) = Memᴰ-map (λ y. y.output) o bs m in
        subst (λ y. Memᴰ y (outputs (bs ++ b ∷ []))) (sym e)
          (mem-map_of_mem (λ y. y.output) (bs ++ b ∷ []) (Memᴰ.append_left (b ∷ []) k))
    | inr e ↦
        subst (λ y. Memᴰ y (outputs (bs ++ b ∷ []))) (sym e)
          (mem-map_of_mem (λ y. y.output) (bs ++ b ∷ []) (Memᴰ.append_right bs (Memᴰ.head refl)))
  ],
)

abbrev added : String → Binding → Grouped → List Binding
added block b g = get_or (Dict.get block g.bindings) [] ++ b ∷ []

added_iff :
    (block output : String) (g : Grouped) (o : String)
    → Memᴰ o (outputs (added block (record { output = output; input = "" }) g))
      ↔ (Holds g (explicit block o) ⊎ (o ≡ output))
added_iff block output g o =
    let b : Binding = record { output = output; input = "" } in
    elim (Option-cases (Dict.get block g.bindings)) [
      | inl n ↦
          let step = outputs-append [] b o in
          rw n (
            λ m. elim (step.0 m) [ inl k ↦ absurd (Memᴰ.not-nil k) | inr e ↦ inr e ],
            λ w. elim w [ inl (bs, p, k) ↦ absurd (cc) | inr e ↦ step.1 (inr e) ],
          )
      | inr (bs, n) ↦
          let step = outputs-append bs b o in
          rw n (
            λ m. elim (step.0 m) [ inl k ↦ inl (bs, refl, k) | inr e ↦ inr e ],
            λ w. elim w [
              | inl (cs, p, k) ↦
                  let same : cs ≡ bs = cc in step.1 (inl (subst (λ l. Memᴰ o (outputs l)) same k))
              | inr e ↦ step.1 (inr e)
            ],
          )
    ]

got-same :
    (block c : String) (l : List Binding) (m : Dict (List Binding))
    → block ≡ c
    → Dict.get c (Dict.set block l m) ≡ some l
got-same block c l m e = Dict.get-set block c l m ∙ rw ((==_iff block c).1 e) refl

got-other :
    (block c : String) (l : List Binding) (m : Dict (List Binding))
    → (block == c) ≡ false
    → Dict.get c (Dict.set block l m) ≡ Dict.get c m
got-other block c l m f = Dict.get-set block c l m ∙ rw f refl

group_explicit-Holds :
    (block output : String) (g : Grouped) (r : InputRef)
    → Holds (group_one (explicit block output) g) r ↔ (Holds g r ⊎ (r ≡ explicit block output))
unfolding group_one
group_explicit-Holds block output g (bare t) =
    (λ m. inl m, λ w. elim w [ inl m ↦ m | inr e ↦ absurd (bare-ne-explicit e) ])
group_explicit-Holds block output g (explicit c p) = elim (==-cases block c) [
  | inl (_, e) ↦
      let l = added block (record { output = output; input = "" }) g in
      let at_c = got-same block c l g.bindings e in
      let step = added_iff block output g p in
      (
        λ (bs, q, k).
            let same : bs ≡ l = cc in
            elim (step.0 (subst (λ x. Memᴰ p (outputs x)) same k)) [
              | inl h ↦ inl (subst (λ x. Holds g (explicit x p)) e h)
              | inr o ↦ inr (λ i. explicit (sym e i) (o i))
            ],
        λ w. (
          l,
          at_c,
          step.1 (elim w [
            | inl h ↦ inl (subst (λ x. Holds g (explicit x p)) (sym e) h)
            | inr o ↦ inr (explicit-injective o).1
          ]),
        ),
      )
  | inr (f, ne) ↦
      let l = added block (record { output = output; input = "" }) g in
      let at_c = got-other block c l g.bindings f in
      (
        λ (bs, q, k). inl (bs, sym at_c ∙ q, k),
        λ w. elim w [
          | inl (bs, q, k) ↦ (bs, at_c ∙ q, k)
          | inr o ↦ absurd (ne (sym (explicit-injective o).0))
        ],
      )
]

append-ne-nil : {A : Type 0} (xs : List A) (y : A) → ¬ (xs ++ y ∷ [] ≡ [])
append-ne-nil [] y e = cc
append-ne-nil (x ∷ xs) y e = cc

group_one-IsGrouped : (r : InputRef) (g : Grouped) → IsGrouped g → IsGrouped (group_one r g)
unfolding group_one
group_one-IsGrouped (bare s) g h = elim (Bool-cases (contains s g.bares)) [
  | inl t ↦ rw t h
  | inr f ↦ rw f (record { keyed = h.keyed; filled = h.filled })
]
group_one-IsGrouped (explicit block output) g h =
    let l = added block (record { output = output; input = "" }) g in
    record {
      keyed = Dict.Distinct-set block l g.bindings h.keyed;
      filled = λ c q. elim (==-cases block c) [
        | inl (_, e) ↦
            let at_c = got-same block c l g.bindings e in
            append-ne-nil (get_or (Dict.get block g.bindings) [])
              (record { output = output; input = "" }) (cc)
        | inr (f, _) ↦ h.filled c (sym (got-other block c l g.bindings f) ∙ q)
      ];
    }

group_one-Holds :
    (x : InputRef) (g : Grouped) (r : InputRef) → Holds (group_one x g) r ↔ (Holds g r ⊎ (r ≡ x))
group_one-Holds (bare s) g r = group_bare-Holds s g r
group_one-Holds (explicit block output) g r = group_explicit-Holds block output g r

pub group_all-Holds :
    (refs : List InputRef) (g : Grouped) (r : InputRef)
    → Holds (group_all refs g) r ↔ (Holds g r ⊎ Memᴰ r refs)
unfolding group_all
group_all-Holds [] g r = (λ h. inl h, λ w. elim w [ inl h ↦ h | inr m ↦ absurd (Memᴰ.not-nil m) ])
group_all-Holds (x ∷ refs) g r =
    let rest = group_all-Holds refs (group_one x g) r in
    let one = group_one-Holds x g r in
    (
      λ h. elim (rest.0 h) [
        | inl k ↦ elim (one.0 k) [ inl i ↦ inl i | inr e ↦ inr (Memᴰ.head e) ]
        | inr m ↦ inr (Memᴰ.tail m)
      ],
      λ w. rest.1 (elim w [
        | inl i ↦ inl (one.1 (inl i))
        | inr m ↦ elim (Memᴰ.cases_cons m) [ inl e ↦ inl (one.1 (inr e)) | inr k ↦ inr k ]
      ]),
    )

pub group_all-IsGrouped :
    (refs : List InputRef) (g : Grouped) → IsGrouped g → IsGrouped (group_all refs g)
unfolding group_all
group_all-IsGrouped [] g h = h
group_all-IsGrouped (x ∷ refs) g h =
    group_all-IsGrouped refs (group_one x g) (group_one-IsGrouped x g h)

-- Grouping keeps the references of a list.
pub group_all_lem :
    (refs : List InputRef) (r : InputRef)
    → Holds (group_all refs (record { bares = []; bindings = [] })) r ↔ Memᴰ r refs
unfolding Dict.get
group_all_lem refs r =
    let all = group_all-Holds refs (record { bares = []; bindings = [] }) r in
    (λ h. elim (all.0 h) [ inl k ↦ absurd (holds_none r k) | inr m ↦ m ], λ m. all.1 (inr m))
  where
    holds_none : (x : InputRef) → ¬ Holds (record { bares = []; bindings = [] }) x
    holds_none (bare s) m = Memᴰ.not-nil m
    holds_none (explicit block output) (bs, e, m) = absurd (cc)

pub nil-IsGrouped : IsGrouped (record { bares = []; bindings = [] })
unfolding Dict.get
nil-IsGrouped = record { keyed = tt; filled = λ block e. cc }
