-- ===== src/Dict.antt =====
-- JavaScript's `Map` with string keys, and objects used as dictionaries (`Record<string, V>`): the
-- entries in the order of insertion. A `set` of a present key keeps its place. (An object lists
-- keys that spell an array index before the others; no operation modelled here depends on that.)
use psae_monorepo.Prelude.{
  String, ◌≡◌, refl, ap, sym, subst, ◌↔◌, ◌⊎◌, Distinct, ==-cases, Bool-cases, inl, inr, Bool, true,
  false, Option, none, some, List, [], ◌∷◌, Memᴰ, arith, ◌==◌, ==_iff, if◌then◌else◌, Memᴰ-cons,
}
use mathlib.Core.List.Memᴰ

abbrev pub Dict {ℓ} : Type ℓ → Type ℓ
Dict V = List (String × V)

-- `o !== undefined`
abbrev pub is_some {ℓ} : {V : Type ℓ} → Option V → Bool
is_some none = false
is_some (some v) = true

module _ {ℓ} {V : Type ℓ} where
  -- `m.get(k)`, where `undefined` is `none`
  unfoldable pub get : String → Dict V → Option V
  get k [] = none
  get k ((j, v) ∷ m) = if j == k then some v else get k m

  -- `m.set(k, v)`
  unfoldable pub set : String → V → Dict V → Dict V
  set k v [] = (k, v) ∷ []
  set k v ((j, w) ∷ m) = if j == k then (k, v) ∷ m else (j, w) ∷ set k v m

  -- `m.has(k)`
  unfoldable pub has : String → Dict V → Bool
  has k [] = false
  has k ((j, v) ∷ m) = if j == k then true else has k m

  -- `m.delete(k)`
  unfoldable pub delete : String → Dict V → Dict V
  delete k [] = []
  delete k ((j, v) ∷ m) = if j == k then delete k m else (j, v) ∷ delete k m

  -- `[...m.keys()]`
  abbrev pub keys : Dict V → List String
  keys [] = []
  keys ((j, v) ∷ m) = j ∷ keys m

  pub get-set :
      (k j : String) (v : V) (m : Dict V) → get j (set k v m) ≡ (if k == j then some v else get j m)
  unfolding get set
  get-set k j v [] = refl
  get-set k j v ((i, w) ∷ m) = ground (arith, ==_iff k j, ==_iff i k, ==_iff i j, get-set k j v m)

  pub has-set :
      (k j : String) (v : V) (m : Dict V) → has j (set k v m) ≡ (if k == j then true else has j m)
  unfolding has set
  has-set k j v [] = refl
  has-set k j v ((i, w) ∷ m) = ground (arith, ==_iff k j, ==_iff i k, ==_iff i j, has-set k j v m)

  pub has_iff-mem : (k : String) (m : Dict V) → (has k m ≡ true) ↔ Memᴰ k (keys m)
  unfolding has
  has_iff-mem k [] = (λ h. cc, λ m. absurd (Memᴰ.not-nil m))
  has_iff-mem k ((j, v) ∷ m) = ground (arith, ==_iff j k, has_iff-mem k m, Memᴰ-cons k j (keys m))

  pub has-get : (k : String) (m : Dict V) → has k m ≡ is_some (get k m)
  unfolding get has
  has-get k [] = refl
  has-get k ((j, v) ∷ m) = ground (arith, has-get k m)

  pub get-delete :
      (k j : String) (m : Dict V) → get j (delete k m) ≡ (if k == j then none else get j m)
  unfolding get delete
  get-delete k j [] = ground arith
  get-delete k j ((i, w) ∷ m) = ground (arith, ==_iff k j, ==_iff i k, ==_iff i j, get-delete k j m)

  pub mem-delete : (k : String) (p : String × V) (m : Dict V) → Memᴰ p (delete k m) → Memᴰ p m
  unfolding delete
  mem-delete k p [] h = h
  mem-delete k p ((i, w) ∷ m) h = elim (Bool-cases (i == k)) [
    | inl t ↦ Memᴰ.tail (mem-delete k p m (rw t at h))
    | inr f ↦ elim (Memᴰ.cases_cons (rw f at h)) [
      | inl e ↦ Memᴰ.head e
      | inr r ↦ Memᴰ.tail (mem-delete k p m r)
    ]
  ]

  pub mem-keys_delete : (k j : String) (m : Dict V) → Memᴰ j (keys (delete k m)) → Memᴰ j (keys m)
  unfolding delete
  mem-keys_delete k j [] h = h
  mem-keys_delete k j ((i, w) ∷ m) h = elim (Bool-cases (i == k)) [
    | inl t ↦ Memᴰ.tail (mem-keys_delete k j m (rw t at h))
    | inr f ↦ elim (Memᴰ.cases_cons (rw f at h)) [
      | inl e ↦ Memᴰ.head e
      | inr r ↦ Memᴰ.tail (mem-keys_delete k j m r)
    ]
  ]

  pub Distinct-delete : (k : String) (m : Dict V) → Distinct (keys m) → Distinct (keys (delete k m))
  unfolding delete
  Distinct-delete k [] d = tt
  Distinct-delete k ((i, w) ∷ m) (new, d) = elim (Bool-cases (i == k)) [
    | inl t ↦ rw t (Distinct-delete k m d)
    | inr f ↦ rw f (λ h. new (mem-keys_delete k i m h), Distinct-delete k m d)
  ]

  pub mem-keys-set :
      (k j : String) (v : V) (m : Dict V) → Memᴰ j (keys (set k v m)) → (j ≡ k) ⊎ Memᴰ j (keys m)
  unfolding set
  mem-keys-set k j v [] h = inl (Memᴰ.eq_of_singleton h)
  mem-keys-set k j v ((i, w) ∷ m) h = elim (Bool-cases (i == k)) [
    | inl t ↦ elim (Memᴰ.cases_cons (rw t at h)) [ inl e ↦ inl e | inr r ↦ inr (Memᴰ.tail r) ]
    | inr f ↦ elim (Memᴰ.cases_cons (rw f at h)) [
      | inl e ↦ inr (Memᴰ.head e)
      | inr r ↦ elim (mem-keys-set k j v m r) [ inl e ↦ inl e | inr q ↦ inr (Memᴰ.tail q) ]
    ]
  ]

  pub Distinct-set :
      (k : String) (v : V) (m : Dict V) → Distinct (keys m) → Distinct (keys (set k v m))
  unfolding set
  Distinct-set k v [] d = (λ h. Memᴰ.not-nil h, tt)
  Distinct-set k v ((i, w) ∷ m) (new, d) = elim (==-cases i k) [
    | inl (t, e) ↦ rw t (subst (λ x. ¬ Memᴰ x (keys m)) e new, d)
    | inr (t, ne) ↦
        rw t (
          λ h. elim (mem-keys-set k i v m h) [ inl e ↦ ne e | inr q ↦ new q ],
          Distinct-set k v m d,
        )
  ]

  pub mem-keys : {k : String} {v : V} (m : Dict V) → Memᴰ (k, v) m → Memᴰ k (keys m)
  mem-keys [] h = absurd (Memᴰ.not-nil h)
  mem-keys ((i, w) ∷ m) h = elim (Memᴰ.cases_cons h) [
    | inl e ↦ Memᴰ.head (ap (λ p. p.0) e)
    | inr r ↦ Memᴰ.tail (mem-keys m r)
  ]

  -- In a map with distinct keys, every entry is found.
  pub get_of_mem :
      {k : String} {v : V} (m : Dict V) → Distinct (keys m) → Memᴰ (k, v) m → get k m ≡ some v
  unfolding get
  get_of_mem [] d h = absurd (Memᴰ.not-nil h)
  get_of_mem {k} {v} ((i, w) ∷ m) (new, d) h = elim (Memᴰ.cases_cons h) [
    | inl e ↦ ground (arith, ==_iff i k, ap (λ p. p.0) e, ap (λ p. p.1) e)
    | inr r ↦ elim (==-cases i k) [
      | inl (t, e) ↦ absurd (new (subst (λ x. Memᴰ x (keys m)) (sym e) (mem-keys m r)))
      | inr (t, ne) ↦ rw t (get_of_mem m d r)
    ]
  ]

  pub mem_of_get : {k : String} {v : V} (m : Dict V) → get k m ≡ some v → Memᴰ (k, v) m
  unfolding get
  mem_of_get [] h = cc
  mem_of_get {k} {v} ((i, w) ∷ m) h = elim (==-cases i k) [
    | inl (t, e) ↦ Memᴰ.head (ground arith)
    | inr (t, ne) ↦ Memᴰ.tail (mem_of_get m (rw t at h))
  ]
