-- ===== src/PipelineBuilder/Dedupe.antt =====
-- What `dedupeInputs` keeps.
use psae_monorepo.Prelude.{
  String, ◌≡◌, refl, sym, ap, ◌∙◌, ◌↔◌, ◌<>◌, Distinct, subst, ◌⊎◌, inl, inr, List, [], ◌∷◌, Memᴰ,
  Bool-cases, contains, contains_iff, not-contains_iff,
}
use mathlib.Core.List.Memᴰ
use psae_monorepo.Types.{InputRef, bare, explicit}
use psae_monorepo.PipelineBuilder.{ref_key, dedupe_from, dedupe_inputs}

-- Two references that `dedupeInputs` does not tell apart.
abbrev pub SameRef : InputRef → InputRef → Type 0
SameRef (bare s) (bare t) = s ≡ t
SameRef (explicit b o) (explicit c p) = ref_key b o ≡ ref_key c p
SameRef _ _ = ⊥

-- No reference stands twice.
abbrev pub NoRepeat : List InputRef → Type 0
NoRepeat [] = Unit
NoRepeat (r ∷ rs) = ((s : InputRef) → Memᴰ s rs → ¬ SameRef r s) × NoRepeat rs

-- A reference that is among those seen.
abbrev Seen : List String → List String → InputRef → Type 0
Seen bares keys (bare s) = Memᴰ s bares
Seen bares keys (explicit b o) = Memᴰ (ref_key b o) keys

pub record IsDeduped (inputs out : List InputRef) : Type 0 where
  pub kept : (r : InputRef) → Memᴰ r out → Memᴰ r inputs
  pub covered : (r : InputRef) → Memᴰ r inputs → (s : InputRef) × Memᴰ s out × SameRef r s
  pub distinct : NoRepeat out

record IsDedupedFrom (bares keys : List String) (inputs out : List InputRef) : Type 0 where
  kept : (r : InputRef) → Memᴰ r out → Memᴰ r inputs
  fresh : (r : InputRef) → Memᴰ r out → ¬ Seen bares keys r
  covered :
      (r : InputRef)
      → Memᴰ r inputs
      → Seen bares keys r ⊎ ((s : InputRef) × Memᴰ s out × SameRef r s)
  distinct : NoRepeat out

-- A reference already seen adds nothing.
skipped :
    (bares keys : List String) (r : InputRef) (rs out : List InputRef)
    → Seen bares keys r
    → IsDedupedFrom bares keys rs out
    → IsDedupedFrom bares keys (r ∷ rs) out
skipped bares keys r rs out seen h = record {
  kept = λ s m. Memᴰ.tail (h.kept s m);
  fresh = h.fresh;
  covered = λ s m. elim (Memᴰ.cases_cons m) [
    | inl e ↦ inl (subst (Seen bares keys) (sym e) seen)
    | inr k ↦ h.covered s k
  ];
  distinct = h.distinct;
}

-- A new one is kept, and is seen from then on.
taken :
    (bares keys bares' keys' : List String) (r : InputRef) (rs out : List InputRef)
    → ¬ Seen bares keys r
    → SameRef r r
    → ((s : InputRef) → Seen bares' keys' s → Seen bares keys s ⊎ SameRef s r)
    → ((s : InputRef) → Seen bares keys s → Seen bares' keys' s)
    → ((s : InputRef) → SameRef r s → Seen bares' keys' s)
    → IsDedupedFrom bares' keys' rs out
    → IsDedupedFrom bares keys (r ∷ rs) (r ∷ out)
taken bares keys bares' keys' r rs out new self split grows adds h = record {
  kept = λ s m. elim (Memᴰ.cases_cons m) [ inl e ↦ Memᴰ.head e | inr k ↦ Memᴰ.tail (h.kept s k) ];
  fresh = λ s m. elim (Memᴰ.cases_cons m) [
    | inl e ↦ subst (λ x. ¬ Seen bares keys x) (sym e) new
    | inr k ↦ λ seen. h.fresh s k (grows s seen)
  ];
  covered = λ s m. elim (Memᴰ.cases_cons m) [
    | inl e ↦ inr (r, Memᴰ.head refl, subst (λ x. SameRef x r) (sym e) self)
    | inr k ↦ elim (h.covered s k) [
      | inl seen ↦ elim (split s seen) [
        | inl old ↦ inl old
        | inr same ↦ inr (r, Memᴰ.head refl, same)
      ]
      | inr (t, i, same) ↦ inr (t, Memᴰ.tail i, same)
    ]
  ];
  distinct = (λ s m same. h.fresh s m (adds s same), h.distinct);
}

dedupe_from-IsDedupedFrom :
    (bares keys : List String) (inputs : List InputRef)
    → IsDedupedFrom bares keys inputs (dedupe_from bares keys inputs)
unfolding dedupe_from
dedupe_from-IsDedupedFrom bares keys [] = record {
  kept = λ r m. absurd (Memᴰ.not-nil m);
  fresh = λ r m. absurd (Memᴰ.not-nil m);
  covered = λ r m. absurd (Memᴰ.not-nil m);
  distinct = tt;
}
dedupe_from-IsDedupedFrom bares keys (bare s ∷ rs) = elim (Bool-cases (contains s bares)) [
  | inl c ↦ rw c (
      skipped bares keys (bare s) rs (dedupe_from bares keys rs) ((contains_iff s bares).0 c)
        (dedupe_from-IsDedupedFrom bares keys rs))
  | inr c ↦ rw c (
      taken bares keys (s ∷ bares) keys (bare s) rs (dedupe_from (s ∷ bares) keys rs)
        ((not-contains_iff s bares).0 c) refl split grows adds
        (dedupe_from-IsDedupedFrom (s ∷ bares) keys rs))
]
  where
    split : (t : InputRef) → Seen (s ∷ bares) keys t → Seen bares keys t ⊎ SameRef t (bare s)
    split (bare t) m = elim (Memᴰ.cases_cons m) [ inl e ↦ inr e | inr k ↦ inl k ]
    split (explicit b o) m = inl m

    grows : (t : InputRef) → Seen bares keys t → Seen (s ∷ bares) keys t
    grows (bare t) m = Memᴰ.tail m
    grows (explicit b o) m = m

    adds : (t : InputRef) → SameRef (bare s) t → Seen (s ∷ bares) keys t
    adds (bare t) e = Memᴰ.head (sym e)
    adds (explicit b o) e = absurd e
dedupe_from-IsDedupedFrom bares keys (explicit b o ∷ rs) =
    elim (Bool-cases (contains (ref_key b o) keys)) [
      | inl c ↦ rw c (
          skipped bares keys (explicit b o) rs (dedupe_from bares keys rs)
            ((contains_iff (ref_key b o) keys).0 c) (dedupe_from-IsDedupedFrom bares keys rs))
      | inr c ↦ rw c (
          taken bares keys bares (ref_key b o ∷ keys) (explicit b o) rs
            (dedupe_from bares (ref_key b o ∷ keys) rs) ((not-contains_iff (ref_key b o) keys).0 c)
            refl split grows adds (dedupe_from-IsDedupedFrom bares (ref_key b o ∷ keys) rs))
    ]
  where
    split :
        (t : InputRef)
        → Seen bares (ref_key b o ∷ keys) t
        → Seen bares keys t ⊎ SameRef t (explicit b o)
    split (bare t) m = inl m
    split (explicit c p) m = elim (Memᴰ.cases_cons m) [ inl e ↦ inr e | inr k ↦ inl k ]

    grows : (t : InputRef) → Seen bares keys t → Seen bares (ref_key b o ∷ keys) t
    grows (bare t) m = m
    grows (explicit c p) m = Memᴰ.tail m

    adds : (t : InputRef) → SameRef (explicit b o) t → Seen bares (ref_key b o ∷ keys) t
    adds (bare t) e = absurd e
    adds (explicit c p) e = Memᴰ.head (sym e)

-- `dedupeInputs` keeps references of the inputs only, one of each bare id and one of each key of a
-- reference with an output, and none of them twice.
pub dedupe_inputs-IsDeduped : (inputs : List InputRef) → IsDeduped inputs (dedupe_inputs inputs)
unfolding dedupe_inputs
dedupe_inputs-IsDeduped inputs =
    let h = dedupe_from-IsDedupedFrom [] [] inputs in
    record {
      kept = h.kept;
      covered =
          λ r m. elim (h.covered r m) [ inl seen ↦ absurd (unseen r seen) | inr found ↦ found ];
      distinct = h.distinct;
    }
  where
    unseen : (r : InputRef) → Seen [] [] r → ⊥
    unseen (bare s) m = Memᴰ.not-nil m
    unseen (explicit b o) m = Memᴰ.not-nil m

-- No two references with outputs read the same with `::` between the block and the output.
abbrev pub Unambiguous : List InputRef → Type 0
Unambiguous inputs =
    (b o c p : String)
    → Memᴰ (explicit b o) inputs
    → Memᴰ (explicit c p) inputs
    → b <> "::" <> o ≡ c <> "::" <> p
    → (b ≡ c) × (o ≡ p)

SameRef-refl : (r : InputRef) → SameRef r r
SameRef-refl (bare s) = refl
SameRef-refl (explicit b o) = refl

SameRef-eq :
    (inputs : List InputRef) (r s : InputRef)
    → Unambiguous inputs
    → Memᴰ r inputs
    → Memᴰ s inputs
    → SameRef r s
    → r ≡ s
unfolding ref_key
SameRef-eq inputs (bare s) (bare t) u m k e = ap bare e
SameRef-eq inputs (bare s) (explicit c p) u m k e = absurd e
SameRef-eq inputs (explicit b o) (bare t) u m k e = absurd e
SameRef-eq inputs (explicit b o) (explicit c p) u m k e =
    let (q, n) = u b o c p m k e in ap (λ x. explicit x o) q ∙ ap (λ y. explicit c y) n

NoRepeat-Distinct : (rs : List InputRef) → NoRepeat rs → Distinct rs
NoRepeat-Distinct [] n = tt
NoRepeat-Distinct (r ∷ rs) (new, n) = (λ m. new r m (SameRef-refl r), NoRepeat-Distinct rs n)

-- Where no two of the references with outputs read the same with `::` between the block and the output,
-- `dedupeInputs` gives exactly the references of the inputs, each of them once.
pub dedupe_inputs_lem :
    (inputs : List InputRef)
    → Unambiguous inputs
    → ((r : InputRef) → Memᴰ r (dedupe_inputs inputs) ↔ Memᴰ r inputs)
      × Distinct (dedupe_inputs inputs)
dedupe_inputs_lem inputs u =
    let h = dedupe_inputs-IsDeduped inputs in
    (
      λ r. (
        h.kept r,
        λ m.
            let (s, k, same) = h.covered r m in
            subst (λ x. Memᴰ x (dedupe_inputs inputs))
              (sym (SameRef-eq inputs r s u m (h.kept s k) same)) k,
      ),
      NoRepeat-Distinct (dedupe_inputs inputs) h.distinct,
    )
