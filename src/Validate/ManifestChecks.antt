-- ===== src/Validate/ManifestChecks.antt =====
-- The checks of `validatePipeline` against the manifests.
use psae_monorepo.Prelude.{
  String, true, not, ◌||◌, ◌≡◌, refl, sym, subst, ◌∙◌, ap, ◌↔◌, inl, inr, Option, none, some, List,
  [], ◌∷◌, Memᴰ, Distinct, arith, ◌==◌, ==_refl, ==-cases, Bool-cases, Option-cases, find?, any,
  any_iff, unless-eq-nil_iff, flat_map-eq-nil_iff,
}
use mathlib.Core.List.Memᴰ
use psae_monorepo.Dict
use psae_monorepo.Dict.{Dict, is_some}
use psae_monorepo.Types.{
  InputRef, bare, explicit, Block, PortType, PortDecl, BlockManifest, BlockKind,
}
use psae_monorepo.Validate.Cycle.Adjacency.{ids_of}
use psae_monorepo.Validate.Checks.{
  Manifests, is_scalar, is_expansion, is_collection, output_error, output_errors, arg_error,
  arg_errors, kind_errors, with_manifest,
}
use psae_monorepo.Validate.Spec.{IsScalar, Fits}

IsScalar_iff : (t : PortType) → (is_scalar t ≡ true) ↔ IsScalar t
unfolding is_scalar
IsScalar_iff PortType.string = (λ e. IsScalar.string, λ s. refl)
IsScalar_iff PortType.number = (λ e. IsScalar.number, λ s. refl)
IsScalar_iff PortType.boolean = (λ e. IsScalar.boolean, λ s. refl)
IsScalar_iff PortType.file = (λ e. cc, λ s. elim s [ ])
IsScalar_iff PortType.directory = (λ e. cc, λ s. elim s [ ])
IsScalar_iff PortType.collection = (λ e. cc, λ s. elim s [ ])
IsScalar_iff PortType.json = (λ e. cc, λ s. elim s [ ])
IsScalar_iff PortType.expansion = (λ e. cc, λ s. elim s [ ])

is_expansion_iff : (t : PortType) → (is_expansion t ≡ true) ↔ (t ≡ PortType.expansion)
unfolding is_expansion
is_expansion_iff t = ground arith

is_collection_iff : (t : PortType) → (is_collection t ≡ true) ↔ (t ≡ PortType.collection)
unfolding is_collection
is_collection_iff t = ground arith

module _ {A : Type 0} where
  pub with_manifest_iff :
      (manifests : Manifests) (check : Block A → BlockManifest → List String) (b : Block A)
      → (with_manifest manifests check b ≡ [])
        ↔ ((m : BlockManifest) → Dict.get b.name manifests ≡ some m → check b m ≡ [])
  unfolding with_manifest
  with_manifest_iff manifests check b = (
    λ e m p. by_get (Dict.get b.name manifests) e m p,
    λ h. back (Dict.get b.name manifests) refl h,
  )
    where
      by_get :
          (o : Option BlockManifest)
          → (elim o [ none ↦ [] | some m ↦ check b m ]) ≡ []
          → (m : BlockManifest) → o ≡ some m
          → check b m ≡ []
      by_get none e m p = cc
      by_get (some m') e m p = cc

      back :
          (o : Option BlockManifest)
          → Dict.get b.name manifests ≡ o
          → ((m : BlockManifest) → Dict.get b.name manifests ≡ some m → check b m ≡ [])
          → (elim o [ none ↦ [] | some m ↦ check b m ]) ≡ []
      back none q h = refl
      back (some m) q h = h m q

  find?-some :
      (k : String) (bs : List (Block A)) (u : Block A)
      → find? (λ x. x.id == k) bs ≡ some u
      → Memᴰ u bs × (u.id ≡ k)
  find?-some k [] u e = cc
  find?-some k (b ∷ bs) u e = elim (==-cases b.id k) [
    | inl (t, p) ↦
        let same : b ≡ u = ground arith in (Memᴰ.head (sym same), ap (λ x. x.id) (sym same) ∙ p)
    | inr (t, p) ↦ let (m, q) = find?-some k bs u (ground arith) in (Memᴰ.tail m, q)
  ]

  find?-own :
      (bs : List (Block A)) (u : Block A)
      → Distinct (ids_of bs)
      → Memᴰ u bs
      → find? (λ x. x.id == u.id) bs ≡ some u
  find?-own [] u d m = absurd (Memᴰ.not-nil m)
  find?-own (b ∷ bs) u (new, d) m = elim (Memᴰ.cases_cons m) [
    | inl e ↦
        subst (λ v. find? (λ x. x.id == v.id) (b ∷ bs) ≡ some v) (sym e) (rw (==_refl b.id) refl)
    | inr k ↦ elim (==-cases b.id u.id) [
      | inl (t, p) ↦ absurd (new (subst (λ x. Memᴰ x (ids_of bs)) (sym p) (Memᴰ.map (λ x. x.id) k)))
      | inr (t, p) ↦ rw t (find?-own bs u d k)
    ]
  ]

  output_error_iff :
      (manifests : Manifests) (blocks : List (Block A)) (b : Block A) (upstream output : String)
      → Distinct (ids_of blocks)
      → (output_error manifests blocks b (explicit upstream output) ≡ []) ↔ (
          (u : Block A)
          → Memᴰ u blocks
          → u.id ≡ upstream
          → (um : BlockManifest) → Dict.get u.name manifests ≡ some um
          → Dict.has output um.outputs ≡ true)
  unfolding output_error
  output_error_iff manifests blocks b upstream output distinct = (
    λ e u m p um q.
        let first : find? (λ x. x.id == upstream) blocks ≡ some u =
          subst (λ k. find? (λ x. x.id == k) blocks ≡ some u) p (find?-own blocks u distinct m) in
        ground (arith, first, q, Dict.has-get output um.outputs),
    λ h. elim (Option-cases (find? (λ x. x.id == upstream) blocks)) [
      | inl e ↦ ground arith
      | inr (u, e) ↦ elim (Option-cases (Dict.get u.name manifests)) [
        | inl e' ↦ ground arith
        | inr (um, e') ↦
            let (m, p) = find?-some upstream blocks u e in
            ground (arith, h u m p um e', Dict.has-get output um.outputs)
      ]
    ],
  )

  output_error-bare :
      (manifests : Manifests) (blocks : List (Block A)) (b : Block A) (id : String)
      → output_error manifests blocks b (bare id) ≡ []
  unfolding output_error
  output_error-bare manifests blocks b id = refl

  arg_errors_iff :
      (b : Block A) (m : BlockManifest)
      → (arg_errors b m ≡ []) ↔ (
          (input : String) (decl : PortDecl)
          → Memᴰ (input, decl) m.inputs
          → IsScalar decl.type
          → Dict.has input b.args ≡ true)
  unfolding arg_errors arg_error
  arg_errors_iff b m = (
    λ e input decl k s. ground (
      arith,
      (IsScalar_iff decl.type).1 s,
      (unless-eq-nil_iff _ _).0 ((flat_map-eq-nil_iff (arg_error b) m.inputs).0 e (input, decl) k),
    ),
    λ h.
        (flat_map-eq-nil_iff (arg_error b) m.inputs).1
          (λ p k. (unless-eq-nil_iff _ _).1 (present h p k)),
  )
    where
      present :
          ((input : String) (decl : PortDecl)
            → Memᴰ (input, decl) m.inputs
            → IsScalar decl.type
            → Dict.has input b.args ≡ true)
          → (p : String × PortDecl) → Memᴰ p m.inputs
          → (not (is_scalar (p.1).type) || Dict.has p.0 b.args) ≡ true
      present h p k = elim (Bool-cases (is_scalar (p.1).type)) [
        | inl t ↦ ground (arith, h p.0 p.1 k ((IsScalar_iff (p.1).type).0 t))
        | inr f ↦ ground arith
      ]

  kind_errors_iff :
      (b : Block A) (m : BlockManifest)
      → (kind_errors b m ≡ []) ↔ (
          (m.kind ≡ BlockKind.map → any (λ p. is_expansion (p.1).type) m.outputs ≡ true)
          × (m.kind ≡ BlockKind.reduce → any (λ p. is_collection (p.1).type) m.inputs ≡ true))
  unfolding kind_errors
  kind_errors_iff b m = ground arith

  -- The three checks of one block against its manifest.
  pub Fits-iff :
      (manifests : Manifests) (blocks : List (Block A)) (b : Block A) (m : BlockManifest)
      → Distinct (ids_of blocks)
      → ((output_errors manifests blocks b m ≡ []) × (arg_errors b m ≡ []) × (kind_errors b m ≡ []))
        ↔ Fits manifests blocks b m
  unfolding output_errors
  Fits-iff manifests blocks b m distinct = (
    λ (o, a, k). record {
      outputs = λ upstream output i.
          (output_error_iff manifests blocks b upstream output distinct).0 (
            (flat_map-eq-nil_iff (output_error manifests blocks b) b.inputs).0 o
              (explicit upstream output) i);
      args = (arg_errors_iff b m).0 a;
      expands = λ e.
          let (p, i, t) =
            (any_iff (λ p. is_expansion (p.1).type) m.outputs).0
              (((kind_errors_iff b m).0 k).0 e) in
          (p.0, p.1, i, (is_expansion_iff (p.1).type).0 t);
      collects = λ e.
          let (p, i, t) =
            (any_iff (λ p. is_collection (p.1).type) m.inputs).0
              (((kind_errors_iff b m).0 k).1 e) in
          (p.0, p.1, i, (is_collection_iff (p.1).type).0 t);
    },
    λ f. (
      (flat_map-eq-nil_iff (output_error manifests blocks b) b.inputs).1 (no_output_error f),
      (arg_errors_iff b m).1 f.args,
      (kind_errors_iff b m).1 (
        λ e.
            let (name, decl, i, t) = f.expands e in
            (any_iff (λ p. is_expansion (p.1).type) m.outputs).1
              ((name, decl), i, (is_expansion_iff decl.type).1 t),
        λ e.
            let (name, decl, i, t) = f.collects e in
            (any_iff (λ p. is_collection (p.1).type) m.inputs).1
              ((name, decl), i, (is_collection_iff decl.type).1 t),
      ),
    ),
  )
    where
      no_output_error :
          Fits manifests blocks b m
          → (r : InputRef) → Memᴰ r b.inputs
          → output_error manifests blocks b r ≡ []
      no_output_error f (bare id) i = output_error-bare manifests blocks b id
      no_output_error f (explicit upstream output) i =
          (output_error_iff manifests blocks b upstream output distinct).1
            (f.outputs upstream output i)
