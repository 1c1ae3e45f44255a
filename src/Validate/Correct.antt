-- ===== src/Validate/Correct.antt =====
-- `validatePipeline` accepts exactly the pipelines that `Validate/Spec` describes.
use psae_monorepo.Prelude.{
  String, ◌≡◌, refl, ◌↔◌, inl, inr, Option, none, some, List, [], ◌∷◌, Memᴰ, Distinct, arith,
  Option-cases, flat_map, append-eq-nil_iff, flat_map-eq-nil_iff,
}
use psae_monorepo.Dict
use psae_monorepo.Dict.{Dict, is_some}
use psae_monorepo.Types.{Block, Pipeline, BlockManifest}
use psae_monorepo.Validate.Cycle.Adjacency.{ids_of}
use psae_monorepo.Validate.Checks.{
  Manifests, valid, result_of, duplicate_errors, missing_errors, unknown_error, cycle_errors,
  output_errors, arg_errors, kind_errors, with_manifest, before_cycle, after_cycle, errors_of,
  validate_pipeline,
}
use psae_monorepo.Validate.Structure.{IsSound-iff}
use psae_monorepo.Validate.ManifestChecks.{with_manifest_iff, Fits-iff}
use psae_monorepo.Validate.Spec.{IsSound, FitsAll}

result_of_iff : (errors : List String) → (result_of errors ≡ valid) ↔ (errors ≡ [])
unfolding result_of
result_of_iff [] = (λ e. refl, λ e. refl)
result_of_iff (e ∷ errors) = (λ p. cc, λ p. cc)

module _ {A : Type 0} where
  unknown_errors_iff :
      (manifests : Manifests) (blocks : List (Block A))
      → (flat_map (unknown_error manifests) blocks ≡ []) ↔ (
          (b : Block A)
          → Memᴰ b blocks
          → (m : BlockManifest) × (Dict.get b.name manifests ≡ some m))
  unfolding unknown_error
  unknown_errors_iff manifests blocks = (
    λ e b i. elim (Option-cases (Dict.get b.name manifests)) [
      | inl none_there ↦
          absurd (ground (arith, (flat_map-eq-nil_iff (unknown_error manifests) blocks).0 e b i))
      | inr known ↦ known
    ],
    λ h.
        (flat_map-eq-nil_iff (unknown_error manifests) blocks).1
          (λ b i. let (m, p) = h b i in rw p refl),
  )

  manifest_errors_iff :
      (manifests : Manifests) (blocks : List (Block A))
      → Distinct (ids_of blocks)
      → ((before_cycle (some manifests) blocks ≡ []) × (after_cycle (some manifests) blocks ≡ []))
        ↔ FitsAll manifests blocks
  unfolding before_cycle after_cycle
  manifest_errors_iff manifests blocks distinct = (
    λ (u, a).
        let (o, rest) = (append-eq-nil_iff (by_manifest (output_errors manifests blocks)) _).0 a in
        let (g, k) =
          (append-eq-nil_iff (by_manifest arg_errors) (by_manifest kind_errors)).0 rest in
        record {
          known = (unknown_errors_iff manifests blocks).0 u;
          fits = λ b i m p. (Fits-iff manifests blocks b m distinct).0 (
            (checked (output_errors manifests blocks)).0 o b i m p,
            (checked arg_errors).0 g b i m p,
            (checked kind_errors).0 k b i m p,
          );
        },
    λ f.
        let clean =
          λ (b : Block A) (i : Memᴰ b blocks) (m : BlockManifest)
              (p : Dict.get b.name manifests ≡ some m).
            (Fits-iff manifests blocks b m distinct).1 (f.fits b i m p) in
        (
          (unknown_errors_iff manifests blocks).1 f.known,
          (append-eq-nil_iff (by_manifest (output_errors manifests blocks)) _).1 (
            (checked (output_errors manifests blocks)).1 (λ b i m p. (clean b i m p).0),
            (append-eq-nil_iff (by_manifest arg_errors) (by_manifest kind_errors)).1 (
              (checked arg_errors).1 (λ b i m p. (clean b i m p).1),
              (checked kind_errors).1 (λ b i m p. (clean b i m p).2),
            ),
          ),
        ),
  )
    where
      by_manifest : (Block A → BlockManifest → List String) → List String
      by_manifest check = flat_map (with_manifest manifests check) blocks

      checked :
          (check : Block A → BlockManifest → List String)
          → (flat_map (with_manifest manifests check) blocks ≡ []) ↔ (
              (b : Block A)
              → Memᴰ b blocks
              → (m : BlockManifest) → Dict.get b.name manifests ≡ some m
              → check b m ≡ [])
      checked check = (
        λ e b i.
            (with_manifest_iff manifests check b).0
              ((flat_map-eq-nil_iff (with_manifest manifests check) blocks).0 e b i),
        λ h.
            (flat_map-eq-nil_iff (with_manifest manifests check) blocks).1
              (λ b i. (with_manifest_iff manifests check b).1 (h b i)),
      )

  errors_of_iff :
      (manifests : Option Manifests) (blocks : List (Block A))
      → (errors_of manifests blocks ≡ []) ↔ (
          IsSound blocks
          × (before_cycle manifests blocks ≡ [])
          × (after_cycle manifests blocks ≡ []))
  unfolding errors_of
  errors_of_iff manifests blocks = (
    λ e.
        let (d, r₁) = (append-eq-nil_iff (duplicate_errors [] blocks) _).0 e in
        let (m, r₂) = (append-eq-nil_iff (missing_errors blocks) _).0 r₁ in
        let (b, r₃) = (append-eq-nil_iff (before_cycle manifests blocks) _).0 r₂ in
        let (c, a) = (append-eq-nil_iff (cycle_errors blocks) _).0 r₃ in
        ((IsSound-iff blocks).0 (d, m, c), b, a),
    λ (s, b, a).
        let (d, m, c) = (IsSound-iff blocks).1 s in
        (append-eq-nil_iff (duplicate_errors [] blocks) _).1 (
          d,
          (append-eq-nil_iff (missing_errors blocks) _).1 (
            m,
            (append-eq-nil_iff (before_cycle manifests blocks) _).1
                (b, (append-eq-nil_iff (cycle_errors blocks) _).1 (c, a)),
          ),
        ),
  )

  -- Without manifests `validatePipeline` accepts a pipeline exactly if its block ids are distinct,
  -- every reference names a block of the pipeline, and its dependencies are well founded.
  pub validate_pipeline_iff :
      (pipeline : Pipeline A) → (validate_pipeline pipeline none ≡ valid) ↔ IsSound pipeline.blocks
  unfolding validate_pipeline before_cycle after_cycle
  validate_pipeline_iff pipeline = (
    λ e. ((errors_of_iff none pipeline.blocks).0 ((result_of_iff _).0 e)).0,
    λ h. (result_of_iff _).1 ((errors_of_iff none pipeline.blocks).1 (h, refl, refl)),
  )

  -- With manifests it accepts exactly the pipelines of that kind in which every block has a
  -- manifest and fits it: the outputs that its references name are there, every scalar input is among its
  -- args, whether or not a block is bound to it, a map block declares an expansion output and a reduce
  -- block a collection input. The types of connected ports are not compared.
  pub validate_pipeline-manifests_iff :
      (pipeline : Pipeline A) (manifests : Manifests)
      → (validate_pipeline pipeline (some manifests) ≡ valid)
        ↔ (IsSound pipeline.blocks × FitsAll manifests pipeline.blocks)
  unfolding validate_pipeline
  validate_pipeline-manifests_iff pipeline manifests = (
    λ e.
        let (s, b, a) =
          (errors_of_iff (some manifests) pipeline.blocks).0 ((result_of_iff _).0 e) in
        (s, (manifest_errors_iff manifests pipeline.blocks s.distinct).0 (b, a)),
    λ (s, f).
        let (b, a) = (manifest_errors_iff manifests pipeline.blocks s.distinct).1 f in
        (result_of_iff _).1 ((errors_of_iff (some manifests) pipeline.blocks).1 (s, b, a)),
  )
