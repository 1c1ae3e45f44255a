-- ===== src/Validate/Checks.antt =====
-- The numbered checks of `validatePipeline` in web_ui/utils/validate.ts, each as the list of the
-- messages that it pushes.
use psae_monorepo.Prelude.{
  String, Bool, true, false, not, ◌||◌, Option, none, some, List, [], ◌∷◌, ◌++◌, ◌<>◌, ◌==◌,
  contains, map, flat_map, find?, any, unless,
}
use psae_monorepo.Dict
use psae_monorepo.Dict.{Dict, is_some}
use psae_monorepo.Types.{
  InputRef, bare, explicit, Block, Pipeline, PortType, PortDecl, BlockManifest, BlockKind,
}
use psae_monorepo.Validate.Cycle.{ref_to_id, find_cycle}

-- `["a", "b"].join(sep)`
unfoldable pub join : String → List String → String
join sep [] = ""
join sep (x ∷ []) = x
join sep (x ∷ y ∷ r) = x <> sep <> join sep (y ∷ r)

pub data ValidationResult : Type 0 where
  valid : ValidationResult
  invalid : (errors : List String) → ValidationResult

-- `errors.length ? { ok: false, errors } : { ok: true, errors: [] }`
unfoldable pub result_of : List String → ValidationResult
result_of [] = valid
result_of (e ∷ errors) = invalid (e ∷ errors)

abbrev pub Manifests : Type 0
Manifests = Dict BlockManifest

-- An input that is filled from `args`.
unfoldable pub is_scalar : PortType → Bool
is_scalar PortType.string = true
is_scalar PortType.number = true
is_scalar PortType.boolean = true
is_scalar _ = false

unfoldable pub is_expansion : PortType → Bool
is_expansion PortType.expansion = true
is_expansion _ = false

unfoldable pub is_collection : PortType → Bool
is_collection PortType.collection = true
is_collection _ = false

module _ {A : Type 0} where
  -- 1. Unique block ids.
  unfoldable pub duplicate_errors : List String → List (Block A) → List String
  duplicate_errors seen [] = []
  duplicate_errors seen (b ∷ bs) =
      unless (not (contains b.id seen)) ("Duplicate block id: " <> b.id)
      ++ duplicate_errors (b.id ∷ seen) bs

  -- 2. All referenced ids exist in the pipeline.
  unfoldable pub missing_error : List (Block A) → Block A → InputRef → List String
  missing_error blocks b ref =
      unless (contains (ref_to_id ref) (map (λ x. x.id) blocks))
        ("Block \"" <> b.id <> "\" references missing block id \"" <> ref_to_id ref <> "\".")

  unfoldable pub missing_errors : List (Block A) → List String
  missing_errors blocks = flat_map (λ b. flat_map (missing_error blocks b) b.inputs) blocks

  -- 3. All `name` values refer to known blocks.
  unfoldable pub unknown_error : Manifests → Block A → List String
  unknown_error manifests b =
      unless (is_some (Dict.get b.name manifests))
        ("Block \"" <> b.id <> "\" uses unknown block type \"" <> b.name <> "\".")

  -- 4. DAG is acyclic.
  unfoldable pub cycle_errors : List (Block A) → List String
  cycle_errors blocks = elim (find_cycle blocks) [
    | none ↦ []
    | some cycle ↦ ("Pipeline contains a cycle: " <> join " → " cycle) ∷ []
  ]

  -- 5 + 6. Named-output existence.
  unfoldable pub output_error : Manifests → List (Block A) → Block A → InputRef → List String
  output_error manifests blocks b (bare id) = []
  output_error manifests blocks b (explicit block output) =
      elim (find? (λ x. x.id == block) blocks) [
        | none ↦ []
        | some upstream ↦ elim (Dict.get upstream.name manifests) [
          | none ↦ []
          | some m ↦ unless (is_some (Dict.get output m.outputs)) (
              "Block \"" <> b.id <> "\" references output \"" <> output
              <> "\" that does not exist on \"" <> upstream.name <> "\".")
        ]
      ]

  unfoldable pub output_errors : Manifests → List (Block A) → Block A → BlockManifest → List String
  output_errors manifests blocks b m = flat_map (output_error manifests blocks b) b.inputs

  -- 7. Required args.
  unfoldable pub arg_error : Block A → String × PortDecl → List String
  arg_error b (input_name, decl) =
      unless (not (is_scalar decl.type) || Dict.has input_name b.args)
        ("Block \"" <> b.id <> "\" missing required arg \"" <> input_name <> "\".")

  unfoldable pub arg_errors : Block A → BlockManifest → List String
  arg_errors b m = flat_map (arg_error b) m.inputs

  -- 8. Map/reduce structural checks.
  unfoldable pub kind_errors : Block A → BlockManifest → List String
  kind_errors b m = elim m.kind [
    | BlockKind.standard ↦ []
    | BlockKind.map ↦
        unless (any (λ p. is_expansion (p.1).type) m.outputs)
          ("Map block \"" <> b.id <> "\" must declare an output of type \"expansion\".")
    | BlockKind.reduce ↦
        unless (any (λ p. is_collection (p.1).type) m.inputs)
          ("Reduce block \"" <> b.id <> "\" must declare a \"collection\" input.")
  ]

  -- `const m = manifests[b.name]; if (!m) continue;`
  unfoldable pub with_manifest :
      Manifests → (Block A → BlockManifest → List String) → Block A → List String
  with_manifest manifests check b = elim (Dict.get b.name manifests) [
    | none ↦ []
    | some m ↦ check b m
  ]

  -- The checks that run only where manifests are given.
  unfoldable pub before_cycle : Option Manifests → List (Block A) → List String
  before_cycle none blocks = []
  before_cycle (some manifests) blocks = flat_map (unknown_error manifests) blocks

  unfoldable pub after_cycle : Option Manifests → List (Block A) → List String
  after_cycle none blocks = []
  after_cycle (some manifests) blocks =
      flat_map (with_manifest manifests (output_errors manifests blocks)) blocks
      ++ (flat_map (with_manifest manifests arg_errors) blocks
          ++ flat_map (with_manifest manifests kind_errors) blocks)

  unfoldable pub errors_of : Option Manifests → List (Block A) → List String
  errors_of manifests blocks =
      duplicate_errors [] blocks
      ++ (missing_errors blocks
          ++ (before_cycle manifests blocks
              ++ (cycle_errors blocks ++ after_cycle manifests blocks)))

  unfoldable pub validate_pipeline : Pipeline A → Option Manifests → ValidationResult
  validate_pipeline pipeline manifests = result_of (errors_of manifests pipeline.blocks)
