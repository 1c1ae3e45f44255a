-- ===== src/Tests/Validation.antt =====
-- A pipeline and its manifests, accepted and refused.
use psae_monorepo.Prelude.{
  ℕ, String, false, ◌≡◌, refl, ◌≢◌, ◌↔◌, none, some, List, [], ◌∷◌, contains,
}
use psae_monorepo.Dict
use psae_monorepo.Types.{
  InputRef, bare, explicit, Block, Pipeline, PortType, PortDecl, BlockManifest, BlockKind,
}
use psae_monorepo.Validate.Checks.{
  errors_of, result_of, duplicate_errors, missing_error, missing_errors, unknown_error,
  cycle_errors, output_error, output_errors, arg_error, arg_errors, kind_errors, with_manifest,
  before_cycle, after_cycle, join, is_scalar, is_expansion, is_collection, validate_pipeline, valid,
  invalid, Manifests,
}
use psae_monorepo.Validate.Spec.{IsSound, FitsAll}
use psae_monorepo.Validate.Correct.{validate_pipeline_iff, validate_pipeline-manifests_iff}
use psae_monorepo.Validate.Cycle.{
  ref_to_id, deps_of, pop, last_one, from_first, slice_from, enter, leave, visit_dep, scan, finish,
  dfs, visit_root, roots, whiten, cycle_of, link, find_cycle, run_search, out_of_fuel, adjacency,
}
use psae_monorepo.Validate.Cycle.Graph.{IsCycle}
use psae_monorepo.Validate.Cycle.Correct.{
  run_search-ne-out_of_fuel, find_cycle_sound, find_cycle-eq-none_iff,
}

abbrev port : PortType → PortDecl
port t = record { type = t; format = none; description = none; item_type = none }

abbrev block : String → String → List InputRef → Block ℕ
block id name inputs = record { id = id; name = name; inputs = inputs; args = ("band", 3) ∷ [] }

abbrev pipeline_of : List (Block ℕ) → Pipeline ℕ
pipeline_of blocks = record {
  id = none;
  name = "sample";
  version = "0.1.0";
  description = none;
  blocks = blocks;
}

abbrev sample : List (Block ℕ)
sample =
    block "a" "load" []
    ∷ block "b" "clip" (explicit "a" "raster" ∷ [])
    ∷ block "c" "clip" (bare "a" ∷ bare "b" ∷ [])
    ∷ []

-- a needs b, b needs c and c needs b.
abbrev looped : List (Block ℕ)
looped =
    block "a" "load" (bare "b" ∷ [])
    ∷ block "b" "clip" (bare "c" ∷ [])
    ∷ block "c" "clip" (bare "b" ∷ [])
    ∷ []

abbrev manifest : PortType → PortType → BlockManifest
manifest input output = record {
  id = "m";
  version = "1";
  kind = BlockKind.standard;
  network = false;
  description = none;
  entrypoint = none;
  inputs = ("band", port input) ∷ [];
  outputs = ("raster", port output) ∷ [];
}

abbrev known : Manifests
known =
    ("load", manifest PortType.number PortType.file)
    ∷ ("clip", manifest PortType.file PortType.file)
    ∷ []

validation : Unit {0}
unfolding validate_pipeline errors_of result_of duplicate_errors missing_error missing_errors
    unknown_error cycle_errors output_error output_errors arg_error arg_errors kind_errors
    with_manifest before_cycle after_cycle join is_scalar is_expansion is_collection contains
    ref_to_id deps_of pop last_one from_first slice_from enter leave visit_dep scan finish dfs
    visit_root roots whiten cycle_of link adjacency run_search find_cycle Dict.get Dict.set Dict.has
validation = tt

sample_runs :
    (validate_pipeline (pipeline_of sample) none ≡ valid)
    × (validate_pipeline (pipeline_of sample) (some known) ≡ valid)
    × (find_cycle looped ≡ some ("b" ∷ "c" ∷ "b" ∷ []))
unfolding validation
sample_runs = (refl, refl, refl)

refused_runs :
    (validate_pipeline (pipeline_of looped) none
      ≡ invalid ("Pipeline contains a cycle: b → c → b" ∷ []))
    × (validate_pipeline
          (pipeline_of (block "a" "load" (bare "z" ∷ []) ∷ block "a" "x" [] ∷ []))
          (some known)
        ≡ invalid (
            "Duplicate block id: a" ∷ "Block \"a\" references missing block id \"z\"."
            ∷ "Block \"a\" uses unknown block type \"x\"." ∷ []))
unfolding validation
refused_runs = (refl, refl)

validate_pipeline_iff_example :
    (validate_pipeline (pipeline_of looped) none ≡ valid) ↔ IsSound looped
validate_pipeline_iff_example = validate_pipeline_iff (pipeline_of looped)

validate_pipeline-manifests_iff_example :
    (validate_pipeline (pipeline_of sample) (some known) ≡ valid)
    ↔ (IsSound sample × FitsAll known sample)
validate_pipeline-manifests_iff_example = validate_pipeline-manifests_iff (pipeline_of sample) known

find_cycle_sound_example : IsCycle (adjacency looped) ("b" ∷ "c" ∷ "b" ∷ [])
find_cycle_sound_example = find_cycle_sound looped ("b" ∷ "c" ∷ "b" ∷ []) sample_runs.2

find_cycle-eq-none_iff_example :
    (find_cycle sample ≡ none) ↔ ((c : List String) → ¬ IsCycle (adjacency sample) c)
find_cycle-eq-none_iff_example = find_cycle-eq-none_iff sample

run_search-ne-out_of_fuel_example : run_search looped ≢ out_of_fuel
run_search-ne-out_of_fuel_example = run_search-ne-out_of_fuel looped
