-- ===== src/Tests/Called.antt =====
-- A block that is called with one raster, in a file system with a directory for it and one that no input
-- is declared for.
use psae_monorepo.Prelude.{
  String, ◌||◌, ◌≡◌, refl, ◌↔◌, none, some, [], ◌∷◌, ◌==◌, ◌<>◌, if◌then◌else◌, contains,
}
use psae_monorepo.Dict
use psae_monorepo.Dict.{Dict}
use psae_monorepo.BlockLibrary.{
  TypeClass, SpadeMetadata, ArgValue, at_path, returned, Environment, load_params, files_in,
  infer_value, first_file, value_in, scan_entries, scan_inputs, spread, as_args,
  build_function_args, declared_args, hints_of, run_args, is_directory_subclass,
  is_file_collection_subclass, is_file_subclass,
}
use psae_monorepo.BlockLibrary.Scanned.{IsInput, scan_inputs_iff}
use psae_monorepo.BlockLibrary.Args.{AreArgs, run_args-AreArgs}

abbrev disk : Environment String
disk = record {
  exists = λ p. p == "inputs";
  entries = λ p. if p == "inputs" then "dem" ∷ "extra" ∷ [] else "a.tif" ∷ [];
  is_directory = λ p. p == "inputs/dem" || p == "inputs/extra";
  is_file = λ p. p == "inputs/dem/a.tif" || p == "inputs/extra/a.tif";
  join = λ a b. a <> "/" <> b;
  sort = λ names. names;
  read = λ p. "";
  yaml_load = λ text. returned none;
}

abbrev metadata : SpadeMetadata
metadata = record {
  inputs = ("dem", TypeClass.raster_file) ∷ [];
  output = none;
  description = none;
}

abbrev scanned : Dict (ArgValue String)
scanned =
    ("dem", at_path TypeClass.raster_file "inputs/dem/a.tif")
    ∷ ("extra", at_path TypeClass.file "inputs/extra/a.tif")
    ∷ []

scan_run : scan_inputs disk metadata.inputs ≡ returned scanned
unfolding scan_inputs scan_entries value_in files_in infer_value first_file Dict.get Dict.set
    is_directory_subclass is_file_collection_subclass is_file_subclass
scan_run = refl

args_run :
    run_args disk (some metadata)
    ≡ returned (("dem", at_path TypeClass.raster_file "inputs/dem/a.tif") ∷ [])
unfolding run_args build_function_args load_params hints_of declared_args spread as_args contains
    scan_inputs scan_entries value_in files_in infer_value first_file Dict.get Dict.set
    is_directory_subclass is_file_collection_subclass is_file_subclass
args_run = refl

scan_inputs_iff_example :
    (Dict.get "dem" scanned ≡ some (at_path TypeClass.raster_file "inputs/dem/a.tif"))
    ↔ IsInput disk metadata.inputs
        ("dem" ∷ "extra" ∷ [])
        "dem"
        (at_path TypeClass.raster_file "inputs/dem/a.tif")
scan_inputs_iff_example =
    scan_inputs_iff disk metadata.inputs scanned (λ names x. (λ m. m, λ m. m)) refl scan_run "dem"
      (at_path TypeClass.raster_file "inputs/dem/a.tif")

run_args-AreArgs_example :
    AreArgs disk metadata (("dem", at_path TypeClass.raster_file "inputs/dem/a.tif") ∷ [])
run_args-AreArgs_example =
    run_args-AreArgs disk metadata (("dem", at_path TypeClass.raster_file "inputs/dem/a.tif") ∷ [])
      args_run
