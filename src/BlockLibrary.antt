-- ===== src/BlockLibrary.antt =====
-- The TypeScript library for block authors (libs/typescript/src): the types of a block's inputs and outputs,
-- the values that it is called with, and the manifest that is made of its metadata.
pub mod Made
pub mod Scanned
pub mod Args
use psae_monorepo.Prelude.{
  ℕ, String, Bool, true, false, not, Option, none, some, get_or, List, [], ◌∷◌, ◌++◌, ◌==◌, ◌<>◌,
  if◌then◌else◌, map, filter, contains,
}
use psae_monorepo.Dict
use psae_monorepo.Dict.{Dict}

-- The classes of types.ts, classes that an author derives from them, by name, and the three scalars.
pub data TypeClass : Type 0 where
  file raster_file vector_file tabular_file json_file : TypeClass
  directory : TypeClass
  file_collection raster_collection vector_collection tabular_collection : TypeClass
  own_file own_directory own_collection : (name : String) → TypeClass
  string_type number_type boolean_type : TypeClass

unfoldable pub is_file_subclass : TypeClass → Bool
is_file_subclass TypeClass.file = true
is_file_subclass TypeClass.raster_file = true
is_file_subclass TypeClass.vector_file = true
is_file_subclass TypeClass.tabular_file = true
is_file_subclass TypeClass.json_file = true
is_file_subclass (TypeClass.own_file name) = true
is_file_subclass _ = false

unfoldable pub is_directory_subclass : TypeClass → Bool
is_directory_subclass TypeClass.directory = true
is_directory_subclass (TypeClass.own_directory name) = true
is_directory_subclass _ = false

unfoldable pub is_file_collection_subclass : TypeClass → Bool
is_file_collection_subclass TypeClass.file_collection = true
is_file_collection_subclass TypeClass.raster_collection = true
is_file_collection_subclass TypeClass.vector_collection = true
is_file_collection_subclass TypeClass.tabular_collection = true
is_file_collection_subclass (TypeClass.own_collection name) = true
is_file_collection_subclass _ = false

pub record SpadeMetadata : Type 0 where
  pub inputs : Dict TypeClass
  pub output : Option TypeClass
  pub description : Option String

-- What a block is called with: an object of a class, with its path or paths, or a value of params.yaml.
pub data ArgValue (P : Type 0) : Type 0 where
  at_path : TypeClass → (path : String) → ArgValue P
  at_paths : TypeClass → (paths : List String) → ArgValue P
  plain : P → ArgValue P

pub data Outcome (V : Type 0) : Type 0 where
  threw : (message : String) → Outcome V
  returned : V → Outcome V

-- What the library calls of node and of js-yaml.
pub record Environment (P : Type 0) : Type 0 where
  pub exists : String → Bool
  pub entries : String → List String
  pub is_directory : String → Bool
  pub is_file : String → Bool
  pub join : String → String → String
  pub sort : List String → List String
  pub read : String → String
  pub yaml_load : String → Outcome (Option (Dict P))

module _ {P : Type 0} (env : Environment P) where
  unfoldable pub load_params : Outcome (Dict P)
  load_params =
      if not (env.exists "params.yaml")
      then returned []
      else elim (env.yaml_load (env.read "params.yaml")) [
        | threw message ↦ threw message
        | returned params ↦ returned (get_or params [])
      ]

  -- The regular files of a directory, sorted by name.
  unfoldable pub files_in : String → List String
  files_in dir =
      map (λ f. env.join dir f)
        (filter (λ f. env.is_file (env.join dir f)) (env.sort (env.entries dir)))

  unfoldable pub infer_value : String → List String → Outcome (ArgValue P)
  infer_value dir [] = threw ("Input directory '" <> dir <> "' is empty")
  infer_value dir (f ∷ []) = returned (at_path TypeClass.file f)
  infer_value dir (f ∷ g ∷ fs) = returned (at_paths TypeClass.file_collection (f ∷ g ∷ fs))

  unfoldable pub first_file : String → String → TypeClass → List String → Outcome (ArgValue P)
  first_file name dir cls [] =
      threw ("Input '" <> name <> "' expects a file but directory '" <> dir <> "' is empty")
  first_file name dir cls (f ∷ fs) = returned (at_path cls f)

  unfoldable pub value_in : String → Option TypeClass → String → Outcome (ArgValue P)
  value_in name none dir = infer_value dir (files_in dir)
  value_in name (some cls) dir =
      if is_directory_subclass cls
      then returned (at_path cls dir)
      else if is_file_collection_subclass cls
      then returned (at_paths cls (files_in dir))
      else if is_file_subclass cls
      then first_file name dir cls (files_in dir)
      else infer_value dir (files_in dir)

  -- The loop, up to the first exception.
  unfoldable pub scan_entries :
      Dict TypeClass → List String → Dict (ArgValue P) → Outcome (Dict (ArgValue P))
  scan_entries hints [] result = returned result
  scan_entries hints (entry ∷ rest) result =
      let dir = env.join "inputs" entry in
      if not (env.is_directory dir)
      then scan_entries hints rest result
      else elim (value_in entry (Dict.get entry hints) dir) [
        | threw message ↦ threw message
        | returned v ↦ scan_entries hints rest (Dict.set entry v result)
      ]

  unfoldable pub scan_inputs : Dict TypeClass → Outcome (Dict (ArgValue P))
  scan_inputs hints =
      if not (env.exists "inputs")
      then returned []
      else scan_entries hints (env.sort (env.entries "inputs")) []

  -- `{ ...params, ...inputs }`
  unfoldable pub spread : Dict (ArgValue P) → Dict (ArgValue P) → Dict (ArgValue P)
  spread [] args = args
  spread ((k, v) ∷ inputs) args = spread inputs (Dict.set k v args)

  unfoldable pub as_args : Dict P → Dict (ArgValue P)
  as_args params = map (λ p. (p.0, plain p.1)) params

  unfoldable pub hints_of : Option SpadeMetadata → Dict TypeClass
  hints_of none = []
  hints_of (some metadata) = metadata.inputs

  unfoldable pub build_function_args : Option SpadeMetadata → Outcome (Dict (ArgValue P))
  build_function_args metadata = elim load_params [
    | threw message ↦ threw message
    | returned params ↦ elim (scan_inputs (hints_of metadata)) [
      | threw message ↦ threw message
      | returned inputs ↦ returned (spread inputs (as_args params))
    ]
  ]

  unfoldable pub declared_args : Option SpadeMetadata → Dict (ArgValue P) → Dict (ArgValue P)
  declared_args none args = args
  declared_args (some metadata) args = filter (λ p. contains p.0 (Dict.keys metadata.inputs)) args

  -- The arguments that `run` calls the function with.
  unfoldable pub run_args : Option SpadeMetadata → Outcome (Dict (ArgValue P))
  run_args metadata = elim (build_function_args metadata) [
    | threw message ↦ threw message
    | returned args ↦ returned (declared_args metadata args)
  ]

-- An entry of the manifest that `build` makes.
pub record ManifestEntry : Type 0 where
  pub type : String
  pub format : Option String
  pub item_type : Option String

abbrev entry : String → Option String → Option String → ManifestEntry
entry type format item_type = record { type = type; format = format; item_type = item_type }

unfoldable pub to_manifest : TypeClass → Option ManifestEntry
to_manifest TypeClass.file = some (entry "file" none none)
to_manifest TypeClass.raster_file = some (entry "file" (some "GeoTIFF") none)
to_manifest TypeClass.vector_file = some (entry "file" (some "GeoJSON") none)
to_manifest TypeClass.tabular_file = some (entry "file" (some "CSV") none)
to_manifest TypeClass.json_file = some (entry "json" none none)
to_manifest TypeClass.directory = some (entry "directory" none none)
to_manifest TypeClass.file_collection = some (entry "collection" none (some "file"))
to_manifest TypeClass.raster_collection = some (entry "collection" (some "GeoTIFF") (some "file"))
to_manifest TypeClass.vector_collection = some (entry "collection" (some "GeoJSON") (some "file"))
to_manifest TypeClass.tabular_collection = some (entry "collection" (some "CSV") (some "file"))
to_manifest TypeClass.string_type = some (entry "string" none none)
to_manifest TypeClass.number_type = some (entry "number" none none)
to_manifest TypeClass.boolean_type = some (entry "boolean" none none)
to_manifest _ = none

-- The name in `TYPE_TO_OUTPUT_NAME`, and in the same table of output.ts.
unfoldable pub output_name : TypeClass → Option String
output_name TypeClass.file = some "file"
output_name TypeClass.raster_file = some "raster"
output_name TypeClass.vector_file = some "vector"
output_name TypeClass.tabular_file = some "tabular"
output_name TypeClass.json_file = some "json"
output_name TypeClass.directory = some "directory"
output_name TypeClass.file_collection = some "files"
output_name TypeClass.raster_collection = some "rasters"
output_name TypeClass.vector_collection = some "vectors"
output_name TypeClass.tabular_collection = some "tables"
output_name _ = none

pub record BuiltManifest : Type 0 where
  pub description : Option String
  pub inputs : Dict ManifestEntry
  pub outputs : Dict ManifestEntry

unfoldable pub input_entries : Dict TypeClass → Dict ManifestEntry → Dict ManifestEntry
input_entries [] entries = entries
input_entries ((name, cls) ∷ inputs) entries = elim (to_manifest cls) [
  | none ↦ input_entries inputs entries
  | some e ↦ input_entries inputs (Dict.set name e entries)
]

unfoldable pub output_entries : Option TypeClass → Dict ManifestEntry
output_entries none = []
output_entries (some cls) = elim (to_manifest cls) [
  | none ↦ []
  | some e ↦ (get_or (output_name cls) "output", e) ∷ []
]

unfoldable pub build : Option SpadeMetadata → BuiltManifest
build none = record { description = none; inputs = []; outputs = [] }
build (some metadata) = record {
  description = elim metadata.description [
    | none ↦ none
    | some d ↦ if d == "" then none else some d
  ];
  inputs = input_entries metadata.inputs [];
  outputs = output_entries metadata.output;
}
