-- ===== src/Types.antt =====
-- Pipelines and block manifests (web_ui/utils/types.ts).
-- The values of `args` are application data that no code here looks into: a type parameter.
use psae_monorepo.Prelude.{String, Bool, Option, List}
use psae_monorepo.Dict.{Dict}

pub data InputRef : Type 0 where
  bare : String → InputRef
  explicit : (block output : String) → InputRef

pub record Block (A : Type 0) : Type 0 where
  pub id : String
  pub name : String
  pub inputs : List InputRef
  pub args : Dict A

-- `id` is `none` where an uploaded document leaves it out, which the callers allow for.
pub record Pipeline (A : Type 0) : Type 0 where
  pub id : Option String
  pub name : String
  pub version : String
  pub description : Option String
  pub blocks : List (Block A)

pub record PipelineMetadata : Type 0 where
  pub id : String
  pub name : String
  pub version : String
  pub description : Option String

pub data PortType : Type 0 where
  file directory collection json expansion string number boolean : PortType

pub record PortDecl : Type 0 where
  pub type : PortType
  pub format : Option String
  pub description : Option String
  pub item_type : Option PortType

pub data BlockKind : Type 0 where
  standard map reduce : BlockKind

pub record BlockManifest : Type 0 where
  pub id : String
  pub version : String
  pub kind : BlockKind
  pub network : Bool
  pub description : Option String
  pub entrypoint : Option String
  pub inputs : Dict PortDecl
  pub outputs : Dict PortDecl

-- What a `Binding` of an edge says: this output feeds that input.
pub record Binding : Type 0 where
  pub output : String
  pub input : String

pub record EdgeData : Type 0 where
  pub bindings : Option (List Binding)
  pub unresolved : Option Bool
