-- ===== src/Validate/Spec.antt =====
-- What a valid pipeline is, stated without the validator.
use psae_monorepo.Prelude.{String, true, ◌≡◌, some, List, Memᴰ, Distinct}
use mathlib.Core.WellFounded.{Acc}
use psae_monorepo.Dict
use psae_monorepo.Dict.{Dict}
use psae_monorepo.Types.{InputRef, explicit, Block, PortType, PortDecl, BlockManifest, BlockKind}
use psae_monorepo.Validate.Cycle.{ref_to_id}
use psae_monorepo.Validate.Cycle.Adjacency.{ids_of, DependsOn}
use psae_monorepo.Validate.Checks.{Manifests}

-- A port that takes a plain value.
pub data IsScalar : PortType → Type 0 where
  string : IsScalar PortType.string
  number : IsScalar PortType.number
  boolean : IsScalar PortType.boolean

module _ {A : Type 0} where
  -- The structure: distinct ids, references to blocks of the pipeline, and no cycle.
  pub record IsSound (blocks : List (Block A)) : Type 0 where
    pub distinct : Distinct (ids_of blocks)
    pub resolved :
        (b : Block A)
        → Memᴰ b blocks
        → (r : InputRef) → Memᴰ r b.inputs
        → Memᴰ (ref_to_id r) (ids_of blocks)
    pub acyclic : (n : String) → Acc (DependsOn blocks) n

  -- What the manifest of a block's type demands of the block.
  pub record Fits (manifests : Manifests) (blocks : List (Block A)) (b : Block A)
      (m : BlockManifest) : Type 0 where
    pub outputs :
        (upstream output : String)
        → Memᴰ (explicit upstream output) b.inputs
        → (u : Block A) → Memᴰ u blocks
        → u.id ≡ upstream
        → (um : BlockManifest) → Dict.get u.name manifests ≡ some um
        → Dict.has output um.outputs ≡ true
    pub args :
        (input : String) (decl : PortDecl)
        → Memᴰ (input, decl) m.inputs
        → IsScalar decl.type
        → Dict.has input b.args ≡ true
    pub expands :
        m.kind ≡ BlockKind.map
        → (name : String) × (decl : PortDecl) × Memᴰ (name, decl) m.outputs
          × (decl.type ≡ PortType.expansion)
    pub collects :
        m.kind ≡ BlockKind.reduce
        → (name : String) × (decl : PortDecl) × Memᴰ (name, decl) m.inputs
          × (decl.type ≡ PortType.collection)

  -- Every block has a manifest and fits it.
  pub record FitsAll (manifests : Manifests) (blocks : List (Block A)) : Type 0 where
    pub known :
        (b : Block A) → Memᴰ b blocks → (m : BlockManifest) × (Dict.get b.name manifests ≡ some m)
    pub fits :
        (b : Block A)
        → Memᴰ b blocks
        → (m : BlockManifest) → Dict.get b.name manifests ≡ some m
        → Fits manifests blocks b m
