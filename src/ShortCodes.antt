-- ===== src/ShortCodes.antt =====
-- Short codes, web_ui/utils/short_codes.ts. The values that `uuidv7()` returns are a parameter: the
-- `n`-th call returns `uuid n`.
pub mod Renaming
pub mod Walk
pub mod Correct
use Prim.Native.Char.{Char, code}
use Prim.Native.String.{[], ◌∷◌}
use psae_monorepo.Prelude.{
  ℕ, suc, String, Bool, true, false, ◌&&◌, ◌||◌, Option, none, some, List, if◌then◌else◌, eqb, leb,
  ◌<>◌,
}
use mathlib.Core.List
use mathlib.Core.Option
use psae_monorepo.Dict
use psae_monorepo.Dict.{Dict}
use psae_monorepo.Types.{InputRef, bare, explicit, Block, Pipeline}

-- `[A-Za-z_]`
unfoldable pub is_first : ℕ → Bool
is_first c = leb b'A' c && leb c b'Z' || leb b'a' c && leb c b'z' || eqb c b'_'

-- `[A-Za-z0-9_]*$`
unfoldable pub are_rest : String → Bool
unfolding is_first
are_rest [] = true
are_rest (c ∷ s) = (is_first (code c) || leb b'0' (code c) && leb (code c) b'9') && are_rest s

-- `[A-Za-z_][A-Za-z0-9_]*$`
unfoldable pub is_identifier : String → Bool
unfolding is_first are_rest
is_identifier [] = false
is_identifier (c ∷ s) = is_first (code c) && are_rest s

unfoldable pub is_short_code : String → Bool
unfolding is_identifier
is_short_code [] = false
is_short_code (c ∷ s) = eqb (code c) b'@' && is_identifier s

-- The map `bindings`, and how many UUIDs were minted.
pub record Minting : Type 0 where
  pub bindings : Dict String
  pub minted : ℕ

pub data Resolved (A : Type 0) : Type 0 where
  resolved : Pipeline A → Resolved A
  rejected : (message : String) → Resolved A

module _ {A : Type 0} where
  -- `isShortCode(pipeline.id)`, which is false of `undefined`
  unfoldable pub has_short_id : Pipeline A → Bool
  has_short_id p = elim p.id [ none ↦ false | some id ↦ is_short_code id ]

  abbrev pub refusal : Pipeline A → String
  refusal p =
      "short code "
      <> Option.get_or p.id ""
      <> " is not allowed on the pipeline-level 'id' field (spec/pipeline.md §6.1): "
      <> "omit 'id' to let the system generate one, or use a concrete UUID"

module _ (uuid : ℕ → String) where
  -- The closure `resolve`, on what `bindings.get(code)` gave.
  unfoldable pub resolve_from : String → Option String → Minting → String × Minting
  resolve_from c (some existing) st = (existing, st)
  resolve_from c none st =
      let fresh = uuid st.minted in
      (fresh, record { bindings = Dict.set c fresh st.bindings; minted = suc st.minted })

  unfoldable pub resolve : String → Minting → String × Minting
  unfolding resolve_from
  resolve c st = resolve_from c (Dict.get c st.bindings) st

  -- `isShortCode(s) ? resolve(s) : s`
  unfoldable pub resolve_id : String → Minting → String × Minting
  resolve_id s st = if is_short_code s then resolve s st else (s, st)

  unfoldable pub resolve_input : InputRef → Minting → InputRef × Minting
  resolve_input (bare s) st = let (s', st') = resolve_id s st in (bare s', st')
  resolve_input (explicit block output) st =
      let (block', st') = resolve_id block st in (explicit block' output, st')

  unfoldable pub resolve_inputs : List InputRef → Minting → List InputRef × Minting
  resolve_inputs List.[] st = (List.[], st)
  resolve_inputs (List.◌∷◌ r rs) st =
      let (r', st₁) = resolve_input r st in
      let (rs', st₂) = resolve_inputs rs st₁ in (List.◌∷◌ r' rs', st₂)

  module _ {A : Type 0} where
    unfoldable pub resolve_block : Block A → Minting → Block A × Minting
    resolve_block b st =
        let (id, st₁) = resolve_id b.id st in
        let (inputs, st₂) = resolve_inputs b.inputs st₁ in
        (record { id = id; name = b.name; inputs = inputs; args = b.args }, st₂)

    unfoldable pub resolve_blocks : List (Block A) → Minting → List (Block A) × Minting
    resolve_blocks List.[] st = (List.[], st)
    resolve_blocks (List.◌∷◌ b bs) st =
        let (b', st₁) = resolve_block b st in
        let (bs', st₂) = resolve_blocks bs st₁ in (List.◌∷◌ b' bs', st₂)

    unfoldable pub resolve_short_codes : Pipeline A → Resolved A
    resolve_short_codes p =
        if has_short_id p
        then rejected (refusal p)
        else resolved (record p {
          blocks = (resolve_blocks p.blocks (record { bindings = List.[]; minted = 0 })).0;
        })
