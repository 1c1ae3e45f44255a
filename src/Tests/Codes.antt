-- ===== src/Tests/Codes.antt =====
-- A pipeline with short codes, resolved with UUIDs that are tallies.
use Prim.Native.String.{◌∷◌ as cons, count}
use text.Mathlib.TextLemmas.{length-cons}
use psae_monorepo.Prelude.{
  ℕ, zero, suc, String, false, ◌≡◌, refl, ap, ◌∙◌, none, some, List, [], ◌∷◌, Memᴰ, arith,
}
use psae_monorepo.Dict
use psae_monorepo.Types.{InputRef, bare, explicit, Block, Pipeline}
use psae_monorepo.Validate.Cycle.{ref_to_id}
use psae_monorepo.ShortCodes.{
  is_short_code, resolved, resolve_from, resolve, resolve_id, resolve_input, resolve_inputs,
  resolve_block, resolve_blocks, has_short_id, resolve_short_codes,
}
use psae_monorepo.ShortCodes.Renaming.{IsInjective}
use psae_monorepo.ShortCodes.Correct.{
  IsRenaming, resolve_short_codes-IsRenaming, resolve_short_codes-no_short_code,
}

abbrev tally : ℕ → String
tally zero = "u"
tally (suc n) = cons "x" (tally n)

count-tally : (n : ℕ) → count (tally n) ≡ suc n
count-tally zero = refl
count-tally (suc n) = length-cons "x" (tally n) ∙ ap suc (count-tally n)

tally-IsInjective : IsInjective tally
tally-IsInjective i j e = omega (arith, count-tally i, count-tally j, ap count e)

tally-plain : (n : ℕ) → is_short_code (tally n) ≡ false
unfolding is_short_code
tally-plain zero = refl
tally-plain (suc n) = refl

abbrev block : String → List InputRef → Block ℕ
block id inputs = record { id = id; name = "load"; inputs = inputs; args = [] }

abbrev sample : Pipeline ℕ
sample = record {
  id = some "p";
  name = "sample";
  version = "0.1.0";
  description = none;
  blocks =
      block "@source" []
      ∷ block "k1" (bare "@source" ∷ bare "@9" ∷ [])
      ∷ block "@out" (explicit "@source" "@raster" ∷ [])
      ∷ [];
}

abbrev resolved_sample : Pipeline ℕ
resolved_sample = record sample {
  blocks =
      block "u" []
      ∷ block "k1" (bare "u" ∷ bare "@9" ∷ [])
      ∷ block "xu" (explicit "u" "@raster" ∷ [])
      ∷ [];
}

codes : Unit {0}
unfolding resolve_short_codes has_short_id resolve_blocks resolve_block resolve_inputs resolve_input
    resolve_id resolve resolve_from is_short_code Dict.get Dict.set
codes = tt

sample_run : resolve_short_codes tally sample ≡ resolved resolved_sample
unfolding codes
sample_run = refl

resolve_short_codes-IsRenaming_example : IsRenaming tally sample resolved_sample
resolve_short_codes-IsRenaming_example =
    resolve_short_codes-IsRenaming tally sample resolved_sample tally-IsInjective sample_run

resolve_short_codes-no_short_code_example :
    (is_short_code "u" ≡ false) × ((r : InputRef) → Memᴰ r [] → is_short_code (ref_to_id r) ≡ false)
resolve_short_codes-no_short_code_example =
    resolve_short_codes-no_short_code tally sample resolved_sample tally-IsInjective tally-plain
      sample_run (block "u" []) (Memᴰ.head refl)
