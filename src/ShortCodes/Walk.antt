-- ===== src/ShortCodes/Walk.antt =====
-- The walk of `resolveShortCodes` over blocks and inputs, with the map that it ends with.
use psae_monorepo.Prelude.{
  ℕ, String, ◌≡◌, refl, sym, ap, subst, ◌∙◌, List, [], ◌∷◌, Memᴰ, inl, inr, map, map-ext,
}
use mathlib.Core.List.Memᴰ
use psae_monorepo.Dict.{Dict}
use psae_monorepo.Types.{InputRef, bare, explicit, Block}
use psae_monorepo.Validate.Cycle.{ref_to_id}
use psae_monorepo.ShortCodes.{
  Minting, resolve_id, resolve_input, resolve_inputs, resolve_block, resolve_blocks,
}
use psae_monorepo.ShortCodes.Renaming.{
  rename_input, rename_block, CoversInput, CoversBlock, IsMinted, IsInjective, Extends, Step,
  Step-trans, resolve_id_lem, rename-Extends, Covers-Extends,
}

module _ (uuid : ℕ → String) (distinct : IsInjective uuid) where
  rename_input-Extends :
      (r : InputRef) (st st' : Minting)
      → Extends uuid st st'
      → CoversInput st.bindings r
      → rename_input st.bindings r ≡ rename_input st'.bindings r
  unfolding ref_to_id
  rename_input-Extends (bare s) st st' f c = ap bare (rename-Extends uuid s st st' f c)
  rename_input-Extends (explicit block output) st st' f c =
      ap (λ t. explicit t output) (rename-Extends uuid block st st' f c)

  pub record Renames {V : Type 0} (covers : Dict String → Type 0) (ren : Dict String → V)
      (st : Minting) (r : V × Minting) : Type 0 where
    pub step : Step uuid st r.1
    pub covered : covers r.1.bindings
    pub renamed : r.0 ≡ ren r.1.bindings

  resolve_input_lem :
      (r : InputRef) (st : Minting)
      → IsMinted uuid st
      → Renames (λ σ. CoversInput σ r) (λ σ. rename_input σ r) st (resolve_input uuid r st)
  unfolding resolve_input ref_to_id
  resolve_input_lem (bare s) st h =
      let k = resolve_id_lem uuid distinct s st h in
      record { step = k.step; covered = k.covers; renamed = ap bare k.renames }
  resolve_input_lem (explicit block output) st h =
      let k = resolve_id_lem uuid distinct block st h in
      record { step = k.step; covered = k.covers; renamed = ap (λ t. explicit t output) k.renames }

  resolve_inputs_lem :
      (rs : List InputRef) (st : Minting)
      → IsMinted uuid st
      → Renames
          (λ σ. (r : InputRef) → Memᴰ r rs → CoversInput σ r)
          (λ σ. map (rename_input σ) rs)
          st
          (resolve_inputs uuid rs st)
  unfolding resolve_inputs
  resolve_inputs_lem [] st h = record {
    step = record { minted = h; extends = λ c v e. e };
    covered = λ r m. absurd (Memᴰ.not-nil m);
    renamed = refl;
  }
  resolve_inputs_lem (r ∷ rs) st h =
      let k = resolve_input_lem r st h in
      let st₁ = (resolve_input uuid r st).1 in
      let k' = resolve_inputs_lem rs st₁ k.step.minted in
      let st₂ = (resolve_inputs uuid rs st₁).1 in
      record {
        step = Step-trans uuid k.step k'.step;
        covered = λ x m. elim (Memᴰ.cases_cons m) [
          | inl e ↦
              subst (CoversInput st₂.bindings) (sym e)
                (Covers-Extends uuid (ref_to_id r) st₁ st₂ k'.step.extends k.covered)
          | inr i ↦ k'.covered x i
        ];
        renamed = λ i.
            (k.renamed ∙ rename_input-Extends r st₁ st₂ k'.step.extends k.covered) i ∷ k'.renamed i;
      }

  module _ {A : Type 0} where
    rename_block-Extends :
        (b : Block A) (st st' : Minting)
        → Extends uuid st st'
        → CoversBlock st.bindings b
        → rename_block st.bindings b ≡ rename_block st'.bindings b
    rename_block-Extends b st st' f c i = record b {
      id = rename-Extends uuid b.id st st' f c.0 i;
      inputs =
          map-ext (rename_input st.bindings) (rename_input st'.bindings) b.inputs
            (λ r m. rename_input-Extends r st st' f (c.1 r m)) i;
    }

    resolve_block_lem :
        (b : Block A) (st : Minting)
        → IsMinted uuid st
        → Renames (λ σ. CoversBlock σ b) (λ σ. rename_block σ b) st (resolve_block uuid b st)
    unfolding resolve_block
    resolve_block_lem b st h =
        let k = resolve_id_lem uuid distinct b.id st h in
        let st₁ = (resolve_id uuid b.id st).1 in
        let k' = resolve_inputs_lem b.inputs st₁ k.step.minted in
        let st₂ = (resolve_inputs uuid b.inputs st₁).1 in
        record {
          step = Step-trans uuid k.step k'.step;
          covered = (Covers-Extends uuid b.id st₁ st₂ k'.step.extends k.covers, k'.covered);
          renamed = λ i. record b {
            id = (k.renames ∙ rename-Extends uuid b.id st₁ st₂ k'.step.extends k.covers) i;
            inputs = k'.renamed i;
          };
        }

    pub resolve_blocks_lem :
        (bs : List (Block A)) (st : Minting)
        → IsMinted uuid st
        → Renames
            (λ σ. (b : Block A) → Memᴰ b bs → CoversBlock σ b)
            (λ σ. map (rename_block σ) bs)
            st
            (resolve_blocks uuid bs st)
    unfolding resolve_blocks
    resolve_blocks_lem [] st h = record {
      step = record { minted = h; extends = λ c v e. e };
      covered = λ b m. absurd (Memᴰ.not-nil m);
      renamed = refl;
    }
    resolve_blocks_lem (b ∷ bs) st h =
        let k = resolve_block_lem b st h in
        let st₁ = (resolve_block uuid b st).1 in
        let k' = resolve_blocks_lem bs st₁ k.step.minted in
        let st₂ = (resolve_blocks uuid bs st₁).1 in
        record {
          step = Step-trans uuid k.step k'.step;
          covered = λ x m. elim (Memᴰ.cases_cons m) [
            | inl e ↦
                subst (CoversBlock st₂.bindings) (sym e) (later b st₁ st₂ k'.step.extends k.covered)
            | inr i ↦ k'.covered x i
          ];
          renamed = λ i.
              (k.renamed ∙ rename_block-Extends b st₁ st₂ k'.step.extends k.covered) i
              ∷ k'.renamed i;
        }
      where
        later :
            (b : Block A) (st₁ st₂ : Minting)
            → Extends uuid st₁ st₂
            → CoversBlock st₁.bindings b
            → CoversBlock st₂.bindings b
        later b st₁ st₂ f c = (
          Covers-Extends uuid b.id st₁ st₂ f c.0,
          λ r m. Covers-Extends uuid (ref_to_id r) st₁ st₂ f (c.1 r m),
        )
