-- ===== src/ShortCodes/Correct.antt =====
-- What `resolveShortCodes` returns and when it throws.
use psae_monorepo.Prelude.{
  ℕ, String, true, false, ◌≡◌, refl, subst, ◌↔◌, inl, inr, some, [], Memᴰ, arith, Bool-cases, map,
  Memᴰ-map,
}
use psae_monorepo.Dict
use psae_monorepo.Dict.{Dict}
use psae_monorepo.Types.{InputRef, bare, explicit, Block, Pipeline}
use psae_monorepo.Validate.Cycle.{ref_to_id}
use psae_monorepo.ShortCodes.{
  is_short_code, resolved, rejected, resolve_blocks, has_short_id, refusal, resolve_short_codes,
}
use psae_monorepo.ShortCodes.Renaming.{
  rename, rename_input, rename_block, Covers, CoversBlock, IsMinted, IsInjective,
}
use psae_monorepo.ShortCodes.Walk.{resolve_blocks_lem}

ref_to_id-rename :
    (σ : Dict String) (r : InputRef) → ref_to_id (rename_input σ r) ≡ rename σ (ref_to_id r)
unfolding ref_to_id
ref_to_id-rename σ (bare s) = refl
ref_to_id-rename σ (explicit block output) = refl

IsMinted-start : (uuid : ℕ → String) → IsMinted uuid (record { bindings = []; minted = 0 })
unfolding Dict.get
IsMinted-start uuid = record { from_uuid = λ c v e. cc; injective = λ c d v e f. cc }

module _ (uuid : ℕ → String) {A : Type 0} where
  -- `p'` is `p` with the block ids and the references renamed by one map, whose values are UUIDs that
  -- were minted, different for different codes, and which has every short code that occurs.
  pub record IsRenaming (p p' : Pipeline A) : Type 0 where
    pub codes : Dict String
    pub same_id : p'.id ≡ p.id
    pub same_name : p'.name ≡ p.name
    pub same_version : p'.version ≡ p.version
    pub same_description : p'.description ≡ p.description
    pub blocks : p'.blocks ≡ map (rename_block codes) p.blocks
    pub from_uuid : (c v : String) → Dict.get c codes ≡ some v → (i : ℕ) × (v ≡ uuid i)
    pub injective : (c d v : String) → Dict.get c codes ≡ some v → Dict.get d codes ≡ some v → c ≡ d
    pub covers : (b : Block A) → Memᴰ b p.blocks → CoversBlock codes b

  -- If `uuidv7()` never returns the same value twice and `resolveShortCodes` returns, then what it
  -- returns is the pipeline renamed by one injective map from its short codes to minted UUIDs.
  pub resolve_short_codes-IsRenaming :
      (p p' : Pipeline A)
      → IsInjective uuid
      → resolve_short_codes uuid p ≡ resolved p'
      → IsRenaming p p'
  unfolding resolve_short_codes
  resolve_short_codes-IsRenaming p p' distinct e = elim (Bool-cases (has_short_id p)) [
    | inl short ↦ cc
    | inr plain ↦
        let same : record p {
          blocks = (resolve_blocks uuid p.blocks (record { bindings = []; minted = 0 })).0;
        }
            ≡ p' =
          ground arith in
        subst (IsRenaming p) same renamed
  ]
    where
      renamed : IsRenaming p (record p {
        blocks = (resolve_blocks uuid p.blocks (record { bindings = []; minted = 0 })).0;
      })
      renamed =
          let k =
            resolve_blocks_lem uuid distinct p.blocks (record { bindings = []; minted = 0 })
              (IsMinted-start uuid) in
          record {
            codes =
                (resolve_blocks uuid p.blocks (record { bindings = []; minted = 0 })).1.bindings;
            same_id = refl;
            same_name = refl;
            same_version = refl;
            same_description = refl;
            blocks = k.renamed;
            from_uuid = λ c v e. let (i, lt, q) = k.step.minted.from_uuid c v e in (i, q);
            injective = k.step.minted.injective;
            covers = k.covered;
          }

  -- `resolveShortCodes` throws exactly if the pipeline's own id is a short code.
  pub resolve_short_codes-rejected_iff :
      (p : Pipeline A)
      → (resolve_short_codes uuid p ≡ rejected (refusal p))
        ↔ ((id : String) × (p.id ≡ some id) × (is_short_code id ≡ true))
  unfolding resolve_short_codes has_short_id
  resolve_short_codes-rejected_iff p = ground arith

  -- For a stream of UUIDs without repetition, none of which `isShortCode` takes for a short code, it takes
  -- no block id and no reference of a returned pipeline for one. It asks for a letter or an underscore
  -- behind the `@`: `@1` may stay.
  pub resolve_short_codes-no_short_code :
      (p p' : Pipeline A)
      → IsInjective uuid
      → ((n : ℕ) → is_short_code (uuid n) ≡ false)
      → resolve_short_codes uuid p ≡ resolved p'
      → (b : Block A) → Memᴰ b p'.blocks
      → (is_short_code b.id ≡ false)
        × ((r : InputRef) → Memᴰ r b.inputs → is_short_code (ref_to_id r) ≡ false)
  resolve_short_codes-no_short_code p p' distinct never e b m =
      let r = resolve_short_codes-IsRenaming p p' distinct e in
      let (b₀, m₀, q) = Memᴰ-map (rename_block r.codes) b p.blocks (subst (Memᴰ b) r.blocks m) in
      let (own, refs) = r.covers b₀ m₀ in
      rw q (
        not_short r b₀.id own,
        λ x k.
            let (x₀, k₀, q₀) = Memᴰ-map (rename_input r.codes) x b₀.inputs k in
            rw q₀ (rw (ref_to_id-rename r.codes x₀) (not_short r (ref_to_id x₀) (refs x₀ k₀))),
      )
    where
      not_short :
          (r : IsRenaming p p') (s : String)
          → Covers r.codes s
          → is_short_code (rename r.codes s) ≡ false
      not_short r s c = elim (Bool-cases (is_short_code s)) [
        | inl short ↦
            let (v, g) = c short in let (i, u) = r.from_uuid s v g in rw (short, g, u) (never i)
        | inr plain ↦ rw plain plain
      ]
