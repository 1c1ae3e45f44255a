-- ===== src/ShortCodes/Renaming.antt =====
-- `resolveShortCodes` is one renaming of the whole pipeline.
use psae_monorepo.Prelude.{
  ℕ, suc, ◌<◌, String, true, ◌≡◌, refl, sym, subst, ◌∙◌, ◌≢◌, inl, inr, Option, none, some, get_or,
  Memᴰ, arith, ==_iff, ==_refl, ==-cases, Bool-cases, if◌then◌else◌, map,
}
use psae_monorepo.Dict
use psae_monorepo.Dict.{Dict}
use psae_monorepo.Types.{InputRef, bare, explicit, Block}
use psae_monorepo.Validate.Cycle.{ref_to_id}
use psae_monorepo.ShortCodes.{is_short_code, Minting, resolve_from, resolve, resolve_id}

-- A text renamed by `σ`, if it is a short code.
abbrev pub rename : Dict String → String → String
rename σ s = if is_short_code s then get_or (Dict.get s σ) s else s

abbrev pub rename_input : Dict String → InputRef → InputRef
rename_input σ (bare s) = bare (rename σ s)
rename_input σ (explicit block output) = explicit (rename σ block) output

abbrev pub rename_block : {A : Type 0} → Dict String → Block A → Block A
rename_block σ b = record b { id = rename σ b.id; inputs = map (rename_input σ) b.inputs }

-- A text that needs no renaming, or has one.
abbrev pub Covers : Dict String → String → Type 0
Covers σ s = is_short_code s ≡ true → (v : String) × (Dict.get s σ ≡ some v)

module _ (uuid : ℕ → String) where
  -- Every value is a minted UUID, and different codes have different ones.
  pub record IsMinted (st : Minting) : Type 0 where
    pub from_uuid :
        (c v : String) → Dict.get c st.bindings ≡ some v → (i : ℕ) × (i < st.minted) × (v ≡ uuid i)
    pub injective :
        (c d v : String) → Dict.get c st.bindings ≡ some v → Dict.get d st.bindings ≡ some v → c ≡ d

  abbrev pub IsInjective : Type 0
  IsInjective = (i j : ℕ) → uuid i ≡ uuid j → i ≡ j

  abbrev pub Extends : Minting → Minting → Type 0
  Extends st st' =
      (c v : String) → Dict.get c st.bindings ≡ some v → Dict.get c st'.bindings ≡ some v

  pub record Step (st st' : Minting) : Type 0 where
    pub minted : IsMinted st'
    pub extends : Extends st st'

  pub Step-trans : {a b c : Minting} → Step a b → Step b c → Step a c
  Step-trans h k = record { minted = k.minted; extends = λ x v e. k.extends x v (h.extends x v e) }

  module _ (distinct : IsInjective) where
    fresh_lem :
        (c : String) (st : Minting)
        → IsMinted st
        → Dict.get c st.bindings ≡ none
        → Step st
            (record { bindings = Dict.set c (uuid st.minted) st.bindings; minted = suc st.minted })
    fresh_lem c st h e = record {
      minted = record { from_uuid = from; injective = inj };
      extends = λ d v p. ground (arith, Dict.get-set c d (uuid st.minted) st.bindings, ==_iff c d);
    }
      where
        old : (d v : String) → Dict.get d st.bindings ≡ some v → v ≢ uuid st.minted
        old d v p q =
            let (i, lt, r) = h.from_uuid d v p in
            let same = distinct i st.minted (sym r ∙ q) in omega arith

        from :
            (d v : String)
            → Dict.get d (Dict.set c (uuid st.minted) st.bindings) ≡ some v
            → (i : ℕ) × (i < suc st.minted) × (v ≡ uuid i)
        from d v p = elim (==-cases c d) [
          | inl (t, q) ↦ (
            st.minted,
            omega arith,
            ground (arith, Dict.get-set c d (uuid st.minted) st.bindings),
          )
          | inr (t, n) ↦
              let (i, lt, r) =
                h.from_uuid d v (ground (arith, Dict.get-set c d (uuid st.minted) st.bindings)) in
              (i, omega arith, r)
        ]

        inj :
            (d d' v : String)
            → Dict.get d (Dict.set c (uuid st.minted) st.bindings) ≡ some v
            → Dict.get d' (Dict.set c (uuid st.minted) st.bindings) ≡ some v
            → d ≡ d'
        inj d d' v p p' = ground (
          arith,
          Dict.get-set c d (uuid st.minted) st.bindings,
          Dict.get-set c d' (uuid st.minted) st.bindings,
          ==_iff c d,
          ==_iff c d',
          h.injective d d' v,
          old d v,
          old d' v,
        )

    -- What one id is resolved to is what the map says afterwards.
    pub record Resolves (s : String) (st : Minting) (r : String × Minting) : Type 0 where
      pub step : Step st r.1
      pub covers : Covers r.1.bindings s
      pub renames : r.0 ≡ rename r.1.bindings s

    resolve_from_lem :
        (s : String) (st : Minting)
        → IsMinted st
        → is_short_code s ≡ true
        → (o : Option String) → Dict.get s st.bindings ≡ o
        → Resolves s st (resolve_from uuid s o st)
    unfolding resolve_from
    resolve_from_lem s st h short (some v) e = record {
      step = record { minted = h; extends = λ c w p. p };
      covers = λ p. (v, e);
      renames = rw (short, e) refl;
    }
    resolve_from_lem s st h short none e =
        let now : Dict.get s (Dict.set s (uuid st.minted) st.bindings) ≡ some (uuid st.minted) =
          ground (arith, Dict.get-set s s (uuid st.minted) st.bindings, ==_refl s) in
        record {
          step = fresh_lem s st h e;
          covers = λ p. (uuid st.minted, now);
          renames = rw (short, now) refl;
        }

    -- What one id is resolved to is what the map says afterwards.
    pub resolve_id_lem :
        (s : String) (st : Minting) → IsMinted st → Resolves s st (resolve_id uuid s st)
    unfolding resolve_id resolve
    resolve_id_lem s st h = elim (Bool-cases (is_short_code s)) [
      | inl short ↦
          let same : resolve_id uuid s st ≡ resolve_from uuid s (Dict.get s st.bindings) st =
            rw short refl in
          subst (Resolves s st) (sym same)
            (resolve_from_lem s st h short (Dict.get s st.bindings) refl)
      | inr plain ↦
          let same : resolve_id uuid s st ≡ (s, st) = rw plain refl in
          subst (Resolves s st) (sym same) (record {
            step = record { minted = h; extends = λ c w p. p };
            covers = λ p. cc;
            renames = rw plain refl;
          })
    ]

-- A covered text is renamed alike by a larger map.
pub rename-Extends :
    (uuid : ℕ → String) (s : String) (st st' : Minting)
    → Extends uuid st st'
    → Covers st.bindings s
    → rename st.bindings s ≡ rename st'.bindings s
rename-Extends uuid s st st' f c = elim (Bool-cases (is_short_code s)) [
  | inl short ↦ let (v, e) = c short in rw (short, e, f s v e) refl
  | inr plain ↦ rw plain refl
]

pub Covers-Extends :
    (uuid : ℕ → String) (s : String) (st st' : Minting)
    → Extends uuid st st'
    → Covers st.bindings s
    → Covers st'.bindings s
Covers-Extends uuid s st st' f c short = let (v, e) = c short in (v, f s v e)

-- The texts of a reference and of a block that are renamed.
abbrev pub CoversInput : Dict String → InputRef → Type 0
CoversInput σ r = Covers σ (ref_to_id r)

abbrev pub CoversBlock : {A : Type 0} → Dict String → Block A → Type 0
CoversBlock σ b = Covers σ b.id × ((r : InputRef) → Memᴰ r b.inputs → CoversInput σ r)
