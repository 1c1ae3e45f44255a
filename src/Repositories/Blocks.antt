-- ===== src/Repositories/Blocks.antt =====
-- The block catalogue (web_ui/server/db/repositories/blocks.ts) and its table
-- (web_ui/server/db/schema/blocks.ts). A row is found by its name, on which the upsert conflicts.
use psae_monorepo.Prelude.{
  ℕ, String, Bool, false, ◌≡◌, refl, sym, ap, subst, ◌∙◌, ◌↔◌, inl, inr, Option, some,
  if◌then◌else◌, ◌==◌, ==_iff, Bool-cases, Option-cases,
}
use psae_monorepo.Types.{BlockManifest}
use psae_monorepo.Repositories.Database.{Database}
use psae_monorepo.Repositories.Acl.{first}
use psae_monorepo.Repositories.Acl.Access.{first-mem, first-none}

pub record CatalogueBlock : Type 0 where
  pub id : String
  pub name : String
  pub label : String
  pub version : String
  pub manifest : BlockManifest
  pub created_at : ℕ
  pub updated_at : ℕ

abbrev pub same_name : CatalogueBlock → CatalogueBlock → Bool
same_name b c = b.name == c.name

-- The row that `upsert` inserts at the time `now`.
unfoldable pub catalogue_row : String → BlockManifest → ℕ → CatalogueBlock
catalogue_row label manifest now = record {
  id = manifest.id;
  name = manifest.id;
  label = label;
  version = manifest.version;
  manifest = manifest;
  created_at = now;
  updated_at = now;
}

-- The columns that `upsert` sets on a row of that name.
unfoldable pub catalogue_update : String → BlockManifest → ℕ → CatalogueBlock → CatalogueBlock
catalogue_update label manifest now b = record b {
  label = label;
  version = manifest.version;
  manifest = manifest;
  updated_at = now;
}

module _ (blocks_db : Database CatalogueBlock same_name) where
  unfoldable pub get_by_name : String → blocks_db.Table → Option CatalogueBlock
  get_by_name name t = first (blocks_db.select (λ b. b.name == name) t)

  unfoldable pub get_block_by_id : String → blocks_db.Table → Option CatalogueBlock
  get_block_by_id id t = first (blocks_db.select (λ b. b.id == id) t)

  -- The row that `upsert` returns, and the catalogue afterwards.
  unfoldable pub upsert_block :
      String → BlockManifest → ℕ → blocks_db.Table → CatalogueBlock × blocks_db.Table
  upsert_block label manifest now t =
      let row = catalogue_row label manifest now in
      let set = catalogue_update label manifest now in
      (blocks_db.upserted row set t, blocks_db.upsert row set t)

  unfoldable pub delete_block : String → blocks_db.Table → blocks_db.Table
  delete_block name t = (blocks_db.delete (λ b. b.name == name) t).1

  -- What a row shows of an upload.
  pub record IsUpload (label : String) (manifest : BlockManifest) (b : CatalogueBlock)
      : Type 0 where
    pub name_same : b.name ≡ manifest.id
    pub label_same : b.label ≡ label
    pub version_same : b.version ≡ manifest.version
    pub manifest_same : b.manifest ≡ manifest

  catalogue_row-IsUpload :
      (label : String) (m : BlockManifest) (now : ℕ) → IsUpload label m (catalogue_row label m now)
  unfolding catalogue_row
  catalogue_row-IsUpload label m now = record {
    name_same = refl;
    label_same = refl;
    version_same = refl;
    manifest_same = refl;
  }

  catalogue_update-IsUpload :
      (label : String) (m : BlockManifest) (now : ℕ) (b : CatalogueBlock)
      → b.name ≡ m.id
      → IsUpload label m (catalogue_update label m now b)
  unfolding catalogue_update
  catalogue_update-IsUpload label m now b e = record {
    name_same = e;
    label_same = refl;
    version_same = refl;
    manifest_same = refl;
  }

  -- After an upsert, each row of that name shows the upload, there is one, and the rows of other names
  -- are those from before.
  upsert_block-rows :
      (label : String) (m : BlockManifest) (now : ℕ) (t : blocks_db.Table)
      → ((b : CatalogueBlock) × blocks_db.Has (upsert_block label m now t).1 b × (b.name ≡ m.id))
        × ((b : CatalogueBlock)
            → blocks_db.Has (upsert_block label m now t).1 b
            → b.name ≡ m.id
            → IsUpload label m b)
        × ((b : CatalogueBlock)
            → ¬ (b.name ≡ m.id)
            → blocks_db.Has (upsert_block label m now t).1 b ↔ blocks_db.Has t b)
  unfolding upsert_block catalogue_row catalogue_update
  upsert_block-rows label m now t =
      elim (Option-cases (blocks_db.insert (catalogue_row label m now) t)) [
        | inl n ↦
            let (x, h, k) = (blocks_db.insert_fails_iff (catalogue_row label m now) t).0 n in
            let old = λ (s : CatalogueBlock).
              blocks_db.upsert_old_iff (catalogue_row label m now) s (catalogue_update label m now)
                t x h k in
            (
              (
                catalogue_update label m now x,
                (old (catalogue_update label m now x)).1
                    (x, h, sym (touched x ((==_iff x.name m.id).0 k))),
                (catalogue_update-IsUpload label m now x ((==_iff x.name m.id).0 k)).name_same,
              ),
              λ b hb e. let (y, hy, q) = (old b).0 hb in uploaded b y q e,
              λ b ne. (
                λ hb.
                    let (y, hy, q) = (old b).0 hb in
                    subst (blocks_db.Has t) (sym (untouched_row b y q ne)) hy,
                λ hb. (old b).1 (b, hb, sym (untouched b ne)),
              ),
            )
        | inr (t', p) ↦
            let new = λ (s : CatalogueBlock).
              blocks_db.upsert_new_iff (catalogue_row label m now) s (catalogue_update label m now)
                t (absent t' p) in
            (
              (catalogue_row label m now, (new (catalogue_row label m now)).1 (inl refl), refl),
              λ b hb e. elim ((new b).0 hb) [
                | inl q ↦ subst (IsUpload label m) (sym q) (catalogue_row-IsUpload label m now)
                | inr q ↦ let f = absent t' p b q in let c = (==_iff b.name m.id).1 e in cc
              ],
              λ b ne. (
                λ hb. elim ((new b).0 hb) [ inl q ↦ absurd (ne (ap (λ r. r.name) q)) | inr q ↦ q ],
                λ hb. (new b).1 (inr hb),
              ),
            )
      ]
    where
      set : CatalogueBlock → CatalogueBlock
      set y = if same_name y (catalogue_row label m now) then catalogue_update label m now y else y

      touched : (y : CatalogueBlock) → y.name ≡ m.id → set y ≡ catalogue_update label m now y
      touched y e = let c = (==_iff y.name m.id).1 e in rw c refl

      untouched : (y : CatalogueBlock) → ¬ (y.name ≡ m.id) → set y ≡ y
      untouched y ne = elim (Bool-cases (y.name == m.id)) [
        | inl c ↦ absurd (ne ((==_iff y.name m.id).0 c))
        | inr c ↦ rw c refl
      ]

      kept_name : (y : CatalogueBlock) → (set y).name ≡ y.name
      kept_name y = elim (Bool-cases (y.name == m.id)) [
        | inl c ↦ rw (c, catalogue_update) refl
        | inr c ↦ rw c refl
      ]

      uploaded : (b y : CatalogueBlock) → b ≡ set y → b.name ≡ m.id → IsUpload label m b
      uploaded b y q e =
          let n : y.name ≡ m.id = sym (kept_name y) ∙ sym (ap (λ r. r.name) q) ∙ e in
          subst (IsUpload label m) (sym (q ∙ touched y n))
            (catalogue_update-IsUpload label m now y n)

      untouched_row : (b y : CatalogueBlock) → b ≡ set y → ¬ (b.name ≡ m.id) → b ≡ y
      untouched_row b y q ne = q ∙ untouched y (λ e. ne (ap (λ r. r.name) q ∙ kept_name y ∙ e))

      absent :
          (t' : blocks_db.Table)
          → blocks_db.insert (catalogue_row label m now) t ≡ some t'
          → (x : CatalogueBlock) → blocks_db.Has t x
          → same_name x (catalogue_row label m now) ≡ false
      absent t' p x h = elim (Bool-cases (x.name == m.id)) [
        | inl c ↦
            let n = (blocks_db.insert_fails_iff (catalogue_row label m now) t).1 (x, h, c) in cc
        | inr c ↦ c
      ]

  -- The row that `upsert` returns shows the upload.
  pub upsert_block-IsUpload :
      (label : String) (m : BlockManifest) (now : ℕ) (t : blocks_db.Table)
      → IsUpload label m (upsert_block label m now t).0
  unfolding upsert_block catalogue_row
  upsert_block-IsUpload label m now t =
      elim (Option-cases (blocks_db.insert (catalogue_row label m now) t)) [
        | inl n ↦
            let (x, h, k) = (blocks_db.insert_fails_iff (catalogue_row label m now) t).0 n in
            let (y, _, c, e) =
              blocks_db.upserted_old (catalogue_row label m now) (catalogue_update label m now) t x
                h k in
            subst (IsUpload label m) (sym e)
              (catalogue_update-IsUpload label m now y ((==_iff y.name m.id).0 c))
        | inr (t', p) ↦
            subst (IsUpload label m)
              (sym (
                blocks_db.upserted_new (catalogue_row label m now) (catalogue_update label m now) t
                  (absent t' p)))
              (catalogue_row-IsUpload label m now)
      ]
    where
      absent :
          (t' : blocks_db.Table)
          → blocks_db.insert (catalogue_row label m now) t ≡ some t'
          → (x : CatalogueBlock) → blocks_db.Has t x
          → same_name x (catalogue_row label m now) ≡ false
      absent t' p x h = elim (Bool-cases (same_name x (catalogue_row label m now))) [
        | inl c ↦
            let n = (blocks_db.insert_fails_iff (catalogue_row label m now) t).1 (x, h, c) in cc
        | inr c ↦ c
      ]

  -- After an upload, `getByName` finds a row of the manifest's id that shows the upload, whether there
  -- was one before or not, and the rows of other names are those from before.
  pub upsert_block-get_by_name :
      (label : String) (m : BlockManifest) (now : ℕ) (t : blocks_db.Table)
      → ((b : CatalogueBlock) × (get_by_name m.id (upsert_block label m now t).1 ≡ some b)
          × IsUpload label m b)
        × ((b : CatalogueBlock)
            → (blocks_db.Has (upsert_block label m now t).1 b × ¬ (b.name ≡ m.id))
              ↔ (blocks_db.Has t b × ¬ (b.name ≡ m.id)))
  unfolding get_by_name
  upsert_block-get_by_name label m now t =
      let ((x, h, e), uploads, others) = upsert_block-rows label m now t in
      let selected = blocks_db.select_iff (λ b. b.name == m.id) (upsert_block label m now t).1 in
      (
        elim (Option-cases
            (first (blocks_db.select (λ b. b.name == m.id) (upsert_block label m now t).1))) [
              | inl n ↦ absurd (first-none _ n ((selected x).1 (h, (==_iff x.name m.id).1 e)))
              | inr (b, p) ↦
                  let (hb, c) = (selected b).0 (first-mem _ p) in
                  (b, p, uploads b hb ((==_iff b.name m.id).0 c))
            ],
        λ b. (λ (hb, ne). ((others b ne).0 hb, ne), λ (hb, ne). ((others b ne).1 hb, ne)),
      )
