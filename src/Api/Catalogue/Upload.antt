-- ===== src/Api/Catalogue/Upload.antt =====
-- Who uploads a block, and what is fetched afterwards.
use psae_monorepo.Prelude.{
  ℕ, String, false, ◌≡◌, refl, sym, ap, subst, ◌∙◌, inl, inr, Option, none, some, get_or,
  Option-cases, Bool-cases, ◌==◌, ==_iff, ◌||◌, arith,
}
use psae_monorepo.Types.{BlockManifest}
use psae_monorepo.Repositories.Database.{Database}
use psae_monorepo.Repositories.Blocks.{
  CatalogueBlock, same_name, upsert_block, upsert_block-get_by_name, IsUpload,
  upsert_block-IsUpload,
}
use psae_monorepo.Api.Submit.{truthy}
use psae_monorepo.Api.Submit.Accepted.{truthy_iff}
use psae_monorepo.Api.Access.{Reply, refused, crashed, answer, User}
use psae_monorepo.Api.Catalogue.{
  UploadBody, yaml_body, json_body, Labelled, read_upload, store_upload, store_reply, upload_block,
  get_block,
}

module _ (parse : String → Option BlockManifest)
    (blocks_db : Database CatalogueBlock same_name) where
  -- A body carries a manifest and a label for it: its id, where the body gives no label.
  abbrev pub Carries : UploadBody → String → BlockManifest → Type 0
  Carries (yaml_body raw) label m =
      (text : String) × (raw ≡ some text) × (¬ (text ≡ "")) × (parse text ≡ some m) × (label ≡ m.id)
  Carries (json_body given manifest) label m = (manifest ≡ some m) × (label ≡ get_or given m.id)

  -- What is answered and stored for a label and a manifest.
  abbrev Uploads : String → BlockManifest → CatalogueBlock → blocks_db.Table → Type 0
  Uploads label m row after =
      IsUpload blocks_db label m row × (get_block parse blocks_db (some m.id) after ≡ answer m)

  injective : {A : Type 0} {x y : A} → answer x ≡ answer y → x ≡ y
  injective e = cc

  store_upload-Uploads :
      (now : ℕ) (u : Labelled) (t after : blocks_db.Table) (row : CatalogueBlock)
      → store_upload parse blocks_db now u t ≡ (answer row, after)
      → Uploads u.label u.manifest row after
  unfolding store_upload get_block truthy
  store_upload-Uploads now u t after row e =
      elim (Bool-cases (u.manifest.id == "" || u.manifest.version == "")) [
        | inl b ↦ let e' = ap (λ x. x.0) (rw (b, store_upload) at e) in cc
        | inr b ↦
            let e₁ = rw (b, store_upload) at e in
            let ((found, p, shown), _) =
              upsert_block-get_by_name blocks_db u.label u.manifest now t in
            let named : (u.manifest.id == "") ≡ false = ground arith in
            let got : get_block parse blocks_db (some u.manifest.id)
                  (upsert_block blocks_db u.label u.manifest now t).1
                ≡ answer u.manifest =
              rw (named, p, get_block, truthy) (ap answer shown.manifest_same) in
            (
              subst (IsUpload blocks_db u.label u.manifest) (injective (ap (λ x. x.0) e₁))
                  (upsert_block-IsUpload blocks_db u.label u.manifest now t),
              subst (λ x. get_block parse blocks_db (some u.manifest.id) x ≡ answer u.manifest)
                  (ap (λ x. x.1) e₁) got,
            )
      ]

  store_reply-Uploads :
      (now : ℕ) (r : Reply Labelled) (t after : blocks_db.Table) (row : CatalogueBlock)
      → store_reply parse blocks_db now r t ≡ (answer row, after)
      → (u : Labelled) × (r ≡ answer u) × Uploads u.label u.manifest row after
  unfolding store_reply
  store_reply-Uploads now (refused status message) t after row e = let e' = ap (λ x. x.0) e in cc
  store_reply-Uploads now crashed t after row e = let e' = ap (λ x. x.0) e in cc
  store_reply-Uploads now (answer u) t after row e =
      (u, refl, store_upload-Uploads now u t after row e)

  read_upload-Carries :
      (body : UploadBody) (u : Labelled)
      → read_upload parse blocks_db body ≡ answer u
      → Carries body u.label u.manifest
  unfolding read_upload
  read_upload-Carries (yaml_body raw) u e = elim (Option-cases (truthy raw)) [
    | inl n ↦ let e' = rw (n, read_upload) at e in cc
    | inr (text, p) ↦ elim (Option-cases (parse text)) [
      | inl n ↦ let e' = rw (p, n, read_upload) at e in cc
      | inr (m, q) ↦
          let same = injective (rw (p, q, read_upload) at e) in
          let (given, filled) = (truthy_iff raw text).0 p in
          let m_same : m ≡ u.manifest = ap (λ x. x.manifest) same in
          (
            text,
            given,
            filled,
            q ∙ ap some m_same,
            sym (ap (λ x. x.label) same) ∙ ap (λ x. x.id) m_same,
          )
    ]
  ]
  read_upload-Carries (json_body label none) u e = let e' = e in cc
  read_upload-Carries (json_body label (some m)) u e =
      let same = injective e in
      let m_same : m ≡ u.manifest = ap (λ x. x.manifest) same in
      (ap some m_same, sym (ap (λ x. x.label) same) ∙ ap (λ x. get_or label x.id) m_same)

  -- An upload that is answered with a row is an administrator's; its body carries a manifest and a label,
  -- which the row shows, and the manifest is fetched afterwards under its id.
  pub upload_block-get_block :
      (user : User) (now : ℕ) (body : UploadBody) (t after : blocks_db.Table) (row : CatalogueBlock)
      → upload_block parse blocks_db user now body t ≡ (answer row, after)
      → (user.role ≡ "admin")
        × ((label : String) × (m : BlockManifest) × Carries body label m
            × IsUpload blocks_db label m row
            × (get_block parse blocks_db (some m.id) after ≡ answer m))
  unfolding upload_block
  upload_block-get_block user now body t after row e = elim (Bool-cases (user.role == "admin")) [
    | inr b ↦ let e' = ap (λ x. x.0) (rw (b, upload_block) at e) in cc
    | inl b ↦
        let (u, read, (shown, got)) =
          store_reply-Uploads now (read_upload parse blocks_db body) t after row
            (rw (b, upload_block) at e) in
        (
          (==_iff user.role "admin").0 b,
          (u.label, u.manifest, read_upload-Carries body u read, shown, got),
        )
  ]
