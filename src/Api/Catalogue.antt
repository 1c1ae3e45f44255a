-- ===== src/Api/Catalogue.antt =====
-- The handlers of the block catalogue (web_ui/server/api/blocks). `parse` is `YAML.parse`, for manifests;
-- a missing id or version is the empty text, which the handler does not tell from it.
pub mod Upload
use psae_monorepo.Prelude.{
  ℕ, String, Bool, true, false, not, Option, none, some, get_or, List, map, if◌then◌else◌, ◌==◌,
  ◌||◌,
}
use psae_monorepo.Types.{BlockManifest, BlockKind}
use psae_monorepo.Repositories.Database.{Database}
use psae_monorepo.Repositories.Blocks.{CatalogueBlock, same_name, get_by_name, upsert_block}
use psae_monorepo.Api.Submit.{truthy}
use psae_monorepo.Api.Access.{Reply, refused, crashed, answer, User}

-- The body by its content type: the raw text of a YAML request, or the fields of a JSON one.
pub data UploadBody : Type 0 where
  yaml_body : (raw : Option String) → UploadBody
  json_body : (label : Option String) (manifest : Option BlockManifest) → UploadBody

pub record Labelled : Type 0 where
  pub label : String
  pub manifest : BlockManifest

pub record BlockListItem : Type 0 where
  pub id : String
  pub name : String
  pub label : String
  pub kind : BlockKind
  pub network : Bool
  pub description : Option String

unfoldable pub list_item : CatalogueBlock → BlockListItem
list_item b = record {
  id = b.manifest.id;
  name = b.name;
  label = b.label;
  kind = b.manifest.kind;
  network = b.manifest.network;
  description = b.manifest.description;
}

unfoldable pub list_items : List CatalogueBlock → List BlockListItem
list_items rows = map list_item rows

module _ (parse : String → Option BlockManifest)
    (blocks_db : Database CatalogueBlock same_name) where
  unfoldable pub read_upload : UploadBody → Reply Labelled
  read_upload (yaml_body raw) = elim (truthy raw) [
    | none ↦ refused 400 "Empty body"
    | some text ↦ elim (parse text) [
      | none ↦ crashed
      | some m ↦ answer (record { label = m.id; manifest = m })
    ]
  ]
  read_upload (json_body label none) = refused 400 "Missing `manifest` in body"
  read_upload (json_body label (some m)) =
      answer (record { label = get_or label m.id; manifest = m })

  unfoldable pub store_upload :
      ℕ → Labelled → blocks_db.Table → Reply CatalogueBlock × blocks_db.Table
  store_upload now u t =
      if u.manifest.id == "" || u.manifest.version == ""
      then (refused 400 "Manifest missing required `id` or `version`", t)
      else let (row, after) = upsert_block blocks_db u.label u.manifest now t in (answer row, after)

  unfoldable pub store_reply :
      ℕ → Reply Labelled → blocks_db.Table → Reply CatalogueBlock × blocks_db.Table
  store_reply now (refused status message) t = (refused status message, t)
  store_reply now crashed t = (crashed, t)
  store_reply now (answer u) t = store_upload now u t

  unfoldable pub upload_block :
      User → ℕ → UploadBody → blocks_db.Table → Reply CatalogueBlock × blocks_db.Table
  upload_block user now body t =
      if not (user.role == "admin")
      then (refused 403 "Admin only", t)
      else store_reply now (read_upload body) t

  unfoldable pub get_block : Option String → blocks_db.Table → Reply BlockManifest
  get_block id t = elim (truthy id) [
    | none ↦ refused 400 "Missing block id"
    | some name ↦ elim (get_by_name blocks_db name t) [
      | none ↦ refused 404 "Block not found"
      | some b ↦ answer b.manifest
    ]
  ]
