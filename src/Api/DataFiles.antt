-- ===== src/Api/DataFiles.antt =====
-- The handlers of uploaded data (web_ui/server/api/data and web_ui/server/api/uploads). `presign` is the
-- URL that the object store signs for a method and a key. Sizes are natural numbers. The handler of a
-- deletion takes no notice of whether the object store deletes the object, but for a warning.
pub mod Uploads
use psae_monorepo.Prelude.{
  ℕ, zero, String, Bool, true, false, Option, none, some, get_or, List, if◌then◌else◌, ◌==◌, ◌<>◌,
  ◌||◌, eqb,
}
use psae_monorepo.Repositories.Database.{Database}
use psae_monorepo.Repositories.Acl.{Visibility, Share, same_share, same_id}
use psae_monorepo.Repositories.DataFiles.{
  DataFile, data_file_columns, DataFileTables, create_data_file, delete_data_file,
  get_data_file_for_user,
}
use psae_monorepo.Api.Submit.{truthy}
use psae_monorepo.Api.Access.{
  Reply, refused, crashed, answer, User, same_user, ShareBody, list_handler, get_handler,
  share_handler,
}

pub record InitBody : Type 0 where
  pub name : Option String
  pub mime_type : Option String
  pub size_bytes : ℕ

pub record Upload : Type 0 where
  pub data_file_id : String
  pub s3_key : String
  pub upload_url : String

pub record CompleteBody : Type 0 where
  pub data_file_id : Option String
  pub s3_key : Option String
  pub name : Option String
  pub mime_type : Option String
  pub size_bytes : ℕ
  pub visibility : Option Visibility

pub record Download : Type 0 where
  pub row : DataFile
  pub download_url : String

-- `!field`
unfoldable pub is_missing : Option String → Bool
is_missing field = elim (truthy field) [ none ↦ true | some s ↦ false ]

module _ (presign : String → String → String)
    (rows_db : Database DataFile (same_id data_file_columns))
    (shares_db : Database Share same_share) (users_db : Database User same_user) where
  abbrev Db : Type 0
  Db = DataFileTables rows_db shares_db

  -- `fresh` is what `v7()` returns.
  unfoldable pub init_upload : String → String → InitBody → Reply Upload
  init_upload user fresh body =
      if is_missing body.name || is_missing body.mime_type
      then refused 400 "name and mimeType required"
      else if eqb body.size_bytes 0
      then refused 400 "sizeBytes must be > 0"
      else let s3_key = "data/" <> user <> "/" <> fresh <> "/" <> get_or body.name "" in
        answer (record { data_file_id = fresh; s3_key = s3_key; upload_url = presign "PUT" s3_key })

  unfoldable pub uploaded_row : String → ℕ → CompleteBody → DataFile
  uploaded_row user now body = record {
    id = get_or body.data_file_id "";
    owner_id = user;
    name = get_or body.name "";
    size_bytes = body.size_bytes;
    mime_type = get_or body.mime_type "";
    s3_key = get_or body.s3_key "";
    visibility = get_or body.visibility Visibility.private;
    created_at = now;
    updated_at = now;
  }

  unfoldable pub is_incomplete_upload : CompleteBody → Bool
  is_incomplete_upload body =
      is_missing body.data_file_id
      || is_missing body.s3_key
      || is_missing body.name
      || is_missing body.mime_type
      || eqb body.size_bytes 0

  unfoldable pub store_data_file : DataFile → Db → Reply DataFile × Db
  store_data_file row db = elim (create_data_file rows_db shares_db row db) [
    | none ↦ (crashed, db)
    | some after ↦ (answer row, after)
  ]

  unfoldable pub complete_upload : String → ℕ → CompleteBody → Db → Reply DataFile × Db
  complete_upload user now body db =
      if is_incomplete_upload body
      then (refused 400 "Missing fields", db)
      else store_data_file (uploaded_row user now body) db

  unfoldable pub get_data_file : String → Option String → Db → Reply Download
  get_data_file user id db = elim (get_handler data_file_columns rows_db shares_db user id db) [
    | refused status message ↦ refused status message
    | crashed ↦ crashed
    | answer row ↦ answer (record { row = row; download_url = presign "GET" row.s3_key })
  ]

  -- With the key of the object that is removed from the store, if any.
  unfoldable pub remove_data_file :
      String → Option String → Db → Reply (Unit {0}) × Option String × Db
  remove_data_file user id db = elim (truthy id) [
    | none ↦ (refused 400 "Missing id", none, db)
    | some i ↦
        let (removed, after) = delete_data_file rows_db shares_db i user db in
        elim removed [
          | none ↦ (refused 403 "Not your data file", none, after)
          | some row ↦ (answer tt, some row.s3_key, after)
        ]
  ]

  abbrev pub list_data_files : String → Option String → Db → List DataFile
  list_data_files = list_handler data_file_columns rows_db shares_db

  abbrev pub share_uploaded_file :
      String → Option String → ShareBody → users_db.Table → Db → Reply (Unit {0}) × Db
  share_uploaded_file =
      share_handler data_file_columns rows_db shares_db users_db "Not your data file"
