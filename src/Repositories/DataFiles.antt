-- ===== src/Repositories/DataFiles.antt =====
-- The repository of uploaded data (web_ui/server/db/repositories/dataFiles.ts) and its tables
-- (web_ui/server/db/schema/dataFiles.ts), with the access model of `Acl`. The bytes are elsewhere.
use psae_monorepo.Prelude.{ℕ, String, Bool, ◌≡◌, refl, Option, none, some, List}
use psae_monorepo.Repositories.Database.{Database}
use psae_monorepo.Repositories.Acl.{
  Visibility, Permission, Share, Columns, same_share, same_id, Tables,
}
use psae_monorepo.Repositories.Acl
use psae_monorepo.Repositories.Acl.Access.{IsKeyed, get_by_id_for_user_iff}
use psae_monorepo.Repositories.Acl.Sharing.{IsOwner}
use psae_monorepo.Repositories.Acl.Writes.{delete-hidden, create-get_by_id_for_user}

pub record DataFile : Type 0 where
  pub id : String
  pub owner_id : String
  pub name : String
  pub size_bytes : ℕ
  pub mime_type : String
  pub s3_key : String
  pub visibility : Visibility
  pub created_at : ℕ
  pub updated_at : ℕ

abbrev pub data_file_columns : Columns DataFile
data_file_columns = record {
  id = λ f. f.id;
  owner_id = λ f. f.owner_id;
  visibility = λ f. f.visibility;
}

module _ (rows_db : Database DataFile (same_id data_file_columns))
    (shares_db : Database Share same_share) where
  abbrev pub DataFileTables : Type 0
  DataFileTables = Tables data_file_columns rows_db shares_db

  abbrev pub data_files_owned_by : String → DataFileTables → List DataFile
  data_files_owned_by = Acl.list_owned_by data_file_columns rows_db shares_db

  abbrev pub data_files_shared_with : String → DataFileTables → List DataFile
  data_files_shared_with = Acl.list_shared_with data_file_columns rows_db shares_db

  abbrev pub public_data_files : DataFileTables → List DataFile
  public_data_files = Acl.list_public data_file_columns rows_db shares_db

  abbrev pub get_data_file_for_user : String → String → DataFileTables → Option DataFile
  get_data_file_for_user = Acl.get_by_id_for_user data_file_columns rows_db shares_db

  abbrev pub create_data_file : DataFile → DataFileTables → Option DataFileTables
  create_data_file = Acl.create data_file_columns rows_db shares_db

  abbrev pub delete_data_file : String → String → DataFileTables → Option DataFile × DataFileTables
  delete_data_file = Acl.delete data_file_columns rows_db shares_db

  abbrev pub share_data_file :
      String → String → String → Permission → DataFileTables → Bool × DataFileTables
  share_data_file = Acl.share data_file_columns rows_db shares_db

  -- A data file that `create` has stored can be fetched by its owner until the owner deletes it; then
  -- nobody can fetch it.
  pub create_data_file-delete_data_file :
      (db after : DataFileTables) (file : DataFile)
      → IsKeyed data_file_columns rows_db shares_db db
      → create_data_file file db ≡ some after
      → (get_data_file_for_user file.id file.owner_id after ≡ some file)
        × ((user : String)
            → get_data_file_for_user file.id user (delete_data_file file.id file.owner_id after).1
              ≡ none)
  create_data_file-delete_data_file db after file keyed e =
      let (keyed', found, _) =
        create-get_by_id_for_user data_file_columns rows_db shares_db db after file keyed e in
      (
        found,
        λ user.
            delete-hidden data_file_columns rows_db shares_db after file.id file.owner_id user
              keyed' (there keyed' found),
      )
    where
      there :
          IsKeyed data_file_columns rows_db shares_db after
          → get_data_file_for_user file.id file.owner_id after ≡ some file
          → IsOwner data_file_columns rows_db shares_db after file.id file.owner_id
      there keyed' found =
          let (h, _, _) =
            (get_by_id_for_user_iff data_file_columns rows_db shares_db after file.id file.owner_id
                file keyed').0
              found in
          (file, h, refl, refl)
