-- ===== src/Api/Results.antt =====
-- The handlers of runs and their results (web_ui/server/api/runs/[id]). `presign` is the URL that the
-- object store signs for a method and a key, and `decode` is `decodeURIComponent`.
pub mod Zip
pub mod Visible
use psae_monorepo.Prelude.{
  ℕ, String, Bool, true, false, Option, none, some, get_or, List, [], ◌∷◌, map, if◌then◌else◌, ◌==◌,
}
use psae_monorepo.Repositories.Database.{Database}
use psae_monorepo.Repositories.Acl.{
  Visibility, Share, same_share, same_id, Tables, get_by_id_for_user, is_empty,
}
use psae_monorepo.Repositories.Runs.{
  Run, RunFile, RunLog, RunWithDetails, run_columns, same_file, same_log, RunTables, set_visibility,
  get_with_details, get_file,
}
use psae_monorepo.Api.Submit.{truthy}
use psae_monorepo.Api.Access.{
  Reply, refused, crashed, answer, User, same_user, ShareBody, list_handler, share_handler,
  unshare_handler,
}

pub record FileDownload : Type 0 where
  pub url : String
  pub name : String
  pub mime_type : Option String
  pub size_bytes : Option ℕ

module _ (presign : String → String → String) (decode : String → String)
    (runs_db : Database Run (same_id run_columns)) (shares_db : Database Share same_share)
    (files_db : Database RunFile same_file) (logs_db : Database RunLog same_log)
    (users_db : Database User same_user) where
  abbrev Db : Type 0
  Db = RunTables runs_db shares_db files_db logs_db

  abbrev pub list_runs : String → Option String → Tables run_columns runs_db shares_db → List Run
  list_runs = list_handler run_columns runs_db shares_db

  abbrev pub share_run :
      String
      → Option String
      → ShareBody
      → users_db.Table
      → Tables run_columns runs_db shares_db
      → Reply (Unit {0}) × Tables run_columns runs_db shares_db
  share_run = share_handler run_columns runs_db shares_db users_db "Not your run"

  abbrev pub unshare_run :
      String
      → Option String
      → Option String
      → Tables run_columns runs_db shares_db
      → Reply (Unit {0}) × Tables run_columns runs_db shares_db
  unshare_run = unshare_handler run_columns runs_db shares_db "Not your run"

  unfoldable pub get_run : String → Option String → Db → Reply RunWithDetails
  get_run user id db = elim (truthy id) [
    | none ↦ refused 400 "Missing id"
    | some i ↦ elim (get_with_details runs_db shares_db files_db logs_db i user db) [
      | none ↦ refused 404 "Not found"
      | some run ↦ answer run
    ]
  ]

  unfoldable pub put_run :
      (ℕ → ℕ) → String → Option String → Option Visibility → Db → Reply Run × Db
  put_run clock user id visibility db = elim (truthy id) [
    | none ↦ (refused 400 "Missing id", db)
    | some i ↦ elim visibility [
      | none ↦ (refused 400 "visibility required", db)
      | some v ↦
          let (row, after) = set_visibility runs_db shares_db files_db logs_db clock i user v db in
          ((elim row [ none ↦ refused 403 "Not your run" | some r ↦ answer r ]), after)
    ]
  ]

  -- `redirect` asks for a redirection to the URL in place of the details: the URL is the same.
  unfoldable pub download_of : RunFile → FileDownload
  download_of f = record {
    url = presign "GET" f.s3_key;
    name = f.name;
    mime_type = f.mime_type;
    size_bytes = f.size_bytes;
  }

  unfoldable pub visible_file : String → String → String → Db → Reply FileDownload
  visible_file user id name db =
      elim (get_by_id_for_user run_columns runs_db shares_db id user db.access) [
        | none ↦ refused 404 "Not found"
        | some run ↦ elim (get_file runs_db shares_db files_db logs_db id (decode name) db) [
          | none ↦ refused 404 "File not found"
          | some f ↦ answer (download_of f)
        ]
      ]

  unfoldable pub get_run_file : String → Option String → Option String → Db → Reply FileDownload
  get_run_file user id name db = elim (truthy id) [
    | none ↦ refused 400 "Missing id or name"
    | some i ↦ elim (truthy name) [
      | none ↦ refused 400 "Missing id or name"
      | some n ↦ visible_file user i n db
    ]
  ]
