-- ===== src/Repositories/Runs.antt =====
-- The run repository (web_ui/server/db/repositories/runs.ts) and its tables
-- (web_ui/server/db/schema/runs.ts). `clock` gives the times that the `new Date()` of one call read,
-- and `uuid` what its `v7()` returns. The access model is `Acl`, whose definitions follow this file.
pub mod Lifecycle
pub mod Details
use psae_monorepo.Prelude.{
  ℕ, String, Bool, true, false, ◌&&◌, ◌||◌, Option, none, some, List, if◌then◌else◌, ◌==◌, get_or,
}
use psae_monorepo.Repositories.Database.{Database}
use psae_monorepo.Repositories.Acl.{
  Visibility, Share, Columns, same_share, first, same_id, Tables, has_id, owns, get_by_id_for_user,
}

pub data RunStatus : Type 0 where
  queued running succeeded failed canceled : RunStatus

pub record Run : Type 0 where
  pub id : String
  pub pipeline_id : Option String
  pub owner_id : String
  pub name : Option String
  pub yaml : String
  pub status : RunStatus
  pub error : Option String
  pub visibility : Visibility
  pub started_at : Option ℕ
  pub finished_at : Option ℕ
  pub created_at : ℕ
  pub updated_at : ℕ

pub record RunFile : Type 0 where
  pub id : String
  pub run_id : String
  pub block_id : Option String
  pub name : String
  pub mime_type : Option String
  pub size_bytes : Option ℕ
  pub s3_key : String
  pub created_at : ℕ

pub record RunLog : Type 0 where
  pub id : String
  pub run_id : String
  pub block_id : Option String
  pub stdout : Option String
  pub stderr : Option String
  pub created_at : ℕ

pub record RunWithDetails : Type 0 where
  pub run : Run
  pub files : List RunFile
  pub logs : List RunLog

abbrev pub run_columns : Columns Run
run_columns = record { id = λ r. r.id; owner_id = λ r. r.owner_id; visibility = λ r. r.visibility }

abbrev pub same_file : RunFile → RunFile → Bool
same_file f g = f.id == g.id

abbrev pub same_log : RunLog → RunLog → Bool
same_log f g = f.id == g.id

-- `status === "running"`
unfoldable pub is_running : RunStatus → Bool
is_running RunStatus.running = true
is_running _ = false

-- `status === "succeeded" || status === "failed" || status === "canceled"`
unfoldable pub is_finished : RunStatus → Bool
is_finished RunStatus.succeeded = true
is_finished RunStatus.failed = true
is_finished RunStatus.canceled = true
is_finished _ = false

-- `if (opts.error !== undefined) patch.error = opts.error`, where `some none` is `null`.
unfoldable pub patch_error : Option (Option String) → Run → Run
patch_error none r = r
patch_error (some e) r = record r { error = e }

unfoldable pub patch_status : (ℕ → ℕ) → RunStatus → Option (Option String) → Run → Run
patch_status clock status error r =
    let patched = patch_error error (record r { status = status; updated_at = clock 0 }) in
    let started =
      if is_running status then record patched { started_at = some (clock 1) } else patched in
    if is_finished status then record started { finished_at = some (clock 1) } else started

module _ (runs_db : Database Run (same_id run_columns)) (shares_db : Database Share same_share)
    (files_db : Database RunFile same_file) (logs_db : Database RunLog same_log) where
  pub record RunTables : Type 0 where
    pub access : Tables run_columns runs_db shares_db
    pub files : files_db.Table
    pub logs : logs_db.Table

  unfoldable pub update_status :
      (ℕ → ℕ) → String → RunStatus → Option (Option String) → RunTables → Option Run × RunTables
  update_status clock id status error db =
      let (returned, rows) =
        runs_db.update (has_id run_columns runs_db shares_db id) (patch_status clock status error)
          db.access.rows in
      (first returned, record db { access = record db.access { rows = rows } })

  unfoldable pub set_visibility :
      (ℕ → ℕ) → String → String → Visibility → RunTables → Option Run × RunTables
  set_visibility clock id owner visibility db =
      let (returned, rows) =
        runs_db.update (owns run_columns runs_db shares_db id owner)
          (λ r. record r { visibility = visibility; updated_at = clock 0 }) db.access.rows in
      (first returned, record db { access = record db.access { rows = rows } })

  unfoldable pub get_with_details : String → String → RunTables → Option RunWithDetails
  get_with_details id user db =
      elim (get_by_id_for_user run_columns runs_db shares_db id user db.access) [
        | none ↦ none
        | some run ↦ some (record {
          run = run;
          files = files_db.select (λ f. f.run_id == id) db.files;
          logs = logs_db.select (λ l. l.run_id == id) db.logs;
        })
      ]

  unfoldable pub get_file : String → String → RunTables → Option RunFile
  get_file run_id name db =
      first (files_db.select (λ f. f.run_id == run_id && f.name == name) db.files)

  -- `input.id ?? v7()`, then the other columns of the input.
  unfoldable pub append_file :
      String → Option String → RunFile → RunTables → Option (RunFile × RunTables)
  append_file uuid id input db =
      let row = record input { id = get_or id uuid } in
      elim (files_db.insert row db.files) [
        | none ↦ none
        | some files ↦ some (row, record db { files = files })
      ]

  unfoldable pub append_log :
      String → Option String → RunLog → RunTables → Option (RunLog × RunTables)
  append_log uuid id input db =
      let row = record input { id = get_or id uuid } in
      elim (logs_db.insert row db.logs) [
        | none ↦ none
        | some logs ↦ some (row, record db { logs = logs })
      ]
