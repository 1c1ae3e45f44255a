-- ===== src/Api/Callback.antt =====
-- The report of a worker on a run (web_ui/server/api/runs/[id]/index.patch.ts). `expected` is the secret
-- that is configured and `token` the one that the request bears, without its `Bearer` prefix; `uuid`
-- gives the ids of the rows, in the order in which they are inserted at the times of `clock`.
pub mod Effect
use psae_monorepo.Prelude.{
  ℕ, suc, String, Bool, true, false, Option, none, some, List, [], ◌∷◌, if◌then◌else◌, ◌==◌, not,
  get_or, ◌||◌, ◌+◌,
}
use psae_monorepo.Repositories.Database.{Database}
use psae_monorepo.Repositories.Acl.{Share, same_share, same_id, get_by_id}
use psae_monorepo.Api.Submit.{truthy}
use psae_monorepo.Repositories.Runs.{
  RunStatus, Run, RunFile, RunLog, run_columns, same_file, same_log, RunTables, update_status,
  append_file, append_log,
}

-- A missing name or key is the empty text, which the handler does not tell from it.
pub record ReportedFile : Type 0 where
  pub name : String
  pub s3_key : String
  pub block_id : Option String
  pub mime_type : Option String
  pub size_bytes : Option ℕ

pub record ReportedLog : Type 0 where
  pub block_id : Option String
  pub stdout : Option String
  pub stderr : Option String

-- `error` is `none` where it is `null` too.
pub record Report : Type 0 where
  pub status : Option RunStatus
  pub error : Option String
  pub files : List ReportedFile
  pub logs : List ReportedLog

unfoldable pub file_row : String → String → ℕ → ReportedFile → RunFile
file_row uuid run_id now f = record {
  id = uuid;
  run_id = run_id;
  block_id = f.block_id;
  name = f.name;
  mime_type = f.mime_type;
  size_bytes = f.size_bytes;
  s3_key = f.s3_key;
  created_at = now;
}

unfoldable pub log_row : String → String → ℕ → ReportedLog → RunLog
log_row uuid run_id now l = record {
  id = uuid;
  run_id = run_id;
  block_id = l.block_id;
  stdout = l.stdout;
  stderr = l.stderr;
  created_at = now;
}

-- `!file?.name || !file?.s3Key`
unfoldable pub is_incomplete : ReportedFile → Bool
is_incomplete f = f.name == "" || f.s3_key == ""

module _ (uuid : ℕ → String) (clock : ℕ → ℕ) (runs_db : Database Run (same_id run_columns))
    (shares_db : Database Share same_share) (files_db : Database RunFile same_file)
    (logs_db : Database RunLog same_log) where
  -- The tables after some insertions, with their number; `thrown` if one of them failed, which undoes
  -- none of those before it.
  pub data Written : Type 0 where
    written : (count : ℕ) → RunTables runs_db shares_db files_db logs_db → Written
    thrown : RunTables runs_db shares_db files_db logs_db → Written

  pub data Reply : Type 0 where
    refused : (status : ℕ) (message : String) → Reply
    failed : RunTables runs_db shares_db files_db logs_db → Reply
    ok : RunTables runs_db shares_db files_db logs_db → Reply

  unfoldable pub write_files :
      String → List ReportedFile → ℕ → RunTables runs_db shares_db files_db logs_db → Written
  write_files id [] n db = written n db
  write_files id (f ∷ fs) n db = elim (is_incomplete f) [
    | true ↦ write_files id fs n db
    | false ↦
        elim (append_file runs_db shares_db files_db logs_db (uuid n) none
          (file_row (uuid n) id (clock n) f) db) [
            | none ↦ thrown db
            | some (row, db') ↦ write_files id fs (suc n) db'
          ]
  ]

  unfoldable pub write_logs :
      String → List ReportedLog → ℕ → RunTables runs_db shares_db files_db logs_db → Written
  write_logs id [] n db = written n db
  write_logs id (l ∷ ls) n db =
      elim (append_log runs_db shares_db files_db logs_db (uuid n) none
        (log_row (uuid n) id (clock n) l) db) [
          | none ↦ thrown db
          | some (row, db') ↦ write_logs id ls (suc n) db'
        ]

  unfoldable pub write_status :
      String
      → Option RunStatus
      → Option String
      → ℕ
      → RunTables runs_db shares_db files_db logs_db
      → RunTables runs_db shares_db files_db logs_db
  write_status id none error n db = db
  write_status id (some status) error n db =
      (update_status runs_db shares_db files_db logs_db (λ i. clock (n + i)) id status
        (elim error [ none ↦ none | some e ↦ some (some e) ]) db).1

  unfoldable pub write_report :
      String → Report → RunTables runs_db shares_db files_db logs_db → Reply
  write_report id report db = elim (write_files id report.files 0 db) [
    | thrown db₁ ↦ failed db₁
    | written n db₁ ↦ elim (write_logs id report.logs n db₁) [
      | thrown db₂ ↦ failed db₂
      | written k db₂ ↦ ok (write_status id report.status report.error k db₂)
    ]
  ]

  unfoldable pub find_and_write :
      String → Report → RunTables runs_db shares_db files_db logs_db → Reply
  find_and_write id report db = elim (get_by_id run_columns runs_db shares_db id db.access) [
    | none ↦ refused 404 "Run not found"
    | some run ↦ write_report id report db
  ]

  unfoldable pub callback :
      String
      → String
      → Option String
      → Report
      → RunTables runs_db shares_db files_db logs_db
      → Reply
  callback expected token id report db =
      if expected == ""
      then refused 503 "Worker callback secret not configured"
      else if not (token == expected)
      then refused 401 "Unauthorized"
      else (elim (truthy id) [
        | none ↦ refused 400 "Missing id"
        | some i ↦ find_and_write i report db
      ])
