-- ===== src/Tests/RunRows.antt =====
-- One run and its file, before and after reports of the worker.
use psae_monorepo.Prelude.{
  String, inl, ℕ, ◌≡◌, refl, sym, ap, ◌∙◌, none, some, [], ◌∷◌, Memᴰ, ==_iff,
}
use mathlib.Core.List.Memᴰ
use psae_monorepo.Repositories.Database.{Database}
use psae_monorepo.Repositories.Database.InMemory.{in_memory}
use psae_monorepo.Repositories.Acl.{
  Visibility, Share, same_share, same_id, get_by_id_for_user, create, has_id, get_by_id, permit,
  share_of, first, is_public,
}
use psae_monorepo.Repositories.Runs.{
  RunStatus, Run, RunFile, RunLog, RunWithDetails, run_columns, same_file, same_log, RunTables,
  update_status, get_with_details, get_file, append_file,
}
use psae_monorepo.Repositories.Runs.Lifecycle.{Step, Steps, AllStamped, Steps-AllStamped}
use psae_monorepo.Repositories.Runs.Details.{IsShown, get_with_details-IsShown}
use psae_monorepo.Api.Callback.{
  ReportedFile, Report, ok, callback, file_row, is_incomplete, write_files, write_logs,
  write_status, write_report, find_and_write,
}
use psae_monorepo.Api.Submit.{truthy}
use psae_monorepo.Repositories.Acl.Access.{IsKeyed, MaySee}
use psae_monorepo.Api.Callback.Effect.{IsAuthorized, callback-IsAuthorized}

abbrev runs_db : Database Run (same_id run_columns)
runs_db = in_memory (same_id run_columns)

abbrev shares_db : Database Share same_share
shares_db = in_memory same_share

abbrev files_db : Database RunFile same_file
files_db = in_memory same_file

abbrev logs_db : Database RunLog same_log
logs_db = in_memory same_log

abbrev run : Run
run = record {
  id = "r";
  pipeline_id = none;
  owner_id = "ann";
  name = none;
  yaml = "";
  status = RunStatus.queued;
  error = none;
  visibility = Visibility.private;
  started_at = none;
  finished_at = none;
  created_at = 1;
  updated_at = 1;
}

abbrev report : RunFile
report = record {
  id = "f";
  run_id = "r";
  block_id = none;
  name = "report.csv";
  mime_type = none;
  size_bytes = some 12;
  s3_key = "r/report.csv";
  created_at = 2;
}

abbrev other_report : RunFile
other_report = record report { id = "g"; run_id = "s" }

abbrev nothing : RunTables runs_db shares_db files_db logs_db
nothing = record { access = record { rows = []; shares = [] }; files = []; logs = [] }

abbrev before : RunTables runs_db shares_db files_db logs_db
before = record {
  access = record { rows = run ∷ []; shares = [] };
  files = other_report ∷ [];
  logs = [];
}

abbrev after : RunTables runs_db shares_db files_db logs_db
after = record before { files = report ∷ other_report ∷ [] }

abbrev clock : ℕ → ℕ
clock i = 10

run_code : Unit {0}
unfolding append_file get_file get_with_details get_by_id_for_user get_by_id has_id permit share_of
    first is_public create
run_code = tt

append_file_run :
    append_file runs_db shares_db files_db logs_db "f" none report before ≡ some (report, after)
unfolding run_code
append_file_run = refl

other-run :
    (f : RunFile) → Memᴰ f before.files → f.run_id ≡ report.run_id → ¬ (f.name ≡ report.name)
other-run f m e n =
    let t =
      (==_iff other_report.run_id report.run_id).1
        (sym (ap (λ x. x.run_id) (Memᴰ.eq_of_singleton m)) ∙ e) in
    cc

abbrev details : RunWithDetails
details = record { run = run; files = report ∷ []; logs = [] }

details_run : get_with_details runs_db shares_db files_db logs_db "r" "ann" after ≡ some details
unfolding run_code
details_run = refl

after-IsKeyed : IsKeyed run_columns runs_db shares_db after.access
after-IsKeyed r s h k e = Memᴰ.eq_of_singleton h ∙ sym (Memᴰ.eq_of_singleton k)

get_with_details-IsShown_example :
    ((d : RunWithDetails)
      → get_with_details runs_db shares_db files_db logs_db "r" "ann" after ≡ some d
      → IsShown runs_db shares_db files_db logs_db after "r" "ann" d)
    × ((r : Run)
        → Memᴰ r after.access.rows
        → r.id ≡ "r"
        → MaySee run_columns runs_db shares_db after.access "ann" r
        → (d : RunWithDetails) × (d.run ≡ r)
          × (get_with_details runs_db shares_db files_db logs_db "r" "ann" after ≡ some d))
get_with_details-IsShown_example =
    get_with_details-IsShown runs_db shares_db files_db logs_db after "r" "ann" after-IsKeyed

nothing-AllStamped : AllStamped runs_db shares_db files_db logs_db nothing
nothing-AllStamped r h = absurd (Memᴰ.not-nil h)

abbrev queued_only : RunTables runs_db shares_db files_db logs_db
queued_only = record nothing { access = record { rows = run ∷ []; shares = [] } }

create_run_row : create run_columns runs_db shares_db run nothing.access ≡ some queued_only.access
unfolding run_code
create_run_row = refl

worked :
    Steps runs_db shares_db files_db logs_db nothing
      (update_status runs_db shares_db files_db logs_db clock "r" RunStatus.succeeded none
        queued_only).1
worked =
    Steps.next (Step.created run refl create_run_row)
      (Steps.next (Step.status_updated clock "r" RunStatus.succeeded none) Steps.done)

Steps-AllStamped_example :
    AllStamped runs_db shares_db files_db logs_db
      (update_status runs_db shares_db files_db logs_db clock "r" RunStatus.succeeded none
        queued_only).1
Steps-AllStamped_example =
    Steps-AllStamped runs_db shares_db files_db logs_db worked nothing-AllStamped

abbrev named_report : ReportedFile
named_report = record {
  name = "map.tif";
  s3_key = "r/map.tif";
  block_id = none;
  mime_type = none;
  size_bytes = none;
}

abbrev progress : Report
progress = record {
  status = some RunStatus.running;
  error = none;
  files = named_report ∷ record named_report { s3_key = "" } ∷ [];
  logs = [];
}

abbrev new_ids : ℕ → String
new_ids i = "h"

-- The report of a file without a key, which is skipped, and of one with a key.
abbrev files_only : Report
files_only = record progress { status = none }

abbrev reported : RunTables runs_db shares_db files_db logs_db
reported = record before { files = file_row "h" "r" (clock 0) named_report ∷ before.files }

callback_code : Unit {0}
unfolding callback find_and_write write_report write_files write_logs write_status is_incomplete
    truthy file_row append_file get_by_id has_id first
callback_code = tt

callback_run :
    callback new_ids clock runs_db shares_db files_db logs_db "secret" "secret"
      (some "r")
      files_only
      before
    ≡ ok reported
unfolding callback_code
callback_run = refl

callback-IsAuthorized_example :
    IsAuthorized new_ids clock runs_db shares_db files_db logs_db "secret" "secret"
      (some "r")
      before
      reported
callback-IsAuthorized_example =
    callback-IsAuthorized new_ids clock runs_db shares_db files_db logs_db "secret" "secret"
      (some "r") files_only before reported (inl callback_run)

other_of : ¬ (other_report.run_id ≡ "r")
other_of e = let t = (==_iff other_report.run_id "r").1 e in cc
