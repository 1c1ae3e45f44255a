-- ===== src/Api/Submit.antt =====
-- The submission of a run (web_ui/server/api/runs/index.post.ts), for a user who is logged in. `parse`
-- and `print` are `YAML.parse` and `YAML.stringify`, for documents of the shape of a pipeline. `uuid` are
-- the UUIDs of the short codes, `run_uuid` is that of the run, and `now` is the time of its insertion.
pub mod Accepted
pub mod Saved
use psae_monorepo.Prelude.{
  ℕ, String, Bool, true, false, Option, none, some, get_or, List, if◌then◌else◌, ◌==◌, ◌<>◌,
}
use psae_monorepo.Types.{Pipeline}
use psae_monorepo.ShortCodes.{Resolved, resolved, rejected, resolve_short_codes}
use psae_monorepo.Validate.Checks.{ValidationResult, valid, invalid, validate_pipeline, join}
use psae_monorepo.Repositories.Database.{Database}
use psae_monorepo.Repositories.Acl.{Visibility, Share, same_share, same_id, Tables, create}
use psae_monorepo.Repositories.Runs.{RunStatus, Run, run_columns}
use psae_monorepo.Repositories.Pipelines.{
  SavedPipeline, pipeline_columns, PipelineTables, get_pipeline_for_user,
}

pub record SubmitBody : Type 0 where
  pub pipeline_id : Option String
  pub yaml : Option String
  pub name : Option String

-- What `YAML.parse` gives: an exception with its message, or a document.
pub data Parsed (A : Type 0) : Type 0 where
  malformed : (message : String) → Parsed A
  document : Pipeline A → Parsed A

-- A field that is not there or is empty does not count.
unfoldable pub truthy : Option String → Option String
truthy none = none
truthy (some s) = if s == "" then none else some s

unfoldable pub or_else : Option String → String → Option String
or_else none s = some s
or_else (some t) s = some t

-- The text whose run is asked for, with its name and the saved pipeline that it comes from.
pub record Source : Type 0 where
  pub yaml : String
  pub name : Option String
  pub pipeline_id : Option String

pub data Loaded : Type 0 where
  unavailable : (status : ℕ) (message : String) → Loaded
  loaded : Source → Loaded

module _ {A : Type 0} (parse : String → Parsed A) (print : Pipeline A → String) (uuid : ℕ → String)
    (pipelines_db : Database SavedPipeline (same_id pipeline_columns))
    (runs_db : Database Run (same_id run_columns)) (shares_db : Database Share same_share) where
  pub data Submission : Type 0 where
    refused : (status : ℕ) (message : String) → Submission
    -- the insertion throws, which is not caught
    conflict : Submission
    accepted : Run → Tables run_columns runs_db shares_db → Submission

  unfoldable pub load_source : String → SubmitBody → PipelineTables pipelines_db shares_db → Loaded
  load_source user body pipelines = elim (truthy body.pipeline_id) [
    | some id ↦ elim (get_pipeline_for_user pipelines_db shares_db id user pipelines) [
      | none ↦ unavailable 404 "Pipeline not found"
      | some p ↦
          loaded
            (record { yaml = p.yaml; name = or_else body.name p.name; pipeline_id = some p.id })
    ]
    | none ↦ elim (truthy body.yaml) [
      | some yaml ↦ loaded (record { yaml = yaml; name = body.name; pipeline_id = none })
      | none ↦ unavailable 400 "pipelineId or yaml is required"
    ]
  ]

  -- The row of the run.
  unfoldable pub new_run : String → String → ℕ → Source → Pipeline A → Run
  new_run user run_uuid now source p = record {
    id = get_or p.id run_uuid;
    pipeline_id = source.pipeline_id;
    owner_id = user;
    name = or_else source.name p.name;
    yaml = print p;
    status = RunStatus.queued;
    error = none;
    visibility = Visibility.private;
    started_at = none;
    finished_at = none;
    created_at = now;
    updated_at = now;
  }

  unfoldable pub store_run : Run → Tables run_columns runs_db shares_db → Submission
  store_run run runs = elim (create run_columns runs_db shares_db run runs) [
    | none ↦ conflict
    | some runs' ↦ accepted run runs'
  ]

  unfoldable pub check_and_store :
      String → String → ℕ → Source → Pipeline A → Tables run_columns runs_db shares_db → Submission
  check_and_store user run_uuid now source p runs = elim (validate_pipeline p none) [
    | invalid errors ↦ refused 400 ("Pipeline invalid: " <> join "; " errors)
    | valid ↦ store_run (new_run user run_uuid now source p) runs
  ]

  unfoldable pub resolve_and_store :
      String → String → ℕ → Source → Pipeline A → Tables run_columns runs_db shares_db → Submission
  resolve_and_store user run_uuid now source p runs = elim (resolve_short_codes uuid p) [
    | rejected message ↦ refused 400 ("Pipeline invalid: " <> message)
    | resolved p' ↦ check_and_store user run_uuid now source p' runs
  ]

  unfoldable pub submit_source :
      String → String → ℕ → Source → Tables run_columns runs_db shares_db → Submission
  submit_source user run_uuid now source runs = elim (parse source.yaml) [
    | malformed message ↦ refused 400 ("Invalid YAML: " <> message)
    | document p ↦ resolve_and_store user run_uuid now source p runs
  ]

  unfoldable pub submit :
      String
      → String
      → ℕ
      → SubmitBody
      → PipelineTables pipelines_db shares_db
      → Tables run_columns runs_db shares_db
      → Submission
  submit user run_uuid now body pipelines runs = elim (load_source user body pipelines) [
    | unavailable status message ↦ refused status message
    | loaded source ↦ submit_source user run_uuid now source runs
  ]
