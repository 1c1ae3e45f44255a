-- ===== src/Api/Pipelines.antt =====
-- The handlers of saved pipelines (web_ui/server/api/pipelines). `parse` and `print` are `YAML.parse` and
-- `YAML.stringify`, for documents of the shape of a pipeline; `uuid` are the UUIDs of short codes.
pub mod Isolation
use psae_monorepo.Prelude.{
  ℕ, String, Bool, true, false, Option, none, some, get_or, List, [], ◌∷◌, if◌then◌else◌, ◌==◌,
  ◌<>◌,
}
use psae_monorepo.Types.{Pipeline}
use psae_monorepo.ShortCodes.{Resolved, resolved, rejected, resolve_short_codes}
use psae_monorepo.Validate.Checks.{ValidationResult, valid, invalid, validate_pipeline, join}
use psae_monorepo.Repositories.Database.{Database}
use psae_monorepo.Repositories.Acl.{Visibility, Share, same_share, same_id}
use psae_monorepo.Repositories.Pipelines.{
  SavedPipeline, PipelinePatch, pipeline_columns, PipelineTables, create_pipeline, update_pipeline,
  delete_pipeline,
}
use psae_monorepo.Api.Submit.{Parsed, malformed, document, truthy}
use psae_monorepo.Api.Access.{
  Reply, refused, crashed, answer, User, same_user, ShareBody, list_handler, get_handler,
  share_handler, unshare_handler,
}

pub record SaveBody : Type 0 where
  pub name : Option String
  pub description : Option String
  pub version : Option String
  pub yaml : Option String
  pub visibility : Option Visibility

-- `a ?? b`
unfoldable pub first_set : Option String → Option String → Option String
first_set none b = b
first_set (some a) b = some a

module _ {A : Type 0} (parse : String → Parsed A) (print : Pipeline A → String) (uuid : ℕ → String)
    (rows_db : Database SavedPipeline (same_id pipeline_columns))
    (shares_db : Database Share same_share) (users_db : Database User same_user) where
  abbrev Db : Type 0
  Db = PipelineTables rows_db shares_db

  -- The row of a saved pipeline; `fresh` is what `v7()` returns.
  unfoldable pub saved_row : String → String → String → ℕ → SaveBody → Pipeline A → SavedPipeline
  saved_row user fresh name now body p = record {
    id = get_or p.id fresh;
    owner_id = user;
    name = name;
    description = first_set body.description p.description;
    version = get_or body.version p.version;
    yaml = print p;
    visibility = get_or body.visibility Visibility.private;
    created_at = now;
    updated_at = now;
  }

  unfoldable pub store_pipeline : SavedPipeline → Db → Reply SavedPipeline × Db
  store_pipeline row db = elim (create_pipeline rows_db shares_db row db) [
    | none ↦ (crashed, db)
    | some after ↦ (answer row, after)
  ]

  unfoldable pub save_checked :
      String → String → String → ℕ → SaveBody → Pipeline A → Db → Reply SavedPipeline × Db
  save_checked user fresh name now body p db = elim (validate_pipeline p none) [
    | invalid errors ↦ (refused 400 ("Pipeline invalid: " <> join "; " errors), db)
    | valid ↦ store_pipeline (saved_row user fresh name now body p) db
  ]

  unfoldable pub save_parsed :
      String → String → String → ℕ → SaveBody → Parsed A → Db → Reply SavedPipeline × Db
  save_parsed user fresh name now body (malformed message) db =
      (refused 400 ("Invalid YAML: " <> message), db)
  save_parsed user fresh name now body (document p) db = elim (resolve_short_codes uuid p) [
    | rejected message ↦ (refused 400 ("Pipeline invalid: " <> message), db)
    | resolved p' ↦ save_checked user fresh name now body p' db
  ]

  unfoldable pub save_pipeline : String → String → ℕ → SaveBody → Db → Reply SavedPipeline × Db
  save_pipeline user fresh now body db = elim (truthy body.yaml) [
    | none ↦ (refused 400 "name and yaml are required", db)
    | some yaml ↦ elim (truthy body.name) [
      | none ↦ (refused 400 "name and yaml are required", db)
      | some name ↦ save_parsed user fresh name now body (parse yaml) db
    ]
  ]

  unfoldable pub edit_reply : Option (Option SavedPipeline × Db) → Db → Reply SavedPipeline × Db
  edit_reply none db = (crashed, db)
  edit_reply (some (none, after)) db = (refused 403 "Not your pipeline", after)
  edit_reply (some (some row, after)) db = (answer row, after)

  -- The body goes to `update` as it is: it can set any column, its id and its owner included.
  unfoldable pub edit_pipeline :
      String → Option String → PipelinePatch → ℕ → Db → Reply SavedPipeline × Db
  edit_pipeline user id body now db = elim (truthy id) [
    | none ↦ (refused 400 "Missing id", db)
    | some i ↦ edit_reply (update_pipeline rows_db shares_db i user body now db) db
  ]

  unfoldable pub remove_pipeline : String → Option String → Db → Reply (Unit {0}) × Db
  remove_pipeline user id db = elim (truthy id) [
    | none ↦ (refused 400 "Missing id", db)
    | some i ↦
        let (done, after) = delete_pipeline rows_db shares_db i user db in
        ((if done then answer tt else refused 403 "Not your pipeline"), after)
  ]

  abbrev pub list_pipelines : String → Option String → Db → List SavedPipeline
  list_pipelines = list_handler pipeline_columns rows_db shares_db

  abbrev pub get_pipeline : String → Option String → Db → Reply SavedPipeline
  get_pipeline = get_handler pipeline_columns rows_db shares_db

  abbrev pub share_saved_pipeline :
      String → Option String → ShareBody → users_db.Table → Db → Reply (Unit {0}) × Db
  share_saved_pipeline =
      share_handler pipeline_columns rows_db shares_db users_db "Not your pipeline"

  abbrev pub unshare_saved_pipeline :
      String → Option String → Option String → Db → Reply (Unit {0}) × Db
  unshare_saved_pipeline = unshare_handler pipeline_columns rows_db shares_db "Not your pipeline"

  -- The requests that a user can make of saved pipelines; `fresh` and `now` are what the handler draws.
  pub data Request : Type 0 where
    save : (fresh : String) (now : ℕ) → SaveBody → Request
    edit : (id : Option String) (now : ℕ) → PipelinePatch → Request
    remove : (id : Option String) → Request
    share : (id : Option String) → ShareBody → Request
    unshare : (id user_id : Option String) → Request
    list : (scope : Option String) → Request
    fetch : (id : Option String) → Request

  -- The tables after a request. Users are written elsewhere.
  unfoldable pub serve : users_db.Table → String → Request → Db → Db
  serve users user (save fresh now body) db = (save_pipeline user fresh now body db).1
  serve users user (edit id now body) db = (edit_pipeline user id body now db).1
  serve users user (remove id) db = (remove_pipeline user id db).1
  serve users user (share id body) db = (share_saved_pipeline user id body users db).1
  serve users user (unshare id user_id) db = (unshare_saved_pipeline user id user_id db).1
  serve users user (list scope) db = db
  serve users user (fetch id) db = db

  -- The requests of several users, in the order in which they are served.
  unfoldable pub serve_all : users_db.Table → List (String × Request) → Db → Db
  serve_all users [] db = db
  serve_all users ((user, r) ∷ rs) db = serve_all users rs (serve users user r db)
