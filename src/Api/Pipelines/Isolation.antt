-- ===== src/Api/Pipelines/Isolation.antt =====
-- No request of a user changes what others own.
use psae_monorepo.Prelude.{
  ℕ, String, ◌≡◌, refl, sym, ◌∙◌, inl, inr, Option, none, some, List, [], ◌∷◌, All, Option-cases,
}
use psae_monorepo.Types.{Pipeline}
use psae_monorepo.ShortCodes.{resolve_short_codes}
use psae_monorepo.Validate.Checks.{validate_pipeline}
use psae_monorepo.Repositories.Database.{Database}
use psae_monorepo.Repositories.Acl.{Share, same_share, same_id}
use psae_monorepo.Repositories.Acl.Isolation.{
  Keeps, Keeps-refl, Preserves, Keeps-Preserves, delete-Keeps, update-Preserves, create-Keeps,
}
use psae_monorepo.Repositories.Pipelines.{
  SavedPipeline, PipelinePatch, pipeline_columns, PipelineTables, create_pipeline, update_pipeline,
  delete_pipeline, patch_pipeline,
}
use psae_monorepo.Api.Submit.{Parsed, malformed, document, truthy}
use psae_monorepo.Api.Submit.Accepted.{Resolved-cases, ValidationResult-cases}
use psae_monorepo.Api.Access.{User, same_user}
use psae_monorepo.Api.Access.Effect.{share_handler-Keeps, unshare_handler-Keeps}
use psae_monorepo.Api.Pipelines.{
  SaveBody, edit_reply, Request, save, edit, remove, share, unshare, list, fetch, save_pipeline,
  save_parsed, save_checked, store_pipeline, saved_row, edit_pipeline, remove_pipeline, serve,
  serve_all,
}

module _ {A : Type 0} (parse : String → Parsed A) (print : Pipeline A → String) (uuid : ℕ → String)
    (rows_db : Database SavedPipeline (same_id pipeline_columns))
    (shares_db : Database Share same_share) (users_db : Database User same_user) where
  abbrev Db : Type 0
  Db = PipelineTables rows_db shares_db

  abbrev pub KeepsFor : String → Db → Db → Type 0
  KeepsFor = Keeps pipeline_columns rows_db shares_db

  unchanged : (user : String) (db : Db) → KeepsFor user db db
  unchanged = Keeps-refl pipeline_columns rows_db shares_db

  store_pipeline-Keeps :
      (row : SavedPipeline) (db : Db)
      → KeepsFor row.owner_id db
          (store_pipeline parse print uuid rows_db shares_db users_db row db).1
  unfolding store_pipeline
  store_pipeline-Keeps row db = elim (Option-cases (create_pipeline rows_db shares_db row db)) [
    | inl n ↦ rw (n, store_pipeline) (unchanged row.owner_id db)
    | inr (after, e) ↦
        rw (e, store_pipeline) (create-Keeps pipeline_columns rows_db shares_db db after row e)
  ]

  save_parsed-Keeps :
      (user fresh name : String) (now : ℕ) (body : SaveBody) (parsed : Parsed A) (db : Db)
      → KeepsFor user db
          (save_parsed parse print uuid rows_db shares_db users_db user fresh name now body parsed
            db).1
  unfolding save_parsed save_checked saved_row
  save_parsed-Keeps user fresh name now body (malformed message) db = unchanged user db
  save_parsed-Keeps user fresh name now body (document p) db =
      elim (Resolved-cases (resolve_short_codes uuid p)) [
        | inr (m, e) ↦ rw (e, save_parsed) (unchanged user db)
        | inl (p', e) ↦ elim (ValidationResult-cases (validate_pipeline p' none)) [
          | inr (es, v) ↦ rw (e, v, save_parsed, save_checked) (unchanged user db)
          | inl v ↦
              rw (e, v, save_parsed, save_checked)
                (store_pipeline-Keeps
                  (saved_row parse print uuid rows_db shares_db users_db user fresh name now body
                    p')
                  db)
        ]
      ]

  save_pipeline-Keeps :
      (user fresh : String) (now : ℕ) (body : SaveBody) (db : Db)
      → KeepsFor user db
          (save_pipeline parse print uuid rows_db shares_db users_db user fresh now body db).1
  unfolding save_pipeline
  save_pipeline-Keeps user fresh now body db = elim (Option-cases (truthy body.yaml)) [
    | inl n ↦ rw (n, save_pipeline) (unchanged user db)
    | inr (yaml, p) ↦ elim (Option-cases (truthy body.name)) [
      | inl n ↦ rw (p, n, save_pipeline) (unchanged user db)
      | inr (name, q) ↦
          rw (p, q, save_pipeline) (save_parsed-Keeps user fresh name now body (parse yaml) db)
    ]
  ]

  abbrev pub PreservesFor : String → Db → Db → Type 0
  PreservesFor = Preserves pipeline_columns rows_db shares_db

  preserved : (user : String) (db after : Db) → KeepsFor user db after → PreservesFor user db after
  preserved = Keeps-Preserves pipeline_columns rows_db shares_db

  edit_reply-Preserves :
      (user : String) (db : Db) (out : Option (Option SavedPipeline × Db))
      → ((o : Option SavedPipeline × Db) → out ≡ some o → PreservesFor user db o.1)
      → PreservesFor user db (edit_reply parse print uuid rows_db shares_db users_db out db).1
  unfolding edit_reply
  edit_reply-Preserves user db none h = preserved user db db (unchanged user db)
  edit_reply-Preserves user db (some (none, after)) h = h (none, after) refl
  edit_reply-Preserves user db (some (some row, after)) h = h (some row, after) refl

  edit_pipeline-Preserves :
      (user : String) (id : Option String) (body : PipelinePatch) (now : ℕ) (db : Db)
      → PreservesFor user db
          (edit_pipeline parse print uuid rows_db shares_db users_db user id body now db).1
  unfolding edit_pipeline update_pipeline
  edit_pipeline-Preserves user id body now db = elim (Option-cases (truthy id)) [
    | inl n ↦ rw (n, edit_pipeline) (preserved user db db (unchanged user db))
    | inr (i, p) ↦
        rw (p, edit_pipeline)
          (edit_reply-Preserves user db (update_pipeline rows_db shares_db i user body now db) (
            update-Preserves pipeline_columns rows_db shares_db db i user
              (patch_pipeline body now)))
  ]

  remove_pipeline-Keeps :
      (user : String) (id : Option String) (db : Db)
      → KeepsFor user db (remove_pipeline parse print uuid rows_db shares_db users_db user id db).1
  unfolding remove_pipeline delete_pipeline
  remove_pipeline-Keeps user id db = elim (Option-cases (truthy id)) [
    | inl n ↦ rw (n, remove_pipeline) (unchanged user db)
    | inr (i, p) ↦
        rw (p, remove_pipeline) (delete-Keeps pipeline_columns rows_db shares_db db i user)
  ]

  -- Whatever a user requests of the saved pipelines, those of other owners stay as they are, one of another
  -- owner is added only where the user owned a pipeline before, and the entries that share pipelines which
  -- the user does not own stay as they are.
  pub serve-Preserves :
      (users : users_db.Table) (user : String)
      (r : Request parse print uuid rows_db shares_db users_db) (db : Db)
      → PreservesFor user db (serve parse print uuid rows_db shares_db users_db users user r db)
  unfolding serve
  serve-Preserves users user (save fresh now body) db =
      preserved user db _ (save_pipeline-Keeps user fresh now body db)
  serve-Preserves users user (edit id now body) db = edit_pipeline-Preserves user id body now db
  serve-Preserves users user (remove id) db = preserved user db _ (remove_pipeline-Keeps user id db)
  serve-Preserves users user (share id body) db = preserved user db _ (
      share_handler-Keeps pipeline_columns rows_db shares_db users_db "Not your pipeline" user id
        body users db)
  serve-Preserves users user (unshare id user_id) db = preserved user db _ (
      unshare_handler-Keeps pipeline_columns rows_db shares_db "Not your pipeline" user id user_id
        db)
  serve-Preserves users user (list scope) db = preserved user db db (unchanged user db)
  serve-Preserves users user (fetch id) db = preserved user db db (unchanged user db)

  -- Whatever other users request of the saved pipelines, in whatever order, every pipeline of an owner
  -- stays as it is.
  pub serve_all-rows :
      (users : users_db.Table) (owner : String)
      (rs : List (String × Request parse print uuid rows_db shares_db users_db)) (db : Db)
      (p : SavedPipeline)
      → All (λ r. ¬ (r.0 ≡ owner)) rs
      → p.owner_id ≡ owner
      → rows_db.Has db.rows p
      → rows_db.Has (serve_all parse print uuid rows_db shares_db users_db users rs db).rows p
  unfolding serve_all
  serve_all-rows users owner [] db p others o h = h
  serve_all-rows users owner ((user, r) ∷ rs) db p (other, others) o h =
      serve_all-rows users owner rs
        (serve parse print uuid rows_db shares_db users_db users user r db) p others o
        ((serve-Preserves users user r db).rows_kept p (λ e. other (sym e ∙ o)) h)
