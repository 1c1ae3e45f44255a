-- ===== src/Repositories/Pipelines.antt =====
-- The pipeline repository (web_ui/server/db/repositories/pipelines.ts) and its tables
-- (web_ui/server/db/schema/pipelines.ts), with the access model of `Acl`.
use psae_monorepo.Prelude.{
  ℕ, String, Bool, true, false, ◌≡◌, refl, ◌↔◌, inl, inr, Option, none, some, get_or, List,
  Option-cases,
}
use psae_monorepo.Repositories.Database.{Database}
use psae_monorepo.Repositories.Acl.{
  Visibility, Permission, Share, Columns, same_share, same_id, first, is_empty, Tables, owns,
}
use psae_monorepo.Repositories.Acl
use psae_monorepo.Repositories.Acl.Access.{IsKeyed}
use psae_monorepo.Repositories.Acl.Sharing.{IsOwner}
use psae_monorepo.Repositories.Acl.Writes.{update-refused, delete-returns_iff, delete-hidden}

pub record SavedPipeline : Type 0 where
  pub id : String
  pub owner_id : String
  pub name : String
  pub description : Option String
  pub version : String
  pub yaml : String
  pub visibility : Visibility
  pub created_at : ℕ
  pub updated_at : ℕ

abbrev pub pipeline_columns : Columns SavedPipeline
pipeline_columns = record {
  id = λ p. p.id;
  owner_id = λ p. p.owner_id;
  visibility = λ p. p.visibility;
}

-- `Partial<NewPipeline>`: the columns that an update sets. `description` may be set to `null`.
pub record PipelinePatch : Type 0 where
  pub id : Option String
  pub owner_id : Option String
  pub name : Option String
  pub description : Option (Option String)
  pub version : Option String
  pub yaml : Option String
  pub visibility : Option Visibility
  pub created_at : Option ℕ

-- `.set({ ...patch, updatedAt: new Date() })` at the time `now`
unfoldable pub patch_pipeline : PipelinePatch → ℕ → SavedPipeline → SavedPipeline
patch_pipeline patch now p = record {
  id = get_or patch.id p.id;
  owner_id = get_or patch.owner_id p.owner_id;
  name = get_or patch.name p.name;
  description = get_or patch.description p.description;
  version = get_or patch.version p.version;
  yaml = get_or patch.yaml p.yaml;
  visibility = get_or patch.visibility p.visibility;
  created_at = get_or patch.created_at p.created_at;
  updated_at = now;
}

module _ (rows_db : Database SavedPipeline (same_id pipeline_columns))
    (shares_db : Database Share same_share) where
  abbrev pub PipelineTables : Type 0
  PipelineTables = Tables pipeline_columns rows_db shares_db

  abbrev pub pipelines_owned_by : String → PipelineTables → List SavedPipeline
  pipelines_owned_by = Acl.list_owned_by pipeline_columns rows_db shares_db

  abbrev pub pipelines_shared_with : String → PipelineTables → List SavedPipeline
  pipelines_shared_with = Acl.list_shared_with pipeline_columns rows_db shares_db

  abbrev pub public_pipelines : PipelineTables → List SavedPipeline
  public_pipelines = Acl.list_public pipeline_columns rows_db shares_db

  abbrev pub get_pipeline_for_user : String → String → PipelineTables → Option SavedPipeline
  get_pipeline_for_user = Acl.get_by_id_for_user pipeline_columns rows_db shares_db

  abbrev pub create_pipeline : SavedPipeline → PipelineTables → Option PipelineTables
  create_pipeline = Acl.create pipeline_columns rows_db shares_db

  unfoldable pub update_pipeline :
      String
      → String
      → PipelinePatch
      → ℕ
      → PipelineTables
      → Option (Option SavedPipeline × PipelineTables)
  update_pipeline id owner patch now db =
      Acl.update pipeline_columns rows_db shares_db id owner (patch_pipeline patch now) db

  -- `out.length > 0`
  unfoldable pub delete_pipeline : String → String → PipelineTables → Bool × PipelineTables
  delete_pipeline id owner db =
      let (removed, after) = Acl.delete pipeline_columns rows_db shares_db id owner db in
      ((elim removed [ none ↦ false | some row ↦ true ]), after)

  abbrev pub share_pipeline :
      String → String → String → Permission → PipelineTables → Bool × PipelineTables
  share_pipeline = Acl.share pipeline_columns rows_db shares_db

  abbrev pub unshare_pipeline : String → String → String → PipelineTables → Bool × PipelineTables
  unshare_pipeline = Acl.unshare pipeline_columns rows_db shares_db

  -- An `update` by a user who owns no pipeline of that id returns nothing and leaves the rows as they are.
  pub update_pipeline-refused :
      (id owner : String) (patch : PipelinePatch) (now : ℕ) (db : PipelineTables)
      → ¬ IsOwner pipeline_columns rows_db shares_db db id owner
      → (after : PipelineTables) × (update_pipeline id owner patch now db ≡ some (none, after))
        × ((p : SavedPipeline) → rows_db.Has after.rows p ↔ rows_db.Has db.rows p)
  unfolding update_pipeline
  update_pipeline-refused id owner patch now db foreign =
      update-refused pipeline_columns rows_db shares_db db id owner (patch_pipeline patch now)
        foreign

  -- A `delete` by a user who owns a pipeline of that id returns `true`, and then nobody can fetch a
  -- pipeline under that id any more.
  pub delete_pipeline-hidden :
      (id owner : String) (db : PipelineTables)
      → IsKeyed pipeline_columns rows_db shares_db db
      → IsOwner pipeline_columns rows_db shares_db db id owner
      → let out = delete_pipeline id owner db in
        (out.0 ≡ true) × ((user : String) → get_pipeline_for_user id user out.1 ≡ none)
  unfolding delete_pipeline
  delete_pipeline-hidden id owner db keyed o =
      let (returns, _) = delete-returns_iff pipeline_columns rows_db shares_db db id owner in
      elim (Option-cases (Acl.delete pipeline_columns rows_db shares_db id owner db).0) [
        | inl n ↦ absurd (returns.0 n o)
        | inr (p, e) ↦
            rw (e, delete_pipeline)
              (
                refl,
                λ user. delete-hidden pipeline_columns rows_db shares_db db id owner user keyed o,
              )
      ]
