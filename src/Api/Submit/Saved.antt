-- ===== src/Api/Submit/Saved.antt =====
-- The saved pipeline that an accepted submission runs.
use psae_monorepo.Prelude.{ℕ, String, ◌≡◌, sym, ap, ◌∙◌, inl, inr, some, Option-cases}
use psae_monorepo.Types.{Pipeline}
use psae_monorepo.ShortCodes.{resolved, resolve_short_codes}
use psae_monorepo.Validate.Spec.{IsSound}
use psae_monorepo.Repositories.Database.{Database}
use psae_monorepo.Repositories.Acl.{Share, same_share, same_id, Tables}
use psae_monorepo.Repositories.Acl.Access.{IsKeyed, MaySee, get_by_id_for_user_iff}
use psae_monorepo.Repositories.Runs.{Run, run_columns}
use psae_monorepo.Repositories.Pipelines.{
  SavedPipeline, pipeline_columns, PipelineTables, get_pipeline_for_user,
}
use psae_monorepo.Api.Submit.{
  SubmitBody, Parsed, document, Source, loaded, accepted, load_source, new_run, submit, truthy,
}
use psae_monorepo.Api.Submit.Accepted.{truthy_iff, submit-accepted_iff}

module _ {A : Type 0} (parse : String → Parsed A) (print : Pipeline A → String) (uuid : ℕ → String)
    (pipelines_db : Database SavedPipeline (same_id pipeline_columns))
    (runs_db : Database Run (same_id run_columns)) (shares_db : Database Share same_share) where
  abbrev Runs : Type 0
  Runs = Tables run_columns runs_db shares_db

  -- A submission that names a saved pipeline loads the text of one that the user may see.
  load_source-saved :
      (user id : String) (body : SubmitBody) (pipelines : PipelineTables pipelines_db shares_db)
      (source : Source)
      → truthy body.pipeline_id ≡ some id
      → load_source parse print uuid pipelines_db runs_db shares_db user body pipelines
        ≡ loaded source
      → (p : SavedPipeline) × (get_pipeline_for_user pipelines_db shares_db id user pipelines
          ≡ some p)
        × (source.yaml ≡ p.yaml)
        × (source.pipeline_id ≡ some p.id)
  unfolding load_source
  load_source-saved user id body pipelines source named e =
      elim (Option-cases (get_pipeline_for_user pipelines_db shares_db id user pipelines)) [
        | inl n ↦ let e' = rw (named, n, load_source) at e in cc
        | inr (p, q) ↦
            let same = source_same (rw (named, q, load_source) at e) in
            (p, q, sym (ap (λ x. x.yaml) same), sym (ap (λ x. x.pipeline_id) same))
      ]
    where
      source_same : {x y : Source} → loaded x ≡ loaded y → x ≡ y
      source_same q = cc

  -- The saved pipeline of an accepted submission, and what became of its text.
  pub record IsSubmitted (user id : String) (pipelines : PipelineTables pipelines_db shares_db)
      (run : Run) : Type 0 where
    pub saved : SavedPipeline
    pub stored : pipelines_db.Has pipelines.rows saved
    pub of_id : saved.id ≡ id
    pub visible : MaySee pipeline_columns pipelines_db shares_db pipelines user saved
    pub given : Pipeline A
    pub prepared : Pipeline A
    pub given_parsed : parse saved.yaml ≡ document given
    pub codes_replaced : resolve_short_codes uuid given ≡ resolved prepared
    pub sound : IsSound prepared.blocks
    pub yaml_same : run.yaml ≡ print prepared
    pub named : run.pipeline_id ≡ some id

  -- Where ids are unique, an accepted submission that names a saved pipeline by an id, which is not
  -- empty, runs one that is stored under that id and that the user may see: the run names it, and has the
  -- text of the pipeline in it, which parses and is sound once its short codes are replaced.
  pub submit-IsSubmitted :
      (user run_uuid id : String) (now : ℕ) (body : SubmitBody)
      (pipelines : PipelineTables pipelines_db shares_db) (runs after : Runs) (run : Run)
      → IsKeyed pipeline_columns pipelines_db shares_db pipelines
      → body.pipeline_id ≡ some id
      → ¬ (id ≡ "")
      → submit parse print uuid pipelines_db runs_db shares_db user run_uuid now body pipelines runs
        ≡ accepted run after
      → IsSubmitted user id pipelines run
  unfolding new_run
  submit-IsSubmitted user run_uuid id now body pipelines runs after run keyed named filled e =
      let a =
        (submit-accepted_iff parse print uuid pipelines_db runs_db shares_db user run_uuid now body
            pipelines runs after run).0
          e in
      let (p, found, yaml, from) =
        load_source-saved user id body pipelines a.source
          ((truthy_iff body.pipeline_id id).1 (named, filled)) a.source_loaded in
      let (there, of_id, may) =
        (get_by_id_for_user_iff pipeline_columns pipelines_db shares_db pipelines id user p keyed).0
          found in
      record {
        saved = p;
        stored = there;
        of_id = of_id;
        visible = may;
        given = a.given;
        prepared = a.prepared;
        given_parsed = ap parse (sym yaml) ∙ a.given_parsed;
        codes_replaced = a.codes_replaced;
        sound = a.sound;
        yaml_same = sym (ap (λ r. r.yaml) a.row);
        named = sym (ap (λ r. r.pipeline_id) a.row) ∙ from ∙ ap some of_id;
      }
