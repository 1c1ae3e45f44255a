-- ===== src/Api/Submit/Accepted.antt =====
-- Which submissions are accepted, and what they store.
use psae_monorepo.Prelude.{
  ℕ, String, ◌≡◌, refl, sym, ap, subst, ◌∙◌, ◌↔◌, ◌⊎◌, inl, inr, Option, none, some, List,
  Option-cases, ==-cases,
}
use psae_monorepo.Types.{Pipeline}
use psae_monorepo.ShortCodes.{Resolved, resolved, rejected, resolve_short_codes}
use psae_monorepo.Validate.Checks.{ValidationResult, valid, invalid, validate_pipeline}
use psae_monorepo.Validate.Spec.{IsSound}
use psae_monorepo.Validate.Correct.{validate_pipeline_iff}
use psae_monorepo.Repositories.Database.{Database}
use psae_monorepo.Repositories.Acl.{
  Visibility, Share, same_share, same_id, Tables, create, get_by_id_for_user,
}
use psae_monorepo.Repositories.Acl.Access.{IsKeyed}
use psae_monorepo.Repositories.Acl.Writes.{create-get_by_id_for_user}
use psae_monorepo.Repositories.Runs.{RunStatus, Run, run_columns}
use psae_monorepo.Repositories.Pipelines.{
  SavedPipeline, pipeline_columns, PipelineTables, get_pipeline_for_user,
}
use psae_monorepo.Api.Submit.{
  SubmitBody, Parsed, malformed, document, Source, Loaded, unavailable, loaded, Submission, refused,
  accepted, load_source, new_run, store_run, check_and_store, resolve_and_store, submit_source,
  submit, truthy,
}

-- What is read as given is a text that is not empty.
pub truthy_iff :
    (o : Option String) (s : String) → (truthy o ≡ some s) ↔ ((o ≡ some s) × (¬ (s ≡ "")))
unfolding truthy
truthy_iff none s = (λ e. absurd (none-ne-some e), λ (e, _). absurd (none-ne-some e))
  where
    none-ne-some : {t : String} → none ≡ some t → ⊥
    none-ne-some e = cc
truthy_iff (some t) s = elim (==-cases t "") [
  | inl (b, e) ↦
      (λ h. absurd (none-ne-some (rw b at h)), λ (h, ne). absurd (ne (sym (injective h) ∙ e)))
  | inr (b, ne) ↦ (λ h. let h' = rw b at h in (h', λ e. ne (injective h' ∙ e)), λ (h, _). rw b h)
]
  where
    none-ne-some : {u : String} → none ≡ some u → ⊥
    none-ne-some e = cc

    injective : {u v : String} → some u ≡ some v → u ≡ v
    injective e = cc

Loaded-cases :
    (l : Loaded)
    → ((s : Source) × (l ≡ loaded s)) ⊎ ((n : ℕ) × (m : String) × (l ≡ unavailable n m))
Loaded-cases (loaded s) = inl (s, refl)
Loaded-cases (unavailable n m) = inr (n, m, refl)

pub ValidationResult-cases :
    (x : ValidationResult) → (x ≡ valid) ⊎ ((es : List String) × (x ≡ invalid es))
ValidationResult-cases valid = inl refl
ValidationResult-cases (invalid es) = inr (es, refl)

Parsed-cases :
    {A : Type 0} (x : Parsed A)
    → ((p : Pipeline A) × (x ≡ document p)) ⊎ ((m : String) × (x ≡ malformed m))
Parsed-cases (document p) = inl (p, refl)
Parsed-cases (malformed m) = inr (m, refl)

pub Resolved-cases :
    {A : Type 0} (x : Resolved A)
    → ((p : Pipeline A) × (x ≡ resolved p)) ⊎ ((m : String) × (x ≡ rejected m))
Resolved-cases (resolved p) = inl (p, refl)
Resolved-cases (rejected m) = inr (m, refl)

module _ {A : Type 0} (parse : String → Parsed A) (print : Pipeline A → String) (uuid : ℕ → String)
    (pipelines_db : Database SavedPipeline (same_id pipeline_columns))
    (runs_db : Database Run (same_id run_columns)) (shares_db : Database Share same_share) where
  abbrev Runs : Type 0
  Runs = Tables run_columns runs_db shares_db

  -- What an accepted submission has gone through: the text that was loaded is a pipeline, its short codes
  -- were replaced, the result is sound, and a run of it was inserted.
  pub record IsAccepted (user run_uuid : String) (now : ℕ) (body : SubmitBody)
      (pipelines : PipelineTables pipelines_db shares_db) (runs : Runs) (run : Run) (after : Runs)
      : Type 0 where
    pub source : Source
    pub given : Pipeline A
    pub prepared : Pipeline A
    pub source_loaded :
        load_source parse print uuid pipelines_db runs_db shares_db user body pipelines
        ≡ loaded source
    pub given_parsed : parse source.yaml ≡ document given
    pub codes_replaced : resolve_short_codes uuid given ≡ resolved prepared
    pub sound : IsSound prepared.blocks
    pub row :
        new_run parse print uuid pipelines_db runs_db shares_db user run_uuid now source prepared
        ≡ run
    pub inserted : create run_columns runs_db shares_db run runs ≡ some after

  run_of : Run → Submission parse print uuid pipelines_db runs_db shares_db → Run
  run_of row (accepted run after) = run
  run_of row _ = row

  after_of : Runs → Submission parse print uuid pipelines_db runs_db shares_db → Runs
  after_of runs (accepted run after) = after
  after_of runs _ = runs

  store_run_iff :
      (row run : Run) (runs after : Runs)
      → (store_run parse print uuid pipelines_db runs_db shares_db row runs ≡ accepted run after)
        ↔ ((row ≡ run) × (create run_columns runs_db shares_db run runs ≡ some after))
  unfolding store_run run_of after_of
  store_run_iff row run runs after = (
    λ e. elim (Option-cases (create run_columns runs_db shares_db row runs)) [
      | inl n ↦ let e' = rw (n, store_run) at e in cc
      | inr (t, p) ↦
          let e' = rw (p, store_run) at e in
          let same : row ≡ run = ap (run_of row) e' in
          (
            same,
            subst (λ r. create run_columns runs_db shares_db r runs ≡ some after) same
                (p ∙ ap some (ap (after_of runs) e')),
          )
    ],
    λ (same, p).
        let p' =
          subst (λ r. create run_columns runs_db shares_db r runs ≡ some after) (sym same) p in
        subst
          (λ r.
            store_run parse print uuid pipelines_db runs_db shares_db row runs ≡ accepted r after)
          same (rw (p', store_run) refl),
  )

  checked_iff :
      (user run_uuid : String) (now : ℕ) (source : Source) (p : Pipeline A) (runs after : Runs)
      (run : Run)
      → (check_and_store parse print uuid pipelines_db runs_db shares_db user run_uuid now source p
            runs
          ≡ accepted run after)
        ↔ (IsSound p.blocks
            × (new_run parse print uuid pipelines_db runs_db shares_db user run_uuid now source p
                ≡ run)
            × (create run_columns runs_db shares_db run runs ≡ some after))
  unfolding check_and_store
  checked_iff user run_uuid now source p runs after run = (
    λ e. elim (ValidationResult-cases (validate_pipeline p none)) [
      | inl v ↦
          let (same, c) = (store_run_iff row run runs after).0 (rw (v, check_and_store) at e) in
          ((validate_pipeline_iff p).0 v, same, c)
      | inr (es, n) ↦ let e' = rw (n, check_and_store) at e in cc
    ],
    λ (s, same, c).
        let v = (validate_pipeline_iff p).1 s in
        rw (v, check_and_store) ((store_run_iff row run runs after).1 (same, c)),
  )
    where
      row : Run
      row = new_run parse print uuid pipelines_db runs_db shares_db user run_uuid now source p

  -- A submission is accepted, with this run and these tables, exactly if the text it names is loaded,
  -- parses as a pipeline, and is sound once its short codes are replaced, and the run made of it is
  -- inserted.
  pub submit-accepted_iff :
      (user run_uuid : String) (now : ℕ) (body : SubmitBody)
      (pipelines : PipelineTables pipelines_db shares_db) (runs after : Runs) (run : Run)
      → (submit parse print uuid pipelines_db runs_db shares_db user run_uuid now body pipelines
            runs
          ≡ accepted run after)
        ↔ IsAccepted user run_uuid now body pipelines runs run after
  unfolding submit submit_source resolve_and_store
  submit-accepted_iff user run_uuid now body pipelines runs after run = (
    λ e.
        elim (Loaded-cases
          (load_source parse print uuid pipelines_db runs_db shares_db user body pipelines)) [
            | inr (n, m, l) ↦ let e' = rw (l, submit) at e in cc
            | inl (source, l) ↦
                let e₁ = rw (l, submit) at e in
                elim (Parsed-cases (parse source.yaml)) [
                  | inr (m, q) ↦ let e' = rw (q, submit_source) at e₁ in cc
                  | inl (p, q) ↦
                      let e₂ = rw (q, submit_source) at e₁ in
                      elim (Resolved-cases (resolve_short_codes uuid p)) [
                        | inr (m, r) ↦ let e' = rw (r, resolve_and_store) at e₂ in cc
                        | inl (p', r) ↦
                            let (s, same, c) =
                              (checked_iff user run_uuid now source p' runs after run).0
                                (rw (r, resolve_and_store) at e₂) in
                            record {
                              source = source;
                              given = p;
                              prepared = p';
                              source_loaded = l;
                              given_parsed = q;
                              codes_replaced = r;
                              sound = s;
                              row = same;
                              inserted = c;
                            }
                      ]
                ]
          ],
    λ a.
        let stored =
          (checked_iff user run_uuid now a.source a.prepared runs after run).1
            (a.sound, a.row, a.inserted) in
        let l = a.source_loaded in
        let q = a.given_parsed in
        let r = a.codes_replaced in
        rw (l, submit) (rw (q, submit_source) (rw (r, resolve_and_store) stored)),
  )

  -- The run of an accepted submission is queued, private and the user's, who can fetch it; it holds the
  -- text of a sound pipeline; and the other runs are those from before.
  pub submit-run :
      (user run_uuid : String) (now : ℕ) (body : SubmitBody)
      (pipelines : PipelineTables pipelines_db shares_db) (runs after : Runs) (run : Run)
      → IsKeyed run_columns runs_db shares_db runs
      → submit parse print uuid pipelines_db runs_db shares_db user run_uuid now body pipelines runs
        ≡ accepted run after
      → (get_by_id_for_user run_columns runs_db shares_db run.id user after ≡ some run)
        × (run.owner_id ≡ user)
        × (run.status ≡ RunStatus.queued)
        × (run.visibility ≡ Visibility.private)
        × ((p : Pipeline A) × IsSound p.blocks × (run.yaml ≡ print p))
        × ((r : Run) → runs_db.Has after.rows r ↔ ((r ≡ run) ⊎ runs_db.Has runs.rows r))
  unfolding new_run
  submit-run user run_uuid now body pipelines runs after run keyed e =
      let a = (submit-accepted_iff user run_uuid now body pipelines runs after run).0 e in
      let (_, found, others) =
        create-get_by_id_for_user run_columns runs_db shares_db runs after run keyed a.inserted in
      let own : user ≡ run.owner_id = ap (λ r. r.owner_id) a.row in
      (
        subst (λ u. get_by_id_for_user run_columns runs_db shares_db run.id u after ≡ some run)
            (sym own) found,
        sym own,
        sym (ap (λ r. r.status) a.row),
        sym (ap (λ r. r.visibility) a.row),
        (a.prepared, a.sound, sym (ap (λ r. r.yaml) a.row)),
        others,
      )

  -- A submission that names a saved pipeline is refused with 404 if the user cannot fetch that pipeline.
  pub submit-hidden :
      (user run_uuid : String) (now : ℕ) (body : SubmitBody)
      (pipelines : PipelineTables pipelines_db shares_db) (runs : Runs) (id : String)
      → truthy body.pipeline_id ≡ some id
      → get_pipeline_for_user pipelines_db shares_db id user pipelines ≡ none
      → submit parse print uuid pipelines_db runs_db shares_db user run_uuid now body pipelines runs
        ≡ refused 404 "Pipeline not found"
  unfolding submit load_source
  submit-hidden user run_uuid now body pipelines runs id named hidden = rw (loading, submit) refl
    where
      loading :
          load_source parse print uuid pipelines_db runs_db shares_db user body pipelines
          ≡ unavailable 404 "Pipeline not found"
      loading = rw (named, hidden, load_source) refl
