-- ===== src/Api/Callback/Effect.antt =====
-- Who can report on a run, and what a report leaves alone.
use psae_monorepo.Prelude.{
  ℕ, suc, String, ◌≡◌, refl, sym, ◌∙◌, ==-cases, ap, subst, ◌↔◌, ◌⊎◌, inl, inr, Option, none, some,
  get_or, List, [], ◌∷◌, ◌==◌, ==_iff, Option-cases, Bool-cases,
}
use psae_monorepo.Repositories.Database.{Database}
use psae_monorepo.Repositories.Acl.{Share, same_share, same_id, get_by_id, has_id}
use psae_monorepo.Repositories.Acl.Access.{first-mem}
use psae_monorepo.Api.Submit.{truthy}
use psae_monorepo.Api.Submit.Accepted.{truthy_iff}
use psae_monorepo.Repositories.Runs.{
  Run, RunFile, RunLog, RunStatus, run_columns, same_file, same_log, RunTables, append_file,
  append_log, update_status,
}
use psae_monorepo.Api.Callback.{
  ReportedFile, Report, file_row, is_incomplete, Written, written, thrown, Reply, refused, failed,
  ok, write_files, write_logs, write_status, write_report, find_and_write, callback, ReportedLog,
  log_row,
}

module _ (uuid : ℕ → String) (clock : ℕ → ℕ) (runs_db : Database Run (same_id run_columns))
    (shares_db : Database Share same_share) (files_db : Database RunFile same_file)
    (logs_db : Database RunLog same_log) where
  abbrev pub tables_of :
      Written uuid clock runs_db shares_db files_db logs_db
      → RunTables runs_db shares_db files_db logs_db
  tables_of (written n db) = db
  tables_of (thrown db) = db

  append_file-files :
      (new : String) (input row f : RunFile) (db db' : RunTables runs_db shares_db files_db logs_db)
      → append_file runs_db shares_db files_db logs_db new none input db ≡ some (row, db')
      → ¬ (f.run_id ≡ input.run_id)
      → files_db.Has db'.files f ↔ files_db.Has db.files f
  unfolding append_file
  append_file-files new input row f db db' e other =
      elim (Option-cases (files_db.insert (record input { id = new }) db.files)) [
        | inl n ↦ let e' = rw (n, append_file) at e in cc
        | inr (files, p) ↦
            let same : files ≡ db'.files =
              ap (λ o. (either o).1.files) (rw (p, append_file) at e) in
            let there = files_db.insert_iff (record input { id = new }) f db.files files p in
            subst (λ t. files_db.Has t f ↔ files_db.Has db.files f) same
              (
                λ h. elim (there.0 h) [ inl q ↦ absurd (other (ap (λ x. x.run_id) q)) | inr k ↦ k ],
                λ h. there.1 (inr h),
              )
      ]
    where
      either :
          Option (RunFile × RunTables runs_db shares_db files_db logs_db)
          → RunFile × RunTables runs_db shares_db files_db logs_db
      either o = get_or o (row, db)

  -- Whether or not an insertion fails, the files that a report adds are files of its run: those of every
  -- other run are the ones from before.
  pub write_files-others :
      (id : String) (fs : List ReportedFile) (n : ℕ)
      (db : RunTables runs_db shares_db files_db logs_db) (f : RunFile)
      → ¬ (f.run_id ≡ id)
      → files_db.Has
          (tables_of (write_files uuid clock runs_db shares_db files_db logs_db id fs n db)).files
          f
        ↔ files_db.Has db.files f
  unfolding write_files file_row
  write_files-others id [] n db f other = (λ h. h, λ h. h)
  write_files-others id (r ∷ fs) n db f other = elim (Bool-cases (is_incomplete r)) [
    | inl skip ↦ rw (skip, write_files) (write_files-others id fs n db f other)
    | inr complete ↦
        elim (Option-cases (
          append_file runs_db shares_db files_db logs_db (uuid n) none
            (file_row (uuid n) id (clock n) r) db)) [
              | inl e ↦ rw (complete, e, write_files) (λ h. h, λ h. h)
              | inr ((row, db'), e) ↦
                  let here =
                    append_file-files (uuid n) (file_row (uuid n) id (clock n) r) row f db db' e
                      other in
                  let rest = write_files-others id fs (suc n) db' f other in
                  rw (complete, e, write_files) (λ h. here.0 (rest.0 h), λ h. rest.1 (here.1 h))
            ]
  ]

  write_logs-files :
      (id : String) (ls : List ReportedLog) (n : ℕ)
      (db : RunTables runs_db shares_db files_db logs_db)
      → (tables_of (write_logs uuid clock runs_db shares_db files_db logs_db id ls n db)).files
        ≡ db.files
  unfolding write_logs append_log log_row
  write_logs-files id [] n db = refl
  write_logs-files id (l ∷ ls) n db =
      elim (Option-cases (logs_db.insert (log_row (uuid n) id (clock n) l) db.logs)) [
        | inl e ↦ rw (e, write_logs, append_log, log_row) refl
        | inr (logs, e) ↦
            rw (e, write_logs, append_log, log_row)
              (write_logs-files id ls (suc n) (record db { logs = logs }))
      ]

  write_status-files :
      (id : String) (status : Option RunStatus) (error : Option String) (n : ℕ)
      (db : RunTables runs_db shares_db files_db logs_db)
      → (write_status uuid clock runs_db shares_db files_db logs_db id status error n db).files
        ≡ db.files
  unfolding write_status update_status
  write_status-files id none error n db = refl
  write_status-files id (some status) error n db = refl

  Written-cases :
      (w : Written uuid clock runs_db shares_db files_db logs_db)
      → ((n : ℕ) × (w ≡ written n (tables_of w))) ⊎ (w ≡ thrown (tables_of w))
  Written-cases (written n db) = inl (n, refl)
  Written-cases (thrown db) = inr refl

  -- The tables after a report that was not refused.
  abbrev Ends :
      Reply uuid clock runs_db shares_db files_db logs_db
      → RunTables runs_db shares_db files_db logs_db
      → Type 0
  Ends (refused status message) after = ⊥
  Ends (failed db) after = db ≡ after
  Ends (ok db) after = db ≡ after

  -- The files of other runs are those from before.
  abbrev pub KeepsOtherFiles :
      String
      → RunTables runs_db shares_db files_db logs_db
      → RunTables runs_db shares_db files_db logs_db
      → Type 0
  KeepsOtherFiles id db after =
      (f : RunFile) → ¬ (f.run_id ≡ id) → files_db.Has after.files f ↔ files_db.Has db.files f

  write_report-KeepsOtherFiles :
      (id : String) (report : Report) (db after : RunTables runs_db shares_db files_db logs_db)
      → Ends (write_report uuid clock runs_db shares_db files_db logs_db id report db) after
      → KeepsOtherFiles id db after
  unfolding write_report
  write_report-KeepsOtherFiles id report db after e =
      elim (Written-cases
        (write_files uuid clock runs_db shares_db files_db logs_db id report.files 0 db)) [
          | inr p ↦ let e' = rw (p, write_report) at e in subst (KeepsOtherFiles id db) e' kept
          | inl (n, p) ↦
              let e₁ = rw (p, write_report) at e in
              elim (Written-cases (logged n)) [
                | inr q ↦
                    let e₂ = rw q at e₁ in
                    subst (KeepsOtherFiles id db) e₂ (kept_by (tables_of (logged n)) (same n))
                | inl (k, q) ↦
                    let e₂ = rw q at e₁ in
                    subst (KeepsOtherFiles id db) e₂ (
                      kept_by (updated k (tables_of (logged n))) (
                        write_status-files id report.status report.error k (tables_of (logged n))
                        ∙ same n))
              ]
        ]
    where
      filed : RunTables runs_db shares_db files_db logs_db
      filed =
          tables_of (write_files uuid clock runs_db shares_db files_db logs_db id report.files 0 db)

      logged : ℕ → Written uuid clock runs_db shares_db files_db logs_db
      logged n = write_logs uuid clock runs_db shares_db files_db logs_db id report.logs n filed

      updated :
          ℕ
          → RunTables runs_db shares_db files_db logs_db
          → RunTables runs_db shares_db files_db logs_db
      updated k =
          write_status uuid clock runs_db shares_db files_db logs_db id report.status report.error k

      kept : KeepsOtherFiles id db filed
      kept = write_files-others id report.files 0 db

      same : (n : ℕ) → (tables_of (logged n)).files ≡ filed.files
      same n = write_logs-files id report.logs n filed

      kept_by :
          (t : RunTables runs_db shares_db files_db logs_db)
          → t.files ≡ filed.files
          → KeepsOtherFiles id db t
      kept_by t e f other =
          subst (λ x. files_db.Has x f ↔ files_db.Has db.files f) (sym e) (kept f other)

  -- A report that reaches the tables bears the configured secret and names a run that is there.
  pub record IsAuthorized (expected token : String) (id : Option String)
      (db after : RunTables runs_db shares_db files_db logs_db) : Type 0 where
    pub configured : ¬ (expected ≡ "")
    pub borne : token ≡ expected
    pub run_id : String
    pub named : id ≡ some run_id
    pub not_empty : ¬ (run_id ≡ "")
    pub run : Run
    pub stored : runs_db.Has db.access.rows run
    pub of_id : run.id ≡ run_id
    pub kept : KeepsOtherFiles run_id db after

  callback-Ends :
      (expected token : String) (id : Option String) (report : Report)
      (db after : RunTables runs_db shares_db files_db logs_db)
      → Ends
          (callback uuid clock runs_db shares_db files_db logs_db expected token id report db)
          after
      → IsAuthorized expected token id db after
  unfolding callback find_and_write get_by_id has_id
  callback-Ends expected token id report db after e = elim (==-cases expected "") [
    | inl (b, _) ↦ absurd (rw (b, callback) at e)
    | inr (b, secret) ↦ elim (==-cases token expected) [
      | inr (c, _) ↦ absurd (rw (b, c, callback) at e)
      | inl (c, same) ↦ elim (Option-cases (truthy id)) [
        | inl n ↦ absurd (rw (b, c, n, callback) at e)
        | inr (i, p) ↦ elim (Option-cases (get_by_id run_columns runs_db shares_db i db.access)) [
          | inl n ↦ absurd (rw (b, c, p, n, callback, find_and_write) at e)
          | inr (run, q) ↦
              let (given, filled) = (truthy_iff id i).0 p in
              let (there, t) =
                (runs_db.select_iff (λ r. r.id == i) db.access.rows run).0 (first-mem _ q) in
              record {
                configured = secret;
                borne = same;
                run_id = i;
                named = given;
                not_empty = filled;
                run = run;
                stored = there;
                of_id = (==_iff run.id i).0 t;
                kept =
                    write_report-KeepsOtherFiles i report db after
                      (rw (b, c, p, q, callback, find_and_write) at e);
              }
        ]
      ]
    ]
  ]

  -- A report after which the handler answers, or fails part of the way with what it has written, bears
  -- the secret that is configured and the id of a run that is there; whether or not it fails, the files
  -- of other runs are those from before.
  pub callback-IsAuthorized :
      (expected token : String) (id : Option String) (report : Report)
      (db after : RunTables runs_db shares_db files_db logs_db)
      → (callback uuid clock runs_db shares_db files_db logs_db expected token id report db
          ≡ ok after)
        ⊎ (callback uuid clock runs_db shares_db files_db logs_db expected token id report db
            ≡ failed after)
      → IsAuthorized expected token id db after
  callback-IsAuthorized expected token id report db after e =
      callback-Ends expected token id report db after (elim e [
        | inl p ↦ subst (λ x. Ends x after) (sym p) refl
        | inr p ↦ subst (λ x. Ends x after) (sym p) refl
      ])
