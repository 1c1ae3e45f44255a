-- ===== src/Repositories/Runs/Lifecycle.antt =====
-- The lifecycle of a run: what `updateStatus` stamps.
use psae_monorepo.Prelude.{
  ℕ, String, Bool, true, false, ◌≡◌, refl, sym, ap, subst, inl, inr, Option, none, some, get_or,
  arith, if◌then◌else◌, Option-cases,
}
use psae_monorepo.Repositories.Database.{Database}
use psae_monorepo.Repositories.Acl.{
  Visibility, Share, same_share, same_id, Tables, Permission, has_id, owns, create, share, unshare,
}
use psae_monorepo.Repositories.Acl.Sharing.{share-rows, unshare-rows}
use psae_monorepo.Repositories.Runs.{
  RunStatus, Run, RunFile, RunLog, run_columns, same_file, same_log, is_running, is_finished,
  patch_error, patch_status, RunTables, update_status, set_visibility, append_file, append_log,
}

abbrev IsSome : Option ℕ → Type 0
IsSome o = (t : ℕ) × (o ≡ some t)

-- A running run has its start and a finished run has its end.
pub record IsStamped (r : Run) : Type 0 where
  pub start : r.status ≡ RunStatus.running → IsSome r.started_at
  pub end :
      ¬ (r.status ≡ RunStatus.queued) → ¬ (r.status ≡ RunStatus.running) → IsSome r.finished_at

patch_status-IsStamped :
    (clock : ℕ → ℕ) (status : RunStatus) (error : Option (Option String)) (r : Run)
    → IsStamped (patch_status clock status error r)
unfolding patch_status is_running is_finished patch_error
patch_status-IsStamped clock RunStatus.queued none r = record {
  start = λ e. cc;
  end = λ q n. absurd (q refl);
}
patch_status-IsStamped clock RunStatus.running none r = record {
  start = λ e. (clock 1, refl);
  end = λ q n. absurd (n refl);
}
patch_status-IsStamped clock RunStatus.succeeded none r = record {
  start = λ e. cc;
  end = λ q n. (clock 1, refl);
}
patch_status-IsStamped clock RunStatus.failed none r = record {
  start = λ e. cc;
  end = λ q n. (clock 1, refl);
}
patch_status-IsStamped clock RunStatus.canceled none r = record {
  start = λ e. cc;
  end = λ q n. (clock 1, refl);
}
patch_status-IsStamped clock RunStatus.queued (some x) r = record {
  start = λ e. cc;
  end = λ q n. absurd (q refl);
}
patch_status-IsStamped clock RunStatus.running (some x) r = record {
  start = λ e. (clock 1, refl);
  end = λ q n. absurd (n refl);
}
patch_status-IsStamped clock RunStatus.succeeded (some x) r = record {
  start = λ e. cc;
  end = λ q n. (clock 1, refl);
}
patch_status-IsStamped clock RunStatus.failed (some x) r = record {
  start = λ e. cc;
  end = λ q n. (clock 1, refl);
}
patch_status-IsStamped clock RunStatus.canceled (some x) r = record {
  start = λ e. cc;
  end = λ q n. (clock 1, refl);
}

module _ (runs_db : Database Run (same_id run_columns)) (shares_db : Database Share same_share)
    (files_db : Database RunFile same_file) (logs_db : Database RunLog same_log) where
  abbrev Db : Type 0
  Db = RunTables runs_db shares_db files_db logs_db

  -- The writes of the repository, each with what its callers pass: a new run is queued.
  pub data Step : Db → Db → Type 0 where
    created :
        {db : Db} (input : Run) {access : Tables run_columns runs_db shares_db}
        → input.status ≡ RunStatus.queued
        → create run_columns runs_db shares_db input db.access ≡ some access
        → Step db (record db { access = access })
    status_updated :
        {db : Db} (clock : ℕ → ℕ) (id : String) (status : RunStatus)
        (error : Option (Option String))
        → Step db (update_status runs_db shares_db files_db logs_db clock id status error db).1
    visibility_set :
        {db : Db} (clock : ℕ → ℕ) (id owner : String) (v : Visibility)
        → Step db (set_visibility runs_db shares_db files_db logs_db clock id owner v db).1
    shared :
        {db : Db} (id owner user : String) (p : Permission)
        → Step db (record db {
          access = (share run_columns runs_db shares_db id owner user p db.access).1;
        })
    unshared :
        {db : Db} (id owner user : String)
        → Step db (record db {
          access = (unshare run_columns runs_db shares_db id owner user db.access).1;
        })
    file_appended :
        {db db' : Db} (uuid : String) (id : Option String) (input : RunFile) {row : RunFile}
        → append_file runs_db shares_db files_db logs_db uuid id input db ≡ some (row, db')
        → Step db db'
    log_appended :
        {db db' : Db} (uuid : String) (id : Option String) (input : RunLog) {row : RunLog}
        → append_log runs_db shares_db files_db logs_db uuid id input db ≡ some (row, db')
        → Step db db'

  pub data Steps : Db → Db → Type 0 where
    done : {db : Db} → Steps db db
    next : {a b c : Db} → Step a b → Steps b c → Steps a c

  abbrev pub AllStamped : Db → Type 0
  AllStamped db = (r : Run) → runs_db.Has db.access.rows r → IsStamped r

  queued-IsStamped : (r : Run) → r.status ≡ RunStatus.queued → IsStamped r
  queued-IsStamped r e = record { start = λ s. cc; end = λ q n. absurd (q e) }

  create-AllStamped :
      (db : Db) (input : Run) (access : Tables run_columns runs_db shares_db)
      → input.status ≡ RunStatus.queued
      → create run_columns runs_db shares_db input db.access ≡ some access
      → AllStamped db
      → AllStamped (record db { access = access })
  unfolding create
  create-AllStamped db input access q e all r h =
      elim (Option-cases (runs_db.insert input db.access.rows)) [
        | inl n ↦ absurd (failed n)
        | inr (rows, p) ↦
            elim ((runs_db.insert_iff input r db.access.rows rows p).0 (inserted rows p)) [
              | inl same ↦ subst IsStamped (sym same) (queued-IsStamped input q)
              | inr old ↦ all r old
            ]
      ]
    where
      failed : runs_db.insert input db.access.rows ≡ none → ⊥
      failed n = ground arith

      inserted :
          (rows : runs_db.Table)
          → runs_db.insert input db.access.rows ≡ some rows
          → runs_db.Has rows r
      inserted rows p =
          let same : some (record db.access { rows = rows }) ≡ some access = ground arith in
          subst (λ t. runs_db.Has t.rows r) (sym (ap (λ o. get_or o db.access) same)) h

  update_status-AllStamped :
      (db : Db) (clock : ℕ → ℕ) (id : String) (status : RunStatus) (error : Option (Option String))
      → AllStamped db
      → AllStamped (update_status runs_db shares_db files_db logs_db clock id status error db).1
  unfolding update_status
  update_status-AllStamped db clock id status error all r h =
      let (y, hy, e) =
        (runs_db.update_iff (has_id run_columns runs_db shares_db id)
            (patch_status clock status error) db.access.rows r).0
          h in
      subst IsStamped (sym e) (either y (all y hy) (has_id run_columns runs_db shares_db id y))
    where
      either :
          (y : Run)
          → IsStamped y
          → (b : Bool) → IsStamped (if b then patch_status clock status error y else y)
      either y s true = patch_status-IsStamped clock status error y
      either y s false = s

  set_visibility-AllStamped :
      (db : Db) (clock : ℕ → ℕ) (id owner : String) (v : Visibility)
      → AllStamped db
      → AllStamped (set_visibility runs_db shares_db files_db logs_db clock id owner v db).1
  unfolding set_visibility
  set_visibility-AllStamped db clock id owner v all r h =
      let (y, hy, e) =
        (runs_db.update_iff (owns run_columns runs_db shares_db id owner)
            (λ x. record x { visibility = v; updated_at = clock 0 }) db.access.rows r).0
          h in
      subst IsStamped (sym e) (either y (all y hy) (owns run_columns runs_db shares_db id owner y))
    where
      either :
          (y : Run)
          → IsStamped y
          → (b : Bool)
          → IsStamped (if b then record y { visibility = v; updated_at = clock 0 } else y)
      either y s true = record { start = s.start; end = s.end }
      either y s false = s

  append_file-access :
      (db db' : Db) (uuid : String) (id : Option String) (input row : RunFile)
      → append_file runs_db shares_db files_db logs_db uuid id input db ≡ some (row, db')
      → db.access ≡ db'.access
  unfolding append_file
  append_file-access db db' uuid id input row e =
      elim (Option-cases (files_db.insert (record input { id = get_or id uuid }) db.files)) [
        | inl n ↦ cc
        | inr (files, p) ↦ ap (λ o. access_of o) (rw (p, append_file) at e)
      ]
    where
      access_of : Option (RunFile × Db) → Tables run_columns runs_db shares_db
      access_of none = db.access
      access_of (some (row, t)) = t.access

  append_log-access :
      (db db' : Db) (uuid : String) (id : Option String) (input row : RunLog)
      → append_log runs_db shares_db files_db logs_db uuid id input db ≡ some (row, db')
      → db.access ≡ db'.access
  unfolding append_log
  append_log-access db db' uuid id input row e =
      elim (Option-cases (logs_db.insert (record input { id = get_or id uuid }) db.logs)) [
        | inl n ↦ cc
        | inr (logs, p) ↦ ap (λ o. access_of o) (rw (p, append_log) at e)
      ]
    where
      access_of : Option (RunLog × Db) → Tables run_columns runs_db shares_db
      access_of none = db.access
      access_of (some (row, t)) = t.access

  Step-AllStamped : {db db' : Db} → Step db db' → AllStamped db → AllStamped db'
  Step-AllStamped {db} (created input {access} q e) all = create-AllStamped db input access q e all
  Step-AllStamped {db} (status_updated clock id status error) all =
      update_status-AllStamped db clock id status error all
  Step-AllStamped {db} (visibility_set clock id owner v) all =
      set_visibility-AllStamped db clock id owner v all
  Step-AllStamped {db} (shared id owner user p) all = λ r h. all r (
      subst (λ t. runs_db.Has t r)
        (share-rows run_columns runs_db shares_db db.access id owner user p) h)
  Step-AllStamped {db} (unshared id owner user) all = λ r h. all r (
      subst (λ t. runs_db.Has t r)
        (unshare-rows run_columns runs_db shares_db db.access id owner user) h)
  Step-AllStamped {db} {db'} (file_appended uuid id input {row} e) all = λ r h.
      all r
        (subst (λ t. runs_db.Has t.rows r) (sym (append_file-access db db' uuid id input row e)) h)
  Step-AllStamped {db} {db'} (log_appended uuid id input {row} e) all = λ r h.
      all r
        (subst (λ t. runs_db.Has t.rows r) (sym (append_log-access db db' uuid id input row e)) h)

  -- Whatever sequence of writes the repository has done from a table in which it is so, a run whose
  -- status is `running` has a start time, and one whose status is `succeeded`, `failed` or
  -- `canceled` has an end time.
  pub Steps-AllStamped : {db db' : Db} → Steps db db' → AllStamped db → AllStamped db'
  Steps-AllStamped done all = all
  Steps-AllStamped (next s ss) all = Steps-AllStamped ss (Step-AllStamped s all)
