-- ===== src/Repositories/Runs/Details.antt =====
-- What the detail page of a run shows, and what the worker's uploads add to it.
use psae_monorepo.Prelude.{
  ℕ, String, Bool, true, ◌≡◌, refl, sym, ap, subst, ◌∙◌, ◌↔◌, inl, inr, Option, none, some, get_or,
  List, Memᴰ, arith, if◌then◌else◌, ◌==◌, ◌&&◌, ==_iff, Option-cases,
}
use psae_monorepo.Repositories.Database.{Database}
use psae_monorepo.Repositories.Acl.{Share, same_share, same_id, first, has_id, get_by_id_for_user}
use psae_monorepo.Repositories.Acl.Access.{
  IsKeyed, MaySee, first-mem, first-none, get_by_id_for_user_iff,
}
use psae_monorepo.Repositories.Runs.{
  RunStatus, Run, RunFile, RunLog, RunWithDetails, run_columns, same_file, same_log, RunTables,
  patch_status, update_status, get_with_details, get_file, append_file,
}

module _ (runs_db : Database Run (same_id run_columns)) (shares_db : Database Share same_share)
    (files_db : Database RunFile same_file) (logs_db : Database RunLog same_log) where
  abbrev Db : Type 0
  Db = RunTables runs_db shares_db files_db logs_db

  -- The run of an id, where the user may see it, with exactly the files and the logs that are stored
  -- for it.
  pub record IsShown (db : Db) (id user : String) (d : RunWithDetails) : Type 0 where
    pub stored : runs_db.Has db.access.rows d.run
    pub named : d.run.id ≡ id
    pub visible : MaySee run_columns runs_db shares_db db.access user d.run
    pub files_iff : (f : RunFile) → Memᴰ f d.files ↔ (files_db.Has db.files f × (f.run_id ≡ id))
    pub logs_iff : (l : RunLog) → Memᴰ l d.logs ↔ (logs_db.Has db.logs l × (l.run_id ≡ id))

  details_of : String → Db → Run → RunWithDetails
  details_of id db run = record {
    run = run;
    files = files_db.select (λ f. f.run_id == id) db.files;
    logs = logs_db.select (λ l. l.run_id == id) db.logs;
  }

  details_of-IsShown :
      (db : Db) (id user : String) (run : Run)
      → runs_db.Has db.access.rows run
        × (run.id ≡ id)
        × MaySee run_columns runs_db shares_db db.access user run
      → IsShown db id user (details_of id db run)
  unfolding details_of
  details_of-IsShown db id user run (h, e, may) = record {
    stored = h;
    named = e;
    visible = may;
    files_iff = λ f.
        let s = files_db.select_iff (λ f. f.run_id == id) db.files f in
        (
          λ m. let (k, t) = s.0 m in (k, (==_iff f.run_id id).0 t),
          λ (k, q). s.1 (k, (==_iff f.run_id id).1 q),
        );
    logs_iff = λ l.
        let s = logs_db.select_iff (λ l. l.run_id == id) db.logs l in
        (
          λ m. let (k, t) = s.0 m in (k, (==_iff l.run_id id).0 t),
          λ (k, q). s.1 (k, (==_iff l.run_id id).1 q),
        );
  }

  get_with_details-details_of :
      (db : Db) (id user : String) (run : Run)
      → get_by_id_for_user run_columns runs_db shares_db id user db.access ≡ some run
      → get_with_details runs_db shares_db files_db logs_db id user db ≡ some (details_of id db run)
  unfolding get_with_details details_of
  get_with_details-details_of db id user run p = rw (p, get_with_details) refl

  -- Where ids are unique, what `getWithDetails` returns is a run of that id which is stored and which the
  -- user may see, with exactly the files and the logs that are stored for it; and every such run is
  -- returned.
  pub get_with_details-IsShown :
      (db : Db) (id user : String)
      → IsKeyed run_columns runs_db shares_db db.access
      → ((d : RunWithDetails)
          → get_with_details runs_db shares_db files_db logs_db id user db ≡ some d
          → IsShown db id user d)
        × ((run : Run)
            → runs_db.Has db.access.rows run
            → run.id ≡ id
            → MaySee run_columns runs_db shares_db db.access user run
            → (d : RunWithDetails) × (d.run ≡ run)
              × (get_with_details runs_db shares_db files_db logs_db id user db ≡ some d))
  unfolding get_with_details details_of
  get_with_details-IsShown db id user keyed = (
    λ d e.
        elim (Option-cases (get_by_id_for_user run_columns runs_db shares_db id user db.access)) [
          | inl n ↦ absurd (none-ne-some (rw (n, get_with_details) at e))
          | inr (run, p) ↦
              subst (IsShown db id user)
                (injective (sym (get_with_details-details_of db id user run p) ∙ e))
                (details_of-IsShown db id user run ((found run).0 p))
        ],
    λ run h q may. (
      details_of id db run,
      refl,
      get_with_details-details_of db id user run ((found run).1 (h, q, may)),
    ),
  )
    where
      found :
          (run : Run)
          → (get_by_id_for_user run_columns runs_db shares_db id user db.access ≡ some run) ↔ (
              runs_db.Has db.access.rows run
              × (run.id ≡ id)
              × MaySee run_columns runs_db shares_db db.access user run)
      found run = get_by_id_for_user_iff run_columns runs_db shares_db db.access id user run keyed

      none-ne-some : {d : RunWithDetails} → none ≡ some d → ⊥
      none-ne-some e = cc

      injective : {d e : RunWithDetails} → some d ≡ some e → d ≡ e
      injective e = cc

  -- `updateStatus` changes the run of that id and no other: the rows afterwards are those before it,
  -- the run of that id patched. It returns a row exactly if there is a run of that id.
  pub update_status-effect :
      (clock : ℕ → ℕ) (id : String) (status : RunStatus) (error : Option (Option String)) (db : Db)
      → let out = update_status runs_db shares_db files_db logs_db clock id status error db in
        ((r : Run)
          → runs_db.Has out.1.access.rows r ↔ (
              (y : Run) × runs_db.Has db.access.rows y
              × (r ≡ (if y.id == id then patch_status clock status error y else y))))
        × ((out.0 ≡ none) ↔ ((y : Run) → runs_db.Has db.access.rows y → ¬ (y.id ≡ id)))
        × (out.1.access.shares ≡ db.access.shares)
  unfolding update_status has_id
  update_status-effect clock id status error db = (
    λ r. runs_db.update_iff (λ y. y.id == id) (patch_status clock status error) db.access.rows r,
    (
      λ n y h i. first-none _ n (
          (runs_db.update_returns_iff (λ y. y.id == id) (patch_status clock status error)
              db.access.rows (patch_status clock status error y)).1
            (y, h, (==_iff y.id id).1 i, refl)),
      λ no. elim (Option-cases (first returned)) [
        | inl n ↦ n
        | inr (s, p) ↦
            let (y, h, t, e) =
              (runs_db.update_returns_iff (λ y. y.id == id) (patch_status clock status error)
                  db.access.rows s).0
                (first-mem _ p) in
            absurd (no y h ((==_iff y.id id).0 t))
      ],
    ),
    refl,
  )
    where
      returned : List Run
      returned =
          (runs_db.update (λ y. y.id == id) (patch_status clock status error) db.access.rows).0

  pub get_file-found :
      (db : Db) (run_id name : String) (f : RunFile)
      → get_file runs_db shares_db files_db logs_db run_id name db ≡ some f
      → files_db.Has db.files f × (f.run_id ≡ run_id) × (f.name ≡ name)
  unfolding get_file
  get_file-found db run_id name f e =
      let (h, t) =
        (files_db.select_iff (λ f. f.run_id == run_id && f.name == name) db.files f).0
          (first-mem _ e) in
      let (i, n) = both t in (h, i, n)
    where
      both : (f.run_id == run_id && f.name == name) ≡ true → (f.run_id ≡ run_id) × (f.name ≡ name)
      both t = ground (arith, ==_iff f.run_id run_id, ==_iff f.name name)

  -- A file that the worker has reported can be downloaded under its run and name, if no other file of
  -- the run has that name.
  pub append_file-get_file :
      (uuid : String) (id : Option String) (input row : RunFile) (db db' : Db)
      → append_file runs_db shares_db files_db logs_db uuid id input db ≡ some (row, db')
      → ((f : RunFile)
          → files_db.Has db.files f
          → f.run_id ≡ input.run_id
          → ¬ (f.name ≡ input.name))
      → get_file runs_db shares_db files_db logs_db input.run_id input.name db' ≡ some row
  unfolding append_file get_file
  append_file-get_file uuid id input row db db' e fresh =
      elim (Option-cases (files_db.insert (record input { id = get_or id uuid }) db.files)) [
        | inl n ↦ absurd (failed n)
        | inr (files, p) ↦
            let made = sym (stored files p) ∙ e in
            let row_same : record input { id = get_or id uuid } ≡ row =
              ap (λ o. (either o).0) made in
            let db_same : files ≡ db'.files = ap (λ o. (either o).1.files) made in
            subst (λ t. first (files_db.select wanted t) ≡ some row) db_same
              (only files p ∙ ap some row_same)
      ]
    where
      either : Option (RunFile × Db) → RunFile × Db
      either o = get_or o (row, db')

      wanted : RunFile → Bool
      wanted f = f.run_id == input.run_id && f.name == input.name

      failed : files_db.insert (record input { id = get_or id uuid }) db.files ≡ none → ⊥
      failed n = ground arith

      stored :
          (files : files_db.Table)
          → files_db.insert (record input { id = get_or id uuid }) db.files ≡ some files
          → append_file runs_db shares_db files_db logs_db uuid id input db
            ≡ some (record input { id = get_or id uuid }, record db { files = files })
      stored files p = rw (p, append_file) refl

      wanted_iff :
          (f : RunFile) → (wanted f ≡ true) ↔ ((f.run_id ≡ input.run_id) × (f.name ≡ input.name))
      wanted_iff f = ground (arith, ==_iff f.run_id input.run_id, ==_iff f.name input.name)

      only :
          (files : files_db.Table)
          → files_db.insert (record input { id = get_or id uuid }) db.files ≡ some files
          → first (files_db.select wanted files) ≡ some (record input { id = get_or id uuid })
      only files p = elim (Option-cases (first (files_db.select wanted files))) [
        | inl n ↦ absurd (
            first-none _ n (
              (files_db.select_iff wanted files (record input { id = get_or id uuid })).1 (
                (files_db.insert_iff (record input { id = get_or id uuid })
                      (record input { id = get_or id uuid }) db.files files p).1
                    (inl refl),
                (wanted_iff (record input { id = get_or id uuid })).1 (refl, refl),
              )))
        | inr (f, q) ↦
            let (h, t) = (files_db.select_iff wanted files f).0 (first-mem _ q) in
            let (i, m) = (wanted_iff f).0 t in
            q
            ∙ ap some
                (elim ((files_db.insert_iff (record input { id = get_or id uuid }) f db.files files
                    p).0
                  h) [ inl same ↦ same | inr old ↦ absurd (fresh f old i m) ])
      ]
