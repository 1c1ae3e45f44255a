-- ===== src/Api/Results/Visible.antt =====
-- Which results a user can download.
use psae_monorepo.Prelude.{
  String, ◌≡◌, sym, ap, ◌∙◌, inl, inr, some, Option-cases, Bool-cases, ◌==◌, arith,
}
use psae_monorepo.Repositories.Database.{Database}
use psae_monorepo.Repositories.Acl.{Share, same_share, same_id, get_by_id_for_user}
use psae_monorepo.Repositories.Acl.Access.{IsKeyed, MaySee, get_by_id_for_user_iff}
use psae_monorepo.Repositories.Runs.{
  Run, RunFile, RunLog, run_columns, same_file, same_log, RunTables, get_file,
}
use psae_monorepo.Repositories.Runs.Details.{get_file-found}
use psae_monorepo.Api.Submit.{truthy}
use psae_monorepo.Api.Access.{Reply, answer, User, same_user}
use psae_monorepo.Api.Results.{FileDownload, get_run_file, visible_file, download_of}

truthy-eq : {s t : String} → truthy (some s) ≡ some t → s ≡ t
unfolding truthy
truthy-eq {s} {t} e = elim (Bool-cases (s == "")) [
  | inl b ↦ ground (arith)
  | inr b ↦ ground (arith)
]

url_of : String → Reply FileDownload → String
url_of u (answer d) = d.url
url_of u _ = u

module _ (presign : String → String → String) (decode : String → String)
    (runs_db : Database Run (same_id run_columns)) (shares_db : Database Share same_share)
    (files_db : Database RunFile same_file) (logs_db : Database RunLog same_log)
    (users_db : Database User same_user) where
  abbrev Db : Type 0
  Db = RunTables runs_db shares_db files_db logs_db

  -- Whose file a download is.
  pub record IsVisibleFile (user id name : String) (db : Db) (d : FileDownload) : Type 0 where
    pub run : Run
    pub file : RunFile
    pub run_there : runs_db.Has db.access.rows run
    pub run_named : run.id ≡ id
    pub may_see : MaySee run_columns runs_db shares_db db.access user run
    pub file_there : files_db.Has db.files file
    pub of_run : file.run_id ≡ id
    pub file_named : file.name ≡ decode name
    pub signed : d.url ≡ presign "GET" file.s3_key

  -- A user gets a signed URL for a result only if it is that of a file which is stored, under the name
  -- that the request decodes to, for a run that is there and that the user may see.
  pub get_run_file-IsVisibleFile :
      (user id name : String) (db : Db) (d : FileDownload)
      → IsKeyed run_columns runs_db shares_db db.access
      → get_run_file presign decode runs_db shares_db files_db logs_db users_db user
          (some id)
          (some name)
          db
        ≡ answer d
      → IsVisibleFile user id name db d
  unfolding get_run_file visible_file download_of url_of
  get_run_file-IsVisibleFile user id name db d keyed e = elim (Option-cases (truthy (some id))) [
    | inl n ↦ let e' = rw (n, get_run_file) at e in cc
    | inr (i, p) ↦ elim (Option-cases (truthy (some name))) [
      | inl n ↦ let e' = rw (p, n, get_run_file) at e in cc
      | inr (m, q) ↦ visible (truthy-eq p) (truthy-eq q) (rw (p, q, get_run_file) at e)
    ]
  ]
    where
      visible :
          {i m : String}
          → id ≡ i
          → name ≡ m
          → visible_file presign decode runs_db shares_db files_db logs_db users_db user i m db
            ≡ answer d
          → IsVisibleFile user id name db d
      visible {i} {m} same_id same_name e₁ =
          elim (Option-cases (get_by_id_for_user run_columns runs_db shares_db i user db.access)) [
            | inl n ↦ let e' = rw (n, visible_file) at e₁ in cc
            | inr (run, r) ↦
                elim (Option-cases (get_file runs_db shares_db files_db logs_db i (decode m) db)) [
                  | inl n ↦ let e' = rw (r, n, visible_file) at e₁ in cc
                  | inr (file, f) ↦
                      let e₂ = rw (r, f, visible_file) at e₁ in
                      let (there, named, may) =
                        (get_by_id_for_user_iff run_columns runs_db shares_db db.access i user run
                            keyed).0
                          r in
                      let (stored, of_run, file_named) =
                        get_file-found runs_db shares_db files_db logs_db db i (decode m) file f in
                      record {
                        run = run;
                        file = file;
                        run_there = there;
                        run_named = named ∙ sym same_id;
                        may_see = may;
                        file_there = stored;
                        of_run = of_run ∙ sym same_id;
                        file_named = file_named ∙ ap decode (sym same_name);
                        signed = sym (ap (url_of d.url) e₂);
                      }
                ]
          ]
