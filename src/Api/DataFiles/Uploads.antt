-- ===== src/Api/DataFiles/Uploads.antt =====
-- What an upload leads to.
use psae_monorepo.Prelude.{
  ℕ, String, false, ◌≡◌, refl, sym, ap, subst, ◌∙◌, inl, inr, Option, none, some, get_or,
  Option-cases, Bool-cases, arith, ◌==◌,
}
use psae_monorepo.Repositories.Database.{Database}
use psae_monorepo.Repositories.Acl.{Share, same_share, same_id, get_by_id_for_user}
use psae_monorepo.Repositories.Acl.Access.{IsKeyed}
use psae_monorepo.Repositories.Acl.Writes.{create-get_by_id_for_user}
use psae_monorepo.Repositories.DataFiles.{
  DataFile, data_file_columns, DataFileTables, create_data_file,
}
use psae_monorepo.Api.Submit.{truthy}
use psae_monorepo.Api.Access.{Reply, answer, User, same_user, get_handler}
use psae_monorepo.Api.DataFiles.{
  CompleteBody, is_missing, uploaded_row, is_incomplete_upload, store_data_file, complete_upload,
  get_data_file,
}

is_missing-false :
    (field : Option String)
    → is_missing field ≡ false
    → (truthy (some (get_or field "")) ≡ some (get_or field "")) × (field ≡ some (get_or field ""))
unfolding is_missing truthy
is_missing-false none e = cc
is_missing-false (some s) e = elim (Bool-cases (s == "")) [
  | inl t ↦ ground (arith)
  | inr f ↦ (rw f refl, refl)
]

module _ (presign : String → String → String)
    (rows_db : Database DataFile (same_id data_file_columns))
    (shares_db : Database Share same_share) (users_db : Database User same_user) where
  abbrev Db : Type 0
  Db = DataFileTables rows_db shares_db

  -- What the reply and the tables of a completed upload come from.
  pub record IsStored (user : String) (now : ℕ) (body : CompleteBody) (db : Db) (row : DataFile)
      (after : Db) : Type 0 where
    pub complete : is_incomplete_upload presign rows_db shares_db users_db body ≡ false
    pub made : uploaded_row presign rows_db shares_db users_db user now body ≡ row
    pub inserted : create_data_file rows_db shares_db row db ≡ some after

  reply_row : DataFile → Reply DataFile × Db → DataFile
  reply_row row (answer r, db) = r
  reply_row row (_, db) = row

  complete_upload-IsStored :
      (user : String) (now : ℕ) (body : CompleteBody) (db : Db) (row : DataFile) (after : Db)
      → complete_upload presign rows_db shares_db users_db user now body db ≡ (answer row, after)
      → IsStored user now body db row after
  unfolding complete_upload store_data_file reply_row
  complete_upload-IsStored user now body db row after e =
      elim (Bool-cases (is_incomplete_upload presign rows_db shares_db users_db body)) [
        | inl t ↦ let e' = ap (λ x. x.0) (rw (t, complete_upload) at e) in cc
        | inr f ↦
            let e₁ = rw (f, complete_upload) at e in
            elim (Option-cases (create_data_file rows_db shares_db made db)) [
              | inl n ↦ let e' = ap (λ x. x.0) (rw (n, store_data_file) at e₁) in cc
              | inr (t, p) ↦
                  let e₂ = rw (p, store_data_file) at e₁ in
                  let same : made ≡ row = ap (reply_row made) e₂ in
                  record {
                    complete = f;
                    made = same;
                    inserted =
                        subst (λ r. create_data_file rows_db shares_db r db ≡ some after) same
                          (p ∙ ap some (ap (λ x. x.1) e₂));
                  }
            ]
      ]
    where
      made : DataFile
      made = uploaded_row presign rows_db shares_db users_db user now body

  -- A completed upload is the user's, who gets for it a signed URL of whatever key the request has named.
  pub complete_upload-get_data_file :
      (user : String) (now : ℕ) (body : CompleteBody) (db : Db) (row : DataFile) (after : Db)
      → IsKeyed data_file_columns rows_db shares_db db
      → complete_upload presign rows_db shares_db users_db user now body db ≡ (answer row, after)
      → (get_data_file presign rows_db shares_db users_db user (some row.id) after
          ≡ answer (record { row = row; download_url = presign "GET" row.s3_key }))
        × (row.owner_id ≡ user)
        × (body.s3_key ≡ some row.s3_key)
  unfolding get_data_file get_handler uploaded_row is_incomplete_upload
  complete_upload-get_data_file user now body db row after keyed e =
      let s = complete_upload-IsStored user now body db row after e in
      let (_, found, _) =
        create-get_by_id_for_user data_file_columns rows_db shares_db db after row keyed
          s.inserted in
      let named = (is_missing-false body.data_file_id (ground (arith, s.complete))).0 in
      let stored = (is_missing-false body.s3_key (ground (arith, s.complete))).1 in
      let own : user ≡ row.owner_id = ap (λ r. r.owner_id) s.made in
      let id_set : truthy (some row.id) ≡ some row.id =
        subst (λ i. truthy (some i) ≡ some i) (ap (λ r. r.id) s.made) named in
      let seen =
        subst
          (λ u. get_by_id_for_user data_file_columns rows_db shares_db row.id u after ≡ some row)
          (sym own) found in
      (
        rw (id_set, seen, get_data_file, get_handler) refl,
        sym own,
        stored ∙ ap (λ r. some r.s3_key) s.made,
      )
