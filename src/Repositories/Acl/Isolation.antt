-- ===== src/Repositories/Acl/Isolation.antt =====
-- What a user's writes leave alone: the rows of other owners and the entries that share them.
use psae_monorepo.Prelude.{
  String, ◌≡◌, refl, sym, ap, subst, ◌↔◌, ◌⊎◌, inl, inr, Option, some, get_or, if◌then◌else◌,
  Bool-cases, Option-cases,
}
use psae_monorepo.Repositories.Database.{Database}
use psae_monorepo.Repositories.Acl.{
  Permission, Share, Columns, same_share, same_id, Tables, owns, create, update, delete, share,
  unshare,
}
use psae_monorepo.Repositories.Acl.Access.{share_of_iff}
use psae_monorepo.Repositories.Acl.Sharing.{owns_iff, IsOwner, share_iff, unshare_iff}
use psae_monorepo.Repositories.Acl.Deletion.{delete-effect}
use psae_monorepo.Repositories.Acl.Writes.{update-IsUpdated}

module _ {Row : Type 0} (columns : Columns Row) (rows_db : Database Row (same_id columns))
    (shares_db : Database Share same_share) where
  abbrev Db : Type 0
  Db = Tables columns rows_db shares_db

  -- The tables `after` hold the same rows of other owners as `db`, and the same entries for resources
  -- that the user does not own.
  pub record Keeps (user : String) (db after : Db) : Type 0 where
    pub rows_kept :
        (r : Row) → ¬ (columns.owner_id r ≡ user) → rows_db.Has after.rows r ↔ rows_db.Has db.rows r
    pub shares_kept :
        (s : Share)
        → ¬ IsOwner columns rows_db shares_db db s.resource_id user
        → shares_db.Has after.shares s ↔ shares_db.Has db.shares s

  pub Keeps-refl : (user : String) (db : Db) → Keeps user db db
  Keeps-refl user db = record {
    rows_kept = λ r n. (λ h. h, λ h. h);
    shares_kept = λ s n. (λ h. h, λ h. h);
  }

  same_rows :
      (user : String) (db after : Db)
      → after.rows ≡ db.rows
      → (r : Row) → ¬ (columns.owner_id r ≡ user)
      → rows_db.Has after.rows r ↔ rows_db.Has db.rows r
  same_rows user db after e r n =
      subst (λ t. rows_db.Has t r ↔ rows_db.Has db.rows r) (sym e) (λ h. h, λ h. h)

  pub share-Keeps :
      (db : Db) (id user target : String) (p : Permission)
      → Keeps user db (share columns rows_db shares_db id user target p db).1
  share-Keeps db id user target p =
      let (_, rows, shares) = share_iff columns rows_db shares_db db id user target p in
      record {
        rows_kept = same_rows user db (share columns rows_db shares_db id user target p db).1 rows;
        shares_kept = λ s n. (
          λ h. elim ((shares s).0 h) [
            | inl (o, e) ↦ absurd (
                n (
                  subst (λ i. IsOwner columns rows_db shares_db db i user)
                    (sym (ap (λ x. x.resource_id) e)) o))
            | inr (k, _) ↦ k
          ],
          λ h. (shares s).1 (
              inr (
                h,
                λ (o, t). n (
                    subst (λ i. IsOwner columns rows_db shares_db db i user)
                      (sym ((share_of_iff id target s).0 t).0) o),
              )),
        );
      }

  pub unshare-Keeps :
      (db : Db) (id user target : String)
      → Keeps user db (unshare columns rows_db shares_db id user target db).1
  unshare-Keeps db id user target =
      let (_, rows, shares) = unshare_iff columns rows_db shares_db db id user target in
      record {
        rows_kept = same_rows user db (unshare columns rows_db shares_db id user target db).1 rows;
        shares_kept = λ s n. (
          λ h. ((shares s).0 h).0,
          λ h. (shares s).1 (
            h,
            λ (o, t). n (
                subst (λ i. IsOwner columns rows_db shares_db db i user)
                  (sym ((share_of_iff id target s).0 t).0) o),
          ),
        );
      }

  pub delete-Keeps :
      (db : Db) (id user : String) → Keeps user db (delete columns rows_db shares_db id user db).1
  delete-Keeps db id user =
      let (rows, shares) = delete-effect columns rows_db shares_db db id user in
      record {
        rows_kept = λ r n. (λ h. ((rows r).0 h).0, λ h. (rows r).1 (h, λ (_, o). n o));
        shares_kept = λ s n. (
          λ h. ((shares s).0 h).0,
          λ h.
              (shares s).1 (
                h,
                λ (e, o). n (subst (λ i. IsOwner columns rows_db shares_db db i user) (sym e) o),
              ),
        );
      }

  -- The tables `after` hold every row of other owners that `db` holds; a row of another owner is new only
  -- where the user owned one; and the entries for resources that the user does not own are the same.
  pub record Preserves (user : String) (db after : Db) : Type 0 where
    pub rows_kept :
        (r : Row) → ¬ (columns.owner_id r ≡ user) → rows_db.Has db.rows r → rows_db.Has after.rows r
    pub rows_from :
        (r : Row)
        → ¬ (columns.owner_id r ≡ user)
        → rows_db.Has after.rows r
        → rows_db.Has db.rows r ⊎ ((y : Row) × rows_db.Has db.rows y × (columns.owner_id y ≡ user))
    pub shares_kept :
        (s : Share)
        → ¬ IsOwner columns rows_db shares_db db s.resource_id user
        → shares_db.Has after.shares s ↔ shares_db.Has db.shares s

  pub Keeps-Preserves :
      (user : String) (db after : Db) → Keeps user db after → Preserves user db after
  Keeps-Preserves user db after k = record {
    rows_kept = λ r n. (k.rows_kept r n).1;
    rows_from = λ r n h. inl ((k.rows_kept r n).0 h);
    shares_kept = k.shares_kept;
  }

  pub update-Preserves :
      (db : Db) (id user : String) (patch : Row → Row) (out : Option Row × Db)
      → update columns rows_db shares_db id user patch db ≡ some out
      → Preserves user db out.1
  update-Preserves db id user patch out e =
      let u = update-IsUpdated columns rows_db shares_db db id user patch out e in
      record {
        rows_kept = λ r n h. (u.rows_iff r).1 (r, h, sym (kept r n));
        rows_from = λ r n h. let (y, hy, q) = (u.rows_iff r).0 h in from y hy r q;
        shares_kept = λ s n.
            subst (λ t. shares_db.Has t s ↔ shares_db.Has db.shares s) (sym u.shares_same)
              (λ h. h, λ h. h);
      }
    where
      kept :
          (y : Row)
          → ¬ (columns.owner_id y ≡ user)
          → (if owns columns rows_db shares_db id user y then patch y else y) ≡ y
      kept y other = elim (Bool-cases (owns columns rows_db shares_db id user y)) [
        | inl t ↦ absurd (other ((owns_iff columns rows_db shares_db id user y).0 t).1)
        | inr f ↦ rw f refl
      ]

      from :
          (y : Row)
          → rows_db.Has db.rows y
          → (r : Row) → r ≡ (if owns columns rows_db shares_db id user y then patch y else y)
          → rows_db.Has db.rows r
            ⊎ ((z : Row) × rows_db.Has db.rows z × (columns.owner_id z ≡ user))
      from y hy r q = elim (Bool-cases (owns columns rows_db shares_db id user y)) [
        | inl t ↦ inr (y, hy, ((owns_iff columns rows_db shares_db id user y).0 t).1)
        | inr f ↦ inl (subst (rows_db.Has db.rows) (sym (rw f at q)) hy)
      ]

  pub create-Keeps :
      (db after : Db) (row : Row)
      → create columns rows_db shares_db row db ≡ some after
      → Keeps (columns.owner_id row) db after
  unfolding create
  create-Keeps db after row e = elim (Option-cases (rows_db.insert row db.rows)) [
    | inl n ↦ let e' = rw (n, create) at e in cc
    | inr (rows, p) ↦
        let same : record db { rows = rows } ≡ after =
          ap (λ o. get_or o db) (rw (p, create) at e) in
        subst (Keeps (columns.owner_id row) db) same (record {
          rows_kept = λ r n.
              let there = rows_db.insert_iff row r db.rows rows p in
              (
                λ h. elim (there.0 h) [ inl q ↦ absurd (n (ap columns.owner_id q)) | inr k ↦ k ],
                λ h. there.1 (inr h),
              );
          shares_kept = λ s n. (λ h. h, λ h. h);
        })
  ]
