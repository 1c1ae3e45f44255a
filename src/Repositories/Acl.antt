-- ===== src/Repositories/Acl.antt =====
-- The access model that the three repositories share: the owner, the users of the share table, and
-- everybody if the row is public. A row and a share table are enough to describe it.
pub mod Access
pub mod Sharing
pub mod Grants
pub mod Deletion
pub mod Writes
pub mod Isolation
use psae_monorepo.Prelude.{
  String, Bool, true, false, not, ◌&&◌, ◌||◌, Option, none, some, List, [], ◌∷◌, if◌then◌else◌,
  ◌==◌, contains, map,
}
use psae_monorepo.Repositories.Database.{Database}

pub data Visibility : Type 0 where
  private shared public : Visibility

pub data Permission : Type 0 where
  view edit : Permission

-- A row of `pipeline_shares`, `data_file_shares` or `run_shares`, whose key is the pair of ids.
pub record Share : Type 0 where
  pub resource_id : String
  pub user_id : String
  pub permission : Permission

unfoldable pub share_of : String → String → Share → Bool
share_of id user s = s.resource_id == id && s.user_id == user

unfoldable pub same_share : Share → Share → Bool
unfolding share_of
same_share s r = share_of r.resource_id r.user_id s

unfoldable pub is_public : Visibility → Bool
is_public Visibility.public = true
is_public _ = false

-- The columns of a row that the access model reads.
pub record Columns (Row : Type 0) : Type 0 where
  pub id : Row → String
  pub owner_id : Row → String
  pub visibility : Row → Visibility

-- `rows[0]`
unfoldable pub first : {A : Type 0} → List A → Option A
first [] = none
first (x ∷ xs) = some x

unfoldable pub is_empty : {A : Type 0} → List A → Bool
is_empty [] = true
is_empty (x ∷ xs) = false

abbrev pub same_id : {Row : Type 0} → Columns Row → Row → Row → Bool
same_id c r s = c.id r == c.id s

module _ {Row : Type 0} (columns : Columns Row) (rows_db : Database Row (same_id columns))
    (shares_db : Database Share same_share) where
  -- The two tables of a repository.
  pub record Tables : Type 0 where
    pub rows : rows_db.Table
    pub shares : shares_db.Table

  unfoldable pub has_id : String → Row → Bool
  has_id id r = columns.id r == id

  unfoldable pub owns : String → String → Row → Bool
  unfolding has_id
  owns id owner r = has_id id r && columns.owner_id r == owner

  unfoldable pub list_owned_by : String → Tables → List Row
  list_owned_by user db = rows_db.select (λ r. columns.owner_id r == user) db.rows

  unfoldable pub list_shared_with : String → Tables → List Row
  list_shared_with user db =
      let ids = map (λ s. s.resource_id) (shares_db.select (λ s. s.user_id == user) db.shares) in
      if is_empty ids then [] else rows_db.select (λ r. contains (columns.id r) ids) db.rows

  unfoldable pub list_public : Tables → List Row
  list_public db = rows_db.select (λ r. is_public (columns.visibility r)) db.rows

  unfoldable pub get_by_id : String → Tables → Option Row
  get_by_id id db = first (rows_db.select (has_id id) db.rows)

  -- The end of `getByIdForUser`, for the row that was found.
  unfoldable pub permit : String → String → Tables → Row → Option Row
  permit id user db row =
      if columns.owner_id row == user || is_public (columns.visibility row)
      then some row
      else (elim (first (shares_db.select (share_of id user) db.shares)) [
        | none ↦ none
        | some share ↦ some row
      ])

  unfoldable pub get_by_id_for_user : String → String → Tables → Option Row
  get_by_id_for_user id user db = elim (get_by_id id db) [
    | none ↦ none
    | some row ↦ permit id user db row
  ]

  unfoldable pub create : Row → Tables → Option Tables
  create input db = elim (rows_db.insert input db.rows) [
    | none ↦ none
    | some rows ↦ some (record db { rows = rows })
  ]

  -- The patch can set the primary key; `none` is the error of the database.
  unfoldable pub update : String → String → (Row → Row) → Tables → Option (Option Row × Tables)
  update id owner patch db = elim (rows_db.rekey (owns id owner) patch db.rows) [
    | none ↦ none
    | some (returned, rows) ↦ some (first returned, record db { rows = rows })
  ]

  -- The share rows of a deleted row go with it, by `onDelete: "cascade"`.
  unfoldable pub delete : String → String → Tables → Option Row × Tables
  delete id owner db =
      let (removed, rows) = rows_db.delete (owns id owner) db.rows in
      let ids = map columns.id removed in
      (
        first removed,
        record {
          rows = rows;
          shares = (shares_db.delete (λ s. contains s.resource_id ids) db.shares).1;
        },
      )

  unfoldable pub share : String → String → String → Permission → Tables → Bool × Tables
  share id owner with_user permission db =
      if is_empty (rows_db.select (owns id owner) db.rows) then (false, db) else (
        true,
        record db {
          shares =
              shares_db.upsert
                (record { resource_id = id; user_id = with_user; permission = permission })
                (λ s. record s { permission = permission }) db.shares;
        },
      )

  unfoldable pub unshare : String → String → String → Tables → Bool × Tables
  unshare id owner user db =
      if is_empty (rows_db.select (owns id owner) db.rows)
      then (false, db)
      else (true, record db { shares = (shares_db.delete (share_of id user) db.shares).1 })
