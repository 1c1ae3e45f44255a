-- ===== src/Api/Access.antt =====
-- The handlers that pipelines, data files and runs have alike: lists, single rows, and sharing
-- (web_ui/server/api/runs, with those of pipelines and data under their own paths).
pub mod Effect
use psae_monorepo.Prelude.{
  String, ℕ, Bool, true, false, Option, none, some, get_or, List, if◌then◌else◌, ◌==◌, ◌||◌,
}
use psae_monorepo.Repositories.Database.{Database}
use psae_monorepo.Repositories.Acl.{
  Permission, Share, Columns, same_share, same_id, Tables, first, list_owned_by, list_shared_with,
  list_public, get_by_id_for_user, share, unshare,
}
use psae_monorepo.Api.Submit.{truthy}

-- What a handler answers: an error that it throws, the failure of a statement, or a value.
pub data Reply (A : Type 0) : Type 0 where
  refused : (status : ℕ) (message : String) → Reply A
  crashed : Reply A
  answer : A → Reply A

-- The columns of a user that the handlers read.
pub record User : Type 0 where
  pub id : String
  pub email : String
  pub role : String

abbrev pub same_user : User → User → Bool
same_user u v = u.id == v.id

pub record ShareBody : Type 0 where
  pub email : Option String
  pub permission : Option Permission

module _ {Row : Type 0} (columns : Columns Row) (rows_db : Database Row (same_id columns))
    (shares_db : Database Share same_share) where
  abbrev Db : Type 0
  Db = Tables columns rows_db shares_db

  -- `scope` is the query parameter.
  unfoldable pub list_handler : String → Option String → Db → List Row
  list_handler user scope db =
      let s = get_or scope "mine" in
      if s == "shared"
      then list_shared_with columns rows_db shares_db user db
      else if s == "public"
      then list_public columns rows_db shares_db db
      else list_owned_by columns rows_db shares_db user db

  unfoldable pub get_handler : String → Option String → Db → Reply Row
  get_handler user id db = elim (truthy id) [
    | none ↦ refused 400 "Missing id"
    | some i ↦ elim (get_by_id_for_user columns rows_db shares_db i user db) [
      | none ↦ refused 404 "Not found"
      | some row ↦ answer row
    ]
  ]

  -- `if (!ok) throw …; return { ok: true }`
  unfoldable pub confirm : String → Bool × Db → Reply (Unit {0}) × Db
  confirm message (done, db) = if done then (answer tt, db) else (refused 403 message, db)

  module _ (users_db : Database User same_user) where
    unfoldable pub find_target : String → users_db.Table → Option User
    find_target email users = first (users_db.select (λ u. u.email == email) users)

    unfoldable pub share_with :
        String
        → String
        → String
        → Option Permission
        → String
        → users_db.Table
        → Db
        → Reply (Unit {0}) × Db
    share_with message user id permission email users db = elim (find_target email users) [
      | none ↦ (refused 404 "No user with that email", db)
      | some target ↦
          confirm message (
            share columns rows_db shares_db id user target.id (get_or permission Permission.view)
              db)
    ]

    unfoldable pub share_handler :
        String → String → Option String → ShareBody → users_db.Table → Db → Reply (Unit {0}) × Db
    share_handler message user id body users db = elim (truthy id) [
      | none ↦ (refused 400 "Missing id", db)
      | some i ↦ elim (truthy body.email) [
        | none ↦ (refused 400 "email required", db)
        | some email ↦ share_with message user i body.permission email users db
      ]
    ]

  -- `user_id` is the query parameter.
  unfoldable pub unshare_handler :
      String → String → Option String → Option String → Db → Reply (Unit {0}) × Db
  unshare_handler message user id user_id db = elim (truthy id) [
    | none ↦ (refused 400 "Missing id", db)
    | some i ↦ elim (truthy user_id) [
      | none ↦ (refused 400 "userId query param required", db)
      | some target ↦ confirm message (unshare columns rows_db shares_db i user target db)
    ]
  ]
