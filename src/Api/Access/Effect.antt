-- ===== src/Api/Access/Effect.antt =====
-- What the shared handlers leave alone, and when sharing is confirmed.
use psae_monorepo.Prelude.{
  String, Bool, true, false, ◌≡◌, refl, sym, subst, ◌↔◌, inl, inr, Option, none, some, get_or,
  Option-cases, ◌==◌, ==_iff,
}
use psae_monorepo.Repositories.Database.{Database}
use psae_monorepo.Repositories.Acl.{
  Permission, Share, Columns, same_share, same_id, Tables, share, unshare,
}
use psae_monorepo.Repositories.Acl.Sharing.{IsOwner, share_iff}
use psae_monorepo.Repositories.Acl.Isolation.{Keeps, Keeps-refl, share-Keeps, unshare-Keeps}
use psae_monorepo.Repositories.Acl.Access.{first-mem, first-none}
use psae_monorepo.Api.Submit.{truthy}
use psae_monorepo.Api.Submit.Accepted.{truthy_iff}
use psae_monorepo.Api.Access.{
  answer, User, same_user, ShareBody, confirm, find_target, share_with, share_handler,
  unshare_handler,
}

module _ {Row : Type 0} (columns : Columns Row) (rows_db : Database Row (same_id columns))
    (shares_db : Database Share same_share) where
  abbrev Db : Type 0
  Db = Tables columns rows_db shares_db

  confirm-tables :
      (message : String) (out : Bool × Db)
      → (confirm columns rows_db shares_db message out).1 ≡ out.1
  unfolding confirm
  confirm-tables message (true, db) = refl
  confirm-tables message (false, db) = refl

  confirm-answer_iff :
      (message : String) (out : Bool × Db)
      → ((confirm columns rows_db shares_db message out).0 ≡ answer tt) ↔ (out.0 ≡ true)
  unfolding confirm
  confirm-answer_iff message (true, db) = (λ e. refl, λ e. refl)
  confirm-answer_iff message (false, db) = (λ e. cc, λ e. cc)

  abbrev pub KeepsFor : String → Db → Db → Type 0
  KeepsFor = Keeps columns rows_db shares_db

  module _ (users_db : Database User same_user) where
    pub share_handler-Keeps :
        (message user : String) (id : Option String) (body : ShareBody) (users : users_db.Table)
        (db : Db)
        → KeepsFor user db
            (share_handler columns rows_db shares_db users_db message user id body users db).1
    unfolding share_handler share_with
    share_handler-Keeps message user id body users db = elim (Option-cases (truthy id)) [
      | inl n ↦ rw (n, share_handler) (Keeps-refl columns rows_db shares_db user db)
      | inr (i, p) ↦ elim (Option-cases (truthy body.email)) [
        | inl n ↦ rw (p, n, share_handler) (Keeps-refl columns rows_db shares_db user db)
        | inr (email, q) ↦
            elim (Option-cases (find_target columns rows_db shares_db users_db email users)) [
              | inl n ↦
                  rw (p, q, n, share_handler, share_with)
                    (Keeps-refl columns rows_db shares_db user db)
              | inr (target, t) ↦
                  let kept =
                    share-Keeps columns rows_db shares_db db i user target.id
                      (get_or body.permission Permission.view) in
                  rw (p, q, t, share_handler, share_with)
                    (subst (KeepsFor user db)
                      (sym (
                        confirm-tables message (
                          share columns rows_db shares_db i user target.id
                            (get_or body.permission Permission.view) db)))
                      kept)
            ]
      ]
    ]

    find_target-some :
        (email : String) (users : users_db.Table) (target : User)
        → find_target columns rows_db shares_db users_db email users ≡ some target
        → users_db.Has users target × (target.email ≡ email)
    unfolding find_target
    find_target-some email users target e =
        let (h, t) = (users_db.select_iff (λ u. u.email == email) users target).0 (first-mem _ e) in
        (h, (==_iff target.email email).0 t)

    find_target-none :
        (email : String) (users : users_db.Table) (target : User)
        → users_db.Has users target
        → target.email ≡ email
        → ¬ (find_target columns rows_db shares_db users_db email users ≡ none)
    unfolding find_target
    find_target-none email users target h e n = first-none _ n (
        (users_db.select_iff (λ u. u.email == email) users target).1
          (h, (==_iff target.email email).1 e))

    -- The request to share is answered without an error exactly if it names, by a text that is not empty
    -- each, a row that the user owns and the email of a user who is in the table.
    pub share_handler-answer_iff :
        (message user : String) (id : Option String) (body : ShareBody) (users : users_db.Table)
        (db : Db)
        → ((share_handler columns rows_db shares_db users_db message user id body users db).0
            ≡ answer tt)
          ↔ ((i : String) × (email : String) × (target : User) × (id ≡ some i)
              × (¬ (i ≡ ""))
              × (body.email ≡ some email)
              × (¬ (email ≡ ""))
              × users_db.Has users target
              × (target.email ≡ email)
              × IsOwner columns rows_db shares_db db i user)
    unfolding share_handler share_with
    share_handler-answer_iff message user id body users db = (
      λ e. elim (Option-cases (truthy id)) [
        | inl n ↦ let e' = rw (n, share_handler) at e in cc
        | inr (i, p) ↦ elim (Option-cases (truthy body.email)) [
          | inl n ↦ let e' = rw (p, n, share_handler) at e in cc
          | inr (email, q) ↦
              elim (Option-cases (find_target columns rows_db shares_db users_db email users)) [
                | inl n ↦ let e' = rw (p, q, n, share_handler, share_with) at e in cc
                | inr (target, t) ↦
                    let e' = rw (p, q, t, share_handler, share_with) at e in
                    let shared =
                      (confirm-answer_iff message (
                          share columns rows_db shares_db i user target.id
                            (get_or body.permission Permission.view) db)).0
                        e' in
                    (
                      i,
                      email,
                      target,
                      ((truthy_iff id i).0 p).0,
                      ((truthy_iff id i).0 p).1,
                      ((truthy_iff body.email email).0 q).0,
                      ((truthy_iff body.email email).0 q).1,
                      (find_target-some email users target t).0,
                      (find_target-some email users target t).1,
                      (share_iff columns rows_db shares_db db i user target.id
                            (get_or body.permission Permission.view)).0.0
                          shared,
                    )
              ]
        ]
      ],
      λ (i, email, target, a, b, c, d, h, f, o).
          let p = (truthy_iff id i).1 (a, b) in
          let q = (truthy_iff body.email email).1 (c, d) in
          elim (Option-cases (find_target columns rows_db shares_db users_db email users)) [
            | inl n ↦ absurd (find_target-none email users target h f n)
            | inr (found, t) ↦
                let shared =
                  (share_iff columns rows_db shares_db db i user found.id
                      (get_or body.permission Permission.view)).0.1
                    o in
                rw (p, q, t, share_handler, share_with)
                  ((confirm-answer_iff message (
                      share columns rows_db shares_db i user found.id
                        (get_or body.permission Permission.view) db)).1
                    shared)
          ],
    )

  pub unshare_handler-Keeps :
      (message user : String) (id user_id : Option String) (db : Db)
      → KeepsFor user db (unshare_handler columns rows_db shares_db message user id user_id db).1
  unfolding unshare_handler
  unshare_handler-Keeps message user id user_id db = elim (Option-cases (truthy id)) [
    | inl n ↦ rw (n, unshare_handler) (Keeps-refl columns rows_db shares_db user db)
    | inr (i, p) ↦ elim (Option-cases (truthy user_id)) [
      | inl n ↦ rw (p, n, unshare_handler) (Keeps-refl columns rows_db shares_db user db)
      | inr (target, t) ↦
          rw (p, t, unshare_handler)
            (subst (KeepsFor user db)
              (sym (confirm-tables message (unshare columns rows_db shares_db i user target db)))
              (unshare-Keeps columns rows_db shares_db db i user target))
    ]
  ]
