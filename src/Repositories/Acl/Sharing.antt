-- ===== src/Repositories/Acl/Sharing.antt =====
-- What sharing and its withdrawal do to the share table.
use psae_monorepo.Prelude.{
  String, true, false, ◌≡◌, refl, sym, subst, ◌∙◌, ◌↔◌, ◌⊎◌, inl, inr, ⊎_elim, some, arith,
  if◌then◌else◌, ==_iff, Bool-cases, Option-cases,
}
use psae_monorepo.Repositories.Database.{Database}
use psae_monorepo.Repositories.Acl.{
  Permission, Share, Columns, share_of, same_share, is_empty, same_id, Tables, has_id, owns, share,
  unshare,
}
use psae_monorepo.Repositories.Acl.Access.{is_empty_iff, share_of_iff}

module _ {Row : Type 0} (columns : Columns Row) (rows_db : Database Row (same_id columns))
    (shares_db : Database Share same_share) where
  pub owns_iff :
      (id owner : String) (r : Row)
      → (owns columns rows_db shares_db id owner r ≡ true)
        ↔ ((columns.id r ≡ id) × (columns.owner_id r ≡ owner))
  unfolding owns has_id
  owns_iff id owner r = ground (arith, ==_iff (columns.id r) id, ==_iff (columns.owner_id r) owner)

  -- The row is there and is the owner's.
  abbrev pub IsOwner : Tables columns rows_db shares_db → String → String → Type 0
  IsOwner db id owner =
      (r : Row) × rows_db.Has db.rows r × (columns.id r ≡ id) × (columns.owner_id r ≡ owner)

  pub IsOwner-iff :
      (db : Tables columns rows_db shares_db) (id owner : String)
      → (is_empty (rows_db.select (owns columns rows_db shares_db id owner) db.rows) ≡ false)
        ↔ IsOwner db id owner
  IsOwner-iff db id owner = (
    λ e.
        let (r, m) = (is_empty_iff _).0 e in
        let (h, t) = (rows_db.select_iff (owns columns rows_db shares_db id owner) db.rows r).0 m in
        let (i, o) = (owns_iff id owner r).0 t in (r, h, i, o),
    λ (r, h, i, o). (is_empty_iff _).1 (
      r,
      (rows_db.select_iff (owns columns rows_db shares_db id owner) db.rows r).1
          (h, (owns_iff id owner r).1 (i, o)),
    ),
  )

  abbrev pub share_row : String → String → Permission → Share
  share_row id user permission = record {
    resource_id = id;
    user_id = user;
    permission = permission;
  }

  granted :
      (s : Share) (id user : String) (p : Permission)
      → share_of id user s ≡ true
      → record s { permission = p } ≡ share_row id user p
  granted s id user p t =
      let (i, u) = (share_of_iff id user s).0 t in
      λ k. record { resource_id = i k; user_id = u k; permission = p }

  -- What the upsert of `share` leaves in the share table.
  upsert_iff :
      (t : shares_db.Table) (id user : String) (p : Permission) (s : Share)
      → shares_db.Has
          (shares_db.upsert (share_row id user p) (λ x. record x { permission = p }) t)
          s
        ↔ ((s ≡ share_row id user p) ⊎ (shares_db.Has t s × (share_of id user s ≡ false)))
  unfolding same_share
  upsert_iff t id user p s = elim (Option-cases (shares_db.insert (share_row id user p) t)) [
    | inl n ↦
        let (x, h, k) = (shares_db.insert_fails_iff (share_row id user p) t).0 n in
        let old =
          shares_db.upsert_old_iff (share_row id user p) s (λ x. record x { permission = p }) t x h
            k in
        (
          λ w.
              let (y, hy, e) = old.0 w in
              elim (Bool-cases (share_of id user y)) [
                | inl b ↦ inl (
                    subst (λ c. s ≡ (if c then record y { permission = p } else y)) b e
                    ∙ granted y id user p b)
                | inr b ↦
                    let e' : s ≡ y =
                      subst (λ c. s ≡ (if c then record y { permission = p } else y)) b e in
                    inr (
                      subst (λ z. shares_db.Has t z × (share_of id user z ≡ false)) (sym e')
                        (hy, b))
              ],
          λ w. old.1 (elim w [
            | inl e ↦ (
              x,
              h,
              e
                  ∙ subst
                      (λ c. share_row id user p ≡ (if c then record x { permission = p } else x))
                      (sym k) (sym (granted x id user p k)),
            )
            | inr (hs, b) ↦ (
              s,
              hs,
              subst (λ c. s ≡ (if c then record s { permission = p } else s)) (sym b) refl,
            )
          ]),
        )
    | inr (t', e) ↦
        let new =
          shares_db.upsert_new_iff (share_row id user p) s (λ x. record x { permission = p }) t
            (absent t' e) in
        (
          λ w. ⊎_elim (λ q. inl q) (λ h. inr (h, absent t' e s h)) (new.0 w),
          λ w. new.1 (⊎_elim (λ q. inl q) (λ h. inr h.0) w),
        )
  ]
    where
      absent :
          (t' : shares_db.Table)
          → shares_db.insert (share_row id user p) t ≡ some t'
          → (x : Share) → shares_db.Has t x
          → share_of id user x ≡ false
      absent t' e x h = elim (Bool-cases (share_of id user x)) [
        | inl b ↦ let n = (shares_db.insert_fails_iff (share_row id user p) t).1 (x, h, b) in cc
        | inr b ↦ b
      ]

  pub share-rows :
      (db : Tables columns rows_db shares_db) (id owner user : String) (p : Permission)
      → (share columns rows_db shares_db id owner user p db).1.rows ≡ db.rows
  unfolding share
  share-rows db id owner user p =
      elim (Bool-cases
        (is_empty (rows_db.select (owns columns rows_db shares_db id owner) db.rows))) [
          | inl e ↦ rw e refl
          | inr e ↦ rw e refl
        ]

  pub unshare-rows :
      (db : Tables columns rows_db shares_db) (id owner user : String)
      → (unshare columns rows_db shares_db id owner user db).1.rows ≡ db.rows
  unfolding unshare
  unshare-rows db id owner user =
      elim (Bool-cases
        (is_empty (rows_db.select (owns columns rows_db shares_db id owner) db.rows))) [
          | inl e ↦ rw e refl
          | inr e ↦ rw e refl
        ]

  pub share-effect :
      (db : Tables columns rows_db shares_db) (id owner user : String) (p : Permission)
      → let out = share columns rows_db shares_db id owner user p db in
        (IsOwner db id owner
          → (out.0 ≡ true)
            × (out.1.rows ≡ db.rows)
            × ((s : Share)
                → shares_db.Has out.1.shares s ↔ (
                    (s ≡ share_row id user p)
                    ⊎ (shares_db.Has db.shares s × (share_of id user s ≡ false)))))
        × (¬ IsOwner db id owner → out ≡ (false, db))
  unfolding share
  share-effect db id owner user p =
      elim (Bool-cases
        (is_empty (rows_db.select (owns columns rows_db shares_db id owner) db.rows))) [
          | inl e ↦ rw e (λ o. let f = (IsOwner-iff db id owner).1 o in cc, λ n. refl)
          | inr e ↦ rw e (
            λ o. (refl, refl, upsert_iff db.shares id user p),
            λ n. absurd (n ((IsOwner-iff db id owner).0 e)),
          )
        ]

  pub unshare-effect :
      (db : Tables columns rows_db shares_db) (id owner user : String)
      → let out = unshare columns rows_db shares_db id owner user db in
        (IsOwner db id owner
          → (out.0 ≡ true)
            × (out.1.rows ≡ db.rows)
            × ((s : Share)
                → shares_db.Has out.1.shares s
                  ↔ (shares_db.Has db.shares s × (share_of id user s ≡ false))))
        × (¬ IsOwner db id owner → out ≡ (false, db))
  unfolding unshare
  unshare-effect db id owner user =
      elim (Bool-cases
        (is_empty (rows_db.select (owns columns rows_db shares_db id owner) db.rows))) [
          | inl e ↦ rw e (λ o. let f = (IsOwner-iff db id owner).1 o in cc, λ n. refl)
          | inr e ↦ rw e (
            λ o. (refl, refl, shares_db.delete_iff (share_of id user) db.shares),
            λ n. absurd (n ((IsOwner-iff db id owner).0 e)),
          )
        ]

  -- Whether the caller owns the row, as the test of `share` and `unshare` finds it.
  IsOwner-cases :
      (db : Tables columns rows_db shares_db) (id owner : String)
      → IsOwner db id owner ⊎ (¬ IsOwner db id owner)
  IsOwner-cases db id owner =
      elim (Bool-cases
        (is_empty (rows_db.select (owns columns rows_db shares_db id owner) db.rows))) [
          | inl e ↦ inr (λ o. let f = (IsOwner-iff db id owner).1 o in cc)
          | inr e ↦ inl ((IsOwner-iff db id owner).0 e)
        ]

  -- `share` returns `true` exactly if the caller owns a row of that id. It changes no row. An entry is in
  -- the share table afterwards exactly if it is the named one and the caller owns the row, or if it was
  -- there and was not replaced: an owner's call replaces the entry of the same resource and user.
  pub share_iff :
      (db : Tables columns rows_db shares_db) (id owner user : String) (p : Permission)
      → let out = share columns rows_db shares_db id owner user p db in
        ((out.0 ≡ true) ↔ IsOwner db id owner)
        × (out.1.rows ≡ db.rows)
        × ((s : Share)
            → shares_db.Has out.1.shares s ↔ (
                (IsOwner db id owner × (s ≡ share_row id user p))
                ⊎ (shares_db.Has db.shares s
                    × ¬ (IsOwner db id owner × (share_of id user s ≡ true)))))
  share_iff db id owner user p = elim (IsOwner-cases db id owner) [
    | inl o ↦
        let (t, rows, shares) = (share-effect db id owner user p).0 o in
        (
          (λ _. o, λ _. t),
          rows,
          λ s. (
            λ h. elim ((shares s).0 h) [ inl e ↦ inl (o, e) | inr (k, f) ↦ inr (k, λ (_, t). cc) ],
            λ w. (shares s).1 (elim w [
              | inl (_, e) ↦ inl e
              | inr (k, n) ↦ inr (
                k,
                elim (Bool-cases (share_of id user s)) [ inl t ↦ absurd (n (o, t)) | inr f ↦ f ],
              )
            ]),
          ),
        )
    | inr foreign ↦ rw ((share-effect db id owner user p).1 foreign) (
      (λ e. cc, λ o. absurd (foreign o)),
      refl,
      λ s. (
        λ h. inr (h, λ (o, _). foreign o),
        λ w. elim w [ inl (o, _) ↦ absurd (foreign o) | inr (k, _) ↦ k ],
      ),
    )
  ]

  -- `unshare` returns `true` exactly if the caller owns a row of that id. It changes no row. An entry is
  -- in the share table afterwards exactly if it was there and is not one of the named resource and user
  -- that the owner removes.
  pub unshare_iff :
      (db : Tables columns rows_db shares_db) (id owner user : String)
      → let out = unshare columns rows_db shares_db id owner user db in
        ((out.0 ≡ true) ↔ IsOwner db id owner)
        × (out.1.rows ≡ db.rows)
        × ((s : Share)
            → shares_db.Has out.1.shares s
              ↔ (shares_db.Has db.shares s × ¬ (IsOwner db id owner × (share_of id user s ≡ true))))
  unshare_iff db id owner user = elim (IsOwner-cases db id owner) [
    | inl o ↦
        let (t, rows, shares) = (unshare-effect db id owner user).0 o in
        (
          (λ _. o, λ _. t),
          rows,
          λ s. (
            λ h. let (k, f) = (shares s).0 h in (k, λ (_, t). cc),
            λ (k, n). (shares s).1 (
              k,
              elim (Bool-cases (share_of id user s)) [ inl t ↦ absurd (n (o, t)) | inr f ↦ f ],
            ),
          ),
        )
    | inr foreign ↦ rw ((unshare-effect db id owner user).1 foreign) (
      (λ e. cc, λ o. absurd (foreign o)),
      refl,
      λ s. (λ h. (h, λ (o, _). foreign o), λ (k, _). k),
    )
  ]
