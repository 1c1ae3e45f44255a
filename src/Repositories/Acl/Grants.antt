-- ===== src/Repositories/Acl/Grants.antt =====
-- Who can fetch a row after it was shared and after a share was withdrawn.
use psae_monorepo.Prelude.{String, ◌≡◌, refl, sym, subst, ◌↔◌, ◌⊎◌, inl, inr, ⊎_elim, some}
use psae_monorepo.Repositories.Database.{Database}
use psae_monorepo.Repositories.Acl.{
  Visibility, Permission, Share, Columns, same_share, same_id, Tables, get_by_id_for_user, share,
  unshare,
}
use psae_monorepo.Repositories.Acl.Access.{
  share_of_iff, IsKeyed, IsSharedWith, get_by_id_for_user_iff,
}
use psae_monorepo.Repositories.Acl.Sharing.{share_row, share-effect, unshare-effect}

module _ {Row : Type 0} (columns : Columns Row) (rows_db : Database Row (same_id columns))
    (shares_db : Database Share same_share) where
  -- The user with whom the owner shares a row can fetch it afterwards.
  pub share-get_by_id_for_user :
      (db : Tables columns rows_db shares_db) (owner user : String) (p : Permission) (r : Row)
      → IsKeyed columns rows_db shares_db db
      → rows_db.Has db.rows r
      → columns.owner_id r ≡ owner
      → get_by_id_for_user columns rows_db shares_db
          (columns.id r)
          user
          (share columns rows_db shares_db (columns.id r) owner user p db).1
        ≡ some r
  share-get_by_id_for_user db owner user p r keyed h o =
      let (_, same, entries) =
        (share-effect columns rows_db shares_db db (columns.id r) owner user p).0 (r, h, refl, o) in
      (get_by_id_for_user_iff columns rows_db shares_db
          (share columns rows_db shares_db (columns.id r) owner user p db).1 (columns.id r) user r
          (λ x y hx hy.
            keyed x y (subst (λ t. rows_db.Has t x) same hx)
              (subst (λ t. rows_db.Has t y) same hy))).1
        (
          subst (λ t. rows_db.Has t r) (sym same) h,
          refl,
          inr (
              inr (record {
                entry = share_row columns rows_db shares_db (columns.id r) user p;
                listed =
                    (entries (share_row columns rows_db shares_db (columns.id r) user p)).1
                      (inl refl);
                of_resource = refl;
                with_user = refl;
              })),
        )

  -- After the owner has withdrawn a share, the user can fetch the row only as its owner or if it is
  -- public.
  pub unshare-get_by_id_for_user_iff :
      (db : Tables columns rows_db shares_db) (owner user : String) (r : Row)
      → IsKeyed columns rows_db shares_db db
      → rows_db.Has db.rows r
      → columns.owner_id r ≡ owner
      → (get_by_id_for_user columns rows_db shares_db
            (columns.id r)
            user
            (unshare columns rows_db shares_db (columns.id r) owner user db).1
          ≡ some r)
        ↔ ((columns.owner_id r ≡ user) ⊎ (columns.visibility r ≡ Visibility.public))
  unshare-get_by_id_for_user_iff db owner user r keyed h o =
      let after = (unshare columns rows_db shares_db (columns.id r) owner user db).1 in
      let (_, same, entries) =
        (unshare-effect columns rows_db shares_db db (columns.id r) owner user).0 (r, h, refl, o) in
      let there : rows_db.Has after.rows r = subst (λ t. rows_db.Has t r) (sym same) h in
      let seen =
        get_by_id_for_user_iff columns rows_db shares_db after (columns.id r) user r (λ x y hx hy.
          keyed x y (subst (λ t. rows_db.Has t x) same hx)
            (subst (λ t. rows_db.Has t y) same hy)) in
      let gone : ¬ IsSharedWith columns rows_db shares_db after (columns.id r) user = λ w.
        let t = (share_of_iff (columns.id r) user w.entry).1 (w.of_resource, w.with_user) in
        let f = ((entries w.entry).0 w.listed).1 in cc in
      (
        λ e.
            let (_, _, may) = seen.0 e in
            ⊎_elim (λ a. inl a) (⊎_elim (λ b. inr b) (λ w. absurd (gone w))) may,
        λ m. seen.1 (there, refl, ⊎_elim (λ a. inl a) (λ b. inr (inl b)) m),
      )
