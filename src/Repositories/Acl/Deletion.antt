-- ===== src/Repositories/Acl/Deletion.antt =====
-- What `delete` removes.
use psae_monorepo.Prelude.{
  String, ◌≡◌, sym, ◌∙◌, ◌↔◌, List, Memᴰ, arith, contains, contains_iff, map,
}
use psae_monorepo.Repositories.Database.{Database}
use psae_monorepo.Repositories.Database.InMemory.{map_iff}
use psae_monorepo.Repositories.Acl.{Share, Columns, same_share, same_id, Tables, owns, delete}
use psae_monorepo.Repositories.Acl.Sharing.{owns_iff, IsOwner}

module _ {Row : Type 0} (columns : Columns Row) (rows_db : Database Row (same_id columns))
    (shares_db : Database Share same_share) where
  -- `delete` by the owner removes the row and its entries of the share table, and nothing else; by
  -- anybody else it removes nothing. It returns a row exactly if it removes one.
  pub delete-effect :
      (db : Tables columns rows_db shares_db) (id owner : String)
      → let out = delete columns rows_db shares_db id owner db in
        ((r : Row)
          → rows_db.Has out.1.rows r
            ↔ (rows_db.Has db.rows r × ¬ ((columns.id r ≡ id) × (columns.owner_id r ≡ owner))))
        × ((s : Share)
            → shares_db.Has out.1.shares s ↔ (
                shares_db.Has db.shares s
                × ¬ ((s.resource_id ≡ id) × IsOwner columns rows_db shares_db db id owner)))
  unfolding delete
  delete-effect db id owner = (
    λ r. (
      λ h.
          let (k, f) =
            (rows_db.delete_iff (owns columns rows_db shares_db id owner) db.rows r).0 h in
          (k, λ w. let t = (owns_iff columns rows_db shares_db id owner r).1 w in cc),
      λ (h, n).
          (rows_db.delete_iff (owns columns rows_db shares_db id owner) db.rows r).1
            (h, ground (arith, owns_iff columns rows_db shares_db id owner r)),
    ),
    λ s. (
      λ h.
          let (k, f) =
            (shares_db.delete_iff (λ s. contains s.resource_id removed_ids) db.shares s).0 h in
          (
            k,
            λ w.
                let t =
                  (contains_iff s.resource_id removed_ids).1 ((removed_iff s.resource_id).1 w) in
                cc,
          ),
      λ (h, n).
          (shares_db.delete_iff (λ s. contains s.resource_id removed_ids) db.shares s).1
            (h, ground (arith, contains_iff s.resource_id removed_ids, removed_iff s.resource_id)),
    ),
  )
    where
      removed_ids : List String
      removed_ids =
          map columns.id (rows_db.delete (owns columns rows_db shares_db id owner) db.rows).0

      removed_iff :
          (i : String)
          → Memᴰ i removed_ids ↔ ((i ≡ id) × IsOwner columns rows_db shares_db db id owner)
      removed_iff i = (
        λ m.
            let (r, k, e) = (map_iff columns.id _ i).0 m in
            let (h, t) =
              (rows_db.delete_returns_iff (owns columns rows_db shares_db id owner) db.rows r).0
                k in
            let (p, o) = (owns_iff columns rows_db shares_db id owner r).0 t in
            (e ∙ p, (r, h, p, o)),
        λ (e, (r, h, p, o)).
            (map_iff columns.id (rows_db.delete (owns columns rows_db shares_db id owner) db.rows).0
                i).1
              (
                r,
                (rows_db.delete_returns_iff (owns columns rows_db shares_db id owner) db.rows r).1
                    (h, (owns_iff columns rows_db shares_db id owner r).1 (p, o)),
                e ∙ sym p,
              ),
      )
