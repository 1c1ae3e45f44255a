-- ===== src/Repositories/Acl/Writes.antt =====
-- What creating, updating and deleting a row do to what the users can fetch.
use psae_monorepo.Prelude.{
  String, true, false, Option, ◌≡◌, refl, sym, ap, subst, ◌∙◌, ◌↔◌, ◌⊎◌, inl, inr, none, some, List,
  if◌then◌else◌, ==_iff, Bool-cases, Option-cases, get_or,
}
use psae_monorepo.Repositories.Database.{Database}
use psae_monorepo.Repositories.Acl.{
  Share, Columns, same_share, first, same_id, Tables, owns, get_by_id_for_user, create, update,
  delete,
}
use psae_monorepo.Repositories.Acl.Access.{first-mem, first-none, IsKeyed, get_by_id_for_user_iff}
use psae_monorepo.Repositories.Acl.Sharing.{owns_iff, IsOwner}
use psae_monorepo.Repositories.Acl.Deletion.{delete-effect}

module _ {Row : Type 0} (columns : Columns Row) (rows_db : Database Row (same_id columns))
    (shares_db : Database Share same_share) where
  abbrev Db : Type 0
  Db = Tables columns rows_db shares_db

  -- What an update of one row does, unless it fails.
  pub record IsUpdated (id owner : String) (patch : Row → Row) (db : Db) (out : Option Row × Db)
      : Type 0 where
    pub rows_iff :
        (s : Row)
        → rows_db.Has out.1.rows s ↔ (
            (y : Row) × rows_db.Has db.rows y
            × (s ≡ (if owns columns rows_db shares_db id owner y then patch y else y)))
    pub returns_iff : (out.0 ≡ none) ↔ (¬ IsOwner columns rows_db shares_db db id owner)
    pub shares_same : out.1.shares ≡ db.shares

  pub update-IsUpdated :
      (db : Db) (id owner : String) (patch : Row → Row) (out : Option Row × Db)
      → update columns rows_db shares_db id owner patch db ≡ some out
      → IsUpdated id owner patch db out
  unfolding update
  update-IsUpdated db id owner patch out e =
      elim (Option-cases (rows_db.rekey (owns columns rows_db shares_db id owner) patch db.rows)) [
        | inl n ↦ absurd (none-ne-some (rw (n, update) at e))
        | inr (t, p) ↦
            subst (IsUpdated id owner patch db) (injective (rw (p, update) at e)) (record {
              rows_iff = λ s.
                  rows_db.rekey_iff (owns columns rows_db shares_db id owner) patch db.rows t s p;
              returns_iff = (
                λ n w.
                    let (r, h, i, o) = w in
                    first-none _ n (
                      (rows_db.rekey_returns_iff (owns columns rows_db shares_db id owner) patch
                          db.rows t (patch r) p).1
                        (r, h, (owns_iff columns rows_db shares_db id owner r).1 (i, o), refl)),
                λ foreign. elim (Option-cases (first t.0)) [
                  | inl n ↦ n
                  | inr (s, q) ↦
                      let (r, h, y, _) =
                        (rows_db.rekey_returns_iff (owns columns rows_db shares_db id owner) patch
                            db.rows t s p).0
                          (first-mem _ q) in
                      let (i, o) = (owns_iff columns rows_db shares_db id owner r).0 y in
                      absurd (foreign (r, h, i, o))
                ],
              );
              shares_same = refl;
            })
      ]
    where
      none-ne-some : {v : Option Row × Db} → none ≡ some v → ⊥
      none-ne-some q = cc

      injective : {v w : Option Row × Db} → some v ≡ some w → v ≡ w
      injective q = cc

  -- An update by a user who owns no such row goes through, returns nothing and leaves the rows.
  pub update-refused :
      (db : Db) (id owner : String) (patch : Row → Row)
      → ¬ IsOwner columns rows_db shares_db db id owner
      → (after : Db) × (update columns rows_db shares_db id owner patch db ≡ some (none, after))
        × ((s : Row) → rows_db.Has after.rows s ↔ rows_db.Has db.rows s)
  unfolding update
  update-refused db id owner patch foreign =
      elim (Option-cases (rows_db.rekey (owns columns rows_db shares_db id owner) patch db.rows)) [
        | inl n ↦
            let (x, y, hx, hy, differ, clash) =
              (rows_db.rekey_fails_iff (owns columns rows_db shares_db id owner) patch db.rows).0
                n in
            let both : same_id columns
                  (if owns columns rows_db shares_db id owner x then patch x else x)
                  (if owns columns rows_db shares_db id owner y then patch y else y)
                ≡ same_id columns x y =
              λ i. same_id columns (kept x hx i) (kept y hy i) in
            absurd (true-ne-false (sym clash ∙ both ∙ differ))
        | inr ((returned, rows), p) ↦
            let made : update columns rows_db shares_db id owner patch db
                ≡ some (first returned, record db { rows = rows }) =
              rw (p, update) refl in
            let u =
              update-IsUpdated db id owner patch (first returned, record db { rows = rows }) made in
            let nothing = u.returns_iff.1 foreign in
            (
              record db { rows = rows },
              made ∙ ap (λ o. some (o, record db { rows = rows })) nothing,
              λ s. (
                λ h.
                    let (y, hy, e) = (u.rows_iff s).0 h in
                    subst (rows_db.Has db.rows) (sym (e ∙ kept y hy)) hy,
                λ h. (u.rows_iff s).1 (s, h, sym (kept s h)),
              ),
            )
      ]
    where
      true-ne-false : true ≡ false → ⊥
      true-ne-false q = cc

      kept :
          (y : Row)
          → rows_db.Has db.rows y
          → (if owns columns rows_db shares_db id owner y then patch y else y) ≡ y
      kept y h = elim (Bool-cases (owns columns rows_db shares_db id owner y)) [
        | inl t ↦
            let (i, o) = (owns_iff columns rows_db shares_db id owner y).0 t in
            absurd (foreign (y, h, i, o))
        | inr f ↦ rw f refl
      ]

  pub delete-returns_iff :
      (db : Db) (id owner : String)
      → let out = delete columns rows_db shares_db id owner db in
        ((out.0 ≡ none) ↔ (¬ IsOwner columns rows_db shares_db db id owner))
        × ((r : Row) → out.0 ≡ some r → IsOwner columns rows_db shares_db db id owner)
  unfolding delete
  delete-returns_iff db id owner = (
    (
      λ n w.
          let (r, h, i, o) = w in
          first-none _ n (
            (rows_db.delete_returns_iff (owns columns rows_db shares_db id owner) db.rows r).1
              (h, (owns_iff columns rows_db shares_db id owner r).1 (i, o))),
      λ foreign. elim (Option-cases (first removed)) [
        | inl n ↦ n
        | inr (s, p) ↦ absurd (foreign (owned s p))
      ],
    ),
    owned,
  )
    where
      removed : List Row
      removed = (rows_db.delete (owns columns rows_db shares_db id owner) db.rows).0

      owned : (s : Row) → first removed ≡ some s → IsOwner columns rows_db shares_db db id owner
      owned s p =
          let (h, t) =
            (rows_db.delete_returns_iff (owns columns rows_db shares_db id owner) db.rows s).0
              (first-mem _ p) in
          let (i, o) = (owns_iff columns rows_db shares_db id owner s).0 t in (s, h, i, o)

  pub delete-hidden :
      (db : Db) (id owner user : String)
      → IsKeyed columns rows_db shares_db db
      → IsOwner columns rows_db shares_db db id owner
      → get_by_id_for_user columns rows_db shares_db id user
          (delete columns rows_db shares_db id owner db).1
        ≡ none
  delete-hidden db id owner user keyed (r, h, i, o) =
      elim (Option-cases (
        get_by_id_for_user columns rows_db shares_db id user
          (delete columns rows_db shares_db id owner db).1)) [
            | inl n ↦ n
            | inr (s, p) ↦
                let left = (delete-effect columns rows_db shares_db db id owner).0 in
                let (hs, j, _) =
                  (get_by_id_for_user_iff columns rows_db shares_db
                      (delete columns rows_db shares_db id owner db).1 id user s
                      (λ x y hx hy. keyed x y ((left x).0 hx).0 ((left y).0 hy).0)).0
                    p in
                let (was, foreign) = (left s).0 hs in
                let same : s ≡ r = keyed s r was h (j ∙ sym i) in
                absurd (foreign (j, ap columns.owner_id same ∙ o))
          ]

  -- A row that `create` has put in can be fetched by its owner, the table holds it and the rows from
  -- before, and the primary key still holds.
  pub create-get_by_id_for_user :
      (db after : Db) (row : Row)
      → IsKeyed columns rows_db shares_db db
      → create columns rows_db shares_db row db ≡ some after
      → IsKeyed columns rows_db shares_db after
        × (get_by_id_for_user columns rows_db shares_db
              (columns.id row)
              (columns.owner_id row)
              after
            ≡ some row)
        × ((s : Row) → rows_db.Has after.rows s ↔ ((s ≡ row) ⊎ rows_db.Has db.rows s))
  unfolding create
  create-get_by_id_for_user db after row keyed e = (
    keyed',
    (get_by_id_for_user_iff columns rows_db shares_db after (columns.id row) (columns.owner_id row)
          row keyed').1
        ((there row).1 (inl refl), refl, inl refl),
    there,
  )
    where
      stored :
          (rows : rows_db.Table) × (rows_db.insert row db.rows ≡ some rows) × (rows ≡ after.rows)
      stored = elim (Option-cases (rows_db.insert row db.rows)) [
        | inl n ↦ cc
        | inr (rows, p) ↦ (rows, p, ap (λ o. (get_or o db).rows) (rw (p, create) at e))
      ]

      there : (s : Row) → rows_db.Has after.rows s ↔ ((s ≡ row) ⊎ rows_db.Has db.rows s)
      there s =
          let (rows, p, q) = stored in
          subst (λ t. rows_db.Has t s ↔ ((s ≡ row) ⊎ rows_db.Has db.rows s)) q
            (rows_db.insert_iff row s db.rows rows p)

      fresh : (s : Row) → rows_db.Has db.rows s → ¬ (columns.id s ≡ columns.id row)
      fresh s h i =
          let (rows, p, q) = stored in
          let n =
            (rows_db.insert_fails_iff row db.rows).1
              (s, h, (==_iff (columns.id s) (columns.id row)).1 i) in
          cc

      keyed' : IsKeyed columns rows_db shares_db after
      keyed' x y hx hy i = elim ((there x).0 hx) [
        | inl a ↦ elim ((there y).0 hy) [
          | inl b ↦ a ∙ sym b
          | inr b ↦ absurd (fresh y b (sym i ∙ ap columns.id a))
        ]
        | inr a ↦ elim ((there y).0 hy) [
          | inl b ↦ absurd (fresh x a (i ∙ ap columns.id b))
          | inr b ↦ keyed x y a b i
        ]
      ]
