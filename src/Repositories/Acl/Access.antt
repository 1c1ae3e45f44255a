-- ===== src/Repositories/Acl/Access.antt =====
-- Who can fetch a row, and which lists show it.
use psae_monorepo.Prelude.{
  String, true, false, ◌≡◌, refl, sym, ap, subst, ◌∙◌, ◌↔◌, ◌⊎◌, inl, inr, ⊎_elim, none, some, List,
  [], ◌∷◌, Memᴰ, arith, ◌==◌, ==_iff, Bool-cases, Option-cases, contains, contains_iff, map,
  Memᴰ-map,
}
use mathlib.Core.List.Memᴰ
use psae_monorepo.Repositories.Database.{Database}
use psae_monorepo.Repositories.Database.InMemory.{map_iff}
use psae_monorepo.Repositories.Acl.{
  Visibility, Share, Columns, share_of, same_share, is_public, first, is_empty, same_id, Tables,
  has_id, list_owned_by, list_shared_with, list_public, get_by_id, permit, get_by_id_for_user,
}

pub first-mem : {A : Type 0} (xs : List A) {a : A} → first xs ≡ some a → Memᴰ a xs
unfolding first
first-mem [] e = cc
first-mem (x ∷ xs) e = Memᴰ.head (ground arith)

pub first-none : {A : Type 0} (xs : List A) {a : A} → first xs ≡ none → ¬ Memᴰ a xs
unfolding first
first-none [] e m = Memᴰ.not-nil m
first-none (x ∷ xs) e m = cc

pub is_empty_iff : {A : Type 0} (xs : List A) → (is_empty xs ≡ false) ↔ ((a : A) × Memᴰ a xs)
unfolding is_empty
is_empty_iff [] = (λ e. cc, λ (a, m). absurd (Memᴰ.not-nil m))
is_empty_iff (x ∷ xs) = (λ e. (x, Memᴰ.head refl), λ h. refl)

is_public_iff : (v : Visibility) → (is_public v ≡ true) ↔ (v ≡ Visibility.public)
unfolding is_public
is_public_iff v = ground arith

pub share_of_iff :
    (id user : String) (s : Share)
    → (share_of id user s ≡ true) ↔ ((s.resource_id ≡ id) × (s.user_id ≡ user))
unfolding share_of
share_of_iff id user s = ground (arith, ==_iff s.resource_id id, ==_iff s.user_id user)

module _ {Row : Type 0} (columns : Columns Row) (rows_db : Database Row (same_id columns))
    (shares_db : Database Share same_share) where
  -- The primary key holds: rows with the same id are one row.
  abbrev pub IsKeyed : Tables columns rows_db shares_db → Type 0
  IsKeyed db =
      (r s : Row)
      → rows_db.Has db.rows r
      → rows_db.Has db.rows s
      → columns.id r ≡ columns.id s
      → r ≡ s

  pub record IsSharedWith (db : Tables columns rows_db shares_db) (id user : String) : Type 0 where
    pub entry : Share
    pub listed : shares_db.Has db.shares entry
    pub of_resource : entry.resource_id ≡ id
    pub with_user : entry.user_id ≡ user

  -- The access model.
  abbrev pub MaySee : Tables columns rows_db shares_db → String → Row → Type 0
  MaySee db user r =
      (columns.owner_id r ≡ user)
      ⊎ ((columns.visibility r ≡ Visibility.public) ⊎ IsSharedWith db (columns.id r) user)

  get_by_id_iff :
      (db : Tables columns rows_db shares_db) (id : String) (r : Row)
      → IsKeyed db
      → (get_by_id columns rows_db shares_db id db ≡ some r)
        ↔ (rows_db.Has db.rows r × (columns.id r ≡ id))
  unfolding get_by_id has_id
  get_by_id_iff db id r keyed = (
    λ e.
        let (h, t) = (rows_db.select_iff (λ x. columns.id x == id) db.rows r).0 (first-mem _ e) in
        (h, (==_iff (columns.id r) id).0 t),
    λ (h, e). elim (Option-cases (first (rows_db.select (λ x. columns.id x == id) db.rows))) [
      | inl n ↦ absurd (
          first-none _ n (
            (rows_db.select_iff (λ x. columns.id x == id) db.rows r).1
              (h, (==_iff (columns.id r) id).1 e)))
      | inr (s, p) ↦
          let (h', t) =
            (rows_db.select_iff (λ x. columns.id x == id) db.rows s).0 (first-mem _ p) in
          p ∙ ap some (keyed s r h' h ((==_iff (columns.id s) id).0 t ∙ sym e))
    ],
  )

  shared_first_iff :
      (db : Tables columns rows_db shares_db) (id user : String)
      → ((s : Share) × (first (shares_db.select (share_of id user) db.shares) ≡ some s))
        ↔ IsSharedWith db id user
  shared_first_iff db id user = (
    λ (s, e).
        let (h, t) = (shares_db.select_iff (share_of id user) db.shares s).0 (first-mem _ e) in
        let (i, u) = (share_of_iff id user s).0 t in
        record { entry = s; listed = h; of_resource = i; with_user = u },
    λ w. elim (Option-cases (first (shares_db.select (share_of id user) db.shares))) [
      | inl n ↦ absurd (
          first-none _ n (
            (shares_db.select_iff (share_of id user) db.shares w.entry).1
              (w.listed, (share_of_iff id user w.entry).1 (w.of_resource, w.with_user))))
      | inr found ↦ found
    ],
  )

  permit_iff :
      (db : Tables columns rows_db shares_db) (user : String) (r s : Row)
      → (permit columns rows_db shares_db (columns.id r) user db r ≡ some s)
        ↔ ((r ≡ s) × MaySee db user r)
  unfolding permit
  permit_iff db user r s = (
    λ e. elim (Option-cases (first (shares_db.select (share_of (columns.id r) user) db.shares))) [
      | inl n ↦
          ground (arith, ==_iff (columns.owner_id r) user, is_public_iff (columns.visibility r))
      | inr (x, p) ↦ (ground arith, inr (inr ((shared_first_iff db (columns.id r) user).0 (x, p))))
    ],
    λ (e, m). by_reason m ∙ ap some e,
  )
    where
      by_reason :
          MaySee db user r → permit columns rows_db shares_db (columns.id r) user db r ≡ some r
      by_reason (inl o) = ground (arith, ==_iff (columns.owner_id r) user)
      by_reason (inr (inl p)) = ground (arith, is_public_iff (columns.visibility r))
      by_reason (inr (inr w)) =
          let (x, p) = (shared_first_iff db (columns.id r) user).1 w in ground arith

  -- `getByIdForUser` returns a row exactly if the row is in the table under that id and the user owns
  -- it, or it is public, or it is shared with the user.
  pub get_by_id_for_user_iff :
      (db : Tables columns rows_db shares_db) (id user : String) (r : Row)
      → IsKeyed db
      → (get_by_id_for_user columns rows_db shares_db id user db ≡ some r)
        ↔ (rows_db.Has db.rows r × (columns.id r ≡ id) × MaySee db user r)
  unfolding get_by_id_for_user
  get_by_id_for_user_iff db id user r keyed = (
    λ e. elim (Option-cases (get_by_id columns rows_db shares_db id db)) [
      | inl n ↦ cc
      | inr (s, p) ↦
          let (h, q) = (get_by_id_iff db id s keyed).0 p in
          let granted : permit columns rows_db shares_db (columns.id s) user db s ≡ some r =
            subst (λ i. permit columns rows_db shares_db i user db s ≡ some r) (sym q)
              (ground arith) in
          let (same, may) = (permit_iff db user s r).0 granted in
          subst (λ x. rows_db.Has db.rows x × (columns.id x ≡ id) × MaySee db user x) same
            (h, q, may)
    ],
    λ (h, q, may).
        let found = (get_by_id_iff db id r keyed).1 (h, q) in
        let granted : permit columns rows_db shares_db id user db r ≡ some r =
          subst (λ i. permit columns rows_db shares_db i user db r ≡ some r) q
            ((permit_iff db user r r).1 (refl, may)) in
        rw (found, get_by_id_for_user) granted,
  )

  owned_iff :
      (db : Tables columns rows_db shares_db) (user : String) (r : Row)
      → Memᴰ r (list_owned_by columns rows_db shares_db user db)
        ↔ (rows_db.Has db.rows r × (columns.owner_id r ≡ user))
  unfolding list_owned_by
  owned_iff db user r = (
    λ m.
        let (h, t) = (rows_db.select_iff (λ x. columns.owner_id x == user) db.rows r).0 m in
        (h, (==_iff (columns.owner_id r) user).0 t),
    λ (h, e).
        (rows_db.select_iff (λ x. columns.owner_id x == user) db.rows r).1
          (h, (==_iff (columns.owner_id r) user).1 e),
  )

  public_iff :
      (db : Tables columns rows_db shares_db) (r : Row)
      → Memᴰ r (list_public columns rows_db shares_db db)
        ↔ (rows_db.Has db.rows r × (columns.visibility r ≡ Visibility.public))
  unfolding list_public
  public_iff db r = (
    λ m.
        let (h, t) = (rows_db.select_iff (λ x. is_public (columns.visibility x)) db.rows r).0 m in
        (h, (is_public_iff (columns.visibility r)).0 t),
    λ (h, e).
        (rows_db.select_iff (λ x. is_public (columns.visibility x)) db.rows r).1
          (h, (is_public_iff (columns.visibility r)).1 e),
  )

  -- The ids that `listSharedWith` collects.
  abbrev shared_ids : Tables columns rows_db shares_db → String → List String
  shared_ids db user =
      map (λ s. s.resource_id) (shares_db.select (λ s. s.user_id == user) db.shares)

  shared_ids_iff :
      (db : Tables columns rows_db shares_db) (user id : String)
      → Memᴰ id (shared_ids db user) ↔ IsSharedWith db id user
  shared_ids_iff db user id = (
    λ m.
        let (s, k, e) = Memᴰ-map (λ s. s.resource_id) id _ m in
        let (h, t) = (shares_db.select_iff (λ s. s.user_id == user) db.shares s).0 k in
        record {
          entry = s;
          listed = h;
          of_resource = sym e;
          with_user = (==_iff s.user_id user).0 t;
        },
    λ w. (map_iff (λ s. s.resource_id) (shares_db.select (λ s. s.user_id == user) db.shares) id).1 (
      w.entry,
      (shares_db.select_iff (λ s. s.user_id == user) db.shares w.entry).1
          (w.listed, (==_iff w.entry.user_id user).1 w.with_user),
      sym w.of_resource,
    ),
  )

  shared_iff :
      (db : Tables columns rows_db shares_db) (user : String) (r : Row)
      → Memᴰ r (list_shared_with columns rows_db shares_db user db)
        ↔ (rows_db.Has db.rows r × IsSharedWith db (columns.id r) user)
  unfolding list_shared_with
  shared_iff db user r = elim (Bool-cases (is_empty (shared_ids db user))) [
    | inl none_shared ↦ (
      λ m. absurd (Memᴰ.not-nil (rw none_shared at m)),
      λ (h, w).
          let some_shared =
            (is_empty_iff (shared_ids db user)).1
              (columns.id r, (shared_ids_iff db user (columns.id r)).1 w) in
          cc,
    )
    | inr some_shared ↦ rw some_shared (
      λ m.
          let (h, t) =
            (rows_db.select_iff (λ x. contains (columns.id x) (shared_ids db user)) db.rows r).0
              m in
          (
            h,
            (shared_ids_iff db user (columns.id r)).0
                ((contains_iff (columns.id r) (shared_ids db user)).0 t),
          ),
      λ (h, w).
          (rows_db.select_iff (λ x. contains (columns.id x) (shared_ids db user)) db.rows r).1 (
            h,
            (contains_iff (columns.id r) (shared_ids db user)).1
                ((shared_ids_iff db user (columns.id r)).1 w),
          ),
    )
  ]

  -- A row of the table can be fetched by a user exactly if it is in one of the user's three lists.
  pub get_by_id_for_user-lists_iff :
      (db : Tables columns rows_db shares_db) (user : String) (r : Row)
      → IsKeyed db
      → rows_db.Has db.rows r
      → (get_by_id_for_user columns rows_db shares_db (columns.id r) user db ≡ some r) ↔ (
          Memᴰ r (list_owned_by columns rows_db shares_db user db)
          ⊎ (Memᴰ r (list_public columns rows_db shares_db db)
              ⊎ Memᴰ r (list_shared_with columns rows_db shares_db user db)))
  get_by_id_for_user-lists_iff db user r keyed h = (
    λ e.
        let (_, _, may) = (get_by_id_for_user_iff db (columns.id r) user r keyed).0 e in
        ⊎_elim (λ o. inl ((owned_iff db user r).1 (h, o)))
          (⊎_elim (λ p. inr (inl ((public_iff db r).1 (h, p))))
            (λ w. inr (inr ((shared_iff db user r).1 (h, w)))))
          may,
    λ m. (get_by_id_for_user_iff db (columns.id r) user r keyed).1 (h, refl, may_see m),
  )
    where
      may_see :
          Memᴰ r (list_owned_by columns rows_db shares_db user db)
            ⊎ (Memᴰ r (list_public columns rows_db shares_db db)
                ⊎ Memᴰ r (list_shared_with columns rows_db shares_db user db))
          → MaySee db user r
      may_see (inl o) = inl ((owned_iff db user r).0 o).1
      may_see (inr (inl p)) = inr (inl ((public_iff db r).0 p).1)
      may_see (inr (inr w)) = inr (inr ((shared_iff db user r).0 w).1)
