-- ===== src/Repositories/Database.antt =====
-- What the repositories rely on in the database and its query builder, which are not part of the
-- repository: a table holds rows, and each statement is described by the rows that are there after
-- it and by those that it returns. The order in which a `select` returns rows is left open. `keyed`
-- says which rows have the same primary key. Two statements of one request are not interleaved with
-- those of another.
pub mod InMemory
use psae_monorepo.Prelude.{
  Bool, true, false, ◌≡◌, ◌↔◌, ◌⊎◌, Option, none, some, List, Memᴰ, if◌then◌else◌,
}

pub record Database (Row : Type 0) (keyed : Row → Row → Bool) : Type 1 where
  pub Table : Type 0
  pub Has : Table → Row → Type 0
  -- `select().from(t).where(p)`
  pub select : (Row → Bool) → Table → List Row
  -- `insert(t).values(row)`; `none` is the error on a primary key that is there
  pub insert : Row → Table → Option Table
  -- `insert(t).values(row).onConflictDoUpdate({ target: the primary key, set })`
  pub upsert : Row → (Row → Row) → Table → Table
  -- the row that its `.returning()` gives
  pub upserted : Row → (Row → Row) → Table → Row
  -- `update(t).set(f).where(p).returning()`, where `f` leaves the primary key as it is
  pub update : (Row → Bool) → (Row → Row) → Table → List Row × Table
  -- the same, where `f` can set the primary key; `none` is the error on rows that would share one
  pub rekey : (Row → Bool) → (Row → Row) → Table → Option (List Row × Table)
  -- `delete(t).where(p).returning()`
  pub delete : (Row → Bool) → Table → List Row × Table
  pub select_iff :
      (p : Row → Bool) (t : Table) (r : Row) → Memᴰ r (select p t) ↔ (Has t r × (p r ≡ true))
  pub insert_fails_iff :
      (r : Row) (t : Table) → (insert r t ≡ none) ↔ ((s : Row) × Has t s × (keyed s r ≡ true))
  pub insert_iff :
      (r s : Row) (t t' : Table) → insert r t ≡ some t' → Has t' s ↔ ((s ≡ r) ⊎ Has t s)
  pub upsert_new_iff :
      (r s : Row) (f : Row → Row) (t : Table)
      → ((x : Row) → Has t x → keyed x r ≡ false)
      → Has (upsert r f t) s ↔ ((s ≡ r) ⊎ Has t s)
  pub upsert_old_iff :
      (r s : Row) (f : Row → Row) (t : Table) (x : Row)
      → Has t x
      → keyed x r ≡ true
      → Has (upsert r f t) s ↔ ((y : Row) × Has t y × (s ≡ (if keyed y r then f y else y)))
  pub upserted_new :
      (r : Row) (f : Row → Row) (t : Table)
      → ((x : Row) → Has t x → keyed x r ≡ false)
      → upserted r f t ≡ r
  pub upserted_old :
      (r : Row) (f : Row → Row) (t : Table) (x : Row)
      → Has t x
      → keyed x r ≡ true
      → (y : Row) × Has t y × (keyed y r ≡ true) × (upserted r f t ≡ f y)
  pub update_iff :
      (p : Row → Bool) (f : Row → Row) (t : Table) (s : Row)
      → Has (update p f t).1 s ↔ ((y : Row) × Has t y × (s ≡ (if p y then f y else y)))
  pub update_returns_iff :
      (p : Row → Bool) (f : Row → Row) (t : Table) (s : Row)
      → Memᴰ s (update p f t).0 ↔ ((y : Row) × Has t y × (p y ≡ true) × (s ≡ f y))
  pub rekey_fails_iff :
      (p : Row → Bool) (f : Row → Row) (t : Table)
      → (rekey p f t ≡ none) ↔ (
          (x : Row) × (y : Row) × Has t x
          × Has t y
          × (keyed x y ≡ false)
          × (keyed (if p x then f x else x) (if p y then f y else y) ≡ true))
  pub rekey_iff :
      (p : Row → Bool) (f : Row → Row) (t : Table) (out : List Row × Table) (s : Row)
      → rekey p f t ≡ some out
      → Has out.1 s ↔ ((y : Row) × Has t y × (s ≡ (if p y then f y else y)))
  pub rekey_returns_iff :
      (p : Row → Bool) (f : Row → Row) (t : Table) (out : List Row × Table) (s : Row)
      → rekey p f t ≡ some out
      → Memᴰ s out.0 ↔ ((y : Row) × Has t y × (p y ≡ true) × (s ≡ f y))
  pub delete_iff :
      (p : Row → Bool) (t : Table) (s : Row) → Has (delete p t).1 s ↔ (Has t s × (p s ≡ false))
  pub delete_returns_iff :
      (p : Row → Bool) (t : Table) (s : Row) → Memᴰ s (delete p t).0 ↔ (Has t s × (p s ≡ true))
