-- ===== src/Repositories/Database/InMemory.antt =====
-- A list of rows is such a table.
use psae_monorepo.Prelude.{
  mem-map_of_mem, Bool, true, false, not, ◌&&◌, ◌≡◌, refl, sym, ap, ◌∙◌, subst, ◌↔◌, ◌⊎◌, inl, inr,
  Option, none, some, List, [], ◌∷◌, Memᴰ, arith, if◌then◌else◌, filter, map, any, any_iff,
  mem-filter, filter_of_mem, Memᴰ-map, Bool-cases, Memᴰ-cons,
}
use mathlib.Core.List.Memᴰ
use psae_monorepo.Repositories.Database.{Database}

pub map_iff :
    {A B : Type 0} (f : A → B) (xs : List A) (b : B)
    → Memᴰ b (map f xs) ↔ ((a : A) × Memᴰ a xs × (b ≡ f a))
map_iff f xs b =
    (Memᴰ-map f b xs, λ (a, m, e). subst (λ x. Memᴰ x (map f xs)) (sym e) (mem-map_of_mem f xs m))

pub filter_iff :
    {A : Type 0} (p : A → Bool) (xs : List A) (a : A)
    → Memᴰ a (filter p xs) ↔ (Memᴰ a xs × (p a ≡ true))
filter_iff p xs a = (mem-filter p xs, λ (m, t). filter_of_mem p xs m t)

pub update_returned :
    {A : Type 0} (p : A → Bool) (f : A → A) (t : List A) (s : A)
    → Memᴰ s (map f (filter p t)) ↔ ((y : A) × Memᴰ y t × (p y ≡ true) × (s ≡ f y))
update_returned p f t s = (
  λ m.
      let (y, k, e) = Memᴰ-map f s (filter p t) m in
      let (k', c) = mem-filter p t k in (y, k', c, e),
  λ (y, k, c, e). (map_iff f (filter p t) s).1 (y, filter_of_mem p t k c, e),
)

pub delete_left :
    {A : Type 0} (p : A → Bool) (t : List A) (s : A)
    → Memᴰ s (filter (λ r. not (p r)) t) ↔ (Memᴰ s t × (p s ≡ false))
delete_left p t s = (
  λ m. let (k, c) = mem-filter (λ r. not (p r)) t m in (k, ground arith),
  λ (k, c). filter_of_mem (λ r. not (p r)) t k (rw c refl),
)

module _ {Row : Type 0} (keyed : Row → Row → Bool) where
  abbrev pub insert_row : Row → List Row → Option (List Row)
  insert_row r t = if any (λ s. keyed s r) t then none else some (r ∷ t)

  abbrev pub upsert_row : Row → (Row → Row) → List Row → List Row
  upsert_row r f t =
      if any (λ s. keyed s r) t then map (λ y. if keyed y r then f y else y) t else r ∷ t

  pub insert_fails :
      (r : Row) (t : List Row)
      → (insert_row r t ≡ none) ↔ ((s : Row) × Memᴰ s t × (keyed s r ≡ true))
  insert_fails r t = (
    λ e. (any_iff (λ s. keyed s r) t).0 (ground arith),
    λ h. let e = (any_iff (λ s. keyed s r) t).1 h in ground arith,
  )

  pub insert_there :
      (r s : Row) (t t' : List Row) → insert_row r t ≡ some t' → Memᴰ s t' ↔ ((s ≡ r) ⊎ Memᴰ s t)
  insert_there r s t t' e =
      let same : r ∷ t ≡ t' = ground arith in
      subst (λ l. Memᴰ s l ↔ ((s ≡ r) ⊎ Memᴰ s t)) same (Memᴰ-cons s r t)

  pub upsert_new :
      (r s : Row) (f : Row → Row) (t : List Row)
      → ((x : Row) → Memᴰ x t → keyed x r ≡ false)
      → Memᴰ s (upsert_row r f t) ↔ ((s ≡ r) ⊎ Memᴰ s t)
  upsert_new r s f t h = elim (Bool-cases (any (λ s. keyed s r) t)) [
    | inl e ↦ let (x, m, k) = (any_iff (λ s. keyed s r) t).0 e in absurd (clash x m k)
    | inr e ↦ rw e (Memᴰ-cons s r t)
  ]
    where
      clash : (x : Row) → Memᴰ x t → keyed x r ≡ true → ⊥
      clash x m k = ground (arith, h x m)

  pub upsert_old :
      (r s : Row) (f : Row → Row) (t : List Row) (x : Row)
      → Memᴰ x t
      → keyed x r ≡ true
      → Memᴰ s (upsert_row r f t) ↔ ((y : Row) × Memᴰ y t × (s ≡ (if keyed y r then f y else y)))
  upsert_old r s f t x m k =
      let e = (any_iff (λ s. keyed s r) t).1 (x, m, k) in
      rw e (map_iff (λ y. if keyed y r then f y else y) t s)

  unfoldable pub upserted_row : Row → (Row → Row) → List Row → Row
  upserted_row r f [] = r
  upserted_row r f (y ∷ t) = if keyed y r then f y else upserted_row r f t

  pub upserted_row-new :
      (r : Row) (f : Row → Row) (t : List Row)
      → ((x : Row) → Memᴰ x t → keyed x r ≡ false)
      → upserted_row r f t ≡ r
  unfolding upserted_row
  upserted_row-new r f [] h = refl
  upserted_row-new r f (y ∷ t) h =
      let b = h y (Memᴰ.head refl) in rw b (upserted_row-new r f t (λ x m. h x (Memᴰ.tail m)))

  pub upserted_row-old :
      (r : Row) (f : Row → Row) (t : List Row) (x : Row)
      → Memᴰ x t
      → keyed x r ≡ true
      → (y : Row) × Memᴰ y t × (keyed y r ≡ true) × (upserted_row r f t ≡ f y)
  unfolding upserted_row
  upserted_row-old r f [] x m k = absurd (Memᴰ.not-nil m)
  upserted_row-old r f (z ∷ t) x m k = elim (Bool-cases (keyed z r)) [
    | inl b ↦ (z, Memᴰ.head refl, b, rw b refl)
    | inr b ↦ elim (Memᴰ.cases_cons m) [
      | inl e ↦ let c = sym k ∙ ap (λ w. keyed w r) e in absurd (differ (c ∙ b))
      | inr i ↦ let (y, j, c, q) = upserted_row-old r f t x i k in (y, Memᴰ.tail j, c, rw b q)
    ]
  ]
    where
      differ : ¬ (true ≡ false)
      differ e = cc

  -- Two rows with different keys that come to have the same one.
  abbrev pub collide : (Row → Row) → List Row → Bool
  collide g t = any (λ x. any (λ y. not (keyed x y) && keyed (g x) (g y)) t) t

  abbrev pub rekey_rows : (Row → Bool) → (Row → Row) → List Row → Option (List Row × List Row)
  rekey_rows p f t =
      if collide (λ y. if p y then f y else y) t
      then none
      else some (map f (filter p t), map (λ y. if p y then f y else y) t)

  pub collide_iff :
      (g : Row → Row) (t : List Row)
      → (collide g t ≡ true) ↔ (
          (x : Row) × (y : Row) × Memᴰ x t
          × Memᴰ y t
          × (keyed x y ≡ false)
          × (keyed (g x) (g y) ≡ true))
  collide_iff g t =
      let outer = any_iff (λ x. any (λ y. not (keyed x y) && keyed (g x) (g y)) t) t in
      (
        λ e.
            let (x, m, i) = outer.0 e in
            let (y, n, b) = (any_iff (λ y. not (keyed x y) && keyed (g x) (g y)) t).0 i in
            (x, y, m, n, ground arith, ground arith),
        λ (x, y, m, n, a, b).
            outer.1 (
              x,
              m,
              (any_iff (λ y. not (keyed x y) && keyed (g x) (g y)) t).1 (y, n, ground arith),
            ),
      )

  pub rekey_fails :
      (p : Row → Bool) (f : Row → Row) (t : List Row)
      → (rekey_rows p f t ≡ none) ↔ (
          (x : Row) × (y : Row) × Memᴰ x t
          × Memᴰ y t
          × (keyed x y ≡ false)
          × (keyed (if p x then f x else x) (if p y then f y else y) ≡ true))
  rekey_fails p f t =
      let c = collide_iff (λ y. if p y then f y else y) t in
      elim (Bool-cases (collide (λ y. if p y then f y else y) t)) [
        | inl e ↦ (λ _. c.0 e, λ h. rw e refl)
        | inr e ↦ (λ n. absurd (some-ne-none (rw e at n)), λ h. let e' = c.1 h in cc)
      ]
    where
      some-ne-none : {v : List Row × List Row} → some v ≡ none → ⊥
      some-ne-none q = cc

  pub rekey_same :
      (p : Row → Bool) (f : Row → Row) (t : List Row) (out : List Row × List Row)
      → rekey_rows p f t ≡ some out
      → (map f (filter p t), map (λ y. if p y then f y else y) t) ≡ out
  rekey_same p f t out e = elim (Bool-cases (collide (λ y. if p y then f y else y) t)) [
    | inl c ↦ absurd (none-ne-some (rw c at e))
    | inr c ↦ injective (rw c at e)
  ]
    where
      none-ne-some : {v : List Row × List Row} → none ≡ some v → ⊥
      none-ne-some q = cc

      injective : {v w : List Row × List Row} → some v ≡ some w → v ≡ w
      injective q = cc

  abbrev pub in_memory : Database Row keyed
  in_memory = record {
    Table = List Row;
    Has = λ t r. Memᴰ r t;
    select = filter;
    insert = insert_row;
    upsert = upsert_row;
    upserted = upserted_row;
    update = λ p f t. (map f (filter p t), map (λ y. if p y then f y else y) t);
    rekey = rekey_rows;
    delete = λ p t. (filter p t, filter (λ r. not (p r)) t);
    select_iff = filter_iff;
    insert_fails_iff = insert_fails;
    insert_iff = insert_there;
    upsert_new_iff = upsert_new;
    upsert_old_iff = upsert_old;
    upserted_new = upserted_row-new;
    upserted_old = upserted_row-old;
    update_iff = λ p f t s. map_iff (λ y. if p y then f y else y) t s;
    update_returns_iff = update_returned;
    rekey_fails_iff = rekey_fails;
    rekey_iff = λ p f t out s e.
        subst (λ o. Memᴰ s o.1 ↔ ((y : Row) × Memᴰ y t × (s ≡ (if p y then f y else y))))
          (rekey_same p f t out e) (map_iff (λ y. if p y then f y else y) t s);
    rekey_returns_iff = λ p f t out s e.
        subst (λ o. Memᴰ s o.0 ↔ ((y : Row) × Memᴰ y t × (p y ≡ true) × (s ≡ f y)))
          (rekey_same p f t out e) (update_returned p f t s);
    delete_iff = delete_left;
    delete_returns_iff = filter_iff;
  }
