-- ===== src/Prelude/Lists.antt =====
-- Lists: measured by native numbers, tested for a text, mapped and searched by Boolean tests.
use Prim.Native.Nat.{ℕ, suc, ◌+◌, ◌<◌}
use Prim.Native.String.{String}
use mathlib.Core.Path.{◌≡◌, refl, ap, subst, sym}
use mathlib.Core.Logic.{◌↔◌, ◌⊎◌, inl, inr, ⊎_elim}
use mathlib.Core.Bool.{Bool, true, false, not, ◌||◌, ◌&&◌}
use mathlib.Core.Option.{Option, none, some}
use mathlib.Core.List.{List, [], ◌∷◌, ◌++◌, Memᴰ}
use mathlib.Core.List.Memᴰ
use native.Mathlib.Omega.{arith}
use psae_monorepo.Prelude.Tests.{◌==◌, ==_iff, Bool-cases, if◌then◌else◌}

module _ {ℓ} {A : Type ℓ} where
  abbrev pub length : List A → ℕ
  length [] = 0
  length (x ∷ xs) = suc (length xs)

  -- `xs.filter(p)`
  abbrev pub filter : (A → Bool) → List A → List A
  filter p [] = []
  filter p (x ∷ xs) = if p x then x ∷ filter p xs else filter p xs

  -- `xs.find(p)`
  abbrev pub find? : (A → Bool) → List A → Option A
  find? p [] = none
  find? p (x ∷ xs) = if p x then some x else find? p xs

  -- `xs.some(p)`
  abbrev pub any : (A → Bool) → List A → Bool
  any p [] = false
  any p (x ∷ xs) = p x || any p xs

  abbrev pub All {κ} : (A → Type κ) → List A → Type κ
  All P [] = Unit
  All P (x ∷ xs) = P x × All P xs

  pub length-append : (xs ys : List A) → length (xs ++ ys) ≡ length xs + length ys
  length-append [] ys = omega arith
  length-append (x ∷ xs) ys = omega (arith, length-append xs ys)

  pub Memᴰ-cons : (a x : A) (xs : List A) → Memᴰ a (x ∷ xs) ↔ ((a ≡ x) ⊎ Memᴰ a xs)
  Memᴰ-cons a x xs = (Memᴰ.cases_cons, ⊎_elim Memᴰ.head Memᴰ.tail)

  pub Memᴰ-append : (a : A) (xs ys : List A) → Memᴰ a (xs ++ ys) ↔ (Memᴰ a xs ⊎ Memᴰ a ys)
  Memᴰ-append a xs ys = (Memᴰ.append_cases xs, ⊎_elim (Memᴰ.append_left ys) (Memᴰ.append_right xs))

  pub All-append {κ} : (P : A → Type κ) (xs ys : List A) → All P xs → All P ys → All P (xs ++ ys)
  All-append P [] ys h k = k
  All-append P (x ∷ xs) ys h k = (h.0, All-append P xs ys h.1 k)

  pub All-mem {κ} : (P : A → Type κ) {a : A} (xs : List A) → All P xs → Memᴰ a xs → P a
  All-mem P [] h m = absurd (Memᴰ.not-nil m)
  All-mem P {a} (x ∷ xs) h (Memᴰ.head e) = rw e h.0
  All-mem P {a} (x ∷ xs) h (Memᴰ.tail m) = All-mem P xs h.1 m

-- `xs.map(f)`
abbrev pub map {ℓ κ} : {A : Type ℓ} {B : Type κ} → (A → B) → List A → List B
map f [] = []
map f (x ∷ xs) = f x ∷ map f xs

-- `xs.flatMap(f)`: the items that a loop with a nested loop pushes.
abbrev pub flat_map {ℓ κ} : {A : Type ℓ} {B : Type κ} → (A → List B) → List A → List B
flat_map f [] = []
flat_map f (x ∷ xs) = f x ++ flat_map f xs

-- `xs.includes(s)`, and `has` of a `Set` whose items are listed.
unfoldable pub contains : String → List String → Bool
contains s [] = false
contains s (x ∷ xs) = (x == s) || contains s xs

-- No item stands twice.
abbrev pub Distinct {ℓ} : {A : Type ℓ} → List A → Type ℓ
Distinct [] = Unit
Distinct (x ∷ xs) = ¬ Memᴰ x xs × Distinct xs

pub contains_iff : (s : String) (xs : List String) → (contains s xs ≡ true) ↔ Memᴰ s xs
unfolding contains
contains_iff s [] = (λ h. cc, λ m. absurd (Memᴰ.not-nil m))
contains_iff s (x ∷ xs) = ground (arith, ==_iff x s, contains_iff s xs, Memᴰ-cons s x xs)

pub not-contains_iff : (s : String) (xs : List String) → (contains s xs ≡ false) ↔ (¬ Memᴰ s xs)
not-contains_iff s xs = ground (arith, contains_iff s xs)

pub length-map {ℓ κ} :
    {A : Type ℓ} {B : Type κ} (f : A → B) (xs : List A) → length (map f xs) ≡ length xs
length-map f [] = refl
length-map f (x ∷ xs) = ap suc (length-map f xs)

pub Memᴰ-flat_map {ℓ κ} :
    {A : Type ℓ} {B : Type κ} (f : A → List B) (b : B) (xs : List A)
    → Memᴰ b (flat_map f xs) ↔ ((a : A) × Memᴰ a xs × Memᴰ b (f a))
Memᴰ-flat_map f b [] = (λ m. absurd (Memᴰ.not-nil m), λ (a, m, k). absurd (Memᴰ.not-nil m))
Memᴰ-flat_map f b (x ∷ xs) = (
  λ m. elim (Memᴰ.append_cases (f x) m) [
    | inl k ↦ (x, Memᴰ.head refl, k)
    | inr k ↦ let (a, i, j) = (Memᴰ-flat_map f b xs).0 k in (a, Memᴰ.tail i, j)
  ],
  λ (a, m, k). elim (Memᴰ.cases_cons m) [
    | inl e ↦ Memᴰ.append_left _ (subst (λ y. Memᴰ b (f y)) e k)
    | inr i ↦ Memᴰ.append_right (f x) ((Memᴰ-flat_map f b xs).1 (a, i, k))
  ],
)

pub append-eq-nil_iff {ℓ} :
    {A : Type ℓ} (xs ys : List A) → (xs ++ ys ≡ []) ↔ ((xs ≡ []) × (ys ≡ []))
append-eq-nil_iff [] ys = (λ e. (refl, e), λ e. e.1)
append-eq-nil_iff (x ∷ xs) ys = (λ e. cc, λ e. cc)

pub flat_map-eq-nil_iff {ℓ κ} :
    {A : Type ℓ} {B : Type κ} (f : A → List B) (xs : List A)
    → (flat_map f xs ≡ []) ↔ ((a : A) → Memᴰ a xs → f a ≡ [])
flat_map-eq-nil_iff f [] = (λ e a m. absurd (Memᴰ.not-nil m), λ h. refl)
flat_map-eq-nil_iff f (x ∷ xs) = (
  λ e a m.
      let (here, rest) = (append-eq-nil_iff (f x) (flat_map f xs)).0 e in
      elim (Memᴰ.cases_cons m) [
        | inl p ↦ subst (λ y. f y ≡ []) (sym p) here
        | inr k ↦ (flat_map-eq-nil_iff f xs).0 rest a k
      ],
  λ h.
      (append-eq-nil_iff (f x) (flat_map f xs)).1
        (h x (Memᴰ.head refl), (flat_map-eq-nil_iff f xs).1 (λ a m. h a (Memᴰ.tail m))),
)

-- `test ? [] : [message]`
abbrev pub unless : Bool → String → List String
unless b message = if b then [] else message ∷ []

pub unless-eq-nil_iff : (b : Bool) (message : String) → (unless b message ≡ []) ↔ (b ≡ true)
unless-eq-nil_iff true message = (λ e. refl, λ e. refl)
unless-eq-nil_iff false message = (λ e. cc, λ e. cc)

module _ {ℓ} {A : Type ℓ} where
  pub mem-filter :
      (p : A → Bool) {a : A} (xs : List A) → Memᴰ a (filter p xs) → Memᴰ a xs × (p a ≡ true)
  mem-filter p [] h = absurd (Memᴰ.not-nil h)
  mem-filter p {a} (x ∷ xs) h = elim (Bool-cases (p x)) [
    | inl t ↦ elim (Memᴰ.cases_cons (rw t at h)) [
      | inl e ↦ (Memᴰ.head e, subst (λ y. p y ≡ true) (sym e) t)
      | inr r ↦ let (m, q) = mem-filter p xs r in (Memᴰ.tail m, q)
    ]
    | inr f ↦ let (m, q) = mem-filter p xs (rw f at h) in (Memᴰ.tail m, q)
  ]

  pub filter_of_mem :
      (p : A → Bool) {a : A} (xs : List A) → Memᴰ a xs → p a ≡ true → Memᴰ a (filter p xs)
  filter_of_mem p [] m t = absurd (Memᴰ.not-nil m)
  filter_of_mem p {a} (x ∷ xs) m t = elim (Bool-cases (p x)) [
    | inl s ↦ rw s (elim (Memᴰ.cases_cons m) [
      | inl e ↦ Memᴰ.head e
      | inr r ↦ Memᴰ.tail (filter_of_mem p xs r t)
    ])
    | inr s ↦
        rw s
          (elim (Memᴰ.cases_cons m) [ inl e ↦ absurd (clash e s) | inr r ↦ filter_of_mem p xs r t ])
  ]
    where
      clash : {y : A} → a ≡ y → p y ≡ false → ⊥
      clash e s = let s' : p a ≡ false = subst (λ z. p z ≡ false) (sym e) s in cc

  pub Distinct-concat : (xs : List A) (x : A) → Distinct xs → ¬ Memᴰ x xs → Distinct (xs ++ x ∷ [])
  Distinct-concat [] x d new = (λ m. Memᴰ.not-nil m, tt)
  Distinct-concat (y ∷ xs) x (n, d) new = (
    λ m. elim (Memᴰ.append_cases xs m) [
      | inl k ↦ n k
      | inr k ↦ new (Memᴰ.head (sym (Memᴰ.eq_of_singleton k)))
    ],
    Distinct-concat xs x d (λ m. new (Memᴰ.tail m)),
  )

pub map-append {ℓ κ} :
    {A : Type ℓ} {B : Type κ} (f : A → B) (xs ys : List A) → map f (xs ++ ys) ≡ map f xs ++ map f ys
map-append f [] ys = refl
map-append f (x ∷ xs) ys = ap (λ t. f x ∷ t) (map-append f xs ys)

pub any_iff {ℓ} :
    {V : Type ℓ} (p : V → Bool) (xs : List V)
    → (any p xs ≡ true) ↔ ((x : V) × Memᴰ x xs × (p x ≡ true))
any_iff p [] = (λ e. cc, λ (x, m, e). absurd (Memᴰ.not-nil m))
any_iff p (x ∷ xs) = (
  λ e. elim (Bool-cases (p x)) [
    | inl t ↦ (x, Memᴰ.head refl, t)
    | inr f ↦ let (y, m, t) = (any_iff p xs).0 (ground arith) in (y, Memᴰ.tail m, t)
  ],
  λ (y, m, t). elim (Memᴰ.cases_cons m) [
    | inl e ↦ ground (arith, subst (λ z. p z ≡ true) e t)
    | inr k ↦ ground (arith, (any_iff p xs).1 (y, k, t))
  ],
)

module _ {ℓ} {A : Type ℓ} where
  pub Distinct-middle : (xs : List A) (y : A) (ys : List A) → Distinct (xs ++ y ∷ ys) → ¬ Memᴰ y xs
  Distinct-middle [] y ys d m = Memᴰ.not-nil m
  Distinct-middle (x ∷ xs) y ys (new, d) m = elim (Memᴰ.cases_cons m) [
    | inl e ↦ new (Memᴰ.append_right xs (Memᴰ.head (sym e)))
    | inr k ↦ Distinct-middle xs y ys d k
  ]

  pub All-append_left {κ} : (P : A → Type κ) (xs ys : List A) → All P (xs ++ ys) → All P xs
  All-append_left P [] ys h = tt
  All-append_left P (x ∷ xs) ys h = (h.0, All-append_left P xs ys h.1)

  pub Distinct-append_left : (xs ys : List A) → Distinct (xs ++ ys) → Distinct xs
  Distinct-append_left [] ys d = tt
  Distinct-append_left (x ∷ xs) ys (new, d) =
      (λ m. new (Memᴰ.append_left ys m), Distinct-append_left xs ys d)

-- A test for `Distinct`.
unfoldable pub is_distinct : List String → Bool
unfolding contains
is_distinct [] = true
is_distinct (x ∷ xs) = not (contains x xs) && is_distinct xs

pub is_distinct→Distinct : (xs : List String) → is_distinct xs ≡ true → Distinct xs
unfolding is_distinct
is_distinct→Distinct [] h = tt
is_distinct→Distinct (x ∷ xs) h =
    ((not-contains_iff x xs).0 (ground arith), is_distinct→Distinct xs (ground arith))

pub map-ext {ℓ κ} :
    {A : Type ℓ} {B : Type κ} (f g : A → B) (xs : List A)
    → ((a : A) → Memᴰ a xs → f a ≡ g a)
    → map f xs ≡ map g xs
map-ext f g [] h = refl
map-ext f g (x ∷ xs) h = λ i. h x (Memᴰ.head refl) i ∷ map-ext f g xs (λ a m. h a (Memᴰ.tail m)) i

pub Memᴰ-map {ℓ κ} :
    {A : Type ℓ} {B : Type κ} (f : A → B) (b : B) (xs : List A)
    → Memᴰ b (map f xs)
    → (a : A) × Memᴰ a xs × (b ≡ f a)
Memᴰ-map f b [] m = absurd (Memᴰ.not-nil m)
Memᴰ-map f b (x ∷ xs) m = elim (Memᴰ.cases_cons m) [
  | inl e ↦ (x, Memᴰ.head refl, e)
  | inr k ↦ let (a, i, e) = Memᴰ-map f b xs k in (a, Memᴰ.tail i, e)
]

pub mem-map_of_mem :
    {A B : Type 0} (f : A → B) (xs : List A) {a : A} → Memᴰ a xs → Memᴰ (f a) (map f xs)
mem-map_of_mem f [] m = absurd (Memᴰ.not-nil m)
mem-map_of_mem f (x ∷ xs) m = elim (Memᴰ.cases_cons m) [
  | inl e ↦ Memᴰ.head (ap f e)
  | inr k ↦ Memᴰ.tail (mem-map_of_mem f xs k)
]

-- How often a text stands in a list.
abbrev pub count : String → List String → ℕ
count c [] = 0
count c (x ∷ xs) = (if x == c then 1 else 0) + count c xs

pub count_of_mem : (c : String) (xs : List String) → Memᴰ c xs ↔ (0 < count c xs)
count_of_mem c [] = (λ m. absurd (Memᴰ.not-nil m), λ h. absurd (omega arith))
count_of_mem c (x ∷ xs) = ground (arith, ==_iff x c, count_of_mem c xs, Memᴰ-cons c x xs)
