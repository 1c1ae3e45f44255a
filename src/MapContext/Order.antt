-- ===== src/MapContext/Order.antt =====
-- The edges that are not yet met while the sort runs, and the order that it makes.
use psae_monorepo.Prelude.{
  ℕ, ◌+◌, String, true, false, ◌||◌, ◌≡◌, refl, sym, ap, subst, inl, inr, List, [], ◌∷◌, ◌++◌,
  append_assoc, append-nil, Memᴰ, arith, Bool-cases, ◌==◌, ==_iff, if◌then◌else◌, Distinct, count,
  contains, contains_iff,
}
use mathlib.Core.List.Memᴰ
use psae_monorepo.MapContext.Linking.{Edges, into, from}

-- The edges into a block from blocks that are not in the order.
abbrev pub pending : List String → String → Edges → ℕ
pending order c [] = 0
pending order c ((d, x) ∷ es) =
    (if x == c then (if contains d order then 0 else 1) else 0) + pending order c es

-- Each block stands behind the blocks it depends on, which are in `seen` or before it.
abbrev pub IsOrdered : Edges → List String → List String → Type 0
IsOrdered es seen [] = Unit
IsOrdered es seen (c ∷ cs) =
    ((d : String) → Memᴰ (d, c) es → Memᴰ d seen) × IsOrdered es (seen ++ c ∷ []) cs

pub IsOrdered-concat :
    (es : Edges) (seen cs : List String) (c : String)
    → IsOrdered es seen cs
    → ((d : String) → Memᴰ (d, c) es → Memᴰ d (seen ++ cs))
    → IsOrdered es seen (cs ++ c ∷ [])
IsOrdered-concat es seen [] c h k = ((λ d m. subst (Memᴰ d) (append-nil seen) (k d m)), tt)
IsOrdered-concat es seen (x ∷ cs) c (first, rest) k = (
  first,
  IsOrdered-concat es (seen ++ x ∷ []) cs c rest
      (λ d m. subst (Memᴰ d) (sym (append_assoc seen (x ∷ []) cs)) (k d m)),
)

pub contains-append :
    (d : String) (xs ys : List String) → contains d (xs ++ ys) ≡ (contains d xs || contains d ys)
unfolding contains
contains-append d [] ys = refl
contains-append d (x ∷ xs) ys = ground (arith, contains-append d xs ys)

pub pending-step :
    (order : List String) (id c : String) (es : Edges)
    → contains id order ≡ false
    → pending order c es ≡ pending (order ++ id ∷ []) c es + count c (from id es)
unfolding contains
pending-step order id c [] new = omega arith
pending-step order id c ((d, x) ∷ es) new = ground (
  arith,
  contains-append d order (id ∷ []),
  pending-step order id c es new,
  ==_iff d id,
  ==_iff id d,
  λ (e : d ≡ id). ap (λ y. contains y order) e,
)

pub pending-zero :
    (order : List String) (c : String) (es : Edges)
    → pending order c es ≡ 0
    → (d : String) → Memᴰ (d, c) es
    → Memᴰ d order
pending-zero order c [] z d m = absurd (Memᴰ.not-nil m)
pending-zero order c ((e, x) ∷ es) z d m = elim (Memᴰ.cases_cons m) [
  | inl p ↦
      let same : (x == c) ≡ true = (==_iff x c).1 (sym (ap (λ y. y.1) p)) in
      let there : contains e order ≡ true = ground (arith, z, same) in
      subst (λ y. Memᴰ y order) (sym (ap (λ y. y.0) p)) ((contains_iff e order).0 there)
  | inr k ↦ pending-zero order c es (omega (arith, z)) d k
]

pub zero-pending :
    (order : List String) (c : String) (es : Edges)
    → ((d : String) → Memᴰ (d, c) es → Memᴰ d order)
    → pending order c es ≡ 0
zero-pending order c [] h = refl
zero-pending order c ((e, x) ∷ es) h = elim (Bool-cases (x == c)) [
  | inl t ↦
      let there =
        (contains_iff e order).1 (h e (Memᴰ.head (ap (λ y. (e, y)) (sym ((==_iff x c).0 t))))) in
      let rest = zero-pending order c es (λ d m. h d (Memᴰ.tail m)) in
      rw (t, there) (omega (arith, rest))
  | inr f ↦
      let rest = zero-pending order c es (λ d m. h d (Memᴰ.tail m)) in rw f (omega (arith, rest))
]

pub pending-none : (c : String) (es : Edges) → into c es ≡ pending [] c es
unfolding contains
pending-none c [] = refl
pending-none c ((d, x) ∷ es) = omega (arith, pending-none c es)

pub mem-from : (d c : String) (es : Edges) → Memᴰ c (from d es) → Memᴰ (d, c) es
mem-from d c [] m = absurd (Memᴰ.not-nil m)
mem-from d c ((e, x) ∷ es) m = elim (Bool-cases (e == d)) [
  | inl t ↦ elim (Memᴰ.cases_cons (rw t at m)) [
    | inl p ↦ Memᴰ.head (λ i. (sym ((==_iff e d).0 t) i, p i))
    | inr k ↦ Memᴰ.tail (mem-from d c es k)
  ]
  | inr f ↦ Memᴰ.tail (mem-from d c es (rw f at m))
]

pub Distinct-append :
    (xs ys : List String)
    → Distinct xs
    → Distinct ys
    → ((x : String) → Memᴰ x ys → ¬ Memᴰ x xs)
    → Distinct (xs ++ ys)
Distinct-append [] ys dx dy apart = dy
Distinct-append (x ∷ xs) ys (new, dx) dy apart = (
  λ m. elim (Memᴰ.append_cases xs m) [ inl k ↦ new k | inr k ↦ apart x k (Memᴰ.head refl) ],
  Distinct-append xs ys dx dy (λ y k m. apart y k (Memᴰ.tail m)),
)
