-- ===== src/MapContext/Deepest.antt =====
-- The stack at the output of a block, by its kind, and the deepest of the stacks of its dependencies.
use psae_monorepo.Prelude.{
  ◌≤◌, String, Bool, true, false, ◌≡◌, refl, sym, ap, subst, ◌∙◌, ◌⊎◌, inl, inr, some, List, [],
  ◌∷◌, ◌++◌, append-nil, Memᴰ, arith, Option-cases, if◌then◌else◌, length, ltb,
}
use mathlib.Core.List.Memᴰ
use psae_monorepo.Dict
use psae_monorepo.Dict.{Dict}
use psae_monorepo.Types.{BlockKind}
use psae_monorepo.MapContext.{MapGraphNode, deepest, without_last, stack_after}
use psae_monorepo.MapContext.Stacks.{input_stack}

-- How the stack at the output of a block comes from that at its input.
pub data Leaves : BlockKind → String → List String → List String → Type 0 where
  opens : {id : String} {inc : List String} → Leaves BlockKind.map id inc (inc ++ id ∷ [])
  closes :
      {id : String} {inc : List String} (opened : String)
      → Leaves BlockKind.reduce id (inc ++ opened ∷ []) inc
  closes_nothing : {id : String} → Leaves BlockKind.reduce id [] []
  passes : {id : String} {inc : List String} → Leaves BlockKind.standard id inc inc

-- The stack is that of a dependency whose stack is as long as any, or there are no maps open.
pub record IsDeepest (outgoing : Dict (List String)) (deps inc : List String) : Type 0 where
  pub longest :
      (d : String) (o : List String)
      → Memᴰ d deps
      → Dict.get d outgoing ≡ some o
      → length o ≤ length inc
  pub from_dep : (inc ≡ []) ⊎ ((d : String) × Memᴰ d deps × (Dict.get d outgoing ≡ some inc))

snoc-cases :
    (x : String) (xs : List String)
    → (init : List String) × (last : String) × (x ∷ xs ≡ init ++ last ∷ [])
      × (without_last (x ∷ xs) ≡ init)
unfolding without_last
snoc-cases x [] = ([], x, refl, refl)
snoc-cases x (y ∷ ys) =
    let (init, last, e, f) = snoc-cases y ys in
    (x ∷ init, last, ap (λ l. x ∷ l) e, ap (λ l. x ∷ l) f)

pub stack_after-Leaves :
    (k : BlockKind) (id : String) (inc : List String) → Leaves k id inc (stack_after k id inc)
unfolding stack_after without_last
stack_after-Leaves BlockKind.map id inc = Leaves.opens
stack_after-Leaves BlockKind.standard id inc = Leaves.passes
stack_after-Leaves BlockKind.reduce id [] = Leaves.closes_nothing
stack_after-Leaves BlockKind.reduce id (x ∷ inc) =
    let (init, last, e, f) = snoc-cases x inc in
    subst (λ l. Leaves BlockKind.reduce id l (without_last (x ∷ inc))) (sym e)
      (subst (λ l. Leaves BlockKind.reduce id (init ++ last ∷ []) l) (sym f) (Leaves.closes last))

pub Leaves-cases :
    {k : BlockKind} {id : String} {inc out : List String}
    → Leaves k id inc out
    → ((k ≡ BlockKind.map) × (out ≡ inc ++ id ∷ []))
      ⊎ (¬ (k ≡ BlockKind.map) × (below : List String) × (inc ≡ out ++ below))
Leaves-cases Leaves.opens = inl (refl, refl)
Leaves-cases (Leaves.closes last) = inr (λ e. cc, last ∷ [], refl)
Leaves-cases Leaves.closes_nothing = inr (λ e. cc, [], refl)
Leaves-cases Leaves.passes = inr (λ e. cc, [], sym (append-nil _))

-- The longest of the stacks, from one that is found before.
record IsLongest (outgoing : Dict (List String)) (deps inc best : List String) : Type 0 where
  grows : length inc ≤ length best
  longest :
      (d : String) (o : List String)
      → Memᴰ d deps
      → Dict.get d outgoing ≡ some o
      → length o ≤ length best
  origin : (best ≡ inc) ⊎ ((d : String) × Memᴰ d deps × (Dict.get d outgoing ≡ some best))

longer :
    (o inc : List String) (b : Bool)
    → ltb (length inc) (length o) ≡ b
    → (length inc ≤ length (if b then o else inc)) × (length o ≤ length (if b then o else inc))
longer o inc true e = (ground (arith, e), omega arith)
longer o inc false e = (omega arith, ground (arith, e))

if-cases :
    (b : Bool) (o inc : List String) → ((if b then o else inc) ≡ inc) ⊎ ((if b then o else inc) ≡ o)
if-cases true o inc = inr refl
if-cases false o inc = inl refl

deepest-IsLongest :
    (outgoing : Dict (List String)) (deps inc : List String)
    → IsLongest outgoing deps inc (deepest outgoing deps inc)
unfolding deepest
deepest-IsLongest outgoing [] inc = record {
  grows = omega arith;
  longest = λ d o m. absurd (Memᴰ.not-nil m);
  origin = inl refl;
}
deepest-IsLongest outgoing (d ∷ deps) inc = elim (Option-cases (Dict.get d outgoing)) [
  | inl n ↦
      let r = deepest-IsLongest outgoing deps inc in
      rw n (record {
        grows = r.grows;
        longest = λ e o m q. elim (Memᴰ.cases_cons m) [
          | inl p ↦ let same = ap (λ x. Dict.get x outgoing) p in cc
          | inr k ↦ r.longest e o k q
        ];
        origin = elim r.origin [ inl p ↦ inl p | inr (e, k, q) ↦ inr (e, Memᴰ.tail k, q) ];
      })
  | inr (o, n) ↦
      let b = ltb (length inc) (length o) in
      let r = deepest-IsLongest outgoing deps (if b then o else inc) in
      let (low, high) = longer o inc b refl in
      rw n (record {
        grows = omega (arith, low, r.grows);
        longest = λ e x m q. elim (Memᴰ.cases_cons m) [
          | inl p ↦
              let same = ap (λ y. Dict.get y outgoing) p in
              let it : x ≡ o = cc in
              subst (λ y. length y ≤ length (deepest outgoing deps (if b then o else inc))) (sym it)
                (omega (arith, high, r.grows))
          | inr k ↦ r.longest e x k q
        ];
        origin = elim r.origin [
          | inl p ↦ elim (if-cases b o inc) [
            | inl z ↦ inl (p ∙ z)
            | inr z ↦ inr (d, Memᴰ.head refl, n ∙ ap some (sym (p ∙ z)))
          ]
          | inr (e, k, q) ↦ inr (e, Memᴰ.tail k, q)
        ];
      })
]

pub input_stack-IsDeepest :
    (outgoing : Dict (List String)) (n : MapGraphNode)
    → IsDeepest outgoing n.deps (input_stack outgoing n)
input_stack-IsDeepest outgoing n =
    let r = deepest-IsLongest outgoing n.deps [] in
    record { longest = r.longest; from_dep = r.origin }
