-- ===== src/Validate/Cycle/Graph.antt =====
-- What a cycle is, and the lists of blocks that the search of web_ui/utils/validate.ts works on.
use psae_monorepo.Prelude.{
  String, ◌≡◌, refl, ap, sym, subst, ◌≢◌, inl, inr, true, List, [], ◌∷◌, ◌++◌, Memᴰ, arith,
  ==-cases, contains_iff, Memᴰ-cons,
}
use mathlib.Core.List.Memᴰ
use mathlib.Core.WellFounded.{Acc}
use psae_monorepo.Dict
use psae_monorepo.Dict.{Dict}
use psae_monorepo.Validate.Cycle.{deps_of, pop, from_first, slice_from}

-- Block `n` depends on block `d`, and both stand in the graph.
abbrev pub Dep : Dict (List String) → String → String → Type 0
Dep adj d n = Memᴰ d (deps_of adj n) × (Dict.has d adj ≡ true)

-- Each block of the list depends on the next one.
abbrev pub Chain : Dict (List String) → List String → Type 0
Chain adj [] = Unit
Chain adj (x ∷ []) = Unit
Chain adj (x ∷ y ∷ r) = Dep adj y x × Chain adj (y ∷ r)

-- A walk along dependencies that ends where it began.
pub record IsCycle (adj : Dict (List String)) (c : List String) : Type 0 where
  pub start : String
  pub middle : List String
  pub closed : c ≡ start ∷ (middle ++ start ∷ [])
  pub linked : Chain adj c

pub pop-concat : (xs : List String) (x : String) → pop (xs ++ x ∷ []) ≡ xs
unfolding pop
pop-concat [] x = refl
pop-concat (y ∷ []) x = refl
pop-concat (y ∷ z ∷ r) x = ap (λ t. y ∷ t) (pop-concat (z ∷ r) x)

module _ (adj : Dict (List String)) where
  pub Chain-tail : (x : String) (r : List String) → Chain adj (x ∷ r) → Chain adj r
  Chain-tail x [] h = tt
  Chain-tail x (y ∷ r) h = h.1

  pub Chain-concat :
      (xs : List String) (n d : String)
      → Chain adj (xs ++ n ∷ [])
      → Dep adj d n
      → Chain adj ((xs ++ n ∷ []) ++ d ∷ [])
  Chain-concat [] n d h e = (e, tt)
  Chain-concat (x ∷ []) n d h e = (h.0, (e, tt))
  Chain-concat (x ∷ y ∷ r) n d h e = (h.0, Chain-concat (y ∷ r) n d h.1 e)

  -- The part of a chain from the first place of `d` on is a chain that begins with `d`.
  pub Chain-from_first :
      (d : String) (xs ys : List String)
      → Memᴰ d xs
      → Chain adj (xs ++ ys)
      → Chain adj (from_first d xs ++ ys)
  unfolding from_first
  Chain-from_first d [] ys m h = absurd (Memᴰ.not-nil m)
  Chain-from_first d (x ∷ xs) ys m h = elim (==-cases x d) [
    | inl (t, e) ↦ rw t h
    | inr (t, ne) ↦ rw t (Chain-from_first d xs ys (other x xs m ne) (Chain-tail x (xs ++ ys) h))
  ]
    where
      other : (x : String) (xs : List String) → Memᴰ d (x ∷ xs) → x ≢ d → Memᴰ d xs
      other x xs m ne = ground (arith, Memᴰ-cons d x xs)

  from_first-head :
      (d : String) (xs : List String) → Memᴰ d xs → (r : List String) × (from_first d xs ≡ d ∷ r)
  unfolding from_first
  from_first-head d [] m = absurd (Memᴰ.not-nil m)
  from_first-head d (x ∷ xs) m = elim (==-cases x d) [
    | inl (t, e) ↦ (xs, rw t (rw e refl))
    | inr (t, ne) ↦ elim (Memᴰ.cases_cons m) [
      | inl e ↦ absurd (ne (sym e))
      | inr k ↦ rw t (from_first-head d xs k)
    ]
  ]

  -- What the search reports at a back edge is a cycle.
  pub IsCycle-slice_from :
      (xs : List String) (n d : String)
      → Chain adj (xs ++ n ∷ [])
      → Dep adj d n
      → Memᴰ d (xs ++ n ∷ [])
      → IsCycle adj (slice_from d (xs ++ n ∷ []) ++ d ∷ [])
  unfolding slice_from
  IsCycle-slice_from xs n d h e m =
      let (r, p) = from_first-head d (xs ++ n ∷ []) m in
      rw ((contains_iff d (xs ++ n ∷ [])).1 m) (record {
        start = d;
        middle = r;
        closed = ap (λ t. t ++ d ∷ []) p;
        linked = Chain-from_first d (xs ++ n ∷ []) (d ∷ []) m (Chain-concat xs n d h e);
      })

  no_return :
      (x : String) (middle : List String) → Acc (Dep adj) x → Chain adj (x ∷ (middle ++ x ∷ [])) → ⊥
  no_return x [] (Acc.intro _ smaller) h = no_return x [] (smaller x h.0) h
  no_return x (y ∷ m) (Acc.intro _ smaller) h =
      no_return y (m ++ x ∷ []) (smaller y h.0) (Chain-concat (y ∷ m) x y h.1 h.0)

  -- A graph whose dependencies are well founded has no cycle.
  pub not-IsCycle : ((n : String) → Acc (Dep adj) n) → (c : List String) → ¬ IsCycle adj c
  not-IsCycle wf c h = no_return h.start h.middle (wf h.start) (subst (Chain adj) h.closed h.linked)
