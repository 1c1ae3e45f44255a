-- ===== src/Validate/Cycle/Correct.antt =====
-- `findCycle` finds a cycle exactly if there is one, and ends.
use psae_monorepo.Prelude.{
  ℕ, suc, ◌+◌, ◌≤◌, String, ◌≡◌, refl, ap, sym, subst, ◌∙◌, ◌≢◌, ◌↔◌, ◌⊎◌, inl, inr, true, Option,
  none, some, List, [], ◌∷◌, ◌++◌, Memᴰ, arith, ==_iff, Option-cases, Memᴰ-cons, length,
}
use mathlib.Core.List.Memᴰ
use mathlib.Core.WellFounded.{Acc}
use psae_monorepo.Dict
use psae_monorepo.Dict.{Dict, is_some}
use psae_monorepo.Types.{Block}
use psae_monorepo.Validate.Cycle.{
  Color, white, gray, black, State, Outcome, done, found, out_of_fuel, dfs, visit_root, roots,
  whiten, cycle_of, adjacency, run_search, find_cycle,
}
use psae_monorepo.Validate.Cycle.Graph.{Dep, Chain, IsCycle, not-IsCycle}
use psae_monorepo.Validate.Cycle.Search.{
  whites, Inv, Ensures, Ensures-bind, Ensures-weaken, Visited, KeepsSettled, AllSettled,
  AllSettled-cons, Keeps-refl, dfs-Visits,
}

get-whiten :
    (ids : List String) (m : Dict Color) (n : String) (c : Color)
    → Dict.get n (whiten ids m) ≡ some c
    → (Dict.get n m ≡ some c) ⊎ (c ≡ white)
unfolding whiten
get-whiten [] m n c h = inl h
get-whiten (id ∷ ids) m n c h =
    ground (arith, get-whiten ids (Dict.set id white m) n c h, Dict.get-set id n white m)

has-whiten :
    (ids : List String) (m : Dict Color) (n : String)
    → (Dict.has n m ≡ true) ⊎ Memᴰ n ids
    → Dict.has n (whiten ids m) ≡ true
unfolding whiten
has-whiten [] m n (inl h) = h
has-whiten [] m n (inr k) = absurd (Memᴰ.not-nil k)
has-whiten (id ∷ ids) m n h = ground (
  arith,
  has-whiten ids (Dict.set id white m) n,
  Dict.has-set id n white m,
  ==_iff id n,
  Memᴰ-cons n id ids,
)

whites-set_white : (k : String) (m : Dict Color) → whites (Dict.set k white m) ≤ suc (whites m)
unfolding Dict.set
whites-set_white k [] = omega arith
whites-set_white k ((j, white) ∷ m) = ground (arith, whites-set_white k m)
whites-set_white k ((j, gray) ∷ m) = ground (arith, whites-set_white k m)
whites-set_white k ((j, black) ∷ m) = ground (arith, whites-set_white k m)

whites-whiten : (ids : List String) (m : Dict Color) → whites (whiten ids m) ≤ length ids + whites m
unfolding whiten
whites-whiten [] m = omega arith
whites-whiten (id ∷ ids) m =
    omega (arith, whites-whiten ids (Dict.set id white m), whites-set_white id m)

length-keys {ℓ} : {V : Type ℓ} (m : Dict V) → length (Dict.keys m) ≡ length m
length-keys [] = refl
length-keys ((k, v) ∷ m) = ap suc (length-keys m)

module _ (adj : Dict (List String)) where
  abbrev start : State
  start = record { color = whiten (Dict.keys adj) []; stack = [] }

  Inv-start : Inv adj start
  unfolding Dict.get
  Inv-start = record {
    finished = λ n e. ground (arith, get-whiten (Dict.keys adj) [] n black e);
    open_path = λ n e. ground (arith, get-whiten (Dict.keys adj) [] n gray e);
    colored = λ n e. has-whiten (Dict.keys adj) [] n (inr ((Dict.has_iff-mem n adj).0 e));
  }

  record IsBetween (fuel : ℕ) (s : State) : Type 0 where
    inv : Inv adj s
    empty : s.stack ≡ []
    fuel_enough : whites s.color ≤ fuel

  visit_root_lem :
      (fuel : ℕ) (id : String) (s : State)
      → IsBetween fuel s
      → Ensures adj (KeepsSettled adj id s) (visit_root fuel adj id s)
  unfolding visit_root
  visit_root_lem fuel id s h = by_color (Dict.get id s.color) refl
    where
      by_color :
          (o : Option Color)
          → Dict.get id s.color ≡ o
          → Ensures adj (KeepsSettled adj id s) (visit_root fuel adj id s)
      by_color none e =
          let same : visit_root fuel adj id s ≡ done s = rw (e, visit_root) refl in
          subst (Ensures adj (KeepsSettled adj id s)) (sym same) (
            Keeps-refl adj s h.inv,
            λ p. ground (arith, h.inv.colored id p, Dict.has-get id s.color),
          )
      by_color (some gray) e =
          absurd (Memᴰ.not-nil (subst (Memᴰ id) h.empty (h.inv.open_path id e)))
      by_color (some black) e =
          let same : visit_root fuel adj id s ≡ done s = rw (e, visit_root) refl in
          subst (Ensures adj (KeepsSettled adj id s)) (sym same) (Keeps-refl adj s h.inv, λ p. e)
      by_color (some white) e =
          let same : visit_root fuel adj id s ≡ dfs fuel adj id s = rw (e, visit_root) refl in
          subst (Ensures adj (KeepsSettled adj id s)) (sym same) (
            Ensures-weaken adj (Visited adj id s) (KeepsSettled adj id s) (λ s' v. (v.0, λ p. v.1))
              (dfs fuel adj id s)
              (dfs-Visits adj fuel id s (record {
                inv = h.inv;
                unseen = e;
                path = subst (λ st. Chain adj (st ++ id ∷ [])) (sym h.empty) tt;
                fuel_enough = h.fuel_enough;
              })))

  roots_lem :
      (fuel : ℕ) (ids : List String) (s : State)
      → IsBetween fuel s
      → Ensures adj (AllSettled adj ids s) (roots fuel adj ids s)
  unfolding roots
  roots_lem fuel [] s h = (Keeps-refl adj s h.inv, λ d m. absurd (Memᴰ.not-nil m))
  roots_lem fuel (id ∷ ids) s h =
      Ensures-bind adj (KeepsSettled adj id s) (AllSettled adj (id ∷ ids) s)
        (visit_root fuel adj id s) (roots fuel adj ids) (visit_root_lem fuel id s h)
        (λ s' v.
          Ensures-weaken adj (AllSettled adj ids s') (AllSettled adj (id ∷ ids) s)
            (λ s''. AllSettled-cons adj id ids s s' s'' v) (roots fuel adj ids s')
            (roots_lem fuel ids s' (record {
              inv = v.0.inv;
              empty = v.0.stack ∙ h.empty;
              fuel_enough = omega (arith, v.0.fewer, h.fuel_enough);
            })))

  -- A search from every block ends with a cycle, or with the graph well founded.
  roots-start :
      Ensures adj
        (λ s. (n : String) → Acc (Dep adj) n)
        (roots (length adj) adj (Dict.keys adj) start)
  unfolding Dict.get
  roots-start =
      Ensures-weaken adj (AllSettled adj (Dict.keys adj) start)
        (λ s. (n : String) → Acc (Dep adj) n)
        (λ s' k n.
          Acc.intro n (λ d e. k.0.inv.finished d (k.1 d ((Dict.has_iff-mem d adj).0 e.1) e.1)))
        (roots (length adj) adj (Dict.keys adj) start)
        (roots_lem (length adj) (Dict.keys adj) start (record {
          inv = Inv-start;
          empty = refl;
          fuel_enough = omega (arith, whites-whiten (Dict.keys adj) [], length-keys {0} adj);
        }))

cycle_of-found :
    (adj : Dict (List String)) (P : State → Type 0) (o : Outcome) {c : List String}
    → Ensures adj P o
    → cycle_of o ≡ some c
    → IsCycle adj c
unfolding cycle_of
cycle_of-found adj P (done s) h e = cc
cycle_of-found adj P (found c) h e = subst (IsCycle adj) (some_inj e) h
  where
    some_inj : {a b : List String} → some a ≡ some b → a ≡ b
    some_inj e = cc
cycle_of-found adj P out_of_fuel h e = cc

cycle_of-none :
    (adj : Dict (List String)) (P : Type 0) (o : Outcome)
    → Ensures adj (λ s. P) o
    → cycle_of o ≡ none
    → P
unfolding cycle_of
cycle_of-none adj P (done s) h e = h
cycle_of-none adj P (found c) h e = cc
cycle_of-none adj P out_of_fuel h e = absurd h

module _ {A : Type 0} where
  run_search_lem :
      (blocks : List (Block A))
      → Ensures
          (adjacency blocks)
          (λ s. (n : String) → Acc (Dep (adjacency blocks)) n)
          (run_search blocks)
  unfolding run_search
  run_search_lem blocks = roots-start (adjacency blocks)

  -- The search of `findCycle` ends: as much recursion as there are blocks is always enough.
  pub run_search-ne-out_of_fuel : (blocks : List (Block A)) → run_search blocks ≢ out_of_fuel
  run_search-ne-out_of_fuel blocks e =
      subst (Ensures (adjacency blocks) (λ s. (n : String) → Acc (Dep (adjacency blocks)) n)) e
        (run_search_lem blocks)

  -- Where `findCycle` returns a list, that list is a cycle: each block of it depends on the next,
  -- and the last is the first.
  pub find_cycle_sound :
      (blocks : List (Block A)) (c : List String)
      → find_cycle blocks ≡ some c
      → IsCycle (adjacency blocks) c
  unfolding find_cycle
  find_cycle_sound blocks c e =
      cycle_of-found (adjacency blocks) (λ s. (n : String) → Acc (Dep (adjacency blocks)) n)
        (run_search blocks) (run_search_lem blocks) e

  -- Where `findCycle` returns null, the dependencies are well founded.
  pub find_cycle-Acc :
      (blocks : List (Block A))
      → find_cycle blocks ≡ none
      → (n : String) → Acc (Dep (adjacency blocks)) n
  unfolding find_cycle
  find_cycle-Acc blocks e =
      cycle_of-none (adjacency blocks) ((n : String) → Acc (Dep (adjacency blocks)) n)
        (run_search blocks) (run_search_lem blocks) e

  -- `findCycle` returns null exactly where the dependency graph has no cycle.
  pub find_cycle-eq-none_iff :
      (blocks : List (Block A))
      → (find_cycle blocks ≡ none) ↔ ((c : List String) → ¬ IsCycle (adjacency blocks) c)
  find_cycle-eq-none_iff blocks = (
    λ e. not-IsCycle (adjacency blocks) (find_cycle-Acc blocks e),
    λ acyclic. elim (Option-cases (find_cycle blocks)) [
      | inl e ↦ e
      | inr (c, e) ↦ absurd (acyclic c (find_cycle_sound blocks c e))
    ],
  )
