-- ===== src/MapContext/Sorting.antt =====
-- The loop of the sort keeps its invariant.
use psae_monorepo.Prelude.{
  ℕ, zero, suc, ◌<◌, String, true, false, ◌≡◌, refl, sym, ap, subst, ◌∙◌, ◌↔◌, ◌⊎◌, inl, inr, some,
  get_or, List, [], ◌∷◌, ◌++◌, append_assoc, Memᴰ, arith, Bool-cases, Distinct, Distinct-middle,
  count_of_mem, contains, not-contains_iff,
}
use mathlib.Core.List.Memᴰ
use psae_monorepo.Dict
use psae_monorepo.Dict.{Dict}
use psae_monorepo.MapContext.{ℤ, pos, is_zero, relax, sort_loop}
use psae_monorepo.MapContext.Linking.{Edges, from}
use psae_monorepo.MapContext.Relax.{IsRelaxed, relax-IsRelaxed}
use psae_monorepo.MapContext.Order.{
  pending, IsOrdered, IsOrdered-concat, pending-step, pending-zero, mem-from, Distinct-append,
}

-- The state of the loop: the counts are those of the dependencies that are not in the order, and a block
-- was met once it has none.
pub record IsSorting (known : List String) (es : Edges) (queue order : List String) (indeg : Dict ℤ)
    : Type 0 where
  pub distinct : Distinct (order ++ queue)
  pub only_known : (c : String) → Memᴰ c (order ++ queue) → Memᴰ c known
  pub degrees : (c : String) → Memᴰ c known → Dict.get c indeg ≡ some (pos (pending order c es))
  pub met_iff : (c : String) → Memᴰ c known → Memᴰ c (order ++ queue) ↔ (pending order c es ≡ 0)
  pub ordered : IsOrdered es [] order

-- The end of the edges is a block of the graph.
abbrev pub Ends : List String → Edges → Type 0
Ends known es = (d c : String) → Memᴰ (d, c) es → Memᴰ c known

advance :
    (known : List String) (es : Edges) (id : String) (queue order : List String) (indeg : Dict ℤ)
    (out : List String × Dict ℤ)
    → Ends known es
    → contains id order ≡ false
    → IsSorting known es (id ∷ queue) order indeg
    → IsRelaxed known (λ c. pending order c es) (from id es) queue out
    → IsSorting known es out.0 (order ++ id ∷ []) out.1
advance known es id queue order indeg out ends new s r = record {
  distinct =
      subst Distinct (sym moved)
        (Distinct-append (order ++ id ∷ queue) r.new s.distinct r.distinct apart);
  only_known = λ c m. elim (met c m) [ inl k ↦ s.only_known c k | inr k ↦ joined_known c k ];
  degrees =
      λ c k. r.degrees c k ∙ ap (λ n. some (pos n)) (omega (arith, pending-step order id c es new));
  met_iff = λ c k.
      let step = pending-step order id c es new in
      (
        λ m. elim (met c m) [
          | inl i ↦ let z = (s.met_iff c k).0 i in omega (arith, z, step)
          | inr i ↦ let (e, _) = (r.new_iff c).0 i in omega (arith, e, step)
        ],
        λ z. subst (Memᴰ c) (sym moved) (elim (Bool-cases (is_zero (pos (pending order c es)))) [
          | inl t ↦ Memᴰ.append_left r.new ((s.met_iff c k).1 (zero_of _ t))
          | inr f ↦
              let some_left = some_of _ f in
              Memᴰ.append_right (order ++ id ∷ queue)
                ((r.new_iff c).1 (omega (arith, z, step), omega (arith, z, step, some_left)))
        ]),
      );
  ordered =
      IsOrdered-concat es [] order id s.ordered
        (pending-zero order id es ((s.met_iff id (s.only_known id here)).0 here));
}
  where
    here : Memᴰ id (order ++ id ∷ queue)
    here = Memᴰ.append_right order (Memᴰ.head refl)

    moved : (order ++ id ∷ []) ++ out.0 ≡ (order ++ id ∷ queue) ++ r.new
    moved =
        ap (λ q. (order ++ id ∷ []) ++ q) r.joined
        ∙ append_assoc order (id ∷ []) (queue ++ r.new)
        ∙ sym (append_assoc order (id ∷ queue) r.new)

    met :
        (c : String)
        → Memᴰ c ((order ++ id ∷ []) ++ out.0)
        → Memᴰ c (order ++ id ∷ queue) ⊎ Memᴰ c r.new
    met c m = Memᴰ.append_cases (order ++ id ∷ queue) (subst (Memᴰ c) moved m)

    joined_known : (c : String) → Memᴰ c r.new → Memᴰ c known
    joined_known c k =
        ends id c (mem-from id c es ((count_of_mem c (from id es)).1 ((r.new_iff c).0 k).1))

    apart : (c : String) → Memᴰ c r.new → ¬ Memᴰ c (order ++ id ∷ queue)
    apart c k m =
        let (e, l) = (r.new_iff c).0 k in
        let z = (s.met_iff c (joined_known c k)).0 m in omega (arith, e, l, z)

    zero_of : (n : ℕ) → is_zero (pos n) ≡ true → n ≡ 0
    zero_of zero e = refl
    zero_of (suc n) e = cc

    some_of : (n : ℕ) → is_zero (pos n) ≡ false → 0 < n
    some_of zero e = cc
    some_of (suc n) e = omega arith

module _ (known : List String) (es : Edges) (children : Dict (List String))
    (listed : (d : String) → Memᴰ d known → Dict.get d children ≡ some (from d es))
    (ends : Ends known es) where
  round :
      (id : String) (queue order : List String) (indeg : Dict ℤ)
      → IsSorting known es (id ∷ queue) order indeg
      → IsSorting known es
          (relax (get_or (Dict.get id children) []) queue indeg).0
          (order ++ id ∷ [])
          (relax (get_or (Dict.get id children) []) queue indeg).1
  round id queue order indeg s =
      let new = (not-contains_iff id order).1 (Distinct-middle order id queue s.distinct) in
      rw (listed id (s.only_known id (Memᴰ.append_right order (Memᴰ.head refl)))) (
        advance known es id queue order indeg (relax (from id es) queue indeg) ends new s (
          relax-IsRelaxed known (λ c. pending order c es) (from id es) queue indeg s.degrees
            (λ c m. ends id c (mem-from id c es m))
            (λ c. omega (arith, pending-step order id c es new))))

  pub sort_loop-IsSorting :
      (fuel : ℕ) (queue order : List String) (indeg : Dict ℤ) (result : List String)
      → IsSorting known es queue order indeg
      → sort_loop fuel children queue order indeg ≡ some result
      → (left : Dict ℤ) × IsSorting known es [] result left
  unfolding sort_loop
  sort_loop-IsSorting zero [] order indeg result s e =
      (indeg, subst (λ o. IsSorting known es [] o indeg) (cc) s)
  sort_loop-IsSorting (suc fuel) [] order indeg result s e =
      (indeg, subst (λ o. IsSorting known es [] o indeg) (cc) s)
  sort_loop-IsSorting zero (id ∷ queue) order indeg result s e = absurd (cc)
  sort_loop-IsSorting (suc fuel) (id ∷ queue) order indeg result s e =
      let out = relax (get_or (Dict.get id children) []) queue indeg in
      sort_loop-IsSorting fuel out.0 (order ++ id ∷ []) out.1 result (round id queue order indeg s)
        e
