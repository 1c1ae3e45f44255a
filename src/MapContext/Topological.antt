-- ===== src/MapContext/Topological.antt =====
-- The order that the sort makes: no block twice, each behind its dependencies, and all of them where the
-- dependencies are well founded.
use psae_monorepo.Prelude.{
  ℕ, zero, suc, ◌+◌, String, Bool, true, false, not, ◌≡◌, refl, sym, ap, subst, ◌∙◌, ◌↔◌, inl, inr,
  some, get_or, List, [], ◌∷◌, ◌++◌, append-nil, Memᴰ, arith, Bool-cases, Distinct, length,
  contains, contains_iff, filter, mem-filter, filter_of_mem, Memᴰ-map,
}
use mathlib.Core.List.Memᴰ
use mathlib.Core.WellFounded.{Acc}
use psae_monorepo.Dict
use psae_monorepo.Dict.{Dict}
use psae_monorepo.MapContext.{
  MapGraphNode, ℤ, pos, is_zero, degree, by_id, sorted, links_of, ready, order_of,
}
use psae_monorepo.MapContext.Linking.{
  ids, edges_of, links_of-Represents, mem-ids, mem-graph_edges_iff, has-by_id,
}
use psae_monorepo.MapContext.Loop.{sorted-ends}
use psae_monorepo.MapContext.Order.{pending, IsOrdered, zero-pending, pending-none}
use psae_monorepo.MapContext.Sorting.{IsSorting, Ends, sort_loop-IsSorting}

-- `d` is a block of the graph on which `c` depends.
abbrev pub Precedes : List MapGraphNode → String → String → Type 0
Precedes nodes d c =
    (n : MapGraphNode) × Memᴰ n nodes × (c ≡ n.id) × Memᴰ d n.deps × Memᴰ d (ids nodes)

-- Each block stands behind those it depends on, which are in `seen` or before it.
abbrev pub InOrder : List MapGraphNode → List String → List String → Type 0
InOrder nodes seen [] = Unit
InOrder nodes seen (c ∷ cs) =
    ((d : String) → Precedes nodes d c → Memᴰ d seen) × InOrder nodes (seen ++ c ∷ []) cs

pub record IsTopological (nodes : List MapGraphNode) (order : List String) : Type 0 where
  pub distinct : Distinct order
  pub blocks_iff : (c : String) → Memᴰ c order ↔ Memᴰ c (ids nodes)
  pub behind : InOrder nodes [] order

known_iff :
    (nodes : List MapGraphNode) (d : String)
    → (Dict.has d (by_id nodes []) ≡ true) ↔ Memᴰ d (ids nodes)
unfolding Dict.has
known_iff nodes d =
    let h = has-by_id nodes [] d in
    (λ e. elim (h.0 e) [ inl k ↦ k | inr f ↦ absurd (bool_absurd f) ], λ k. h.1 (inl k))
  where
    bool_absurd : false ≡ true → ⊥
    bool_absurd f = cc

edge_iff :
    (nodes : List MapGraphNode) (d c : String) → Memᴰ (d, c) (edges_of nodes) ↔ Precedes nodes d c
edge_iff nodes d c =
    let edge = mem-graph_edges_iff (by_id nodes []) nodes d c in
    let known = known_iff nodes d in
    (
      λ m. let (n, a, b, e, h) = edge.0 m in (n, a, b, e, known.0 h),
      λ (n, a, b, e, h). edge.1 (n, a, b, e, known.1 h),
    )

edges_of-Ends : (nodes : List MapGraphNode) → Ends (ids nodes) (edges_of nodes)
edges_of-Ends nodes d c m =
    let (n, k, e, _, _) = (edge_iff nodes d c).0 m in
    subst (λ x. Memᴰ x (ids nodes)) (sym e) (mem-ids n nodes k)

IsOrdered-InOrder :
    (nodes : List MapGraphNode) (seen order : List String)
    → IsOrdered (edges_of nodes) seen order
    → InOrder nodes seen order
IsOrdered-InOrder nodes seen [] h = tt
IsOrdered-InOrder nodes seen (c ∷ cs) (first, rest) =
    ((λ d p. first d ((edge_iff nodes d c).1 p)), IsOrdered-InOrder nodes (seen ++ c ∷ []) cs rest)

Distinct-map-filter :
    (p : MapGraphNode → Bool) (nodes : List MapGraphNode)
    → Distinct (ids nodes)
    → Distinct (ids (filter p nodes))
Distinct-map-filter p [] d = tt
Distinct-map-filter p (n ∷ nodes) (new, d) = elim (Bool-cases (p n)) [
  | inl t ↦ rw t (
    λ m.
        let (x, k, e) = Memᴰ-map (λ y. y.id) n.id (filter p nodes) m in
        new (subst (λ i. Memᴰ i (ids nodes)) (sym e) (mem-ids x nodes (mem-filter p nodes k).0)),
    Distinct-map-filter p nodes d,
  )
  | inr f ↦ rw f (Distinct-map-filter p nodes d)
]

is_zero_iff : (n : ℕ) → (is_zero (pos n) ≡ true) ↔ (n ≡ 0)
is_zero_iff zero = (λ e. refl, λ e. refl)
is_zero_iff (suc n) = (λ e. cc, λ e. absurd (omega (arith, e)))

start :
    (nodes : List MapGraphNode)
    → Distinct (ids nodes)
    → IsSorting
        (ids nodes)
        (edges_of nodes)
        (ready nodes (links_of nodes).indeg)
        []
        (links_of nodes).indeg
unfolding ready degree
start nodes d = record {
  distinct = Distinct-map-filter is_ready nodes d;
  only_known = λ c m. (found c m).0;
  degrees = degrees;
  met_iff = λ c k. (
    λ m. (found c m).1,
    λ z.
        let (n, i, e) = Memᴰ-map (λ y. y.id) c nodes k in
        let count_is : pending [] n.id (edges_of nodes) ≡ 0 =
          subst (λ x. pending [] x (edges_of nodes) ≡ 0) e z in
        subst (λ x. Memᴰ x (ids (filter is_ready nodes))) (sym e)
          (mem-ids n (filter is_ready nodes)
            (filter_of_mem is_ready nodes i ((ready_iff n i).1 count_is))),
  );
  ordered = tt;
}
  where
    is_ready : MapGraphNode → Bool
    is_ready n = is_zero (degree n.id (links_of nodes).indeg)

    degrees :
        (c : String)
        → Memᴰ c (ids nodes)
        → Dict.get c (links_of nodes).indeg ≡ some (pos (pending [] c (edges_of nodes)))
    degrees c k =
        (links_of-Represents nodes).degrees c k
        ∙ ap (λ n. some (pos n)) (pending-none c (edges_of nodes))

    ready_iff :
        (n : MapGraphNode)
        → Memᴰ n nodes
        → (is_ready n ≡ true) ↔ (pending [] n.id (edges_of nodes) ≡ 0)
    ready_iff n k =
        subst (λ o. (is_zero (get_or o (pos 0)) ≡ true) ↔ (pending [] n.id (edges_of nodes) ≡ 0))
          (sym (degrees n.id (mem-ids n nodes k))) (is_zero_iff (pending [] n.id (edges_of nodes)))

    found :
        (c : String)
        → Memᴰ c (ids (filter is_ready nodes))
        → Memᴰ c (ids nodes) × (pending [] c (edges_of nodes) ≡ 0)
    found c m =
        let (n, k, e) = Memᴰ-map (λ y. y.id) c (filter is_ready nodes) m in
        let (i, t) = mem-filter is_ready nodes k in
        subst (λ x. Memᴰ x (ids nodes) × (pending [] x (edges_of nodes) ≡ 0)) (sym e)
          (mem-ids n nodes i, (ready_iff n i).0 t)

sorted-IsSorting :
    (nodes : List MapGraphNode) (order : List String)
    → Distinct (ids nodes)
    → sorted nodes ≡ some order
    → (left : Dict ℤ) × IsSorting (ids nodes) (edges_of nodes) [] order left
unfolding sorted
sorted-IsSorting nodes order d e =
    let l = links_of nodes in
    sort_loop-IsSorting (ids nodes) (edges_of nodes) l.children (links_of-Represents nodes).children
      (edges_of-Ends nodes) (length (ready nodes l.indeg) + length l.indeg) (ready nodes l.indeg) []
      l.indeg order (start nodes d) e

-- A block with well founded dependencies is met.
met :
    (nodes : List MapGraphNode) (order : List String) (left : Dict ℤ)
    → IsSorting (ids nodes) (edges_of nodes) [] order left
    → (c : String) → Acc (Precedes nodes) c
    → Memᴰ c (ids nodes)
    → Memᴰ c order
met nodes order left s c (Acc.intro _ before) k = subst (Memᴰ c) (append-nil order) (
    (s.met_iff c k).1 (
      zero-pending order c (edges_of nodes) (λ d m.
        let p = (edge_iff nodes d c).0 m in
        let (_, _, _, _, i) = p in met nodes order left s d (before d p) i)))

filter-none :
    (order xs : List String)
    → ((x : String) → Memᴰ x xs → Memᴰ x order)
    → filter (λ x. not (contains x order)) xs ≡ []
filter-none order [] h = refl
filter-none order (x ∷ xs) h =
    rw ((contains_iff x order).1 (h x (Memᴰ.head refl)))
      (filter-none order xs (λ y m. h y (Memᴰ.tail m)))

-- Where the ids are distinct and the dependencies well founded, the order has every block once, behind
-- the blocks of the graph that it depends on.
pub order_of-IsTopological :
    (nodes : List MapGraphNode)
    → Distinct (ids nodes)
    → ((c : String) → Acc (Precedes nodes) c)
    → IsTopological nodes (order_of nodes)
unfolding order_of
order_of-IsTopological nodes d wf =
    let (order, e) = sorted-ends nodes in
    let (left, s) = sorted-IsSorting nodes order d e in
    let all = λ (c : String) (k : Memᴰ c (ids nodes)). met nodes order left s c (wf c) k in
    let result : order_of nodes ≡ order =
      rw e (ap (λ xs. order ++ xs) (filter-none order (ids nodes) all) ∙ append-nil order) in
    subst (IsTopological nodes) (sym result) (record {
      distinct = subst Distinct (append-nil order) s.distinct;
      blocks_iff = λ c. (λ m. s.only_known c (Memᴰ.append_left [] m), all c);
      behind = IsOrdered-InOrder nodes [] order s.ordered;
    })
