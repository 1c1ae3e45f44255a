-- ===== src/MapContext/Stacks.antt =====
-- The stacks of the blocks, once all of them are placed in an order of the dependencies.
use psae_monorepo.Prelude.{
  String, Bool, true, false, ◌≡◌, refl, sym, ap, subst, ◌∙◌, ◌↔◌, ◌⊎◌, inl, inr, none, some, List,
  [], ◌∷◌, ◌++◌, append_assoc, append-nil, Memᴰ, ==-cases, ==_refl, if◌then◌else◌, Distinct,
  Distinct-middle, Memᴰ-map, length, ltb,
}
use mathlib.Core.List.Memᴰ
use psae_monorepo.Dict
use psae_monorepo.Dict.{Dict}
use psae_monorepo.MapContext.{
  MapGraphNode, by_id, deepest, stack_after, is_nested, MapContexts, place, place_all,
}
use psae_monorepo.MapContext.Linking.{ids, mem-ids, get-by_id}
use psae_monorepo.MapContext.Topological.{Precedes, InOrder}

deepest-same :
    (o p : Dict (List String)) (deps inc : List String)
    → ((d : String) → Memᴰ d deps → Dict.get d o ≡ Dict.get d p)
    → deepest o deps inc ≡ deepest p deps inc
unfolding deepest
deepest-same o p [] inc h = refl
deepest-same o p (d ∷ deps) inc h = rw (h d (Memᴰ.head refl)) (
    deepest-same o p deps
      (elim (Dict.get d p) [ none ↦ inc | some q ↦ if ltb (length inc) (length q) then q else inc ])
      (λ e m. h e (Memᴰ.tail m)))

-- The stack at the input of a block, by the stacks of the outputs.
abbrev pub input_stack : Dict (List String) → MapGraphNode → List String
input_stack outgoing n = deepest outgoing n.deps []

module _ (nodes : List MapGraphNode) where
  pub record IsPlaced (seen : List String) (c : MapContexts) : Type 0 where
    pub unplaced : (x : String) → ¬ Memᴰ x seen → Dict.get x c.outgoing ≡ none
    pub inputs :
        (n : MapGraphNode)
        → Memᴰ n nodes
        → Memᴰ n.id seen
        → Dict.get n.id c.incoming ≡ some (input_stack c.outgoing n)
    pub outputs :
        (n : MapGraphNode)
        → Memᴰ n nodes
        → Memᴰ n.id seen
        → Dict.get n.id c.outgoing ≡ some (stack_after n.kind n.id (input_stack c.outgoing n))
    pub closed :
        (n : MapGraphNode)
        → Memᴰ n nodes
        → Memᴰ n.id seen
        → (d : String) → Precedes nodes d n.id
        → Memᴰ d seen
    pub nested_iff :
        (x : String)
        → Memᴰ x c.nested_maps ↔ (
            (n : MapGraphNode) × Memᴰ n nodes
            × Memᴰ n.id seen
            × (x ≡ n.id)
            × (is_nested n.kind (input_stack c.outgoing n) ≡ true))
    pub keyed : Distinct (Dict.keys c.incoming)

  pub same_node :
      (m n : MapGraphNode)
      → Distinct (ids nodes)
      → Memᴰ m nodes
      → Memᴰ n nodes
      → m.id ≡ n.id
      → m ≡ n
  same_node m n d k i e =
      let found = get-by_id nodes [] m d k in
      let there = get-by_id nodes [] n d i in
      let same : Dict.get m.id (by_id nodes []) ≡ Dict.get n.id (by_id nodes []) =
        ap (λ x. Dict.get x (by_id nodes [])) e in
      cc

  unfoldable placed_at : MapGraphNode → MapContexts → MapContexts
  placed_at n c =
      let inc = deepest c.outgoing n.deps [] in
      record {
        incoming = Dict.set n.id inc c.incoming;
        outgoing = Dict.set n.id (stack_after n.kind n.id inc) c.outgoing;
        nested_maps = if is_nested n.kind inc then c.nested_maps ++ n.id ∷ [] else c.nested_maps;
      }

  other-set :
      {V : Type 0} (k j : String) (v : V) (m : Dict V)
      → ¬ (j ≡ k)
      → Dict.get j (Dict.set k v m) ≡ Dict.get j m
  other-set k j v m ne =
      Dict.get-set k j v m
      ∙ elim (==-cases k j) [ inl (t, e) ↦ absurd (ne (sym e)) | inr (t, _) ↦ rw t refl ]

  same-set : {V : Type 0} (k : String) (v : V) (m : Dict V) → Dict.get k (Dict.set k v m) ≡ some v
  same-set k v m = Dict.get-set k k v m ∙ rw (==_refl k) refl

  mem-if_iff :
      (b : Bool) (xs : List String) (y x : String)
      → Memᴰ x (if b then xs ++ y ∷ [] else xs) ↔ (Memᴰ x xs ⊎ ((b ≡ true) × (x ≡ y)))
  mem-if_iff true xs y x = (
    λ m. elim (Memᴰ.append_cases xs m) [
      | inl k ↦ inl k
      | inr k ↦ inr (refl, Memᴰ.eq_of_singleton k)
    ],
    λ w. elim w [
      | inl k ↦ Memᴰ.append_left (y ∷ []) k
      | inr (_, e) ↦ Memᴰ.append_right xs (Memᴰ.head e)
    ],
  )
  mem-if_iff false xs y x = (λ m. inl m, λ w. elim w [ inl k ↦ k | inr (e, _) ↦ cc ])

  placed_at-IsPlaced :
      (seen : List String) (n : MapGraphNode) (c : MapContexts)
      → Distinct (ids nodes)
      → Memᴰ n nodes
      → ¬ Memᴰ n.id seen
      → ((d : String) → Precedes nodes d n.id → Memᴰ d seen)
      → IsPlaced seen c
      → IsPlaced (seen ++ n.id ∷ []) (placed_at n c)
  unfolding placed_at
  placed_at-IsPlaced seen n c distinct there new before s = record {
    unplaced = λ x out.
        other-set n.id x _ c.outgoing (λ e. out (Memᴰ.append_right seen (Memᴰ.head e)))
        ∙ s.unplaced x (λ k. out (Memᴰ.append_left (n.id ∷ []) k));
    inputs = λ m k i. elim (split m k i) [
      | inl h ↦
          other-set n.id m.id (input_stack c.outgoing n) c.incoming (apart m h)
          ∙ s.inputs m k h
          ∙ ap some (sym (kept m k (s.closed m k h)))
      | inr e ↦
          subst (λ y. Dict.get y.id after.incoming ≡ some (input_stack after.outgoing y)) (sym e)
            (same-set n.id (input_stack c.outgoing n) c.incoming
              ∙ ap some (sym (kept n there before)))
    ];
    outputs = λ m k i. elim (split m k i) [
      | inl h ↦
          other-set n.id m.id (stack_after n.kind n.id (input_stack c.outgoing n)) c.outgoing
            (apart m h)
          ∙ s.outputs m k h
          ∙ ap (λ q. some (stack_after m.kind m.id q)) (sym (kept m k (s.closed m k h)))
      | inr e ↦
          subst
            (λ y.
              Dict.get y.id after.outgoing
              ≡ some (stack_after y.kind y.id (input_stack after.outgoing y)))
            (sym e)
            (same-set n.id (stack_after n.kind n.id (input_stack c.outgoing n)) c.outgoing
              ∙ ap (λ q. some (stack_after n.kind n.id q)) (sym (kept n there before)))
    ];
    closed = λ m k i d p. Memᴰ.append_left (n.id ∷ []) (elim (split m k i) [
      | inl h ↦ s.closed m k h d p
      | inr e ↦ before d (subst (λ y. Precedes nodes d y.id) e p)
    ]);
    nested_iff = λ x. (
      λ m.
          elim ((mem-if_iff (is_nested n.kind (input_stack c.outgoing n)) c.nested_maps n.id x).0
            m) [
              | inl q ↦
                  let (w, k, h, e, t) = (s.nested_iff x).0 q in
                  (
                    w,
                    k,
                    Memᴰ.append_left (n.id ∷ []) h,
                    e,
                    ap (is_nested w.kind) (kept w k (s.closed w k h)) ∙ t,
                  )
              | inr (t, e) ↦ (
                n,
                there,
                Memᴰ.append_right seen (Memᴰ.head refl),
                e,
                ap (is_nested n.kind) (kept n there before) ∙ t,
              )
            ],
      λ (w, k, i, e, t).
          (mem-if_iff (is_nested n.kind (input_stack c.outgoing n)) c.nested_maps n.id x).1
            (elim (split w k i) [
              | inl h ↦ inl (
                  (s.nested_iff x).1
                    (w, k, h, e, ap (is_nested w.kind) (sym (kept w k (s.closed w k h))) ∙ t))
              | inr q ↦ inr (
                ap (is_nested n.kind) (sym (kept n there before))
                    ∙ subst (λ y. is_nested y.kind (input_stack after.outgoing y) ≡ true) q t,
                e ∙ ap (λ y. y.id) q,
              )
            ]),
    );
    keyed = Dict.Distinct-set n.id (input_stack c.outgoing n) c.incoming s.keyed;
  }
    where
      after : MapContexts
      after = placed_at n c

      split :
          (m : MapGraphNode)
          → Memᴰ m nodes
          → Memᴰ m.id (seen ++ n.id ∷ [])
          → Memᴰ m.id seen ⊎ (m ≡ n)
      split m k i = elim (Memᴰ.append_cases seen i) [
        | inl h ↦ inl h
        | inr h ↦ inr (same_node m n distinct k there (Memᴰ.eq_of_singleton h))
      ]

      apart : (m : MapGraphNode) → Memᴰ m.id seen → ¬ (m.id ≡ n.id)
      apart m h e = new (subst (λ x. Memᴰ x seen) e h)

      kept :
          (m : MapGraphNode)
          → Memᴰ m nodes
          → ((d : String) → Precedes nodes d m.id → Memᴰ d seen)
          → input_stack
              (Dict.set n.id (stack_after n.kind n.id (input_stack c.outgoing n)) c.outgoing)
              m
            ≡ input_stack c.outgoing m
      kept m k low =
          deepest-same
            (Dict.set n.id (stack_after n.kind n.id (input_stack c.outgoing n)) c.outgoing)
            c.outgoing m.deps []
            (λ d i.
              other-set n.id d (stack_after n.kind n.id (input_stack c.outgoing n)) c.outgoing (λ e.
                let here = subst (λ x. Memᴰ x (ids nodes)) (sym e) (mem-ids n nodes there) in
                new (subst (λ x. Memᴰ x seen) e (low d (m, k, refl, i, here)))))

  place-at :
      (n : MapGraphNode) (c : MapContexts)
      → Distinct (ids nodes)
      → Memᴰ n nodes
      → place (by_id nodes []) n.id c ≡ placed_at n c
  unfolding place placed_at
  place-at n c d k = rw (get-by_id nodes [] n d k, place) refl

  pub place_all-IsPlaced :
      (seen order : List String) (c : MapContexts)
      → Distinct (ids nodes)
      → Distinct (seen ++ order)
      → ((x : String) → Memᴰ x order → Memᴰ x (ids nodes))
      → InOrder nodes seen order
      → IsPlaced seen c
      → IsPlaced (seen ++ order) (place_all (by_id nodes []) order c)
  unfolding place_all
  place_all-IsPlaced seen [] c distinct once known behind s =
      subst (λ x. IsPlaced x c) (sym (append-nil seen)) s
  place_all-IsPlaced seen (id ∷ order) c distinct once known (first, rest) s =
      let (n, k, e) = Memᴰ-map (λ y. y.id) id nodes (known id (Memᴰ.head refl)) in
      let again = append_assoc seen (id ∷ []) order in
      let placed =
        placed_at-IsPlaced seen n c distinct k
          (subst (λ x. ¬ Memᴰ x seen) e (Distinct-middle seen id order once))
          (λ d p. first d (subst (Precedes nodes d) (sym e) p)) s in
      let one =
        subst (λ x. IsPlaced (seen ++ x ∷ []) (place (by_id nodes []) x c)) (sym e)
          (subst (IsPlaced (seen ++ n.id ∷ [])) (sym (place-at n c distinct k)) placed) in
      subst (λ x. IsPlaced x (place_all (by_id nodes []) order (place (by_id nodes []) id c))) again
        (place_all-IsPlaced (seen ++ id ∷ []) order (place (by_id nodes []) id c) distinct
          (subst Distinct (sym again) once) (λ x m. known x (Memᴰ.tail m)) rest one)
