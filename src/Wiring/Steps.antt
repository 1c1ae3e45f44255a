-- ===== src/Wiring/Steps.antt =====
-- Steps 1 and 2 of `resolveConnection` keep the invariant, and when step 1 goes through.
use psae_monorepo.Prelude.{
  String, Bool, true, false, ◌≡◌, refl, sym, ap, subst, ◌∙◌, ◌≢◌, Option, none, some, List, [], ◌∷◌,
  ◌++◌, ◌<>◌, append_assoc, append-nil, Memᴰ, arith, ==_iff, if◌then◌else◌, map, filter, All,
  Distinct, Distinct-middle, map-append, mem-filter,
}
use mathlib.Core.List.Memᴰ
use psae_monorepo.Dict
use psae_monorepo.Dict.{Dict}
use psae_monorepo.Types.{PortDecl, BlockManifest, Binding}
use psae_monorepo.Wiring.{
  Wiring, port_label, ports_compatible, bind, Locked, locked, rejected, lock_one, lock, matches,
  pair_one, pair_off,
}
use psae_monorepo.Wiring.Invariant.{Joins, outputs_of, inputs_of, Inv, Inv-bind}

-- The first list begins the second.
abbrev pub Begins : List Binding → List Binding → Type 0
Begins xs ys = (more : List Binding) × (ys ≡ xs ++ more)

Begins-trans : (xs ys zs : List Binding) → Begins xs ys → Begins ys zs → Begins xs zs
Begins-trans xs ys zs (m, e) (n, f) = (m ++ n, f ∙ ap (λ t. t ++ n) e ∙ append_assoc xs m n)

module _ (upstream downstream : BlockManifest) where
  lock_one_lem :
      (b : Binding) (w w' : Wiring)
      → Inv upstream downstream w
      → lock_one upstream downstream b
          (Dict.get b.output w.remaining_outputs)
          (Dict.get b.input w.remaining_inputs)
          w
        ≡ locked w'
      → Inv upstream downstream w' × (w'.bindings ≡ w.bindings ++ b ∷ [])
  lock_one_lem b w w' h e =
      by_ports (Dict.get b.output w.remaining_outputs) refl (Dict.get b.input w.remaining_inputs)
        refl e
    where
      locked_inj : {v v' : Wiring} → locked v ≡ locked v' → v ≡ v'
      locked_inj e = cc

      fits :
          (out inp : PortDecl)
          → Dict.get b.output w.remaining_outputs ≡ some out
          → Dict.get b.input w.remaining_inputs ≡ some inp
          → (t : Bool) → ports_compatible out inp ≡ t
          → (if t
              then locked (bind b w)
              else rejected (
                  "Output \""
                  <> b.output
                  <> "\" ("
                  <> port_label out
                  <> ") is not compatible with input \""
                  <> b.input
                  <> "\" ("
                  <> port_label inp
                  <> ")."))
            ≡ locked w'
          → Inv upstream downstream w' × (w'.bindings ≡ w.bindings ++ b ∷ [])
      fits out inp p q true c e =
          subst (λ v. Inv upstream downstream v × (v.bindings ≡ w.bindings ++ b ∷ []))
            (locked_inj e) (Inv-bind upstream downstream b w out inp h p q c, unfold bind in refl)
      fits out inp p q false c e = cc

      by_ports :
          (o : Option PortDecl)
          → Dict.get b.output w.remaining_outputs ≡ o
          → (i : Option PortDecl) → Dict.get b.input w.remaining_inputs ≡ i
          → lock_one upstream downstream b o i w ≡ locked w'
          → Inv upstream downstream w' × (w'.bindings ≡ w.bindings ++ b ∷ [])
      by_ports none p i q e = unfold lock_one in cc
      by_ports (some out) p none q e = unfold lock_one in cc
      by_ports (some out) p (some inp) q e =
          fits out inp p q (ports_compatible out inp) refl (unfold lock_one in e)

  -- What a round of step 2 keeps, `name` being the input that it looks at.
  record Paired (name : String) (w w' : Wiring) : Type 0 where
    inv : Inv upstream downstream w'
    begins : Begins w.bindings w'.bindings
    others :
        (k : String) → k ≢ name → Dict.get k w'.remaining_inputs ≡ Dict.get k w.remaining_inputs

  Paired-refl : (name : String) (w : Wiring) → Inv upstream downstream w → Paired name w w
  Paired-refl name w h = record {
    inv = h;
    begins = ([], sym (append-nil w.bindings));
    others = λ k n. refl;
  }

  pair_one_lem :
      (name : String) (decl : PortDecl) (w : Wiring)
      → Inv upstream downstream w
      → Dict.get name w.remaining_inputs ≡ some decl
      → Paired name w (pair_one name (matches decl w.remaining_outputs) w)
  pair_one_lem name decl w h e = by_matches (matches decl w.remaining_outputs) refl
    where
      listed :
          {q : String × PortDecl} {r : Dict PortDecl}
          → matches decl w.remaining_outputs ≡ q ∷ r
          → Memᴰ q (filter (λ p. ports_compatible p.1 decl) w.remaining_outputs)
      listed {q} {r} p =
          let p' : filter (λ p. ports_compatible p.1 decl) w.remaining_outputs ≡ q ∷ r =
            unfold matches in p in
          subst (Memᴰ q) (sym p') (Memᴰ.head refl)

      by_matches :
          (ms : Dict PortDecl)
          → matches decl w.remaining_outputs ≡ ms
          → Paired name w (pair_one name ms w)
      by_matches [] p = unfold pair_one in Paired-refl name w h
      by_matches ((output, out) ∷ []) p =
          unfold pair_one in
          (let (m, c) =
              mem-filter (λ q. ports_compatible q.1 decl) w.remaining_outputs (listed p) in
            record {
              inv =
                  Inv-bind upstream downstream (record { output = output; input = name }) w out decl
                    h (Dict.get_of_mem w.remaining_outputs h.outputs_left.keys_distinct m) e c;
              begins = (record { output = output; input = name } ∷ [], unfold bind in refl);
              others = λ k n.
                  unfold bind in
                  ground (
                    arith,
                    Dict.get-delete name k w.remaining_inputs,
                    ==_iff name k,
                    λ (q : k ≡ name). n q,
                  );
            })
      by_matches (q ∷ q' ∷ r) p = unfold pair_one in Paired-refl name w h

  pub pair_off_lem :
      (pending : Dict PortDecl) (w : Wiring)
      → Inv upstream downstream w
      → Distinct (Dict.keys pending)
      → ((k : String) (d : PortDecl) → Memᴰ (k, d) pending → Dict.get k w.remaining_inputs ≡ some d)
      → Inv upstream downstream (pair_off pending w)
        × Begins w.bindings (pair_off pending w).bindings
  unfolding pair_off
  pair_off_lem [] w h d there = (h, ([], sym (append-nil w.bindings)))
  pair_off_lem ((name, decl) ∷ pending) w h (new, d) there =
      let w' = pair_one name (matches decl w.remaining_outputs) w in
      let k = pair_one_lem name decl w h (there name decl (Memᴰ.head refl)) in
      let (inv, begins) = pair_off_lem pending w' k.inv d (λ j e m.
        k.others j (λ p. new (subst (λ x. Memᴰ x (Dict.keys pending)) p (Dict.mem-keys pending m)))
        ∙ there j e (Memᴰ.tail m)) in
      (inv, Begins-trans w.bindings w'.bindings (pair_off pending w').bindings k.begins begins)

  lock-cons :
      (b : Binding) (bs : List Binding) (w w' : Wiring)
      → lock upstream downstream (b ∷ bs) w ≡ locked w'
      → (v : Wiring) × (lock_one upstream downstream b
            (Dict.get b.output w.remaining_outputs)
            (Dict.get b.input w.remaining_inputs)
            w
          ≡ locked v)
        × (lock upstream downstream bs v ≡ locked w')
  unfolding lock
  lock-cons b bs w w' e =
      by_lock
        (lock_one upstream downstream b (Dict.get b.output w.remaining_outputs)
          (Dict.get b.input w.remaining_inputs) w)
        e
    where
      by_lock :
          (o : Locked)
          → (elim o [ locked v ↦ lock upstream downstream bs v | rejected r ↦ rejected r ])
            ≡ locked w'
          → (v : Wiring) × (o ≡ locked v) × (lock upstream downstream bs v ≡ locked w')
      by_lock (rejected r) q = cc
      by_lock (locked v) q = (v, refl, q)

  pub lock_lem :
      (bs : List Binding) (w w' : Wiring)
      → Inv upstream downstream w
      → lock upstream downstream bs w ≡ locked w'
      → Inv upstream downstream w' × (w'.bindings ≡ w.bindings ++ bs)
  unfolding lock
  lock_lem [] w w' h e =
      let same : w ≡ w' = cc in
      subst (λ v. Inv upstream downstream v × (v.bindings ≡ w.bindings ++ [])) same
        (h, sym (append-nil w.bindings))
  lock_lem (b ∷ bs) w w' h e =
      let (v, p, q) = lock-cons b bs w w' e in
      let (inv, one) = lock_one_lem b w v h p in
      let (inv', rest) = lock_lem bs v w' inv q in
      (inv', rest ∙ ap (λ t. t ++ bs) one ∙ append_assoc w.bindings (b ∷ []) bs)

  -- A list of bindings that can be locked in at once.
  pub record IsLockable (bs : List Binding) : Type 0 where
    pub joined : All (Joins upstream downstream) bs
    pub outputs_once : Distinct (outputs_of bs)
    pub inputs_once : Distinct (inputs_of bs)

  lock_one-locked :
      (b : Binding) (w : Wiring)
      → Joins upstream downstream b
      → Dict.get b.output w.remaining_outputs ≡ Dict.get b.output upstream.outputs
      → Dict.get b.input w.remaining_inputs ≡ Dict.get b.input downstream.inputs
      → lock_one upstream downstream b
          (Dict.get b.output w.remaining_outputs)
          (Dict.get b.input w.remaining_inputs)
          w
        ≡ locked (bind b w)
  unfolding lock_one
  lock_one-locked b w j o i = rw (o ∙ j.declared_output, i ∙ j.declared_input, j.compatible) refl

  lock-locked :
      (b : Binding) (bs : List Binding) (w v : Wiring)
      → lock_one upstream downstream b
          (Dict.get b.output w.remaining_outputs)
          (Dict.get b.input w.remaining_inputs)
          w
        ≡ locked v
      → lock upstream downstream (b ∷ bs) w ≡ lock upstream downstream bs v
  unfolding lock
  lock-locked b bs w v p = rw (p, lock)

  regroup :
      (f : Binding → String) (b : Binding) (bs : List Binding) (w : Wiring)
      → map f (bind b w).bindings ++ map f bs ≡ map f w.bindings ++ map f (b ∷ bs)
  unfolding bind
  regroup f b bs w =
      ap (λ t. t ++ map f bs) (map-append f w.bindings (b ∷ []))
      ∙ append_assoc (map f w.bindings) (f b ∷ []) (map f bs)

  pub lock_total :
      (bs : List Binding) (w : Wiring)
      → Inv upstream downstream w
      → All (Joins upstream downstream) bs
      → Distinct (outputs_of w.bindings ++ outputs_of bs)
      → Distinct (inputs_of w.bindings ++ inputs_of bs)
      → (w' : Wiring) × (lock upstream downstream bs w ≡ locked w')
  unfolding lock
  lock_total [] w h j o i = (w, refl)
  lock_total (b ∷ bs) w h j o i =
      let free_output =
        h.outputs_left.kept b.output
          (Distinct-middle (outputs_of w.bindings) b.output (outputs_of bs) o) in
      let free_input =
        h.inputs_left.kept b.input
          (Distinct-middle (inputs_of w.bindings) b.input (inputs_of bs) i) in
      let inv =
        Inv-bind upstream downstream b w (j.0).out (j.0).inp h (free_output ∙ (j.0).declared_output)
          (free_input ∙ (j.0).declared_input) (j.0).compatible in
      let (w', e) =
        lock_total bs (bind b w) inv j.1 (subst Distinct (sym (regroup (λ x. x.output) b bs w)) o)
          (subst Distinct (sym (regroup (λ x. x.input) b bs w)) i) in
      (w', lock-locked b bs w (bind b w) (lock_one-locked b w j.0 free_output free_input) ∙ e)

  abbrev pub begun : Wiring
  begun = record {
    remaining_outputs = upstream.outputs;
    remaining_inputs = downstream.inputs;
    bindings = [];
  }

  -- The ports of a manifest stand in an object, whose keys are distinct.
  pub record IsObjects : Type 0 where
    pub outputs : Distinct (Dict.keys upstream.outputs)
    pub inputs : Distinct (Dict.keys downstream.inputs)

  pub Inv-begun : IsObjects → Inv upstream downstream begun
  Inv-begun h = record {
    joined = tt;
    outputs_once = tt;
    inputs_once = tt;
    outputs_left = record {
      keys_distinct = h.outputs;
      declared = λ k d e. e;
      unused = λ k d e m. Memᴰ.not-nil m;
      kept = λ k n. refl;
    };
    inputs_left = record {
      keys_distinct = h.inputs;
      declared = λ k d e. e;
      unused = λ k d e m. Memᴰ.not-nil m;
      kept = λ k n. refl;
    };
  }
