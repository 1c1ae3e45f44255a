-- ===== src/Wiring/Correct.antt =====
-- What the outcome of `resolveConnection` says.
use psae_monorepo.Prelude.{
  true, ◌≡◌, sym, ap, subst, ◌∙◌, ◌↔◌, inl, inr, none, some, List, Bool-cases, Option-cases, any,
  any_iff, All, Distinct, All-append_left, Distinct-append_left, map-append,
}
use psae_monorepo.Dict
use psae_monorepo.Dict.{Dict}
use psae_monorepo.Types.{BlockManifest, Binding}
use psae_monorepo.Wiring.{
  ok, Wiring, locked, lock, pair_off, is_ambiguous, settle, resolve_connection,
}
use psae_monorepo.Wiring.Steps.{lock_total, begun, Inv-begun, IsObjects, IsLockable}
use psae_monorepo.Wiring.ReadOff.{
  bindings_of, is_ambiguous_iff, IsResolved, IsOpenChoice, behind, settle_lem,
}
use psae_monorepo.Wiring.Invariant.{Joins, outputs_of, inputs_of, IsRest, Inv}

module _ (upstream downstream : BlockManifest) where
  -- For manifests whose ports have distinct names, the bindings that `resolveConnection` returns,
  -- partial ones included, join declared ports of compatible types, use no output twice and no input
  -- twice, and begin with the bindings it was given.
  pub resolve_connection-IsResolved :
      (pre bs : List Binding)
      → IsObjects upstream downstream
      → bindings_of (resolve_connection upstream downstream pre) ≡ some bs
      → IsResolved upstream downstream pre bs
  resolve_connection-IsResolved pre bs h e =
      let k = behind upstream downstream pre bs h e in
      record {
        joined = rw k.same k.inv.joined;
        outputs_once = rw k.same k.inv.outputs_once;
        inputs_once = rw k.same k.inv.inputs_once;
        begins = rw k.same k.begins;
      }

  lock-returns :
      (pre : List Binding) (w : Wiring)
      → lock upstream downstream pre (begun upstream downstream) ≡ locked w
      → bindings_of (resolve_connection upstream downstream pre)
        ≡ some (pair_off w.remaining_inputs w).bindings
  unfolding resolve_connection
  lock-returns pre w e =
      ap (λ l. bindings_of (settle upstream downstream l)) e
      ∙ (settle_lem upstream downstream w).returned

  -- A remaining choice of the last wiring is an open choice among the declared ports.
  IsOpenChoice-iff :
      (w : Wiring)
      → Inv upstream downstream w
      → (any (λ p. is_ambiguous p.1 w.remaining_outputs) w.remaining_inputs ≡ true)
        ↔ IsOpenChoice upstream downstream w.bindings
  IsOpenChoice-iff w h = (
    λ t.
        let ((name, decl), m, a) =
          (any_iff (λ p. is_ambiguous p.1 w.remaining_outputs) w.remaining_inputs).0 t in
        let two = (is_ambiguous_iff decl w.remaining_outputs out.keys_distinct).0 a in
        let i = Dict.get_of_mem w.remaining_inputs inp.keys_distinct m in
        let o = Dict.get_of_mem w.remaining_outputs out.keys_distinct two.first_listed in
        let o' = Dict.get_of_mem w.remaining_outputs out.keys_distinct two.second_listed in
        record {
          input = name;
          decl = decl;
          declared = inp.declared name decl i;
          unbound = inp.unused name decl i;
          first = two.first;
          second = two.second;
          first_declared = out.declared two.first.0 two.first.1 o;
          second_declared = out.declared two.second.0 two.second.1 o';
          first_unbound = out.unused two.first.0 two.first.1 o;
          second_unbound = out.unused two.second.0 two.second.1 o';
          first_fits = two.first_fits;
          second_fits = two.second_fits;
          differ = two.differ;
        },
    λ c. (any_iff (λ p. is_ambiguous p.1 w.remaining_outputs) w.remaining_inputs).1 (
      (c.input, c.decl),
      Dict.mem_of_get w.remaining_inputs (inp.kept c.input c.unbound ∙ c.declared),
      (is_ambiguous_iff c.decl w.remaining_outputs out.keys_distinct).1 (record {
        first = c.first;
        second = c.second;
        first_listed =
            Dict.mem_of_get w.remaining_outputs
              (out.kept c.first.0 c.first_unbound ∙ c.first_declared);
        second_listed =
            Dict.mem_of_get w.remaining_outputs
              (out.kept c.second.0 c.second_unbound ∙ c.second_declared);
        first_fits = c.first_fits;
        second_fits = c.second_fits;
        differ = c.differ;
      }),
    ),
  )
    where
      out : IsRest upstream.outputs (outputs_of w.bindings) w.remaining_outputs
      out = h.outputs_left

      inp : IsRest downstream.inputs (inputs_of w.bindings) w.remaining_inputs
      inp = h.inputs_left

  -- For such manifests `resolveConnection` rejects the bindings it is given exactly if they cannot be
  -- locked in at once: one joins undeclared or incompatible ports, or two share a port.
  pub resolve_connection-invalid_iff :
      (pre : List Binding)
      → IsObjects upstream downstream
      → (bindings_of (resolve_connection upstream downstream pre) ≡ none)
        ↔ (¬ IsLockable upstream downstream pre)
  resolve_connection-invalid_iff pre h = (
    λ e l.
        let (w, p) =
          lock_total upstream downstream pre (begun upstream downstream)
            (Inv-begun upstream downstream h) l.joined l.outputs_once l.inputs_once in
        cc (lock-returns pre w p),
    λ n. elim (Option-cases (bindings_of (resolve_connection upstream downstream pre))) [
      | inl e ↦ e
      | inr (bs, e) ↦ absurd (n (lockable bs (resolve_connection-IsResolved pre bs h e)))
    ],
  )
    where
      lockable :
          (bs : List Binding)
          → IsResolved upstream downstream pre bs
          → IsLockable upstream downstream pre
      lockable bs r =
          let (more, e) = r.begins in
          record {
            joined =
                All-append_left (Joins upstream downstream) pre more
                  (subst (All (Joins upstream downstream)) e r.joined);
            outputs_once = Distinct-append_left (outputs_of pre) (outputs_of more) (
                subst Distinct (ap outputs_of e ∙ map-append (λ b. b.output) pre more)
                  r.outputs_once);
            inputs_once = Distinct-append_left (inputs_of pre) (inputs_of more) (
                subst Distinct (ap inputs_of e ∙ map-append (λ b. b.input) pre more) r.inputs_once);
          }

  -- Where it returns bindings, the outcome is `ok` exactly if no input that they leave open is fitted
  -- by two different outputs that they leave open.
  pub resolve_connection-ok_iff :
      (pre bs : List Binding)
      → IsObjects upstream downstream
      → bindings_of (resolve_connection upstream downstream pre) ≡ some bs
      → (resolve_connection upstream downstream pre ≡ ok bs)
        ↔ (¬ IsOpenChoice upstream downstream bs)
  resolve_connection-ok_iff pre bs h e =
      let k = behind upstream downstream pre bs h e in
      let w = k.last in
      (
        λ p c.
            k.read_off.two
              ((IsOpenChoice-iff w k.inv).1 (subst (IsOpenChoice upstream downstream) k.same c))
              (p ∙ ap ok k.same),
        λ n.
            elim (Bool-cases (any (λ p. is_ambiguous p.1 w.remaining_outputs) w.remaining_inputs)) [
              | inl t ↦ absurd (
                  n (
                    subst (IsOpenChoice upstream downstream) (sym k.same)
                      ((IsOpenChoice-iff w k.inv).0 t)))
              | inr f ↦ k.read_off.plain f ∙ sym (ap ok k.same)
            ],
      )
