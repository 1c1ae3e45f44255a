-- ===== src/Wiring/Invariant.antt =====
-- What every step of the resolver keeps: the bindings fit, and the remaining ports are the others.
use psae_monorepo.Prelude.{
  String, true, ◌≡◌, sym, ◌≢◌, inl, inr, some, List, [], ◌∷◌, ◌++◌, Memᴰ, arith, ==_iff, ==-cases,
  map, All, All-append, Distinct, Distinct-concat, map-append,
}
use mathlib.Core.List.Memᴰ
use psae_monorepo.Dict
use psae_monorepo.Dict.{Dict}
use psae_monorepo.Types.{PortDecl, BlockManifest, Binding}
use psae_monorepo.Wiring.{Wiring, ports_compatible, bind}

-- A binding joins an output and an input that the manifests declare, and their types agree.
pub record Joins (upstream downstream : BlockManifest) (b : Binding) : Type 0 where
  pub out : PortDecl
  pub inp : PortDecl
  pub declared_output : Dict.get b.output upstream.outputs ≡ some out
  pub declared_input : Dict.get b.input downstream.inputs ≡ some inp
  pub compatible : ports_compatible out inp ≡ true

abbrev pub outputs_of : List Binding → List String
outputs_of bs = map (λ b. b.output) bs

abbrev pub inputs_of : List Binding → List String
inputs_of bs = map (λ b. b.input) bs

-- `left` is `all` less the keys in `used`.
pub record IsRest (all : Dict PortDecl) (used : List String) (left : Dict PortDecl) : Type 0 where
  pub keys_distinct : Distinct (Dict.keys left)
  pub declared : (k : String) (d : PortDecl) → Dict.get k left ≡ some d → Dict.get k all ≡ some d
  pub unused : (k : String) (d : PortDecl) → Dict.get k left ≡ some d → ¬ Memᴰ k used
  pub kept : (k : String) → ¬ Memᴰ k used → Dict.get k left ≡ Dict.get k all

pub record Inv (upstream downstream : BlockManifest) (w : Wiring) : Type 0 where
  pub joined : All (Joins upstream downstream) w.bindings
  pub outputs_once : Distinct (outputs_of w.bindings)
  pub inputs_once : Distinct (inputs_of w.bindings)
  pub outputs_left : IsRest upstream.outputs (outputs_of w.bindings) w.remaining_outputs
  pub inputs_left : IsRest downstream.inputs (inputs_of w.bindings) w.remaining_inputs

IsRest-delete :
    (all : Dict PortDecl) (used : List String) (left : Dict PortDecl) (k : String)
    → IsRest all used left
    → IsRest all (used ++ k ∷ []) (Dict.delete k left)
IsRest-delete all used left k h = record {
  keys_distinct = Dict.Distinct-delete k left h.keys_distinct;
  declared = λ j d e. h.declared j d (still j d e).1;
  unused = λ j d e m.
      let (ne, e') = still j d e in
      elim (Memᴰ.append_cases used m) [
        | inl i ↦ h.unused j d e' i
        | inr i ↦ ne (sym (Memᴰ.eq_of_singleton i))
      ];
  kept = λ j n. ground (
    arith,
    Dict.get-delete k j left,
    ==_iff k j,
    h.kept j (λ m. n (Memᴰ.append_left (k ∷ []) m)),
    λ (e : k ≡ j). n (Memᴰ.append_right used (Memᴰ.head (sym e))),
  );
}
  where
    still :
        (j : String) (d : PortDecl)
        → Dict.get j (Dict.delete k left) ≡ some d
        → (k ≢ j) × (Dict.get j left ≡ some d)
    still j d e = elim (==-cases k j) [
      | inl (t, p) ↦ ground (arith, Dict.get-delete k j left)
      | inr (t, p) ↦ (p, ground (arith, Dict.get-delete k j left))
    ]

module _ (upstream downstream : BlockManifest) where
  -- Binding two remaining ports of agreeing types keeps the invariant.
  pub Inv-bind :
      (b : Binding) (w : Wiring) (out inp : PortDecl)
      → Inv upstream downstream w
      → Dict.get b.output w.remaining_outputs ≡ some out
      → Dict.get b.input w.remaining_inputs ≡ some inp
      → ports_compatible out inp ≡ true
      → Inv upstream downstream (bind b w)
  unfolding bind
  Inv-bind b w out inp h o i c = record {
    joined = All-append (Joins upstream downstream) w.bindings (b ∷ []) h.joined (
      record {
        out = out;
        inp = inp;
        declared_output = h.outputs_left.declared b.output out o;
        declared_input = h.inputs_left.declared b.input inp i;
        compatible = c;
      },
      tt,
    );
    outputs_once = rw (map-append (λ x. x.output) w.bindings (b ∷ [])) (
        Distinct-concat (outputs_of w.bindings) b.output h.outputs_once
          (h.outputs_left.unused b.output out o));
    inputs_once = rw (map-append (λ x. x.input) w.bindings (b ∷ [])) (
        Distinct-concat (inputs_of w.bindings) b.input h.inputs_once
          (h.inputs_left.unused b.input inp i));
    outputs_left = rw (map-append (λ x. x.output) w.bindings (b ∷ [])) (
        IsRest-delete upstream.outputs (outputs_of w.bindings) w.remaining_outputs b.output
          h.outputs_left);
    inputs_left = rw (map-append (λ x. x.input) w.bindings (b ∷ [])) (
        IsRest-delete downstream.inputs (inputs_of w.bindings) w.remaining_inputs b.input
          h.inputs_left);
  }
