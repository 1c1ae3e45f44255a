-- ===== src/Tests/Building.antt =====
-- Two blocks of the editor, wired twice.
use psae_monorepo.Prelude.{
  ℕ, String, contains, ◌≡◌, refl, sym, ap, ◌∙◌, ◌↔◌, ◌⊎◌, inl, inr, ◌<>◌, ==_iff, Memᴰ, Distinct,
  none, some, List, [], ◌∷◌, map, is_distinct, is_distinct→Distinct,
}
use mathlib.Core.List.Memᴰ
use psae_monorepo.Types.{InputRef, bare, explicit, Block}
use psae_monorepo.PipelineBuilder.{
  Edge, dedupe_inputs, dedupe_from, ref_key, parse_edges, parse_edge, edge_refs, bound_refs,
  add_refs,
}
use psae_monorepo.PipelineBuilder.Dedupe.{Unambiguous, dedupe_inputs_lem}
use psae_monorepo.PipelineBuilder.Edges.{with_refs, parse_edges_lem}

abbrev refs : List InputRef
refs = bare "a" ∷ explicit "a" "mask" ∷ bare "a" ∷ explicit "b" "mask" ∷ explicit "a" "mask" ∷ []

builder : Unit {0}
unfolding contains dedupe_inputs dedupe_from ref_key parse_edges parse_edge edge_refs bound_refs
    add_refs
builder = tt

dedupe_run : dedupe_inputs refs ≡ bare "a" ∷ explicit "a" "mask" ∷ explicit "b" "mask" ∷ []
unfolding builder
dedupe_run = refl

-- Two references with the same key: the second is dropped, though it names another block.
collision_run :
    dedupe_inputs (explicit "a" "b::c" ∷ explicit "a::b" "c" ∷ []) ≡ explicit "a" "b::c" ∷ []
unfolding builder
collision_run = refl

key_of : {x y z w : String} → x ≡ z → y ≡ w → x <> "::" <> y ≡ z <> "::" <> w
key_of {x} {y} {z} {w} p q = ap (λ s. s <> "::" <> y) p ∙ ap (λ s. z <> "::" <> s) q

-- The references with outputs among them.
explicit_cases :
    (b o : String)
    → Memᴰ (explicit b o) refs
    → ((b ≡ "a") × (o ≡ "mask")) ⊎ ((b ≡ "b") × (o ≡ "mask"))
explicit_cases b o m = elim (Memᴰ.cases_cons m) [
  | inl e ↦ absurd (not_bare e)
  | inr m₁ ↦ elim (Memᴰ.cases_cons m₁) [
    | inl e ↦ inl (parts e)
    | inr m₂ ↦ elim (Memᴰ.cases_cons m₂) [
      | inl e ↦ absurd (not_bare e)
      | inr m₃ ↦ elim (Memᴰ.cases_cons m₃) [
        | inl e ↦ inr (parts e)
        | inr m₄ ↦ inl (parts (Memᴰ.eq_of_singleton m₄))
      ]
    ]
  ]
]
  where
    not_bare : {x y z : String} → explicit x y ≡ bare z → ⊥
    not_bare e = cc

    parts : {x y z w : String} → explicit x y ≡ explicit z w → (x ≡ z) × (y ≡ w)
    parts e = (cc, cc)

refs-Unambiguous : Unambiguous refs
refs-Unambiguous b o c p m k e = elim (explicit_cases b o m) [
  | inl (q, n) ↦ elim (explicit_cases c p k) [
    | inl (q', n') ↦ (q ∙ sym q', n ∙ sym n')
    | inr (q', n') ↦ absurd (differ q n q' n' e)
  ]
  | inr (q, n) ↦ elim (explicit_cases c p k) [
    | inl (q', n') ↦ absurd (differ q' n' q n (sym e))
    | inr (q', n') ↦ (q ∙ sym q', n ∙ sym n')
  ]
]
  where
    a_mask : String
    a_mask = "a::mask"

    distinct : ¬ (a_mask ≡ "b::mask")
    distinct q = let t = (==_iff "a::mask" "b::mask").1 q in cc

    differ :
        {x y z w : String}
        → x ≡ "a"
        → y ≡ "mask"
        → z ≡ "b"
        → w ≡ "mask"
        → x <> "::" <> y ≡ z <> "::" <> w
        → ⊥
    differ q n q' n' e = distinct (sym (key_of q n) ∙ e ∙ key_of q' n')

dedupe_inputs_lem_example :
    ((r : InputRef) → Memᴰ r (dedupe_inputs refs) ↔ Memᴰ r refs) × Distinct (dedupe_inputs refs)
dedupe_inputs_lem_example = dedupe_inputs_lem refs refs-Unambiguous

abbrev block : String → Block ℕ
block id = record { id = id; name = "load"; inputs = []; args = [] }

abbrev blocks : List (Block ℕ)
blocks = block "a" ∷ block "b" ∷ []

abbrev edges : List Edge
edges =
    record { source = "a"; target = "b"; bindings = none }
    ∷ record {
      source = "a";
      target = "b";
      bindings = some (record {
        bindings = some (record { output = "mask"; input = "clip" } ∷ []);
        unresolved = none;
      });
    }
    ∷ record { source = "a"; target = "z"; bindings = none }
    ∷ []

parse_run :
    parse_edges blocks edges
    ≡ block "a" ∷ record (block "b") { inputs = bare "a" ∷ explicit "a" "mask" ∷ [] } ∷ []
unfolding builder
parse_run = refl

parse_edges_lem_example : parse_edges blocks edges ≡ map (with_refs edges) blocks
unfolding is_distinct
parse_edges_lem_example = parse_edges_lem blocks edges (is_distinct→Distinct ("a" ∷ "b" ∷ []) refl)
