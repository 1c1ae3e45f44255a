-- ===== src/Validate/Structure.antt =====
-- The checks of `validatePipeline` that need no manifests: ids, references and cycles.
use psae_monorepo.Prelude.{
  String, false, not, ◌≡◌, refl, subst, ◌↔◌, inl, inr, none, List, [], ◌∷◌, ◌<>◌, Memᴰ, Distinct,
  arith, contains, contains_iff, not-contains_iff, flat_map, unless, unless-eq-nil_iff,
  append-eq-nil_iff, flat_map-eq-nil_iff,
}
use mathlib.Core.List.Memᴰ
use mathlib.Core.WellFounded.{Acc}
use psae_monorepo.Types.{InputRef, Block}
use psae_monorepo.Validate.Cycle.{ref_to_id, find_cycle, adjacency}
use psae_monorepo.Validate.Cycle.Graph.{Dep, not-IsCycle}
use psae_monorepo.Validate.Cycle.Correct.{find_cycle-Acc, find_cycle-eq-none_iff}
use psae_monorepo.Validate.Cycle.Adjacency.{ids_of, DependsOn, Dep-adjacency_iff}
use psae_monorepo.Validate.Checks.{duplicate_errors, missing_error, missing_errors, cycle_errors}
use psae_monorepo.Validate.Spec.{IsSound}

-- Well-foundedness passes to a smaller relation.
Acc_mono :
    (R S : String → String → Type 0)
    → ((d n : String) → R d n → S d n)
    → (n : String) → Acc S n
    → Acc R n
Acc_mono R S f n (Acc.intro _ smaller) = Acc.intro n (λ d e. Acc_mono R S f d (smaller d (f d n e)))

module _ {A : Type 0} where
  duplicate_errors_iff :
      (seen : List String) (bs : List (Block A))
      → (duplicate_errors seen bs ≡ [])
        ↔ (Distinct (ids_of bs) × ((n : String) → Memᴰ n (ids_of bs) → ¬ Memᴰ n seen))
  unfolding duplicate_errors
  duplicate_errors_iff seen [] = (λ e. (tt, λ n m k. Memᴰ.not-nil m), λ h. refl)
  duplicate_errors_iff seen (b ∷ bs) = (
    λ e.
        let (here, rest) =
          (append-eq-nil_iff (unless _ _) (duplicate_errors (b.id ∷ seen) bs)).0 e in
        let new = (not-contains_iff b.id seen).0 (
          ground (
            arith,
            unless-eq-nil_iff (not (contains b.id seen)) ("Duplicate block id: " <> b.id),
          )) in
        let (distinct, apart) = (duplicate_errors_iff (b.id ∷ seen) bs).0 rest in
        (
          (λ m. apart b.id m (Memᴰ.head refl), distinct),
          λ n m k. elim (Memᴰ.cases_cons m) [
            | inl p ↦ new (subst (λ x. Memᴰ x seen) p k)
            | inr j ↦ apart n j (Memᴰ.tail k)
          ],
        ),
    λ h.
        let fresh : contains b.id seen ≡ false =
          (not-contains_iff b.id seen).1 (h.1 b.id (Memᴰ.head refl)) in
        (append-eq-nil_iff (unless (not (contains b.id seen)) ("Duplicate block id: " <> b.id))
            (duplicate_errors (b.id ∷ seen) bs)).1
          (
            rw fresh refl,
            (duplicate_errors_iff (b.id ∷ seen) bs).1 (
              h.0.1,
              λ n m k. elim (Memᴰ.cases_cons k) [
                | inl p ↦ h.0.0 (subst (λ x. Memᴰ x (ids_of bs)) p m)
                | inr j ↦ h.1 n (Memᴰ.tail m) j
              ],
            ),
          ),
  )

  missing_errors_iff :
      (blocks : List (Block A))
      → (missing_errors blocks ≡ []) ↔ (
          (b : Block A)
          → Memᴰ b blocks
          → (r : InputRef) → Memᴰ r b.inputs
          → Memᴰ (ref_to_id r) (ids_of blocks))
  unfolding missing_errors missing_error
  missing_errors_iff blocks = (
    λ e b m r k. (contains_iff (ref_to_id r) (ids_of blocks)).0 (
        (unless-eq-nil_iff _ _).0 (
          (flat_map-eq-nil_iff (missing_error blocks b) b.inputs).0
            ((flat_map-eq-nil_iff (λ b. flat_map (missing_error blocks b) b.inputs) blocks).0 e b m)
            r k)),
    λ h. (flat_map-eq-nil_iff (λ b. flat_map (missing_error blocks b) b.inputs) blocks).1 (λ b m.
        (flat_map-eq-nil_iff (missing_error blocks b) b.inputs).1 (λ r k.
          (unless-eq-nil_iff _ _).1 ((contains_iff (ref_to_id r) (ids_of blocks)).1 (h b m r k)))),
  )

  cycle_errors_iff :
      (blocks : List (Block A)) → (cycle_errors blocks ≡ []) ↔ (find_cycle blocks ≡ none)
  unfolding cycle_errors
  cycle_errors_iff blocks = ground arith

  -- The structural part of the validator.
  pub IsSound-iff :
      (blocks : List (Block A))
      → ((duplicate_errors [] blocks ≡ [])
          × (missing_errors blocks ≡ [])
          × (cycle_errors blocks ≡ []))
        ↔ IsSound blocks
  IsSound-iff blocks = (
    λ (d, m, c).
        let distinct = ((duplicate_errors_iff [] blocks).0 d).0 in
        record {
          distinct = distinct;
          resolved = (missing_errors_iff blocks).0 m;
          acyclic = λ n.
              Acc_mono (DependsOn blocks) (Dep (adjacency blocks))
                (λ x y. (Dep-adjacency_iff blocks x y distinct).1) n
                (find_cycle-Acc blocks ((cycle_errors_iff blocks).0 c) n);
        },
    λ h. (
      (duplicate_errors_iff [] blocks).1 (h.distinct, λ n m k. Memᴰ.not-nil k),
      (missing_errors_iff blocks).1 h.resolved,
      (cycle_errors_iff blocks).1 (
          (find_cycle-eq-none_iff blocks).1 (
            not-IsCycle (adjacency blocks) (λ n.
              Acc_mono (Dep (adjacency blocks)) (DependsOn blocks)
                (λ x y. (Dep-adjacency_iff blocks x y h.distinct).0) n (h.acyclic n)))),
    ),
  )
