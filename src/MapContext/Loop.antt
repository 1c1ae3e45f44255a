-- ===== src/MapContext/Loop.antt =====
-- The sort ends: a round takes a block from the queue, and one that joins it had its count at one.
use psae_monorepo.Prelude.{
  inl, inr, ℕ, zero, suc, ◌+◌, ◌≤◌, String, Bool, true, false, ◌≡◌, refl, some, get_or, List, [],
  ◌∷◌, ◌++◌, arith, Bool-cases, ◌==◌, if◌then◌else◌, length, length-append,
}
use psae_monorepo.Dict
use psae_monorepo.Dict.{Dict}
use psae_monorepo.MapContext.{
  MapGraphNode, ℤ, pos, negsuc, pred_ℤ, is_zero, degree, relax, sort_loop, sorted, links_of, ready,
}

abbrev positive : ℤ → ℕ
positive (pos zero) = 0
positive (pos (suc n)) = 1
positive (negsuc n) = 0

-- How many entries count something.
abbrev positives : Dict ℤ → ℕ
positives [] = 0
positives ((k, z) ∷ m) = positive z + positives m

positives-set :
    (k : String) (v : ℤ) (m : Dict ℤ)
    → positives (Dict.set k v m) + positive (degree k m) ≡ positives m + positive v
unfolding degree Dict.get Dict.set
positives-set k v [] = omega arith
positives-set k v ((j, w) ∷ m) = elim (Bool-cases (j == k)) [
  | inl t ↦ rw t (omega arith)
  | inr f ↦ rw f (omega (arith, positives-set k v m))
]

positive-pred : (z : ℤ) → positive (pred_ℤ z) + (if is_zero (pred_ℤ z) then 1 else 0) ≤ positive z
positive-pred (pos zero) = omega arith
positive-pred (pos (suc zero)) = omega arith
positive-pred (pos (suc (suc n))) = omega arith
positive-pred (negsuc n) = omega arith

positives-le-length : (m : Dict ℤ) → positives m ≤ length m
positives-le-length [] = omega arith
positives-le-length ((k, pos zero) ∷ m) = omega (arith, positives-le-length m)
positives-le-length ((k, pos (suc n)) ∷ m) = omega (arith, positives-le-length m)
positives-le-length ((k, negsuc n) ∷ m) = omega (arith, positives-le-length m)

length-joined :
    (b : Bool) (queue : List String) (c : String)
    → length (if b then queue ++ c ∷ [] else queue) ≡ length queue + (if b then 1 else 0)
length-joined true queue c = length-append queue (c ∷ [])
length-joined false queue c = omega arith

relax-measure :
    (cs queue : List String) (indeg : Dict ℤ)
    → length (relax cs queue indeg).0 + positives (relax cs queue indeg).1
      ≤ length queue + positives indeg
unfolding relax
relax-measure [] queue indeg = omega arith
relax-measure (c ∷ cs) queue indeg =
    let left = pred_ℤ (degree c indeg) in
    omega (
      arith,
      relax-measure cs (if is_zero left then queue ++ c ∷ [] else queue) (Dict.set c left indeg),
      length-joined (is_zero left) queue c,
      positives-set c left indeg,
      positive-pred (degree c indeg),
    )

sort_loop-ends :
    (fuel : ℕ) (children : Dict (List String)) (queue order : List String) (indeg : Dict ℤ)
    → length queue + positives indeg ≤ fuel
    → (result : List String) × (sort_loop fuel children queue order indeg ≡ some result)
unfolding sort_loop
sort_loop-ends zero children [] order indeg h = (order, refl)
sort_loop-ends (suc fuel) children [] order indeg h = (order, refl)
sort_loop-ends zero children (id ∷ queue) order indeg h = absurd (omega (arith, h))
sort_loop-ends (suc fuel) children (id ∷ queue) order indeg h =
    let cs = get_or (Dict.get id children) [] in
    sort_loop-ends fuel children (relax cs queue indeg).0 (order ++ id ∷ [])
      (relax cs queue indeg).1 (omega (arith, h, relax-measure cs queue indeg))

-- The `while` loop of the sort ends for any blocks, also where ids are repeated or the dependencies have a
-- cycle: a round for each block that is ready at first and each that is counted is enough.
pub sorted-ends : (nodes : List MapGraphNode) → (order : List String) × (sorted nodes ≡ some order)
unfolding sorted
sorted-ends nodes =
    let l = links_of nodes in
    sort_loop-ends (length (ready nodes l.indeg) + length l.indeg) l.children (ready nodes l.indeg)
      [] l.indeg (omega (arith, positives-le-length l.indeg))
