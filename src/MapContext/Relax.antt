-- ===== src/MapContext/Relax.antt =====
-- One round of the sort: every child loses as many dependencies as it stands among the children, and
-- those that had no others join the queue.
use psae_monorepo.Prelude.{
  ℕ, zero, suc, ◌+◌, ◌-◌, ◌≤◌, ◌<◌, String, Bool, true, false, ◌≡◌, refl, sym, ap, subst, ◌∙◌, ◌↔◌,
  inl, inr, some, get_or, List, [], ◌∷◌, ◌++◌, append_assoc, append-nil, Memᴰ, arith, Bool-cases,
  ◌==◌, ==_iff, ==_refl, if◌then◌else◌, Distinct, count,
}
use mathlib.Core.List.Memᴰ
use psae_monorepo.Dict
use psae_monorepo.Dict.{Dict}
use psae_monorepo.MapContext.{ℤ, pos, pred_ℤ, is_zero, degree, relax}

-- `f` gives the degrees before the round, for the blocks of the graph.
pub record IsRelaxed (known : List String) (f : String → ℕ) (cs queue : List String)
    (out : List String × Dict ℤ) : Type 0 where
  pub new : List String
  pub joined : out.0 ≡ queue ++ new
  pub degrees : (c : String) → Memᴰ c known → Dict.get c out.1 ≡ some (pos (f c - count c cs))
  pub new_iff : (c : String) → Memᴰ c new ↔ ((f c ≡ count c cs) × (0 < count c cs))
  pub distinct : Distinct new

unfoldable lowered : (String → ℕ) → String → String → ℕ
lowered f x c = f c - (if x == c then 1 else 0)

pred-pos : (n : ℕ) → 0 < n → pred_ℤ (pos n) ≡ pos (n - 1)
pred-pos zero h = absurd (omega (arith, h))
pred-pos (suc n) h = ap pos (omega arith)

is_zero-pos : (n : ℕ) → (is_zero (pos n) ≡ true) ↔ (n ≡ 0)
is_zero-pos zero = (λ e. refl, λ e. refl)
is_zero-pos (suc n) = (λ e. cc, λ e. absurd (omega (arith, e)))

count_self : (x : String) (cs : List String) → count x (x ∷ cs) ≡ 1 + count x cs
count_self x cs = rw (==_refl x) refl

lowered-count :
    (f : String → ℕ) (x c : String) (cs : List String)
    → lowered f x c - count c cs ≡ f c - count c (x ∷ cs)
unfolding lowered
lowered-count f x c cs = omega arith

lowered-le :
    (f : String → ℕ) (x c : String) (cs : List String)
    → count c (x ∷ cs) ≤ f c
    → count c cs ≤ lowered f x c
unfolding lowered
lowered-le f x c cs h = omega (arith, h)

count-same : (x c : String) (cs : List String) → (x == c) ≡ true → count c (x ∷ cs) ≡ 1 + count c cs
count-same x c cs t = rw t refl

count-other : (x c : String) (cs : List String) → (x == c) ≡ false → count c (x ∷ cs) ≡ count c cs
count-other x c cs n = rw n (omega arith)

lowered-same : (f : String → ℕ) (x c : String) → (x == c) ≡ true → lowered f x c ≡ f c - 1
unfolding lowered
lowered-same f x c t = rw t refl

lowered-other : (f : String → ℕ) (x c : String) → (x == c) ≡ false → lowered f x c ≡ f c
unfolding lowered
lowered-other f x c n = rw n (omega arith)

-- The rest of the children follow the first, which joins the queue or does not.
follow :
    (known : List String) (f : String → ℕ) (x : String) (cs queue : List String)
    (out : List String × Dict ℤ)
    → count x (x ∷ cs) ≤ f x
    → (b : Bool) → (b ≡ true) ↔ (f x ≡ 1)
    → IsRelaxed known (lowered f x) cs (if b then queue ++ x ∷ [] else queue) out
    → IsRelaxed known f (x ∷ cs) queue out
unfolding lowered
follow known f x cs queue out le true last r = record {
  new = x ∷ r.new;
  joined = r.joined ∙ append_assoc queue (x ∷ []) r.new;
  degrees = λ c k. r.degrees c k ∙ ap (λ n. some (pos n)) (lowered-count f x c cs);
  new_iff = λ c. elim (Bool-cases (x == c)) [
    | inl t ↦
        let e = (==_iff x c).0 t in
        let one : f c ≡ 1 = subst (λ y. f y ≡ 1) e (last.0 refl) in
        let only : count c (x ∷ cs) ≤ f c = subst (λ y. count y (x ∷ cs) ≤ f y) e le in
        let up = count-same x c cs t in
        (λ m. (omega (arith, one, only, up), omega (arith, up)), λ h. Memᴰ.head (sym e))
    | inr n ↦
        let rest = r.new_iff c in
        let same = lowered-other f x c n in
        let up = count-other x c cs n in
        (
          λ m. elim (Memᴰ.cases_cons m) [
            | inl e ↦ let t = (==_iff x c).1 (sym e) in cc
            | inr k ↦ let (a, b) = rest.0 k in (omega (arith, a, up, same), omega (arith, b, up))
          ],
          λ (a, b). Memᴰ.tail (rest.1 (omega (arith, a, up, same), omega (arith, b, up))),
        )
  ];
  distinct = (
    λ m.
        let (a, b) = (r.new_iff x).0 m in
        let one = last.0 refl in let z = count_self x cs in omega (arith, b, one, le, z),
    r.distinct,
  );
}
follow known f x cs queue out le false last r = record {
  new = r.new;
  joined = r.joined;
  degrees = λ c k. r.degrees c k ∙ ap (λ n. some (pos n)) (lowered-count f x c cs);
  new_iff = λ c. elim (Bool-cases (x == c)) [
    | inl t ↦
        let e = (==_iff x c).0 t in
        let rest = r.new_iff c in
        let only : count c (x ∷ cs) ≤ f c = subst (λ y. count y (x ∷ cs) ≤ f y) e le in
        let up = count-same x c cs t in
        let down = lowered-same f x c t in
        (
          λ m. let (a, b) = rest.0 m in (omega (arith, a, up, down, only), omega (arith, b, up)),
          λ (a, b). rest.1 (omega (arith, a, up, down), more c t e a),
        )
    | inr n ↦
        let rest = r.new_iff c in
        let same = lowered-other f x c n in
        let up = count-other x c cs n in
        (
          λ m. let (a, b) = rest.0 m in (omega (arith, a, up, same), omega (arith, b, up)),
          λ (a, b). rest.1 (omega (arith, a, up, same), omega (arith, b, up)),
        )
  ];
  distinct = r.distinct;
}
  where
    more : (c : String) → (x == c) ≡ true → x ≡ c → f c ≡ count c (x ∷ cs) → 0 < count c cs
    more c t e a =
        let several : ¬ (f c ≡ 1) =
          λ one. let q = last.1 (subst (λ y. f y ≡ 1) (sym e) one) in cc in
        omega (arith, a, count-same x c cs t, several)

pub relax-IsRelaxed :
    (known : List String) (f : String → ℕ) (cs queue : List String) (indeg : Dict ℤ)
    → ((c : String) → Memᴰ c known → Dict.get c indeg ≡ some (pos (f c)))
    → ((c : String) → Memᴰ c cs → Memᴰ c known)
    → ((c : String) → count c cs ≤ f c)
    → IsRelaxed known f cs queue (relax cs queue indeg)
unfolding relax degree lowered
relax-IsRelaxed known f [] queue indeg has sub le = record {
  new = [];
  joined = sym (append-nil queue);
  degrees = λ c k. has c k ∙ ap (λ n. some (pos n)) (omega arith);
  new_iff = λ c. (λ m. absurd (Memᴰ.not-nil m), λ (_, h). absurd (omega (arith, h)));
  distinct = tt;
}
relax-IsRelaxed known f (x ∷ cs) queue indeg has sub le = rw left_is (
    follow known f x cs queue
      (relax cs (if is_zero (pos (f x - 1)) then queue ++ x ∷ [] else queue)
        (Dict.set x (pos (f x - 1)) indeg))
      (le x) (is_zero (pos (f x - 1))) last
      (relax-IsRelaxed known (lowered f x) cs
        (if is_zero (pos (f x - 1)) then queue ++ x ∷ [] else queue)
        (Dict.set x (pos (f x - 1)) indeg) has' (λ c m. sub c (Memᴰ.tail m))
        (λ c. lowered-le f x c cs (le c))))
  where
    some_left : 0 < f x
    some_left = omega (arith, le x, count_self x cs)

    left_is : pred_ℤ (degree x indeg) ≡ pos (f x - 1)
    left_is =
        ap (λ o. pred_ℤ (get_or o (pos 0))) (has x (sub x (Memᴰ.head refl)))
        ∙ pred-pos (f x) some_left

    last : (is_zero (pos (f x - 1)) ≡ true) ↔ (f x ≡ 1)
    last =
        let z = is_zero-pos (f x - 1) in
        (λ e. let a = z.0 e in omega (arith, a, some_left), λ e. z.1 (omega (arith, e)))

    has' :
        (c : String)
        → Memᴰ c known
        → Dict.get c (Dict.set x (pos (f x - 1)) indeg) ≡ some (pos (lowered f x c))
    has' c k = Dict.get-set x c (pos (f x - 1)) indeg ∙ elim (Bool-cases (x == c)) [
      | inl t ↦ let e = (==_iff x c).0 t in rw t (ap (λ y. some (pos (f y - 1))) e)
      | inr n ↦ rw n (has c k ∙ ap (λ m. some (pos m)) (omega arith))
    ]
