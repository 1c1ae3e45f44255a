-- ===== src/Validate/Cycle/Search.antt =====
-- The invariant of the depth-first search, kept by every call, and enough fuel.
use psae_monorepo.Prelude.{
  ℕ, zero, suc, ◌≤◌, String, ◌≡◌, refl, ap, sym, subst, ◌∙◌, ◌≢◌, inl, inr, true, Option, none,
  some, List, [], ◌∷◌, ◌++◌, Memᴰ, arith, ==_iff, ==_refl, ==-cases, Bool-cases, Memᴰ-cons,
  Memᴰ-append,
}
use mathlib.Core.List.Memᴰ
use mathlib.Core.WellFounded.{Acc}
use psae_monorepo.Dict
use psae_monorepo.Dict.{Dict, is_some}
use psae_monorepo.Validate.Cycle.{
  Color, white, gray, black, State, Outcome, done, found, out_of_fuel, deps_of, pop, slice_from,
  enter, leave, visit_dep, scan, finish, dfs, ◌>>=◌,
}
use psae_monorepo.Validate.Cycle.Graph.{
  Dep, Chain, IsCycle, pop-concat, Chain-concat, IsCycle-slice_from,
}

-- The white blocks.
abbrev pub whites : Dict Color → ℕ
whites [] = 0
whites ((k, white) ∷ m) = suc (whites m)
whites ((k, gray) ∷ m) = whites m
whites ((k, black) ∷ m) = whites m

-- A block that turns gray or black is no longer white.
pub whites-set :
    (k : String) (c : Color) (m : Dict Color)
    → Dict.get k m ≡ some white
    → c ≢ white
    → suc (whites (Dict.set k c m)) ≡ whites m
unfolding Dict.get Dict.set
whites-set k c [] h ne = cc
whites-set k c ((j, w) ∷ m) h ne = ground (arith, whites-set k c m)

pub whites-set_le :
    (k : String) (c : Color) (m : Dict Color) → c ≢ white → whites (Dict.set k c m) ≤ whites m
unfolding Dict.set
whites-set_le k c [] ne = ground arith
whites-set_le k c ((j, w) ∷ m) ne = ground (arith, whites-set_le k c m)

module _ (adj : Dict (List String)) where
  pub record Inv (s : State) : Type 0 where
    pub finished : (n : String) → Dict.get n s.color ≡ some black → Acc (Dep adj) n
    pub open_path : (n : String) → Dict.get n s.color ≡ some gray → Memᴰ n s.stack
    pub colored : (n : String) → Dict.has n adj ≡ true → Dict.has n s.color ≡ true

  -- What a call leaves as it was, and that no block turns white.
  pub record Keeps (s s' : State) : Type 0 where
    pub inv : Inv s'
    pub stack : s'.stack ≡ s.stack
    pub black_stays :
        (n : String) → Dict.get n s.color ≡ some black → Dict.get n s'.color ≡ some black
    pub fewer : whites s'.color ≤ whites s.color

  -- The outcome is a state that satisfies `P`, or a cycle of the graph.
  abbrev pub Ensures : (State → Type 0) → Outcome → Type 0
  Ensures P (done s) = P s
  Ensures P (found c) = IsCycle adj c
  Ensures P out_of_fuel = ⊥

  pub Ensures-weaken :
      (P Q : State → Type 0) → ((s : State) → P s → Q s) → (o : Outcome) → Ensures P o → Ensures Q o
  Ensures-weaken P Q f (done s) h = f s h
  Ensures-weaken P Q f (found c) h = h
  Ensures-weaken P Q f out_of_fuel h = h

  pub Ensures-bind :
      (P Q : State → Type 0) (o : Outcome) (k : State → Outcome)
      → Ensures P o
      → ((s : State) → P s → Ensures Q (k s))
      → Ensures Q (o >>= k)
  Ensures-bind P Q (done s) k h f = f s h
  Ensures-bind P Q (found c) k h f = h
  Ensures-bind P Q out_of_fuel k h f = h

  pub Keeps-refl : (s : State) → Inv s → Keeps s s
  Keeps-refl s h = record { inv = h; stack = refl; black_stays = λ n e. e; fewer = omega arith }

  Keeps-trans : (s t u : State) → Keeps s t → Keeps t u → Keeps s u
  Keeps-trans s t u h k = record {
    inv = k.inv;
    stack = k.stack ∙ h.stack;
    black_stays = λ n e. k.black_stays n (h.black_stays n e);
    fewer = omega (arith, h.fewer, k.fewer);
  }

  -- A block to start from: white, and below the top of the stack.
  pub record IsReady (fuel : ℕ) (node : String) (s : State) : Type 0 where
    pub inv : Inv s
    pub unseen : Dict.get node s.color ≡ some white
    pub path : Chain adj (s.stack ++ node ∷ [])
    pub fuel_enough : whites s.color ≤ fuel

  abbrev pub Visited : String → State → State → Type 0
  Visited node s s' = Keeps s s' × (Dict.get node s'.color ≡ some black)

  abbrev pub Visits : (String → State → Outcome) → ℕ → Type 0
  Visits visit fuel =
      (node : String) (s : State) → IsReady fuel node s → Ensures (Visited node s) (visit node s)

  Inv-enter : (node : String) (s : State) → Inv s → Inv (enter node s)
  unfolding enter
  Inv-enter node s h = record {
    finished = λ n e. ground (arith, Dict.get-set node n gray s.color, h.finished n);
    open_path = λ n e. ground (
      arith,
      Dict.get-set node n gray s.color,
      h.open_path n,
      ==_iff node n,
      Memᴰ-append n s.stack (node ∷ []),
      Memᴰ-cons n node [],
    );
    colored = λ n e. ground (arith, Dict.has-set node n gray s.color, h.colored n e);
  }

  abbrev pub Settled : String → State → Type 0
  Settled dep s' = Dict.has dep adj ≡ true → Dict.get dep s'.color ≡ some black

  Settled-Keeps : (d : String) (s s' : State) → Keeps s s' → Settled d s → Settled d s'
  Settled-Keeps d s s' k h p = k.black_stays d (h p)

  abbrev pub KeepsSettled : String → State → State → Type 0
  KeepsSettled dep s s' = Keeps s s' × Settled dep s'

  -- A search of the dependencies of `node`, which is the top of the stack.
  record IsScanning (visit : String → State → Outcome) (fuel : ℕ) (node : String)
      (below : List String) (s : State) : Type 0 where
    visits : Visits visit fuel
    inv : Inv s
    top : s.stack ≡ below ++ node ∷ []
    path : Chain adj (below ++ node ∷ [])
    fuel_enough : whites s.color ≤ fuel

  IsScanning-Keeps :
      (visit : String → State → Outcome) (fuel : ℕ) (node : String) (below : List String)
      (s s' : State)
      → IsScanning visit fuel node below s
      → Keeps s s'
      → IsScanning visit fuel node below s'
  IsScanning-Keeps visit fuel node below s s' h k = record {
    visits = h.visits;
    inv = k.inv;
    top = k.stack ∙ h.top;
    path = h.path;
    fuel_enough = omega (arith, h.fuel_enough, k.fewer);
  }

  -- One round of the loop over the dependencies.
  visit_dep_lem :
      (visit : String → State → Outcome) (fuel : ℕ) (node : String) (below : List String)
      (dep : String) (s : State)
      → IsScanning visit fuel node below s
      → Memᴰ dep (deps_of adj node)
      → Ensures (KeepsSettled dep s) (visit_dep visit adj dep s)
  unfolding visit_dep
  visit_dep_lem visit fuel node below dep s h m = elim (Bool-cases (Dict.has dep adj)) [
    | inl present ↦ by_color present (Dict.get dep s.color) refl
    | inr missing ↦
        let same : visit_dep visit adj dep s ≡ done s = rw missing refl in
        subst (Ensures (KeepsSettled dep s)) (sym same) (Keeps-refl s h.inv, λ p. cc)
  ]
    where
      by_color :
          Dict.has dep adj ≡ true
          → (o : Option Color) → Dict.get dep s.color ≡ o
          → Ensures (KeepsSettled dep s) (visit_dep visit adj dep s)
      by_color present none e =
          absurd (ground (arith, h.inv.colored dep present, Dict.has-get dep s.color))
      by_color present (some white) e =
          let same : visit_dep visit adj dep s ≡ visit dep s = rw (present, e) refl in
          subst (Ensures (KeepsSettled dep s)) (sym same) (
            Ensures-weaken (Visited dep s) (KeepsSettled dep s) (λ s' v. (v.0, λ p. v.1))
              (visit dep s)
              (h.visits dep s (record {
                inv = h.inv;
                unseen = e;
                path =
                    subst (λ st. Chain adj (st ++ dep ∷ [])) (sym h.top)
                      (Chain-concat adj below node dep h.path (m, present));
                fuel_enough = h.fuel_enough;
              })))
      by_color present (some gray) e =
          let same : visit_dep visit adj dep s ≡ found (slice_from dep s.stack ++ dep ∷ []) =
            rw (present, e) refl in
          subst (Ensures (KeepsSettled dep s)) (sym same) (
            subst (λ st. IsCycle adj (slice_from dep st ++ dep ∷ [])) (sym h.top)
              (IsCycle-slice_from adj below node dep h.path (m, present)
                (subst (Memᴰ dep) h.top (h.inv.open_path dep e))))
      by_color present (some black) e =
          let same : visit_dep visit adj dep s ≡ done s = rw (present, e) refl in
          subst (Ensures (KeepsSettled dep s)) (sym same) (Keeps-refl s h.inv, λ p. e)

  abbrev pub AllSettled : List String → State → State → Type 0
  AllSettled deps s s' = Keeps s s' × ((d : String) → Memᴰ d deps → Settled d s')

  pub AllSettled-cons :
      (dep : String) (deps : List String) (s s' s'' : State)
      → Keeps s s' × Settled dep s'
      → AllSettled deps s' s''
      → AllSettled (dep ∷ deps) s s''
  AllSettled-cons dep deps s s' s'' h k = (
    Keeps-trans s s' s'' h.0 k.0,
    λ d m. elim (Memᴰ.cases_cons m) [
      | inl p ↦ subst (λ x. Settled x s'') (sym p) (Settled-Keeps dep s' s'' k.0 h.1)
      | inr i ↦ k.1 d i
    ],
  )

  scan_lem :
      (visit : String → State → Outcome) (fuel : ℕ) (node : String) (below : List String)
      (deps : List String) (s : State)
      → IsScanning visit fuel node below s
      → ((d : String) → Memᴰ d deps → Memᴰ d (deps_of adj node))
      → Ensures (AllSettled deps s) (scan visit adj deps s)
  unfolding scan
  scan_lem visit fuel node below [] s h sub = (Keeps-refl s h.inv, λ d m. absurd (Memᴰ.not-nil m))
  scan_lem visit fuel node below (dep ∷ deps) s h sub =
      Ensures-bind (KeepsSettled dep s) (AllSettled (dep ∷ deps) s) (visit_dep visit adj dep s)
        (scan visit adj deps)
        (visit_dep_lem visit fuel node below dep s h (sub dep (Memᴰ.head refl)))
        (λ s' v.
          Ensures-weaken (AllSettled deps s') (AllSettled (dep ∷ deps) s)
            (λ s''. AllSettled-cons dep deps s s' s'' v) (scan visit adj deps s')
            (scan_lem visit fuel node below deps s'
              (IsScanning-Keeps visit fuel node below s s' h v.0) (λ d m. sub d (Memᴰ.tail m))))

  -- All that `node` depends on is finished: so is `node`.
  leave_lem :
      (fuel : ℕ) (node : String) (s s' : State)
      → IsReady fuel node s
      → AllSettled (deps_of adj node) (enter node s) s'
      → Visited node s (leave node s')
  unfolding enter leave
  leave_lem fuel node s s' h k = (
    record {
      inv = record {
        finished = λ n e. elim (==-cases node n) [
          | inl (t, p) ↦
              subst (Acc (Dep adj)) p
                (Acc.intro node (λ d e'. k.0.inv.finished d (k.1 d e'.0 e'.1)))
          | inr (t, p) ↦ k.0.inv.finished n (ground (arith, Dict.get-set node n black s'.color))
        ];
        open_path =
            λ n e. subst (Memᴰ n) (sym (ap pop k.0.stack ∙ pop-concat s.stack node)) (below n e);
        colored = λ n e. ground (arith, Dict.has-set node n black s'.color, k.0.inv.colored n e);
      };
      stack = ap pop k.0.stack ∙ pop-concat s.stack node;
      black_stays = λ n e. ground (arith, Dict.get-set node n black s'.color, stays n e);
      fewer = omega (
        arith,
        k.0.fewer,
        whites-set node gray s.color h.unseen (λ p. cc),
        whites-set_le node black s'.color (λ p. cc),
      );
    },
    ground (arith, Dict.get-set node node black s'.color, ==_refl node),
  )
    where
      stays : (n : String) → Dict.get n s.color ≡ some black → Dict.get n s'.color ≡ some black
      stays n e =
          k.0.black_stays n
            (ground (arith, Dict.get-set node n gray s.color, ==_iff node n, h.unseen))

      below : (n : String) → Dict.get n (Dict.set node black s'.color) ≡ some gray → Memᴰ n s.stack
      below n e =
          let m : Memᴰ n (s.stack ++ node ∷ []) =
            subst (Memᴰ n) k.0.stack
              (k.0.inv.open_path n (ground (arith, Dict.get-set node n black s'.color))) in
          ground (
            arith,
            Dict.get-set node n black s'.color,
            ==_iff node n,
            Memᴰ-append n s.stack (node ∷ []),
            Memᴰ-cons n node [],
            λ (x : Memᴰ n []). Memᴰ.not-nil x,
          )

  entered :
      (fuel : ℕ) (node : String) (s : State)
      → IsReady (suc fuel) node s
      → Visits (dfs fuel adj) fuel
      → IsScanning (dfs fuel adj) fuel node s.stack (enter node s)
  unfolding enter
  entered fuel node s h v = record {
    visits = v;
    inv = Inv-enter node s h.inv;
    top = refl;
    path = h.path;
    fuel_enough = omega (arith, whites-set node gray s.color h.unseen (λ p. cc), h.fuel_enough);
  }

  -- A call of `dfs` on a white block, with fuel for the white blocks, blackens the block and all
  -- below it and puts the stack back, or it finds a cycle.
  pub dfs-Visits : (fuel : ℕ) → Visits (dfs fuel adj) fuel
  unfolding dfs finish
  dfs-Visits zero node s h =
      absurd (omega (arith, whites-set node gray s.color h.unseen (λ p. cc), h.fuel_enough))
  dfs-Visits (suc fuel) node s h =
      Ensures-bind (AllSettled (deps_of adj node) (enter node s)) (Visited node s)
        (scan (dfs fuel adj) adj (deps_of adj node) (enter node s)) (λ s'. done (leave node s'))
        (scan_lem (dfs fuel adj) fuel node s.stack (deps_of adj node) (enter node s)
          (entered fuel node s h (dfs-Visits fuel)) (λ d m. m))
        (λ s' k. leave_lem (suc fuel) node s s' h k)
