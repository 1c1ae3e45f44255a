-- ===== src/Wiring/ReadOff.antt =====
-- The outcome of `resolveConnection`, read off the wiring that its steps leave.
use psae_monorepo.Prelude.{
  String, Bool, true, false, ◌≡◌, refl, sym, ap, subst, ◌∙◌, ◌≢◌, ◌↔◌, inl, inr, Option, none, some,
  List, [], ◌∷◌, Memᴰ, arith, Bool-cases, filter, any, All, Distinct, mem-filter, filter_of_mem,
}
use mathlib.Core.List.Memᴰ
use psae_monorepo.Dict
use psae_monorepo.Dict.{Dict}
use psae_monorepo.Types.{PortDecl, BlockManifest, Binding}
use psae_monorepo.Wiring.{
  ResolveOutcome, ok, ambiguous, invalid, Wiring, ports_compatible, Locked, locked, rejected, lock,
  matches, pair_off, is_ambiguous, collect, conclude, settle, resolve_connection,
}
use psae_monorepo.Wiring.Steps.{Begins, lock_lem, pair_off_lem, begun, Inv-begun, IsObjects}
use psae_monorepo.Wiring.Invariant.{Joins, outputs_of, inputs_of, Inv}

-- The bindings that the editor applies, whether or not the outcome is ambiguous.
abbrev pub bindings_of : ResolveOutcome → Option (List Binding)
bindings_of (ok bindings) = some bindings
bindings_of (ambiguous c i o partial) = some partial
bindings_of (invalid reason) = none

-- Two different outputs of `outputs` fit an input declared as `decl`.
pub record HasTwo (decl : PortDecl) (outputs : Dict PortDecl) : Type 0 where
  pub first : String × PortDecl
  pub second : String × PortDecl
  pub first_listed : Memᴰ first outputs
  pub second_listed : Memᴰ second outputs
  pub first_fits : ports_compatible first.1 decl ≡ true
  pub second_fits : ports_compatible second.1 decl ≡ true
  pub differ : first.0 ≢ second.0

Distinct-filter :
    (p : String × PortDecl → Bool) (m : Dict PortDecl)
    → Distinct (Dict.keys m)
    → Distinct (Dict.keys (filter p m))
Distinct-filter p [] d = tt
Distinct-filter p ((k, v) ∷ m) (new, d) = elim (Bool-cases (p (k, v))) [
  | inl t ↦ rw t (λ i. new (filtered m i), Distinct-filter p m d)
  | inr f ↦ rw f (Distinct-filter p m d)
]
  where
    filtered :
        {k : String} (m : Dict PortDecl) → Memᴰ k (Dict.keys (filter p m)) → Memᴰ k (Dict.keys m)
    filtered [] i = i
    filtered ((j, w) ∷ m) i = elim (Bool-cases (p (j, w))) [
      | inl t ↦ elim (Memᴰ.cases_cons (rw t at i)) [
        | inl e ↦ Memᴰ.head e
        | inr r ↦ Memᴰ.tail (filtered m r)
      ]
      | inr f ↦ Memᴰ.tail (filtered m (rw f at i))
    ]

-- Step 3's test finds an input that two different outputs fit.
pub is_ambiguous_iff :
    (decl : PortDecl) (outputs : Dict PortDecl)
    → Distinct (Dict.keys outputs)
    → (is_ambiguous decl outputs ≡ true) ↔ HasTwo decl outputs
unfolding is_ambiguous matches
is_ambiguous_iff decl outputs distinct = (
  two_of (filter fits outputs) refl,
  λ h.
      counted (filter fits outputs) (filter_of_mem fits outputs h.first_listed h.first_fits)
        (filter_of_mem fits outputs h.second_listed h.second_fits) h.differ,
)
  where
    fits : String × PortDecl → Bool
    fits p = ports_compatible p.1 decl

    two_of :
        (ms : Dict PortDecl)
        → filter fits outputs ≡ ms
        → (elim ms [ [] ↦ false | p ∷ r ↦ elim r [ [] ↦ false | q ∷ r' ↦ true ] ]) ≡ true
        → HasTwo decl outputs
    two_of [] e t = cc
    two_of (p ∷ []) e t = cc
    two_of (p ∷ q ∷ r) e t =
        let (m, c) = mem-filter fits outputs (subst (Memᴰ p) (sym e) (Memᴰ.head refl)) in
        let (n, d) =
          mem-filter fits outputs (subst (Memᴰ q) (sym e) (Memᴰ.tail (Memᴰ.head refl))) in
        let keys =
          subst (λ ms. Distinct (Dict.keys ms)) e (Distinct-filter fits outputs distinct) in
        record {
          first = p;
          second = q;
          first_listed = m;
          second_listed = n;
          first_fits = c;
          second_fits = d;
          differ = λ k. keys.0 (Memᴰ.head k);
        }

    counted :
        {p q : String × PortDecl} (ms : Dict PortDecl)
        → Memᴰ p ms
        → Memᴰ q ms
        → p.0 ≢ q.0
        → (elim ms [ [] ↦ false | p ∷ r ↦ elim r [ [] ↦ false | q ∷ r' ↦ true ] ]) ≡ true
    counted [] m n d = absurd (Memᴰ.not-nil m)
    counted (x ∷ []) m n d =
        absurd (d (ap (λ t. t.0) (Memᴰ.eq_of_singleton m ∙ sym (Memᴰ.eq_of_singleton n))))
    counted (x ∷ y ∷ r) m n d = refl

collect-any :
    (outputs inputs : Dict PortDecl) (candidates : Dict (List String))
    → (collect outputs inputs candidates).0 ≡ any (λ p. is_ambiguous p.1 outputs) inputs
unfolding collect
collect-any outputs [] candidates = refl
collect-any outputs ((name, decl) ∷ inputs) candidates = ground (
  arith,
  collect-any outputs inputs (Dict.set name (Dict.keys (matches decl outputs)) candidates),
)

module _ (upstream downstream : BlockManifest) where
  -- The outcome, read off the wiring that steps 1 and 2 leave.
  pub record IsReadOff (w : Wiring) (o : ResolveOutcome) : Type 0 where
    pub returned : bindings_of o ≡ some w.bindings
    pub plain :
        any (λ p. is_ambiguous p.1 w.remaining_outputs) w.remaining_inputs ≡ false
        → o ≡ ok w.bindings
    pub two :
        any (λ p. is_ambiguous p.1 w.remaining_outputs) w.remaining_inputs ≡ true
        → o ≢ ok w.bindings

  conclude_lem : (w : Wiring) → IsReadOff w (conclude upstream downstream w)
  unfolding conclude
  conclude_lem w = ground (arith, collect-any w.remaining_outputs w.remaining_inputs [])

  pub settle_lem :
      (w : Wiring)
      → IsReadOff (pair_off w.remaining_inputs w) (settle upstream downstream (locked w))
  unfolding settle
  settle_lem w = by_size (pair_off w.remaining_inputs w).remaining_inputs refl
    where
      by_size :
          (l : Dict PortDecl)
          → (pair_off w.remaining_inputs w).remaining_inputs ≡ l
          → IsReadOff (pair_off w.remaining_inputs w) (elim l [
            | [] ↦ ok (pair_off w.remaining_inputs w).bindings
            | _ ∷ _ ↦ conclude upstream downstream (pair_off w.remaining_inputs w)
          ])
      by_size [] e = record {
        returned = refl;
        plain = λ p. refl;
        two = λ p. absurd (none_there _ e p);
      }
        where
          none_there :
              (outputs : Dict PortDecl) {l : Dict PortDecl}
              → l ≡ []
              → any (λ p. is_ambiguous p.1 outputs) l ≡ true
              → ⊥
          none_there outputs e p =
              let f = subst (λ l. any (λ p. is_ambiguous p.1 outputs) l ≡ true) e p in cc
      by_size (_ ∷ _) e = conclude_lem (pair_off w.remaining_inputs w)

  -- What is said of the bindings that an outcome returns, for the bindings `pre` given to it.
  pub record IsResolved (pre bs : List Binding) : Type 0 where
    pub joined : All (Joins upstream downstream) bs
    pub outputs_once : Distinct (outputs_of bs)
    pub inputs_once : Distinct (inputs_of bs)
    pub begins : Begins pre bs

  -- An input that `bs` leaves open, and two different outputs that `bs` leaves open and that fit it.
  pub record IsOpenChoice (bs : List Binding) : Type 0 where
    pub input : String
    pub decl : PortDecl
    pub declared : Dict.get input downstream.inputs ≡ some decl
    pub unbound : ¬ Memᴰ input (inputs_of bs)
    pub first : String × PortDecl
    pub second : String × PortDecl
    pub first_declared : Dict.get first.0 upstream.outputs ≡ some first.1
    pub second_declared : Dict.get second.0 upstream.outputs ≡ some second.1
    pub first_unbound : ¬ Memᴰ first.0 (outputs_of bs)
    pub second_unbound : ¬ Memᴰ second.0 (outputs_of bs)
    pub first_fits : ports_compatible first.1 decl ≡ true
    pub second_fits : ports_compatible second.1 decl ≡ true
    pub differ : first.0 ≢ second.0

  -- The wiring behind an outcome that is not `invalid`.
  pub record IsBehind (pre bs : List Binding) (o : ResolveOutcome) : Type 0 where
    pub last : Wiring
    pub inv : Inv upstream downstream last
    pub begins : Begins pre last.bindings
    pub read_off : IsReadOff last o
    pub same : bs ≡ last.bindings

  pub behind :
      (pre bs : List Binding)
      → IsObjects upstream downstream
      → bindings_of (resolve_connection upstream downstream pre) ≡ some bs
      → IsBehind pre bs (resolve_connection upstream downstream pre)
  unfolding resolve_connection
  behind pre bs h e = by_lock (lock upstream downstream pre (begun upstream downstream)) refl e
    where
      by_lock :
          (l : Locked)
          → lock upstream downstream pre (begun upstream downstream) ≡ l
          → bindings_of (settle upstream downstream l) ≡ some bs
          → IsBehind pre bs (settle upstream downstream l)
      by_lock (rejected reason) p q = unfold settle in cc
      by_lock (locked w) p q =
          let (inv, given) =
            lock_lem upstream downstream pre (begun upstream downstream) w
              (Inv-begun upstream downstream h) p in
          let (inv', more) =
            pair_off_lem upstream downstream w.remaining_inputs w inv inv.inputs_left.keys_distinct
              (λ k d m. Dict.get_of_mem w.remaining_inputs inv.inputs_left.keys_distinct m) in
          let r = settle_lem w in
          record {
            last = pair_off w.remaining_inputs w;
            inv = inv';
            begins = subst (λ b. Begins b (pair_off w.remaining_inputs w).bindings) given more;
            read_off = r;
            same = cc (r.returned);
          }
