-- ===== src/BlockLibrary/Args.antt =====
-- The arguments of a block: the scanned inputs before the values of params.yaml, and only declared ones.
use psae_monorepo.Prelude.{
  String, true, false, ◌≡◌, refl, sym, ap, subst, ◌∙◌, inl, inr, Option, none, some, List, [], ◌∷◌,
  ==-cases, if◌then◌else◌, filter, contains, Bool-cases, Option-cases, Memᴰ, Distinct,
}
use psae_monorepo.Dict
use psae_monorepo.Dict.{Dict}
use psae_monorepo.BlockLibrary.{
  SpadeMetadata, ArgValue, returned, Environment, load_params, scan_inputs, spread, as_args,
  build_function_args, declared_args, hints_of, run_args,
}
use psae_monorepo.BlockLibrary.Scanned.{
  Outcome-cases, returned-injective, threw-ne-returned, scan_inputs-keyed,
}

-- The scanned input of a name, or else the parameter.
abbrev pub or_param : {V : Type 0} → Option V → Option V → Option V
or_param none p = p
or_param (some v) p = some v

module _ {P : Type 0} (env : Environment P) where
  get-spread :
      (inputs args : Dict (ArgValue P)) (k : String)
      → Distinct (Dict.keys inputs)
      → Dict.get k (spread env inputs args) ≡ or_param (Dict.get k inputs) (Dict.get k args)
  unfolding spread Dict.get
  get-spread [] args k d = refl
  get-spread ((x, v) ∷ inputs) args k (new, d) =
      get-spread inputs (Dict.set x v args) k d ∙ elim (==-cases x k) [
        | inl (t, e) ↦ elim (Option-cases (Dict.get k inputs)) [
          | inl n ↦ rw (n, t) (Dict.get-set x k v args ∙ rw t refl)
          | inr (w, p) ↦ absurd (
              new (
                subst (λ y. Memᴰ y (Dict.keys inputs)) (sym e)
                  (Dict.mem-keys inputs (Dict.mem_of_get inputs p))))
        ]
        | inr (f, _) ↦
            rw f (ap (or_param (Dict.get k inputs)) (Dict.get-set x k v args ∙ rw f refl))
      ]

get-filter :
    {V : Type 0} (names : List String) (m : Dict V) (k : String)
    → Dict.get k (filter (λ p. contains p.0 names) m)
      ≡ (if contains k names then Dict.get k m else none)
unfolding Dict.get
get-filter names [] k = elim (Bool-cases (contains k names)) [
  | inl t ↦ rw t refl
  | inr f ↦ rw f refl
]
get-filter names ((x, v) ∷ m) k = elim (==-cases x k) [
  | inl (t, e) ↦ elim (Bool-cases (contains x names)) [
    | inl y ↦
        let y' : contains k names ≡ true = ap (λ z. contains z names) (sym e) ∙ y in
        rw (y, y', t) refl
    | inr n ↦
        let n' : contains k names ≡ false = ap (λ z. contains z names) (sym e) ∙ n in
        rw n (get-filter names m k ∙ rw n' refl)
  ]
  | inr (f, _) ↦ elim (Bool-cases (contains x names)) [
    | inl y ↦ rw y (rw f (get-filter names m k))
    | inr n ↦ rw n (rw f (get-filter names m k))
  ]
]

module _ {P : Type 0} (env : Environment P) where
  pub record AreArgs (metadata : SpadeMetadata) (args : Dict (ArgValue P)) : Type 0 where
    pub inputs : Dict (ArgValue P)
    pub params : Dict P
    pub scanned : scan_inputs env metadata.inputs ≡ returned inputs
    pub loaded : load_params env ≡ returned params
    pub found :
        (k : String)
        → Dict.get k args ≡ (
            if contains k (Dict.keys metadata.inputs)
            then or_param (Dict.get k inputs) (Dict.get k (as_args env params))
            else none)

  -- A block with metadata that is called at all is called with its declared arguments only, each the input
  -- that was scanned under its name, or else the parameter.
  pub run_args-AreArgs :
      (metadata : SpadeMetadata) (args : Dict (ArgValue P))
      → run_args env (some metadata) ≡ returned args
      → AreArgs metadata args
  unfolding run_args build_function_args hints_of declared_args
  run_args-AreArgs metadata args e = elim (Outcome-cases (load_params env)) [
    | inl (m, p) ↦ absurd (threw-ne-returned (rw (p, run_args, build_function_args) at e))
    | inr (params, p) ↦ elim (Outcome-cases (scan_inputs env metadata.inputs)) [
      | inl (m, q) ↦ absurd (threw-ne-returned (rw (p, q, run_args, build_function_args) at e))
      | inr (inputs, q) ↦
          let all = spread env inputs (as_args env params) in
          let made : filter (λ x. contains x.0 (Dict.keys metadata.inputs)) all ≡ args =
            returned-injective (rw (p, q, run_args, build_function_args) at e) in
          record {
            inputs = inputs;
            params = params;
            scanned = q;
            loaded = p;
            found = λ k.
                ap (Dict.get k) (sym made)
                ∙ get-filter (Dict.keys metadata.inputs) all k
                ∙ ap (λ o. if contains k (Dict.keys metadata.inputs) then o else none)
                    (get-spread env inputs (as_args env params) k
                      (scan_inputs-keyed env metadata.inputs inputs q));
          }
    ]
  ]
