-- ===== src/BlockLibrary/Scanned.antt =====
-- The scan of the directories of inputs.
use psae_monorepo.Prelude.{
  String, true, false, ◌≡◌, refl, sym, ap, subst, ◌∙◌, ◌↔◌, ◌⊎◌, inl, inr, none, some, List, [],
  ◌∷◌, ==-cases, Bool-cases, Memᴰ, Distinct,
}
use mathlib.Core.List.Memᴰ
use psae_monorepo.Dict
use psae_monorepo.Dict.{Dict}
use psae_monorepo.BlockLibrary.{
  TypeClass, ArgValue, Outcome, threw, returned, Environment, value_in, scan_entries, scan_inputs,
}
use psae_monorepo.BlockLibrary.Made.{Makes, value_in-Makes_iff}

pub Outcome-cases :
    {V : Type 0} (o : Outcome V) → ((m : String) × (o ≡ threw m)) ⊎ ((v : V) × (o ≡ returned v))
Outcome-cases (threw m) = inl (m, refl)
Outcome-cases (returned v) = inr (v, refl)

pub returned-injective : {V : Type 0} {v w : V} → returned v ≡ returned w → v ≡ w
returned-injective e = cc

pub threw-ne-returned : {V : Type 0} {m : String} {v : V} → threw m ≡ returned v → ⊥
threw-ne-returned e = cc

module _ {P : Type 0} (env : Environment P) where
  -- A directory among the entries, and the value that is made of it.
  record IsScanned (hints : Dict TypeClass) (entries : List String) (name : String) (v : ArgValue P)
      : Type 0 where
    listed : Memᴰ name entries
    is_dir : env.is_directory (env.join "inputs" name) ≡ true
    made : value_in env name (Dict.get name hints) (env.join "inputs" name) ≡ returned v

  skip :
      (hints : Dict TypeClass) (x : String) (entries : List String) (name : String) (v : ArgValue P)
      → env.is_directory (env.join "inputs" x) ≡ false
      → IsScanned hints (x ∷ entries) name v
      → IsScanned hints entries name v
  skip hints x entries name v f i = elim (Memᴰ.cases_cons i.listed) [
    | inl e ↦
        let d = i.is_dir in
        let same = ap (λ y. env.is_directory (env.join "inputs" y)) e in absurd (cc)
    | inr k ↦ record { listed = k; is_dir = i.is_dir; made = i.made }
  ]

  later :
      (hints : Dict TypeClass) (x : String) (entries : List String) (name : String) (v : ArgValue P)
      → IsScanned hints entries name v
      → IsScanned hints (x ∷ entries) name v
  later hints x entries name v i = record {
    listed = Memᴰ.tail i.listed;
    is_dir = i.is_dir;
    made = i.made;
  }

  -- The entries before are in `result`, which agrees with the values that the loop makes.
  abbrev Agrees : Dict TypeClass → Dict (ArgValue P) → Type 0
  Agrees hints result =
      (name : String) (v : ArgValue P)
      → Dict.get name result ≡ some v
      → value_in env name (Dict.get name hints) (env.join "inputs" name) ≡ returned v

  record IsScan (hints : Dict TypeClass) (entries : List String) (before after : Dict (ArgValue P))
      : Type 0 where
    found_iff :
        (name : String) (v : ArgValue P)
        → (Dict.get name after ≡ some v)
          ↔ ((Dict.get name before ≡ some v) ⊎ IsScanned hints entries name v)
    keyed : Distinct (Dict.keys after)

  set-cases :
      (name y : String) (w v : ArgValue P) (m : Dict (ArgValue P))
      → Dict.get name (Dict.set y w m) ≡ some v
      → ((y ≡ name) × (w ≡ v)) ⊎ (Dict.get name m ≡ some v)
  set-cases name y w v m h = elim (==-cases y name) [
    | inl (b, n) ↦
        let q : some w ≡ some v = rw b at (sym (Dict.get-set y name w m) ∙ h) in inl (n, cc)
    | inr (b, _) ↦ inr (rw b at (sym (Dict.get-set y name w m) ∙ h))
  ]

  at_name :
      (hints : Dict TypeClass) {x name : String} (v : ArgValue P)
      → x ≡ name
      → value_in env x (Dict.get x hints) (env.join "inputs" x) ≡ returned v
      → value_in env name (Dict.get name hints) (env.join "inputs" name) ≡ returned v
  at_name hints v n p =
      subst (λ y. value_in env y (Dict.get y hints) (env.join "inputs" y) ≡ returned v) n p

  set-Agrees :
      (hints : Dict TypeClass) (x : String) (w : ArgValue P) (before : Dict (ArgValue P))
      → Agrees hints before
      → value_in env x (Dict.get x hints) (env.join "inputs" x) ≡ returned w
      → Agrees hints (Dict.set x w before)
  set-Agrees hints x w before g p name v h = elim (set-cases name x w v before h) [
    | inl (n, q) ↦ at_name hints v n (p ∙ ap returned q)
    | inr k ↦ g name v k
  ]

  -- What is known of a name stays so once a directory is entered.
  kept :
      (hints : Dict TypeClass) (x name : String) (w v : ArgValue P) (before : Dict (ArgValue P))
      → value_in env x (Dict.get x hints) (env.join "inputs" x) ≡ returned w
      → value_in env name (Dict.get name hints) (env.join "inputs" name) ≡ returned v
      → (x ≡ name) ⊎ (Dict.get name before ≡ some v)
      → Dict.get name (Dict.set x w before) ≡ some v
  kept hints x name w v before p made k = elim (==-cases x name) [
    | inl (b, n) ↦
        Dict.get-set x name w before
        ∙ rw b (ap some (returned-injective (sym (at_name hints w n p) ∙ made)))
    | inr (b, ne) ↦
        Dict.get-set x name w before ∙ rw b (elim k [ inl n ↦ absurd (ne n) | inr h ↦ h ])
  ]

  taken :
      (hints : Dict TypeClass) (x : String) (entries : List String) (w : ArgValue P)
      (before after : Dict (ArgValue P))
      → Agrees hints before
      → env.is_directory (env.join "inputs" x) ≡ true
      → value_in env x (Dict.get x hints) (env.join "inputs" x) ≡ returned w
      → IsScan hints entries (Dict.set x w before) after
      → IsScan hints (x ∷ entries) before after
  taken hints x entries w before after g t p rest = record {
    found_iff = λ name v. (
      λ h. elim ((rest.found_iff name v).0 h) [
        | inl k ↦ elim (set-cases name x w v before k) [
          | inl (n, q) ↦ inr (record {
            listed = Memᴰ.head (sym n);
            is_dir = subst (λ y. env.is_directory (env.join "inputs" y) ≡ true) n t;
            made = at_name hints v n (p ∙ ap returned q);
          })
          | inr i ↦ inl i
        ]
        | inr i ↦ inr (later hints x entries name v i)
      ],
      λ s. (rest.found_iff name v).1 (elim s [
        | inl k ↦ inl (kept hints x name w v before p (g name v k) (inr k))
        | inr i ↦ elim (Memᴰ.cases_cons i.listed) [
          | inl n ↦ inl (kept hints x name w v before p i.made (inl (sym n)))
          | inr k ↦ inr (record { listed = k; is_dir = i.is_dir; made = i.made })
        ]
      ]),
    );
    keyed = rest.keyed;
  }

  passed :
      (hints : Dict TypeClass) (x : String) (entries : List String)
      (before after : Dict (ArgValue P))
      → env.is_directory (env.join "inputs" x) ≡ false
      → IsScan hints entries before after
      → IsScan hints (x ∷ entries) before after
  passed hints x entries before after f rest = record {
    found_iff = λ name v. (
      λ h. elim ((rest.found_iff name v).0 h) [
        | inl k ↦ inl k
        | inr i ↦ inr (later hints x entries name v i)
      ],
      λ w.
          (rest.found_iff name v).1
            (elim w [ inl k ↦ inl k | inr i ↦ inr (skip hints x entries name v f i) ]),
    );
    keyed = rest.keyed;
  }

  scan_entries-IsScan :
      (hints : Dict TypeClass) (entries : List String) (before after : Dict (ArgValue P))
      → Agrees hints before
      → Distinct (Dict.keys before)
      → scan_entries env hints entries before ≡ returned after
      → IsScan hints entries before after
  unfolding scan_entries
  scan_entries-IsScan hints [] before after g d e =
      subst (IsScan hints [] before) (returned-injective e) (record {
        found_iff = λ name v.
            (λ h. inl h, λ w. elim w [ inl h ↦ h | inr i ↦ absurd (Memᴰ.not-nil i.listed) ]);
        keyed = d;
      })
  scan_entries-IsScan hints (x ∷ entries) before after g d e =
      elim (Bool-cases (env.is_directory (env.join "inputs" x))) [
        | inr f ↦
            passed hints x entries before after f
              (scan_entries-IsScan hints entries before after g d (rw (f, scan_entries) at e))
        | inl t ↦ elim (Outcome-cases (value_in env x (Dict.get x hints) (env.join "inputs" x))) [
          | inl (m, p) ↦ absurd (threw-ne-returned (rw (t, p, scan_entries) at e))
          | inr (w, p) ↦ taken hints x entries w before after g t p (
              scan_entries-IsScan hints entries (Dict.set x w before) after
                (set-Agrees hints x w before g p) (Dict.Distinct-set x w before d)
                (rw (t, p, scan_entries) at e))
        ]
      ]

  -- A directory among the entries, and a value that it gives for the type declared under its name.
  pub record IsInput (hints : Dict TypeClass) (entries : List String) (name : String)
      (v : ArgValue P) : Type 0 where
    pub listed : Memᴰ name entries
    pub is_dir : env.is_directory (env.join "inputs" name) ≡ true
    pub made : Makes env (Dict.get name hints) (env.join "inputs" name) v

  -- Where the sorting keeps the names and there is a directory of inputs, a scan that returns has
  -- exactly the directories in it under their names, each with the value that its declared type asks for:
  -- the directory itself, the collection of its files, or the first of these; for a scalar or no type,
  -- its only file, or the collection of its files where there are more.
  pub scan_inputs_iff :
      (hints : Dict TypeClass) (result : Dict (ArgValue P))
      → ((names : List String) (x : String) → Memᴰ x (env.sort names) ↔ Memᴰ x names)
      → env.exists "inputs" ≡ true
      → scan_inputs env hints ≡ returned result
      → (name : String) (v : ArgValue P)
      → (Dict.get name result ≡ some v) ↔ IsInput hints (env.entries "inputs") name v
  unfolding scan_inputs Dict.get
  scan_inputs_iff hints result sorts there e name v =
      let names = env.sort (env.entries "inputs") in
      let s =
        scan_entries-IsScan hints names [] result (λ n w h. absurd (none-ne-some h)) tt
          (rw (there, scan_inputs) at e) in
      (
        λ h. elim ((s.found_iff name v).0 h) [
          | inl k ↦ absurd (none-ne-some k)
          | inr i ↦ record {
            listed = (sorts (env.entries "inputs") name).0 i.listed;
            is_dir = i.is_dir;
            made = (made_iff name v).0 i.made;
          }
        ],
        λ i. (s.found_iff name v).1 (
            inr (record {
              listed = (sorts (env.entries "inputs") name).1 i.listed;
              is_dir = i.is_dir;
              made = (made_iff name v).1 i.made;
            })),
      )
    where
      made_iff :
          (n : String) (w : ArgValue P)
          → (value_in env n (Dict.get n hints) (env.join "inputs" n) ≡ returned w)
            ↔ Makes env (Dict.get n hints) (env.join "inputs" n) w
      made_iff n w = value_in-Makes_iff env n (Dict.get n hints) (env.join "inputs" n) w

      none-ne-some : {w : ArgValue P} → none ≡ some w → ⊥
      none-ne-some p = cc

  pub scan_inputs-keyed :
      (hints : Dict TypeClass) (result : Dict (ArgValue P))
      → scan_inputs env hints ≡ returned result
      → Distinct (Dict.keys result)
  unfolding scan_inputs Dict.get
  scan_inputs-keyed hints result e = elim (Bool-cases (env.exists "inputs")) [
    | inr f ↦ subst (λ r. Distinct (Dict.keys r)) (returned-injective (rw (f, scan_inputs) at e)) tt
    | inl t ↦
        (scan_entries-IsScan hints (env.sort (env.entries "inputs")) [] result
          (λ n w h. absurd (cc)) tt (rw (t, scan_inputs) at e)).keyed
  ]
