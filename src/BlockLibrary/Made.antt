-- ===== src/BlockLibrary/Made.antt =====
-- The value that is made of a directory of inputs.
use psae_monorepo.Prelude.{
  String, true, false, ◌≡◌, refl, sym, ap, ◌∙◌, ◌↔◌, ◌⊎◌, inl, inr, Option, none, some, List, [],
  ◌∷◌, map, filter, Bool-cases,
}
use psae_monorepo.BlockLibrary.{
  TypeClass, ArgValue, at_path, at_paths, threw, returned, Environment, files_in, infer_value,
  first_file, value_in, is_directory_subclass, is_file_collection_subclass, is_file_subclass,
}

-- What an input of a type is made of: the directory itself, its files, the first of them, or, for a
-- scalar, what is there.
pub data Shape : Type 0 where
  whole listed first inferred : Shape

abbrev pub shape_of : TypeClass → Shape
shape_of TypeClass.file = Shape.first
shape_of TypeClass.raster_file = Shape.first
shape_of TypeClass.vector_file = Shape.first
shape_of TypeClass.tabular_file = Shape.first
shape_of TypeClass.json_file = Shape.first
shape_of TypeClass.directory = Shape.whole
shape_of TypeClass.file_collection = Shape.listed
shape_of TypeClass.raster_collection = Shape.listed
shape_of TypeClass.vector_collection = Shape.listed
shape_of TypeClass.tabular_collection = Shape.listed
shape_of (TypeClass.own_file name) = Shape.first
shape_of (TypeClass.own_directory name) = Shape.whole
shape_of (TypeClass.own_collection name) = Shape.listed
shape_of TypeClass.string_type = Shape.inferred
shape_of TypeClass.number_type = Shape.inferred
shape_of TypeClass.boolean_type = Shape.inferred

module _ {P : Type 0} (env : Environment P) where
  -- The paths of those names, in their order, that are regular files of the directory.
  abbrev pub ListsFiles : String → List String → List String → Type 0
  ListsFiles dir [] fs = fs ≡ []
  ListsFiles dir (x ∷ names) fs =
      ((env.is_file (env.join dir x) ≡ true)
        × ((rest : List String) × ListsFiles dir names rest × (fs ≡ env.join dir x ∷ rest)))
      ⊎ ((env.is_file (env.join dir x) ≡ false) × ListsFiles dir names fs)

  -- The files of a directory, in the order of the sorted names.
  abbrev pub HasFiles : String → List String → Type 0
  HasFiles dir fs = ListsFiles dir (env.sort (env.entries dir)) fs

  -- One file stands for itself, and more of them for a collection.
  abbrev pub Infers : String → ArgValue P → Type 0
  Infers dir v =
      ((f : String) × HasFiles dir (f ∷ []) × (v ≡ at_path TypeClass.file f))
      ⊎ ((f : String) × (g : String) × (fs : List String) × HasFiles dir (f ∷ g ∷ fs)
          × (v ≡ at_paths TypeClass.file_collection (f ∷ g ∷ fs)))

  abbrev pub MakesAs : Shape → TypeClass → String → ArgValue P → Type 0
  MakesAs Shape.whole cls dir v = v ≡ at_path cls dir
  MakesAs Shape.listed cls dir v = (fs : List String) × HasFiles dir fs × (v ≡ at_paths cls fs)
  MakesAs Shape.first cls dir v =
      (f : String) × (fs : List String) × HasFiles dir (f ∷ fs) × (v ≡ at_path cls f)
  MakesAs Shape.inferred cls dir v = Infers dir v

  -- The value that a directory gives for a declared type, or for none.
  abbrev pub Makes : Option TypeClass → String → ArgValue P → Type 0
  Makes none dir v = Infers dir v
  Makes (some cls) dir v = MakesAs (shape_of cls) cls dir v

  true-ne-false : ¬ (true ≡ false)
  true-ne-false e = cc

  lists_iff :
      (dir : String) (names fs : List String)
      → ListsFiles dir names fs
        ↔ (map (λ f. env.join dir f) (filter (λ f. env.is_file (env.join dir f)) names) ≡ fs)
  lists_iff dir [] fs = (λ e. sym e, λ e. sym e)
  lists_iff dir (x ∷ names) fs = elim (Bool-cases (env.is_file (env.join dir x))) [
    | inl t ↦ rw t (
      λ h. elim h [
        | inl (_, (rest, k, e)) ↦
            ap (λ l. env.join dir x ∷ l) ((lists_iff dir names rest).0 k) ∙ sym e
        | inr (f, _) ↦ absurd (true-ne-false f)
      ],
      λ e. inl (refl, (kept, (lists_iff dir names kept).1 refl, sym e)),
    )
    | inr b ↦ rw b (
      λ h. elim h [
        | inl (t, _) ↦ absurd (true-ne-false (sym t))
        | inr (_, k) ↦ (lists_iff dir names fs).0 k
      ],
      λ e. inr (refl, (lists_iff dir names fs).1 e),
    )
  ]
    where
      kept : List String
      kept = map (λ f. env.join dir f) (filter (λ f. env.is_file (env.join dir f)) names)

  files_in_iff : (dir : String) (fs : List String) → HasFiles dir fs ↔ (files_in env dir ≡ fs)
  unfolding files_in
  files_in_iff dir fs = lists_iff dir (env.sort (env.entries dir)) fs

  same_value : {v w : ArgValue P} → returned v ≡ returned w → v ≡ w
  same_value e = cc

  threw-ne-value : {m : String} {v : ArgValue P} → threw m ≡ returned v → ⊥
  threw-ne-value e = cc

  inferred_iff :
      (dir : String) (v : ArgValue P)
      → (infer_value env dir (files_in env dir) ≡ returned v) ↔ Infers dir v
  unfolding infer_value
  inferred_iff dir v = (
    λ e. from (files_in env dir) refl e,
    λ h. elim h [
      | inl (f, k, e) ↦ rw ((files_in_iff dir (f ∷ [])).0 k) (ap returned (sym e))
      | inr (f, g, fs, k, e) ↦ rw ((files_in_iff dir (f ∷ g ∷ fs)).0 k) (ap returned (sym e))
    ],
  )
    where
      from :
          (fs : List String)
          → files_in env dir ≡ fs
          → infer_value env dir fs ≡ returned v
          → Infers dir v
      from [] p e = absurd (threw-ne-value e)
      from (f ∷ []) p e = inl (f, (files_in_iff dir (f ∷ [])).1 p, sym (same_value e))
      from (f ∷ g ∷ fs) p e =
          inr (f, g, fs, (files_in_iff dir (f ∷ g ∷ fs)).1 p, sym (same_value e))

  first_iff :
      (name dir : String) (cls : TypeClass) (v : ArgValue P)
      → (first_file env name dir cls (files_in env dir) ≡ returned v)
        ↔ MakesAs Shape.first cls dir v
  unfolding first_file
  first_iff name dir cls v = (
    λ e. from (files_in env dir) refl e,
    λ (f, fs, k, e). rw ((files_in_iff dir (f ∷ fs)).0 k) (ap returned (sym e)),
  )
    where
      from :
          (fs : List String)
          → files_in env dir ≡ fs
          → first_file env name dir cls fs ≡ returned v
          → MakesAs Shape.first cls dir v
      from [] p e = absurd (threw-ne-value e)
      from (f ∷ fs) p e = (f, fs, (files_in_iff dir (f ∷ fs)).1 p, sym (same_value e))

  whole_iff :
      (dir : String) (cls : TypeClass) (v : ArgValue P)
      → (returned (at_path cls dir) ≡ returned v) ↔ MakesAs Shape.whole cls dir v
  whole_iff dir cls v = (λ e. sym (same_value e), λ e. ap returned (sym e))

  listed_iff :
      (dir : String) (cls : TypeClass) (v : ArgValue P)
      → (returned (at_paths cls (files_in env dir)) ≡ returned v) ↔ MakesAs Shape.listed cls dir v
  listed_iff dir cls v = (
    λ e. (files_in env dir, (files_in_iff dir (files_in env dir)).1 refl, sym (same_value e)),
    λ (fs, k, e).
        ap (λ l. returned (at_paths cls l)) ((files_in_iff dir fs).0 k) ∙ ap returned (sym e),
  )

  pub value_in-Makes_iff :
      (name : String) (hint : Option TypeClass) (dir : String) (v : ArgValue P)
      → (value_in env name hint dir ≡ returned v) ↔ Makes hint dir v
  unfolding value_in is_directory_subclass is_file_collection_subclass is_file_subclass
  value_in-Makes_iff name none dir v = inferred_iff dir v
  value_in-Makes_iff name (some TypeClass.file) dir v = first_iff name dir TypeClass.file v
  value_in-Makes_iff name (some TypeClass.raster_file) dir v =
      first_iff name dir TypeClass.raster_file v
  value_in-Makes_iff name (some TypeClass.vector_file) dir v =
      first_iff name dir TypeClass.vector_file v
  value_in-Makes_iff name (some TypeClass.tabular_file) dir v =
      first_iff name dir TypeClass.tabular_file v
  value_in-Makes_iff name (some TypeClass.json_file) dir v =
      first_iff name dir TypeClass.json_file v
  value_in-Makes_iff name (some (TypeClass.own_file own)) dir v =
      first_iff name dir (TypeClass.own_file own) v
  value_in-Makes_iff name (some TypeClass.directory) dir v = whole_iff dir TypeClass.directory v
  value_in-Makes_iff name (some (TypeClass.own_directory own)) dir v =
      whole_iff dir (TypeClass.own_directory own) v
  value_in-Makes_iff name (some TypeClass.file_collection) dir v =
      listed_iff dir TypeClass.file_collection v
  value_in-Makes_iff name (some TypeClass.raster_collection) dir v =
      listed_iff dir TypeClass.raster_collection v
  value_in-Makes_iff name (some TypeClass.vector_collection) dir v =
      listed_iff dir TypeClass.vector_collection v
  value_in-Makes_iff name (some TypeClass.tabular_collection) dir v =
      listed_iff dir TypeClass.tabular_collection v
  value_in-Makes_iff name (some (TypeClass.own_collection own)) dir v =
      listed_iff dir (TypeClass.own_collection own) v
  value_in-Makes_iff name (some TypeClass.string_type) dir v = inferred_iff dir v
  value_in-Makes_iff name (some TypeClass.number_type) dir v = inferred_iff dir v
  value_in-Makes_iff name (some TypeClass.boolean_type) dir v = inferred_iff dir v
