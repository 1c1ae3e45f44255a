-- ===== src/Api/Results/Zip.antt =====
-- The entries of the archive of a run (web_ui/server/api/runs/[id]/zip.get.ts): their names, made
-- different by a number, and the keys of the objects that they hold.
use Prim.Native.Nat.{◌/◌, ◌%◌}
use Prim.Native.String.{[] as empty_text, ◌∷◌ as cons}
use psae_monorepo.Prelude.{
  mem-map_of_mem, ℕ, zero, suc, ◌+◌, ◌≡◌, refl, sym, ap, ◌∙◌, inl, inr, map, Distinct, Memᴰ,
  Bool-cases, ==_iff, subst, String, true, false, Option, none, some, get_or, List, [], ◌∷◌,
  if◌then◌else◌, ◌==◌, ◌<>◌, leb, eqb,
}
use psae_monorepo.Dict
use psae_monorepo.Dict.{Dict}
use psae_monorepo.Repositories.Runs.{RunFile}

-- The text before the last dot and the text from there on.
unfoldable pub last_dot : String → Option (String × String)
last_dot empty_text = none
last_dot (cons c s) = elim (last_dot s) [
  | some (stem, extension) ↦ some (cons c stem, extension)
  | none ↦ if cons c empty_text == "." then some (empty_text, cons c s) else none
]

abbrev digit : ℕ → String
digit n =
    if eqb n 0
    then "0"
    else if eqb n 1
    then "1"
    else if eqb n 2
    then "2"
    else if eqb n 3
    then "3"
    else if eqb n 4
    then "4"
    else if eqb n 5
    then "5"
    else if eqb n 6
    then "6"
    else if eqb n 7
    then "7"
    else if eqb n 8
    then "8"
    else "9"

-- The number in decimal, for a number below 10 ^ (fuel + 1).
unfoldable pub decimal : (fuel : ℕ) → ℕ → String
decimal zero n = digit (n % 10)
decimal (suc fuel) n = elim (leb 10 n) [
  | true ↦ decimal fuel (n / 10) <> digit (n % 10)
  | false ↦ digit n
]

unfoldable pub numbered : String → ℕ → String
numbered name n = elim (last_dot name) [
  | none ↦ name <> "_" <> decimal n n
  | some (stem, extension) ↦
      if stem == "" then name <> "_" <> decimal n n else stem <> "_" <> decimal n n <> extension
]

-- `seen` counts how often each name was met.
unfoldable pub entry_name : Dict ℕ → String → String × Dict ℕ
entry_name seen name =
    let n = get_or (Dict.get name seen) 0 in
    ((if eqb n 0 then name else numbered name n), Dict.set name (n + 1) seen)

pub record ZipEntry : Type 0 where
  pub name : String
  pub key : String

unfoldable pub zip_entries_from : Dict ℕ → List RunFile → List ZipEntry
zip_entries_from seen [] = []
zip_entries_from seen (f ∷ files) =
    let (name, seen') = entry_name seen f.name in
    record { name = name; key = f.s3_key } ∷ zip_entries_from seen' files

unfoldable pub zip_entries : List RunFile → List ZipEntry
zip_entries files = zip_entries_from [] files

zip_entries_from-unseen :
    (seen : Dict ℕ) (files : List RunFile)
    → ((f : RunFile) → Memᴰ f files → Dict.get f.name seen ≡ none)
    → Distinct (map (λ f. f.name) files)
    → zip_entries_from seen files ≡ map (λ f. record { name = f.name; key = f.s3_key }) files
unfolding zip_entries_from entry_name
zip_entries_from-unseen seen [] new d = refl
zip_entries_from-unseen seen (f ∷ files) new (once, d) = rw (new f (Memᴰ.head refl)) (
    ap (λ l. record { name = f.name; key = f.s3_key } ∷ l)
      (zip_entries_from-unseen (Dict.set f.name 1 seen) files later d))
  where
    later : (g : RunFile) → Memᴰ g files → Dict.get g.name (Dict.set f.name 1 seen) ≡ none
    later g m = elim (Bool-cases (f.name == g.name)) [
      | inl t ↦ absurd (
          once (
            subst (λ n. Memᴰ n (map (λ x. x.name) files)) (sym ((==_iff f.name g.name).0 t))
              (mem-map_of_mem (λ x. x.name) files m)))
      | inr n ↦ Dict.get-set f.name g.name 1 seen ∙ rw n (new g (Memᴰ.tail m))
    ]

-- Where the files of a run have different names, the archive has their names and their objects, in their
-- order.
pub zip_entries-Distinct :
    (files : List RunFile)
    → Distinct (map (λ f. f.name) files)
    → zip_entries files ≡ map (λ f. record { name = f.name; key = f.s3_key }) files
unfolding zip_entries Dict.get
zip_entries-Distinct files d = zip_entries_from-unseen [] files (λ f m. refl) d
