-- ===== src/Tests/Connections.antt =====
-- Two blocks joined, with and without a choice.
use psae_monorepo.Prelude.{
  false, ◌≡◌, refl, ◌↔◌, Option, none, some, List, [], ◌∷◌, is_distinct, is_distinct→Distinct,
}
use psae_monorepo.Dict
use psae_monorepo.Dict.{Dict}
use psae_monorepo.Types.{PortType, PortDecl, BlockManifest, BlockKind, Binding}
use psae_monorepo.Wiring.{
  ok, ambiguous, type_name, same_type, same_item_type, ports_compatible, pick_descriptions, bind,
  lock_one, lock, matches, pair_one, pair_off, is_ambiguous, collect, conclude, settle,
  resolve_connection,
}
use psae_monorepo.Wiring.Steps.{IsObjects, IsLockable}
use psae_monorepo.Wiring.ReadOff.{bindings_of, IsResolved, IsOpenChoice}
use psae_monorepo.Wiring.Correct.{
  resolve_connection-IsResolved, resolve_connection-invalid_iff, resolve_connection-ok_iff,
}

abbrev port : PortType → Option PortType → PortDecl
port t item = record { type = t; format = none; description = none; item_type = item }

abbrev manifest : Dict PortDecl → Dict PortDecl → BlockManifest
manifest inputs outputs = record {
  id = "m";
  version = "1";
  kind = BlockKind.standard;
  network = false;
  description = none;
  entrypoint = none;
  inputs = inputs;
  outputs = outputs;
}

abbrev file : PortDecl
file = port PortType.file none

abbrev json : PortDecl
json = port PortType.json none

abbrev source : BlockManifest
source = manifest [] (("tiles", file) ∷ ("boundary", file) ∷ ("meta", json) ∷ [])

abbrev target : BlockManifest
target = manifest (("image", file) ∷ ("mask", file) ∷ ("info", json) ∷ []) []

connections : Unit {0}
unfolding resolve_connection settle conclude collect is_ambiguous pair_off pair_one matches lock
    lock_one bind pick_descriptions ports_compatible same_item_type same_type type_name Dict.get
    Dict.set Dict.delete
connections = tt

abbrev given : List Binding
given = record { output = "tiles"; input = "mask" } ∷ []

abbrev chosen : List Binding
chosen =
    record { output = "tiles"; input = "mask" }
    ∷ record { output = "boundary"; input = "image" }
    ∷ record { output = "meta"; input = "info" }
    ∷ []

-- Two inputs are ambiguous, and `candidates` names the first of them only.

candidates_run :
    resolve_connection source target []
    ≡ ambiguous
        (("image", "tiles" ∷ "boundary" ∷ []) ∷ [])
        (("image", none) ∷ ("mask", none) ∷ ("info", none) ∷ [])
        (("tiles", none) ∷ ("boundary", none) ∷ ("meta", none) ∷ [])
        (record { output = "meta"; input = "info" } ∷ [])
unfolding connections
candidates_run = refl

-- Exactly one output is left for the input `any`, and it is not bound.
unbound_run :
    resolve_connection
      (manifest [] (
        ("files", port PortType.collection (some PortType.file))
        ∷ ("docs", port PortType.collection (some PortType.json))
        ∷ []))
      (manifest
        (("any", port PortType.collection none)
          ∷ ("rasters", port PortType.collection (some PortType.file))
          ∷ [])
        [])
      []
    ≡ ok (record { output = "files"; input = "rasters" } ∷ [])
unfolding connections
unbound_run = refl

given_run : resolve_connection source target given ≡ ok chosen
unfolding connections
given_run = refl

objects : IsObjects source target
unfolding is_distinct
objects = record {
  outputs = is_distinct→Distinct ("tiles" ∷ "boundary" ∷ "meta" ∷ []) refl;
  inputs = is_distinct→Distinct ("image" ∷ "mask" ∷ "info" ∷ []) refl;
}

returned : bindings_of (resolve_connection source target given) ≡ some chosen
unfolding connections
returned = refl

resolve_connection-IsResolved_example : IsResolved source target given chosen
resolve_connection-IsResolved_example =
    resolve_connection-IsResolved source target given chosen objects returned

resolve_connection-invalid_iff_example :
    (bindings_of (resolve_connection source target given) ≡ none)
    ↔ (¬ IsLockable source target given)
resolve_connection-invalid_iff_example = resolve_connection-invalid_iff source target given objects

resolve_connection-ok_iff_example :
    (resolve_connection source target given ≡ ok chosen) ↔ (¬ IsOpenChoice source target chosen)
resolve_connection-ok_iff_example =
    resolve_connection-ok_iff source target given chosen objects returned
