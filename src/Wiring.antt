-- ===== src/Wiring.antt =====
-- The wiring resolver, web_ui/utils/wiring.ts: which outputs of an upstream block feed which inputs
-- of a downstream block.
pub mod Invariant
pub mod Steps
pub mod ReadOff
pub mod Correct
use psae_monorepo.Prelude.{
  String, Bool, true, false, not, ◌&&◌, ◌||◌, Option, none, some, get_or, List, [], ◌∷◌, ◌++◌, ◌<>◌,
  if◌then◌else◌, ◌==◌, map, filter, length,
}
use psae_monorepo.Dict
use psae_monorepo.Dict.{Dict}
use psae_monorepo.Types.{PortType, PortDecl, BlockManifest, Binding}

pub data ResolveOutcome : Type 0 where
  ok : (bindings : List Binding) → ResolveOutcome
  ambiguous :
      (candidates : Dict (List String))
      (input_descriptions output_descriptions : Dict (Option String)) (partial : List Binding)
      → ResolveOutcome
  invalid : (reason : String) → ResolveOutcome

-- The maps and the list that `resolveConnection` updates.
pub record Wiring : Type 0 where
  pub remaining_outputs : Dict PortDecl
  pub remaining_inputs : Dict PortDecl
  pub bindings : List Binding

-- The spelling of a port type.
unfoldable pub type_name : PortType → String
type_name PortType.file = "file"
type_name PortType.directory = "directory"
type_name PortType.collection = "collection"
type_name PortType.json = "json"
type_name PortType.expansion = "expansion"
type_name PortType.string = "string"
type_name PortType.number = "number"
type_name PortType.boolean = "boolean"

-- `===` on port types, which are strings.
unfoldable pub same_type : PortType → PortType → Bool
unfolding type_name
same_type a b = type_name a == type_name b

-- `out.item_type === inp.item_type` where both are given
unfoldable pub same_item_type : Option PortType → Option PortType → Bool
unfolding same_type
same_item_type (some a) (some b) = same_type a b
same_item_type (some a) none = true
same_item_type none b = true

unfoldable pub ports_compatible : PortDecl → PortDecl → Bool
unfolding same_type same_item_type
ports_compatible out inp =
    if not (same_type out.type inp.type)
    then false
    else (if same_type out.type PortType.collection
        then same_item_type out.item_type inp.item_type
        else true)

-- `p.format ? … : …`: an empty format counts as none
unfoldable pub port_label : PortDecl → String
unfolding type_name
port_label p =
    let format = get_or p.format "" in
    if format == "" then type_name p.type else type_name p.type <> ":" <> format

unfoldable pub pick_descriptions : Dict PortDecl → Dict (Option String)
pick_descriptions ports = map (λ p. (p.0, (p.1).description)) ports

-- `bindings.push(b); remainingOutputs.delete(b.output); remainingInputs.delete(b.input)`
unfoldable pub bind : Binding → Wiring → Wiring
bind b w = record {
  remaining_outputs = Dict.delete b.output w.remaining_outputs;
  remaining_inputs = Dict.delete b.input w.remaining_inputs;
  bindings = w.bindings ++ b ∷ [];
}

pub data Locked : Type 0 where
  locked : Wiring → Locked
  rejected : (reason : String) → Locked

module _ (upstream downstream : BlockManifest) where
  -- The body of the loop of step 1, on what the two lookups gave.
  unfoldable pub lock_one : Binding → Option PortDecl → Option PortDecl → Wiring → Locked
  lock_one b none inp w =
      rejected ("Output \"" <> b.output <> "\" does not exist on " <> upstream.id <> ".")
  lock_one b (some out) none w =
      rejected ("Input \"" <> b.input <> "\" does not exist on " <> downstream.id <> ".")
  lock_one b (some out) (some inp) w =
      if ports_compatible out inp
      then locked (bind b w)
      else rejected (
          "Output \""
          <> b.output
          <> "\" ("
          <> port_label out
          <> ") is not compatible with input \""
          <> b.input
          <> "\" ("
          <> port_label inp
          <> ").")

  -- Step 1: the bindings that the user already locked in.
  unfoldable pub lock : List Binding → Wiring → Locked
  lock [] w = locked w
  lock (b ∷ bs) w =
      elim (lock_one b (Dict.get b.output w.remaining_outputs) (Dict.get b.input w.remaining_inputs)
        w) [ locked w' ↦ lock bs w' | rejected reason ↦ rejected reason ]

-- `[...remainingOutputs.entries()].filter(([, out]) => portsCompatible(out, inputDecl))`
unfoldable pub matches : PortDecl → Dict PortDecl → Dict PortDecl
matches input_decl outputs = filter (λ p. ports_compatible p.1 input_decl) outputs

-- The body of the loop of step 2, on the matches that it found.
unfoldable pub pair_one : String → Dict PortDecl → Wiring → Wiring
pair_one input_name [] w = w
pair_one input_name ((output_name, out) ∷ []) w =
    bind (record { output = output_name; input = input_name }) w
pair_one input_name (p ∷ q ∷ r) w = w

-- Step 2: pair off unambiguous type matches.
unfoldable pub pair_off : Dict PortDecl → Wiring → Wiring
pair_off [] w = w
pair_off ((input_name, input_decl) ∷ pending) w =
    pair_off pending (pair_one input_name (matches input_decl w.remaining_outputs) w)

unfoldable pub is_ambiguous : PortDecl → Dict PortDecl → Bool
is_ambiguous input_decl outputs = elim (matches input_decl outputs) [
  | [] ↦ false
  | p ∷ r ↦ elim r [ [] ↦ false | q ∷ r' ↦ true ]
]

-- Step 3, with the callback of `some` writing to `candidates`. `some` stops at the first input that
-- is ambiguous, so the inputs behind it are not entered.
unfoldable pub collect :
    Dict PortDecl → Dict PortDecl → Dict (List String) → Bool × Dict (List String)
collect outputs [] candidates = (false, candidates)
collect outputs ((input_name, input_decl) ∷ inputs) candidates =
    let entered = Dict.set input_name (Dict.keys (matches input_decl outputs)) candidates in
    elim (is_ambiguous input_decl outputs) [
      | true ↦ (true, entered)
      | false ↦ collect outputs inputs entered
    ]

module _ (upstream downstream : BlockManifest) where
  unfoldable pub conclude : Wiring → ResolveOutcome
  conclude w =
      let (any_ambiguous, candidates) = collect w.remaining_outputs w.remaining_inputs [] in
      if not any_ambiguous
      then ok w.bindings
      else ambiguous candidates (pick_descriptions downstream.inputs)
          (pick_descriptions upstream.outputs) w.bindings

  -- Steps 2 and 3. Where no input remains, `collect` finds nothing ambiguous either; the test of
  -- the size is kept as it is written.
  unfoldable pub settle : Locked → ResolveOutcome
  settle (rejected reason) = invalid reason
  settle (locked w) =
      let paired = pair_off w.remaining_inputs w in
      elim paired.remaining_inputs [ [] ↦ ok paired.bindings | _ ∷ _ ↦ conclude paired ]

  unfoldable pub resolve_connection : List Binding → ResolveOutcome
  resolve_connection pre_existing = settle (
      lock upstream downstream pre_existing (record {
        remaining_outputs = upstream.outputs;
        remaining_inputs = downstream.inputs;
        bindings = [];
      }))
