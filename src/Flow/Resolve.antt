-- ===== src/Flow/Resolve.antt =====
-- What the editor does with a fresh edge (web_ui/utils/wiring.ts): it asks the wiring resolver, and keeps the
-- bindings with the edge.
use psae_monorepo.Prelude.{
  String, Bool, true, false, ◌≡◌, refl, ap, Option, none, some, get_or, List, [], ◌∷◌, ◌==◌,
  if◌then◌else◌, find?, any, Bool-cases, Option-cases, inl, inr, ◌⊎◌,
}
use psae_monorepo.Types.{BlockManifest, Binding, EdgeData}
use psae_monorepo.Wiring.{ResolveOutcome, ok, ambiguous, invalid, resolve_connection}
use psae_monorepo.Wiring.Steps.{IsObjects}
use psae_monorepo.Wiring.ReadOff.{bindings_of, IsResolved}
use psae_monorepo.Wiring.Correct.{resolve_connection-IsResolved, resolve_connection-invalid_iff}
use psae_monorepo.Api.Submit.{truthy}
use psae_monorepo.Flow.{
  FlowEdge, Flow, joins, set_edge, set_edge_data, get_edge_data, get_name_by_id,
}

pub data Resolution : Type 0 where
  resolved open_choice wrong unknown : Resolution

unfoldable pub has_unresolved_edges : List FlowEdge → Bool
has_unresolved_edges es =
    any (λ e. elim e.edge_data [ none ↦ false | some d ↦ get_or d.unresolved false ]) es

unfoldable pub list_edge_bindings : FlowEdge → List Binding
list_edge_bindings e = elim e.edge_data [ none ↦ [] | some d ↦ get_or d.bindings [] ]

find-set_edge :
    (source target : String) (given : EdgeData) (es : List FlowEdge)
    → any (joins source target) es ≡ true
    → elim (find? (joins source target) (set_edge source target given es))
        as (λ _. Option EdgeData) [ none ↦ none | some e ↦ e.edge_data ]
      ≡ some given
unfolding set_edge joins
find-set_edge source target given [] e = absurd (cc)
find-set_edge source target given (x ∷ es) e = elim (Bool-cases (joins source target x)) [
  | inl t ↦ rw (t) (rw (t) refl)
  | inr f ↦ rw (f) (rw (f) (find-set_edge source target given es (rw f at e)))
]

truthy-some : (o : Option String) (s : String) → truthy o ≡ some s → o ≡ some s
unfolding truthy
truthy-some none s e = e
truthy-some (some x) s e = elim (Bool-cases (x == "")) [
  | inl t ↦ let e' = rw t at e in absurd (cc)
  | inr f ↦ rw f at e
]

module _ {A N : Type 0} where
  unfoldable pub apply_outcome : String → String → ResolveOutcome → Flow A N → Resolution × Flow A N
  apply_outcome source target (invalid reason) flow = (wrong, flow)
  apply_outcome source target (ambiguous candidates inputs outputs partial) flow = (
    open_choice,
    set_edge_data source target (record { bindings = some partial; unresolved = some true }) flow,
  )
  apply_outcome source target (ok bindings) flow = (
    resolved,
    set_edge_data source target (record { bindings = some bindings; unresolved = some false }) flow,
  )

  -- `flow` is the store at the call, `later` the store when both manifests have been fetched.
  unfoldable pub resolve_and_apply :
      (load_manifest : String → Option BlockManifest)
      → String
      → String
      → (flow later : Flow A N) → Resolution × Flow A N
  resolve_and_apply load_manifest source target flow later =
      elim (truthy (get_name_by_id source flow)) [
        | none ↦ (unknown, later)
        | some upstream_name ↦ elim (truthy (get_name_by_id target flow)) [
          | none ↦ (unknown, later)
          | some downstream_name ↦ elim (load_manifest upstream_name) [
            | none ↦ (unknown, later)
            | some upstream ↦ elim (load_manifest downstream_name) [
              | none ↦ (unknown, later)
              | some downstream ↦
                  apply_outcome source target (resolve_connection upstream downstream []) later
            ]
          ]
        ]
      ]

  -- The edge has the bindings that the resolver found between the manifests of its two blocks.
  pub record IsBound (load_manifest : String → Option BlockManifest) (source target : String)
      (flow : Flow A N) (answer : Resolution × Flow A N) : Type 0 where
    pub upstream : BlockManifest
    pub downstream : BlockManifest
    pub bindings : List Binding
    pub is_open : Bool
    pub names :
        (up : String) × (down : String) × (get_name_by_id source flow ≡ some up)
        × (get_name_by_id target flow ≡ some down)
        × (load_manifest up ≡ some upstream)
        × (load_manifest down ≡ some downstream)
    pub status : answer.0 ≡ (if is_open then open_choice else resolved)
    pub kept :
        get_edge_data source target answer.1
        ≡ some (record { bindings = some bindings; unresolved = some is_open })
    pub sound : IsResolved upstream downstream [] bindings

  -- Where the edge is still there and the manifests have distinct port names, the call is answered
  -- `unknown`, with the store as it was, or the edge has bindings of compatible ports of the two manifests,
  -- which use no port twice, and is marked unresolved exactly if the answer is `ambiguous`; the answer is
  -- never `invalid`.
  pub resolve_and_apply_lem :
      (load_manifest : String → Option BlockManifest) (source target : String)
      (flow later : Flow A N)
      → any (joins source target) later.edges ≡ true
      → ((up down : String) (u d : BlockManifest)
          → load_manifest up ≡ some u
          → load_manifest down ≡ some d
          → IsObjects u d)
      → let answer = resolve_and_apply load_manifest source target flow later in
        ((answer.0 ≡ unknown) × (answer.1 ≡ later))
        ⊎ IsBound load_manifest source target flow answer
  unfolding resolve_and_apply apply_outcome set_edge_data get_edge_data
  resolve_and_apply_lem load_manifest source target flow later there objects =
      elim (Option-cases (truthy (get_name_by_id source flow))) [
        | inl n ↦ inl (rw (n, resolve_and_apply) (refl, refl))
        | inr (up, p) ↦ elim (Option-cases (truthy (get_name_by_id target flow))) [
          | inl n ↦ inl (rw (p, n, resolve_and_apply) (refl, refl))
          | inr (down, q) ↦ elim (Option-cases (load_manifest up)) [
            | inl n ↦ inl (rw (p, q, n, resolve_and_apply) (refl, refl))
            | inr (u, m) ↦ elim (Option-cases (load_manifest down)) [
              | inl n ↦ inl (rw (p, q, m, n, resolve_and_apply) (refl, refl))
              | inr (d, k) ↦ inr (
                  rw (p, q, m, k, resolve_and_apply)
                    (of_outcome up down u d (truthy-some _ up p) (truthy-some _ down q) m k
                      (resolve_connection u d []) refl))
            ]
          ]
        ]
      ]
    where
      of_outcome :
          (up down : String) (u d : BlockManifest)
          → get_name_by_id source flow ≡ some up
          → get_name_by_id target flow ≡ some down
          → load_manifest up ≡ some u
          → load_manifest down ≡ some d
          → (o : ResolveOutcome) → resolve_connection u d [] ≡ o
          → IsBound load_manifest source target flow (apply_outcome source target o later)
      of_outcome up down u d p q m k (ok bindings) e = record {
        upstream = u;
        downstream = d;
        bindings = bindings;
        is_open = false;
        names = (up, down, p, q, m, k);
        status = refl;
        kept = find-set_edge source target _ later.edges there;
        sound =
            resolve_connection-IsResolved u d [] bindings (objects up down u d m k)
              (ap bindings_of e);
      }
      of_outcome up down u d p q m k (ambiguous candidates inputs outputs partial) e = record {
        upstream = u;
        downstream = d;
        bindings = partial;
        is_open = true;
        names = (up, down, p, q, m, k);
        status = refl;
        kept = find-set_edge source target _ later.edges there;
        sound =
            resolve_connection-IsResolved u d [] partial (objects up down u d m k)
              (ap bindings_of e);
      }
      of_outcome up down u d p q m k (invalid reason) e = absurd (
          (resolve_connection-invalid_iff u d [] (objects up down u d m k)).0 (ap bindings_of e)
            (record { joined = tt; outputs_once = tt; inputs_once = tt }))
