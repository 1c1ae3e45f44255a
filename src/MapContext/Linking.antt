-- ===== src/MapContext/Linking.antt =====
-- The degrees and children of the sort, as counts over the list of the edges of the graph.
use psae_monorepo.Prelude.{
  ℕ, ◌+◌, String, true, ◌≡◌, refl, sym, ap, subst, ◌∙◌, ◌↔◌, ◌⊎◌, inl, inr, ⊎_elim, some, get_or,
  mem-map_of_mem, List, [], ◌∷◌, ◌++◌, append_assoc, append-nil, Memᴰ, arith, map, Bool-cases, ◌==◌,
  ==_iff, ==_refl, if◌then◌else◌, Distinct,
}
use mathlib.Core.List.Memᴰ
use psae_monorepo.Dict
use psae_monorepo.Dict.{Dict}
use psae_monorepo.MapContext.{
  MapGraphNode, pos, succ_ℤ, degree, by_id, Links, unlinked, link_dep, link_deps, link_nodes,
  links_of,
}

-- An edge goes from a dependency to the block that depends on it.
abbrev pub Edges : Type 0
Edges = List (String × String)

-- How many edges lead into a block, and where those from a block lead.
abbrev pub into : String → Edges → ℕ
into c [] = 0
into c ((d, x) ∷ es) = (if x == c then 1 else 0) + into c es

abbrev pub from : String → Edges → List String
from d [] = []
from d ((e, x) ∷ es) = if e == d then x ∷ from d es else from d es

abbrev pub edges_from : Dict MapGraphNode → String → List String → Edges
edges_from known id [] = []
edges_from known id (d ∷ deps) =
    if Dict.has d known then (d, id) ∷ edges_from known id deps else edges_from known id deps

abbrev pub graph_edges : Dict MapGraphNode → List MapGraphNode → Edges
graph_edges known [] = []
graph_edges known (n ∷ nodes) = edges_from known n.id n.deps ++ graph_edges known nodes

abbrev pub ids : List MapGraphNode → List String
ids nodes = map (λ n. n.id) nodes

into-concat :
    (c d x : String) (es : Edges)
    → into c (es ++ (d, x) ∷ []) ≡ into c es + (if x == c then 1 else 0)
into-concat c d x [] = omega arith
into-concat c d x ((e, y) ∷ es) = omega (arith, into-concat c d x es)

from-concat :
    (c d x : String) (es : Edges)
    → from c (es ++ (d, x) ∷ []) ≡ (if d == c then from c es ++ x ∷ [] else from c es)
from-concat c d x [] = refl
from-concat c d x ((e, y) ∷ es) = ground (arith, from-concat c d x es)

pub record Represents (known : List String) (es : Edges) (l : Links) : Type 0 where
  pub degrees : (c : String) → Memᴰ c known → Dict.get c l.indeg ≡ some (pos (into c es))
  pub children : (d : String) → Memᴰ d known → Dict.get d l.children ≡ some (from d es)

pub has-by_id :
    (nodes : List MapGraphNode) (m : Dict MapGraphNode) (d : String)
    → (Dict.has d (by_id nodes m) ≡ true) ↔ (Memᴰ d (ids nodes) ⊎ (Dict.has d m ≡ true))
unfolding by_id
has-by_id [] m d = (λ e. inr e, ⊎_elim (λ k. absurd (Memᴰ.not-nil k)) (λ e. e))
has-by_id (n ∷ nodes) m d =
    let rest = has-by_id nodes (Dict.set n.id n m) d in
    (
      λ e. elim (rest.0 e) [
        | inl k ↦ inl (Memᴰ.tail k)
        | inr h ↦ elim (Bool-cases (n.id == d)) [
          | inl t ↦ inl (Memᴰ.head (sym ((==_iff n.id d).0 t)))
          | inr f ↦ inr (ground (arith, Dict.has-set n.id d n m))
        ]
      ],
      λ w. rest.1 (elim w [
        | inl k ↦ elim (Memᴰ.cases_cons k) [
          | inl e ↦ inr (ground (arith, Dict.has-set n.id d n m, (==_iff n.id d).1 (sym e)))
          | inr k' ↦ inl k'
        ]
        | inr h ↦ inr (ground (arith, Dict.has-set n.id d n m))
      ]),
    )

get-by_id_other :
    (nodes : List MapGraphNode) (m : Dict MapGraphNode) (id : String)
    → ¬ Memᴰ id (ids nodes)
    → Dict.get id (by_id nodes m) ≡ Dict.get id m
unfolding by_id
get-by_id_other [] m id new = refl
get-by_id_other (n ∷ nodes) m id new = elim (Bool-cases (n.id == id)) [
  | inl t ↦ absurd (new (Memᴰ.head (sym ((==_iff n.id id).0 t))))
  | inr f ↦
      get-by_id_other nodes (Dict.set n.id n m) id (λ k. new (Memᴰ.tail k))
      ∙ Dict.get-set n.id id n m
      ∙ rw f refl
]

pub get-by_id :
    (nodes : List MapGraphNode) (m : Dict MapGraphNode) (n : MapGraphNode)
    → Distinct (ids nodes)
    → Memᴰ n nodes
    → Dict.get n.id (by_id nodes m) ≡ some n
unfolding by_id
get-by_id [] m n d k = absurd (Memᴰ.not-nil k)
get-by_id (x ∷ nodes) m n (new, d) k = elim (Memᴰ.cases_cons k) [
  | inl e ↦
      subst (λ y. Dict.get y.id (by_id nodes (Dict.set x.id x m)) ≡ some y) (sym e)
        (get-by_id_other nodes (Dict.set x.id x m) x.id new
          ∙ Dict.get-set x.id x.id x m
          ∙ rw (==_refl x.id) refl)
  | inr k' ↦ get-by_id nodes (Dict.set x.id x m) n d k'
]

unlinked-kept :
    (nodes : List MapGraphNode) (l : Links) (c : String)
    → (Dict.get c l.indeg ≡ some (pos 0)) × (Dict.get c l.children ≡ some [])
    → (Dict.get c (unlinked nodes l).indeg ≡ some (pos 0))
      × (Dict.get c (unlinked nodes l).children ≡ some [])
unfolding unlinked
unlinked-kept [] l c h = h
unlinked-kept (n ∷ nodes) l c (g, k) =
    unlinked-kept nodes
      (record { indeg = Dict.set n.id (pos 0) l.indeg; children = Dict.set n.id [] l.children }) c
      (
        ground (arith, Dict.get-set n.id c (pos 0) l.indeg),
        ground (arith, Dict.get-set n.id c [] l.children),
      )

unlinked-there :
    (nodes : List MapGraphNode) (l : Links) (c : String)
    → Memᴰ c (ids nodes)
    → (Dict.get c (unlinked nodes l).indeg ≡ some (pos 0))
      × (Dict.get c (unlinked nodes l).children ≡ some [])
unfolding unlinked
unlinked-there [] l c m = absurd (Memᴰ.not-nil m)
unlinked-there (n ∷ nodes) l c m = elim (Memᴰ.cases_cons m) [
  | inl e ↦
      unlinked-kept nodes
        (record { indeg = Dict.set n.id (pos 0) l.indeg; children = Dict.set n.id [] l.children }) c
        (
          ground (arith, Dict.get-set n.id c (pos 0) l.indeg, (==_iff n.id c).1 (sym e)),
          ground (arith, Dict.get-set n.id c [] l.children, (==_iff n.id c).1 (sym e)),
        )
  | inr k ↦
      unlinked-there nodes
        (record { indeg = Dict.set n.id (pos 0) l.indeg; children = Dict.set n.id [] l.children }) c
        k
]

link_dep-Represents :
    (known : List String) (m : Dict MapGraphNode) (id d : String) (es : Edges) (l : Links)
    → ((x : String) → Dict.has x m ≡ true → Memᴰ x known)
    → Memᴰ id known
    → Represents known es l
    → Represents known (es ++ edges_from m id (d ∷ [])) (link_dep m id d l)
unfolding link_dep degree
link_dep-Represents known m id d es l sound there r = elim (Bool-cases (Dict.has d m)) [
  | inr f ↦ rw (f, link_dep) (subst (λ x. Represents known x l) (sym (append-nil es)) r)
  | inl t ↦
      rw (t, link_dep)
        (record {
          degrees = λ c k.
              Dict.get-set id c (succ_ℤ (degree id l.indeg)) l.indeg
              ∙ ground
                  (arith, r.degrees c k, r.degrees id there, into-concat c d id es, ==_iff id c);
          children = λ c k.
              Dict.get-set d c (get_or (Dict.get d l.children) [] ++ id ∷ []) l.children
              ∙ ground (
                arith,
                r.children c k,
                r.children d (sound d t),
                from-concat c d id es,
                ==_iff d c,
              );
        })
]

edges_from-cons :
    (m : Dict MapGraphNode) (id d : String) (deps : List String)
    → edges_from m id (d ∷ deps) ≡ edges_from m id (d ∷ []) ++ edges_from m id deps
edges_from-cons m id d deps = elim (Bool-cases (Dict.has d m)) [
  | inl t ↦ rw t refl
  | inr f ↦ rw f refl
]

link_deps-Represents :
    (known : List String) (m : Dict MapGraphNode) (id : String) (deps : List String) (es : Edges)
    (l : Links)
    → ((x : String) → Dict.has x m ≡ true → Memᴰ x known)
    → Memᴰ id known
    → Represents known es l
    → Represents known (es ++ edges_from m id deps) (link_deps m id deps l)
unfolding link_deps
link_deps-Represents known m id [] es l sound there r =
    subst (λ x. Represents known x l) (sym (append-nil es)) r
link_deps-Represents known m id (d ∷ deps) es l sound there r =
    subst (λ x. Represents known x (link_deps m id deps (link_dep m id d l)))
      (append_assoc es (edges_from m id (d ∷ [])) (edges_from m id deps)
        ∙ ap (λ x. es ++ x) (sym (edges_from-cons m id d deps)))
      (link_deps-Represents known m id deps (es ++ edges_from m id (d ∷ [])) (link_dep m id d l)
        sound there (link_dep-Represents known m id d es l sound there r))

link_nodes-Represents :
    (known : List String) (m : Dict MapGraphNode) (nodes : List MapGraphNode) (es : Edges)
    (l : Links)
    → ((x : String) → Dict.has x m ≡ true → Memᴰ x known)
    → ((n : MapGraphNode) → Memᴰ n nodes → Memᴰ n.id known)
    → Represents known es l
    → Represents known (es ++ graph_edges m nodes) (link_nodes m nodes l)
unfolding link_nodes
link_nodes-Represents known m [] es l sound there r =
    subst (λ x. Represents known x l) (sym (append-nil es)) r
link_nodes-Represents known m (n ∷ nodes) es l sound there r =
    subst (λ x. Represents known x (link_nodes m nodes (link_deps m n.id n.deps l)))
      (append_assoc es (edges_from m n.id n.deps) (graph_edges m nodes))
      (link_nodes-Represents known m nodes (es ++ edges_from m n.id n.deps)
        (link_deps m n.id n.deps l) sound (λ x k. there x (Memᴰ.tail k))
        (link_deps-Represents known m n.id n.deps es l sound (there n (Memᴰ.head refl)) r))

pub mem-ids : (n : MapGraphNode) (nodes : List MapGraphNode) → Memᴰ n nodes → Memᴰ n.id (ids nodes)
mem-ids n nodes m = mem-map_of_mem (λ x. x.id) nodes m

-- The edges between the blocks of a graph.
abbrev pub edges_of : List MapGraphNode → Edges
edges_of nodes = graph_edges (by_id nodes []) nodes

pub links_of-Represents :
    (nodes : List MapGraphNode) → Represents (ids nodes) (edges_of nodes) (links_of nodes)
unfolding links_of Dict.has
links_of-Represents nodes =
    link_nodes-Represents (ids nodes) (by_id nodes []) nodes []
      (unlinked nodes (record { indeg = []; children = [] }))
      (λ x h. elim ((has-by_id nodes [] x).0 h) [ inl k ↦ k | inr e ↦ absurd (none_there x e) ])
      (λ n k. mem-ids n nodes k)
      (record {
        degrees = λ c k. (unlinked-there nodes (record { indeg = []; children = [] }) c k).0;
        children = λ c k. (unlinked-there nodes (record { indeg = []; children = [] }) c k).1;
      })
  where
    none_there : (x : String) → Dict.has {V = MapGraphNode} x [] ≡ true → ⊥
    none_there x e = cc

-- An edge is in the graph exactly if both ends are blocks of it, and one depends on the other.
pub mem-edges_from_iff :
    (m : Dict MapGraphNode) (id : String) (deps : List String) (d c : String)
    → Memᴰ (d, c) (edges_from m id deps) ↔ (Memᴰ d deps × (Dict.has d m ≡ true) × (c ≡ id))
mem-edges_from_iff m id [] d c =
    (λ k. absurd (Memᴰ.not-nil k), λ (k, _, _). absurd (Memᴰ.not-nil k))
mem-edges_from_iff m id (x ∷ deps) d c =
    let rest = mem-edges_from_iff m id deps d c in
    elim (Bool-cases (Dict.has x m)) [
      | inl t ↦ rw t (
        λ k. elim (Memᴰ.cases_cons k) [
          | inl e ↦ (Memᴰ.head (ap (λ p. p.0) e), ap (λ p. Dict.has p.0 m) e ∙ t, ap (λ p. p.1) e)
          | inr k' ↦ let (i, h, q) = rest.0 k' in (Memᴰ.tail i, h, q)
        ],
        λ (k, h, q). elim (Memᴰ.cases_cons k) [
          | inl e ↦ Memᴰ.head (λ i. (e i, q i))
          | inr k' ↦ Memᴰ.tail (rest.1 (k', h, q))
        ],
      )
      | inr f ↦ rw f (
        λ k. let (i, h, q) = rest.0 k in (Memᴰ.tail i, h, q),
        λ (k, h, q). elim (Memᴰ.cases_cons k) [
          | inl e ↦ let bad = ap (λ z. Dict.has z m) e in cc
          | inr k' ↦ rest.1 (k', h, q)
        ],
      )
    ]

pub mem-graph_edges_iff :
    (m : Dict MapGraphNode) (nodes : List MapGraphNode) (d c : String)
    → Memᴰ (d, c) (graph_edges m nodes)
      ↔ ((n : MapGraphNode) × Memᴰ n nodes × (c ≡ n.id) × Memᴰ d n.deps × (Dict.has d m ≡ true))
mem-graph_edges_iff m [] d c =
    (λ k. absurd (Memᴰ.not-nil k), λ (n, k, _, _, _). absurd (Memᴰ.not-nil k))
mem-graph_edges_iff m (x ∷ nodes) d c =
    let rest = mem-graph_edges_iff m nodes d c in
    let here = mem-edges_from_iff m x.id x.deps d c in
    (
      λ k. elim (Memᴰ.append_cases (edges_from m x.id x.deps) k) [
        | inl i ↦ let (a, h, q) = here.0 i in (x, Memᴰ.head refl, q, a, h)
        | inr i ↦ let (n, b, q, a, h) = rest.0 i in (n, Memᴰ.tail b, q, a, h)
      ],
      λ (n, b, q, a, h). elim (Memᴰ.cases_cons b) [
        | inl e ↦
            Memᴰ.append_left (graph_edges m nodes)
              (here.1 (subst (λ y. Memᴰ d y.deps) e a, h, q ∙ ap (λ y. y.id) e))
        | inr b' ↦ Memᴰ.append_right (edges_from m x.id x.deps) (rest.1 (n, b', q, a, h))
      ],
    )
