-- ===== src/Sidecar/Alloc.antt =====
-- src/fluence/utils: what an allocation of Fluxion, a graph in JSON, says of the nodes. `decode` is
-- `json.Unmarshal` into a map; a value of an unexpected type is a panic.
use mathlib.Core.List.{◌++◌ as join, append-nil, append_assoc}
use flux_k8s.Base.{
  ℕ, ◌+◌, String, List, [], ◌∷◌, Option, none, some, str_eq, ◌≡◌, ap, sym, ◌∙◌, if◌then◌else◌, done,
  panic, ◌>>=◌, Bool-cases, inl, inr, eq_iff, refl,
}
use flux_k8s.Base.Run.{Run}

mutual
  pub data Json : Type 0 where
    null : Json
    scalar : String → Json
    text : String → Json
    array : Items → Json
    object : Fields → Json

  pub data Items : Type 0 where
    end : Items
    item : Json → Items → Items

  pub data Fields : Type 0 where
    empty : Fields
    field : String → Json → Fields → Fields

pub record Allocation : Type 0 where
  pub type_of : String
  pub basename : String
  pub core_count : ℕ

-- A key that is missing gives nil, which no type assertion accepts.
abbrev pub lookup : String → Fields → Json
lookup k empty = null
lookup k (field j v rest) = if str_eq j k then v else lookup k rest

as_object : Json → Run Fields
as_object (object fields) = done fields
as_object _ = panic

as_array : Json → Run Items
as_array (array items) = done items
as_array _ = panic

as_text : Json → Run String
as_text (text s) = done s
as_text _ = panic

-- A node is put at the end of the result, and the count of cores starts again.
append_node : String → Fields → ℕ → List Allocation → Run (ℕ × List Allocation)
append_node type_of metadata cores result = do
  basename ← as_text (lookup "basename" metadata)
  done (0, join result (record { type_of = type_of; basename = basename; core_count = cores } ∷ []))

-- One vertex: what the loop does with its metadata.
one_item : Fields → ℕ → List Allocation → Run (ℕ × List Allocation)
one_item metadata cores result = do
  type_of ← as_text (lookup "type" metadata)
  let counted = if str_eq type_of "core" then cores + 1 else cores
  (if str_eq type_of "node"
      then append_node type_of metadata counted result
      else done (counted, result))

parse_items : Items → ℕ → List Allocation → Run (List Allocation)
parse_items end cores result = done result
parse_items (item vertex rest) cores result = do
  fields ← as_object vertex
  metadata ← as_object (lookup "metadata" fields)
  next ← one_item metadata cores result
  parse_items rest next.0 next.1

from_graph : Option Fields → Run (List Allocation)
from_graph none = panic
from_graph (some dat) = do
  graph ← as_object (lookup "graph" dat)
  nodes ← as_array (lookup "nodes" graph)
  parse_items nodes 0 []

pub parse_alloc_result : (String → Option Fields) → String → Run (List Allocation)
parse_alloc_result decode allocated = from_graph (decode allocated)

-- A vertex of this type and base name: an object whose metadata have these two texts, among any other
-- fields.
abbrev pub IsVertex : Json → String × String → Type 0
IsVertex vertex (t, name) =
    (fields : Fields) × (metadata : Fields) × (vertex ≡ object fields)
    × (lookup "metadata" fields ≡ object metadata)
    × (lookup "type" metadata ≡ text t)
    × (lookup "basename" metadata ≡ text name)

abbrev pub AreVertices : Items → List (String × String) → Type 0
AreVertices end [] = Unit
AreVertices end (v ∷ vs) = ⊥
AreVertices (item vertex rest) [] = ⊥
AreVertices (item vertex rest) (v ∷ vs) = IsVertex vertex v × AreVertices rest vs

-- The graph has vertices of these types and base names, among any other fields, such as its edges.
abbrev pub IsGraph : Fields → List (String × String) → Type 0
IsGraph dat vs =
    (graph : Fields) × (vertices : Items) × (lookup "graph" dat ≡ object graph)
    × (lookup "nodes" graph ≡ array vertices)
    × AreVertices vertices vs

-- The nodes in order, each with the cores that stand before it and after the node before it.
abbrev pub nodes_of : ℕ → List (String × String) → List Allocation
nodes_of cores [] = []
nodes_of cores ((t, name) ∷ rest) =
    if str_eq t "node"
    then record { type_of = t; basename = name; core_count = cores } ∷ nodes_of 0 rest
    else nodes_of (if str_eq t "core" then cores + 1 else cores) rest

one_item_lem :
    (metadata : Fields) (t name : String) (cores : ℕ) (result : List Allocation)
    → lookup "type" metadata ≡ text t
    → lookup "basename" metadata ≡ text name
    → one_item metadata cores result
      ≡ done (
          if str_eq t "node"
          then (0, join result (record { type_of = t; basename = name; core_count = cores } ∷ []))
          else (if str_eq t "core" then cores + 1 else cores, result))
unfolding one_item append_node as_text
one_item_lem metadata t name cores result e f = elim (Bool-cases (str_eq t "node")) [
  | inl y ↦ rw (e, one_item, f, (eq_iff t "node").0 y) refl
  | inr y ↦ rw (e, one_item, y) refl
]

parse_items_lem :
    (items : Items) (vs : List (String × String)) (cores : ℕ) (result : List Allocation)
    → AreVertices items vs
    → parse_items items cores result ≡ done (join result (nodes_of cores vs))
unfolding parse_items as_object
parse_items_lem end [] cores result h = ap done (sym (append-nil result))
parse_items_lem end (v ∷ vs) cores result h = absurd h
parse_items_lem (item vertex rest) [] cores result h = absurd h
parse_items_lem (item vertex rest) ((t, name) ∷ vs) cores result
      ((fields, metadata, is_object, has_metadata, has_type, has_name), h) =
    rw (is_object, has_metadata, one_item_lem metadata t name cores result has_type has_name)
      (elim (Bool-cases (str_eq t "node")) [
        | inl e ↦ rw e (
            parse_items_lem rest vs 0 (join result (_ ∷ [])) h
            ∙ ap done (append_assoc result (_ ∷ []) _))
        | inr e ↦
            rw e (parse_items_lem rest vs (if str_eq t "core" then cores + 1 else cores) result h)
      ])

-- For an answer of Fluxion that decodes to a graph with some vertices, whatever else it holds, parsing
-- succeeds with the nodes in their order, each with the number of cores between the node before it
-- and it.
pub parse_alloc_result_lem :
    (decode : String → Option Fields) (allocated : String) (dat : Fields)
    (vs : List (String × String))
    → decode allocated ≡ some dat
    → IsGraph dat vs
    → parse_alloc_result decode allocated ≡ done (nodes_of 0 vs)
unfolding parse_alloc_result from_graph as_object as_array
parse_alloc_result_lem decode allocated dat vs e (graph, vertices, has_graph, has_nodes, h) =
    rw (e, parse_alloc_result) (rw (has_graph, has_nodes) (parse_items_lem vertices vs 0 [] h))
