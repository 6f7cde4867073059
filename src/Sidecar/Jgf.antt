-- ===== src/Sidecar/Jgf.antt =====
-- src/fluence/jgf: the graph of the cluster in Flux's JSON Graph Format, and its counters. `clean` is
-- `path.Clean`.
pub mod Ids
pub mod Makes
mod Examples
use Prim.Native.String.{◌++◌}
use mathlib.Core.List.{◌++◌ as join}
use flux_k8s.Base.{
  String, Bool, true, false, List, [], ◌∷◌, Option, none, some, ℤ, pos, negsuc, ltb_ℤ, int64, ◌+ℤ◌,
  str_eq, Map, get, put, if◌then◌else◌,
}
use flux_k8s.Base.Decimal.{format}
use flux_k8s.Messages.{Reply, reply, refused}

pub record NodeMetadata : Type 0 where
  pub type_of : String
  pub basename : String
  pub name : String
  pub id : ℤ  -- int64
  pub uniq_id : ℤ  -- int64
  pub rank : ℤ  -- int64
  pub exclusive : Bool
  pub unit : String
  pub size : ℤ  -- int64
  pub paths : Map String

pub record Node : Type 0 where
  pub id : String
  pub metadata : NodeMetadata

pub record Edge : Type 0 where
  pub source : String
  pub relation : String
  pub target : String
  pub subsystem : String

pub record ResourceCounter : Type 0 where
  pub counts : Map ℤ
  pub elements : ℤ  -- int64
  pub root_name : String

pub record FluxJgf : Type 0 where
  pub nodes : List Node
  pub edges : List Edge
  pub node_map : Map Node
  pub resources : ResourceCounter

pub record ResourceCount : Type 0 where
  pub name : String
  pub type_of : String
  pub element_id : ℤ
  pub index : ℤ

abbrev contains_relation : String
contains_relation = "contains"

abbrev in_relation : String
in_relation = "in"

abbrev containment_key : String
containment_key = "containment"

unfoldable pub new_flux_jgf : FluxJgf
new_flux_jgf = record {
  nodes = [];
  edges = [];
  node_map = [];
  resources = record { counts = ("cluster", pos 1) ∷ []; elements = pos 0; root_name = "" };
}

abbrev name_with_index : ResourceCount → String
name_with_index r = r.name ++ format r.index

abbrev string_element_id : ResourceCount → String
string_element_id r = format r.element_id

-- No code calls this one.
unfoldable string_resource_index : ResourceCount → String
string_resource_index r = format r.index

next_index : ResourceCounter → ℤ × ResourceCounter
next_index r = (r.elements, record r { elements = int64 (r.elements +ℤ pos 1) })

abbrev count_or_zero : Option ℤ → ℤ
count_or_zero none = pos 0
count_or_zero (some n) = n

next_resource_index : String → ResourceCounter → ℤ × ResourceCounter
next_resource_index resource r =
    let next = count_or_zero (get resource r.counts) in
    (next, record r { counts = put resource (int64 (next +ℤ pos 1)) r.counts })

get_counter : String → String → ResourceCounter → ResourceCount × ResourceCounter
get_counter name type_of r =
    let (index, r1) = next_resource_index name r in
    let (element, r2) = next_index r1 in
    (record { name = name; type_of = type_of; element_id = element; index = index }, r2)

make_edge : String → String → String → FluxJgf → FluxJgf
make_edge source target contains g = record g {
  edges = join g.edges (
      record { source = source; relation = ""; target = target; subsystem = containment_key } ∷ []);
}

unfoldable pub make_bidirectional_edge : String → String → FluxJgf → FluxJgf
unfolding make_edge
make_bidirectional_edge parent child g =
    make_edge child parent in_relation (make_edge parent child contains_relation g)

-- `marshal` is `json.MarshalIndent` of the vertices and edges.
unfoldable to_json : (List Node → List Edge → Reply String) → FluxJgf → Reply String
to_json marshal g = marshal g.nodes g.edges

module _ (clean : String → String) where
  get_node_path : String → String → String
  get_node_path root subpath =
      let path = if str_eq subpath "" then "/" ++ root else "/" ++ root ++ "/" ++ subpath in
      clean path

  get_containment_path : String → FluxJgf → Map String
  get_containment_path subpath g =
      (containment_key, get_node_path g.resources.root_name subpath) ∷ []

  make_new_node : ResourceCount → String → String → ℤ → FluxJgf → Node × FluxJgf
  make_new_node resource subpath unit size g =
      let new_node : Node = record {
        id = string_element_id resource;
        metadata = record {
          type_of = resource.type_of;
          basename = resource.name;
          name = name_with_index resource;
          id = resource.index;
          uniq_id = resource.element_id;
          rank = negsuc 0;
          exclusive = false;
          unit = unit;
          size = size;
          paths = get_containment_path subpath g;
        };
      } in
      (
        new_node,
        record g {
          nodes = join g.nodes (new_node ∷ []);
          node_map = put new_node.id new_node g.node_map;
        },
      )

  pub make_subnet : String → ℤ → FluxJgf → Node × FluxJgf
  make_subnet name index g =
      let (counted, r) = get_counter name "subnet" g.resources in
      let resource = record counted { index = index } in
      make_new_node resource (name_with_index resource) "" (pos 1) (record g { resources = r })

  pub make_node : String → String → ℤ → FluxJgf → Node × FluxJgf
  make_node name subpath index g =
      let (counted, r) = get_counter name "node" g.resources in
      let resource = record counted { index = index } in
      make_new_node resource (subpath ++ "/" ++ name_with_index resource) "" (pos 1)
        (record g { resources = r })

  pub make_core : String → String → ℤ → FluxJgf → Node × FluxJgf
  make_core name subpath index g =
      let (counted, r) = get_counter name "core" g.resources in
      let resource = record counted { index = index } in
      make_new_node resource (subpath ++ "/" ++ name_with_index resource) "" (pos 1)
        (record g { resources = r })

  pub make_memory : String → String → ℤ → ℤ → FluxJgf → Node × FluxJgf
  make_memory name subpath size index g =
      let (counted, r) = get_counter name "memory" g.resources in
      let resource = record counted { index = index } in
      make_new_node resource (subpath ++ "/" ++ name_with_index resource) "MB" size
        (record g { resources = r })

  pub make_gpu : String → String → ℤ → ℤ → FluxJgf → Node × FluxJgf
  make_gpu name subpath size index g =
      let (counted, r) = get_counter name "gpu" g.resources in
      let resource = record counted { index = index } in
      make_new_node resource (subpath ++ "/" ++ name_with_index resource) "" size
        (record g { resources = r })

  -- The test of `InitCluster` is on the elements that have been counted.
  pub init_cluster : String → FluxJgf → Reply Node × FluxJgf
  init_cluster name g =
      if ltb_ℤ (pos 0) g.resources.elements
      then (refused "init can only be called for a new cluster", g)
      else let named = record g.resources { root_name = name ++ "0" } in
        let (resource, r) = get_counter name "cluster" named in
        let (node, g1) = make_new_node resource "" "" (pos 1) (record g { resources = r }) in
        (reply node, g1)
