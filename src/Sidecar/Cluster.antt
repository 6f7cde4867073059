-- ===== src/Sidecar/Cluster.antt =====
-- src/fluence/utils: the graph of the nodes of a cluster, `CreateInClusterJGF`, and the sums of what
-- its pods ask for. Quantities, the client of the API server, the requests of a pod and the file are
-- parameters.
pub mod Existing
pub mod Free
pub mod Requests
pub mod Shape
pub mod Tower
pub mod Layout
pub mod Written
use Prim.Native.String.{◌++◌}
use flux_k8s.Base.{
  ℕ, zero, suc, ◌+◌, ◌/◌, ◌^◌, String, Bool, true, false, not, ◌&&◌, List, [], ◌∷◌, Option, none,
  some, ℤ, pos, negsuc, pos_part, int32, int64, ◌+ℤ◌, ◌-ℤ◌, str_eq, Map, get, put, if◌then◌else◌,
}
use flux_k8s.Kube.{Labels, Pod, Container}
use flux_k8s.Labels.{read_label}
use flux_k8s.Messages.{Reply, reply, refused}
use flux_k8s.Sidecar.Jgf.{
  Node, FluxJgf, new_flux_jgf, init_cluster, make_bidirectional_edge, make_subnet, make_node,
  make_gpu, make_core, make_memory,
}

-- `resource.Quantity` with `Add`, `Value` and `MilliValue`; its zero value stands for a missing one.
pub record Quantities : Type 1 where
  pub Quantity : Type 0
  pub zero_quantity : Quantity
  pub add : Quantity → Quantity → Quantity
  pub value : Quantity → ℤ  -- int64
  pub milli_value : Quantity → ℤ  -- int64

pub record KubeNode (q : Quantities) : Type 0 where
  pub name : String
  pub labels : Labels
  pub unschedulable : Bool
  pub cpu : q.Quantity
  pub memory : q.Quantity
  pub gpu : Option q.Quantity

-- The answers of the API server; a configuration or a client that cannot be had is its error, and so
-- is a file that cannot be created or written.
-- `pod_requests` is `resourcehelper.PodRequestsAndLimits`.
pub record Api (q : Quantities) : Type 0 where
  pub config_error : Option String
  pub client_error : Option String
  pub list_nodes : Reply (List (KubeNode q))
  pub parse_selector : String → Reply String
  pub list_pods : String → Reply (List Pod)
  pub pod_requests : Pod → Map q.Quantity
  pub marshal_jgf : FluxJgf → Reply String
  pub create_file : Option String
  pub write_file : String → Option String
  pub clean : String → String  -- path.Clean

infixl 5 ◌>>=◌
abbrev pub ◌>>=◌ : {A B : Type 0} → Reply A → (A → Reply B) → Reply B
reply a >>= f = f a
refused e >>= f = refused e

module _ (q : Quantities) where
  add_request : String → q.Quantity → Map q.Quantity → Map q.Quantity
  add_request name v total = elim (get name total) [
    | none ↦ put name v total
    | some u ↦ put name (q.add u v) total
  ]

  add_requests : Map q.Quantity → Map q.Quantity → Map q.Quantity
  add_requests [] total = total
  add_requests ((name, v) ∷ rest) total = add_requests rest (add_request name v total)

  sum_requests : (Pod → Map q.Quantity) → List Pod → Map q.Quantity → Map q.Quantity
  sum_requests requests [] total = total
  sum_requests requests (pod ∷ pods) total =
      sum_requests requests pods (add_requests (requests pod) total)

  pub compute_total_requests : (Pod → Map q.Quantity) → List Pod → Map q.Quantity
  compute_total_requests requests pods = sum_requests requests pods []

  abbrev or_zero : Option q.Quantity → q.Quantity
  or_zero none = q.zero_quantity
  or_zero (some v) = v

-- Go's division by 1000, which drops the fraction, and the shift to the right by 30.
thousandth : ℤ → ℤ
thousandth (pos n) = pos (n / 1000)
thousandth (negsuc n) = pos 0 -ℤ pos ((n + 1) / 1000)

pub gibibytes : ℤ → ℤ
gibibytes (pos n) = pos (n / 2 ^ 30)
gibibytes (negsuc n) = negsuc (n / 2 ^ 30)

module _ (q : Quantities) where
  -- What is left of a node beside the requests of its pods.
  pub avail_cpu : KubeNode q → Map q.Quantity → ℤ
  avail_cpu node reqs =
      thousandth (int64 (q.milli_value node.cpu -ℤ q.milli_value (or_zero q (get "cpu" reqs))))

  pub avail_mem : KubeNode q → Map q.Quantity → ℤ
  avail_mem node reqs = int64 (q.value node.memory -ℤ q.value (or_zero q (get "memory" reqs)))

  abbrev gpu_count : Option q.Quantity → ℤ
  gpu_count none = pos 0
  gpu_count (some v) = q.value v

-- The loop over an index from 0: each round makes a vertex and draws it below its parent.
add_children : (ℕ → FluxJgf → Node × FluxJgf) → ℕ → ℕ → String → FluxJgf → FluxJgf
add_children make zero i parent g = g
add_children make (suc n) i parent g =
    let made = make i g in
    add_children make n (i + 1) parent (make_bidirectional_edge parent made.0.id made.1)

-- The variables of the loop over the nodes.
pub record Building : Type 0 where
  pub graph : FluxJgf
  pub subnet_lookup : Map Node
  pub subnet_counter : ℤ  -- int64
  pub total_alloc_cpu : ℤ  -- int64

has_label : Labels → String → Bool
has_label labels key = elim (read_label labels key) [ none ↦ false | some _ ↦ true ]

abbrev zone_of : Labels → String
zone_of labels = elim (read_label labels "topology.kubernetes.io/zone") [ none ↦ "" | some z ↦ z ]

module _ (q : Quantities) where
  -- A node with the label "" does not count as skipped when there is no label to skip by.
  unfoldable pub is_skipped : String → KubeNode q → Bool
  unfolding has_label
  is_skipped skip_label node =
      if has_label node.labels "node-role.kubernetes.io/control-plane"
      then true
      else if not (str_eq skip_label "") && has_label node.labels skip_label
      then true
      else node.unschedulable

module _ (q : Quantities) (api : Api q) where
  -- The vertices below a compute node.
  add_resources : KubeNode q → Map q.Quantity → Node → Node → FluxJgf → FluxJgf
  add_resources node reqs subnet compute g =
      let subpath = subnet.metadata.name ++ "/" ++ compute.metadata.name in
      let g1 =
        add_children (λ i. make_gpu api.clean "nvidiagpu" subpath (pos 1) (pos i))
          (pos_part (gpu_count q node.gpu)) 0 compute.id g in
      let g2 =
        add_children (λ i. make_core api.clean "core" subpath (pos i))
          (pos_part (avail_cpu q node reqs)) 0 compute.id g1 in
      add_children (λ i. make_memory api.clean "memory" subpath (pos (2 ^ 10)) (pos i))
        (pos_part (gibibytes (avail_mem q node reqs))) 0 compute.id g2

  -- The subnet of a node that has been seen before, or a new one below the cluster.
  find_subnet : String → Node → Building → Node × Building
  find_subnet name cluster b = elim (get name b.subnet_lookup) [
    | some subnet ↦ (subnet, b)
    | none ↦
        let made = make_subnet api.clean name b.subnet_counter b.graph in
        (
          made.0,
          record b {
            graph = make_bidirectional_edge cluster.id made.0.id made.1;
            subnet_counter = int64 (b.subnet_counter +ℤ pos 1);
          },
        )
  ]

  pub add_node : Node → ℕ → KubeNode q → Map q.Quantity → Building → Building
  add_node cluster node_count node reqs b =
      let found = find_subnet (zone_of node.labels) cluster b in
      let made =
        make_node api.clean node.name found.0.metadata.name (pos node_count) found.1.graph in
      let g = make_bidirectional_edge found.0.id made.0.id made.1 in
      record found.1 {
        graph = add_resources node reqs found.0 made.0 g;
        total_alloc_cpu = int64 (found.1.total_alloc_cpu +ℤ avail_cpu q node reqs);
      }

  pub selector_of : String → String
  selector_of name = "spec.nodeName=" ++ name ++ ",status.phase!=Succeeded,status.phase!=Failed"

  -- The pods on a node that are not over.
  pub pods_on : String → Reply (List Pod)
  pods_on name = do selector ← api.parse_selector (selector_of name); api.list_pods selector

  add_nodes : String → Node → ℕ → List (KubeNode q) → Building → Reply Building
  add_nodes skip_label cluster node_count [] b = reply b
  add_nodes skip_label cluster node_count (node ∷ nodes) b = elim (is_skipped q skip_label node) [
    | true ↦ add_nodes skip_label cluster (node_count + 1) nodes b
    | false ↦ do
      pods ← pods_on node.name
      add_nodes skip_label cluster (node_count + 1) nodes
          (add_node cluster node_count node (compute_total_requests q api.pod_requests pods) b)
  ]

  start_cluster : Reply Node × FluxJgf → Reply (Node × Building)
  start_cluster (refused e, g) = refused e
  start_cluster (reply cluster, g) = reply (
    cluster,
    record { graph = g; subnet_lookup = []; subnet_counter = pos 0; total_alloc_cpu = pos 0 },
  )

  -- The graph that `CreateInClusterJGF` writes.
  pub build_graph : String → List (KubeNode q) → Reply FluxJgf
  build_graph skip_label nodes = do
    started ← start_cluster (init_cluster api.clean "k8scluster" new_flux_jgf)
    built ← add_nodes skip_label started.0 0 nodes started.1
    reply built.graph
