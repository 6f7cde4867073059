-- ===== src/Sidecar/Cluster/Layout/Examples.antt =====
-- Runs of the sidecar's graph of a cluster.
use flux_k8s.Base.{
  ℕ, ◌+◌, ◌-◌, pos_part, ◌/◌, ◌^◌, String, false, List, [], ◌∷◌, none, some, pos, ◌≡◌, refl, arith,
  get,
}
use flux_k8s.Kube.{Pod, PodPhase}
use flux_k8s.Messages.{reply}
use flux_k8s.Sidecar.Cluster.{Quantities, KubeNode, Api, avail_cpu, compute_total_requests}
use flux_k8s.Sidecar.Cluster.Free.{avail_cpu-cores}
use flux_k8s.Sidecar.Cluster.Requests.{amount, asked_by, compute_total_requests-sum}
use flux_k8s.Sidecar.Cluster.Shape.{Vertex}

-- Quantities in thousandths.
abbrev pub thousandths : Quantities
thousandths = record {
  Quantity = ℕ;
  zero_quantity = 0;
  add = λ a b. a + b;
  value = λ a. pos a;
  milli_value = λ a. pos a;
}

abbrev pub node_in_zone : String → KubeNode thousandths
node_in_zone name = record {
  name = name;
  labels = some (("topology.kubernetes.io/zone", "z") ∷ []);
  unschedulable = false;
  cpu = 2500;
  memory = 2 ^ 30;
  gpu = none;
}

abbrev pub control : KubeNode thousandths
control = record (node_in_zone "c") {
  labels = some (("node-role.kubernetes.io/control-plane", "") ∷ []);
}

abbrev pub busy : Pod
busy = record {
  name = "p";
  namespace = "default";
  uid = "p";
  labels = none;
  owner_references = [];
  deletion_timestamp = 0;
  node_name = "a";
  containers = [];
  phase = PodPhase.running;
}

abbrev pub pods : String → List Pod
pods selector = busy ∷ []

abbrev pub api : Api thousandths
api = record {
  config_error = none;
  client_error = none;
  list_nodes = reply (control ∷ (node_in_zone "a" ∷ (node_in_zone "b" ∷ [])));
  parse_selector = reply;
  list_pods = λ selector. reply (pods selector);
  pod_requests = λ pod. ("cpu", 1000) ∷ [];
  marshal_jgf = λ g. reply "graph";
  create_file = none;
  write_file = λ text. none;
  clean = λ path. path;
}

abbrev zone_nodes : List (KubeNode thousandths)
zone_nodes = control ∷ (node_in_zone "a" ∷ (node_in_zone "b" ∷ []))

-- Two nodes of one zone with one core and one memory each, and two subnets.
abbrev expected : List Vertex
expected =
    (("subnet", "z"), 0)
    ∷ ((("node", "a"), 1)
        ∷ ((("core", "core"), 2)
            ∷ ((("memory", "memory"), 2)
                ∷ ((("subnet", "z"), 0)
                    ∷ ((("node", "b"), 5)
                        ∷ ((("core", "core"), 6) ∷ ((("memory", "memory"), 6) ∷ [])))))))

avail_cpu-cores_example : pos_part (avail_cpu thousandths (node_in_zone "a") []) ≡ (2500 - 0) / 1000
unfolding get
avail_cpu-cores_example =
    avail_cpu-cores thousandths (node_in_zone "a") [] 2500 0 refl refl (omega arith) (omega arith)

compute_total_requests-sum_example :
    amount thousandths
      (λ a. a)
      "cpu"
      (compute_total_requests thousandths api.pod_requests (busy ∷ (busy ∷ [])))
    ≡ asked_by thousandths (λ a. a) "cpu" api.pod_requests (busy ∷ (busy ∷ []))
compute_total_requests-sum_example =
    compute_total_requests-sum thousandths (λ a. a) "cpu" (λ a b. refl) api.pod_requests
      (busy ∷ (busy ∷ []))
