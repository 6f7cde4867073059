-- ===== src/Sidecar/Cluster/Existing.antt =====
-- `RegisterExisting` of utils/utils.go, which is not called: what the pods on each node use.
use flux_k8s.Base.{
  String, List, [], ◌∷◌, Option, none, some, ℤ, pos, int32, int64, ◌+ℤ◌, Map, get, put,
}
use flux_k8s.Kube.{Pod, Container}
use flux_k8s.Messages.{Reply, reply, refused}

-- The holder of what a node's pods ask for.
pub record Used : Type 0 where
  pub cpu : ℤ  -- int32
  pub memory : ℤ  -- int64
  pub gpu : ℤ  -- int64
  pub storage : ℤ  -- int64

abbrev unused : Used
unused = record { cpu = pos 0; memory = pos 0; gpu = pos 0; storage = pos 0 }

use_containers : List Container → Used → Used
use_containers [] used = used
use_containers (c ∷ rest) used = use_containers rest (record {
  cpu = int32 (used.cpu +ℤ int32 c.cpu);
  memory = int64 (used.memory +ℤ c.memory);
  gpu = int64 (used.gpu +ℤ c.gpu);
  storage = int64 (used.storage +ℤ c.storage);
})

abbrev or_unused : Option Used → Used
or_unused none = unused
or_unused (some u) = u

-- The loop of `RegisterExisting` over the pods, and the call.
register_pods : List Pod → Map Used → Map Used
register_pods [] nodes = nodes
register_pods (pod ∷ pods) nodes =
    register_pods pods (
      put pod.node_name (use_containers pod.containers (or_unused (get pod.node_name nodes))) nodes)

pub register_existing : Reply (List Pod) → Map Used × Option String
register_existing (refused e) = ([], some e)
register_existing (reply pods) = (register_pods pods [], none)
