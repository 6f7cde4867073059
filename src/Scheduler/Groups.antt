-- ===== src/Scheduler/Groups.antt =====
-- Groups of pods: sig-scheduler-plugins/pkg/fluence/group/group.go, and the lookups of core/core.go
-- that read the cluster only.
use Prim.Native.String.{◌++◌}
use flux_k8s.Base.{
  ℕ, ◌+◌, ◌*◌, String, Bool, ◌&&◌, not, List, [], ◌∷◌, Option, none, some, ℤ, pos, str_eq, ◌==◌,
  eqb_ℤ, done, if◌then◌else◌, count_if, count_if-append, concat, ◌≡◌, refl, arith,
}
use flux_k8s.Base.Run.{Run, deref}
use flux_k8s.Kube.{Pod, PodGroup, unset}
use flux_k8s.Labels.{namespaced}
use flux_k8s.Scheduler.World.{Cluster}

abbrev pub second : ℕ
second = 1000000000

abbrev pub default_wait_time : ℤ
default_wait_time = pos 60000000000

unfoldable pub create_fake_group : Pod → PodGroup
create_fake_group pod = record {
  name = "fluence-solo-" ++ pod.namespace ++ "-" ++ pod.name;
  namespace = pod.namespace;
  owner_references = [];
  creation_timestamp = 0;
  spec = record { min_member = pos 1; schedule_timeout_seconds = none };
  status = record {
    phase = unset;
    occupied_by = "";
    running = pos 0;
    succeeded = pos 0;
    failed = pos 0;
    creation_time = 0;
    schedule_start_time = 0;
  };
}

-- `group.GetCreationTimestamp`, with the initial attempt timestamp of the queued pod, a
-- pointer that is nil before the first attempt.
unfoldable pub get_creation_timestamp : Option PodGroup → Option ℕ → Run ℕ
get_creation_timestamp none attempt = deref attempt
get_creation_timestamp (some pg) attempt =
    if not (pg.status.schedule_start_time == 0)
    then done pg.status.schedule_start_time
    else deref attempt

-- Seconds to nanoseconds; an int32 number of seconds does not wrap around.
abbrev pub seconds : ℤ → ℤ
seconds (ℤ.pos n) = ℤ.pos (n * 1000000000)
seconds (ℤ.negsuc n) = ℤ.negsuc (n * 1000000000 + 999999999)

abbrev timeout_or_default : Option ℤ → ℤ
timeout_or_default none = default_wait_time
timeout_or_default (some t) = if not (eqb_ℤ t (pos 0)) then t else default_wait_time

abbrev own_timeout : Option PodGroup → Option ℤ
own_timeout none = none
own_timeout (some pg) = pg.spec.schedule_timeout_seconds

unfoldable pub get_wait_time_duration : Option PodGroup → Option ℤ → ℤ
get_wait_time_duration group timeout = elim (own_timeout group) [
  | some s ↦ seconds s
  | none ↦ timeout_or_default timeout
]

-- `GetPodGroup`: the name is empty without a label, and else holds the namespace.
unfoldable pub get_pod_group : Cluster → Pod → String × Option PodGroup
get_pod_group c pod =
    let group_name = c.group_label pod in
    if str_eq group_name ""
    then ("", none)
    else (namespaced pod.namespace group_name, c.get_group pod.namespace group_name)

-- `GetCreationTimestamp` of the manager.
unfoldable pub get_creation_timestamp_of_pod : Cluster → Pod → ℕ → ℕ
get_creation_timestamp_of_pod c pod ts =
    let group_name = c.group_label pod in
    if str_eq group_name "" then ts else elim (c.get_group pod.namespace group_name) [
      | none ↦ ts
      | some pg ↦
          if not (pg.status.creation_time == 0)
          then pg.status.creation_time
          else pg.creation_timestamp
    ]

abbrev pub is_assigned : Cluster → String → String → Pod → Bool
is_assigned c name namespace pod =
    str_eq (c.group_label pod) name
    && str_eq pod.namespace namespace
    && not (str_eq pod.node_name "")

count_assigned : Cluster → String → String → ℕ → List Pod → ℕ
count_assigned c name namespace count [] = count
count_assigned c name namespace count (pod ∷ pods) =
    count_assigned c name namespace (if is_assigned c name namespace pod then count + 1 else count)
      pods

count_nodes : Cluster → String → String → ℕ → List (List Pod) → ℕ
unfolding count_assigned
count_nodes c name namespace count [] = count
count_nodes c name namespace count (pods ∷ nodes) =
    count_nodes c name namespace (count_assigned c name namespace count pods) nodes

unfoldable pub calculate_assigned_pods : Cluster → String → String → ℕ
unfolding count_nodes
calculate_assigned_pods c name namespace = elim c.node_infos [
  | none ↦ 0
  | some nodes ↦ count_nodes c name namespace 0 nodes
]

-- The pods of the scheduler's snapshot, node by node.
unfoldable pub snapshot_pods : Cluster → List Pod
snapshot_pods c = elim c.node_infos [ none ↦ [] | some nodes ↦ concat nodes ]

count_assigned_lem :
    (c : Cluster) (name namespace : String) (count : ℕ) (pods : List Pod)
    → count_assigned c name namespace count pods
      ≡ count + count_if (is_assigned c name namespace) pods
unfolding count_assigned
count_assigned_lem c name namespace count [] = omega arith
count_assigned_lem c name namespace count (pod ∷ pods) = ground (
  arith,
  count_assigned_lem c name namespace
      (if is_assigned c name namespace pod then count + 1 else count) pods,
)

count_nodes_lem :
    (c : Cluster) (name namespace : String) (count : ℕ) (nodes : List (List Pod))
    → count_nodes c name namespace count nodes
      ≡ count + count_if (is_assigned c name namespace) (concat nodes)
unfolding count_nodes
count_nodes_lem c name namespace count [] = omega arith
count_nodes_lem c name namespace count (pods ∷ nodes) = omega (
  arith,
  count_nodes_lem c name namespace (count_assigned c name namespace count pods) nodes,
  count_assigned_lem c name namespace count pods,
  count_if-append (is_assigned c name namespace) pods (concat nodes),
)

-- The pods of a group that have a node are counted once each, over all nodes of the snapshot.
pub calculate_assigned_pods_lem :
    (c : Cluster) (name namespace : String)
    → calculate_assigned_pods c name namespace
      ≡ count_if (is_assigned c name namespace) (snapshot_pods c)
unfolding calculate_assigned_pods snapshot_pods
calculate_assigned_pods_lem c name namespace =
    elim c.node_infos
      as (λ infos.
        (elim infos [ none ↦ 0 | some nodes ↦ count_nodes c name namespace 0 nodes ])
        ≡ count_if (is_assigned c name namespace)
            (elim infos [ none ↦ [] | some nodes ↦ concat nodes ])) [
              | none ↦ refl
              | some nodes ↦ omega (arith, count_nodes_lem c name namespace 0 nodes)
            ]
