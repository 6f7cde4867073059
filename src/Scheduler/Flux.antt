-- ===== src/Scheduler/Flux.antt =====
-- sig-scheduler-plugins/pkg/fluence/core/flux.go: the manager's requests to the sidecar, and the
-- events of pods that cancel them.
pub mod Cancel
pub mod Ask
pub mod Refines
pub mod Tracking
pub mod Nodes
pub mod Clears
pub mod Pieces
pub mod Ends
pub mod Restart
mod Examples
use flux_k8s.Base.{
  ℕ, String, List, [], ◌∷◌, map, Option, none, some, ℤ, pos, eqb_ℤ, Map, get, put, delete,
  if◌then◌else◌,
}
use flux_k8s.Base.Int.{uint64, int64_of_uint64}
use flux_k8s.Kube.{Pod, PodPhase, PodGroup}
use flux_k8s.Messages.{MatchResponse, CancelResponse, NodeAlloc, Reply, reply, refused}
use flux_k8s.Scheduler.World.{World, Cluster}
use flux_k8s.Scheduler.PodSpec.{prepare_pod_job_spec}
use flux_k8s.Scheduler.Groups.{create_fake_group, get_pod_group}

-- The state of `PodGroupManager`. The server stands for the sidecar at the other end of gRPC.
pub record Manager (w : World) : Type 0 where
  pub schedule_timeout : ℤ
  pub permitted : w.Store
  pub backed_off : w.Store
  pub group_to_job : Map ℕ  -- uint64
  pub pod_to_node : Map String
  pub server : w.Server

forget_pods : List Pod → Map String → Map String
forget_pods [] m = m
forget_pods (pod ∷ pods) m = forget_pods pods (delete pod.name m)

-- The group's name for an event of a pod; without a group a faux one is made up.
event_group : Cluster → Pod → String
event_group c pod =
    let (group_name, group) = get_pod_group c pod in
    elim group [ none ↦ (create_fake_group pod).name | some pg ↦ group_name ]

module _ {w : World} (c : Cluster) where
  pub cleanup : Pod → String → Manager w → Manager w
  cleanup pod group_name m =
      let m1 = record m { group_to_job = delete group_name m.group_to_job } in
      elim (c.list_pods pod.namespace group_name) [
        | none ↦ m1
        | some pods ↦ record m1 { pod_to_node = forget_pods pods m.pod_to_node }
      ]

  -- What `cancelFluxJob` does with the answer of the sidecar.
  after_cancel :
      String → Pod → Manager w → w.Server × Reply CancelResponse → Manager w × Option String
  after_cancel group_name pod m (server, refused e) = (record m { server = server }, some e)
  after_cancel group_name pod m (server, reply r) =
      let m1 = record m { server = server } in
      if eqb_ℤ r.error (pos 0) then (cleanup pod group_name m1, none) else (m1, none)

  cancel_job : String → Pod → ℕ → Manager w → Manager w × Option String
  cancel_job group_name pod jobid m = elim (w.dial m.server) [
    | some e ↦ (m, some e)
    | none ↦
        after_cancel group_name pod m
          (w.cancel m.server (record { job_id = int64_of_uint64 jobid }))
  ]

  -- A group with no job has been cancelled already.
  pub cancel_flux_job : String → Pod → Manager w → Manager w × Option String
  cancel_flux_job group_name pod m = elim (get group_name m.group_to_job) [
    | none ↦ (m, none)
    | some jobid ↦ cancel_job group_name pod jobid m
  ]

  -- What `AskFlux` does with the answer of the sidecar.
  after_match :
      String → Manager w → w.Server × Reply MatchResponse → Manager w × Reply (List String)
  after_match group_name m (server, refused e) = (record m { server = server }, refused e)
  after_match group_name m (server, reply r) = (
    record m { server = server; group_to_job = put group_name (uint64 r.job_id) m.group_to_job },
    reply (map (λ (n : NodeAlloc). n.node_id) r.nodelist),
  )

  pub request_match : Pod → PodGroup → String → Manager w → Manager w × Reply (List String)
  request_match pod pg group_name m = elim (w.dial m.server) [
    | some e ↦ (m, refused e)
    | none ↦ after_match group_name m (
        w.match_allocate m.server (record {
          ps = prepare_pod_job_spec pod group_name;
          request = "allocate";
          count = pg.spec.min_member;
        }))
  ]

  -- An earlier job of the group is cancelled first; the error of that is dropped.
  pub release_earlier : String → Pod → Manager w → Manager w
  release_earlier group_name pod m = elim (get group_name m.group_to_job) [
    | none ↦ m
    | some _ ↦ (cancel_flux_job group_name pod m).0
  ]

  pub ask_flux : Pod → PodGroup → String → Manager w → Manager w × Reply (List String)
  ask_flux pod pg group_name m = request_match pod pg group_name (release_earlier group_name pod m)

  -- `UpdatePod`, by the phase of the new pod.
  by_new_phase : PodPhase → Pod → Manager w → Manager w
  by_new_phase PodPhase.succeeded old m = release_earlier (event_group c old) old m
  by_new_phase PodPhase.failed old m = release_earlier (event_group c old) old m
  by_new_phase _ old m = m

  pub update_pod : Pod → Pod → Manager w → Manager w
  update_pod old new m = by_new_phase new.phase old m

  -- `DeletePod`, by the phase of the pod.
  by_last_phase : PodPhase → Pod → Manager w → Manager w
  by_last_phase PodPhase.pending pod m = release_earlier (event_group c pod) pod m
  by_last_phase PodPhase.running pod m = release_earlier (event_group c pod) pod m
  by_last_phase _ pod m = m

  pub delete_pod : Pod → Manager w → Manager w
  delete_pod pod m = by_last_phase pod.phase pod m
