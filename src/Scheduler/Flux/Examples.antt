-- ===== src/Scheduler/Flux/Examples.antt =====
-- A cancellation with the sidecar at the other end, and a group whose first pod is over.
use flux_k8s.Base.{
  ℕ, ◌+◌, [], ◌∷◌, none, some, pos, ◌≡◌, refl, true, false, done, All, ne_str, get, get-put_self,
  get-put_ne, delete, inl, arith,
}
use flux_k8s.Kube.{Pod, PodPhase}
use flux_k8s.Messages.{refused}
use flux_k8s.Scheduler.World.{World, IsCycleState, Cluster}
use flux_k8s.Scheduler.Flux.{
  Manager, forget_pods, cleanup, after_cancel, cancel_job, cancel_flux_job, update_pod,
  by_new_phase, event_group, release_earlier,
}
use flux_k8s.Base.Int.{uint64, int64_of_uint64}
use flux_k8s.Scheduler.Groups.{get_pod_group}
use flux_k8s.Scheduler.Manager.{Outcome, pre_filter_group}
use flux_k8s.Scheduler.Manager.PreFilter.{IsAt, HaveOwnNames, pairs}
use flux_k8s.Scheduler.Manager.Again.{first_to_finish_starts_again}
use flux_k8s.Scheduler.Toy.{toy, job}
use flux_k8s.Scheduler.DeskExamples.{nothing, second, desk_world, desk_live, desk-IsFlux, holding}
use flux_k8s.Scheduler.Examples.{pod_named, group_g, small}
use flux_k8s.Sidecar.Alloc.{empty}
use flux_k8s.Sidecar.Fluxion.{Bindings, flux_cancel}
use flux_k8s.Sidecar.Cancelled.{served, cancelled_or_error}

abbrev bindings : Bindings
bindings = record {
  Context = ℕ;
  match_allocate = λ context yaml. (context, record { allocated = ""; job_id = 0; error = none });
  cancel = λ context job. (context + 1, none);
  marshal = λ job. some "yaml";
  decode = λ s. some empty;
}

abbrev world : World
world = served toy bindings (λ context. none) (λ context request. (context, refused "no nodes"))

abbrev busy : Manager world
busy = record {
  schedule_timeout = pos 600;
  permitted = [];
  backed_off = [];
  group_to_job = ("default/g", 7) ∷ [];
  pod_to_node = [];
  server = 0;
}

abbrev pod : Pod
pod = record {
  name = "a";
  namespace = "default";
  uid = "a";
  labels = none;
  owner_references = [];
  deletion_timestamp = 0;
  node_name = "";
  containers = [];
  phase = PodPhase.running;
}

abbrev cluster : Cluster
cluster = record {
  group_label = λ p. "g";
  get_group = λ namespace name. none;
  list_pods = λ namespace label. some [];
  node_infos = none;
  now = 0;
}

cancelled_or_error_example :
    get "default/g" (cancel_flux_job {w = world} cluster "default/g" pod busy).0.group_to_job ≡ none
unfolding cancel_flux_job cancel_job after_cancel cleanup forget_pods flux_cancel get delete
cancelled_or_error_example =
    cancelled_or_error toy bindings (λ context. none)
      (λ context request. (context, refused "no nodes")) cluster pod "default/g" busy refl

-- Pod a of the group that holds job 1 has succeeded.
abbrev finished_pod : Pod
finished_pod = record (pod_named "a") { phase = PodPhase.succeeded }

desk-IsCycleState : IsCycleState desk_world
desk-IsCycleState = record {
  read-write = λ s k v. get-put_self k v s;
  read-write_ne = λ s j k v ne. get-put_ne j k v s ne;
}

first_to_finish_starts_again_example :
    let after = update_pod small (pod_named "a") finished_pod holding in
    (get "default/g" after.group_to_job ≡ none)
    × (desk_live after.server (int64_of_uint64 1) ≡ false)
    × (o : Outcome desk_world) × (pre_filter_group desk_world small (pod_named "b") [] after
        ≡ done o)
    × (o.error ≡ none)
    × (get "default/g" o.manager.group_to_job ≡ some (uint64 (pos 2)))
    × (desk_live o.manager.server (pos 2) ≡ true)
    × All
        (λ p. IsAt desk_world p (o.state, o.manager.pod_to_node))
        (pairs (pod_named "a" ∷ (pod_named "b" ∷ [])) ("node-a" ∷ ("node-b" ∷ [])))
unfolding update_pod by_new_phase event_group release_earlier cancel_flux_job cancel_job
    after_cancel cleanup forget_pods get_pod_group get delete HaveOwnNames
first_to_finish_starts_again_example =
    first_to_finish_starts_again desk_live desk-IsFlux small small desk-IsCycleState (pod_named "a")
      finished_pod (pod_named "b") (pod_named "a") (pod_named "b" ∷ []) group_g [] holding 1 nothing
      second (record { job_id = pos 1; error = pos 0 }) (job (pos 2)) (inl refl) refl refl refl refl
      refl refl refl refl (omega arith) refl refl refl ((ne_str "b" "a" refl, tt), (tt, tt)) refl
