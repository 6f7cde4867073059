-- ===== src/Controller/Examples.antt =====
-- Runs of the controller on a server that stores what it is sent.
use flux_k8s.Base.{[], ◌∷◌, none, some, pos, ◌≡◌, ◌↔◌, refl, arith, List, true, false, ◌⊎◌}
use flux_k8s.Kube.{Pod, PodPhase, PodGroup, PodGroupPhase}
use flux_k8s.Controller.Server.{Api, Answer, found, fails, not_found}
use flux_k8s.Controller.{
  reconcile, reconcile_found, reconcile_pods, update_status, update_and_patch, sub_time,
}
use flux_k8s.Controller.Status.{get_current_pod_stats, next_group}
use flux_k8s.Controller.Status.Steps.{PhaseStep, next_group-PhaseStep}
use flux_k8s.Controller.Status.Phases.{HasFinished, HasFailed, IsUp, IsWaiting, next_group_phase}
use flux_k8s.Controller.Size.{size_never_set}
use flux_k8s.Controller.Progress.{IsOver, reconcile_rests_iff, reconcile_deletes}
use flux_k8s.Controller.Rounds.{rounds, serving}

abbrev pod : PodPhase → Pod
pod phase = record {
  name = "p";
  namespace = "default";
  uid = "p";
  labels = some (("fluence.group-size", "2") ∷ []);
  owner_references = [];
  deletion_timestamp = 0;
  node_name = "";
  containers = [];
  phase = phase;
}

abbrev done_pods : List Pod
done_pods = pod PodPhase.succeeded ∷ pod PodPhase.succeeded ∷ []

abbrev group : PodGroupPhase → PodGroup
group phase = record {
  name = "g";
  namespace = "default";
  owner_references = [];
  creation_timestamp = 5;
  spec = record { min_member = pos 2; schedule_timeout_seconds = none };
  status = record {
    phase = phase;
    occupied_by = "";
    running = pos 0;
    succeeded = pos 0;
    failed = pos 0;
    creation_time = 7;
    schedule_start_time = 0;
  };
}

abbrev nothing : Answer PodGroup
nothing = fails not_found

abbrev running_answer : Answer PodGroup
running_answer = found (group PodGroupPhase.running)

-- No group is found by its name until it is created; the pods have succeeded.
abbrev api : Api
api = record {
  get_group = λ namespace name. nothing;
  list_pods = λ name. found done_pods;
  status_update = λ pg. pg;
  patch = λ old pg. none;
  delete = λ pg. none;
  create = λ pg. none;
  group_label = λ p. "g";
  unmarshal_time = λ s. none;
  now = 7;
}

-- The group is running.
abbrev serving_api : Api
serving_api = record api { get_group = λ namespace name. found (group PodGroupPhase.running) }

reconcile_rests_iff_example :
    (reconcile api "default" "g" ≡ ([], record { requeue = false; error = none })) ↔ IsOver nothing
reconcile_rests_iff_example = reconcile_rests_iff api "default" "g"

reconcile_deletes_example :
    (pg : PodGroup) × (pods : List Pod) × (running_answer ≡ found pg)
    × (api.list_pods pg.name ≡ found pods)
    × (next_group (group PodGroupPhase.running) done_pods ≡ next_group pg pods)
    × (((next_group (group PodGroupPhase.running) done_pods).status.phase ≡ PodGroupPhase.finished)
        ⊎ ((next_group (group PodGroupPhase.running) done_pods).status.phase
            ≡ PodGroupPhase.failed))
    × (false ≡ false)
unfolding reconcile reconcile_found reconcile_pods sub_time update_status update_and_patch
    next_group get_current_pod_stats
reconcile_deletes_example =
    reconcile_deletes serving_api "default" "g"
      {pg' = next_group (group PodGroupPhase.running) done_pods}
      {r = record { requeue = false; error = none }} refl

next_group-PhaseStep_example :
    PhaseStep
      (pos 2)
      2
      0
      2
      0
      PodGroupPhase.running
      (next_group (group PodGroupPhase.running) done_pods).status.phase
next_group-PhaseStep_example =
    next_group-PhaseStep (group PodGroupPhase.running) done_pods (omega arith) (λ e. cc) (λ e. cc)

next_group_phase_example :
    let phase = (next_group (group PodGroupPhase.running) done_pods).status.phase in
    (phase ≡ PodGroupPhase.finished ↔ HasFinished (pos 2) 0 2 0)
    × (phase ≡ PodGroupPhase.failed ↔ HasFailed (pos 2) 0 2 0)
    × (phase ≡ PodGroupPhase.running ↔ IsUp (pos 2) 0 2 0)
    × (phase ≡ PodGroupPhase.scheduling ↔ IsWaiting (pos 2) 0 2 0)
next_group_phase_example =
    next_group_phase (group PodGroupPhase.running) done_pods (λ e. cc) (λ e. cc) (omega arith)
      (omega arith)

-- A group that asks for no number of members.
abbrev sizeless : PodGroup
sizeless = record (group PodGroupPhase.running) {
  spec = record { min_member = pos 0; schedule_timeout_seconds = none };
}

size_never_set_example :
    (rounds api "default" "g" 9 (some sizeless) ≡ some sizeless)
    × ((reconcile (serving api (some sizeless)) "default" "g").1.requeue ≡ true)
unfolding sub_time
size_never_set_example =
    size_never_set api "default" "g" sizeless done_pods refl refl (λ e. ground arith) (λ e. cc)
      (λ e. cc) refl 9
