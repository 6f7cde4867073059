-- ===== src/Scheduler/LifecycleExamples.antt =====
-- Runs of the plugin from its start in the small world of `Toy`.
use flux_k8s.Base.{[], none, some, pos, refl, ◌*◌, ◌^◌}
use flux_k8s.Kube.{PodPhase}
use flux_k8s.Messages.{reply}
use flux_k8s.Scheduler.Allocations.{Runs}
use flux_k8s.Scheduler.Flux.{Manager, delete_pod, update_pod}
use flux_k8s.Scheduler.Flux.Refines.{allocations_of}
use flux_k8s.Scheduler.Flux.Tracking.{IsTracked}
use flux_k8s.Scheduler.Plugin.Start.{Fluence, Surroundings, new, new_pod_group_manager}
use flux_k8s.Scheduler.Plugin.Lifecycle.{
  started, moved, updated, deleted, Moves-refines, Reachable-IsTracked,
}
use flux_k8s.Scheduler.Examples.{pod_named, small, busy}
use flux_k8s.Scheduler.Toy.{toy, toy-IsFlux, live, no_job}

-- Nothing goes wrong at the start.
abbrev calm : Surroundings
calm = record {
  client_error = none;
  config_error = none;
  clientset_error = none;
  all_pods = reply [];
}

abbrev toy_plugin : Fluence toy
toy_plugin = record {
  manager = new_pod_group_manager toy (λ d. []) no_job (pos (300 * 10 ^ 9));
  schedule_timeout = some (pos (300 * 10 ^ 9));
  pod_group_backoff = some (pos 0);
}

Moves-refines_example :
    Runs (allocations_of live busy) (allocations_of live (delete_pod small (pod_named "a") busy))
Moves-refines_example =
    Moves-refines live toy-IsFlux toy_plugin busy _ (deleted small (pod_named "a"))

abbrev after_event : Manager toy
after_event =
    update_pod small (pod_named "a") (record (pod_named "a") { phase = PodPhase.failed })
      toy_plugin.manager

Reachable-IsTracked_example : IsTracked live after_event
unfolding new new_pod_group_manager
Reachable-IsTracked_example =
    Reachable-IsTracked live toy-IsFlux (λ d. []) no_job calm toy_plugin refl after_event
      (moved toy_plugin.manager after_event started (updated small (pod_named "a") _))
