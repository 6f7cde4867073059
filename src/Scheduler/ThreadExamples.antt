-- ===== src/Scheduler/ThreadExamples.antt =====
-- Runs of the scheduler's thread in the small world of `Toy`.
use flux_k8s.Base.{true, false, [], none, some, pos, ◌≡◌, ◌≢◌, ◌*◌, ◌^◌, String, refl, get, ◌∷◌}
use flux_k8s.Base.Int.{uint64}
use flux_k8s.Scheduler.Groups.{get_pod_group}
use flux_k8s.Scheduler.Flux.{delete_pod}
use flux_k8s.Scheduler.Manager.{get_pod_node}
use flux_k8s.Scheduler.Manager.Thread.{Work, Shared, matching, sizing, start, advance}
use flux_k8s.Scheduler.Manager.Thread.Race.{deletion_missed}
use flux_k8s.Messages.{reply}
use flux_k8s.Scheduler.Flux.Pieces.{node_ids}
use flux_k8s.Scheduler.Flux.Refines.{held_job}
use flux_k8s.Scheduler.Plugin.Start.{Fluence, Surroundings, new, new_pod_group_manager}
use flux_k8s.Scheduler.Plugin.Interleaved.{
  at_rest, called, advanced, began, turned, earlier_job_stays,
}
use flux_k8s.Scheduler.Toy.{toy, toy-IsFlux, live, no_job, one_job, job}
use flux_k8s.Scheduler.Examples.{pod_named, group_g, small, idle}

abbrev work : Work toy
work = record {
  group_name = "default/g";
  group = group_g;
  rep_pod = pod_named "a";
  pods = pod_named "a" ∷ (pod_named "b" ∷ []);
  state = [];
}

deletion_missed_example :
    let sent = advance small idle (matching work) in
    let deleted = delete_pod small (pod_named "a") sent.manager in
    let after = advance small deleted sent.thread in
    (deleted ≡ sent.manager)
    × (after.thread ≡ sizing work (node_ids (job (pos 1))))
    × (get "default/g" after.manager.group_to_job ≡ some (uint64 (pos 1)))
    × (live no_job (pos 1) ≡ false)
    × (live after.manager.server (pos 1) ≡ true)
unfolding get get_pod_group
deletion_missed_example =
    deletion_missed live toy-IsFlux small small (pod_named "a") group_g work idle one_job
      (job (pos 1)) refl refl refl refl

-- A scheduler that starts again while the sidecar goes on with job 1.
abbrev again : Fluence toy
again = record {
  manager = new_pod_group_manager toy (λ d. []) one_job (pos (300 * 10 ^ 9));
  schedule_timeout = some (pos (300 * 10 ^ 9));
  pod_group_backoff = some (pos 0);
}

abbrev asking_again : Shared toy
asking_again = record {
  manager = again.manager;
  thread = start small (pod_named "a") [] again.manager;
}

abbrev calm : Surroundings
calm = record {
  client_error = none;
  config_error = none;
  clientset_error = none;
  all_pods = reply [];
}

earlier_job_stays_example :
    let now = advance small asking_again.manager asking_again.thread in
    (live now.manager.server (pos 1) ≡ true)
    × ((g : String) → held_job now.manager.group_to_job g ≢ some (pos 1))
unfolding new new_pod_group_manager get_pod_node get
earlier_job_stays_example =
    earlier_job_stays live toy-IsFlux (λ d. []) one_job calm again refl (pos 1) refl _
      (turned asking_again _
        (turned _ asking_again began (called small (pod_named "a") [] at_rest refl))
        (advanced small))
