-- ===== src/Scheduler/Examples.antt =====
-- Runs of the manager in the small world of `Toy`.
use flux_k8s.Base.{
  Map, ℕ, String, true, [], ◌∷◌, none, some, pos, ◌≡◌, ◌≢◌, refl, get, All, done, panic, arith, ap,
  sym, ◌∙◌, ne_str, eq_iff, List,
}
use flux_k8s.Base.Int.{int64_of_uint64}
use flux_k8s.Kube.{Pod, PodPhase, PodGroup, PodGroupPhase}
use flux_k8s.Scheduler.World.{Cluster, permit_state, pods_to_activate}
use flux_k8s.Scheduler.Flux.{Manager, ask_flux}
use flux_k8s.Scheduler.Flux.Tracking.{IsTracked}
use flux_k8s.Scheduler.Flux.Ask.{ask_flux-leaks}
use flux_k8s.Scheduler.Manager.{Outcome, use_nodes, activate_siblings, without_uid}
use flux_k8s.Scheduler.Manager.Siblings.{Stashed, HaveOwnFullNames, activate_siblings-stashes}
use flux_k8s.Scheduler.Manager.PreFilter.{
  IsAt, HaveOwnNames, pairs, use_nodes-assigns, use_nodes-panic,
}
use flux_k8s.Scheduler.Toy.{toy, toy-IsFlux, toy-IsCycleState, live, no_job, one_job, two_jobs, job}

abbrev pub pod_named : String → Pod
pod_named name = record {
  name = name;
  namespace = "default";
  uid = name;
  labels = some (("scheduling.x-k8s.io/pod-group", "g") ∷ []);
  owner_references = [];
  deletion_timestamp = 0;
  node_name = "";
  containers = record { cpu = pos 2; memory = pos 0; storage = pos 0; gpu = pos 0 } ∷ [];
  phase = PodPhase.pending;
}

abbrev pub group_g : PodGroup
group_g = record {
  name = "g";
  namespace = "default";
  owner_references = [];
  creation_timestamp = 1;
  spec = record { min_member = pos 2; schedule_timeout_seconds = none };
  status = record {
    phase = PodGroupPhase.scheduling;
    occupied_by = "";
    running = pos 0;
    succeeded = pos 0;
    failed = pos 0;
    creation_time = 1;
    schedule_start_time = 0;
  };
}

-- Two pods of the group, one of them with a node.
abbrev pub small : Cluster
small = record {
  group_label = λ p. "g";
  get_group = λ namespace name. some group_g;
  list_pods = λ namespace label. some (pod_named "a" ∷ pod_named "b" ∷ []);
  node_infos = some ((record (pod_named "a") { node_name = "node-a" } ∷ []) ∷ [] ∷ []);
  now = 10;
}

abbrev pub idle : Manager toy
idle = record {
  schedule_timeout = pos 600;
  permitted = [];
  backed_off = [];
  group_to_job = [];
  pod_to_node = [];
  server = no_job;
}

-- The group holds job 1.
abbrev pub busy : Manager toy
busy = record idle { group_to_job = ("default/g", 1) ∷ []; server = one_job }

idle-IsTracked : IsTracked live idle
unfolding get
idle-IsTracked = record { held_is_live = λ g n e. cc; held_once = λ g h n k e f same. cc }

busy_holds : (g : String) (n : ℕ) → get g busy.group_to_job ≡ some n → ("default/g" ≡ g) × (1 ≡ n)
unfolding get
busy_holds g n e = ground (arith, eq_iff "default/g" g)

busy-IsTracked : IsTracked live busy
busy-IsTracked = record {
  held_is_live = λ g n e. ap (λ x. live one_job (int64_of_uint64 x)) (sym (busy_holds g n e).1);
  held_once = λ g h n k e f same. sym (busy_holds g n e).0 ∙ (busy_holds h k f).0;
}

ask_flux-leaks_example :
    let m' = (ask_flux small (pod_named "a") group_g "default/g" busy).0 in
    (live m'.server (int64_of_uint64 1) ≡ true)
    × ((g : String) (k : ℕ)
        → get g m'.group_to_job ≡ some k
        → int64_of_uint64 k ≢ int64_of_uint64 1)
unfolding get
ask_flux-leaks_example =
    ask_flux-leaks live toy-IsFlux small (pod_named "a") group_g "default/g" busy 1 "down"
      busy-IsTracked one_job two_jobs (job (pos 2)) refl refl refl refl refl

use_nodes-panic_example :
    use_nodes toy small "default/g"
      (pod_named "a")
      (pod_named "a" ∷ [])
      []
      ("node-a" ∷ "node-b" ∷ [])
      idle
    ≡ panic
use_nodes-panic_example =
    use_nodes-panic toy small "default/g" (pod_named "a") (pod_named "a" ∷ []) []
      ("node-a" ∷ "node-b" ∷ []) idle (omega arith)

use_nodes-assigns_example :
    let pods : List Pod = pod_named "a" ∷ pod_named "b" ∷ [] in
    let nodes : List String = "node-a" ∷ "node-b" ∷ [] in
    (o : Outcome toy) × (use_nodes toy small "default/g" (pod_named "a") pods [] nodes idle
      ≡ done o)
    × (o.error ≡ none)
    × All (λ p. IsAt toy p (o.state, o.manager.pod_to_node)) (pairs pods nodes)
unfolding HaveOwnNames
use_nodes-assigns_example =
    use_nodes-assigns toy small toy-IsCycleState "default/g" (pod_named "a")
      (pod_named "a" ∷ pod_named "b" ∷ []) [] ("node-a" ∷ "node-b" ∷ []) idle
      ((ne_str "b" "a" refl, tt), (tt, tt)) (omega arith)

-- Pod a has the cycle's state ask for its siblings: pod b is handed over.
abbrev asking : toy.State
asking =
    ("PermitFluence", permit_state true)
    ∷ (("kubernetes.io/pods-to-activate", pods_to_activate []) ∷ [])

activate_siblings-stashes_example :
    (after : Map Pod) × (toy.read
        (activate_siblings toy small (pod_named "a") asking)
        "kubernetes.io/pods-to-activate"
      ≡ some (pods_to_activate after))
    × Stashed after (pod_named "b" ∷ [])
    × (get "default/a" after ≡ get "default/a" [])
unfolding get without_uid HaveOwnFullNames
activate_siblings-stashes_example =
    activate_siblings-stashes toy small toy-IsCycleState (pod_named "a")
      (pod_named "a" ∷ (pod_named "b" ∷ [])) asking [] (ne_str "g" "" refl) refl refl refl (tt, tt)
      "default/a" (ne_str "default/b" "default/a" refl, tt)
