-- ===== src/Scheduler/Manager/Thread.antt =====
-- `PreFilter` of core/core.go, with `AskFlux` of core/flux.go, as the scheduler's thread runs it: a piece
-- at a time. A piece is what the thread does under one hold of the lock, or one call without it, and
-- between two pieces the events of pods may come.
pub mod Alone
pub mod Start
pub mod Safe
pub mod Race
pub mod Ends
pub mod Lost
use flux_k8s.Base.{
  String, true, false, List, [], ◌∷◌, Option, none, some, ℕ, zero, suc, pos, ltb_ℤ, get, put,
  length, if◌then◌else◌, done, panic,
}
use flux_k8s.Base.Run.{Run}
use flux_k8s.Kube.{Pod, PodGroup}
use flux_k8s.Messages.{MatchResponse, Reply, reply, refused}
use flux_k8s.Scheduler.World.{World, Cluster, flux_state}
use flux_k8s.Scheduler.Groups.{get_pod_group}
use flux_k8s.Scheduler.Flux.{Manager, cancel_flux_job}
use flux_k8s.Scheduler.Flux.Pieces.{call_match, store_job, node_ids}
use flux_k8s.Scheduler.Manager.{Outcome, check_size}

-- The local variables of a `PreFilter` that asks for nodes: `repPod` is the first of the pods.
pub record Work (w : World) : Type 0 where
  pub group_name : String
  pub group : PodGroup
  pub rep_pod : Pod
  pub pods : List Pod
  pub state : w.State

-- Where the thread is: before the look for an earlier job, before its cancellation, before the call of
-- `Match`, before its answer is written, before the check of the size, in the loop over the nodes, or
-- before the group is let through. `over` has returned and `crashed` has panicked.
pub data Thread (w : World) : Type 0 where
  resting crashed : Thread w
  asking releasing matching admitting : Work w → Thread w
  storing : Work w → MatchResponse → Thread w
  sizing : Work w → List String → Thread w
  assigning : Work w → List Pod → List String → Thread w
  over : Option String → w.State → Thread w

-- The manager that the threads share, and the scheduler's thread.
pub record Shared (w : World) : Type 0 where
  pub manager : Manager w
  pub thread : Thread w

module _ {w : World} (c : Cluster) where
  ask_for : String → PodGroup → List Pod → w.State → Thread w
  ask_for group_name pg [] state = crashed
  ask_for group_name pg (rep_pod ∷ rest) state = asking (record {
    group_name = group_name;
    group = pg;
    rep_pod = rep_pod;
    pods = rep_pod ∷ rest;
    state = state;
  })

  start_pods : String → PodGroup → List Pod → w.State → Manager w → Thread w
  start_pods group_name pg pods state m =
      if ltb_ℤ (pos (length pods)) pg.spec.min_member
      then over (some "not enough sibling pods") state
      else if w.is_cached c.now group_name m.permitted
      then over none state
      else ask_for group_name pg pods state

  start_group : String → PodGroup → Pod → w.State → Manager w → Thread w
  start_group group_name pg pod state m =
      if w.is_cached c.now group_name m.backed_off
      then over (some "podGroup failed recently") state
      else elim (c.list_pods pod.namespace (c.group_label pod)) [
        | none ↦ over (some "podLister list pods failed") state
        | some pods ↦ start_pods group_name pg pods state m
      ]

  -- `PreFilter` up to the call of `AskFlux`: it reads the cluster and the caches, and writes nothing.
  pub start : Pod → w.State → Manager w → Thread w
  start pod state m =
      let (group_name, group) = get_pod_group c pod in
      elim group [ none ↦ over none state | some pg ↦ start_group group_name pg pod state m ]

  -- The answer of the sidecar, once it is there.
  received : Work w → Manager w × Reply MatchResponse → Shared w
  received k (m, refused e) = record { manager = m; thread = over (some e) k.state }
  received k (m, reply r) = record { manager = m; thread = storing k r }

  -- The next piece.
  pub advance : Manager w → Thread w → Shared w
  advance m (asking k) = elim (get k.group_name m.group_to_job) [
    | none ↦ record { manager = m; thread = matching k }
    | some _ ↦ record { manager = m; thread = releasing k }
  ]
  advance m (releasing k) = record {
    manager = (cancel_flux_job c k.group_name k.rep_pod m).0;
    thread = matching k;
  }
  advance m (matching k) = received k (call_match k.rep_pod k.group k.group_name m)
  advance m (storing k r) = record {
    manager = store_job k.group_name r m;
    thread = sizing k (node_ids r);
  }
  advance m (sizing k nodes) = record {
    manager = check_size w c k.group_name k.rep_pod k.pods nodes m;
    thread = assigning k k.pods nodes;
  }
  advance m (assigning k pods []) = record { manager = m; thread = admitting k }
  advance m (assigning k [] (node ∷ nodes)) = record { manager = m; thread = crashed }
  advance m (assigning k (pod ∷ pods) (node ∷ nodes)) = record {
    manager = record m { pod_to_node = put pod.name node m.pod_to_node };
    thread = assigning (record k { state = w.write k.state pod.name (flux_state node) }) pods nodes;
  }
  advance m (admitting k) = record {
    manager = record m { permitted = w.add c.now k.group_name m.schedule_timeout m.permitted };
    thread = over none k.state;
  }
  advance m (over error state) = record { manager = m; thread = over error state }
  advance m resting = record { manager = m; thread = resting }
  advance m crashed = record { manager = m; thread = crashed }

  -- Pieces with nothing between them.
  pub run : ℕ → Shared w → Shared w
  run zero s = s
  run (suc n) s = run n (advance s.manager s.thread)

-- What a thread has come to, if it has ended.
abbrev pub result_of : {w : World} → Shared w → Option (Run (Outcome w))
result_of {w} s = elim s.thread [
  | over error state ↦ some (done (record { manager = s.manager; state = state; error = error }))
  | crashed ↦ some panic
  | _ ↦ none
]
