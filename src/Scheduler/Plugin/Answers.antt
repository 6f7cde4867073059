-- ===== src/Scheduler/Plugin/Answers.antt =====
-- What the plugin answers without a look at its state: the rest of fluence.go, and of core/core.go the
-- clones of the values of a cycle's state and the line of the log with the phases of the pods.
use Prim.Native.String.{◌++◌}
use flux_k8s.Base.{String, Bool, true, false, List, [], ◌∷◌, Option, none, some}
use flux_k8s.Kube.{Pod, PodPhase}
use flux_k8s.Scheduler.World.{World, StateData, flux_state, permit_state}
use flux_k8s.Scheduler.Flux.{Manager}

-- `Name`
abbrev pub fluence_name : String
fluence_name = "Fluence"

-- The bits of `framework.ActionType` that the plugin uses, and `framework.ClusterEvent`.
record ActionType : Type 0 where
  pub add : Bool
  pub delete : Bool
  pub update : Bool

record ClusterEvent : Type 0 where
  pub resource : String
  pub action_type : ActionType

-- `EventsToRegister`: the events after which the queue tries its pods again. `pod_resource` is
-- `framework.Pod` and `group_name` is `scheduling.GroupName`.
unfoldable events_to_register : String → String → List ClusterEvent
events_to_register pod_resource group_name =
    record {
      resource = pod_resource;
      action_type = record { add = true; delete = true; update = false };
    }
    ∷ record {
      resource = "podgroups.v1alpha1." ++ group_name;
      action_type = record { add = true; delete = true; update = true };
    }
    ∷ []

-- `PreFilterExtensions`
unfoldable pre_filter_extensions : {Extensions : Type 0} → Option Extensions
pre_filter_extensions = none

-- `Reserve` does nothing; its nil status is a success.
unfoldable reserve :
    {Status : Type 0} (w : World)
    → Pod
    → String
    → w.State
    → Manager w
    → w.State × Manager w × Option Status
reserve w pod node_name state m = (state, m, none)

-- The two methods `Clone`; the values of other plugins have their own.
unfoldable clone : StateData → Option StateData
clone (flux_state node_name) = some (flux_state node_name)
clone (permit_state activate) = some (permit_state activate)
clone _ = none

-- The texts of the phases, as the API has them.
unfoldable phase_text : PodPhase → String
phase_text PodPhase.pending = "Pending"
phase_text PodPhase.running = "Running"
phase_text PodPhase.succeeded = "Succeeded"
phase_text PodPhase.failed = "Failed"
phase_text PodPhase.unknown = "Unknown"
phase_text (PodPhase.other text) = text

-- The loop of `GetStatuses`.
unfoldable add_statuses : String → List Pod → String
unfolding phase_text
add_statuses statuses [] = statuses
add_statuses statuses (pod ∷ pods) = add_statuses (statuses ++ (" " ++ phase_text pod.phase)) pods

unfoldable get_statuses : List Pod → String
unfolding add_statuses
get_statuses pods = add_statuses "" pods
