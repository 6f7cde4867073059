-- ===== src/Scheduler/Manager.antt =====
-- sig-scheduler-plugins/pkg/fluence/core/core.go: the operations of `PodGroupManager` that the
-- scheduler's extension points call.
pub mod PreFilter
pub mod Permit
pub mod Asks
pub mod Passed
pub mod Held
pub mod Again
pub mod Thread
pub mod Siblings
pub mod Refines
pub mod Tracking
use flux_k8s.Base.{
  ℕ, ◌+◌, String, Bool, true, false, not, List, [], ◌∷◌, Option, none, some, ℤ, pos, eqb_ℤ, leb_ℤ,
  ltb_ℤ, int32, ◌+ℤ◌, ◌==◌, str_eq, Map, get, put, length, if◌then◌else◌, done, failed, panic,
  ◌>>=◌,
}
use flux_k8s.Base.Run.{Run}
use flux_k8s.Kube.{Pod, PodGroup}
use flux_k8s.Labels.{namespaced}
use flux_k8s.Messages.{Reply, reply, refused}
use flux_k8s.Scheduler.World.{World, Cluster, StateData, flux_state, permit_state, pods_to_activate}
use flux_k8s.Scheduler.Groups.{get_pod_group, calculate_assigned_pods}
use flux_k8s.Scheduler.Flux.{Manager, cancel_flux_job, ask_flux}

pub data Status : Type 0 where
  pod_group_not_specified pod_group_not_found success wait : Status

abbrev pub permit_state_key : String
permit_state_key = "PermitFluence"

-- `framework.PodsToActivateKey`
abbrev pods_to_activate_key : String
pods_to_activate_key = "kubernetes.io/pods-to-activate"

abbrev or_empty : Option String → String
or_empty none = ""
or_empty (some s) = s

-- What `PreFilter` leaves: the manager, the cycle's state, and the error.
pub record Outcome (w : World) : Type 0 where
  pub manager : Manager w
  pub state : w.State
  pub error : Option String

abbrev is_activated : Option StateData → Bool
is_activated (some (permit_state b)) = b
is_activated _ = false

-- All pods but the first with the given UID.
unfoldable pub without_uid : String → List Pod → List Pod
without_uid uid [] = []
without_uid uid (pod ∷ pods) = if str_eq pod.uid uid then pods else pod ∷ without_uid uid pods

stash : List Pod → Map Pod → Map Pod
stash [] table = table
stash (pod ∷ pods) table = stash pods (put (namespaced pod.namespace pod.name) pod table)

module _ (w : World) where
  unfoldable pub get_pod_node : Manager w → Pod → String
  get_pod_node m pod = or_empty (get pod.name m.pod_to_node)

  unfoldable pub delete_permitted_pod_group : String → Manager w → Manager w
  delete_permitted_pod_group name m = record m { permitted = w.remove name m.permitted }

  -- The loop over the nodes: `pods[i]` panics past the end.
  assign_nodes : List Pod → List String → w.State → Map String → Run (w.State × Map String)
  assign_nodes pods [] state table = done (state, table)
  assign_nodes [] (node ∷ nodes) state table = panic
  assign_nodes (pod ∷ pods) (node ∷ nodes) state table =
      assign_nodes pods nodes (w.write state pod.name (flux_state node)) (put pod.name node table)

-- Enough pods are assigned, with the one that asks; the count is an int32.
enough : PodGroup → ℕ → Bool
enough pg assigned = leb_ℤ pg.spec.min_member (int32 (int32 (pos assigned) +ℤ pos 1))

module _ (w : World) (c : Cluster) where
  unfoldable pub backoff_pod_group : String → ℤ → Manager w → Manager w
  backoff_pod_group name backoff m =
      if eqb_ℤ backoff (pos 0)
      then m
      else record m { backed_off = w.add c.now name backoff m.backed_off }

  -- An allocation of the wrong size is cancelled, and the error of that dropped.
  pub check_size : String → Pod → List Pod → List String → Manager w → Manager w
  check_size group_name rep_pod pods nodes m =
      if length nodes == length pods then m else (cancel_flux_job c group_name rep_pod m).0

  abbrev admitted : String → Manager w → w.State × Map String → Outcome w
  admitted group_name m written = record {
    manager = record m {
      pod_to_node = written.1;
      permitted = w.add c.now group_name m.schedule_timeout m.permitted;
    };
    state = written.0;
    error = none;
  }

  -- The rest of `PreFilter`: the nodes to the pods, and the group among those let through.
  admit : String → List Pod → w.State → List String → Manager w → Run (Outcome w)
  admit group_name pods state nodes m = do
    written ← assign_nodes w pods nodes state m.pod_to_node
    done (admitted group_name m written)

  -- `PreFilter`, with the nodes that the sidecar has chosen.
  pub use_nodes : String → Pod → List Pod → w.State → List String → Manager w → Run (Outcome w)
  use_nodes group_name rep_pod pods state nodes m =
      admit group_name pods state nodes (check_size group_name rep_pod pods nodes m)

  use_answer : String → Pod → List Pod → w.State → Manager w × Reply (List String) → Run (Outcome w)
  use_answer group_name rep_pod pods state (m, refused e) =
      done (record { manager = m; state = state; error = some e })
  use_answer group_name rep_pod pods state (m, reply nodes) =
      use_nodes group_name rep_pod pods state nodes m

  -- `PreFilter`, with the pods of the group; `pods[0]` panics if there is none.
  ask_for_pods : String → PodGroup → List Pod → w.State → Manager w → Run (Outcome w)
  ask_for_pods group_name pg [] state m = panic
  ask_for_pods group_name pg (rep_pod ∷ rest) state m =
      use_answer group_name rep_pod (rep_pod ∷ rest) state (ask_flux c rep_pod pg group_name m)

  check_pods : String → PodGroup → List Pod → w.State → Manager w → Run (Outcome w)
  check_pods group_name pg pods state m =
      if ltb_ℤ (pos (length pods)) pg.spec.min_member
      then done (record { manager = m; state = state; error = some "not enough sibling pods" })
      else if w.is_cached c.now group_name m.permitted
      then done (record { manager = m; state = state; error = none })
      else ask_for_pods group_name pg pods state m

  check_group : String → PodGroup → Pod → w.State → Manager w → Run (Outcome w)
  check_group group_name pg pod state m =
      if w.is_cached c.now group_name m.backed_off
      then done (record { manager = m; state = state; error = some "podGroup failed recently" })
      else elim (c.list_pods pod.namespace (c.group_label pod)) [
        | none ↦
            done (record { manager = m; state = state; error = some "podLister list pods failed" })
        | some pods ↦ check_pods group_name pg pods state m
      ]

  -- `PodGroupManager.PreFilter`; the texts of the errors are shortened.
  pub pre_filter_group : Pod → w.State → Manager w → Run (Outcome w)
  pre_filter_group pod state m =
      let (group_name, group) = get_pod_group c pod in
      elim group [
        | none ↦ done (record { manager = m; state = state; error = none })
        | some pg ↦ check_group group_name pg pod state m
      ]

  permit_known : PodGroup → w.State → Status × w.State
  permit_known pg state =
      let assigned = calculate_assigned_pods c pg.name pg.namespace in
      if enough pg assigned
      then (success, state)
      else if assigned == 0
      then (wait, w.write state permit_state_key (permit_state true))
      else (wait, state)

  -- `PodGroupManager.Permit`
  pub permit_group : Pod → w.State → Status × w.State
  permit_group pod state =
      let (group_name, group) = get_pod_group c pod in
      if str_eq group_name ""
      then (pod_group_not_specified, state)
      else elim group [ none ↦ (pod_group_not_found, state) | some pg ↦ permit_known pg state ]

  activate : List Pod → w.State → w.State
  activate [] state = state
  activate (pod ∷ pods) state = elim (w.read state pods_to_activate_key) [
    | some (pods_to_activate table) ↦
        w.write state pods_to_activate_key (pods_to_activate (stash (pod ∷ pods) table))
    | _ ↦ state
  ]

  pub activate_siblings : Pod → w.State → w.State
  activate_siblings pod state =
      let group_name = c.group_label pod in
      if str_eq group_name ""
      then state
      else if not (is_activated (w.read state permit_state_key))
      then state
      else elim (c.list_pods pod.namespace group_name) [
        | none ↦ state
        | some pods ↦ activate (without_uid pod.uid pods) state
      ]
