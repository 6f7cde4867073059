-- ===== src/Scheduler/Plugin.antt =====
-- sig-scheduler-plugins/pkg/fluence/fluence.go: the extension points of the scheduler. The waiting
-- pods of the framework are an argument; a decision about them is the list of pods that it names.
pub mod Start
pub mod Lifecycle
pub mod Interleaved
pub mod Order
pub mod Assignment
pub mod Reborn
pub mod Gang
pub mod Answers
use Prim.Native.Nat.{ℕ}
use Prim.Native.String.{compare}
use text.Mathlib.Text.{is_lt}
use flux_k8s.Base.{
  String, Bool, true, false, ◌&&◌, not, List, [], ◌∷◌, Option, none, some, ℤ, pos, eqb_ℤ, leb_ℤ,
  ltb_ℤ, str_eq, length, select, if◌then◌else◌, done, failed, panic, ◌>>=◌,
}
use flux_k8s.Base.Run.{Run}
use flux_k8s.Kube.{Pod, PodGroup}
use flux_k8s.Labels.{namespaced, get_pod_group_label, get_pod_group_full_name}
use flux_k8s.Scheduler.World.{World, Cluster, StateData, flux_state}
use flux_k8s.Scheduler.Groups.{
  get_creation_timestamp, get_wait_time_duration, get_pod_group, calculate_assigned_pods,
}
use flux_k8s.Scheduler.Flux.{Manager}
use flux_k8s.Scheduler.Manager.{
  Status, pod_group_not_specified, pod_group_not_found, Outcome, get_pod_node,
  delete_permitted_pod_group, backoff_pod_group, pre_filter_group, permit_group, activate_siblings,
}

-- The codes of `framework.Status` that the plugin answers with.
pub data Code : Type 0 where
  success unschedulable unschedulable_and_unresolvable wait : Code

pub record QueuedPodInfo : Type 0 where
  pub pod : Pod
  pub initial_attempt_timestamp : Option ℕ

-- `corev1helpers.PodPriority`, and `Equal` and `Before` of `metav1.MicroTime`.
pub record Helpers : Type 0 where
  pub pod_priority : Pod → ℤ
  pub time_equal : ℕ → ℕ → Bool
  pub time_before : ℕ → ℕ → Bool

unfoldable pub creation_time : Cluster → QueuedPodInfo → Run ℕ
creation_time c info =
    get_creation_timestamp (get_pod_group c info.pod).1 info.initial_attempt_timestamp

abbrev pub text_lt : String → String → Bool
text_lt s t = is_lt (compare s t)

-- By the times, and by the names where these are equal.
unfoldable pub is_earlier : Helpers → QueuedPodInfo → QueuedPodInfo → ℕ → ℕ → Bool
is_earlier h info1 info2 time1 time2 =
    if h.time_equal time1 time2
    then text_lt (namespaced info1.pod.namespace info1.pod.name)
        (namespaced info2.pod.namespace info2.pod.name)
    else h.time_before time1 time2

unfoldable pub less : Helpers → Cluster → QueuedPodInfo → QueuedPodInfo → Run Bool
less h c info1 info2 =
    let prio1 = h.pod_priority info1.pod in
    let prio2 = h.pod_priority info2.pod in
    if not (eqb_ℤ prio1 prio2) then done (ltb_ℤ prio2 prio1) else do
      time1 ← creation_time c info1
      time2 ← creation_time c info2
      done (is_earlier h info1 info2 time1 time2)

-- What `PreFilter` answers: the nodes that the pod may go to (`none` for no result) and the code.
pub record Filtered (w : World) : Type 0 where
  pub manager : Manager w
  pub state : w.State
  pub node_names : Option (List String)
  pub code : Code

module _ (w : World) where
  -- `Filter`; a value of another type under the pod's name is a nil pointer that is read.
  pub filter_node : w.State → Pod → String → Run Code
  filter_node state pod node = elim (w.read state pod.name) [
    | none ↦ done Code.success
    | some (flux_state name) ↦
        if not (str_eq name node) then done Code.unschedulable else done Code.success
    | some _ ↦ panic
  ]

  pub after_group : Pod → Outcome w → Filtered w
  after_group pod o = elim o.error [
    | some e ↦ record {
      manager = o.manager;
      state = o.state;
      node_names = none;
      code = Code.unschedulable_and_unresolvable;
    }
    | none ↦ record {
      manager = o.manager;
      state = o.state;
      node_names = some (get_pod_node w o.manager pod ∷ []);
      code = Code.success;
    }
  ]

module _ (w : World) (c : Cluster) where
  pub pre_filter : Pod → w.State → Manager w → Run (Filtered w)
  pre_filter pod state m =
      let node = get_pod_node w m pod in
      if not (str_eq node "")
      then done (record {
        manager = m;
        state = state;
        node_names = some (node ∷ []);
        code = Code.success;
      })
      else do o ← pre_filter_group w c pod state m; done (after_group w pod o)

  abbrev pub is_sibling : Pod → PodGroup → Pod → Bool
  is_sibling pod pg waiting =
      str_eq waiting.namespace pod.namespace && str_eq (get_pod_group_label waiting) pg.name

  enough_pods : PodGroup → Option (List Pod) → Bool
  enough_pods pg none = false
  enough_pods pg (some pods) = leb_ℤ pg.spec.min_member (pos (length pods))

  maybe_backoff : Pod → PodGroup → String → Option ℤ → Manager w → Manager w
  maybe_backoff pod pg group_name none m = m
  maybe_backoff pod pg group_name (some backoff) m =
      if enough_pods pg (c.list_pods pod.namespace (get_pod_group_label pod))
      then backoff_pod_group w c group_name backoff m
      else m

  reject_group : Pod → PodGroup → String → Option ℤ → List Pod → Manager w → Manager w × List Pod
  reject_group pod pg group_name backoff waiting m = (
    delete_permitted_pod_group w group_name (maybe_backoff pod pg group_name backoff m),
    select (is_sibling pod pg) waiting,
  )

  -- `PostFilter` always answers `Unschedulable`; this is the manager and the waiting pods rejected.
  pub post_filter : Pod → Option ℤ → List Pod → Manager w → Manager w × List Pod
  post_filter pod backoff waiting m =
      let (group_name, group) = get_pod_group c pod in
      elim group [
        | none ↦ (m, [])
        | some pg ↦
            if leb_ℤ pg.spec.min_member (pos (calculate_assigned_pods c pg.name pod.namespace))
            then (m, [])
            else reject_group pod pg group_name backoff waiting m
      ]

  -- `Unreserve`
  pub unreserve : Pod → List Pod → Manager w → Manager w × List Pod
  unreserve pod waiting m =
      let (group_name, group) = get_pod_group c pod in
      elim group [
        | none ↦ (m, [])
        | some pg ↦ (delete_permitted_pod_group w group_name m, select (is_sibling pod pg) waiting)
      ]

-- What `Permit` answers: the code, the time to wait, and the waiting pods that are let go.
pub record Permitted (w : World) : Type 0 where
  pub state : w.State
  pub code : Code
  pub wait_time : ℤ
  pub allowed : List Pod

module _ (w : World) (c : Cluster) where
  longer_wait : ℤ → ℤ → ℤ
  longer_wait timeout own = if not (eqb_ℤ own (pos 0)) then own else timeout

  abbrev pub same_group : Pod → Pod → Bool
  same_group pod waiting = str_eq (get_pod_group_full_name waiting) (get_pod_group_full_name pod)

  by_status : Pod → List Pod → ℤ → Status × w.State → Permitted w
  by_status pod waiting timeout (pod_group_not_specified, state) = record {
    state = state;
    code = Code.success;
    wait_time = pos 0;
    allowed = [];
  }
  by_status pod waiting timeout (pod_group_not_found, state) = record {
    state = state;
    code = Code.unschedulable;
    wait_time = pos 0;
    allowed = [];
  }
  by_status pod waiting timeout (Status.wait, state) = record {
    state = activate_siblings w c pod state;
    code = Code.wait;
    wait_time = longer_wait timeout (get_wait_time_duration (get_pod_group c pod).1 (some timeout));
    allowed = [];
  }
  by_status pod waiting timeout (Status.success, state) = record {
    state = state;
    code = Code.success;
    wait_time = pos 0;
    allowed = select (same_group pod) waiting;
  }

  -- `Permit`, with the plugin's schedule timeout.
  pub permit : Pod → List Pod → ℤ → w.State → Permitted w
  permit pod waiting timeout state = by_status pod waiting timeout (permit_group w c pod state)
