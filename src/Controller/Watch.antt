-- ===== src/Controller/Watch.antt =====
-- The watch on pods: `ensurePodGroup` creates the group of a pending pod.
pub mod Laws
pub mod Admitted
use flux_k8s.Base.{
  ℕ, String, Bool, true, false, not, List, [], ◌∷◌, Option, none, some, ℤ, pos, ◌==◌, str_eq,
  if◌then◌else◌,
}
use flux_k8s.Base.Decimal.{parse_int32}
use flux_k8s.Kube.{Pod, PodPhase, PodGroup, unset}
use flux_k8s.Labels.{get_pod_group_size}
use flux_k8s.Controller.Server.{
  Api, Fault, not_found, fault, Answer, found, fails, Call, delete, create,
}

abbrev pending_phase : PodPhase → Bool
pending_phase PodPhase.pending = true
pending_phase _ = false

module _ (api : Api) where
  -- `newPodGroup`: the object that it creates.
  abbrev pub new_pod_group : String → String → ℤ → PodGroup
  new_pod_group name namespace group_size = record {
    name = name;
    namespace = namespace;
    owner_references = [];
    creation_timestamp = 0;
    spec = record { min_member = group_size; schedule_timeout_seconds = none };
    status = record {
      phase = unset;
      occupied_by = "";
      running = pos 0;
      succeeded = pos 0;
      failed = pos 0;
      creation_time = 0;
      schedule_start_time = api.now;
    };
  }

  -- `&schedv1alpha1.PodGroup{}`
  abbrev pub empty_pod_group : PodGroup
  empty_pod_group = record (new_pod_group "" "" (pos 0)) {
    status = record {
      phase = unset;
      occupied_by = "";
      running = pos 0;
      succeeded = pos 0;
      failed = pos 0;
      creation_time = 0;
      schedule_start_time = 0;
    };
  }

  -- The creation of the group of a pending pod; the watch asks for a reconcile if it succeeds.
  create_for : String → String → ℤ → List Call × List (String × String)
  create_for name namespace group_size = elim (api.get_group namespace name) [
    | found pg ↦ ([], [])
    | fails (fault e) ↦ ([], [])
    | fails not_found ↦
        let pg = new_pod_group name namespace group_size in
        elim (api.create pg) [
          | none ↦ (create pg ∷ [], (namespace, name) ∷ [])
          | some e ↦ (create pg ∷ [], [])
        ]
  ]

  -- On a deleted pod the group is looked up, and `Delete` is called if that fails.
  delete_for : String → String → List Call × List (String × String)
  delete_for name namespace = elim (api.get_group namespace name) [
    | found pg ↦ ([], [])
    | fails e ↦ (delete empty_pod_group ∷ [], [])
  ]

  unfoldable pub ensure_pod_group : Option Pod → List Call × List (String × String)
  unfolding create_for delete_for
  ensure_pod_group none = ([], [])
  ensure_pod_group (some pod) =
      let name = api.group_label pod in
      if str_eq name ""
      then ([], [])
      else if not (pod.deletion_timestamp == 0)
      then delete_for name pod.namespace
      else if not (pending_phase pod.phase)
      then ([], [])
      else elim (parse_int32 (get_pod_group_size pod)) [
        | none ↦ ([], [])
        | some group_size ↦ create_for name pod.namespace group_size
      ]
