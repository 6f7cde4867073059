-- ===== src/Controller.antt =====
-- sig-scheduler-plugins/pkg/controllers/podgroup_controller.go: the reconciler of PodGroups, and the
-- watch on pods that creates them. A call of the API server is recorded in order; what the server
-- answers is a parameter.
pub mod Server
pub mod Status
pub mod Progress
pub mod Rounds
pub mod Keeps
pub mod Size
pub mod Program
pub mod Watch
pub mod Owners
mod Examples
use flux_k8s.Base.{
  ℕ, ◌+◌, String, Bool, true, false, ◌&&◌, ◌||◌, not, List, [], ◌∷◌, Option, none, some, ℤ, pos,
  ltb_ℤ, leb_ℤ, eqb_ℤ, int32, int64, ◌+ℤ◌, ◌-ℤ◌, ◌==◌, ltb, str_eq, length, if◌then◌else◌,
}
use flux_k8s.Base.Decimal.{parse_int32}
use flux_k8s.Kube.{
  Pod, PodPhase, PodGroup, PodGroupPhase, unset, pending, scheduling, running, finished, failed,
  is_finished, is_failed, is_pending, is_scheduling,
}
use flux_k8s.Labels.{read_label, get_pod_group_size, pod_group_time_created}
use Status.{next_group}
use Server.{
  Api, Fault, not_found, fault, Answer, found, fails, Call, status_update, patch, delete, create,
  event, Result,
}

-- `metav1.MicroTime.Sub` in nanoseconds, saturating as `time.Time.Sub` does.
abbrev max_int64 : ℤ
max_int64 = pos 9223372036854775807

abbrev min_int64 : ℤ
min_int64 = pos 0 -ℤ pos 9223372036854775808

pub sub_time : ℕ → ℕ → ℤ
sub_time a b =
    let d = pos a -ℤ pos b in
    if ltb_ℤ max_int64 d then max_int64 else if ltb_ℤ d min_int64 then min_int64 else d

abbrev pub two_days : ℤ
two_days = pos 172800000000000

abbrev pub first_label : List Pod → String → Option String
first_label [] key = none
first_label (pod ∷ pods) key = read_label pod.labels key

abbrev pub parsed_or {ℓ} : {A : Type ℓ} → Option A → A → A
parsed_or none other = other
parsed_or (some a) other = a

module _ (api : Api) where
  -- `r.Status().Update` and `r.Patch`: the update's error is dropped, and its answer replaces the
  -- object that is patched.
  update_and_patch : PodGroup → PodGroup → List Call × Result
  update_and_patch old pg =
      let new = api.status_update pg in
      (status_update pg ∷ patch old new ∷ [], record { requeue = true; error = api.patch old new })

  pub parse_time : Option String → Option ℕ
  parse_time none = none
  parse_time (some s) = api.unmarshal_time s

  set_time_created : PodGroup → List Pod → ℕ → List Call × Result
  set_time_created pg pods timestamp =
      let time = parsed_or (parse_time (first_label pods pod_group_time_created)) timestamp in
      update_and_patch pg (record pg { status = record (pg.status) { creation_time = time } })

  -- A missing label is the empty text, which does not parse.
  label_size : List Pod → Option ℤ
  label_size [] = none
  label_size (pod ∷ pods) = parse_int32 (get_pod_group_size pod)

  update_pod_group_size : PodGroup → ℤ → List Pod → List Call × Result
  update_pod_group_size old size pods =
      update_and_patch old
        (record old { spec = record (old.spec) { min_member = parsed_or (label_size pods) size } })

  update_status : PodGroup → List Pod → List Call × Result
  update_status pg pods =
      let new = next_group pg pods in
      if is_finished new.status.phase || is_failed new.status.phase
      then (delete new ∷ [], record { requeue = false; error = api.delete new })
      else update_and_patch pg new

  -- The steps of `Reconcile` on a group, once its pods are listed.
  reconcile_pods : PodGroup → Answer (List Pod) → List Call × Result
  reconcile_pods pg (fails e) = ([], record { requeue = false; error = some e })
  reconcile_pods pg (found pods) =
      if pg.status.creation_time == 0
      then set_time_created pg pods api.now
      else if eqb_ℤ pg.spec.min_member (pos 0)
      then update_pod_group_size pg (int32 (pos (length pods))) pods
      else update_status pg pods

  reconcile_found : PodGroup → List Call × Result
  reconcile_found pg =
      let phase = pg.status.phase in
      let scheduling_or_pending = is_scheduling phase || is_pending phase in
      let two_days_old =
        ltb_ℤ two_days (sub_time pg.status.schedule_start_time pg.creation_timestamp) in
      let finished_or_failed = is_finished phase || is_failed phase in
      if finished_or_failed
      then ([], record { requeue = false; error = none })
      else if scheduling_or_pending && eqb_ℤ pg.status.running (pos 0) && two_days_old
      then (event pg "Timeout" ∷ [], record { requeue = false; error = none })
      else reconcile_pods pg (api.list_pods pg.name)

  pub reconcile : String → String → List Call × Result
  reconcile namespace name = elim (api.get_group namespace name) [
    | found pg ↦ reconcile_found pg
    | fails not_found ↦ ([], record { requeue = false; error = none })
    | fails (fault e) ↦ ([], record { requeue = false; error = some (fault e) })
  ]
