-- ===== src/Admission.antt =====
-- A pod's way from the webhook through the controller to the plugin.
pub mod Found
mod Examples
use Prim.Native.String.{◌++◌}
use mathlib.Core.Option.{get_or, some_inj}
use text.Mathlib.TextLemmas.{append-ne-nil_of_right_ne-nil}
use flux_k8s.Base.{
  ℕ, ◌+◌, ◌-◌, ◌^◌, ◌<◌, ◌≤ℤ◌, String, List, [], ◌∷◌, none, some, ℤ, pos, false, ◌≡◌, ◌≢◌, ◌↔◌,
  refl, ap, sym, ◌∙◌, done, length, count_if, subst, str_ne, inl, inr, get,
}
use flux_k8s.Base.Decimal.{parse_int32}
use flux_k8s.Base.Run.{Ensures-done}
use flux_k8s.Kube.{Pod, PodPhase, PodGroup, PodGroupSpec}
use flux_k8s.Labels.{get_pod_group_label, pod_group_label, namespaced}
use flux_k8s.Webhook.{ensure_group}
use flux_k8s.Webhook.Laws.{ensure_group_lem}
use flux_k8s.Controller.Server.{Api, fails, not_found, create}
use flux_k8s.Controller.Watch.{ensure_pod_group, new_pod_group}
use flux_k8s.Controller.Rounds.{rounds, created}
use flux_k8s.Controller.Keeps.{IsKept, rounds-IsKept}
use flux_k8s.Controller.Watch.Admitted.{group_of, size_of, admitted_then_watched}
use flux_k8s.Scheduler.World.{World, Cluster}
use flux_k8s.Scheduler.Groups.{is_assigned, snapshot_pods, get_pod_group}
use flux_k8s.Scheduler.Flux.{Manager}
use flux_k8s.Scheduler.Manager.{get_pod_node}
use flux_k8s.Scheduler.Manager.Held.{too_few}
use flux_k8s.Scheduler.Plugin.{Code, permit, pre_filter}
use flux_k8s.Scheduler.Plugin.Assignment.{held_back_refused}
use flux_k8s.Scheduler.Plugin.Gang.{permit-success_iff}
use flux_k8s.Admission.Found.{IsFound, admitted_permit, admitted_held_back}

-- The scheduler finds the group of the pod as it is some reconciles after the watch has created it,
-- on a server that keeps the status as a subresource and drops it from what is created.
pub record IsServed (api : Api) (c : Cluster) (p : Pod) (size : ℤ) (pg : PodGroup) : Type 0 where
  pub created_at : ℕ
  pub reconciles : ℕ
  pub reconciled :
      rounds api p.namespace
        (group_of p)
        reconciles
        (some (created created_at (new_pod_group api (group_of p) p.namespace size)))
      ≡ some pg
  pub found : c.get_group p.namespace (group_of p) ≡ some pg

IsServed-IsFound :
    (api : Api) (c : Cluster) (p : Pod) (size : ℤ) (pg : PodGroup)
    → IsServed api c p size pg
    → IsFound c p size pg
IsServed-IsFound api c p size pg served =
    let stored = created served.created_at (new_pod_group api (group_of p) p.namespace size) in
    let (name, namespace, spec) =
      subst (IsKept stored) served.reconciled
        (rounds-IsKept api p.namespace (group_of p) served.reconciles stored) in
    record {
      found = served.found;
      name = name;
      namespace = namespace;
      min_member = ap (λ (x : PodGroupSpec). x.min_member) spec;
    }

module _ (api : Api) (api_law : (pod : Pod) → api.group_label pod ≡ get_pod_group_label pod)
    (before c : Cluster)
    (before_law : (pod : Pod) → before.group_label pod ≡ get_pod_group_label pod)
    (label_law : (pod : Pod) → c.group_label pod ≡ get_pod_group_label pod) where
  -- With a library that reads the label of the group as the plugin does, for a pending pod that is not
  -- being deleted, whose group has a name and is not found, whose size is a 32-bit number, and whose
  -- group can be created: the webhook admits the pod, and the watch creates its group with that size.
  -- While the scheduler finds the group as it is after any number of reconciles, on a server that
  -- keeps the status as a subresource and drops it from what is created, `PreFilter` holds the pod
  -- back, when it has no node and its group is not backed off, as long as fewer pods than the size
  -- are listed; and on a snapshot of fewer than 2^31 - 1 pods `Permit` answers with success exactly
  -- when the pods of the group with a node and this one are at least as many as the size.
  pub admitted_then_ganged :
      (w : World) (p : Pod) (size : ℤ) (pg1 pg2 : PodGroup) (pods waiting : List Pod) (timeout : ℤ)
      (state state' : w.State) (m : Manager w)
      → p.deletion_timestamp ≡ 0
      → p.phase ≡ PodPhase.pending
      → group_of p ≢ ""
      → parse_int32 (size_of p) ≡ some size
      → api.get_group p.namespace (group_of p) ≡ fails not_found
      → api.create (new_pod_group api (group_of p) p.namespace size) ≡ none
      → IsServed api before p size pg1
      → get p.name m.pod_to_node ≡ none
      → w.is_cached before.now (namespaced p.namespace (group_of p)) m.backed_off ≡ false
      → before.list_pods p.namespace (group_of p) ≡ some pods
      → ¬ (size ≤ℤ pos (length pods))
      → IsServed api c p size pg2
      → length (snapshot_pods c) < 2 ^ 31 - 1
      → (q : Pod) × (ensure_group p ≡ done q)
        × (ensure_pod_group api (some q) ≡ (
          create (new_pod_group api (group_of p) p.namespace size) ∷ [],
          (p.namespace, group_of p) ∷ [],
        ))
        × (pre_filter w before q state m
            ≡ done (record {
              manager = m;
              state = state;
              node_names = none;
              code = Code.unschedulable_and_unresolvable;
            }))
        × (((permit w c q waiting timeout state').code ≡ Code.success) ↔ (
            size ≤ℤ pos (count_if (is_assigned c (group_of p) p.namespace) (snapshot_pods c) + 1)))
  admitted_then_ganged w p size pg1 pg2 pods waiting timeout state state' m alive pending named
        sized missing created first unplaced calm listed few second small =
      let (q, admitted, watched) =
        admitted_then_watched api p size api_law alive pending named sized missing created in
      (
        q,
        admitted,
        watched,
        admitted_held_back before before_law w p q size pg1 pods state m admitted named
            (IsServed-IsFound api before p size pg1 first) unplaced calm listed few,
        admitted_permit c label_law w p q size pg2 waiting timeout state' admitted named
            (IsServed-IsFound api c p size pg2 second) small,
      )
