-- ===== src/Admission/Examples.antt =====
-- A pod that asks for a group of two.
use flux_k8s.Base.{
  ◌+◌, ◌≤ℤ◌, [], ◌∷◌, none, some, pos, ◌≡◌, ◌↔◌, refl, done, count_if, ne_str, get, arith,
}
use flux_k8s.Base.Decimal.{parse_int32}
use flux_k8s.Kube.{Pod, PodGroup}
use flux_k8s.Labels.{get_pod_group_label, read_label}
use flux_k8s.Webhook.{ensure_group}
use flux_k8s.Controller.Server.{Api, fails, found, not_found, create}
use flux_k8s.Controller.Watch.{ensure_pod_group, new_pod_group}
use flux_k8s.Controller.Rounds.{created}
use flux_k8s.Scheduler.World.{Cluster}
use flux_k8s.Scheduler.Groups.{is_assigned, snapshot_pods}
use flux_k8s.Scheduler.Plugin.{Code, permit, pre_filter}
use flux_k8s.Scheduler.Toy.{toy}
use flux_k8s.Scheduler.Examples.{pod_named, idle}
use flux_k8s.Admission.{IsServed, admitted_then_ganged}

abbrev applied : Pod
applied = record (pod_named "p") { labels = some (("fluence.group-size", "2") ∷ []) }

abbrev api : Api
api = record {
  get_group = λ namespace name. fails not_found;
  list_pods = λ name. found [];
  status_update = λ pg. pg;
  patch = λ old pg. none;
  delete = λ pg. none;
  create = λ pg. none;
  group_label = get_pod_group_label;
  unmarshal_time = λ s. none;
  now = 7;
}

-- The group once the server has stored it.
abbrev stored : PodGroup
stored = created 9 (new_pod_group api "fluence-group-p" "default" (pos 2))

abbrev lonely : Cluster
lonely = record {
  group_label = get_pod_group_label;
  get_group = λ namespace name. some stored;
  list_pods = λ namespace label. some (applied ∷ []);
  node_infos = some ([] ∷ []);
  now = 10;
}

admitted_then_ganged_example :
    (q : Pod) × (ensure_group applied ≡ done q)
    × (ensure_pod_group api (some q) ≡ (
      create (new_pod_group api "fluence-group-p" "default" (pos 2)) ∷ [],
      ("default", "fluence-group-p") ∷ [],
    ))
    × (pre_filter toy lonely q [] idle
        ≡ done (record {
          manager = idle;
          state = [];
          node_names = none;
          code = Code.unschedulable_and_unresolvable;
        }))
    × (((permit toy lonely q [] (pos 60) []).code ≡ Code.success) ↔ (
        pos 2
        ≤ℤ pos
            (count_if (is_assigned lonely "fluence-group-p" "default") (snapshot_pods lonely) + 1)))
unfolding read_label get parse_int32 snapshot_pods
admitted_then_ganged_example =
    let known : IsServed api lonely applied (pos 2) stored = record {
      created_at = 9;
      reconciles = 0;
      reconciled = refl;
      found = refl;
    } in
    admitted_then_ganged api (λ p. refl) lonely lonely (λ p. refl) (λ p. refl) toy applied (pos 2)
      stored stored (applied ∷ []) [] (pos 60) [] [] idle refl refl
      (ne_str "fluence-group-p" "" refl) refl refl refl known refl refl refl
      (λ le. omega (arith, le)) known (omega arith)
