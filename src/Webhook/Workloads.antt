-- ===== src/Webhook/Workloads.antt =====
-- StatefulSets, Deployments and ReplicaSets, and when the webhook's handler panics.
use flux_k8s.Base.{
  String, none, some, ◌≡◌, refl, done, failed, panic, ℤ, Map, put, arith, ◌↔◌, ◌⊎◌, ◌≢◌,
}
use flux_k8s.Base.Decimal.{format}
use flux_k8s.Labels.{read_label, pod_group_label, pod_group_size_label}
use flux_k8s.Webhook.{
  Workload, Object, job, pod, stateful_set, deployment, replica_set, no_match, make_labels,
  write_label, or_default, at_least_one, default_group, ensure_group_stateful_set,
  ensure_group_deployment, ensure_group_replica_set, default,
}
use flux_k8s.Webhook.Laws.{with_group, ensure_group_lem, get-put_group, read_label-make_labels}

-- A workload whose pod template has labels, and with a number of replicas, is admitted, alike for
-- the three kinds. The template gets the group that the workload's own labels name, else
-- "fluence-group-<namespace>-<name>", whatever the template named before; so too the size, with
-- the replicas (1 for 0) as the default. The template's other labels stay.
pub ensure_group_workload_lem :
    (w : Workload) (t : Map String) (n : ℤ)
    → w.template_labels ≡ some t
    → w.replicas ≡ some n
    → (w' : Workload) × (ensure_group_stateful_set w ≡ done w')
      × (ensure_group_deployment w ≡ done w')
      × (ensure_group_replica_set w ≡ done w')
      × ((key : String)
          → read_label w'.template_labels key
            ≡ with_group
                (some t)
                (or_default
                  (read_label w.labels pod_group_label)
                  (default_group w.namespace w.name))
                (or_default (read_label w.labels pod_group_size_label) (format (at_least_one n)))
                key)
unfolding ensure_group_stateful_set ensure_group_deployment ensure_group_replica_set read_label
ensure_group_workload_lem w t n et en =
    let group =
      or_default (read_label w.labels pod_group_label) (default_group w.namespace w.name) in
    let size = or_default (read_label w.labels pod_group_size_label) (format (at_least_one n)) in
    let same = read_label-make_labels w.labels in
    (
      record w {
        labels = make_labels w.labels;
        template_labels = some (put pod_group_size_label size (put pod_group_label group t));
      },
      rw (same pod_group_label, same pod_group_size_label, et, en) refl,
      rw (same pod_group_label, same pod_group_size_label, et, en) refl,
      rw (same pod_group_label, same pod_group_size_label, et, en) refl,
      get-put_group t group size,
    )

-- What makes the webhook's handler panic: a job without a parallelism, and a workload without a
-- number of replicas or whose pod template has no labels.
abbrev pub Crashes : Object → Type 0
Crashes (job j) = j.parallelism ≡ none
Crashes (pod p) = ⊥
Crashes (stateful_set w) = (w.template_labels ≡ none) ⊎ (w.replicas ≡ none)
Crashes (deployment w) = (w.template_labels ≡ none) ⊎ (w.replicas ≡ none)
Crashes (replica_set w) = (w.template_labels ≡ none) ⊎ (w.replicas ≡ none)
Crashes no_match = ⊥

-- `Default` returns no error, and panics exactly on the objects of `Crashes`.
pub default-panic_iff :
    (o : Object) → ((default o ≡ panic) ↔ Crashes o) × ((e : String) → default o ≢ failed e)
unfolding default write_label
default-panic_iff (job j) = ground arith
default-panic_iff (pod p) = let (q, e, _, _) = ensure_group_lem p in rw (e, default) (ground arith)
default-panic_iff (stateful_set w) = ground arith
default-panic_iff (deployment w) = ground arith
default-panic_iff (replica_set w) = ground arith
default-panic_iff no_match = ground arith
