-- ===== src/Webhook/Examples.antt =====
-- Runs of the webhook.
use flux_k8s.Base.{
  String, [], ◌∷◌, none, some, pos, ◌≡◌, ◌≢◌, ◌↔◌, refl, done, failed, panic, arith,
}
use flux_k8s.Base.Decimal.{format, parse_int32}
use flux_k8s.Kube.{Pod, PodPhase}
use flux_k8s.Labels.{read_label, pod_group_label, pod_group_size_label, get_pod_group_size}
use flux_k8s.Webhook.{
  Job, Workload, Object, ensure_group, ensure_group_on_job, ensure_group_stateful_set,
  ensure_group_deployment, ensure_group_replica_set, default, or_default, get_job_label,
  default_group,
}
use flux_k8s.Webhook.Laws.{with_group, ensure_group_lem, ensure_group_on_job_lem}
use flux_k8s.Webhook.Workloads.{Crashes, ensure_group_workload_lem, default-panic_iff}
use flux_k8s.Webhook.Sizes.{job_size_parses}

abbrev plain : Pod
plain = record {
  name = "p";
  namespace = "default";
  uid = "p";
  labels = none;
  owner_references = [];
  deletion_timestamp = 0;
  node_name = "";
  containers = [];
  phase = PodPhase.pending;
}

abbrev labelled : Pod
labelled = record plain {
  labels =
      some
        (("scheduling.x-k8s.io/pod-group", "fluence-group-p") ∷ ("fluence.group-size", "1") ∷ []);
}

abbrev job : Job
job = record {
  name = "j";
  namespace = "default";
  labels = none;
  template_labels = none;
  parallelism = some (pos 4);
}

abbrev set : Workload
set = record {
  name = "s";
  namespace = "default";
  labels = none;
  template_labels = some [];
  replicas = some (pos 3);
}

ensure_group_lem_example :
    (q : Pod) × (ensure_group plain ≡ done q)
    × ((key : String) → read_label q.labels key ≡ with_group none "fluence-group-p" "1" key)
    × (record q { labels = none } ≡ plain)
unfolding read_label
ensure_group_lem_example = ensure_group_lem plain

ensure_group_on_job_lem_example :
    (j : Job) × (ensure_group_on_job job ≡ done j)
    × ((key : String)
        → read_label j.template_labels key
          ≡ with_group none
              (get_job_label job pod_group_label (default_group "default" "j"))
              (get_job_label job pod_group_size_label (format (pos 4)))
              key)
    × ((p : Pod) → p.labels ≡ j.template_labels → ensure_group p ≡ done p)
ensure_group_on_job_lem_example = ensure_group_on_job_lem job (pos 4) refl

job_size_parses_example :
    (j : Job) × (ensure_group_on_job job ≡ done j)
    × ((p : Pod)
        → read_label p.labels pod_group_size_label
          ≡ read_label j.template_labels pod_group_size_label
        → parse_int32 (get_pod_group_size p) ≡ some (pos 4))
unfolding read_label
job_size_parses_example = job_size_parses job (pos 4) (omega arith, omega arith) refl refl refl

default-panic_iff_example :
    ((default (Object.job job) ≡ panic) ↔ Crashes (Object.job job))
    × ((e : String) → default (Object.job job) ≢ failed e)
default-panic_iff_example = default-panic_iff (Object.job job)

ensure_group_workload_lem_example :
    (v : Workload) × (ensure_group_stateful_set set ≡ done v)
    × (ensure_group_deployment set ≡ done v)
    × (ensure_group_replica_set set ≡ done v)
    × ((key : String)
        → read_label v.template_labels key
          ≡ with_group
              (some [])
              (or_default (read_label set.labels pod_group_label) (default_group "default" "s"))
              (or_default (read_label set.labels pod_group_size_label) (format (pos 3)))
              key)
ensure_group_workload_lem_example = ensure_group_workload_lem set [] (pos 3) refl refl
