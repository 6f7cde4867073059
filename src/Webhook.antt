-- ===== src/Webhook.antt =====
-- sig-scheduler-plugins/apis/scheduling/v1alpha1/podgroup_webhook.go: the mutating webhook puts a
-- group name and a group size on every pod, or on the pod template of what makes pods.
pub mod Laws
pub mod Workloads
pub mod Sizes
mod Examples
use Prim.Native.String.{◌++◌}
use flux_k8s.Base.{
  String, Option, none, some, ℤ, pos, eqb_ℤ, Map, [], put, if◌then◌else◌, done, failed, panic,
  ◌>>=◌,
}
use flux_k8s.Base.Run.{Run, deref}
use flux_k8s.Base.Decimal.{format}
use flux_k8s.Kube.{Labels, Pod}
use flux_k8s.Labels.{read_label, pod_group_label, pod_group_size_label}

pub record Job : Type 0 where
  pub name : String
  pub namespace : String
  pub labels : Labels
  pub template_labels : Labels
  pub parallelism : Option ℤ  -- *int32

-- A StatefulSet, a Deployment or a ReplicaSet: the handlers read the same fields of each.
pub record Workload : Type 0 where
  pub name : String
  pub namespace : String
  pub labels : Labels
  pub template_labels : Labels
  pub replicas : Option ℤ  -- *int32

-- `if labels == nil { labels = map[string]string{} }`
abbrev pub make_labels : Labels → Labels
make_labels none = some []
make_labels (some m) = some m

-- `labels[key] = value` panics on a nil map.
unfoldable pub write_label : Labels → String → String → Run Labels
write_label none key value = panic
write_label (some m) key value = done (some (put key value m))

ensure_label : Labels → String → String → Run Labels
unfolding write_label read_label
ensure_label labels key value = elim (read_label labels key) [
  | some _ ↦ done labels
  | none ↦ write_label labels key value
]

unfoldable pub ensure_group : Pod → Run Pod
unfolding ensure_label
ensure_group pod = do
  named ← ensure_label (make_labels pod.labels) pod_group_label ("fluence-group-" ++ pod.name)
  sized ← ensure_label named pod_group_size_label "1"
  done (record pod { labels = sized })

abbrev pub or_else : Option String → Option String → Option String
or_else none second = second
or_else (some s) second = some s

abbrev pub or_default : Option String → String → String
or_default none value = value
or_default (some s) value = s

-- The job's own label comes first, then that of its pod template.
unfoldable pub get_job_label : Job → String → String → String
unfolding read_label
get_job_label job key value =
    or_default (or_else (read_label job.labels key) (read_label job.template_labels key)) value

abbrev pub at_least_one : ℤ → ℤ
at_least_one size = if eqb_ℤ size (pos 0) then pos 1 else size

abbrev pub default_group : String → String → String
default_group namespace name = "fluence-group-" ++ namespace ++ "-" ++ name

unfoldable pub ensure_group_on_job : Job → Run Job
unfolding get_job_label write_label
ensure_group_on_job job = do
  let made = record job {
    template_labels = make_labels job.template_labels;
    labels = make_labels job.labels;
  }
  let group_name = get_job_label made pod_group_label (default_group job.namespace job.name)
  named ← write_label made.template_labels pod_group_label group_name
  let grouped = record made { template_labels = named }
  parallelism ← deref job.parallelism
  let group_size = get_job_label grouped pod_group_size_label (format (at_least_one parallelism))
  sized ← write_label named pod_group_size_label group_size
  done (record grouped { template_labels = sized })

unfoldable pub ensure_group_stateful_set : Workload → Run Workload
unfolding read_label write_label
ensure_group_stateful_set set = do
  let labels = make_labels set.labels
  let group_name =
      or_default (read_label labels pod_group_label) (default_group set.namespace set.name)
  named ← write_label set.template_labels pod_group_label group_name
  size ← deref set.replicas
  let group_size = or_default (read_label labels pod_group_size_label) (format (at_least_one size))
  sized ← write_label named pod_group_size_label group_size
  done (record set { labels = labels; template_labels = sized })

unfoldable pub ensure_group_replica_set : Workload → Run Workload
unfolding read_label write_label
ensure_group_replica_set set = do
  let labels = make_labels set.labels
  let group_name =
      or_default (read_label labels pod_group_label) (default_group set.namespace set.name)
  named ← write_label set.template_labels pod_group_label group_name
  size ← deref set.replicas
  let group_size = or_default (read_label labels pod_group_size_label) (format (at_least_one size))
  sized ← write_label named pod_group_size_label group_size
  done (record set { labels = labels; template_labels = sized })

unfoldable pub ensure_group_deployment : Workload → Run Workload
unfolding read_label write_label
ensure_group_deployment d = do
  let labels = make_labels d.labels
  let group_name = or_default (read_label labels pod_group_label) (default_group d.namespace d.name)
  named ← write_label d.template_labels pod_group_label group_name
  size ← deref d.replicas
  let group_size = or_default (read_label labels pod_group_size_label) (format (at_least_one size))
  sized ← write_label named pod_group_size_label group_size
  done (record d { labels = labels; template_labels = sized })

-- `runtime.Object`, by the cases of the type switch.
pub data Object : Type 0 where
  job : Job → Object
  pod : Pod → Object
  stateful_set : Workload → Object
  deployment : Workload → Object
  replica_set : Workload → Object
  no_match : Object

unfoldable pub default : Object → Run Object
unfolding ensure_group_on_job ensure_group ensure_group_stateful_set ensure_group_deployment
    ensure_group_replica_set
default (job j) = do j' ← ensure_group_on_job j; done (job j')
default (pod p) = do p' ← ensure_group p; done (pod p')
default (stateful_set s) = do s' ← ensure_group_stateful_set s; done (stateful_set s')
default (deployment d) = do d' ← ensure_group_deployment d; done (deployment d')
default (replica_set s) = do s' ← ensure_group_replica_set s; done (replica_set s')
default no_match = done no_match

-- The admission library's decoder and the JSON encoder, which are not part of the source: `none` is
-- an error. `Raw` is a request's object.
pub record Codec (Raw : Type 0) : Type 0 where
  pub decode_job : Raw → Option Job
  pub decode_pod : Raw → Option Pod
  pub decode_stateful_set : Raw → Option Workload
  pub decode_deployment : Raw → Option Workload
  pub decode_replica_set : Raw → Option Workload
  pub marshal : Object → Option Raw

pub data Response (Raw : Type 0) : Type 0 where
  errored : ℤ → Response Raw
  patch_response : Raw → Raw → Response Raw
  allowed : Response Raw

module _ {Raw : Type 0} (codec : Codec Raw) (raw : Raw) where
  -- What follows a successful decoding.
  respond : Run Object → Run (Response Raw)
  respond (done o) = elim (codec.marshal o) [
    | none ↦ done (errored (pos 500))
    | some marshalled ↦ done (patch_response raw marshalled)
  ]
  respond (failed e) = done (errored (pos 400))
  respond panic = panic

  handle_replica_set : Run (Response Raw)
  handle_replica_set = elim (codec.decode_replica_set raw) [
    | some s ↦ respond (default (replica_set s))
    | none ↦ done allowed
  ]

  handle_deployment : Run (Response Raw)
  handle_deployment = elim (codec.decode_deployment raw) [
    | some d ↦ respond (default (deployment d))
    | none ↦ handle_replica_set
  ]

  handle_stateful_set : Run (Response Raw)
  handle_stateful_set = elim (codec.decode_stateful_set raw) [
    | some s ↦ respond (default (stateful_set s))
    | none ↦ handle_deployment
  ]

  handle_pod : Run (Response Raw)
  handle_pod = elim (codec.decode_pod raw) [
    | some p ↦ respond (default (pod p))
    | none ↦ handle_stateful_set
  ]

  unfoldable pub handle : Run (Response Raw)
  unfolding respond handle_pod handle_stateful_set handle_deployment handle_replica_set
  handle = elim (codec.decode_job raw) [ some j ↦ respond (default (job j)) | none ↦ handle_pod ]
