-- ===== src/Webhook/Sizes.antt =====
-- The size label that the webhook writes is the number that the controller reads from it.
use flux_k8s.Base.{ℤ, none, some, ◌≡◌, done, ◌∙◌, IsInt32, arith}
use flux_k8s.Base.Decimal.{parse_int32}
use flux_k8s.Base.Decimal.RoundTrip.{parse_int32-format}
use flux_k8s.Kube.{Pod}
use flux_k8s.Labels.{read_label, get_pod_group_size, pod_group_size_label}
use flux_k8s.Webhook.{Job, ensure_group_on_job, get_job_label, at_least_one}
use flux_k8s.Webhook.Laws.{ensure_group_on_job_lem}

at_least_one-IsInt32 : (n : ℤ) → IsInt32 n → IsInt32 (at_least_one n)
at_least_one-IsInt32 n h = ground arith

-- A job of an int32 parallelism, with no size label of its own or of its template, is admitted; on
-- every pod that has the template's size label, whatever its other labels, the controller parses the
-- parallelism as the group's size, or 1 for a parallelism of 0.
pub job_size_parses :
    (j : Job) (n : ℤ)
    → IsInt32 n
    → j.parallelism ≡ some n
    → read_label j.labels pod_group_size_label ≡ none
    → read_label j.template_labels pod_group_size_label ≡ none
    → (j' : Job) × (ensure_group_on_job j ≡ done j')
      × ((p : Pod)
          → read_label p.labels pod_group_size_label
            ≡ read_label j'.template_labels pod_group_size_label
          → parse_int32 (get_pod_group_size p) ≡ some (at_least_one n))
unfolding get_job_label get_pod_group_size
job_size_parses j n range e own template =
    let (j', admitted, reads, _) = ensure_group_on_job_lem j n e in
    (
      j',
      admitted,
      λ p label.
          rw (label ∙ reads pod_group_size_label, own, template)
            (parse_int32-format (at_least_one n) (at_least_one-IsInt32 n range)),
    )
