-- ===== src/Webhook/Laws.antt =====
-- The labels that the webhook leaves on a pod and on the pod template of a job.
use Prim.Native.String.{◌++◌}
use flux_k8s.Base.{
  String, Option, none, some, ◌≡◌, refl, str_eq, get-put, if◌then◌else◌, done, ℤ, Option-cases, put,
  get, Map, get-put_self, ◌∙◌, inl, inr, str-cases, [],
}
use flux_k8s.Base.Decimal.{format}
use flux_k8s.Kube.{Labels, Pod}
use flux_k8s.Labels.{read_label, pod_group_label, pod_group_size_label}
use flux_k8s.Webhook.{
  Job, make_labels, ensure_label, ensure_group, or_else, or_default, get_job_label, at_least_one,
  default_group, ensure_group_on_job,
}

-- What `labels` reads at a key, once the two group labels hold `group` and `size`.
abbrev pub with_group : Labels → String → String → String → Option String
with_group labels group size key =
    if str_eq pod_group_size_label key
    then some size
    else if str_eq pod_group_label key
    then some group
    else read_label labels key

ensure_label_lem :
    (m : Map String) (key value : String)
    → (m' : Map String) × (ensure_label (some m) key value ≡ done (some m'))
      × ((j : String)
          → get j m' ≡ (if str_eq key j then some (or_default (get key m) value) else get j m))
unfolding ensure_label
ensure_label_lem m key value = elim (Option-cases (get key m)) [
  | inl e ↦ (put key value m, rw (e, ensure_label), λ j. rw e (get-put key j value m))
  | inr (v, e) ↦ (
    m,
    rw (e, ensure_label),
    λ j. elim (str-cases key j) [ inl (same, t) ↦ rw (t, ← same, e) | inr (_, t) ↦ rw t ],
  )
]

pub get-put_group :
    (m : Map String) (group size key : String)
    → get key (put pod_group_size_label size (put pod_group_label group m))
      ≡ with_group (some m) group size key
unfolding read_label
get-put_group m group size key =
    rw (get-put pod_group_size_label key size (put pod_group_label group m))
      (rw (get-put pod_group_label key group m) refl)

pub read_label-make_labels :
    (labels : Labels) (key : String) → read_label (make_labels labels) key ≡ read_label labels key
unfolding read_label
read_label-make_labels none key = refl
read_label-make_labels (some m) key = refl

make_labels_lem :
    (labels : Labels)
    → (m : Map String) × (make_labels labels ≡ some m)
      × ((j : String) → get j m ≡ read_label labels j)
unfolding read_label
make_labels_lem none = ([], refl, λ j. refl)
make_labels_lem (some m) = (m, refl, λ j. refl)

-- The webhook admits every pod. The pod keeps the group and the size that its labels name; without
-- them it gets the group "fluence-group-<name>" and the size 1. No other label and no other field
-- changes.
pub ensure_group_lem :
    (p : Pod)
    → (q : Pod) × (ensure_group p ≡ done q)
      × ((key : String)
          → read_label q.labels key
            ≡ with_group p.labels
                (or_default (read_label p.labels pod_group_label) ("fluence-group-" ++ p.name))
                (or_default (read_label p.labels pod_group_size_label) "1")
                key)
      × (record q { labels = p.labels } ≡ p)
unfolding ensure_group read_label
ensure_group_lem p =
    let (m, made, reads) = make_labels_lem p.labels in
    let (m1, named, reads1) = ensure_label_lem m pod_group_label ("fluence-group-" ++ p.name) in
    let (m2, sized, reads2) = ensure_label_lem m1 pod_group_size_label "1" in
    (
      record p { labels = some m2 },
      rw (made, named, sized) refl,
      λ key.
          rw
            (
              reads2 key,
              reads1 key,
              reads1 pod_group_size_label,
              reads key,
              reads pod_group_label,
              reads pod_group_size_label,
            )
            refl,
      refl,
    )

ensure_label_present :
    (m : Map String) (key value v : String)
    → get key m ≡ some v
    → ensure_label (some m) key value ≡ done (some m)
unfolding ensure_label
ensure_label_present m key value v e = rw (e, ensure_label) refl

-- A pod that has both labels passes unchanged.
ensure_group_labelled :
    (p : Pod) (m : Map String) {g n : String}
    → p.labels ≡ some m
    → get pod_group_label m ≡ some g
    → get pod_group_size_label m ≡ some n
    → ensure_group p ≡ done p
unfolding ensure_group
ensure_group_labelled p m {g} {n} e eg en = rw (
  e,
  ensure_label_present m pod_group_label ("fluence-group-" ++ p.name) g eg,
  ensure_label_present m pod_group_size_label "1" n en,
)

-- A second pass of the webhook over a pod changes nothing.
pub ensure_group_idempotent : (p q : Pod) → ensure_group p ≡ done q → ensure_group q ≡ done q
unfolding ensure_group
ensure_group_idempotent p q e =
    let (m, made, reads) = make_labels_lem p.labels in
    let (m1, named, reads1) = ensure_label_lem m pod_group_label ("fluence-group-" ++ p.name) in
    let (m2, sized, reads2) = ensure_label_lem m1 pod_group_size_label "1" in
    let e' = rw (made, named, sized) at e in
    ensure_group_labelled q m2 (cc e') (reads2 pod_group_label ∙ reads1 pod_group_label)
      (reads2 pod_group_size_label)

-- The labels of the job and of its template, where a group label is looked up.
label_of_job : Map String → Map String → String → String → String
label_of_job l m key value = or_default (or_else (get key l) (get key m)) value

ensure_group_on_job_maps :
    (j : Job) (n : ℤ) (l m : Map String)
    → make_labels j.labels ≡ some l
    → make_labels j.template_labels ≡ some m
    → j.parallelism ≡ some n
    → let group = label_of_job l m pod_group_label (default_group j.namespace j.name) in
      let size = label_of_job l m pod_group_size_label (format (at_least_one n)) in
      ensure_group_on_job j
      ≡ done (record j {
        labels = some l;
        template_labels = some (put pod_group_size_label size (put pod_group_label group m));
      })
unfolding ensure_group_on_job label_of_job
ensure_group_on_job_maps j n l m el em e =
    rw (el, em, e, get-put pod_group_label pod_group_size_label _ m) refl

get_job_label_maps :
    (j : Job) (l m : Map String) (key value : String)
    → ((k : String) → get k l ≡ read_label j.labels k)
    → ((k : String) → get k m ≡ read_label j.template_labels k)
    → label_of_job l m key value ≡ get_job_label j key value
unfolding get_job_label label_of_job
get_job_label_maps j l m key value el em = rw (el key, em key) refl

-- A job with a parallelism is admitted. Its pod template gets the group that the job's labels name,
-- else the one that the template names, else "fluence-group-<namespace>-<name>"; the size likewise,
-- with the parallelism (1 for 0) as the default. The template's other labels stay. A pod made with
-- the template's labels then passes the webhook unchanged.
pub ensure_group_on_job_lem :
    (j : Job) (n : ℤ)
    → j.parallelism ≡ some n
    → (j' : Job) × (ensure_group_on_job j ≡ done j')
      × ((key : String)
          → read_label j'.template_labels key
            ≡ with_group j.template_labels
                (get_job_label j pod_group_label (default_group j.namespace j.name))
                (get_job_label j pod_group_size_label (format (at_least_one n)))
                key)
      × ((p : Pod) → p.labels ≡ j'.template_labels → ensure_group p ≡ done p)
unfolding read_label
ensure_group_on_job_lem j n e =
    let (m, em, reads) = make_labels_lem j.template_labels in
    let (l, el, reads_l) = make_labels_lem j.labels in
    let default_name = default_group j.namespace j.name in
    let group = label_of_job l m pod_group_label default_name in
    let size = label_of_job l m pod_group_size_label (format (at_least_one n)) in
    let m1 = put pod_group_label group m in
    (
      record j { labels = some l; template_labels = some (put pod_group_size_label size m1) },
      ensure_group_on_job_maps j n l m el em e,
      λ key.
          rw
            (
              get-put_group m group size key,
              reads key,
              get_job_label_maps j l m pod_group_label default_name reads_l reads,
              get_job_label_maps j l m pod_group_size_label (format (at_least_one n)) reads_l reads,
            )
            refl,
      λ p labels.
          ensure_group_labelled p (put pod_group_size_label size m1) labels
            (get-put pod_group_size_label pod_group_label size m1
              ∙ get-put_self pod_group_label group m)
            (get-put_self pod_group_size_label size m1),
    )
