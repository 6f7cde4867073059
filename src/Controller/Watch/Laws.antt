-- ===== src/Controller/Watch/Laws.antt =====
-- What the watch on pods creates and deletes.
use flux_k8s.Base.{
  String, List, [], ◌∷◌, none, some, ℤ, ◌≡◌, ◌≢◌, refl, arith, ◌==◌, true, false, Bool-cases, inl,
  inr, str_ne, ==_iff, str-cases, Option-cases,
}
use flux_k8s.Base.Decimal.{parse_int32}
use flux_k8s.Kube.{Pod, PodPhase, PodGroup}
use flux_k8s.Labels.{get_pod_group_size}
use flux_k8s.Controller.Server.{Api, Fault, not_found, found, fails, Call, delete, create}
use flux_k8s.Controller.Watch.{
  new_pod_group, empty_pod_group, pending_phase, create_for, delete_for, ensure_pod_group,
}

-- When a pod of a group is being deleted the watch asks for no reconcile. It leaves a group that it
-- finds alone, and where the lookup fails it deletes an object with no name.
pub ensure_pod_group_deleted :
    (api : Api) (pod : Pod)
    → api.group_label pod ≢ ""
    → pod.deletion_timestamp ≢ 0
    → ((pg : PodGroup)
        → api.get_group pod.namespace (api.group_label pod) ≡ found pg
        → ensure_pod_group api (some pod) ≡ ([], []))
      × ((e : Fault)
          → api.get_group pod.namespace (api.group_label pod) ≡ fails e
          → ensure_pod_group api (some pod) ≡ (delete (empty_pod_group api) ∷ [], []))
unfolding ensure_pod_group
ensure_pod_group_deleted api pod hn hd =
    let en = str_ne (api.group_label pod) "" hn in
    let ed : (pod.deletion_timestamp == 0) ≡ false = ground arith in
    (λ pg e. rw (en, ed, e, delete_for) refl, λ f e. rw (en, ed, e, delete_for) refl)

create_for_lem :
    (api : Api) (name namespace : String) (size : ℤ)
    → api.get_group namespace name ≡ fails not_found
    → let pg = new_pod_group api name namespace size in
      (api.create pg ≡ none
        → create_for api name namespace size ≡ (create pg ∷ [], (namespace, name) ∷ []))
      × ((e : Fault)
          → api.create pg ≡ some e
          → create_for api name namespace size ≡ (create pg ∷ [], []))
unfolding create_for
create_for_lem api name namespace size e =
    (λ c. rw (e, c, create_for) refl, λ f c. rw (e, c, create_for) refl)

create_for_requests :
    (api : Api) (name namespace : String) (size : ℤ) {calls : List Call} {r : String × String}
    {rs : List (String × String)}
    → create_for api name namespace size ≡ (calls, r ∷ rs)
    → (api.get_group namespace name ≡ fails not_found)
      × (calls ≡ create (new_pod_group api name namespace size) ∷ [])
      × (r ≡ (namespace, name))
      × (rs ≡ [])
unfolding create_for
create_for_requests api name namespace size e = ground arith

delete_for_requests : (api : Api) (name namespace : String) → (delete_for api name namespace).1 ≡ []
unfolding delete_for
delete_for_requests api name namespace = ground arith

pending_phase_lem : (p : PodPhase) → pending_phase p ≡ true → p ≡ PodPhase.pending
pending_phase_lem PodPhase.pending h = refl
pending_phase_lem _ h = cc

-- What has to hold of a pod for its group to be created.
pub record NeedsGroup (api : Api) (pod : Pod) (size : ℤ) : Type 0 where
  pub named : api.group_label pod ≢ ""
  pub alive : pod.deletion_timestamp ≡ 0
  pub is_pending : pod.phase ≡ PodPhase.pending
  pub sized : parse_int32 (get_pod_group_size pod) ≡ some size
  pub missing : api.get_group pod.namespace (api.group_label pod) ≡ fails not_found

-- The watch creates a group exactly for a pending pod with a group label and a size label, which is
-- not being deleted and whose group is not found; the group has the name and the size of the labels
-- and the pod's namespace. A reconcile is asked for, of that group, if the creation succeeds.
pub ensure_pod_group_creates :
    (api : Api) (pod : Pod) (size : ℤ)
    → NeedsGroup api pod size
    → let name = api.group_label pod in
      let pg = new_pod_group api name pod.namespace size in
      (api.create pg ≡ none
        → ensure_pod_group api (some pod) ≡ (create pg ∷ [], (pod.namespace, name) ∷ []))
      × ((e : Fault)
          → api.create pg ≡ some e
          → ensure_pod_group api (some pod) ≡ (create pg ∷ [], []))
unfolding ensure_pod_group
ensure_pod_group_creates api pod size h =
    let en = str_ne (api.group_label pod) "" h.named in
    let ed : (pod.deletion_timestamp == 0) ≡ true = ground arith in
    let ep : pending_phase pod.phase ≡ true = rw h.is_pending refl in
    let rewritten = create_for_lem api (api.group_label pod) pod.namespace size h.missing in
    (
      λ c. rw (en, ed, ep, h.sized) (rewritten.0 c),
      λ f c. rw (en, ed, ep, h.sized) (rewritten.1 f c),
    )

-- The watch asks for a reconcile only of a group that it has created for the pod.
pub ensure_pod_group_requests :
    (api : Api) (pod : Pod) {calls : List Call} {r : String × String} {rs : List (String × String)}
    → ensure_pod_group api (some pod) ≡ (calls, r ∷ rs)
    → (size : ℤ) × NeedsGroup api pod size
      × (calls ≡ create (new_pod_group api (api.group_label pod) pod.namespace size) ∷ [])
      × (r ≡ (pod.namespace, api.group_label pod))
      × (rs ≡ [])
unfolding ensure_pod_group
ensure_pod_group_requests api pod e =
    let name = api.group_label pod in
    elim (str-cases name "") [
      | inl (_, en) ↦ cc (rw (en, ensure_pod_group) at e)
      | inr (named, en) ↦ elim (Bool-cases (pod.deletion_timestamp == 0)) [
        | inr ed ↦
            cc (rw (en, ed, ensure_pod_group) at e, delete_for_requests api name pod.namespace)
        | inl ed ↦ elim (Bool-cases (pending_phase pod.phase)) [
          | inr ep ↦ cc (rw (en, ed, ep, ensure_pod_group) at e)
          | inl ep ↦ elim (Option-cases (parse_int32 (get_pod_group_size pod))) [
            | inl es ↦ cc (rw (en, ed, ep, es, ensure_pod_group) at e)
            | inr (size, es) ↦
                let (missing, made, asked, all) =
                  create_for_requests api name pod.namespace size
                    (rw (en, ed, ep, es, ensure_pod_group) at e) in
                (
                  size,
                  record {
                    named = named;
                    alive = (==_iff _ _).0 ed;
                    is_pending = pending_phase_lem pod.phase ep;
                    sized = es;
                    missing = missing;
                  },
                  made,
                  asked,
                  all,
                )
          ]
        ]
      ]
    ]
