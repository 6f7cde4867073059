-- ===== src/Controller/Watch/Admitted.antt =====
-- A pod's way from the webhook to the watch of the controller.
use Prim.Native.String.{◌++◌}
use mathlib.Core.Option.{get_or}
use flux_k8s.Base.{String, List, [], ◌∷◌, none, some, ℤ, ◌≡◌, ◌≢◌, ap, sym, ◌∙◌, done}
use flux_k8s.Base.Decimal.{parse_int32}
use flux_k8s.Kube.{Pod, PodPhase}
use flux_k8s.Labels.{
  read_label, pod_group_label, pod_group_size_label, get_pod_group_label, get_pod_group_size,
}
use flux_k8s.Webhook.{ensure_group, or_default}
use flux_k8s.Webhook.Laws.{ensure_group_lem}
use flux_k8s.Controller.Server.{Api, Call, fails, not_found, create}
use flux_k8s.Controller.Watch.{ensure_pod_group, new_pod_group}
use flux_k8s.Controller.Watch.Laws.{NeedsGroup, ensure_pod_group_creates}

-- The group of a pod and the text of its size, with the defaults.
abbrev pub group_of : Pod → String
group_of p = or_default (read_label p.labels pod_group_label) ("fluence-group-" ++ p.name)

abbrev pub size_of : Pod → String
size_of p = or_default (read_label p.labels pod_group_size_label) "1"

-- The creation of a group, and the request for a reconcile of it.
abbrev asked : Api → ℤ → String → String → List Call × List (String × String)
asked api size namespace name =
    (create (new_pod_group api name namespace size) ∷ [], (namespace, name) ∷ [])

-- With a library that reads the label of the group as the plugin does: the webhook admits a pending
-- pod that is not being deleted; when its group, by its label or by default, has a name and is not
-- found, the size is a 32-bit number, and the group can be created, the watch then creates it with
-- that name and size in the pod's namespace and asks for a reconcile of it.
pub admitted_then_watched :
    (api : Api) (p : Pod) (size : ℤ)
    → ((pod : Pod) → api.group_label pod ≡ get_pod_group_label pod)
    → p.deletion_timestamp ≡ 0
    → p.phase ≡ PodPhase.pending
    → group_of p ≢ ""
    → parse_int32 (size_of p) ≡ some size
    → api.get_group p.namespace (group_of p) ≡ fails not_found
    → api.create (new_pod_group api (group_of p) p.namespace size) ≡ none
    → (q : Pod) × (ensure_group p ≡ done q)
      × (ensure_pod_group api (some q) ≡ (
        create (new_pod_group api (group_of p) p.namespace size) ∷ [],
        (p.namespace, group_of p) ∷ [],
      ))
unfolding get_pod_group_label get_pod_group_size
admitted_then_watched api p size label_law alive pending named sized missing created =
    let (q, admitted, labels, rest) = ensure_group_lem p in
    let en = label_law q ∙ ap (λ o. get_or o "") (labels pod_group_label) in
    let es = ap (λ (x : Pod). x.namespace) rest in
    let needs : NeedsGroup api q size = record {
      named = λ e. named (sym en ∙ e);
      alive = ap (λ (x : Pod). x.deletion_timestamp) rest ∙ alive;
      is_pending = ap (λ (x : Pod). x.phase) rest ∙ pending;
      sized = ap (λ o. parse_int32 (get_or o "")) (labels pod_group_size_label) ∙ sized;
      missing =
          ap (λ n. api.get_group q.namespace n) en
          ∙ ap (λ s. api.get_group s (group_of p)) es
          ∙ missing;
    } in
    let made =
      ap (λ n. api.create (new_pod_group api n q.namespace size)) en
      ∙ ap (λ s. api.create (new_pod_group api (group_of p) s size)) es
      ∙ created in
    (
      q,
      admitted,
      (ensure_pod_group_creates api q size needs).0 made
          ∙ ap (asked api size q.namespace) en
          ∙ ap (λ s. asked api size s (group_of p)) es,
    )
