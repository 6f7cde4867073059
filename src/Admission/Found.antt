-- ===== src/Admission/Found.antt =====
-- An admitted pod at the plugin, which finds its group.
use mathlib.Core.Option.{get_or, some_inj}
use text.Mathlib.TextLemmas.{append-ne-nil_of_right_ne-nil}
use flux_k8s.Base.{
  ◌+◌, ◌-◌, ◌^◌, ◌<◌, ◌≤ℤ◌, String, List, none, some, ℤ, pos, false, ◌≡◌, ◌≢◌, ◌↔◌, refl, ap, sym,
  ◌∙◌, done, length, count_if, subst, str_ne, inl, inr, get,
}
use flux_k8s.Base.Run.{Ensures-done}
use flux_k8s.Kube.{Pod, PodGroup}
use flux_k8s.Labels.{get_pod_group_label, pod_group_label, namespaced}
use flux_k8s.Webhook.{ensure_group}
use flux_k8s.Webhook.Laws.{ensure_group_lem}
use flux_k8s.Controller.Watch.Admitted.{group_of}
use flux_k8s.Scheduler.World.{World, Cluster}
use flux_k8s.Scheduler.Groups.{is_assigned, snapshot_pods, get_pod_group}
use flux_k8s.Scheduler.Flux.{Manager}
use flux_k8s.Scheduler.Manager.{get_pod_node}
use flux_k8s.Scheduler.Manager.Held.{too_few}
use flux_k8s.Scheduler.Plugin.{Code, permit, pre_filter}
use flux_k8s.Scheduler.Plugin.Assignment.{held_back_refused}
use flux_k8s.Scheduler.Plugin.Gang.{permit-success_iff}

-- What the plugin needs of a group that it finds.
pub record IsFound (c : Cluster) (p : Pod) (size : ℤ) (pg : PodGroup) : Type 0 where
  pub found : c.get_group p.namespace (group_of p) ≡ some pg
  pub name : pg.name ≡ group_of p
  pub namespace : pg.namespace ≡ p.namespace
  pub min_member : pg.spec.min_member ≡ size

namespaced_ne : (namespace name : String) → name ≢ "" → namespaced namespace name ≢ ""
namespaced_ne namespace name ne =
    append-ne-nil_of_right_ne-nil namespace (append-ne-nil_of_right_ne-nil "/" ne)

-- What the admitted pod keeps and gets.
admitted_labels :
    (p q : Pod)
    → ensure_group p ≡ done q
    → (get_pod_group_label q ≡ group_of p) × (q.namespace ≡ p.namespace) × (q.name ≡ p.name)
unfolding get_pod_group_label
admitted_labels p q e =
    let (q', admitted, labels, rest) = ensure_group_lem p in
    Ensures-done
      (λ (x : Pod).
        (get_pod_group_label x ≡ group_of p) × (x.namespace ≡ p.namespace) × (x.name ≡ p.name))
      _ q e
      (rw admitted (
        ap (λ o. get_or o "") (labels pod_group_label),
        ap (λ (x : Pod). x.namespace) rest,
        ap (λ (x : Pod). x.name) rest,
      ))

module _ (c : Cluster) (label_law : (pod : Pod) → c.group_label pod ≡ get_pod_group_label pod) where
  -- The scheduler finds the group of an admitted pod.
  admitted_found :
      (p q : Pod) (size : ℤ) (pg : PodGroup)
      → ensure_group p ≡ done q
      → group_of p ≢ ""
      → IsFound c p size pg
      → get_pod_group c q ≡ (namespaced p.namespace (group_of p), some pg)
  unfolding get_pod_group
  admitted_found p q size pg e named known =
      let (label, namespace, _) = admitted_labels p q e in
      rw (label_law q ∙ label)
        (rw (str_ne (group_of p) "" named) (rw (namespace, known.found) refl))

  -- `Permit` for an admitted pod waits for the pods that its size label asks for.
  pub admitted_permit :
      (w : World) (p q : Pod) (size : ℤ) (pg : PodGroup) (waiting : List Pod) (timeout : ℤ)
      (state : w.State)
      → ensure_group p ≡ done q
      → group_of p ≢ ""
      → IsFound c p size pg
      → length (snapshot_pods c) < 2 ^ 31 - 1
      → ((permit w c q waiting timeout state).code ≡ Code.success)
        ↔ (size ≤ℤ pos (count_if (is_assigned c (group_of p) p.namespace) (snapshot_pods c) + 1))
  admitted_permit w p q size pg waiting timeout state e named known small =
      let is_found = admitted_found p q size pg e named known in
      let (when, only) = permit-success_iff w c q waiting timeout state small in
      let count : String → String → ℤ =
        λ g n. pos (count_if (is_assigned c g n) (snapshot_pods c) + 1) in
      let own : (count pg.name pg.namespace) ≡ count (group_of p) p.namespace =
        ap (λ x. count x pg.namespace) known.name ∙ ap (count (group_of p)) known.namespace in
      let full : (get_pod_group c q).0 ≢ "" = λ none_such.
        namespaced_ne p.namespace (group_of p) named (sym (ap (λ x. x.0) is_found) ∙ none_such) in
      (
        λ h. elim (when h) [
          | inl none_such ↦ absurd (full none_such)
          | inr (pg', _, same, le) ↦
              let is_pg : pg' ≡ pg = some_inj.0 (sym same ∙ ap (λ x. x.1) is_found) in
              subst (λ x. x ≤ℤ count (group_of p) p.namespace) known.min_member
                (subst (λ x. pg.spec.min_member ≤ℤ x) own
                  (subst (λ (x : PodGroup). x.spec.min_member ≤ℤ count x.name x.namespace) is_pg
                    le))
        ],
        λ le. only (
            inr (
              pg,
              full,
              ap (λ x. x.1) is_found,
              subst (λ x. pg.spec.min_member ≤ℤ x) (sym own)
                  (subst (λ x. x ≤ℤ count (group_of p) p.namespace) (sym known.min_member) le),
            )),
      )

  -- `PreFilter` holds an admitted pod back until the pods that its size label asks for are listed.
  pub admitted_held_back :
      (w : World) (p q : Pod) (size : ℤ) (pg : PodGroup) (pods : List Pod) (state : w.State)
      (m : Manager w)
      → ensure_group p ≡ done q
      → group_of p ≢ ""
      → IsFound c p size pg
      → get p.name m.pod_to_node ≡ none
      → w.is_cached c.now (namespaced p.namespace (group_of p)) m.backed_off ≡ false
      → c.list_pods p.namespace (group_of p) ≡ some pods
      → ¬ (size ≤ℤ pos (length pods))
      → pre_filter w c q state m
        ≡ done (record {
          manager = m;
          state = state;
          node_names = none;
          code = Code.unschedulable_and_unresolvable;
        })
  unfolding get_pod_node
  admitted_held_back w p q size pg pods state m e named known unplaced calm listed few =
      let is_found = admitted_found p q size pg e named known in
      let (label, namespace, name) = admitted_labels p q e in
      held_back_refused w c q state m (rw name (rw unplaced refl)) (
        too_few pg pods (ap (λ x. x.1) is_found)
          (ap (λ x. w.is_cached c.now x.0 m.backed_off) is_found ∙ calm)
          (ap (λ n. c.list_pods n (c.group_label q)) namespace
            ∙ ap (c.list_pods p.namespace) (label_law q ∙ label)
            ∙ listed)
          (λ le. few (subst (λ x. x ≤ℤ pos (length pods)) known.min_member le)))
