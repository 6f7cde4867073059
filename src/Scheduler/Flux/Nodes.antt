-- ===== src/Scheduler/Flux/Nodes.antt =====
-- What the end of a group's job leaves in the table of nodes. The code looks for the pods of the group
-- by the namespaced name of the group, where the label holds the name alone.
use flux_k8s.Base.{
  String, some, List, [], pos, eqb_ℤ, ◌≡◌, refl, get, Bool-cases, Option-cases, inl, inr, ap,
}
use flux_k8s.Kube.{Pod, PodPhase, PodGroup}
use flux_k8s.Messages.{CancelResponse, Reply, reply, refused}
use flux_k8s.Scheduler.World.{World, Cluster}
use flux_k8s.Scheduler.Groups.{get_pod_group}
use flux_k8s.Scheduler.Flux.{
  Manager, forget_pods, event_group, cleanup, after_cancel, cancel_job, cancel_flux_job,
  release_earlier, by_last_phase, delete_pod,
}

-- No pod of the namespace is listed for a value of the group label.
abbrev pub ListsNone : Cluster → String → String → Type 0
ListsNone c namespace value =
    (pods : List Pod) → c.list_pods namespace value ≡ some pods → pods ≡ []

module _ {w : World} (c : Cluster) where
  cleanup_nodes :
      (pod : Pod) (group : String) (m : Manager w)
      → ListsNone c pod.namespace group
      → (cleanup c pod group m).pod_to_node ≡ m.pod_to_node
  unfolding cleanup forget_pods
  cleanup_nodes pod group m h = elim (Option-cases (c.list_pods pod.namespace group)) [
    | inl e ↦ rw (e, cleanup) refl
    | inr (pods, e) ↦ rw (e, cleanup) (ap (λ l. forget_pods l m.pod_to_node) (h pods e))
  ]

  after_cancel_nodes :
      (pod : Pod) (group : String) (m : Manager w) (a : w.Server × Reply CancelResponse)
      → ListsNone c pod.namespace group
      → (after_cancel c group pod m a).0.pod_to_node ≡ m.pod_to_node
  unfolding after_cancel
  after_cancel_nodes pod group m (s, refused x) h = refl
  after_cancel_nodes pod group m (s, reply r) h = elim (Bool-cases (eqb_ℤ r.error (pos 0))) [
    | inl e ↦ rw e (cleanup_nodes pod group (record m { server = s }) h)
    | inr e ↦ rw e refl
  ]

  cancel_flux_job_nodes :
      (pod : Pod) (group : String) (m : Manager w)
      → ListsNone c pod.namespace group
      → (cancel_flux_job c group pod m).0.pod_to_node ≡ m.pod_to_node
  unfolding cancel_flux_job cancel_job
  cancel_flux_job_nodes pod group m h = elim (Option-cases (get group m.group_to_job)) [
    | inl e ↦ rw (e, cancel_flux_job) refl
    | inr (n, e) ↦ elim (Option-cases (w.dial m.server)) [
      | inr (x, d) ↦ rw (e, d, cancel_flux_job, cancel_job) refl
      | inl d ↦ rw (e, d, cancel_flux_job, cancel_job) (after_cancel_nodes pod group m _ h)
    ]
  ]

  release_earlier_nodes :
      (pod : Pod) (group : String) (m : Manager w)
      → ListsNone c pod.namespace group
      → (release_earlier c group pod m).pod_to_node ≡ m.pod_to_node
  unfolding release_earlier
  release_earlier_nodes pod group m h = elim (Option-cases (get group m.group_to_job)) [
    | inl e ↦ rw (e, release_earlier) refl
    | inr (n, e) ↦ rw (e, release_earlier) (cancel_flux_job_nodes pod group m h)
  ]

  by_last_phase_nodes :
      (phase : PodPhase) (pod : Pod) (m : Manager w)
      → ListsNone c pod.namespace (event_group c pod)
      → (by_last_phase c phase pod m).pod_to_node ≡ m.pod_to_node
  unfolding by_last_phase
  by_last_phase_nodes PodPhase.pending pod m h = release_earlier_nodes pod _ m h
  by_last_phase_nodes PodPhase.running pod m h = release_earlier_nodes pod _ m h
  by_last_phase_nodes PodPhase.succeeded pod m h = refl
  by_last_phase_nodes PodPhase.failed pod m h = refl
  by_last_phase_nodes PodPhase.unknown pod m h = refl
  by_last_phase_nodes (PodPhase.other _) pod m h = refl

  -- When no pod of the namespace has the namespaced name of the group for its group label, the
  -- deletion of a pod of a group that exists leaves the table of nodes as it was, also when the job of
  -- the group has been cancelled.
  pub delete_pod-keeps_nodes :
      (pod : Pod) (pg : PodGroup) (m : Manager w)
      → (get_pod_group c pod).1 ≡ some pg
      → ListsNone c pod.namespace (get_pod_group c pod).0
      → (delete_pod c pod m).pod_to_node ≡ m.pod_to_node
  unfolding delete_pod event_group
  delete_pod-keeps_nodes pod pg m e h = by_last_phase_nodes pod.phase pod m (rw (e, event_group) h)
