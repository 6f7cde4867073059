-- ===== src/Scheduler/Manager/Thread/Start.antt =====
-- Where a `PreFilter` of the scheduler's thread starts.
use flux_k8s.Base.{
  String, List, [], ◌∷◌, Option, Option-cases, inl, inr, Bool-cases, ltb_ℤ, pos, length,
}
use flux_k8s.Kube.{Pod, PodGroup}
use flux_k8s.Scheduler.World.{World, Cluster}
use flux_k8s.Scheduler.Groups.{get_pod_group}
use flux_k8s.Scheduler.Flux.{Manager}
use flux_k8s.Scheduler.Manager.Thread.{
  Work, Thread, crashed, asking, over, ask_for, start_pods, start_group, start,
}

-- It panics, asks for nodes, or is over at once.
module _ {w : World} (c : Cluster) (P : Thread w → Type 0) (panics : P crashed)
    (asks : (k : Work w) → P (asking k))
    (ends : (error : Option String) (state : w.State) → P (over error state)) where
  ask_for-satisfies :
      (group : String) (pg : PodGroup) (pods : List Pod) (state : w.State)
      → P (ask_for c group pg pods state)
  unfolding ask_for
  ask_for-satisfies group pg [] state = panics
  ask_for-satisfies group pg (rep_pod ∷ rest) state = asks _

  start_pods-satisfies :
      (group : String) (pg : PodGroup) (pods : List Pod) (state : w.State) (m : Manager w)
      → P (start_pods c group pg pods state m)
  unfolding start_pods
  start_pods-satisfies group pg pods state m =
      elim (Bool-cases (ltb_ℤ (pos (length pods)) pg.spec.min_member)) [
        | inl e ↦ rw e (ends _ state)
        | inr e ↦ elim (Bool-cases (w.is_cached c.now group m.permitted)) [
          | inl p ↦ rw e (rw p (ends _ state))
          | inr p ↦ rw e (rw p (ask_for-satisfies group pg pods state))
        ]
      ]

  start_group-satisfies :
      (group : String) (pg : PodGroup) (pod : Pod) (state : w.State) (m : Manager w)
      → P (start_group c group pg pod state m)
  unfolding start_group
  start_group-satisfies group pg pod state m =
      elim (Bool-cases (w.is_cached c.now group m.backed_off)) [
        | inl e ↦ rw e (ends _ state)
        | inr e ↦ elim (Option-cases (c.list_pods pod.namespace (c.group_label pod))) [
          | inl p ↦ rw e (rw (p, start_group) (ends _ state))
          | inr (pods, p) ↦ rw e (rw (p, start_group) (start_pods-satisfies group pg pods state m))
        ]
      ]

  pub start-satisfies : (pod : Pod) (state : w.State) (m : Manager w) → P (start c pod state m)
  unfolding start
  start-satisfies pod state m = elim (Option-cases (get_pod_group c pod).1) [
    | inl e ↦ rw (e, start) (ends _ state)
    | inr (pg, e) ↦ rw (e, start) (start_group-satisfies _ pg pod state m)
  ]
