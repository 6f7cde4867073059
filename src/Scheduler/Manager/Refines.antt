-- ===== src/Scheduler/Manager/Refines.antt =====
-- `PreFilter` of core/core.go as steps of the groups' jobs, through every way it ends in.
use flux_k8s.Base.{
  String, Bool, List, [], ◌∷◌, ℤ, pos, ltb_ℤ, ◌==◌, ◌≡◌, refl, Map, length, done, Bool-cases,
  Option-cases, inl, inr, failed, panic,
}
use flux_k8s.Base.Run.{Run, Ensures}
use flux_k8s.Kube.{Pod, PodGroup}
use flux_k8s.Messages.{Reply, reply, refused}
use flux_k8s.Scheduler.World.{World, Cluster}
use flux_k8s.Scheduler.Groups.{get_pod_group}
use flux_k8s.Scheduler.Flux.{Manager}
use flux_k8s.Scheduler.Flux.Cancel.{IsFlux}
use flux_k8s.Scheduler.Allocations.{Allocations, Runs}
use flux_k8s.Scheduler.Flux.Refines.{allocations_of, ask_flux-Runs, cancel_flux_job-Runs}
use flux_k8s.Scheduler.Manager.{
  Outcome, assign_nodes, check_size, admit, use_nodes, use_answer, ask_for_pods, check_pods,
  check_group, pre_filter_group,
}

module _ {w : World} (live : w.Server → ℤ → Bool) (flux : IsFlux w live) (c : Cluster)
    (a : Allocations) where
  abbrev RunsTo : Manager w → Type 0
  RunsTo m = Runs a (allocations_of live m)

  abbrev Refines : Outcome w → Type 0
  Refines o = RunsTo o.manager

  pub check_size-Runs :
      (group : String) (rep_pod : Pod) (pods : List Pod) (nodes : List String) (m : Manager w)
      → RunsTo m
      → RunsTo (check_size w c group rep_pod pods nodes m)
  unfolding check_size
  check_size-Runs group rep_pod pods nodes m t = elim (Bool-cases (length nodes == length pods)) [
    | inl e ↦ rw e t
    | inr e ↦ rw e (cancel_flux_job-Runs live flux c a group rep_pod m t)
  ]

  admit-Refines :
      (group : String) (pods : List Pod) (state : w.State) (nodes : List String) (m : Manager w)
      → RunsTo m
      → (written : Run (w.State × Map String))
      → assign_nodes w pods nodes state m.pod_to_node ≡ written
      → Ensures Refines (admit w c group pods state nodes m)
  unfolding admit
  admit-Refines group pods state nodes m t (done _) e = rw (e, admit) t
  admit-Refines group pods state nodes m t (failed _) e = rw (e, admit) tt
  admit-Refines group pods state nodes m t panic e = rw (e, admit) tt

  use_answer-Refines :
      (group : String) (rep_pod : Pod) (pods : List Pod) (state : w.State)
      (a : Manager w × Reply (List String))
      → RunsTo a.0
      → Ensures Refines (use_answer w c group rep_pod pods state a)
  unfolding use_answer use_nodes
  use_answer-Refines group rep_pod pods state (m, refused _) t = t
  use_answer-Refines group rep_pod pods state (m, reply nodes) t =
      admit-Refines group pods state nodes _ (check_size-Runs group rep_pod pods nodes m t) _ refl

  ask_for_pods-Refines :
      (group : String) (pg : PodGroup) (pods : List Pod) (state : w.State) (m : Manager w)
      → RunsTo m
      → Ensures Refines (ask_for_pods w c group pg pods state m)
  unfolding ask_for_pods
  ask_for_pods-Refines group pg [] state m t = tt
  ask_for_pods-Refines group pg (rep_pod ∷ pods) state m t =
      use_answer-Refines group rep_pod (rep_pod ∷ pods) state _
        (ask_flux-Runs live flux c a rep_pod pg group m t)

  check_pods-Refines :
      (group : String) (pg : PodGroup) (pods : List Pod) (state : w.State) (m : Manager w)
      → RunsTo m
      → Ensures Refines (check_pods w c group pg pods state m)
  unfolding check_pods
  check_pods-Refines group pg pods state m t =
      elim (Bool-cases (ltb_ℤ (pos (length pods)) pg.spec.min_member)) [
        | inl e ↦ rw e t
        | inr e ↦ elim (Bool-cases (w.is_cached c.now group m.permitted)) [
          | inl p ↦ rw e (rw p t)
          | inr p ↦ rw e (rw p (ask_for_pods-Refines group pg pods state m t))
        ]
      ]

  check_group-Refines :
      (group : String) (pg : PodGroup) (pod : Pod) (state : w.State) (m : Manager w)
      → RunsTo m
      → Ensures Refines (check_group w c group pg pod state m)
  unfolding check_group
  check_group-Refines group pg pod state m t =
      elim (Bool-cases (w.is_cached c.now group m.backed_off)) [
        | inl e ↦ rw e t
        | inr e ↦ elim (Option-cases (c.list_pods pod.namespace (c.group_label pod))) [
          | inl p ↦ rw e (rw (p, check_group) t)
          | inr (pods, p) ↦ rw e (rw (p, check_group) (check_pods-Refines group pg pods state m t))
        ]
      ]

  pub pre_filter_group-Runs :
      (pod : Pod) (state : w.State) (m : Manager w)
      → RunsTo m
      → Ensures (λ o. Runs a (allocations_of live o.manager)) (pre_filter_group w c pod state m)
  unfolding pre_filter_group
  pre_filter_group-Runs pod state m t = elim (Option-cases (get_pod_group c pod).1) [
    | inl e ↦ rw (e, pre_filter_group) t
    | inr (pg, e) ↦ rw (e, pre_filter_group) (check_group-Refines _ pg pod state m t)
  ]
