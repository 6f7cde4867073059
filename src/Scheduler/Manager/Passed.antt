-- ===== src/Scheduler/Manager/Passed.antt =====
-- `PreFilter` of core/core.go for the pods that it lets pass at once.
use flux_k8s.Base.{List, true, false, ◌≡◌, refl, none, some, pos, ◌≤ℤ◌, length, done}
use flux_k8s.Kube.{Pod, PodGroup}
use flux_k8s.Scheduler.World.{World, Cluster}
use flux_k8s.Scheduler.Groups.{get_pod_group}
use flux_k8s.Scheduler.Flux.{Manager}
use flux_k8s.Scheduler.Manager.{pre_filter_group, check_group, check_pods}
use flux_k8s.Scheduler.Manager.Asks.{not_below}

module _ (w : World) (c : Cluster) where
  -- The pods that `PreFilter` of the manager lets pass without a look for nodes: those with no group
  -- that is found, and those of a group that has been let through before.
  pub data IsPassedOver (pod : Pod) (m : Manager w) : Type 0 where
    ungrouped : (get_pod_group c pod).1 ≡ none → IsPassedOver pod m
    let_through :
        (pg : PodGroup) (pods : List Pod)
        → (get_pod_group c pod).1 ≡ some pg
        → w.is_cached c.now (get_pod_group c pod).0 m.backed_off ≡ false
        → c.list_pods pod.namespace (c.group_label pod) ≡ some pods
        → pg.spec.min_member ≤ℤ pos (length pods)
        → w.is_cached c.now (get_pod_group c pod).0 m.permitted ≡ true
        → IsPassedOver pod m

  pub IsPassedOver-done :
      (pod : Pod) (state : w.State) (m : Manager w)
      → IsPassedOver pod m
      → pre_filter_group w c pod state m
        ≡ done (record { manager = m; state = state; error = none })
  unfolding pre_filter_group check_group check_pods
  IsPassedOver-done pod state m (ungrouped e) = rw (e, pre_filter_group) refl
  IsPassedOver-done pod state m (let_through pg pods known calm listed enough through) =
      rw (known, pre_filter_group)
        (rw calm (
          rw (listed, check_group)
            (rw (not_below (pos (length pods)) pg.spec.min_member enough) (rw through refl))))
