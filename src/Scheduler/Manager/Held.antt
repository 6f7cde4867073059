-- ===== src/Scheduler/Manager/Held.antt =====
-- `PreFilter` of core/core.go for the pods that it holds back before the sidecar is asked.
use flux_k8s.Base.{
  List, true, false, none, some, ℤ, pos, ltb_ℤ, ◌≤ℤ◌, ◌≡◌, refl, length, done, String, arith,
}
use flux_k8s.Kube.{Pod, PodGroup}
use flux_k8s.Scheduler.World.{World, Cluster}
use flux_k8s.Scheduler.Groups.{get_pod_group}
use flux_k8s.Scheduler.Flux.{Manager}
use flux_k8s.Scheduler.Manager.{pre_filter_group, check_group, check_pods}

below : (a b : ℤ) → ¬ (b ≤ℤ a) → ltb_ℤ a b ≡ true
below a b h = ground arith

module _ (w : World) (c : Cluster) where
  -- The group is backed off, its pods cannot be listed, or there are too few of them.
  pub data IsHeldBack (pod : Pod) (m : Manager w) : Type 0 where
    failed_recently :
        (pg : PodGroup)
        → (get_pod_group c pod).1 ≡ some pg
        → w.is_cached c.now (get_pod_group c pod).0 m.backed_off ≡ true
        → IsHeldBack pod m
    unlisted :
        (pg : PodGroup)
        → (get_pod_group c pod).1 ≡ some pg
        → w.is_cached c.now (get_pod_group c pod).0 m.backed_off ≡ false
        → c.list_pods pod.namespace (c.group_label pod) ≡ none
        → IsHeldBack pod m
    too_few :
        (pg : PodGroup) (pods : List Pod)
        → (get_pod_group c pod).1 ≡ some pg
        → w.is_cached c.now (get_pod_group c pod).0 m.backed_off ≡ false
        → c.list_pods pod.namespace (c.group_label pod) ≡ some pods
        → ¬ (pg.spec.min_member ≤ℤ pos (length pods))
        → IsHeldBack pod m

  pub IsHeldBack-fails :
      (pod : Pod) (state : w.State) (m : Manager w)
      → IsHeldBack pod m
      → (e : String) × (pre_filter_group w c pod state m
          ≡ done (record { manager = m; state = state; error = some e }))
  unfolding pre_filter_group check_group check_pods
  IsHeldBack-fails pod state m (failed_recently pg known failed) =
      ("podGroup failed recently", rw (known, pre_filter_group) (rw failed refl))
  IsHeldBack-fails pod state m (unlisted pg known calm listed) = (
    "podLister list pods failed",
    rw (known, pre_filter_group) (rw calm (rw (listed, check_group) refl)),
  )
  IsHeldBack-fails pod state m (too_few pg pods known calm listed few) = (
    "not enough sibling pods",
    rw (known, pre_filter_group)
        (rw calm
          (rw (listed, check_group) (rw (below (pos (length pods)) pg.spec.min_member few) refl))),
  )
