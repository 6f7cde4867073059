-- ===== src/Scheduler/Manager/Asks.antt =====
-- `PreFilter` of core/core.go for a group that has to ask the sidecar.
use flux_k8s.Base.{String, false, List, ◌∷◌, some, ℤ, pos, ltb_ℤ, ◌≤ℤ◌, ◌≡◌, ap, length, arith}
use flux_k8s.Kube.{Pod, PodGroup}
use flux_k8s.Messages.{reply}
use flux_k8s.Scheduler.World.{World, Cluster}
use flux_k8s.Scheduler.Groups.{get_pod_group}
use flux_k8s.Scheduler.Flux.{Manager, ask_flux}
use flux_k8s.Scheduler.Manager.{
  pre_filter_group, check_group, check_pods, ask_for_pods, use_answer, use_nodes,
}

pub not_below : (a b : ℤ) → b ≤ℤ a → ltb_ℤ a b ≡ false
not_below a b h = ground arith

module _ (w : World) (c : Cluster) where
  check_pods_asks :
      (group : String) (pg : PodGroup) (rep_pod : Pod) (rest : List Pod) (state : w.State)
      (m m' : Manager w) (nodes : List String)
      → pg.spec.min_member ≤ℤ pos (length (rep_pod ∷ rest))
      → w.is_cached c.now group m.permitted ≡ false
      → ask_flux c rep_pod pg group m ≡ (m', reply nodes)
      → check_pods w c group pg (rep_pod ∷ rest) state m
        ≡ use_nodes w c group rep_pod (rep_pod ∷ rest) state nodes m'
  unfolding check_pods ask_for_pods use_answer
  check_pods_asks group pg rep_pod rest state m m' nodes enough fresh answer =
      rw (not_below (pos (length (rep_pod ∷ rest))) pg.spec.min_member enough)
        (rw fresh (ap (use_answer w c group rep_pod (rep_pod ∷ rest) state) answer))

  -- With enough pods listed and the group neither backed off nor let through before, `PreFilter`
  -- goes on with the nodes that the request for them brings.
  pub pre_filter_group_asks :
      (pod rep_pod : Pod) (pg : PodGroup) (rest : List Pod) (state : w.State) (m m' : Manager w)
      (nodes : List String)
      → (get_pod_group c pod).1 ≡ some pg
      → w.is_cached c.now (get_pod_group c pod).0 m.backed_off ≡ false
      → c.list_pods pod.namespace (c.group_label pod) ≡ some (rep_pod ∷ rest)
      → pg.spec.min_member ≤ℤ pos (length (rep_pod ∷ rest))
      → w.is_cached c.now (get_pod_group c pod).0 m.permitted ≡ false
      → ask_flux c rep_pod pg (get_pod_group c pod).0 m ≡ (m', reply nodes)
      → pre_filter_group w c pod state m
        ≡ use_nodes w c (get_pod_group c pod).0 rep_pod (rep_pod ∷ rest) state nodes m'
  unfolding pre_filter_group check_group
  pre_filter_group_asks pod rep_pod pg rest state m m' nodes known calm listed enough fresh answer =
      rw (known, pre_filter_group)
        (rw calm (
          rw (listed, check_group)
            (check_pods_asks _ pg rep_pod rest state m m' nodes enough fresh answer)))
