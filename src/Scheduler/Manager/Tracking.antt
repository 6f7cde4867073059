-- ===== src/Scheduler/Manager/Tracking.antt =====
-- `PreFilter` of core/core.go keeps the table of jobs true, through every way it ends in.
use flux_k8s.Base.{Bool, ℤ}
use flux_k8s.Base.Run.{Ensures, Ensures-map}
use flux_k8s.Kube.{Pod}
use flux_k8s.Scheduler.World.{World, Cluster}
use flux_k8s.Scheduler.Allocations.{Runs, none_yet}
use flux_k8s.Scheduler.Flux.{Manager}
use flux_k8s.Scheduler.Flux.Cancel.{IsFlux}
use flux_k8s.Scheduler.Flux.Refines.{allocations_of}
use flux_k8s.Scheduler.Flux.Tracking.{IsTracked, Runs-IsTracked}
use flux_k8s.Scheduler.Manager.{pre_filter_group}
use flux_k8s.Scheduler.Manager.Refines.{pre_filter_group-Runs}

module _ {w : World} (live : w.Server → ℤ → Bool) (flux : IsFlux w live) (c : Cluster) where
  -- Whatever the cluster and the sidecar answer, a `PreFilter` that ends leaves every job of the
  -- table live and no job with two groups.
  pub pre_filter_group-IsTracked :
      (pod : Pod) (state : w.State) (m : Manager w)
      → IsTracked live m
      → Ensures (λ o. IsTracked live o.manager) (pre_filter_group w c pod state m)
  pre_filter_group-IsTracked pod state m t =
      Ensures-map (λ o. Runs (allocations_of live m) (allocations_of live o.manager))
        (λ o. IsTracked live o.manager) _ (λ o runs. Runs-IsTracked live m o.manager runs t)
        (pre_filter_group-Runs live flux c _ pod state m none_yet)
