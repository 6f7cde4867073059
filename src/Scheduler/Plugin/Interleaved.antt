-- ===== src/Scheduler/Plugin/Interleaved.antt =====
-- The scheduler's thread and the goroutine of the events of pods at work together: the events come
-- between the pieces of a `PreFilter`, and the answers of the cluster may differ from piece to piece.
use flux_k8s.Base.{ℕ, String, Bool, Option, some, ℤ, ◌≡◌, ◌≢◌, true, List, ap, ◌∙◌}
use flux_k8s.Kube.{Pod}
use flux_k8s.Scheduler.World.{World, Cluster}
use flux_k8s.Scheduler.Allocations.{Runs, none_yet}
use flux_k8s.Scheduler.Flux.{Manager, update_pod, delete_pod}
use flux_k8s.Scheduler.Flux.Cancel.{IsFlux}
use flux_k8s.Scheduler.Flux.Refines.{allocations_of, held_job, update_pod-Runs, delete_pod-Runs}
use flux_k8s.Scheduler.Flux.Tracking.{
  IsTracked, IsTracked-IsSound, IsSound-IsTracked, held_job-some,
}
use flux_k8s.Scheduler.Manager.{get_pod_node}
use flux_k8s.Scheduler.Manager.Thread.{Thread, Shared, resting, over, start, advance}
use flux_k8s.Scheduler.Manager.Thread.Safe.{
  InFlight, IsSafe, Runs-IsSafe, advance-IsSafe, start-IsSafe, resting-IsSafe,
}
use flux_k8s.Scheduler.Manager.Thread.Lost.{
  IsLost, Runs-IsLost, advance-IsLost, start-IsLost, resting-IsLost,
}
use flux_k8s.Scheduler.Plugin.{post_filter, unreserve}
use flux_k8s.Scheduler.Plugin.Start.{Fluence, Surroundings, new, new_holds_nothing, new_server}
use flux_k8s.Scheduler.Plugin.Lifecycle.{post_filter-Runs, unreserve-Runs, nothing_held}

-- The scheduler's thread is in no `PreFilter`.
pub data IsFree {w : World} : Thread w → Type 0 where
  at_rest : IsFree resting
  returned : (error : Option String) (state : w.State) → IsFree (over error state)

module _ (w : World) (plugin : Fluence w) where
  -- One turn of a thread. `Unreserve` is called by other threads of the scheduler.
  pub data Turn (s : Shared w) : Shared w → Type 0 where
    called :
        (c : Cluster) (pod : Pod) (state : w.State)
        → IsFree s.thread
        → get_pod_node w s.manager pod ≡ ""
        → Turn s (record { manager = s.manager; thread = start c pod state s.manager })
    advanced : (c : Cluster) → Turn s (advance c s.manager s.thread)
    updated :
        (c : Cluster) (old young : Pod)
        → Turn s (record { manager = update_pod c old young s.manager; thread = s.thread })
    deleted :
        (c : Cluster) (pod : Pod)
        → Turn s (record { manager = delete_pod c pod s.manager; thread = s.thread })
    unreserved :
        (c : Cluster) (pod : Pod) (waiting : List Pod)
        → Turn s (record { manager = (unreserve w c pod waiting s.manager).0; thread = s.thread })
    post_filtered :
        (c : Cluster) (pod : Pod) (waiting : List Pod)
        → IsFree s.thread
        → Turn s (record {
          manager = (post_filter w c pod plugin.pod_group_backoff waiting s.manager).0;
          thread = s.thread;
        })

  -- What the turns lead to from the start.
  pub data Interleaved : Shared w → Type 0 where
    began : Interleaved (record { manager = plugin.manager; thread = resting })
    turned : (s s' : Shared w) → Interleaved s → Turn s s' → Interleaved s'

-- What starts, pieces and steps of the jobs by other threads keep, all turns keep.
module _ {w : World} (live : w.Server → ℤ → Bool) (flux : IsFlux w live) (plugin : Fluence w)
    (P : Shared w → Type 0)
    (starts : (c : Cluster) (pod : Pod) (state : w.State) (s : Shared w)
      → P s
      → P (record { manager = s.manager; thread = start c pod state s.manager }))
    (advances : (c : Cluster) (s : Shared w) → P s → P (advance c s.manager s.thread))
    (steps : (s : Shared w) (m : Manager w)
      → Runs (allocations_of live s.manager) (allocations_of live m)
      → P s
      → P (record { manager = m; thread = s.thread })) where
  Turn-keeps : (s s' : Shared w) → Turn w plugin s s' → P s → P s'
  Turn-keeps s _ (called c pod state free unplaced) p = starts c pod state s p
  Turn-keeps s _ (advanced c) p = advances c s p
  Turn-keeps s _ (updated c old young) p =
      steps s _ (update_pod-Runs live flux c _ old young s.manager none_yet) p
  Turn-keeps s _ (deleted c pod) p =
      steps s _ (delete_pod-Runs live flux c _ pod s.manager none_yet) p
  Turn-keeps s _ (unreserved c pod waiting) p =
      steps s _ (unreserve-Runs live flux c _ pod waiting s.manager none_yet) p
  Turn-keeps s _ (post_filtered c pod waiting free) p =
      steps s _
        (post_filter-Runs live flux c _ pod plugin.pod_group_backoff waiting s.manager none_yet) p

  Interleaved-keeps :
      P (record { manager = plugin.manager; thread = resting })
      → (s : Shared w) → Interleaved w plugin s
      → P s
  Interleaved-keeps p _ began = p
  Interleaved-keeps p _ (turned s s' before turn) =
      Turn-keeps s s' turn (Interleaved-keeps p s before)

module _ {w : World} (live : w.Server → ℤ → Bool) (flux : IsFlux w live) where
  -- From the plugin that `New` makes on, through any turns of the scheduler's thread, of the events
  -- of pods and of the other calls, in any order, each job that the table of groups holds is live and
  -- held once, and a job whose number has not been written yet is live and held by no group.
  pub Interleaved-IsTracked :
      (fresh : ℕ → w.Store) (server : w.Server) (s : Surroundings) (plugin : Fluence w)
      → (new w fresh server s).0 ≡ some plugin
      → (now : Shared w) → Interleaved w plugin now
      → IsTracked live now.manager × InFlight live now.thread now.manager
  Interleaved-IsTracked fresh server s plugin e now before =
      let empty = new_holds_nothing w fresh server s plugin e in
      let tracked : IsTracked live plugin.manager = record {
        held_is_live = λ g n h. absurd (nothing_held g n _ empty h);
        held_once = λ g h n k p q same. absurd (nothing_held g n _ empty p);
      } in
      let safe =
        Interleaved-keeps live flux plugin (IsSafe live)
          (λ c pod state x p. start-IsSafe live c pod state x.manager p.sound)
          (λ c x p. advance-IsSafe live flux c x.manager x.thread p)
          (λ x m runs p. Runs-IsSafe live x.thread x.manager m runs p)
          (resting-IsSafe live plugin.manager (IsTracked-IsSound live plugin.manager tracked)) now
          before in
      (IsSound-IsTracked live now.manager safe.sound, safe.in_flight)

  -- A job that is live when `New` makes the plugin, as after a restart of the scheduler, stays live
  -- through any turns, and no group ever holds it.
  pub earlier_job_stays :
      (fresh : ℕ → w.Store) (server : w.Server) (s : Surroundings) (plugin : Fluence w)
      → (new w fresh server s).0 ≡ some plugin
      → (j : ℤ) → live server j ≡ true
      → (now : Shared w) → Interleaved w plugin now
      → (live now.manager.server j ≡ true)
        × ((g : String) → held_job now.manager.group_to_job g ≢ some j)
  earlier_job_stays fresh server s plugin e j lives now before =
      let empty = new_holds_nothing w fresh server s plugin e in
      let lost =
        Interleaved-keeps live flux plugin (IsLost live j)
          (λ c pod state x p. start-IsLost live j c pod state x.manager p.unheld)
          (λ c x p. advance-IsLost live j flux c x.manager x.thread p)
          (λ x m runs p. Runs-IsLost live j x.thread x.manager m runs p)
          (resting-IsLost live j plugin.manager (record {
            is_live = ap (λ x. live x j) (new_server w fresh server s plugin e) ∙ lives;
            unheld = λ g h.
                let (n, held, _) = held_job-some plugin.manager.group_to_job g j h in
                nothing_held g n _ empty held;
          }))
          now before in
      (lost.unheld.is_live, lost.unheld.unheld)
