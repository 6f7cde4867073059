-- ===== src/Sidecar/Fluxion/Served/Interleaved.antt =====
-- The threads of the plugin at work with the sidecar of this repository.
use flux_k8s.Base.{ℕ, Bool, Option, some, ℤ, ◌≡◌}
use flux_k8s.Scheduler.World.{World}
use flux_k8s.Scheduler.Flux.Tracking.{IsTracked}
use flux_k8s.Scheduler.Manager.Thread.{Shared}
use flux_k8s.Scheduler.Manager.Thread.Safe.{InFlight}
use flux_k8s.Scheduler.Plugin.Start.{Fluence, Surroundings, new}
use flux_k8s.Scheduler.Plugin.Interleaved.{Interleaved, Interleaved-IsTracked}
use flux_k8s.Sidecar.Fluxion.{Bindings}
use flux_k8s.Sidecar.Fluxion.Served.{IsReapi, with_sidecar, live_in, sidecar-IsFlux}

module _ (w : World) (b : Bindings) (live : b.Context → ℤ → Bool) (reapi : IsReapi b live) where
  -- From the plugin that `New` makes on, at work with the sidecar of this repository over bindings
  -- that keep their promises and over a connection that loses no call and no answer, the scheduler's
  -- thread runs its `PreFilter`s piece by piece, and the events of pods and the other calls come
  -- between the pieces in any order. At any time each job that the table of groups holds is live in
  -- Fluxion, no two groups hold the same job, and a job whose number has not been written to the table
  -- yet is live and held by no group.
  pub with_sidecar-Interleaved :
      (fresh : ℕ → w.Store) (server : Option b.Context) (s : Surroundings)
      (plugin : Fluence (with_sidecar w b))
      → (new (with_sidecar w b) fresh server s).0 ≡ some plugin
      → (now : Shared (with_sidecar w b)) → Interleaved (with_sidecar w b) plugin now
      → IsTracked (live_in w b live reapi) now.manager
        × InFlight (live_in w b live reapi) now.thread now.manager
  with_sidecar-Interleaved fresh server s plugin e now before =
      Interleaved-IsTracked {w = with_sidecar w b} (live_in w b live reapi)
        (sidecar-IsFlux w b live reapi) fresh server s plugin e now before
