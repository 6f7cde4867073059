-- ===== src/Scheduler/Manager/Thread/Lost.antt =====
-- A live job that no group holds and that no thread is about to write: nothing ends it any more.
use flux_k8s.Base.{Bool, [], ◌∷◌, ℤ, Option-cases, inl, inr, get}
use flux_k8s.Kube.{Pod}
use flux_k8s.Messages.{MatchResponse, Reply, reply, refused}
use flux_k8s.Scheduler.World.{World, Cluster}
use flux_k8s.Scheduler.Allocations.{Runs, none_yet}
use flux_k8s.Scheduler.Allocations.Flight.{IsInFlight, Runs-IsInFlight}
use flux_k8s.Scheduler.Flux.{Manager}
use flux_k8s.Scheduler.Flux.Cancel.{IsFlux}
use flux_k8s.Scheduler.Flux.Refines.{allocations_of, cancel_flux_job-Runs}
use flux_k8s.Scheduler.Flux.Pieces.Lost.{IsApart, call_match-IsInFlight, store_job-IsInFlight}
use flux_k8s.Scheduler.Manager.Refines.{check_size-Runs}
use flux_k8s.Scheduler.Manager.Thread.Start.{start-satisfies}
use flux_k8s.Scheduler.Manager.Thread.{
  Work, Thread, Shared, resting, crashed, asking, releasing, matching, storing, sizing, assigning,
  admitting, over, start, received, advance,
}

module _ {w : World} (live : w.Server → ℤ → Bool) (j : ℤ) where
  -- The number that the thread is about to write is another one.
  unfoldable pub Elsewhere : Thread w → Type 0
  Elsewhere (storing k r) = IsApart j (reply r)
  Elsewhere _ = Unit

  pub record IsLost (s : Shared w) : Type 0 where
    pub unheld : IsInFlight (allocations_of live s.manager) j
    pub unwritten : Elsewhere s.thread

  pub Runs-IsLost :
      (t : Thread w) (m m' : Manager w)
      → Runs (allocations_of live m) (allocations_of live m')
      → IsLost (record { manager = m; thread = t })
      → IsLost (record { manager = m'; thread = t })
  Runs-IsLost t m m' runs s = record {
    unheld = Runs-IsInFlight _ _ j runs s.unheld;
    unwritten = s.unwritten;
  }

  received-IsLost :
      (c : Cluster) (k : Work w) (a : Manager w × Reply MatchResponse)
      → IsInFlight (allocations_of live a.0) j
      → IsApart j a.1
      → IsLost (received c k a)
  unfolding received Elsewhere
  received-IsLost c k (m, refused e) lost apart = record { unheld = lost; unwritten = tt }
  received-IsLost c k (m, reply r) lost apart = record { unheld = lost; unwritten = apart }

  pub resting-IsLost :
      (m : Manager w)
      → IsInFlight (allocations_of live m) j
      → IsLost (record { manager = m; thread = resting })
  unfolding Elsewhere
  resting-IsLost m lost = record { unheld = lost; unwritten = tt }

  pub start-IsLost :
      (c : Cluster) (pod : Pod) (state : w.State) (m : Manager w)
      → IsInFlight (allocations_of live m) j
      → IsLost (record { manager = m; thread = start c pod state m })
  unfolding Elsewhere
  start-IsLost c pod state m lost = record {
    unheld = lost;
    unwritten = start-satisfies c Elsewhere tt (λ k. tt) (λ e st. tt) pod state m;
  }

  module _ (flux : IsFlux w live) (c : Cluster) where
    pub advance-IsLost :
        (m : Manager w) (t : Thread w)
        → IsLost (record { manager = m; thread = t })
        → IsLost (advance c m t)
    unfolding advance Elsewhere
    advance-IsLost m (asking k) s = elim (Option-cases (get k.group_name m.group_to_job)) [
      | inl e ↦ rw (e, advance) (record { unheld = s.unheld; unwritten = tt })
      | inr (n, e) ↦ rw (e, advance) (record { unheld = s.unheld; unwritten = tt })
    ]
    advance-IsLost m (releasing k) s = record {
      unheld =
          Runs-IsInFlight _ _ j
            (cancel_flux_job-Runs live flux c _ k.group_name k.rep_pod m none_yet) s.unheld;
      unwritten = tt;
    }
    advance-IsLost m (matching k) s =
        let (lost, apart) =
          call_match-IsInFlight live j flux k.rep_pod k.group k.group_name m s.unheld in
        received-IsLost c k _ lost apart
    advance-IsLost m (storing k r) s = record {
      unheld = store_job-IsInFlight live j k.group_name r m s.unheld s.unwritten.0 s.unwritten.1;
      unwritten = tt;
    }
    advance-IsLost m (sizing k nodes) s = record {
      unheld =
          Runs-IsInFlight _ _ j
            (check_size-Runs live flux c _ k.group_name k.rep_pod k.pods nodes m none_yet) s.unheld;
      unwritten = tt;
    }
    advance-IsLost m (assigning k pods []) s = record { unheld = s.unheld; unwritten = tt }
    advance-IsLost m (assigning k [] (node ∷ nodes)) s = record {
      unheld = s.unheld;
      unwritten = tt;
    }
    advance-IsLost m (assigning k (pod ∷ pods) (node ∷ nodes)) s = record {
      unheld = s.unheld;
      unwritten = tt;
    }
    advance-IsLost m (admitting k) s = record { unheld = s.unheld; unwritten = tt }
    advance-IsLost m (over error state) s = s
    advance-IsLost m resting s = s
    advance-IsLost m crashed s = s
