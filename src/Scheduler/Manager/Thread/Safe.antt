-- ===== src/Scheduler/Manager/Thread/Safe.antt =====
-- Each piece of the scheduler's thread keeps the jobs of groups sound, with the job whose number has not
-- been written yet.
use flux_k8s.Base.{Bool, [], ◌∷◌, ℤ, Option-cases, inl, inr, get}
use flux_k8s.Kube.{Pod}
use flux_k8s.Messages.{MatchResponse, Reply, reply, refused}
use flux_k8s.Scheduler.World.{World, Cluster}
use flux_k8s.Scheduler.Allocations.{IsSound, Runs, none_yet, Runs-IsSound}
use flux_k8s.Scheduler.Allocations.Flight.{Runs-IsInFlight}
use flux_k8s.Scheduler.Flux.{Manager}
use flux_k8s.Scheduler.Flux.Cancel.{IsFlux}
use flux_k8s.Scheduler.Flux.Refines.{allocations_of, cancel_flux_job-Runs}
use flux_k8s.Scheduler.Flux.Pieces.{IsLaunched, call_match-IsSound, store_job-IsSound}
use flux_k8s.Scheduler.Manager.Refines.{check_size-Runs}
use flux_k8s.Scheduler.Manager.Thread.Start.{start-satisfies}
use flux_k8s.Scheduler.Manager.Thread.{
  Work, Thread, Shared, resting, crashed, asking, releasing, matching, storing, sizing, assigning,
  admitting, over, start, received, advance,
}

module _ {w : World} (live : w.Server → ℤ → Bool) where
  -- A job whose number the thread has not written yet is live, and no group holds it.
  unfoldable pub InFlight : Thread w → Manager w → Type 0
  InFlight (storing k r) m = IsLaunched live m (reply r)
  InFlight _ m = Unit

  -- The jobs are sound, with the one in flight.
  pub record IsSafe (s : Shared w) : Type 0 where
    pub sound : IsSound (allocations_of live s.manager)
    pub in_flight : InFlight s.thread s.manager

  InFlight-Runs :
      (t : Thread w) (m m' : Manager w)
      → Runs (allocations_of live m) (allocations_of live m')
      → InFlight t m
      → InFlight t m'
  unfolding InFlight
  InFlight-Runs (storing k r) m m' runs (range, aloft) = (range, Runs-IsInFlight _ _ _ runs aloft)
  InFlight-Runs resting m m' runs aloft = tt
  InFlight-Runs crashed m m' runs aloft = tt
  InFlight-Runs (asking k) m m' runs aloft = tt
  InFlight-Runs (releasing k) m m' runs aloft = tt
  InFlight-Runs (matching k) m m' runs aloft = tt
  InFlight-Runs (admitting k) m m' runs aloft = tt
  InFlight-Runs (sizing k nodes) m m' runs aloft = tt
  InFlight-Runs (assigning k pods nodes) m m' runs aloft = tt
  InFlight-Runs (over error state) m m' runs aloft = tt

  -- Steps of the jobs by another thread.
  pub Runs-IsSafe :
      (t : Thread w) (m m' : Manager w)
      → Runs (allocations_of live m) (allocations_of live m')
      → IsSafe (record { manager = m; thread = t })
      → IsSafe (record { manager = m'; thread = t })
  Runs-IsSafe t m m' runs s = record {
    sound = Runs-IsSound _ _ runs s.sound;
    in_flight = InFlight-Runs t m m' runs s.in_flight;
  }

  received-IsSafe :
      (c : Cluster) (k : Work w) (a : Manager w × Reply MatchResponse)
      → IsSound (allocations_of live a.0)
      → IsLaunched live a.0 a.1
      → IsSafe (received c k a)
  unfolding received InFlight
  received-IsSafe c k (m, refused e) sound aloft = record { sound = sound; in_flight = tt }
  received-IsSafe c k (m, reply r) sound aloft = record { sound = sound; in_flight = aloft }

  quiet :
      (m m' : Manager w)
      → Runs (allocations_of live m) (allocations_of live m')
      → IsSound (allocations_of live m)
      → (t : Thread w) → InFlight t m'
      → IsSafe (record { manager = m'; thread = t })
  quiet m m' runs sound t aloft = record { sound = Runs-IsSound _ _ runs sound; in_flight = aloft }

module _ {w : World} (live : w.Server → ℤ → Bool) (flux : IsFlux w live) (c : Cluster) where
  -- A piece of the scheduler's thread.
  pub advance-IsSafe :
      (m : Manager w) (t : Thread w)
      → IsSafe live (record { manager = m; thread = t })
      → IsSafe live (advance c m t)
  unfolding advance InFlight
  advance-IsSafe m (asking k) s = elim (Option-cases (get k.group_name m.group_to_job)) [
    | inl e ↦ rw (e, advance) (record { sound = s.sound; in_flight = tt })
    | inr (n, e) ↦ rw (e, advance) (record { sound = s.sound; in_flight = tt })
  ]
  advance-IsSafe m (releasing k) s =
      quiet live m _ (cancel_flux_job-Runs live flux c _ k.group_name k.rep_pod m none_yet) s.sound
        (matching k) tt
  advance-IsSafe m (matching k) s =
      let (sound, aloft) = call_match-IsSound live flux k.rep_pod k.group k.group_name m s.sound in
      received-IsSafe live c k _ sound aloft
  advance-IsSafe m (storing k r) s = record {
    sound = store_job-IsSound live k.group_name r m s.sound s.in_flight.0 s.in_flight.1;
    in_flight = tt;
  }
  advance-IsSafe m (sizing k nodes) s =
      quiet live m _ (check_size-Runs live flux c _ k.group_name k.rep_pod k.pods nodes m none_yet)
        s.sound (assigning k k.pods nodes) tt
  advance-IsSafe m (assigning k pods []) s = record { sound = s.sound; in_flight = tt }
  advance-IsSafe m (assigning k [] (node ∷ nodes)) s = record { sound = s.sound; in_flight = tt }
  advance-IsSafe m (assigning k (pod ∷ pods) (node ∷ nodes)) s = record {
    sound = s.sound;
    in_flight = tt;
  }
  advance-IsSafe m (admitting k) s = record { sound = s.sound; in_flight = tt }
  advance-IsSafe m (over error state) s = s
  advance-IsSafe m resting s = s
  advance-IsSafe m crashed s = s

module _ {w : World} (live : w.Server → ℤ → Bool) (c : Cluster) where
  -- A `PreFilter` starts with no job in flight.
  pub start-IsSafe :
      (pod : Pod) (state : w.State) (m : Manager w)
      → IsSound (allocations_of live m)
      → IsSafe live (record { manager = m; thread = start c pod state m })
  unfolding InFlight
  start-IsSafe pod state m sound = record {
    sound = sound;
    in_flight = start-satisfies c (λ t. InFlight live t m) tt (λ k. tt) (λ e st. tt) pod state m;
  }

module _ {w : World} (live : w.Server → ℤ → Bool) where
  pub resting-IsSafe :
      (m : Manager w)
      → IsSound (allocations_of live m)
      → IsSafe live (record { manager = m; thread = resting })
  unfolding InFlight
  resting-IsSafe m sound = record { sound = sound; in_flight = tt }
