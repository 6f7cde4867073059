-- ===== src/Scheduler/Flux/Tracking.antt =====
-- The manager's table of jobs against the sidecar's live jobs, over every request and event.
use mathlib.Core.Option.{some_inj}
use flux_k8s.Base.{
  ℕ, String, Bool, true, ◌⊎◌, some, ℤ, ◌≡◌, ◌≢◌, Map, get, put, get-put, Option-cases, inl, inr,
  sym, ◌∙◌, ap, eq_iff, arith,
}
use flux_k8s.Base.Int.{int64_of_uint64}
use flux_k8s.Kube.{Pod, PodGroup}
use flux_k8s.Scheduler.World.{World, Cluster}
use flux_k8s.Scheduler.Allocations.{IsSound, none_ne_some, Runs, none_yet, Runs-IsSound}
use flux_k8s.Scheduler.Flux.{Manager, ask_flux, update_pod, delete_pod}
use flux_k8s.Scheduler.Flux.Cancel.{IsFlux}
use flux_k8s.Scheduler.Flux.Refines.{
  allocations_of, of_held, held_job, ask_flux-Runs, update_pod-Runs, delete_pod-Runs,
}

-- Every job that the table holds is live, and no two groups hold the same job.
pub record IsTracked {w : World} (live : w.Server → ℤ → Bool) (m : Manager w) : Type 0 where
  pub held_is_live :
      (g : String) (n : ℕ)
      → get g m.group_to_job ≡ some n
      → live m.server (int64_of_uint64 n) ≡ true
  pub held_once :
      (g h : String) (n k : ℕ)
      → get g m.group_to_job ≡ some n
      → get h m.group_to_job ≡ some k
      → int64_of_uint64 n ≡ int64_of_uint64 k
      → g ≡ h

pub held_after_put :
    {V : Type 0} (g k : String) (v n : V) (m : Map V)
    → get g (put k v m) ≡ some n
    → ((k ≡ g) × (n ≡ v)) ⊎ ((k ≢ g) × (get g m ≡ some n))
held_after_put g k v n m h = ground (arith, get-put k g v m, eq_iff k g)

pub held_job-some :
    (table : Map ℕ) (g : String) (j : ℤ)
    → held_job table g ≡ some j
    → (n : ℕ) × (get g table ≡ some n) × (int64_of_uint64 n ≡ j)
held_job-some table g j h = elim (Option-cases (get g table)) [
  | inl e ↦ absurd (none_ne_some j (sym (ap of_held e) ∙ h))
  | inr (n, e) ↦ (n, e, some_inj.0 (sym (ap of_held e) ∙ h))
]

module _ {w : World} (live : w.Server → ℤ → Bool) where
  pub IsTracked-IsSound : (m : Manager w) → IsTracked live m → IsSound (allocations_of live m)
  IsTracked-IsSound m t = record {
    held_is_live = λ g j e.
        let (n, held, same) = held_job-some m.group_to_job g j e in
        ap (live m.server) (sym same) ∙ t.held_is_live g n held;
    held_once = λ g h j e f.
        let (n, held, same) = held_job-some m.group_to_job g j e in
        let (k, also, same2) = held_job-some m.group_to_job h j f in
        t.held_once g h n k held also (same ∙ sym same2);
  }

  pub IsSound-IsTracked : (m : Manager w) → IsSound (allocations_of live m) → IsTracked live m
  IsSound-IsTracked m s = record {
    held_is_live = λ g n e. s.held_is_live g (int64_of_uint64 n) (ap of_held e);
    held_once = λ g h n k e f same.
        s.held_once g h (int64_of_uint64 n) (ap of_held e) (ap of_held f ∙ ap some (sym same));
  }

  -- What stands for steps from a manager that tracks its jobs tracks its jobs.
  pub Runs-IsTracked :
      (m m' : Manager w)
      → Runs (allocations_of live m) (allocations_of live m')
      → IsTracked live m
      → IsTracked live m'
  Runs-IsTracked m m' runs t = IsSound-IsTracked m' (Runs-IsSound _ _ runs (IsTracked-IsSound m t))

module _ {w : World} (live : w.Server → ℤ → Bool) (flux : IsFlux w live) (c : Cluster) where
  -- A request for nodes keeps the table true, whatever the sidecar answers.
  pub ask_flux-IsTracked :
      (pod : Pod) (pg : PodGroup) (group : String) (m : Manager w)
      → IsTracked live m
      → IsTracked live (ask_flux c pod pg group m).0
  ask_flux-IsTracked pod pg group m =
      Runs-IsTracked live m _ (ask_flux-Runs live flux c _ pod pg group m none_yet)

  -- An update of a pod keeps the table true, whether or not the job can be cancelled.
  pub update_pod-IsTracked :
      (old new : Pod) (m : Manager w) → IsTracked live m → IsTracked live (update_pod c old new m)
  update_pod-IsTracked old new m =
      Runs-IsTracked live m _ (update_pod-Runs live flux c _ old new m none_yet)

  -- The deletion of a pod keeps the table true, whether or not the job can be cancelled.
  pub delete_pod-IsTracked :
      (pod : Pod) (m : Manager w) → IsTracked live m → IsTracked live (delete_pod c pod m)
  delete_pod-IsTracked pod m =
      Runs-IsTracked live m _ (delete_pod-Runs live flux c _ pod m none_yet)
