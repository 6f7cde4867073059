-- ===== src/Scheduler/Flux/Cancel.antt =====
-- What a cancellation does to the group's job, on each of its paths. `IsFlux` is what the manager
-- relies on in the sidecar, seen as a set of live jobs.
use flux_k8s.Base.{
  ℕ, String, Bool, true, false, some, ℤ, pos, eqb_ℤ, eqb_ℤ_iff, ◌≡◌, ◌≢◌, refl, get, delete,
  Bool-cases, Option-cases, inl, inr, IsInt64,
}
use flux_k8s.Base.Int.{int64_of_uint64}
use flux_k8s.Kube.{Pod}
use flux_k8s.Messages.{
  MatchRequest, MatchResponse, CancelRequest, CancelResponse, Reply, reply, refused,
}
use flux_k8s.Scheduler.World.{World, Cluster}
use flux_k8s.Scheduler.Flux.{Manager, cleanup, after_cancel, cancel_job, cancel_flux_job}

-- A match for a number of cpus that is not 0 makes a new job live, or is refused; a cancellation that
-- answers 0 ends its job; nothing else changes which jobs are live.
pub record IsFlux (w : World) (live : w.Server → ℤ → Bool) : Type 0 where
  pub match_new :
      (s s' : w.Server) (request : MatchRequest) (r : MatchResponse)
      → request.ps.cpu ≢ pos 0
      → w.match_allocate s request ≡ (s', reply r)
      → IsInt64 r.job_id
        × (live s r.job_id ≡ false)
        × (live s' r.job_id ≡ true)
        × ((j : ℤ) → j ≢ r.job_id → live s' j ≡ live s j)
  pub match_refused :
      (s s' : w.Server) (request : MatchRequest) (e : String)
      → request.ps.cpu ≢ pos 0
      → w.match_allocate s request ≡ (s', refused e)
      → (j : ℤ) → live s' j ≡ live s j
  pub cancel_done :
      (s s' : w.Server) (request : CancelRequest) (r : CancelResponse)
      → w.cancel s request ≡ (s', reply r)
      → r.error ≡ pos 0
      → (live s' request.job_id ≡ false) × ((j : ℤ) → j ≢ request.job_id → live s' j ≡ live s j)
  pub cancel_failed :
      (s s' : w.Server) (request : CancelRequest) (r : CancelResponse)
      → w.cancel s request ≡ (s', reply r)
      → r.error ≢ pos 0
      → (j : ℤ) → live s' j ≡ live s j
  pub cancel_refused :
      (s s' : w.Server) (request : CancelRequest) (e : String)
      → w.cancel s request ≡ (s', refused e)
      → (j : ℤ) → live s' j ≡ live s j

module _ {w : World} (live : w.Server → ℤ → Bool) where
  -- The two ends of a request to cancel the job of a group: nothing has changed for any job, or the
  -- group's job is over and the group has none.
  pub data Cancels (group : String) (m m' : Manager w) : Type 0 where
    kept :
        m'.group_to_job ≡ m.group_to_job
        → ((j : ℤ) → live m'.server j ≡ live m.server j)
        → Cancels group m m'
    ended :
        (n : ℕ)
        → get group m.group_to_job ≡ some n
        → m'.group_to_job ≡ delete group m.group_to_job
        → live m'.server (int64_of_uint64 n) ≡ false
        → ((j : ℤ) → j ≢ int64_of_uint64 n → live m'.server j ≡ live m.server j)
        → Cancels group m m'

module _ {w : World} (live : w.Server → ℤ → Bool) (flux : IsFlux w live) (c : Cluster) where
  cleanup_fields :
      (pod : Pod) (group : String) (m : Manager w)
      → ((cleanup c pod group m).group_to_job ≡ delete group m.group_to_job)
        × ((cleanup c pod group m).server ≡ m.server)
  unfolding cleanup
  cleanup_fields pod group m = elim (Option-cases (c.list_pods pod.namespace group)) [
    | inl e ↦ rw (e, cleanup) (refl, refl)
    | inr (pods, e) ↦ rw (e, cleanup) (refl, refl)
  ]

  after_cancel-Cancels :
      (group : String) (pod : Pod) (m : Manager w) (n : ℕ) (a : w.Server × Reply CancelResponse)
      → get group m.group_to_job ≡ some n
      → w.cancel m.server (record { job_id = int64_of_uint64 n }) ≡ a
      → Cancels live group m (after_cancel c group pod m a).0
  unfolding after_cancel
  after_cancel-Cancels group pod m n (s, refused x) e answer =
      kept refl (flux.cancel_refused m.server s _ x answer)
  after_cancel-Cancels group pod m n (s, reply r) e answer =
      elim (Bool-cases (eqb_ℤ r.error (pos 0))) [
        | inr t ↦ rw t (
            kept refl (
              flux.cancel_failed m.server s _ r answer
                (λ z. cc ((eqb_ℤ_iff r.error (pos 0)).1 z, t))))
        | inl t ↦
            let zero = (eqb_ℤ_iff r.error (pos 0)).0 t in
            let (over, others) = flux.cancel_done m.server s _ r answer zero in
            let (jobs, server) = cleanup_fields pod group (record m { server = s }) in
            rw t (ended n e jobs (rw server over) (λ j ne. rw server (others j ne)))
      ]

  pub cancel_flux_job-Cancels :
      (group : String) (pod : Pod) (m : Manager w)
      → Cancels live group m (cancel_flux_job c group pod m).0
  unfolding cancel_flux_job cancel_job
  cancel_flux_job-Cancels group pod m = elim (Option-cases (get group m.group_to_job)) [
    | inl e ↦ rw (e, cancel_flux_job) (kept refl (λ j. refl))
    | inr (n, e) ↦ elim (Option-cases (w.dial m.server)) [
      | inr (x, d) ↦ rw (e, d, cancel_flux_job, cancel_job) (kept refl (λ j. refl))
      | inl d ↦ rw (e, d, cancel_flux_job, cancel_job) (after_cancel-Cancels group pod m n _ e refl)
    ]
  ]
