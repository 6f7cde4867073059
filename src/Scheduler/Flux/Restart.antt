-- ===== src/Scheduler/Flux/Restart.antt =====
-- A sidecar that is restarted while the scheduler goes on: the manager keeps the numbers of the jobs
-- of the sidecar before it.
use flux_k8s.Base.{
  ℕ, String, Bool, true, false, none, some, ℤ, pos, ◌≡◌, ◌≢◌, ap, sym, ◌∙◌, get, put, get-put_self,
  get-put_ne,
}
use flux_k8s.Base.Int.{uint64, int64_of_uint64, int64_of_uint64-uint64}
use flux_k8s.Kube.{Pod, PodPhase, PodGroup}
use flux_k8s.Messages.{MatchResponse, CancelResponse, reply}
use flux_k8s.Scheduler.World.{World, Cluster}
use flux_k8s.Scheduler.PodSpec.Laws.{prepare_pod_job_spec_lem}
use flux_k8s.Scheduler.Groups.{get_pod_group}
use flux_k8s.Scheduler.Flux.{Manager, ask_flux, delete_pod}
use flux_k8s.Scheduler.Flux.Cancel.{IsFlux}
use flux_k8s.Scheduler.Flux.Tracking.{IsTracked}
use flux_k8s.Scheduler.Flux.Ask.{ask_flux_new, request_of}
use flux_k8s.Scheduler.Flux.Ends.{delete_pod_ends, delete_pod_keeps_others}

-- The manager once another sidecar answers at the address.
abbrev pub restarted : {w : World} → w.Server → Manager w → Manager w
restarted server m = record m { server = server }

module _ {w : World} (live : w.Server → ℤ → Bool) (flux : IsFlux w live) (c later : Cluster) where
  -- A group holds a job, the sidecar is restarted, and the new one gives a job of another group, which
  -- holds none, the number of that job: both groups then hold the number. When a running pod of the
  -- first group is deleted and the sidecar cancels the job of that number, the second group still
  -- holds its job, which is over, so that the table of jobs is wrong.
  pub restart_ends_another_job :
      (asker pod : Pod) (pg own : PodGroup) (other : String) (m : Manager w) (n : ℕ)
      (s0 s1 s2 : w.Server) (r : MatchResponse) (a : CancelResponse)
      → let group = (get_pod_group later pod).0 in
        get group m.group_to_job ≡ some n
        → get other m.group_to_job ≡ none
        → other ≢ group
        → w.dial s0 ≡ none
        → w.match_allocate s0 (request_of asker pg other) ≡ (s1, reply r)
        → r.job_id ≡ int64_of_uint64 n
        → pod.phase ≡ PodPhase.running
        → (get_pod_group later pod).1 ≡ some own
        → w.dial s1 ≡ none
        → w.cancel s1 (record { job_id = int64_of_uint64 n }) ≡ (s2, reply a)
        → a.error ≡ pos 0
        → let between = (ask_flux c asker pg other (restarted s0 m)).0 in
          let after = delete_pod later pod between in
          (get group between.group_to_job ≡ some n)
          × (get other between.group_to_job ≡ some (uint64 r.job_id))
          × (live between.server r.job_id ≡ true)
          × (get other after.group_to_job ≡ some (uint64 r.job_id))
          × (live after.server r.job_id ≡ false)
          × ¬ IsTracked live after
  restart_ends_another_job asker pod pg own other m n s0 s1 s2 r a held fresh apart up found same
        running known up1 answer zero =
      let jobs = put other (uint64 r.job_id) m.group_to_job in
      let m1 : Manager w = record m { server = s1; group_to_job = jobs } in
      let (range, _, begun, _) =
        flux.match_new s0 s1 _ r (prepare_pod_job_spec_lem asker other).0 found in
      let still =
        get-put_ne other (get_pod_group later pod).0 (uint64 r.job_id) m.group_to_job apart
        ∙ held in
      let mine = get-put_self other (uint64 r.job_id) m.group_to_job in
      let kept =
        delete_pod_keeps_others later pod own m1 n s2 a other running known still up1 answer zero
          apart
        ∙ mine in
      let over =
        ap (live (delete_pod later pod m1).server) same
        ∙ (delete_pod_ends live flux later pod own m1 n s2 a running known still up1 answer
            zero).1 in
      let wrong : ¬ IsTracked live (delete_pod later pod m1) = λ t. cc (
        sym over
        ∙ ap (live (delete_pod later pod m1).server) (sym (int64_of_uint64-uint64 r.job_id range))
        ∙ t.held_is_live other (uint64 r.job_id) kept) in
      rw (ap (λ x. x.0) (ask_flux_new c asker pg other (restarted s0 m) s1 r fresh up found))
        (still, mine, begun, kept, over, wrong)
