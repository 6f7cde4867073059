-- ===== src/Scheduler/Flux/Ends.antt =====
-- The deletion of a running pod whose group holds a job, when the sidecar cancels it.
use flux_k8s.Base.{
  ℕ, String, Bool, false, none, some, ℤ, pos, eqb_ℤ_iff, ◌≡◌, refl, get, get-delete_self,
  get-delete_ne, get-put_self, get-put_ne, ◌≢◌, ap, sym, ◌∙◌, ◌⊎◌, inl, inr,
}
use mathlib.Core.Option.{some_inj}
use flux_k8s.Base.Int.{uint64, int64_of_uint64}
use flux_k8s.Kube.{Pod, PodPhase, PodGroup}
use flux_k8s.Messages.{CancelResponse, MatchResponse, reply}
use flux_k8s.Scheduler.World.{World, Cluster}
use flux_k8s.Scheduler.Allocations.{none_ne_some}
use flux_k8s.Scheduler.Groups.{get_pod_group}
use flux_k8s.Scheduler.Flux.{
  Manager, cleanup, ask_flux, request_match, after_cancel, cancel_job, cancel_flux_job, event_group,
  by_last_phase, delete_pod, by_new_phase, update_pod,
}
use flux_k8s.Scheduler.Flux.Cancel.{IsFlux, Cancels, kept, ended, cancel_flux_job-Cancels}
use flux_k8s.Scheduler.Flux.Clears.{cleanup_jobs, cleanup_server}
use flux_k8s.Scheduler.Flux.Ask.{request_of, matched}
use flux_k8s.Scheduler.PodSpec.Laws.{prepare_pod_job_spec_lem}
use flux_k8s.Scheduler.Flux.Pieces.{release_earlier-some}

module _ {w : World} (c : Cluster) where
  -- What a cancellation that the sidecar carries out comes to.
  cancel_flux_job-cleanup :
      (group : String) (pod : Pod) (m : Manager w) (n : ℕ) (s : w.Server) (r : CancelResponse)
      → get group m.group_to_job ≡ some n
      → w.dial m.server ≡ none
      → w.cancel m.server (record { job_id = int64_of_uint64 n }) ≡ (s, reply r)
      → r.error ≡ pos 0
      → (cancel_flux_job c group pod m).0 ≡ cleanup c pod group (record m { server = s })
  unfolding cancel_flux_job cancel_job after_cancel
  cancel_flux_job-cleanup group pod m n s r held up answer zero =
      rw (held, up, answer, cancel_flux_job, cancel_job)
        (rw ((eqb_ℤ_iff r.error (pos 0)).1 zero) refl)

  cancel_flux_job-ends :
      (group : String) (pod : Pod) (m : Manager w) (n : ℕ) (s : w.Server) (r : CancelResponse)
      → get group m.group_to_job ≡ some n
      → w.dial m.server ≡ none
      → w.cancel m.server (record { job_id = int64_of_uint64 n }) ≡ (s, reply r)
      → r.error ≡ pos 0
      → get group (cancel_flux_job c group pod m).0.group_to_job ≡ none
  cancel_flux_job-ends group pod m n s r held up answer zero =
      ap (λ (x : Manager w). get group x.group_to_job)
        (cancel_flux_job-cleanup group pod m n s r held up answer zero)
      ∙ ap (get group) (cleanup_jobs c pod group (record m { server = s }))
      ∙ get-delete_self group m.group_to_job

  by_last_phase-running :
      (pod : Pod) (pg : PodGroup) (m : Manager w) (n : ℕ) (phase : PodPhase)
      → phase ≡ PodPhase.running
      → (get_pod_group c pod).1 ≡ some pg
      → get (get_pod_group c pod).0 m.group_to_job ≡ some n
      → by_last_phase c phase pod m ≡ (cancel_flux_job c (get_pod_group c pod).0 pod m).0
  unfolding by_last_phase event_group
  by_last_phase-running pod pg m n phase e known held =
      rw e (rw (known, event_group) (release_earlier-some c _ pod m n held))

  update_pod-over :
      (old young : Pod) (pg : PodGroup) (m : Manager w) (n : ℕ)
      → (young.phase ≡ PodPhase.succeeded) ⊎ (young.phase ≡ PodPhase.failed)
      → (get_pod_group c old).1 ≡ some pg
      → get (get_pod_group c old).0 m.group_to_job ≡ some n
      → update_pod c old young m ≡ (cancel_flux_job c (get_pod_group c old).0 old m).0
  unfolding update_pod by_new_phase event_group
  update_pod-over old young pg m n (inl e) known held =
      rw (e, update_pod) (rw (known, event_group) (release_earlier-some c _ old m n held))
  update_pod-over old young pg m n (inr e) known held =
      rw (e, update_pod) (rw (known, event_group) (release_earlier-some c _ old m n held))

  delete_pod-running :
      (pod : Pod) (pg : PodGroup) (m : Manager w) (n : ℕ)
      → pod.phase ≡ PodPhase.running
      → (get_pod_group c pod).1 ≡ some pg
      → get (get_pod_group c pod).0 m.group_to_job ≡ some n
      → delete_pod c pod m ≡ (cancel_flux_job c (get_pod_group c pod).0 pod m).0
  unfolding delete_pod
  delete_pod-running pod pg m n e known held =
      by_last_phase-running pod pg m n pod.phase e known held

  -- The other groups hold what they held.
  pub delete_pod_keeps_others :
      (pod : Pod) (pg : PodGroup) (m : Manager w) (n : ℕ) (s : w.Server) (r : CancelResponse)
      (h : String)
      → pod.phase ≡ PodPhase.running
      → (get_pod_group c pod).1 ≡ some pg
      → get (get_pod_group c pod).0 m.group_to_job ≡ some n
      → w.dial m.server ≡ none
      → w.cancel m.server (record { job_id = int64_of_uint64 n }) ≡ (s, reply r)
      → r.error ≡ pos 0
      → h ≢ (get_pod_group c pod).0
      → get h (delete_pod c pod m).group_to_job ≡ get h m.group_to_job
  delete_pod_keeps_others pod pg m n s r h e known held up answer zero apart =
      let group = (get_pod_group c pod).0 in
      ap (λ (x : Manager w). get h x.group_to_job)
        (delete_pod-running pod pg m n e known held
          ∙ cancel_flux_job-cleanup group pod m n s r held up answer zero)
      ∙ ap (get h) (cleanup_jobs c pod group (record m { server = s }))
      ∙ get-delete_ne group h m.group_to_job (λ same. apart (sym same))

module _ {w : World} (live : w.Server → ℤ → Bool) (flux : IsFlux w live) (c : Cluster) where
  -- A job that a group held and holds no more is over.
  Cancels-over :
      (group : String) (m m' : Manager w) (n : ℕ)
      → Cancels live group m m'
      → get group m.group_to_job ≡ some n
      → get group m'.group_to_job ≡ none
      → live m'.server (int64_of_uint64 n) ≡ false
  Cancels-over group m m' n (kept jobs lives) held freed =
      absurd (none_ne_some n (sym freed ∙ ap (get group) jobs ∙ held))
  Cancels-over group m m' n (ended k holds jobs over others) held freed =
      ap (λ x. live m'.server (int64_of_uint64 x)) (some_inj.0 (sym held ∙ holds)) ∙ over

  -- The group holds no job then, and the job is over.
  pub delete_pod_ends :
      (pod : Pod) (pg : PodGroup) (m : Manager w) (n : ℕ) (s : w.Server) (r : CancelResponse)
      → pod.phase ≡ PodPhase.running
      → (get_pod_group c pod).1 ≡ some pg
      → get (get_pod_group c pod).0 m.group_to_job ≡ some n
      → w.dial m.server ≡ none
      → w.cancel m.server (record { job_id = int64_of_uint64 n }) ≡ (s, reply r)
      → r.error ≡ pos 0
      → (get (get_pod_group c pod).0 (delete_pod c pod m).group_to_job ≡ none)
        × (live (delete_pod c pod m).server (int64_of_uint64 n) ≡ false)
  delete_pod_ends pod pg m n s r e known held up answer zero =
      let group = (get_pod_group c pod).0 in
      let same = delete_pod-running c pod pg m n e known held in
      let freed = cancel_flux_job-ends c group pod m n s r held up answer zero in
      (
        ap (λ (x : Manager w). get group x.group_to_job) same ∙ freed,
        ap (λ (x : Manager w). live x.server (int64_of_uint64 n)) same
            ∙ Cancels-over group m _ n (cancel_flux_job-Cancels live flux c group pod m) held freed,
      )

  pub update_pod_ends :
      (old young : Pod) (pg : PodGroup) (m : Manager w) (n : ℕ) (s : w.Server) (r : CancelResponse)
      → (young.phase ≡ PodPhase.succeeded) ⊎ (young.phase ≡ PodPhase.failed)
      → (get_pod_group c old).1 ≡ some pg
      → get (get_pod_group c old).0 m.group_to_job ≡ some n
      → w.dial m.server ≡ none
      → w.cancel m.server (record { job_id = int64_of_uint64 n }) ≡ (s, reply r)
      → r.error ≡ pos 0
      → (get (get_pod_group c old).0 (update_pod c old young m).group_to_job ≡ none)
        × (live (update_pod c old young m).server (int64_of_uint64 n) ≡ false)
  update_pod_ends old young pg m n s r is_over known held up answer zero =
      let group = (get_pod_group c old).0 in
      let same = update_pod-over c old young pg m n is_over known held in
      let freed = cancel_flux_job-ends c group old m n s r held up answer zero in
      (
        ap (λ (x : Manager w). get group x.group_to_job) same ∙ freed,
        ap (λ (x : Manager w). live x.server (int64_of_uint64 n)) same
            ∙ Cancels-over group m _ n (cancel_flux_job-Cancels live flux c group old m) held freed,
      )

  -- When a group that holds a job asks again, the sidecar cancels that job and then finds nodes with
  -- another number: the group holds the new job, the earlier one is over, and the other groups hold
  -- what they held.
  pub ask_flux-replaces :
      (pod : Pod) (pg : PodGroup) (group : String) (m : Manager w) (n : ℕ) (s s' : w.Server)
      (a : CancelResponse) (r : MatchResponse)
      → get group m.group_to_job ≡ some n
      → w.dial m.server ≡ none
      → w.cancel m.server (record { job_id = int64_of_uint64 n }) ≡ (s, reply a)
      → a.error ≡ pos 0
      → w.dial s ≡ none
      → w.match_allocate s (request_of pod pg group) ≡ (s', reply r)
      → int64_of_uint64 n ≢ r.job_id
      → let after = (ask_flux c pod pg group m).0 in
        (get group after.group_to_job ≡ some (uint64 r.job_id))
        × (live after.server (int64_of_uint64 n) ≡ false)
        × ((h : String) → h ≢ group → get h after.group_to_job ≡ get h m.group_to_job)
  unfolding ask_flux
  ask_flux-replaces pod pg group m n s s' a r held up answer zero up2 found apart =
      let m1 = cleanup c pod group (record m { server = s }) in
      let server = cleanup_server c pod group (record m { server = s }) in
      let jobs = cleanup_jobs c pod group (record m { server = s }) in
      let (over, _) = flux.cancel_done m.server s _ a answer zero in
      let (_, _, _, others) =
        flux.match_new s s' _ r (prepare_pod_job_spec_lem pod group).0 found in
      let after =
        ap (λ x. (request_match c pod pg group x).0)
          (release_earlier-some c group pod m n held
            ∙ cancel_flux_job-cleanup c group pod m n s a held up answer zero)
        ∙ matched live flux c pod pg group m1 s' r (ap w.dial server ∙ up2)
            (ap (λ x. w.match_allocate x (request_of pod pg group)) server ∙ found) in
      rw after (
        get-put_self group (uint64 r.job_id) m1.group_to_job,
        others (int64_of_uint64 n) apart ∙ over,
        λ h ne.
            get-put_ne group h (uint64 r.job_id) m1.group_to_job (λ e. ne (sym e))
            ∙ ap (get h) jobs
            ∙ get-delete_ne group h m.group_to_job (λ e. ne (sym e)),
      )
