-- ===== src/Scheduler/Flux/Refines.antt =====
-- Every request and event of the manager as steps of the groups' jobs: the table of jobs and the
-- sidecar refine `Allocations`.
use flux_k8s.Base.{
  ℕ, String, Bool, none, some, Option, ℤ, pos, ◌≡◌, ◌≢◌, refl, Map, get, get-put_self, get-put_ne,
  get-delete_self, get-delete_ne, Option-cases, inl, inr, sym, ◌∙◌, ap,
}
use flux_k8s.Base.Int.{uint64, int64_of_uint64, int64_of_uint64-uint64}
use flux_k8s.Kube.{Pod, PodPhase, PodGroup}
use flux_k8s.Messages.{MatchRequest, MatchResponse, Reply, reply, refused}
use flux_k8s.Scheduler.World.{World, Cluster}
use flux_k8s.Scheduler.Allocations.{Allocations, Step, idle, begin, finish, Runs, and_then}
use flux_k8s.Scheduler.PodSpec.Laws.{prepare_pod_job_spec_lem}
use flux_k8s.Scheduler.Flux.{
  Manager, after_match, request_match, release_earlier, ask_flux, by_new_phase, update_pod,
  by_last_phase, delete_pod, cancel_flux_job,
}
use flux_k8s.Scheduler.Flux.Cancel.{IsFlux, Cancels, kept, ended, cancel_flux_job-Cancels}

-- The job that a table holds for a group, as the number that is sent to the sidecar.
abbrev pub held_job : Map ℕ → String → Option ℤ
held_job table g = elim (get g table) [ none ↦ none | some n ↦ some (int64_of_uint64 n) ]

abbrev pub of_held : Option ℕ → Option ℤ
of_held o = elim o [ none ↦ none | some n ↦ some (int64_of_uint64 n) ]

-- What the manager and the sidecar stand for together.
abbrev pub allocations_of : {w : World} → (w.Server → ℤ → Bool) → Manager w → Allocations
allocations_of live m = record { held = held_job m.group_to_job; live = live m.server }

module _ {w : World} (live : w.Server → ℤ → Bool) where
  Cancels-Step :
      (group : String) (m m' : Manager w)
      → Cancels live group m m'
      → Step (allocations_of live m) (allocations_of live m')
  Cancels-Step group m m' (kept jobs lives) = idle (λ g. ap (λ t. held_job t g) jobs) lives
  Cancels-Step group m m' (ended n held jobs over others) =
      finish group (int64_of_uint64 n) (ap of_held held)
        (ap (λ t. held_job t group) jobs ∙ ap of_held (get-delete_self group m.group_to_job))
        (λ h apart.
          ap (λ t. held_job t h) jobs
          ∙ ap of_held (get-delete_ne group h m.group_to_job (λ e. apart (sym e))))
        over others

  after_match-Step :
      IsFlux w live
      → (c : Cluster) (group : String) (m : Manager w) (request : MatchRequest)
      → (a : w.Server × Reply MatchResponse) → request.ps.cpu ≢ pos 0
      → w.match_allocate m.server request ≡ a
      → Step (allocations_of live m) (allocations_of live (after_match c group m a).0)
  unfolding after_match
  after_match-Step flux c group m request (s, refused e) asks answer =
      idle (λ g. refl) (flux.match_refused m.server s request e asks answer)
  after_match-Step flux c group m request (s, reply r) asks answer =
      let (range, fresh, begun, others) = flux.match_new m.server s request r asks answer in
      begin group r.job_id fresh
        (ap of_held (get-put_self group (uint64 r.job_id) m.group_to_job)
          ∙ ap some (int64_of_uint64-uint64 r.job_id range))
        (λ h apart.
          ap of_held (get-put_ne group h (uint64 r.job_id) m.group_to_job (λ e. apart (sym e))))
        begun others

module _ {w : World} (live : w.Server → ℤ → Bool) (flux : IsFlux w live) (c : Cluster)
    (a : Allocations) where
  -- What has come of `a` so far.
  abbrev RunsTo : Manager w → Type 0
  RunsTo m = Runs a (allocations_of live m)

  pub cancel_flux_job-Runs :
      (group : String) (pod : Pod) (m : Manager w)
      → RunsTo m
      → RunsTo (cancel_flux_job c group pod m).0
  cancel_flux_job-Runs group pod m t =
      and_then _ _ t (Cancels-Step live group m _ (cancel_flux_job-Cancels live flux c group pod m))

  release_earlier-Runs :
      (group : String) (pod : Pod) (m : Manager w)
      → RunsTo m
      → RunsTo (release_earlier c group pod m)
  unfolding release_earlier
  release_earlier-Runs group pod m t = elim (Option-cases (get group m.group_to_job)) [
    | inl e ↦ rw (e, release_earlier) t
    | inr (n, e) ↦ rw (e, release_earlier) (cancel_flux_job-Runs group pod m t)
  ]

  request_match-Runs :
      (pod : Pod) (pg : PodGroup) (group : String) (m : Manager w)
      → RunsTo m
      → RunsTo (request_match c pod pg group m).0
  unfolding request_match
  request_match-Runs pod pg group m t = elim (Option-cases (w.dial m.server)) [
    | inl d ↦
        rw (d, request_match)
          (and_then _ _ t
            (after_match-Step live flux c group m _ _ (prepare_pod_job_spec_lem pod group).0 refl))
    | inr (x, d) ↦ rw (d, request_match) t
  ]

  pub ask_flux-Runs :
      (pod : Pod) (pg : PodGroup) (group : String) (m : Manager w)
      → RunsTo m
      → RunsTo (ask_flux c pod pg group m).0
  unfolding ask_flux
  ask_flux-Runs pod pg group m t =
      request_match-Runs pod pg group _ (release_earlier-Runs group pod m t)

  by_new_phase-Runs :
      (phase : PodPhase) (old : Pod) (m : Manager w)
      → RunsTo m
      → RunsTo (by_new_phase c phase old m)
  unfolding by_new_phase
  by_new_phase-Runs PodPhase.succeeded old m t = release_earlier-Runs _ old m t
  by_new_phase-Runs PodPhase.failed old m t = release_earlier-Runs _ old m t
  by_new_phase-Runs PodPhase.pending old m t = t
  by_new_phase-Runs PodPhase.running old m t = t
  by_new_phase-Runs PodPhase.unknown old m t = t
  by_new_phase-Runs (PodPhase.other _) old m t = t

  by_last_phase-Runs :
      (phase : PodPhase) (pod : Pod) (m : Manager w)
      → RunsTo m
      → RunsTo (by_last_phase c phase pod m)
  unfolding by_last_phase
  by_last_phase-Runs PodPhase.pending pod m t = release_earlier-Runs _ pod m t
  by_last_phase-Runs PodPhase.running pod m t = release_earlier-Runs _ pod m t
  by_last_phase-Runs PodPhase.succeeded pod m t = t
  by_last_phase-Runs PodPhase.failed pod m t = t
  by_last_phase-Runs PodPhase.unknown pod m t = t
  by_last_phase-Runs (PodPhase.other _) pod m t = t

  pub update_pod-Runs : (old new : Pod) (m : Manager w) → RunsTo m → RunsTo (update_pod c old new m)
  unfolding update_pod
  update_pod-Runs old new m t = by_new_phase-Runs new.phase old m t

  pub delete_pod-Runs : (pod : Pod) (m : Manager w) → RunsTo m → RunsTo (delete_pod c pod m)
  unfolding delete_pod
  delete_pod-Runs pod m t = by_last_phase-Runs pod.phase pod m t
