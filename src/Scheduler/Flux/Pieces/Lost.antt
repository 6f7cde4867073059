-- ===== src/Scheduler/Flux/Pieces/Lost.antt =====
-- The pieces of `AskFlux` leave a live job alone that no group holds.
use flux_k8s.Base.{String, Bool, ℤ, pos, IsInt64, ◌≡◌, ◌≢◌, refl, Option-cases, inl, inr, ap, ◌∙◌}
use flux_k8s.Kube.{Pod, PodGroup}
use flux_k8s.Messages.{MatchRequest, MatchResponse, Reply, reply, refused}
use flux_k8s.Scheduler.World.{World}
use flux_k8s.Scheduler.PodSpec.Laws.{prepare_pod_job_spec_lem}
use flux_k8s.Scheduler.Allocations.Flight.{IsInFlight, launch-IsInFlight, adopt-IsInFlight}
use flux_k8s.Scheduler.Flux.{Manager}
use flux_k8s.Scheduler.Flux.Cancel.{IsFlux}
use flux_k8s.Scheduler.Flux.Refines.{allocations_of}
use flux_k8s.Scheduler.Flux.Pieces.{
  with_answer, call_match, store_job, store_job_holds, store_job-held,
}

-- The answer names another job.
abbrev pub IsApart : ℤ → Reply MatchResponse → Type 0
IsApart j (refused e) = Unit
IsApart j (reply r) = IsInt64 r.job_id × (r.job_id ≢ j)

module _ {w : World} (live : w.Server → ℤ → Bool) (j : ℤ) where
  with_answer-IsInFlight :
      IsFlux w live
      → (m : Manager w) (request : MatchRequest) (a : w.Server × Reply MatchResponse)
      → IsInFlight (allocations_of live m) j
      → request.ps.cpu ≢ pos 0
      → w.match_allocate m.server request ≡ a
      → IsInFlight (allocations_of live (with_answer m a).0) j × IsApart j (with_answer m a).1
  with_answer-IsInFlight flux m request (s, refused e) lost asks answer = (
    record {
      is_live = flux.match_refused m.server s request e asks answer j ∙ lost.is_live;
      unheld = lost.unheld;
    },
    tt,
  )
  with_answer-IsInFlight flux m request (s, reply r) lost asks answer =
      let (range, fresh, begun, others) = flux.match_new m.server s request r asks answer in
      let (still, apart) =
        launch-IsInFlight (allocations_of live m) (allocations_of live (record m { server = s }))
          r.job_id j lost fresh (λ g. refl) others in
      (still, (range, apart))

  pub call_match-IsInFlight :
      IsFlux w live
      → (pod : Pod) (pg : PodGroup) (group : String) (m : Manager w)
      → IsInFlight (allocations_of live m) j
      → let (m1, answer) = call_match pod pg group m in
        IsInFlight (allocations_of live m1) j × IsApart j answer
  unfolding call_match
  call_match-IsInFlight flux pod pg group m lost = elim (Option-cases (w.dial m.server)) [
    | inl d ↦
        rw (d, call_match)
          (with_answer-IsInFlight flux m _ _ lost (prepare_pod_job_spec_lem pod group).0 refl)
    | inr (x, d) ↦ rw (d, call_match) (lost, tt)
  ]

  pub store_job-IsInFlight :
      (group : String) (r : MatchResponse) (m : Manager w)
      → IsInFlight (allocations_of live m) j
      → IsInt64 r.job_id
      → r.job_id ≢ j
      → IsInFlight (allocations_of live (store_job group r m)) j
  store_job-IsInFlight group r m lost range apart =
      let (holds, others) = store_job-held group r m range in
      adopt-IsInFlight (allocations_of live m) (allocations_of live (store_job group r m)) group
        r.job_id j lost apart holds others (λ k. ap (λ s. live s k) (store_job_holds group r m).1)
