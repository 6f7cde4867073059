-- ===== src/Sidecar/Cancelled.antt =====
-- The plugin's cancellation at work with the sidecar of this repository.
use flux_k8s.Base.{String, Option, none, get, ◌≡◌}
use flux_k8s.Kube.{Pod}
use flux_k8s.Messages.{MatchRequest, MatchResponse, Reply}
use flux_k8s.Scheduler.World.{World, Cluster}
use flux_k8s.Scheduler.Flux.{Manager, cancel_flux_job}
use flux_k8s.Scheduler.Flux.Clears.{AnswersZero, cancel_flux_job-clears}
use flux_k8s.Sidecar.Fluxion.{Bindings, flux_cancel, flux_cancel_lem}

-- A world whose server is the sidecar, as far as `Cancel` goes.
abbrev pub served :
    World
    → (b : Bindings) → (b.Context → Option String)
    → (b.Context → MatchRequest → b.Context × Reply MatchResponse)
    → World
served w b dial match_allocate = record {
  Store = w.Store;
  is_cached = w.is_cached;
  add = w.add;
  remove = w.remove;
  State = w.State;
  read = w.read;
  write = w.write;
  Server = b.Context;
  dial = dial;
  match_allocate = match_allocate;
  cancel = λ context request. flux_cancel b request context;
}

module _ (w : World) (b : Bindings) (dial : b.Context → Option String)
    (match_allocate : b.Context → MatchRequest → b.Context × Reply MatchResponse) where
  served-AnswersZero : AnswersZero (served w b dial match_allocate)
  served-AnswersZero s s' request r e = (flux_cancel_lem b request s s' r e).1

  -- With this sidecar, a cancellation of a group's job that returns no error leaves the group without
  -- a job, whatever Fluxion answers.
  pub cancelled_or_error :
      (c : Cluster) (pod : Pod) (group : String) (m : Manager (served w b dial match_allocate))
      → (cancel_flux_job c group pod m).1 ≡ none
      → get group (cancel_flux_job c group pod m).0.group_to_job ≡ none
  cancelled_or_error c pod group m =
      cancel_flux_job-clears {w = served w b dial match_allocate} served-AnswersZero c pod group m
