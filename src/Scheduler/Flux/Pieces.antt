-- ===== src/Scheduler/Flux/Pieces.antt =====
-- `AskFlux` of core/flux.go piece by piece: the call of the sidecar is made without the lock, and the
-- number of the job is written to the table under it, later.
pub mod Lost
use flux_k8s.Base.{
  ℕ, String, Bool, true, false, List, map, Option, none, some, ℤ, pos, ◌≡◌, ◌≢◌, refl, get, put,
  get-put_self, get-put_ne, Option-cases, inl, inr, ap, sym, ◌∙◌,
}
use flux_k8s.Base.Int.{uint64, int64_of_uint64, int64_of_uint64-uint64}
use flux_k8s.Base.{IsInt64}
use flux_k8s.Kube.{Pod, PodPhase, PodGroup}
use flux_k8s.Messages.{MatchRequest, MatchResponse, NodeAlloc, Reply, reply, refused}
use flux_k8s.Scheduler.World.{World, Cluster}
use flux_k8s.Scheduler.PodSpec.{prepare_pod_job_spec}
use flux_k8s.Scheduler.PodSpec.Laws.{prepare_pod_job_spec_lem}
use flux_k8s.Scheduler.Groups.{get_pod_group}
use flux_k8s.Scheduler.Allocations.{IsSound}
use flux_k8s.Scheduler.Allocations.Flight.{IsInFlight, launch-IsSound, adopt-IsSound}
use flux_k8s.Scheduler.Flux.{
  Manager, cancel_flux_job, after_match, request_match, release_earlier, ask_flux, event_group,
  by_last_phase, delete_pod,
}
use flux_k8s.Scheduler.Flux.Cancel.{IsFlux}
use flux_k8s.Scheduler.Flux.Ask.{request_of}
use flux_k8s.Scheduler.Flux.Refines.{allocations_of, of_held, held_job}

abbrev pub node_ids : MatchResponse → List String
node_ids r = map (λ (n : NodeAlloc). n.node_id) r.nodelist

module _ {w : World} where
  -- The call of `Match`; the table is left as it is.
  abbrev with_answer : Manager w → w.Server × Reply MatchResponse → Manager w × Reply MatchResponse
  with_answer m (server, answer) = (record m { server = server }, answer)

  pub call_match : Pod → PodGroup → String → Manager w → Manager w × Reply MatchResponse
  call_match pod pg group_name m = elim (w.dial m.server) [
    | some e ↦ (m, refused e)
    | none ↦ with_answer m (w.match_allocate m.server (request_of pod pg group_name))
  ]

  -- The call of `Match` with a sidecar that can be reached and finds nodes.
  pub call_match-answer :
      (pod : Pod) (pg : PodGroup) (group : String) (m : Manager w) (s : w.Server)
      (r : MatchResponse)
      → w.dial m.server ≡ none
      → w.match_allocate m.server (request_of pod pg group) ≡ (s, reply r)
      → call_match pod pg group m ≡ (record m { server = s }, reply r)
  unfolding call_match
  call_match-answer pod pg group m s r up found = rw (up, call_match) (ap (with_answer m) found)

  pub store_job : String → MatchResponse → Manager w → Manager w
  store_job group_name r m = record m {
    group_to_job = put group_name (uint64 r.job_id) m.group_to_job;
  }

  unfoldable pub stored : String → Manager w × Reply MatchResponse → Manager w × Reply (List String)
  stored group_name (m, refused e) = (m, refused e)
  stored group_name (m, reply r) = (store_job group_name r m, reply (node_ids r))

  pub store_job_holds :
      (group : String) (r : MatchResponse) (m : Manager w)
      → (get group (store_job group r m).group_to_job ≡ some (uint64 r.job_id))
        × ((store_job group r m).server ≡ m.server)
  unfolding store_job
  store_job_holds group r m = (get-put_self group (uint64 r.job_id) m.group_to_job, refl)

  -- Then the group holds the job, and the others what they held.
  pub store_job-held :
      (group : String) (r : MatchResponse) (m : Manager w)
      → IsInt64 r.job_id
      → let after = (store_job group r m).group_to_job in
        (held_job after group ≡ some r.job_id)
        × ((h : String) → h ≢ group → held_job after h ≡ held_job m.group_to_job h)
  unfolding store_job
  store_job-held group r m range = (
    ap of_held (get-put_self group (uint64 r.job_id) m.group_to_job)
        ∙ ap some (int64_of_uint64-uint64 r.job_id range),
    λ h apart.
        ap of_held (get-put_ne group h (uint64 r.job_id) m.group_to_job (λ e. apart (sym e))),
  )

  after_match-stored :
      (c : Cluster) (group : String) (m : Manager w) (a : w.Server × Reply MatchResponse)
      → after_match c group m a ≡ stored group (with_answer m a)
  unfolding after_match stored store_job
  after_match-stored c group m (s, refused e) = refl
  after_match-stored c group m (s, reply r) = refl

  -- `AskFlux` is the release of the earlier job, the call and the write, when nothing comes between.
  pub ask_flux-pieces :
      (c : Cluster) (pod : Pod) (pg : PodGroup) (group : String) (m : Manager w)
      → ask_flux c pod pg group m
        ≡ stored group (call_match pod pg group (release_earlier c group pod m))
  unfolding ask_flux request_match call_match stored
  ask_flux-pieces c pod pg group m =
      let m1 = release_earlier c group pod m in
      elim (Option-cases (w.dial m1.server)) [
        | inl d ↦ rw (d, request_match, call_match) (after_match-stored c group m1 _)
        | inr (x, d) ↦ rw (d, request_match, call_match) refl
      ]

  -- The earlier job is released by a cancellation if there is one.
  pub release_earlier-none :
      (c : Cluster) (group : String) (pod : Pod) (m : Manager w)
      → get group m.group_to_job ≡ none
      → release_earlier c group pod m ≡ m
  unfolding release_earlier
  release_earlier-none c group pod m e = rw (e, release_earlier) refl

  pub release_earlier-some :
      (c : Cluster) (group : String) (pod : Pod) (m : Manager w) (n : ℕ)
      → get group m.group_to_job ≡ some n
      → release_earlier c group pod m ≡ (cancel_flux_job c group pod m).0
  unfolding release_earlier
  release_earlier-some c group pod m n e = rw (e, release_earlier) refl

  by_last_phase-unheld :
      (c : Cluster) (pod : Pod) (pg : PodGroup) (m : Manager w) (phase : PodPhase)
      → (get_pod_group c pod).1 ≡ some pg
      → get (get_pod_group c pod).0 m.group_to_job ≡ none
      → by_last_phase c phase pod m ≡ m
  unfolding by_last_phase event_group
  by_last_phase-unheld c pod pg m PodPhase.pending known e =
      rw (known, event_group) (release_earlier-none c _ pod m e)
  by_last_phase-unheld c pod pg m PodPhase.running known e =
      rw (known, event_group) (release_earlier-none c _ pod m e)
  by_last_phase-unheld c pod pg m PodPhase.succeeded known e = refl
  by_last_phase-unheld c pod pg m PodPhase.failed known e = refl
  by_last_phase-unheld c pod pg m PodPhase.unknown known e = refl
  by_last_phase-unheld c pod pg m (PodPhase.other _) known e = refl

  -- The deletion of a pod whose group holds no job does nothing.
  pub delete_pod-unheld :
      (c : Cluster) (pod : Pod) (pg : PodGroup) (m : Manager w)
      → (get_pod_group c pod).1 ≡ some pg
      → get (get_pod_group c pod).0 m.group_to_job ≡ none
      → delete_pod c pod m ≡ m
  unfolding delete_pod
  delete_pod-unheld c pod pg m known e = by_last_phase-unheld c pod pg m pod.phase known e

module _ {w : World} (live : w.Server → ℤ → Bool) where
  -- What the call of the sidecar may come to for the jobs.
  abbrev pub IsLaunched : Manager w → Reply MatchResponse → Type 0
  IsLaunched m (refused e) = Unit
  IsLaunched m (reply r) = IsInt64 r.job_id × IsInFlight (allocations_of live m) r.job_id

  with_answer-IsSound :
      IsFlux w live
      → (m : Manager w) (request : MatchRequest) (a : w.Server × Reply MatchResponse)
      → IsSound (allocations_of live m)
      → request.ps.cpu ≢ pos 0
      → w.match_allocate m.server request ≡ a
      → IsSound (allocations_of live (with_answer m a).0)
        × IsLaunched (with_answer m a).0 (with_answer m a).1
  with_answer-IsSound flux m request (s, refused e) sound asks answer =
      let same = flux.match_refused m.server s request e asks answer in
      (
        record {
          held_is_live = λ g j h. same j ∙ sound.held_is_live g j h;
          held_once = sound.held_once;
        },
        tt,
      )
  with_answer-IsSound flux m request (s, reply r) sound asks answer =
      let (range, fresh, begun, others) = flux.match_new m.server s request r asks answer in
      let (still, aloft) =
        launch-IsSound (allocations_of live m) (allocations_of live (record m { server = s }))
          r.job_id sound fresh (λ g. refl) begun others in
      (still, (range, aloft))

  pub call_match-IsSound :
      IsFlux w live
      → (pod : Pod) (pg : PodGroup) (group : String) (m : Manager w)
      → IsSound (allocations_of live m)
      → let (m1, answer) = call_match pod pg group m in
        IsSound (allocations_of live m1) × IsLaunched m1 answer
  unfolding call_match
  call_match-IsSound flux pod pg group m sound = elim (Option-cases (w.dial m.server)) [
    | inl d ↦
        rw (d, call_match)
          (with_answer-IsSound flux m _ _ sound (prepare_pod_job_spec_lem pod group).0 refl)
    | inr (x, d) ↦ rw (d, call_match) (sound, tt)
  ]

  pub store_job-IsSound :
      (group : String) (r : MatchResponse) (m : Manager w)
      → IsSound (allocations_of live m)
      → IsInt64 r.job_id
      → IsInFlight (allocations_of live m) r.job_id
      → IsSound (allocations_of live (store_job group r m))
  store_job-IsSound group r m sound range aloft =
      let (holds, others) = store_job-held group r m range in
      adopt-IsSound (allocations_of live m) (allocations_of live (store_job group r m)) group
        r.job_id sound aloft holds others (λ k. ap (λ s. live s k) (store_job_holds group r m).1)
