-- ===== src/Scheduler/Flux/Ask.antt =====
-- Which live jobs the manager still knows after it has asked the sidecar for nodes.
use flux_k8s.Base.{
  ℕ, String, Bool, true, false, none, some, ℤ, ◌≡◌, ◌≢◌, get, put, map, sym, ◌∙◌, ap, inl, inr,
}
use flux_k8s.Base.Int.{uint64, int64_of_uint64, int64_of_uint64-uint64}
use flux_k8s.Kube.{Pod, PodGroup}
use flux_k8s.Messages.{MatchRequest, MatchResponse, NodeAlloc, reply, refused}
use flux_k8s.Scheduler.World.{World, Cluster}
use flux_k8s.Scheduler.PodSpec.{prepare_pod_job_spec}
use flux_k8s.Scheduler.PodSpec.Laws.{prepare_pod_job_spec_lem}
use flux_k8s.Scheduler.Flux.{
  Manager, after_match, request_match, release_earlier, ask_flux, cancel_flux_job, after_cancel,
  cancel_job,
}
use flux_k8s.Scheduler.Flux.Cancel.{IsFlux}
use flux_k8s.Scheduler.Flux.Tracking.{IsTracked, held_after_put}

-- The request that `AskFlux` sends.
abbrev pub request_of : Pod → PodGroup → String → MatchRequest
request_of pod pg group = record {
  ps = prepare_pod_job_spec pod group;
  request = "allocate";
  count = pg.spec.min_member;
}

module _ {w : World} (c : Cluster) where
  -- A request for a group with no job that the sidecar answers.
  pub ask_flux_new :
      (pod : Pod) (pg : PodGroup) (group : String) (m : Manager w) (s : w.Server)
      (r : MatchResponse)
      → get group m.group_to_job ≡ none
      → w.dial m.server ≡ none
      → w.match_allocate m.server (request_of pod pg group) ≡ (s, reply r)
      → ask_flux c pod pg group m ≡ (
        record m { server = s; group_to_job = put group (uint64 r.job_id) m.group_to_job },
        reply (map (λ (n : NodeAlloc). n.node_id) r.nodelist),
      )
  unfolding ask_flux release_earlier request_match after_match
  ask_flux_new pod pg group m s r fresh d answer =
      rw (fresh, release_earlier) (rw (d, request_match) (ap (after_match c group m) answer))

module _ {w : World} (live : w.Server → ℤ → Bool) (flux : IsFlux w live) (c : Cluster) where
  apart_lives : (f : ℤ → Bool) (i j : ℤ) → f i ≡ true → f j ≡ false → i ≢ j
  apart_lives f i j p q same = cc (p, q, ap f same)

  cancel_flux_job_refused :
      (pod : Pod) (group : String) (m : Manager w) (n : ℕ) (s : w.Server) (x : String)
      → get group m.group_to_job ≡ some n
      → w.dial m.server ≡ none
      → w.cancel m.server (record { job_id = int64_of_uint64 n }) ≡ (s, refused x)
      → cancel_flux_job c group pod m ≡ (record m { server = s }, some x)
  unfolding cancel_flux_job cancel_job after_cancel
  cancel_flux_job_refused pod group m n s x e d answer =
      rw (e, cancel_flux_job) (rw (d, cancel_job) (ap (after_cancel c group pod m) answer))

  release_earlier_refused :
      (pod : Pod) (group : String) (m : Manager w) (n : ℕ) (s : w.Server) (x : String)
      → get group m.group_to_job ≡ some n
      → w.dial m.server ≡ none
      → w.cancel m.server (record { job_id = int64_of_uint64 n }) ≡ (s, refused x)
      → release_earlier c group pod m ≡ record m { server = s }
  unfolding release_earlier
  release_earlier_refused pod group m n s x e d answer =
      rw (e, release_earlier) (ap (λ p. p.0) (cancel_flux_job_refused pod group m n s x e d answer))

  pub matched :
      (pod : Pod) (pg : PodGroup) (group : String) (m : Manager w) (s : w.Server)
      (r : MatchResponse)
      → w.dial m.server ≡ none
      → w.match_allocate m.server (request_of pod pg group) ≡ (s, reply r)
      → (request_match c pod pg group m).0
        ≡ record m { server = s; group_to_job = put group (uint64 r.job_id) m.group_to_job }
  unfolding request_match after_match
  matched pod pg group m s r d answer =
      rw (d, request_match) (ap (λ a. (after_match c group m a).0) answer)

  -- In a table in which each job that a group holds is live and held by no other group, when the
  -- sidecar refuses to cancel the group's earlier job and then finds nodes, the earlier job goes on
  -- and no group holds it any more; for a sidecar that obeys its laws.
  pub ask_flux-leaks :
      (pod : Pod) (pg : PodGroup) (group : String) (m : Manager w) (n : ℕ) (x : String)
      → IsTracked live m
      → (s s' : w.Server) (r : MatchResponse) → get group m.group_to_job ≡ some n
      → w.dial m.server ≡ none
      → w.cancel m.server (record { job_id = int64_of_uint64 n }) ≡ (s, refused x)
      → w.dial s ≡ none
      → w.match_allocate s (request_of pod pg group) ≡ (s', reply r)
      → let m' = (ask_flux c pod pg group m).0 in
        (live m'.server (int64_of_uint64 n) ≡ true)
        × ((g : String) (k : ℕ)
            → get g m'.group_to_job ≡ some k
            → int64_of_uint64 k ≢ int64_of_uint64 n)
  unfolding ask_flux
  ask_flux-leaks pod pg group m n x t s s' r e d refusal d' answer =
      let (range, fresh, _, others) =
        flux.match_new s s' _ r (prepare_pod_job_spec_lem pod group).0 answer in
      let goes_on =
        flux.cancel_refused m.server s _ x refusal (int64_of_uint64 n) ∙ t.held_is_live group n e in
      let apart = apart_lives (live s) (int64_of_uint64 n) r.job_id goes_on fresh in
      let earlier = release_earlier_refused pod group m n s x e d refusal in
      let ends =
        ap (λ x. (request_match c pod pg group x).0) earlier
        ∙ matched pod pg group (record m { server = s }) s' r d' answer in
      rw ends (
        others (int64_of_uint64 n) apart ∙ goes_on,
        λ g k held same. elim (held_after_put g group (uint64 r.job_id) k m.group_to_job held) [
          | inl (_, v) ↦
              apart (sym same ∙ ap int64_of_uint64 v ∙ int64_of_uint64-uint64 r.job_id range)
          | inr (ne, before) ↦ ne (sym (t.held_once g group k n before e same))
        ],
      )
