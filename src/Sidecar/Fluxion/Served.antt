-- ===== src/Sidecar/Fluxion/Served.antt =====
-- The plugin at work with the sidecar of this repository: what the plugin relies on in the sidecar
-- follows from the code of the sidecar and from what Fluxion's bindings promise.
pub mod Placed
pub mod Interleaved
mod Examples
use flux_k8s.Base.{
  ℕ, String, Bool, true, false, List, Option, none, some, ℤ, pos, IsInt64, ◌≡◌, ◌≢◌, refl, ap, sym,
  ◌∙◌, subst, arith, str_eq, str_ne, str-cases, Option-cases, inl, inr, done, failed, panic,
}
use flux_k8s.Base.Int.{int64_of_uint64, int64_of_uint64-IsInt64}
use flux_k8s.Base.Run.{Run}
use flux_k8s.Messages.{
  MatchRequest, MatchResponse, CancelRequest, CancelResponse, Reply, reply, refused,
}
use flux_k8s.Scheduler.World.{World}
use flux_k8s.Scheduler.Flux.{Manager}
use flux_k8s.Scheduler.Flux.Cancel.{IsFlux}
use flux_k8s.Scheduler.Flux.Tracking.{IsTracked}
use flux_k8s.Scheduler.Plugin.Start.{Fluence, Surroundings, new}
use flux_k8s.Scheduler.Plugin.Lifecycle.{Reachable, Reachable-IsTracked}
use flux_k8s.Sidecar.JobSpec.{JobSpec, create_job_spec}
use flux_k8s.Sidecar.Alloc.{Fields, IsGraph}
use flux_k8s.Sidecar.Fluxion.{
  Bindings, Matched, flux_match, flux_cancel, cancel_answer, by_result, by_result_found,
  allocated_nodes, allocated_nodes-names,
}

-- What the bindings promise: a job can be written as YAML; a match with a text and no error has begun
-- a new job, and the text is a graph, whose vertices have a type and a base name among other fields;
-- any other match has begun none; a cancellation with no error has ended its job, and one with an
-- error has changed nothing.
pub record IsReapi (b : Bindings) (live : b.Context → ℤ → Bool) : Type 0 where
  pub marshals : (job : JobSpec) → (spec : String) × (b.marshal job ≡ some spec)
  pub match_begun :
      (s s' : b.Context) (spec : String) (m : Matched)
      → b.match_allocate s spec ≡ (s', m)
      → m.error ≡ none
      → m.allocated ≢ ""
      → (live s (int64_of_uint64 m.job_id) ≡ false)
        × (live s' (int64_of_uint64 m.job_id) ≡ true)
        × ((j : ℤ) → j ≢ int64_of_uint64 m.job_id → live s' j ≡ live s j)
        × ((dat : Fields) × (vs : List (String × String)) × (b.decode m.allocated ≡ some dat)
            × IsGraph dat vs)
  pub match_failed :
      (s s' : b.Context) (spec : String) (m : Matched) (e : String)
      → b.match_allocate s spec ≡ (s', m)
      → m.error ≡ some e
      → (j : ℤ) → live s' j ≡ live s j
  pub match_empty :
      (s s' : b.Context) (spec : String) (m : Matched)
      → b.match_allocate s spec ≡ (s', m)
      → m.error ≡ none
      → m.allocated ≡ ""
      → (j : ℤ) → live s' j ≡ live s j
  pub cancel_ended :
      (s s' : b.Context) (j : ℤ)
      → b.cancel s j ≡ (s', none)
      → (live s' j ≡ false) × ((k : ℤ) → k ≢ j → live s' k ≡ live s k)
  pub cancel_failed :
      (s s' : b.Context) (j : ℤ) (e : String)
      → b.cancel s j ≡ (s', some e)
      → (k : ℤ) → live s' k ≡ live s k

-- A sidecar that has panicked is gone.
answered : {A B : Type 0} → Run (A × Reply B) → Option A × Reply B
answered (done (context, answer)) = (some context, answer)
answered (failed e) = (none, refused e)
answered panic = (none, refused "connection closed")

module _ (w : World) (b : Bindings) where
  -- The server is the sidecar, or none. The connection loses no call and no answer.
  pub match_in : Option b.Context → MatchRequest → Option b.Context × Reply MatchResponse
  match_in none request = (none, refused "connection refused")
  match_in (some context) request = answered (flux_match b request context)

  pub cancel_in : Option b.Context → CancelRequest → Option b.Context × Reply CancelResponse
  cancel_in none request = (none, refused "connection refused")
  cancel_in (some context) request = answered (done (flux_cancel b request context))

  abbrev pub with_sidecar : World
  with_sidecar = record {
    Store = w.Store;
    is_cached = w.is_cached;
    add = w.add;
    remove = w.remove;
    State = w.State;
    read = w.read;
    write = w.write;
    Server = Option b.Context;
    dial = λ server. elim server [ none ↦ some "connection refused" | some _ ↦ none ];
    match_allocate = match_in;
    cancel = cancel_in;
  }

module _ (w : World) (b : Bindings) where
  -- A `Match` of the sidecar that ends.
  pub match_in_done :
      (context context' : b.Context) (request : MatchRequest) (a : Reply MatchResponse)
      → flux_match b request context ≡ done (context', a)
      → match_in w b (some context) request ≡ (some context', a)
  unfolding match_in answered
  match_in_done context context' request a e = ap answered e

module _ (w : World) (b : Bindings) (live : b.Context → ℤ → Bool) (reapi : IsReapi b live) where
  abbrev pub live_in : Option b.Context → ℤ → Bool
  live_in none j = false
  live_in (some context) j = live context j

  -- What a match may do to the live jobs.
  abbrev Matches : Option b.Context → Option b.Context × Reply MatchResponse → Type 0
  Matches s (s', reply r) =
      IsInt64 r.job_id
      × (live_in s r.job_id ≡ false)
      × (live_in s' r.job_id ≡ true)
      × ((j : ℤ) → j ≢ r.job_id → live_in s' j ≡ live_in s j)
  Matches s (s', refused e) = (j : ℤ) → live_in s' j ≡ live_in s j

  by_result-Matches :
      (request : MatchRequest) (s : b.Context) (spec : String) (a : b.Context × Matched)
      → request.ps.cpu ≢ pos 0
      → b.match_allocate s spec ≡ a
      → Matches (some s) (answered (by_result b request a))
  unfolding by_result answered
  by_result-Matches request s spec (s', m) asks e = elim (Option-cases m.error) [
    | inr (x, f) ↦ rw (f, by_result) (reapi.match_failed s s' spec m x e f)
    | inl f ↦ elim (str-cases m.allocated "") [
      | inl (same, t) ↦ rw (f, t, by_result) (reapi.match_empty s s' spec m e f same)
      | inr (apart, t) ↦
          let (fresh, begun, others, (dat, vs, decoded, graph)) =
            reapi.match_begun s s' spec m e f apart in
          let (r, made, number, _) =
            allocated_nodes-names b request s' m dat vs asks decoded graph in
          subst (Matches (some s))
            (sym (ap answered (by_result_found b request s' m f apart ∙ made)))
            (
              subst IsInt64 (sym number) (int64_of_uint64-IsInt64 m.job_id),
              ap (live s) number ∙ fresh,
              ap (live s') number ∙ begun,
              λ j ne. others j (λ same. ne (same ∙ sym number)),
            )
    ]
  ]

  match_in-Matches :
      (request : MatchRequest) (s : Option b.Context)
      → request.ps.cpu ≢ pos 0
      → Matches s (match_in w b s request)
  unfolding match_in flux_match
  match_in-Matches request none asks = λ j. refl
  match_in-Matches request (some s) asks =
      let (spec, e) = reapi.marshals (create_job_spec request.ps request.count) in
      rw (e, flux_match) (by_result-Matches request s spec _ asks refl)

  -- What a cancellation may do to the live jobs.
  abbrev Ends : ℤ → Option b.Context → Option b.Context × Reply CancelResponse → Type 0
  Ends j s (s', reply r) =
      (r.error ≡ pos 0) × (live_in s' j ≡ false) × ((k : ℤ) → k ≢ j → live_in s' k ≡ live_in s k)
  Ends j s (s', refused e) = (k : ℤ) → live_in s' k ≡ live_in s k

  by_answer-Ends :
      (request : CancelRequest) (s : b.Context) (a : b.Context × Option String)
      → b.cancel s request.job_id ≡ a
      → Ends request.job_id (some s) (answered (done (cancel_answer b request a)))
  unfolding answered cancel_answer
  by_answer-Ends request s (s', none) e =
      let (over, others) = reapi.cancel_ended s s' request.job_id e in (refl, over, others)
  by_answer-Ends request s (s', some x) e = reapi.cancel_failed s s' request.job_id x e

  cancel_in-Ends :
      (request : CancelRequest) (s : Option b.Context)
      → Ends request.job_id s (cancel_in w b s request)
  unfolding cancel_in flux_cancel
  cancel_in-Ends request none = λ k. refl
  cancel_in-Ends request (some s) = by_answer-Ends request s _ refl

  -- The sidecar keeps what the plugin relies on, when the bindings keep what they promise. In
  -- particular it does not divide by the 0 cpus of a request, since the plugin never asks for 0.
  pub sidecar-IsFlux : IsFlux (with_sidecar w b) live_in
  sidecar-IsFlux = record {
    match_new = λ s s' request r asks h. subst (Matches s) h (match_in-Matches request s asks);
    match_refused = λ s s' request e asks h. subst (Matches s) h (match_in-Matches request s asks);
    cancel_done = λ s s' request r h z.
        let (_, over, others) = subst (Ends request.job_id s) h (cancel_in-Ends request s) in
        (over, others);
    cancel_failed = λ s s' request r h ne.
        absurd (ne (subst (Ends request.job_id s) h (cancel_in-Ends request s)).0);
    cancel_refused = λ s s' request e h. subst (Ends request.job_id s) h (cancel_in-Ends request s);
  }

  -- From the plugin that `New` makes on, at work with the sidecar of this repository over bindings
  -- that keep their promises, through any calls of the extension points that end and any events of
  -- pods: every job that the table of groups holds is live in Fluxion, and no two groups hold the
  -- same job.
  pub with_sidecar-IsTracked :
      (fresh : ℕ → w.Store) (server : Option b.Context) (s : Surroundings)
      (plugin : Fluence (with_sidecar w b))
      → (new (with_sidecar w b) fresh server s).0 ≡ some plugin
      → (m : Manager (with_sidecar w b)) → Reachable (with_sidecar w b) plugin m
      → IsTracked live_in m
  with_sidecar-IsTracked fresh server s plugin e m reached =
      Reachable-IsTracked {w = with_sidecar w b} live_in sidecar-IsFlux fresh server s plugin e m
        reached
