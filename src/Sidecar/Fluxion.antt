-- ===== src/Sidecar/Fluxion.antt =====
-- src/fluence/fluxion: the two remote calls, over the Go bindings of Fluxion, the YAML library and
-- `json.Unmarshal`, which are parameters.
pub mod Served
use flux_k8s.Base.{
  ℕ, zero, suc, ◌+◌, ◌/◌, String, List, [], ◌∷◌, Option, none, some, ℤ, pos, negsuc, int32, ◌≡◌,
  ◌≢◌, refl, ap, ◌∙◌, str_eq, if◌then◌else◌, map, done, panic, ◌>>=◌, str_ne,
}
use flux_k8s.Base.Int.{int64_of_uint64}
use flux_k8s.Base.Run.{Run}
use flux_k8s.Messages.{
  MatchRequest, MatchResponse, CancelRequest, CancelResponse, NodeAlloc, Reply, reply, refused,
}
use flux_k8s.Kube.{Pod}
use flux_k8s.Scheduler.PodSpec.{prepare_pod_job_spec}
use flux_k8s.Scheduler.PodSpec.Laws.{prepare_pod_job_spec_lem}
use flux_k8s.Sidecar.JobSpec.{JobSpec, create_job_spec}
use flux_k8s.Sidecar.Alloc.{
  Fields, Allocation, parse_alloc_result, IsGraph, nodes_of, parse_alloc_result_lem,
}

-- What `MatchAllocate` of the bindings returns and the sidecar reads.
pub record Matched : Type 0 where
  pub allocated : String
  pub job_id : ℕ  -- uint64
  pub error : Option String

-- `Cancel` returns its error, `marshal` is `yaml.Marshal`, and `decode` is `json.Unmarshal`.
pub record Bindings : Type 1 where
  pub Context : Type 0
  pub match_allocate : Context → String → Context × Matched
  pub cancel : Context → ℤ → Context × Option String
  pub marshal : JobSpec → Option String
  pub decode : String → Option Fields

abbrev minus : ℕ → ℤ
minus zero = pos 0
minus (suc n) = negsuc n

-- Go's division of int32, which drops the fraction, and panics for 0.
quotient : ℤ → ℤ → Run ℤ
quotient a (pos zero) = panic
quotient (pos a) (pos (suc b)) = done (pos (a / suc b))
quotient (negsuc a) (pos (suc b)) = done (minus ((a + 1) / suc b))
quotient (pos a) (negsuc b) = done (minus (a / (b + 1)))
quotient (negsuc a) (negsuc b) = done (int32 (pos ((a + 1) / (b + 1))))

node_allocs : ℤ → List Allocation → Run (List NodeAlloc)
node_allocs cpu [] = done []
node_allocs cpu (a ∷ rest) = do
  tasks ← quotient (int32 (pos a.core_count)) cpu
  others ← node_allocs cpu rest
  done (record { node_id = a.basename; tasks = tasks } ∷ others)

module _ (b : Bindings) where
  -- `Match`, with an allocation.
  allocated_nodes : MatchRequest → b.Context → Matched → Run (b.Context × Reply MatchResponse)
  allocated_nodes request context matched = do
    nodes ← parse_alloc_result b.decode matched.allocated
    nodelist ← node_allocs request.ps.cpu nodes
    done (
      context,
      reply (record {
        pod_id = request.ps.id;
        nodelist = nodelist;
        job_id = int64_of_uint64 matched.job_id;
      }),
    )

  by_result : MatchRequest → b.Context × Matched → Run (b.Context × Reply MatchResponse)
  by_result request (context, matched) = elim matched.error [
    | some e ↦ done (context, refused "[Fluence] Error in ReapiCliMatchAllocate")
    | none ↦
        if str_eq matched.allocated ""
        then done (context, refused "Allocation was not possible")
        else allocated_nodes request context matched
  ]

  -- `Match`; a job that cannot be written as YAML ends the process.
  pub flux_match : MatchRequest → b.Context → Run (b.Context × Reply MatchResponse)
  flux_match request context = elim (b.marshal (create_job_spec request.ps request.count)) [
    | none ↦ panic
    | some spec ↦ by_result request (b.match_allocate context spec)
  ]

  cancel_answer : CancelRequest → b.Context × Option String → b.Context × Reply CancelResponse
  cancel_answer request (context, some e) = (context, refused e)
  cancel_answer request (context, none) =
      (context, reply (record { job_id = request.job_id; error = pos 0 }))

  -- `Cancel`
  unfoldable pub flux_cancel : CancelRequest → b.Context → b.Context × Reply CancelResponse
  unfolding cancel_answer
  flux_cancel request context = cancel_answer request (b.cancel context request.job_id)

quotient_done : (a c : ℤ) → c ≢ pos 0 → (q : ℤ) × (quotient a c ≡ done q)
unfolding quotient
quotient_done a (pos zero) ne = absurd (ne refl)
quotient_done (pos a) (pos (suc b)) ne = (_, refl)
quotient_done (negsuc a) (pos (suc b)) ne = (_, refl)
quotient_done (pos a) (negsuc b) ne = (_, refl)
quotient_done (negsuc a) (negsuc b) ne = (_, refl)

node_allocs-names :
    (cpu : ℤ) (nodes : List Allocation)
    → cpu ≢ pos 0
    → (l : List NodeAlloc) × (node_allocs cpu nodes ≡ done l)
      × (map (λ (n : NodeAlloc). n.node_id) l ≡ map (λ (a : Allocation). a.basename) nodes)
unfolding node_allocs
node_allocs-names cpu [] ne = ([], refl, refl)
node_allocs-names cpu (a ∷ rest) ne =
    let (q, e) = quotient_done (int32 (pos a.core_count)) cpu ne in
    let (l, f, names) = node_allocs-names cpu rest ne in
    (
      record { node_id = a.basename; tasks = q } ∷ l,
      rw e (rw (f, node_allocs) refl),
      ap (λ x. a.basename ∷ x) names,
    )

module _ (b : Bindings) where
  allocated_nodes-names :
      (request : MatchRequest) (context : b.Context) (m : Matched) (dat : Fields)
      (vs : List (String × String))
      → request.ps.cpu ≢ pos 0
      → b.decode m.allocated ≡ some dat
      → IsGraph dat vs
      → (r : MatchResponse) × (allocated_nodes b request context m ≡ done (context, reply r))
        × (r.job_id ≡ int64_of_uint64 m.job_id)
        × (map (λ (n : NodeAlloc). n.node_id) r.nodelist
            ≡ map (λ (a : Allocation). a.basename) (nodes_of 0 vs))
  unfolding allocated_nodes
  allocated_nodes-names request context m dat vs ne e graph =
      let (l, made, names) = node_allocs-names request.ps.cpu (nodes_of 0 vs) ne in
      (
        record { pod_id = request.ps.id; nodelist = l; job_id = int64_of_uint64 m.job_id },
        rw (parse_alloc_result_lem b.decode m.allocated dat vs e graph) (rw made refl),
        refl,
        names,
      )

  by_result_found :
      (request : MatchRequest) (context : b.Context) (m : Matched)
      → m.error ≡ none
      → m.allocated ≢ ""
      → by_result b request (context, m) ≡ allocated_nodes b request context m
  unfolding by_result
  by_result_found request context m fine some_text = simp (fine, str_ne m.allocated "" some_text)

  -- A request as the plugin prepares it for any pod never makes the sidecar divide by 0: when Fluxion
  -- finds an allocation and describes it as a graph, with any other fields, `Match` answers with the job's number and the
  -- names of the graph's nodes in their order.
  pub flux_match_lem :
      (pod : Pod) (group_name : String) (count : ℤ) (context context' : b.Context)
      → (yaml : String) (m : Matched) (dat : Fields) (vs : List (String × String))
      → let ps = prepare_pod_job_spec pod group_name in
        b.marshal (create_job_spec ps count) ≡ some yaml
        → b.match_allocate context yaml ≡ (context', m)
        → m.error ≡ none
        → m.allocated ≢ ""
        → b.decode m.allocated ≡ some dat
        → IsGraph dat vs
        → (r : MatchResponse) × (flux_match b
              (record { ps = ps; request = "allocate"; count = count })
              context
            ≡ done (context', reply r))
          × (r.job_id ≡ int64_of_uint64 m.job_id)
          × (map (λ (n : NodeAlloc). n.node_id) r.nodelist
              ≡ map (λ (a : Allocation). a.basename) (nodes_of 0 vs))
  unfolding flux_match
  flux_match_lem pod group_name count context context' yaml m dat vs e f fine some_text g graph =
      let ps = prepare_pod_job_spec pod group_name in
      let request : MatchRequest = record { ps = ps; request = "allocate"; count = count } in
      let (cpu, _, _) = prepare_pod_job_spec_lem pod group_name in
      let (r, made, number, names) = allocated_nodes-names request context' m dat vs cpu g graph in
      (
        r,
        rw (e, flux_match)
            (ap (by_result b request) f ∙ by_result_found request context' m fine some_text ∙ made),
        number,
        names,
      )

  by_answer :
      (request : CancelRequest) (a : b.Context × Option String) (context : b.Context)
      → (r : CancelResponse) → cancel_answer b request a ≡ (context, reply r)
      → (r.job_id ≡ request.job_id) × (r.error ≡ pos 0) × (a ≡ (context, none))
  unfolding cancel_answer
  by_answer request (s, some e) context r h = cc
  by_answer request (s, none) context r h = (cc, cc, cc)

  -- A `Cancel` that answers has cancelled the job that was asked for: its answer names that job, its
  -- code is always 0, and Fluxion had no error.
  pub flux_cancel_lem :
      (request : CancelRequest) (context context' : b.Context) (r : CancelResponse)
      → flux_cancel b request context ≡ (context', reply r)
      → (r.job_id ≡ request.job_id)
        × (r.error ≡ pos 0)
        × (b.cancel context request.job_id ≡ (context', none))
  unfolding flux_cancel
  flux_cancel_lem request context context' r h =
      by_answer request (b.cancel context request.job_id) context' r h
