-- ===== src/Scheduler/Manager/Again.antt =====
-- The first pod of a group that is over, while its siblings go on.
use flux_k8s.Base.{
  ℕ, Bool, true, false, List, ◌∷◌, none, some, ℤ, pos, ◌≤ℤ◌, ◌≡◌, ◌⊎◌, ap, ◌∙◌, get, put,
  get-put_self, map, length, All, done,
}
use flux_k8s.Base.Int.{uint64, int64_of_uint64}
use flux_k8s.Kube.{Pod, PodPhase, PodGroup}
use flux_k8s.Messages.{MatchResponse, CancelResponse, NodeAlloc, reply}
use flux_k8s.Scheduler.World.{World, IsCycleState, Cluster}
use flux_k8s.Scheduler.PodSpec.Laws.{prepare_pod_job_spec_lem}
use flux_k8s.Scheduler.Groups.{get_pod_group}
use flux_k8s.Scheduler.Flux.{Manager, update_pod, ask_flux}
use flux_k8s.Scheduler.Flux.Cancel.{IsFlux}
use flux_k8s.Scheduler.Flux.Ask.{ask_flux_new, request_of}
use flux_k8s.Scheduler.Flux.Ends.{update_pod_ends}
use flux_k8s.Scheduler.Manager.{Outcome, pre_filter_group, use_nodes}
use flux_k8s.Scheduler.Manager.PreFilter.{HaveOwnNames, IsAt, pairs, use_nodes-fits}
use flux_k8s.Scheduler.Manager.Asks.{pre_filter_group_asks}

module _ {w : World} (live : w.Server → ℤ → Bool) (flux : IsFlux w live) (c later : Cluster) where
  -- A pod of a group that holds a job has succeeded or failed, and the sidecar cancels that job: the
  -- group holds no job then and its job is over, whatever its other pods do. When a sibling comes to
  -- `PreFilter` of the manager later, with enough pods listed, of names of their own, the group
  -- neither backed off nor let through, and a sidecar that finds as many nodes as there are pods
  -- listed, it succeeds: the group holds a second job, which is live, and each pod listed has its
  -- node of that job in the table and in the cycle's state, also a pod that is over or runs on; for a
  -- sidecar that obeys its laws.
  pub first_to_finish_starts_again :
      (cycle : IsCycleState w) (old young sibling rep_pod : Pod) (rest : List Pod) (pg : PodGroup)
      (state : w.State) (m : Manager w) (n : ℕ) (s s' : w.Server) (a : CancelResponse)
      (r : MatchResponse)
      → let group = (get_pod_group c old).0 in
        let after = update_pod c old young m in
        let nodes = map (λ (x : NodeAlloc). x.node_id) r.nodelist in
        (young.phase ≡ PodPhase.succeeded) ⊎ (young.phase ≡ PodPhase.failed)
        → (get_pod_group c old).1 ≡ some pg
        → get group m.group_to_job ≡ some n
        → w.dial m.server ≡ none
        → w.cancel m.server (record { job_id = int64_of_uint64 n }) ≡ (s, reply a)
        → a.error ≡ pos 0
        → get_pod_group later sibling ≡ (group, some pg)
        → w.is_cached later.now group after.backed_off ≡ false
        → later.list_pods sibling.namespace (later.group_label sibling) ≡ some (rep_pod ∷ rest)
        → pg.spec.min_member ≤ℤ pos (length (rep_pod ∷ rest))
        → w.is_cached later.now group after.permitted ≡ false
        → w.dial after.server ≡ none
        → w.match_allocate after.server (request_of rep_pod pg group) ≡ (s', reply r)
        → HaveOwnNames (rep_pod ∷ rest)
        → length nodes ≡ length (rep_pod ∷ rest)
        → (get group after.group_to_job ≡ none)
          × (live after.server (int64_of_uint64 n) ≡ false)
          × (o : Outcome w) × (pre_filter_group w later sibling state after ≡ done o)
          × (o.error ≡ none)
          × (get group o.manager.group_to_job ≡ some (uint64 r.job_id))
          × (live o.manager.server r.job_id ≡ true)
          × All (λ p. IsAt w p (o.state, o.manager.pod_to_node)) (pairs (rep_pod ∷ rest) nodes)
  first_to_finish_starts_again cycle old young sibling rep_pod rest pg state m n s s' a r is_over
        known held up answer zero same calm listed enough fresh again found own_names fits =
      let group = (get_pod_group c old).0 in
      let after = update_pod c old young m in
      let nodes = map (λ (x : NodeAlloc). x.node_id) r.nodelist in
      let asked : Manager w = record after {
        server = s';
        group_to_job = put group (uint64 r.job_id) after.group_to_job;
      } in
      let own = ap (λ x. x.0) same in
      let (freed, over) =
        update_pod_ends live flux c old young pg m n s a is_over known held up answer zero in
      let asks = (prepare_pod_job_spec_lem rep_pod group).0 in
      let (_, _, begun, _) =
        flux.match_new after.server s' (request_of rep_pod pg group) r asks found in
      let (o, used, well, holds, server, placed) =
        use_nodes-fits w later cycle group rep_pod (rep_pod ∷ rest) state nodes asked own_names
          fits in
      (
        freed,
        over,
        o,
        pre_filter_group_asks w later sibling rep_pod pg rest state after asked nodes
              (ap (λ x. x.1) same) (ap (λ g. w.is_cached later.now g after.backed_off) own ∙ calm)
              listed enough (ap (λ g. w.is_cached later.now g after.permitted) own ∙ fresh)
              (ap (λ g. ask_flux later rep_pod pg g after) own
                ∙ ask_flux_new later rep_pod pg group after s' r freed again found)
            ∙ ap (λ g. use_nodes w later g rep_pod (rep_pod ∷ rest) state nodes asked) own
            ∙ used,
        well,
        ap (get group) holds ∙ get-put_self group (uint64 r.job_id) after.group_to_job,
        ap (λ s. live s r.job_id) server ∙ begun,
        placed,
      )
