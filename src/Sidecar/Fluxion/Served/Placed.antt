-- ===== src/Sidecar/Fluxion/Served/Placed.antt =====
-- A group's way from `PreFilter` of the plugin to Fluxion and back.
use flux_k8s.Base.{
  ◌≤◌, String, false, List, ◌∷◌, none, some, ℤ, pos, ◌≤ℤ◌, ◌≡◌, ◌≢◌, ap, ◌∙◌, get, put, map, length,
  All, done,
}
use flux_k8s.Base.Int.{uint64}
use flux_k8s.Kube.{Pod, PodGroup}
use flux_k8s.Messages.{reply}
use flux_k8s.Scheduler.World.{World, Cluster, IsCycleState}
use flux_k8s.Scheduler.PodSpec.{prepare_pod_job_spec}
use flux_k8s.Scheduler.Groups.{get_pod_group}
use flux_k8s.Scheduler.Flux.{Manager}
use flux_k8s.Scheduler.Flux.Ask.{ask_flux_new, request_of}
use flux_k8s.Scheduler.Manager.{Outcome, pre_filter_group}
use flux_k8s.Scheduler.Manager.Asks.{pre_filter_group_asks}
use flux_k8s.Scheduler.Manager.PreFilter.{IsAt, HaveOwnNames, pairs, use_nodes-assigns}
use flux_k8s.Sidecar.JobSpec.{create_job_spec}
use flux_k8s.Sidecar.Alloc.{Allocation, Fields, IsGraph, nodes_of}
use flux_k8s.Sidecar.Fluxion.{Bindings, Matched, flux_match_lem}
use flux_k8s.Sidecar.Fluxion.Served.{with_sidecar, match_in, match_in_done}

-- The names of the nodes of Fluxion's answer, in its order.
abbrev pub node_names : List (String × String) → List String
node_names vs = map (λ (a : Allocation). a.basename) (nodes_of 0 vs)

module _ (w : World) (b : Bindings) (c : Cluster) where
  -- The manager once the group holds a job.
  abbrev with_job : String → b.Context → ℤ → Manager (with_sidecar w b) → Manager (with_sidecar w b)
  with_job group context job_id m = record m {
    server = some context;
    group_to_job = put group (uint64 job_id) m.group_to_job;
  }

  -- The first `PreFilter` for a group with no job, with enough pods listed, neither backed off nor let
  -- through before, over a connection that loses no answer, and with a sidecar for which Fluxion finds
  -- an allocation and describes it as a graph, its vertices with any other fields and with any edges,
  -- with no more nodes than the pods, of distinct names: it succeeds, and each pod in turn has the next
  -- node of Fluxion's graph, in the table and in the cycle's state.
  pub pre_filter_group_places :
      IsCycleState w
      → (pod rep_pod : Pod) (rest : List Pod) (pg : PodGroup) (state : w.State)
      → (m : Manager (with_sidecar w b)) (context context' : b.Context) (yaml : String)
      → (found : Matched) (dat : Fields) (vs : List (String × String))
      → (get_pod_group c pod).1 ≡ some pg
      → w.is_cached c.now (get_pod_group c pod).0 m.backed_off ≡ false
      → c.list_pods pod.namespace (c.group_label pod) ≡ some (rep_pod ∷ rest)
      → pg.spec.min_member ≤ℤ pos (length (rep_pod ∷ rest))
      → w.is_cached c.now (get_pod_group c pod).0 m.permitted ≡ false
      → get (get_pod_group c pod).0 m.group_to_job ≡ none
      → m.server ≡ some context
      → b.marshal (
          create_job_spec (prepare_pod_job_spec rep_pod (get_pod_group c pod).0) pg.spec.min_member)
        ≡ some yaml
      → b.match_allocate context yaml ≡ (context', found)
      → found.error ≡ none
      → found.allocated ≢ ""
      → b.decode found.allocated ≡ some dat
      → IsGraph dat vs
      → HaveOwnNames (rep_pod ∷ rest)
      → length (node_names vs) ≤ length (rep_pod ∷ rest)
      → (o : Outcome (with_sidecar w b)) × (pre_filter_group (with_sidecar w b) c pod state m
          ≡ done o)
        × (o.error ≡ none)
        × All
            (λ p. IsAt (with_sidecar w b) p (o.state, o.manager.pod_to_node))
            (pairs (rep_pod ∷ rest) (node_names vs))
  pre_filter_group_places cycle pod rep_pod rest pg state m context context' yaml found dat vs known
        calm listed enough fresh no_job up spec answer fine some_text decoded graph own le =
      let group = (get_pod_group c pod).0 in
      let (r, matched, _, names) =
        flux_match_lem b rep_pod group pg.spec.min_member context context' yaml found dat vs spec
          answer fine some_text decoded graph in
      let asked =
        ask_flux_new c rep_pod pg group m (some context') r no_job (ap (with_sidecar w b).dial up) (
          ap (λ s. match_in w b s (request_of rep_pod pg group)) up
          ∙ match_in_done w b context context' _ (reply r) matched)
        ∙ ap (λ ns. (with_job group context' r.job_id m, reply ns)) names in
      let (o, ran, succeeds, each) =
        use_nodes-assigns (with_sidecar w b) c
          (record { read-write = cycle.read-write; read-write_ne = cycle.read-write_ne }) group
          rep_pod (rep_pod ∷ rest) state (node_names vs) _ own le in
      (
        o,
        pre_filter_group_asks (with_sidecar w b) c pod rep_pod pg rest state m _ (node_names vs)
              known calm listed enough fresh asked
            ∙ ran,
        succeeds,
        each,
      )
