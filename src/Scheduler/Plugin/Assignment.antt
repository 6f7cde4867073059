-- ===== src/Scheduler/Plugin/Assignment.antt =====
-- What a pod meets after the sidecar has been asked: one with a node `PreFilter` again and `Filter`,
-- one without `PreFilter` as it answers then.
use flux_k8s.Base.{
  get, List, All, length, ◌≤◌, String, ◌≡◌, ◌≢◌, ◌↔◌, refl, ap, ◌∙◌, [], ◌∷◌, none, some, str_ne,
  eq_iff, done, arith,
}
use flux_k8s.Kube.{Pod}
use flux_k8s.Scheduler.World.{World, IsCycleState, Cluster}
use flux_k8s.Scheduler.Flux.{Manager}
use flux_k8s.Scheduler.Manager.{Outcome, use_nodes, get_pod_node, pre_filter_group}
use flux_k8s.Scheduler.Manager.Passed.{IsPassedOver, IsPassedOver-done}
use flux_k8s.Scheduler.Manager.Held.{IsHeldBack, IsHeldBack-fails}
use flux_k8s.Scheduler.Manager.PreFilter.{IsAt, HaveOwnNames, pairs, use_nodes-assigns}
use flux_k8s.Scheduler.Plugin.{Code, after_group, pre_filter, filter_node}

module _ (w : World) (c : Cluster) where
  -- For a pod with no node `PreFilter` comes to what the manager comes to.
  pub pre_filter_unplaced :
      (pod : Pod) (state : w.State) (m : Manager w) (o : Outcome w)
      → get_pod_node w m pod ≡ ""
      → pre_filter_group w c pod state m ≡ done o
      → pre_filter w c pod state m ≡ done (after_group w pod o)
  unfolding pre_filter
  pre_filter_unplaced pod state m o unplaced ran = rw unplaced (rw ran refl)

  -- Any `PreFilter` sends a pod that has a node in the table to that node, and changes nothing.
  pub placed_stays :
      (pod : Pod) (node : String) (state : w.State) (m : Manager w)
      → get pod.name m.pod_to_node ≡ some node
      → node ≢ ""
      → pre_filter w c pod state m
        ≡ done (record {
          manager = m;
          state = state;
          node_names = some (node ∷ []);
          code = Code.success;
        })
  unfolding pre_filter get_pod_node
  placed_stays pod node state m held ne = rw held (rw (str_ne node "" ne) refl)

  -- A pod that has a node in the table and in the cycle's state is sent to that node by any later
  -- `PreFilter`, which asks nobody and changes nothing, and `Filter` lets it on that node only.
  assigned_stays :
      (pod : Pod) (node : String) (state later : w.State) (m : Manager w)
      → IsAt w (pod, node) (state, m.pod_to_node)
      → node ≢ ""
      → (pre_filter w c pod later m
          ≡ done (record {
            manager = m;
            state = later;
            node_names = some (node ∷ []);
            code = Code.success;
          }))
        × ((n : String) → (filter_node w state pod n ≡ done Code.success) ↔ (n ≡ node))
  unfolding filter_node
  assigned_stays pod node state later m (held, read) ne = (
    placed_stays pod node later m held ne,
    λ n. rw (read, filter_node) (ground (arith, eq_iff node n)),
  )

  -- What a pod with a node meets: any later `PreFilter` sends it to that node and changes nothing, and
  -- `Filter` lets it on that node only.
  abbrev pub IsSent : w.State → Manager w → Pod × String → Type 0
  IsSent state m p =
      ((later : w.State)
        → pre_filter w c p.0 later m
          ≡ done (record {
            manager = m;
            state = later;
            node_names = some (p.1 ∷ []);
            code = Code.success;
          }))
      × ((n : String) → (filter_node w state p.0 n ≡ done Code.success) ↔ (n ≡ p.1))

  pairs-AreSent :
      (pods : List Pod) (nodes : List String) (state : w.State) (m : Manager w)
      → All (λ p. IsAt w p (state, m.pod_to_node)) (pairs pods nodes)
      → All (λ (n : String). n ≢ "") nodes
      → All (λ p. IsSent state m p) (pairs pods nodes)
  unfolding pairs
  pairs-AreSent [] nodes state m at named = tt
  pairs-AreSent (pod ∷ pods) [] state m at named = tt
  pairs-AreSent (pod ∷ pods) (node ∷ nodes) state m (here, at) (ne, named) = (
    (
      λ later. (assigned_stays pod node state later m here ne).0,
      (assigned_stays pod node state state m here ne).1,
    ),
    pairs-AreSent pods nodes state m at named,
  )

  -- `PreFilter` of one pod of a group places the others: with no more nodes than pods, none of an empty
  -- name, and pods with names of their own, it succeeds, and then each pod that has got a node is sent
  -- to that node by `PreFilter`, which asks nobody and changes nothing, and in this cycle `Filter` lets
  -- it on that node only.
  pub group_stays :
      IsCycleState w
      → (group : String) (rep_pod : Pod) (pods : List Pod) (state : w.State) (nodes : List String)
      → (m : Manager w) → HaveOwnNames pods
      → length nodes ≤ length pods
      → All (λ (n : String). n ≢ "") nodes
      → (o : Outcome w) × (use_nodes w c group rep_pod pods state nodes m ≡ done o)
        × (o.error ≡ none)
        × All (λ p. IsSent o.state o.manager p) (pairs pods nodes)
  group_stays cycle group rep_pod pods state nodes m own le named =
      let (o, run, well, at) =
        use_nodes-assigns w c cycle group rep_pod pods state nodes m own le in
      (o, run, well, pairs-AreSent pods nodes o.state o.manager at named)

  -- A pod with no node whose group is not found, or has been let through before with enough pods
  -- listed, passes `PreFilter`, which changes nothing, but only on to a node with an empty name.
  pub passed_over_goes_nowhere :
      (pod : Pod) (state : w.State) (m : Manager w)
      → get_pod_node w m pod ≡ ""
      → IsPassedOver w c pod m
      → pre_filter w c pod state m
        ≡ done (record {
          manager = m;
          state = state;
          node_names = some ("" ∷ []);
          code = Code.success;
        })
  unfolding after_group
  passed_over_goes_nowhere pod state m unplaced passed =
      pre_filter_unplaced pod state m _ unplaced (IsPassedOver-done w c pod state m passed)
      ∙ ap
          (λ n. done (record {
            manager = m;
            state = state;
            node_names = some (n ∷ []);
            code = Code.success;
          }))
          unplaced

  -- `PreFilter` refuses a pod with no node whose group is backed off, cannot be listed or has too few
  -- pods listed, and changes nothing.
  pub held_back_refused :
      (pod : Pod) (state : w.State) (m : Manager w)
      → get_pod_node w m pod ≡ ""
      → IsHeldBack w c pod m
      → pre_filter w c pod state m
        ≡ done (record {
          manager = m;
          state = state;
          node_names = none;
          code = Code.unschedulable_and_unresolvable;
        })
  unfolding after_group
  held_back_refused pod state m unplaced held =
      let (e, ran) = IsHeldBack-fails w c pod state m held in
      pre_filter_unplaced pod state m _ unplaced ran
