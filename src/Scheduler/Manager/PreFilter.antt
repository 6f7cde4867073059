-- ===== src/Scheduler/Manager/PreFilter.antt =====
-- `PreFilter` of core/core.go once the sidecar has answered: which pod gets which node, and when the
-- loop over the nodes runs past the pods.
use flux_k8s.Base.{
  ◌<◌, ◌≤◌, ◌>>=◌, String, List, [], ◌∷◌, none, some, ◌≡◌, ◌≢◌, refl, Map, get, put, get-put_self,
  get-put_ne, length, ==_iff, All, ◌∙◌, ap, subst, arith, done, panic,
}
use flux_k8s.Base.Run.{Ensures, Ensures-both, Ensures-map}
use flux_k8s.Kube.{Pod}
use flux_k8s.Scheduler.World.{World, IsCycleState, Cluster, flux_state}
use flux_k8s.Scheduler.Flux.{Manager}
use flux_k8s.Scheduler.Manager.{Outcome, assign_nodes, check_size, admitted, admit, use_nodes}

-- No two pods of the list share a name, as in one namespace.
unfoldable pub HaveOwnNames : List Pod → Type 0
HaveOwnNames [] = Unit
HaveOwnNames (pod ∷ pods) = All (λ (q : Pod). q.name ≢ pod.name) pods × HaveOwnNames pods

-- The pods with the nodes in the order that the loop takes them.
unfoldable pub pairs : List Pod → List String → List (Pod × String)
pairs [] nodes = []
pairs (pod ∷ pods) [] = []
pairs (pod ∷ pods) (node ∷ nodes) = (pod, node) ∷ pairs pods nodes

module _ (w : World) where
  -- A pod has a node in the table and the same node in the cycle's state.
  abbrev pub IsAt : Pod × String → w.State × Map String → Type 0
  IsAt p r = (get p.0.name r.1 ≡ some p.1) × (w.read r.0 p.0.name ≡ some (flux_state p.1))

  assign_nodes-panic :
      (pods : List Pod) (nodes : List String) (state : w.State) (table : Map String)
      → length pods < length nodes
      → assign_nodes w pods nodes state table ≡ panic
  unfolding assign_nodes
  assign_nodes-panic pods [] state table h = ground arith
  assign_nodes-panic [] (node ∷ nodes) state table h = refl
  assign_nodes-panic (pod ∷ pods) (node ∷ nodes) state table h =
      assign_nodes-panic pods nodes _ _ (omega arith)

  module _ (cycle : IsCycleState w) where
    assign_nodes-keeps :
        (name : String) (pods : List Pod) (nodes : List String) (state : w.State)
        (table : Map String)
        → All (λ (q : Pod). q.name ≢ name) pods
        → Ensures
            (λ r. (get name r.1 ≡ get name table) × (w.read r.0 name ≡ w.read state name))
            (assign_nodes w pods nodes state table)
    unfolding assign_nodes
    assign_nodes-keeps name pods [] state table h = (refl, refl)
    assign_nodes-keeps name [] (node ∷ nodes) state table h = tt
    assign_nodes-keeps name (pod ∷ pods) (node ∷ nodes) state table (ne, h) =
        Ensures-map _ _
          (assign_nodes w pods nodes (w.write state pod.name (flux_state node))
            (put pod.name node table))
          (λ r (p, q). (
            p ∙ get-put_ne pod.name name node table ne,
            q ∙ cycle.read-write_ne state pod.name name _ ne,
          ))
          (assign_nodes-keeps name pods nodes _ _ h)

    assign_nodes-assigns :
        (pods : List Pod) (nodes : List String) (state : w.State) (table : Map String)
        → HaveOwnNames pods
        → Ensures
            (λ r. All (λ p. IsAt p r) (pairs pods nodes))
            (assign_nodes w pods nodes state table)
    unfolding assign_nodes HaveOwnNames pairs
    assign_nodes-assigns [] [] state table h = tt
    assign_nodes-assigns (pod ∷ pods) [] state table h = tt
    assign_nodes-assigns [] (node ∷ nodes) state table h = tt
    assign_nodes-assigns (pod ∷ pods) (node ∷ nodes) state table (ne, h) =
        let state1 = w.write state pod.name (flux_state node) in
        let table1 = put pod.name node table in
        let run = assign_nodes w pods nodes state1 table1 in
        Ensures-both _ _ run
          (Ensures-map _ _ run
            (λ r (p, q). (
              p ∙ get-put_self pod.name node table,
              q ∙ cycle.read-write state pod.name (flux_state node),
            ))
            (assign_nodes-keeps pod.name pods nodes state1 table1 ne))
          (assign_nodes-assigns pods nodes state1 table1 h)

  assign_nodes-done :
      (pods : List Pod) (nodes : List String) (state : w.State) (table : Map String)
      → length nodes ≤ length pods
      → (r : w.State × Map String) × (assign_nodes w pods nodes state table ≡ done r)
  unfolding assign_nodes
  assign_nodes-done pods [] state table h = ((state, table), refl)
  assign_nodes-done [] (node ∷ nodes) state table h = ground arith
  assign_nodes-done (pod ∷ pods) (node ∷ nodes) state table h =
      assign_nodes-done pods nodes _ _ (omega arith)

  module _ (c : Cluster) where
    -- A `PreFilter` that the sidecar gives more nodes than there are pods panics.
    pub use_nodes-panic :
        (group : String) (rep_pod : Pod) (pods : List Pod) (state : w.State) (nodes : List String)
        (m : Manager w)
        → length pods < length nodes
        → use_nodes w c group rep_pod pods state nodes m ≡ panic
    unfolding use_nodes admit
    use_nodes-panic group rep_pod pods state nodes m h =
        rw (assign_nodes-panic pods nodes state _ h) refl

    -- With no more nodes than pods `PreFilter` succeeds, and each pod in turn has its node, the same
    -- in the table and in the cycle's state; also when the allocation had the wrong size and its
    -- job has been cancelled. The pods have names of their own.
    pub use_nodes-assigns :
        IsCycleState w
        → (group : String) (rep_pod : Pod) (pods : List Pod) (state : w.State) (nodes : List String)
        → (m : Manager w) → HaveOwnNames pods
        → length nodes ≤ length pods
        → (o : Outcome w) × (use_nodes w c group rep_pod pods state nodes m ≡ done o)
          × (o.error ≡ none)
          × All (λ p. IsAt p (o.state, o.manager.pod_to_node)) (pairs pods nodes)
    unfolding use_nodes admit
    use_nodes-assigns cycle group rep_pod pods state nodes m own le =
        let m1 = check_size w c group rep_pod pods nodes m in
        let (r, run) = assign_nodes-done pods nodes state m1.pod_to_node le in
        let each = assign_nodes-assigns cycle pods nodes state m1.pod_to_node own in
        let here = subst (Ensures (λ r. All (λ p. IsAt p r) (pairs pods nodes))) run each in
        (
          admitted w c group m1 r,
          ap (λ x. x >>= λ written. done (admitted w c group m1 written)) run,
          refl,
          here,
        )

    check_size-fits :
        (group : String) (rep_pod : Pod) (pods : List Pod) (nodes : List String) (m : Manager w)
        → length nodes ≡ length pods
        → check_size w c group rep_pod pods nodes m ≡ m
    unfolding check_size
    check_size-fits group rep_pod pods nodes m fits =
        rw ((==_iff (length nodes) (length pods)).1 fits) refl

    -- With as many nodes as pods, the jobs of groups and the sidecar are left as they are, too.
    pub use_nodes-fits :
        IsCycleState w
        → (group : String) (rep_pod : Pod) (pods : List Pod) (state : w.State) (nodes : List String)
        → (m : Manager w) → HaveOwnNames pods
        → length nodes ≡ length pods
        → (o : Outcome w) × (use_nodes w c group rep_pod pods state nodes m ≡ done o)
          × (o.error ≡ none)
          × (o.manager.group_to_job ≡ m.group_to_job)
          × (o.manager.server ≡ m.server)
          × All (λ p. IsAt p (o.state, o.manager.pod_to_node)) (pairs pods nodes)
    unfolding use_nodes admit
    use_nodes-fits cycle group rep_pod pods state nodes m own fits =
        let (r, run) = assign_nodes-done pods nodes state m.pod_to_node (omega (arith, fits)) in
        let each = assign_nodes-assigns cycle pods nodes state m.pod_to_node own in
        (
          admitted w c group m r,
          ap (λ m1. admit w c group pods state nodes m1)
                (check_size-fits group rep_pod pods nodes m fits)
              ∙ ap (λ x. x >>= λ written. done (admitted w c group m written)) run,
          refl,
          refl,
          refl,
          subst (Ensures (λ r. All (λ p. IsAt p r) (pairs pods nodes))) run each,
        )
