-- ===== src/Sidecar/Cluster/Layout.antt =====
-- The graph of a cluster against its description node by node.
pub mod Tree
pub mod Examples
use mathlib.Core.List.{◌++◌ as join}
use flux_k8s.Base.{
  ℕ, ◌+◌, ◌-◌, ◌^◌, ◌<◌, zero, suc, String, Bool, true, false, not, List, [], ◌∷◌, Option, none,
  some, ℤ, pos, int64, ◌+ℤ◌, get, subst, if◌then◌else◌, ◌≡◌, refl, ap, sym, ◌∙◌, arith, length,
  length-append, replicate, select, map, Map, Bool-cases, inl, inr, pos_part, get_elem?,
}
use flux_k8s.Base.Decimal.{format_ℕ}
use flux_k8s.Kube.{Pod}
use flux_k8s.Messages.{Reply, reply}
use flux_k8s.Sidecar.Jgf.{
  Node, FluxJgf, make_core, make_memory, make_gpu, make_node, make_subnet, make_bidirectional_edge,
}
use flux_k8s.Sidecar.Jgf.Makes.{
  Makes, kind_of, init_cluster_new, make_subnet-Makes, make_node-Makes, make_core-Makes,
  make_memory-Makes, make_gpu-Makes,
}
use flux_k8s.Sidecar.Cluster.{
  Quantities, Api, KubeNode, Building, add_children, add_resources, add_node, add_nodes,
  find_subnet, build_graph, start_cluster, avail_cpu, avail_mem, gpu_count, gibibytes, zone_of,
  is_skipped, pods_on, compute_total_requests,
}
use flux_k8s.Sidecar.Cluster.Shape.{
  Vertex, Adds, Adds-none, Adds-both, Adds-length, HasRoom, IsCounted, Makes-Adds, Makes-id,
  edges_from, kinds, parents,
}
use flux_k8s.Sidecar.Cluster.Tower.{below, tower, add_node-Adds}

module _ (q : Quantities) (api : Api q) where
  add_nodes_skip :
      (skip_label : String) (cluster : Node) (count : ℕ) (node : KubeNode q)
      (nodes : List (KubeNode q)) (b : Building)
      → is_skipped q skip_label node ≡ true
      → add_nodes q api skip_label cluster count (node ∷ nodes) b
        ≡ add_nodes q api skip_label cluster (count + 1) nodes b
  unfolding add_nodes
  add_nodes_skip skip_label cluster count node nodes b e = rw (e, add_nodes) refl

  module _ (pods : String → List Pod) where
    -- What the pods on a node ask for.
    abbrev requested : KubeNode q → Map q.Quantity
    requested node = compute_total_requests q api.pod_requests (pods node.name)

    -- The towers of some nodes, one after another.
    pub layout : ℕ → List (KubeNode q) → List Vertex
    layout n [] = []
    layout n (node ∷ nodes) =
        let own = tower q n node (requested node) in
        join own (layout (n + length {A = Vertex} own) nodes)

    module _ (answers : (name : String) → pods_on q api name ≡ reply (pods name)) where
      add_nodes_keep :
          (skip_label : String) (cluster : Node) (count : ℕ) (node : KubeNode q)
          (nodes : List (KubeNode q)) (b : Building)
          → is_skipped q skip_label node ≡ false
          → add_nodes q api skip_label cluster count (node ∷ nodes) b
            ≡ add_nodes q api skip_label cluster
                (count + 1)
                nodes
                (add_node q api cluster count node (requested node) b)
      unfolding add_nodes
      add_nodes_keep skip_label cluster count node nodes b e =
          rw (e, answers node.name, add_nodes) refl

      module _ (skip_label : String) (cluster : Node) (e : cluster.id ≡ format_ℕ 0) where
        abbrev is_kept : KubeNode q → Bool
        is_kept node = not (is_skipped q skip_label node)

        add_nodes-Adds :
            (count n : ℕ) (nodes : List (KubeNode q)) (b : Building)
            → b.subnet_lookup ≡ []
            → length b.graph.nodes ≡ n
            → HasRoom (length (layout n (select is_kept nodes))) b.graph
            → (built : Building) × (add_nodes q api skip_label cluster count nodes b ≡ reply built)
              × Adds (layout n (select is_kept nodes)) b.graph built.graph
        unfolding add_nodes layout
        add_nodes-Adds count n [] b empty len = λ room. (b, refl, Adds-none b.graph room.0)
        add_nodes-Adds count n (node ∷ nodes) b empty len =
            elim (Bool-cases (is_skipped q skip_label node)) [
              | inl skipped ↦
                  rw (skipped, add_nodes_skip skip_label cluster count node nodes b skipped)
                    (add_nodes-Adds (count + 1) n nodes b empty len)
              | inr kept ↦
                  let own = tower q n node (requested node) in
                  let rest = layout (n + length {A = Vertex} own) (select is_kept nodes) in
                  rw (kept, add_nodes_keep skip_label cluster count node nodes b kept)
                    (λ room.
                      let split = length-append own rest in
                      let (a, empty1) =
                        add_node-Adds q api cluster count n node (requested node) b e empty len
                          (room.0, omega (arith, room.1, split)) in
                      let (built, ran, more) =
                        add_nodes-Adds (count + 1) (n + length {A = Vertex} own) nodes _ empty1
                          (Adds-length own _ _ a ∙ ap (λ k. k + length {A = Vertex} own) len)
                          (a.counted, omega (arith, room.1, split, Adds-length own _ _ a)) in
                      (built, ran, Adds-both own rest _ _ _ a more))
            ]

      -- The graph of some nodes is the layout of those that are not skipped.
      pub build_graph-layout :
          (skip_label : String) (nodes : List (KubeNode q)) (vs : List Vertex)
          → layout 1 (select (λ node. not (is_skipped q skip_label node)) nodes) ≡ vs
          → length vs + 1 < 2 ^ 63
          → (g : FluxJgf) × (build_graph q api skip_label nodes ≡ reply g)
            × (map kind_of g.nodes ≡ ("cluster", "k8scluster") ∷ kinds vs)
            × (g.edges ≡ edges_from 1 (parents vs))
      unfolding build_graph start_cluster
      build_graph-layout skip_label nodes vs same small =
          let (cluster, start, made, id, held, drawn, counted, kind) =
            init_cluster_new api.clean "k8scluster" in
          let b : Building = record {
            graph = start;
            subnet_lookup = [];
            subnet_counter = pos 0;
            total_alloc_cpu = pos 0;
          } in
          let us = layout 1 (select (λ node. not (is_skipped q skip_label node)) nodes) in
          let one = ap length held in
          let (built, ran, a) =
            add_nodes-Adds skip_label cluster id 0 1 nodes b refl one
              (counted ∙ ap pos (sym one), omega (arith, one, small, ap length same)) in
          (
            built.graph,
            rw (made, ran) refl,
            a.nodes
                ∙ ap (λ ks. join ks (kinds us)) (ap (map kind_of) held ∙ ap (λ k. k ∷ []) kind)
                ∙ ap (λ ws. ("cluster", "k8scluster") ∷ kinds ws) same,
            a.edges
                ∙ ap (λ es. join es (edges_from (length start.nodes) (parents us))) drawn
                ∙ ap (λ k. edges_from k (parents us)) one
                ∙ ap (λ ws. edges_from 1 (parents ws)) same,
          )
