-- ===== src/Sidecar/Cluster/Tower.antt =====
-- What a node of the cluster adds to the graph: a subnet, the compute node and its resources.
use mathlib.Core.List.{◌++◌ as join}
use flux_k8s.Base.{
  ℕ, ◌+◌, zero, suc, String, List, [], ◌∷◌, none, pos, int64, ◌+ℤ◌, get, ◌≡◌, refl, ap, ◌∙◌, arith,
  length, length-append, replicate, Map, pos_part,
}
use flux_k8s.Base.Decimal.{format_ℕ}
use flux_k8s.Sidecar.Jgf.{Node, FluxJgf, make_subnet, make_bidirectional_edge}
use flux_k8s.Sidecar.Jgf.Makes.{
  Makes, make_subnet-Makes, make_node-Makes, make_core-Makes, make_memory-Makes, make_gpu-Makes,
}
use flux_k8s.Sidecar.Cluster.{
  Quantities, Api, KubeNode, Building, add_children, add_resources, add_node, find_subnet,
  avail_cpu, avail_mem, gpu_count, gibibytes, zone_of,
}
use flux_k8s.Sidecar.Cluster.Shape.{
  Vertex, Adds, Adds-none, Adds-both, Adds-length, HasRoom, Makes-Adds, Makes-id,
}

-- One piece after another, with room for both.
chain :
    (vs ws : List Vertex) (g h k : FluxJgf)
    → (HasRoom (length vs) g → Adds vs g h)
    → (HasRoom (length ws) h → Adds ws h k)
    → HasRoom (length (join vs ws)) g
    → Adds (join vs ws) g k
chain vs ws g h k first second (c, room) =
    let a = first (c, omega (arith, room, length-append vs ws)) in
    Adds-both vs ws g h k a
      (second (a.counted, omega (arith, room, length-append vs ws, Adds-length vs g h a)))

add_children-Adds :
    (kind : String × String) (p : ℕ) (parent : String) (make : ℕ → FluxJgf → Node × FluxJgf)
    → ((i : ℕ) (g : FluxJgf) → Makes kind g (make i g))
    → parent ≡ format_ℕ p
    → (n i : ℕ) (g : FluxJgf) → HasRoom (length {A = Vertex} (replicate n (kind, p))) g
    → Adds (replicate n (kind, p)) g (add_children make n i parent g)
unfolding add_children
add_children-Adds kind p parent make m e zero i g = λ room. Adds-none g room.0
add_children-Adds kind p parent make m e (suc n) i g =
    chain ((kind, p) ∷ []) (replicate n (kind, p)) _ _ _
      (λ room. Makes-Adds kind p parent g (make i g) (m i g) room e)
      (add_children-Adds kind p parent make m e n (i + 1) _)

module _ (q : Quantities) where
  -- The vertices below a compute node with a number.
  unfoldable pub below : ℕ → KubeNode q → Map q.Quantity → List Vertex
  below p node reqs = join (replicate (pos_part (gpu_count q node.gpu)) (("gpu", "nvidiagpu"), p)) (
      join (replicate (pos_part (avail_cpu q node reqs)) (("core", "core"), p))
        (replicate (pos_part (gibibytes (avail_mem q node reqs))) (("memory", "memory"), p)))

  -- What a node of the cluster stands for, from a first number on: a subnet of its own below the
  -- cluster, the compute node below that, and its resources.
  unfoldable pub tower : ℕ → KubeNode q → Map q.Quantity → List Vertex
  tower n node reqs =
      (("subnet", zone_of node.labels), 0) ∷ ((("node", node.name), n) ∷ below (n + 1) node reqs)

module _ (q : Quantities) (api : Api q) where
  add_resources-Adds :
      (p : ℕ) (node : KubeNode q) (reqs : Map q.Quantity) (subnet compute : Node) (g : FluxJgf)
      → compute.id ≡ format_ℕ p
      → HasRoom (length (below q p node reqs)) g
      → Adds (below q p node reqs) g (add_resources q api node reqs subnet compute g)
  unfolding add_resources below
  add_resources-Adds p node reqs subnet compute g e =
      chain _ _ _ _ _
        (add_children-Adds _ p compute.id _ (λ i h. make_gpu-Makes api.clean _ _ _ _ h) e _ 0 g)
        (chain _ _ _ _ _
          (add_children-Adds _ p compute.id _ (λ i h. make_core-Makes api.clean _ _ _ h) e _ 0 _)
          (add_children-Adds _ p compute.id _ (λ i h. make_memory-Makes api.clean _ _ _ _ h) e _ 0
            _))

  find_subnet_new :
      (name : String) (cluster : Node) (b : Building)
      → b.subnet_lookup ≡ []
      → find_subnet q api name cluster b ≡ (
        (make_subnet api.clean name b.subnet_counter b.graph).0,
        record b {
          graph =
              make_bidirectional_edge cluster.id
                (make_subnet api.clean name b.subnet_counter b.graph).0.id
                (make_subnet api.clean name b.subnet_counter b.graph).1;
          subnet_counter = int64 (b.subnet_counter +ℤ pos 1);
        },
      )
  unfolding find_subnet get
  find_subnet_new name cluster b empty =
      let missing : get name b.subnet_lookup ≡ none = ap (λ l. get name l) empty in
      rw (missing, find_subnet) refl

  -- A node is added as its tower, and the lookup of subnets stays empty.
  pub add_node-Adds :
      (cluster : Node) (count n : ℕ) (node : KubeNode q) (reqs : Map q.Quantity) (b : Building)
      → cluster.id ≡ format_ℕ 0
      → b.subnet_lookup ≡ []
      → length b.graph.nodes ≡ n
      → HasRoom (length (tower q n node reqs)) b.graph
      → Adds (tower q n node reqs) b.graph (add_node q api cluster count node reqs b).graph
        × ((add_node q api cluster count node reqs b).subnet_lookup ≡ [])
  unfolding add_node tower
  add_node-Adds cluster count n node reqs b e empty len room =
      let m = make_subnet-Makes api.clean (zone_of node.labels) b.subnet_counter b.graph in
      let first = Makes-Adds _ 0 cluster.id b.graph _ m (room.0, omega (arith, room.1)) e in
      let made = make_node-Makes api.clean node.name _ (pos count) _ in
      let found = find_subnet_new (zone_of node.labels) cluster b empty in
      let subnet_id = Makes-id _ b.graph _ m room.0 ∙ ap format_ℕ len in
      let node_id =
        Makes-id _ _ _ made first.counted
        ∙ ap format_ℕ (Adds-length _ _ _ first ∙ ap (λ k. k + 1) len) in
      (
        rw found (
            chain _ (_ ∷ below q (n + 1) node reqs) _ _ _ (λ _. first)
              (chain _ (below q (n + 1) node reqs) _ _ _
                (λ space. Makes-Adds _ n _ _ _ made space subnet_id)
                (add_resources-Adds (n + 1) node reqs _ _ _ node_id))
              room),
        ap (λ (x : Node × Building). x.1.subnet_lookup) found ∙ empty,
      )
