-- ===== src/Sidecar/Jgf/Examples.antt =====
-- A run of the graph's operations.
use flux_k8s.Base.{pos, arith}
use flux_k8s.Sidecar.Jgf.{
  FluxJgf, new_flux_jgf, init_cluster, make_subnet, make_node, make_new_node, get_counter,
  next_index, next_resource_index,
}
use flux_k8s.Sidecar.Jgf.Ids.{IsNumbered, new, init, subnet, node, Built-IsNumbered}

-- A cluster with a subnet and a node.
abbrev graph : FluxJgf
graph =
    (make_node (λ s. s) "n" "subnet0" (pos 0)
      (make_subnet (λ s. s) "subnet" (pos 0) (init_cluster (λ s. s) "k8s" new_flux_jgf).1).1).1

Built-IsNumbered_example : IsNumbered graph
unfolding init_cluster make_subnet make_node new_flux_jgf make_new_node get_counter next_index
    next_resource_index
Built-IsNumbered_example =
    Built-IsNumbered (λ s. s) graph
      (node "n" "subnet0" (pos 0) _ (subnet "subnet" (pos 0) _ (init "k8s" _ new))) (omega arith)
