-- ===== src/Sidecar/Jgf/Makes.antt =====
-- What each operation of the graph that makes a vertex does to the graph.
use mathlib.Core.List.{◌++◌ as join}
use flux_k8s.Base.{String, [], ◌∷◌, ℤ, pos, int64, ◌+ℤ◌, ◌≡◌, refl}
use flux_k8s.Base.Decimal.{format, format_ℕ}
use flux_k8s.Messages.{reply}
use flux_k8s.Sidecar.Jgf.{
  Node, FluxJgf, get_counter, next_index, next_resource_index, init_cluster, new_flux_jgf,
  make_new_node, make_subnet, make_node, make_core, make_memory, make_gpu,
}

-- The type of a vertex and the name that it is counted by.
abbrev pub kind_of : Node → String × String
kind_of n = (n.metadata.type_of, n.metadata.basename)

-- The vertex comes last and takes the next element for its id; no edge is drawn.
pub record Makes (expected : String × String) (g : FluxJgf) (made : Node × FluxJgf) : Type 0 where
  pub nodes : made.1.nodes ≡ join g.nodes (made.0 ∷ [])
  pub edges : made.1.edges ≡ g.edges
  pub id : made.0.id ≡ format g.resources.elements
  pub elements : made.1.resources.elements ≡ int64 (g.resources.elements +ℤ pos 1)
  pub kind : kind_of made.0 ≡ expected

module _ (clean : String → String) where
  pub make_subnet-Makes :
      (name : String) (index : ℤ) (g : FluxJgf)
      → Makes ("subnet", name) g (make_subnet clean name index g)
  unfolding make_subnet make_new_node get_counter next_index next_resource_index
  make_subnet-Makes name index g = record {
    nodes = refl;
    edges = refl;
    id = refl;
    elements = refl;
    kind = refl;
  }

  pub make_node-Makes :
      (name path : String) (index : ℤ) (g : FluxJgf)
      → Makes ("node", name) g (make_node clean name path index g)
  unfolding make_node make_new_node get_counter next_index next_resource_index
  make_node-Makes name path index g = record {
    nodes = refl;
    edges = refl;
    id = refl;
    elements = refl;
    kind = refl;
  }

  pub make_core-Makes :
      (name path : String) (index : ℤ) (g : FluxJgf)
      → Makes ("core", name) g (make_core clean name path index g)
  unfolding make_core make_new_node get_counter next_index next_resource_index
  make_core-Makes name path index g = record {
    nodes = refl;
    edges = refl;
    id = refl;
    elements = refl;
    kind = refl;
  }

  pub make_memory-Makes :
      (name path : String) (size index : ℤ) (g : FluxJgf)
      → Makes ("memory", name) g (make_memory clean name path size index g)
  unfolding make_memory make_new_node get_counter next_index next_resource_index
  make_memory-Makes name path size index g = record {
    nodes = refl;
    edges = refl;
    id = refl;
    elements = refl;
    kind = refl;
  }

  pub make_gpu-Makes :
      (name path : String) (size index : ℤ) (g : FluxJgf)
      → Makes ("gpu", name) g (make_gpu clean name path size index g)
  unfolding make_gpu make_new_node get_counter next_index next_resource_index
  make_gpu-Makes name path size index g = record {
    nodes = refl;
    edges = refl;
    id = refl;
    elements = refl;
    kind = refl;
  }

  -- The cluster as the first vertex of a new graph.
  pub init_cluster_new :
      (name : String)
      → (cluster : Node) × (g : FluxJgf) × (init_cluster clean name new_flux_jgf
          ≡ (reply cluster, g))
        × (cluster.id ≡ format_ℕ 0)
        × (g.nodes ≡ cluster ∷ [])
        × (g.edges ≡ [])
        × (g.resources.elements ≡ pos 1)
        × (kind_of cluster ≡ ("cluster", name))
  unfolding init_cluster new_flux_jgf make_new_node get_counter next_index next_resource_index
      format
  init_cluster_new name = (_, _, refl, refl, refl, refl, refl, refl)
