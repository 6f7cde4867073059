-- ===== src/Sidecar/Cluster/Layout/Tree.antt =====
-- The layout of a cluster is a tree.
use mathlib.Core.List.{◌++◌ as join}
use flux_k8s.Base.{ℕ, ◌+◌, ◌<◌, List, [], ◌∷◌}
use flux_k8s.Sidecar.Cluster.Shape.{Vertex}

-- Vertices numbered from a first one on, each with a parent of a smaller number.
unfoldable pub IsRooted : ℕ → List Vertex → Type 0
IsRooted n [] = Unit
IsRooted n (v ∷ vs) = (v.1 < n) × IsRooted (n + 1) vs

-- Vertices whose parents have numbers below a bound.
IsUnder : ℕ → List Vertex → Type 0
IsUnder m [] = Unit
IsUnder m (v ∷ vs) = (v.1 < m) × IsUnder m vs
