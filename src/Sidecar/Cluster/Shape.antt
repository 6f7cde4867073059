-- ===== src/Sidecar/Cluster/Shape.antt =====
-- Pieces of the graph: what a sequence of operations adds, as the vertices with their parents.
use mathlib.Core.List.{◌++◌ as join, append-nil, append_assoc, map-append}
use flux_k8s.Base.{
  ℕ, ◌+◌, ◌^◌, ◌<◌, String, List, [], ◌∷◌, pos, int64, ◌+ℤ◌, ◌≡◌, refl, ap, sym, ◌∙◌, arith, length,
  length-append, length-map, map,
}
use flux_k8s.Base.Int.{int64_of_IsInt64}
use flux_k8s.Base.Decimal.{format, format_ℕ}
use flux_k8s.Sidecar.Jgf.{Node, FluxJgf, Edge, make_bidirectional_edge}
use flux_k8s.Sidecar.Jgf.Ids.{plus_one}
use flux_k8s.Sidecar.Jgf.Makes.{Makes, kind_of}

-- A vertex by its kind and the number of its parent.
abbrev pub Vertex : Type 0
Vertex = (String × String) × ℕ

-- The code leaves the relation of an edge empty.
abbrev containment : String → String → Edge
containment source target = record {
  source = source;
  relation = "";
  target = target;
  subsystem = "containment";
}

-- The edges of vertices numbered from a first one on, each with its parent.
abbrev pub edges_from : ℕ → List ℕ → List Edge
edges_from n [] = []
edges_from n (p ∷ ps) =
    containment (format_ℕ p) (format_ℕ n)
    ∷ (containment (format_ℕ n) (format_ℕ p) ∷ edges_from (n + 1) ps)

abbrev pub kinds : List Vertex → List (String × String)
kinds vs = map (λ v. v.0) vs

abbrev pub parents : List Vertex → List ℕ
parents vs = map (λ v. v.1) vs

abbrev pub IsCounted : FluxJgf → Type 0
IsCounted g = g.resources.elements ≡ pos (length g.nodes)

-- From one graph to another the vertices are added, in order, each with the edges to its parent.
pub record Adds (vs : List Vertex) (g h : FluxJgf) : Type 0 where
  pub counted : IsCounted h
  pub nodes : map kind_of h.nodes ≡ join (map kind_of g.nodes) (kinds vs)
  pub edges : h.edges ≡ join g.edges (edges_from (length g.nodes) (parents vs))

-- There is room for more vertices below the largest number.
abbrev pub HasRoom : ℕ → FluxJgf → Type 0
HasRoom k g = IsCounted g × (length g.nodes + k < 2 ^ 63)

edges_from-append :
    (n : ℕ) (ps qs : List ℕ)
    → edges_from n (join ps qs) ≡ join (edges_from n ps) (edges_from (n + length ps) qs)
edges_from-append n [] qs = ap (λ k. edges_from k qs) (omega arith)
edges_from-append n (p ∷ ps) qs =
    ap (λ es. containment (format_ℕ p) (format_ℕ n) ∷ (containment (format_ℕ n) (format_ℕ p) ∷ es))
      (edges_from-append (n + 1) ps qs
        ∙ ap (λ k. join (edges_from (n + 1) ps) (edges_from k qs)) (omega arith))

pub Adds-length :
    (vs : List Vertex) (g h : FluxJgf) → Adds vs g h → length h.nodes ≡ length g.nodes + length vs
Adds-length vs g h a =
    sym (length-map kind_of h.nodes)
    ∙ ap length a.nodes
    ∙ length-append (map kind_of g.nodes) (kinds vs)
    ∙ ap (λ k. k + length (kinds vs)) (length-map kind_of g.nodes)
    ∙ ap (λ k. length g.nodes + k) (length-map (λ (v : Vertex). v.0) vs)

pub Adds-none : (g : FluxJgf) → IsCounted g → Adds [] g g
Adds-none g c = record {
  counted = c;
  nodes = sym (append-nil (map kind_of g.nodes));
  edges = sym (append-nil g.edges);
}

pub Adds-both :
    (vs ws : List Vertex) (g h k : FluxJgf) → Adds vs g h → Adds ws h k → Adds (join vs ws) g k
Adds-both vs ws g h k a b = record {
  counted = b.counted;
  nodes =
      b.nodes
      ∙ ap (λ ks. join ks (kinds ws)) a.nodes
      ∙ append_assoc (map kind_of g.nodes) (kinds vs) (kinds ws)
      ∙ ap (λ ks. join (map kind_of g.nodes) ks) (sym (map-append (λ (v : Vertex). v.0) vs ws));
  edges =
      b.edges
      ∙ ap (λ es. join es (edges_from (length h.nodes) (parents ws))) a.edges
      ∙ append_assoc g.edges _ _
      ∙ ap
          (λ n.
            join g.edges
              (join (edges_from (length g.nodes) (parents vs)) (edges_from n (parents ws))))
          (Adds-length vs g h a
            ∙ ap (λ n. length g.nodes + n) (sym (length-map (λ (v : Vertex). v.1) vs)))
      ∙ ap (λ es. join g.edges es)
          (sym (edges_from-append (length g.nodes) (parents vs) (parents ws)))
      ∙ ap (λ ps. join g.edges (edges_from (length g.nodes) ps))
          (sym (map-append (λ (v : Vertex). v.1) vs ws));
}

-- A vertex that is made and drawn below its parent.
pub Makes-Adds :
    (kind : String × String) (p : ℕ) (parent : String) (g : FluxJgf) (made : Node × FluxJgf)
    → Makes kind g made
    → HasRoom 1 g
    → parent ≡ format_ℕ p
    → Adds ((kind, p) ∷ []) g (make_bidirectional_edge parent made.0.id made.1)
unfolding make_bidirectional_edge format
Makes-Adds kind p parent g made m (c, room) e =
    let id = m.id ∙ ap format c in
    record {
      counted =
          m.elements
          ∙ ap (λ z. int64 (z +ℤ pos 1)) c
          ∙ ap int64 (plus_one (length g.nodes))
          ∙ int64_of_IsInt64 (pos (length g.nodes + 1)) (omega arith)
          ∙ ap pos (sym (ap length m.nodes ∙ length-append g.nodes (made.0 ∷ [])));
      nodes =
          ap (map kind_of) m.nodes
          ∙ map-append kind_of g.nodes (made.0 ∷ [])
          ∙ ap (λ k. join (map kind_of g.nodes) (k ∷ [])) m.kind;
      edges = rw (m.edges, append_assoc g.edges, e, id) refl;
    }

pub Makes-id :
    (kind : String × String) (g : FluxJgf) (made : Node × FluxJgf)
    → Makes kind g made
    → IsCounted g
    → made.0.id ≡ format_ℕ (length g.nodes)
unfolding format
Makes-id kind g made m c = m.id ∙ ap format c
