-- ===== src/Sidecar/Jgf/Ids.antt =====
-- The numbers of the graph's vertices: every operation that makes one keeps them right.
use mathlib.Core.List.{◌++◌ as join}
use mathlib.Core.Option.{some_inj}
use flux_k8s.Base.{
  ℕ, ◌+◌, ◌-◌, ◌^◌, ◌<◌, ◌⊎◌, zero, suc, String, List, [], ◌∷◌, some, ℤ, pos, int64, ◌+ℤ◌, ◌≡◌, ◌≢◌,
  refl, ap, sym, ◌∙◌, arith, get, get-put_self, get-put_ne, length, length-append, get_elem?,
  Bool-cases, inl, inr, ltb_ℤ, subst,
}
use flux_k8s.Base.Int.{int64_of_IsInt64}
use flux_k8s.Base.Decimal.{format, format_ℕ}
use flux_k8s.Base.Decimal.RoundTrip.{format_ℕ_injective}
use flux_k8s.Sidecar.Jgf.{
  Node, FluxJgf, ResourceCounter, ResourceCount, new_flux_jgf, next_index, next_resource_index,
  get_counter, make_new_node, make_subnet, make_node, make_core, make_memory, make_gpu,
  init_cluster, make_bidirectional_edge,
}

-- As many elements are counted as there are vertices; the vertex at a position has that position for
-- its global number and, as text, for its id, and the id leads to it.
pub record IsNumbered (g : FluxJgf) : Type 0 where
  pub counted : g.resources.elements ≡ pos (length g.nodes)
  pub numbered :
      (i : ℕ) (n : Node)
      → get_elem? g.nodes i ≡ some n
      → (n.id ≡ format_ℕ i) × (n.metadata.uniq_id ≡ pos i) × (get n.id g.node_map ≡ some n)

pub plus_one : (n : ℕ) → pos n +ℤ pos 1 ≡ pos (n + 1)
plus_one n = ground arith

-- The counter after one more element.
get_counter_elements :
    (name type_of : String) (r : ResourceCounter) (n : ℕ)
    → r.elements ≡ pos n
    → n < 2 ^ 63 - 1
    → ((get_counter name type_of r).0.element_id ≡ pos n)
      × ((get_counter name type_of r).1.elements ≡ pos (n + 1))
unfolding get_counter next_index next_resource_index
get_counter_elements name type_of r n e small = (
  e,
  ap (λ z. int64 (z +ℤ pos 1)) e
      ∙ ap int64 (plus_one n)
      ∙ int64_of_IsInt64 (pos (n + 1)) (omega arith),
)

apart : (i n : ℕ) → i < n → n ≢ i
apart i n le e = omega arith

last_or_before :
    {A : Type 0} (xs : List A) (a b : A) (i : ℕ)
    → get_elem? (join xs (a ∷ [])) i ≡ some b
    → ((i ≡ length xs) × (a ≡ b)) ⊎ ((i < length xs) × (get_elem? xs i ≡ some b))
last_or_before [] a b zero h = inl (refl, some_inj.0 h)
last_or_before [] a b (suc i) h = cc
last_or_before (x ∷ xs) a b zero h = inr (omega arith, h)
last_or_before (x ∷ xs) a b (suc i) h = elim (last_or_before xs a b i h) [
  | inl (e, same) ↦ inl (ap suc e, same)
  | inr (le, before) ↦ inr (omega arith, before)
]

fewer : {A : Type 0} (xs : List A) (a : A) (n : ℕ) → length (join xs (a ∷ [])) < n → length xs < n
fewer xs a n h = omega (arith, length-append xs (a ∷ []))

module _ (clean : String → String) where
  make_new_node-IsNumbered :
      (resource : ResourceCount) (subpath unit : String) (size : ℤ) (g : FluxJgf)
      (r : ResourceCounter)
      → IsNumbered g
      → resource.element_id ≡ pos (length g.nodes)
      → r.elements ≡ pos (length g.nodes + 1)
      → IsNumbered (make_new_node clean resource subpath unit size (record g { resources = r })).1
  unfolding make_new_node format
  make_new_node-IsNumbered resource subpath unit size g r t e f =
      let made = make_new_node clean resource subpath unit size (record g { resources = r }) in
      let id = ap format e in
      record {
        counted = f ∙ ap pos (sym (length-append g.nodes (made.0 ∷ [])));
        numbered = λ i n h. elim (last_or_before g.nodes made.0 n i h) [
          | inl (last, same) ↦
              subst
                (λ x.
                  (x.id ≡ format_ℕ i)
                  × (x.metadata.uniq_id ≡ pos i)
                  × (get x.id made.1.node_map ≡ some x))
                same
                (subst
                  (λ j.
                    (made.0.id ≡ format_ℕ j)
                    × (made.0.metadata.uniq_id ≡ pos j)
                    × (get made.0.id made.1.node_map ≡ some made.0))
                  (sym last) (id, e, get-put_self made.0.id made.0 g.node_map))
          | inr (before, held) ↦
              let (name, uniq, found) = t.numbered i n held in
              let other = λ (same : made.0.id ≡ n.id).
                apart i (length g.nodes) before
                  (format_ℕ_injective (length g.nodes) i (sym id ∙ same ∙ name)) in
              (name, uniq, get-put_ne made.0.id n.id made.0 g.node_map other ∙ found)
        ];
      }

  -- The graphs that the operations build, from the empty one on.
  pub data Built : FluxJgf → Type 0 where
    new : Built new_flux_jgf
    init : (name : String) (g : FluxJgf) → Built g → Built (init_cluster clean name g).1
    subnet :
        (name : String) (index : ℤ) (g : FluxJgf)
        → Built g
        → Built (make_subnet clean name index g).1
    node :
        (name path : String) (index : ℤ) (g : FluxJgf)
        → Built g
        → Built (make_node clean name path index g).1
    core :
        (name path : String) (index : ℤ) (g : FluxJgf)
        → Built g
        → Built (make_core clean name path index g).1
    memory :
        (name path : String) (size index : ℤ) (g : FluxJgf)
        → Built g
        → Built (make_memory clean name path size index g).1
    gpu :
        (name path : String) (size index : ℤ) (g : FluxJgf)
        → Built g
        → Built (make_gpu clean name path size index g).1
    edges :
        (parent child : String) (g : FluxJgf)
        → Built g
        → Built (make_bidirectional_edge parent child g)

  -- What one more vertex asks of the graph before it.
  abbrev Numbers : FluxJgf → Type 0
  Numbers g = length g.nodes < 2 ^ 63 - 1 → IsNumbered g

  counted_vertex :
      (name type_of subpath unit : String) (size : ℤ) (g : FluxJgf) (r : ResourceCounter)
      → (resource : ResourceCount) → Numbers g
      → r.elements ≡ g.resources.elements
      → resource.element_id ≡ (get_counter name type_of r).0.element_id
      → Numbers
          (make_new_node clean resource subpath unit size
            (record g { resources = (get_counter name type_of r).1 })).1
  unfolding make_new_node
  counted_vertex name type_of subpath unit size g r resource t kept same small =
      let shorter = fewer g.nodes _ (2 ^ 63 - 1) small in
      let before = t shorter in
      let (element, elements) =
        get_counter_elements name type_of r (length g.nodes) (kept ∙ before.counted) shorter in
      make_new_node-IsNumbered resource subpath unit size g _ before (same ∙ element) elements

  init-Numbers : (name : String) (g : FluxJgf) → Numbers g → Numbers (init_cluster clean name g).1
  unfolding init_cluster
  init-Numbers name g t = elim (Bool-cases (ltb_ℤ (pos 0) g.resources.elements)) [
    | inl e ↦ rw e t
    | inr e ↦ rw e (counted_vertex name "cluster" "" "" (pos 1) g _ _ t refl refl)
  ]

  -- In every graph that the operations build with fewer than 2^63 - 1 vertices, as many elements are
  -- counted as there are vertices, and each vertex has its position for its number and its id, by
  -- which the graph's map finds it.
  pub Built-IsNumbered : (g : FluxJgf) → Built g → length g.nodes < 2 ^ 63 - 1 → IsNumbered g
  unfolding new_flux_jgf make_subnet make_node make_core make_memory make_gpu
      make_bidirectional_edge
  Built-IsNumbered _ new = λ small. record { counted = refl; numbered = λ i n h. cc }
  Built-IsNumbered _ (init name g b) = init-Numbers name g (Built-IsNumbered g b)
  Built-IsNumbered _ (subnet name index g b) =
      counted_vertex name "subnet" _ _ _ g g.resources _ (Built-IsNumbered g b) refl refl
  Built-IsNumbered _ (node name path index g b) =
      counted_vertex name "node" _ _ _ g g.resources _ (Built-IsNumbered g b) refl refl
  Built-IsNumbered _ (core name path index g b) =
      counted_vertex name "core" _ _ _ g g.resources _ (Built-IsNumbered g b) refl refl
  Built-IsNumbered _ (memory name path size index g b) =
      counted_vertex name "memory" _ _ _ g g.resources _ (Built-IsNumbered g b) refl refl
  Built-IsNumbered _ (gpu name path size index g b) =
      counted_vertex name "gpu" _ _ _ g g.resources _ (Built-IsNumbered g b) refl refl
  Built-IsNumbered _ (edges parent child g b) = λ small. record {
    counted = (Built-IsNumbered g b small).counted;
    numbered = (Built-IsNumbered g b small).numbered;
  }
