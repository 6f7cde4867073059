-- ===== src/Sidecar/Fluxion/Served/Examples.antt =====
-- Runs of the plugin with the sidecar over small bindings that hold one job.
use mathlib.Core.Option.{some_inj}
use flux_k8s.Kube.{Pod, PodPhase}
use flux_k8s.Scheduler.World.{Cluster}
use flux_k8s.Scheduler.Plugin.{Code, pre_filter}
use flux_k8s.Scheduler.Plugin.Reborn.{reborn_pod_bypasses}
use flux_k8s.Base.{
  sym, List, ◌∷◌, All, done, get, String, Bool, true, false, [], Option, none, some, ℤ, pos, eqb_ℤ,
  eqb_ℤ_iff, ◌≡◌, ◌≢◌, refl, Bool-cases, if◌then◌else◌, inl, inr, ne_str, ◌*◌, ◌^◌, arith, subst,
}
use flux_k8s.Base.Int.{int64_of_uint64}
use flux_k8s.Messages.{reply}
use flux_k8s.Scheduler.World.{World}
use flux_k8s.Scheduler.Allocations.{none_ne_some}
use flux_k8s.Scheduler.Flux.{Manager, delete_pod}
use flux_k8s.Scheduler.Flux.Tracking.{IsTracked}
use flux_k8s.Scheduler.Plugin.Start.{Fluence, Surroundings, new, new_pod_group_manager}
use flux_k8s.Scheduler.Plugin.Interleaved.{at_rest, called, advanced, deleted, began, turned}
use flux_k8s.Scheduler.Manager.Thread.{Shared, start, advance}
use flux_k8s.Scheduler.Manager.Thread.Safe.{InFlight}
use flux_k8s.Scheduler.Examples.{pod_named, small, group_g}
use flux_k8s.Scheduler.Toy.{toy, toy-IsCycleState}
use flux_k8s.Scheduler.Groups.{get_pod_group}
use flux_k8s.Scheduler.Manager.{Outcome, get_pod_node, pre_filter_group}
use flux_k8s.Scheduler.Manager.PreFilter.{IsAt, HaveOwnNames, pairs}
use flux_k8s.Sidecar.Fluxion.Served.Placed.{pre_filter_group_places}
use Prim.Native.String.{◌++◌}
use flux_k8s.Sidecar.Alloc.{
  Json, Items, Fields, text, scalar, object, array, end, item, empty, field, AreVertices, IsGraph,
}
use flux_k8s.Sidecar.Fluxion.{flux_cancel, Bindings, Matched}
use flux_k8s.Sidecar.Fluxion.Served.{
  IsReapi, with_sidecar, live_in, sidecar-IsFlux, cancel_in, answered,
}
use flux_k8s.Sidecar.Fluxion.Served.Interleaved.{with_sidecar-Interleaved}

data Slot : Type 0 where
  free taken : Slot

abbrev slot_match : Slot → Slot × Matched
slot_match free = (taken, record { allocated = "graph"; job_id = 1; error = none })
slot_match taken = (taken, record { allocated = ""; job_id = 0; error = none })

abbrev slot_cancel : Slot → ℤ → Slot × Option String
slot_cancel free j = (free, some "no job")
slot_cancel taken j = if eqb_ℤ j (pos 1) then (free, none) else (taken, some "no such job")

-- The answer, with ids and an edge: two nodes with a core each.
abbrev two_nodes : List (String × String)
two_nodes = ("core", "core") ∷ (("node", "node-a") ∷ (("core", "core") ∷ (("node", "node-b") ∷ [])))

abbrev vertex : String → String × String → Json
vertex id (t, name) = object (
    field "id" (text id) (
      field "metadata"
        (object (
          field "type" (text t) (
            field "basename" (text name)
              (field "name" (text (name ++ "0")) (field "uniq_id" (scalar id) empty)))))
        empty))

abbrev numbered : List (String × String) → Items
numbered [] = end
numbered (v ∷ vs) = item (vertex "7" v) (numbered vs)

abbrev two_nodes_graph : Fields
two_nodes_graph =
    field "graph"
      (object (
        field "nodes" (array (numbered two_nodes)) (
          field "edges"
            (array
              (item (object (field "source" (text "2") (field "target" (text "3") empty))) end))
            empty)))
      empty

numbered-AreVertices : (vs : List (String × String)) → AreVertices (numbered vs) vs
numbered-AreVertices [] = tt
numbered-AreVertices (v ∷ vs) = ((_, _, refl, refl, refl, refl), numbered-AreVertices vs)

two_nodes-IsGraph : IsGraph two_nodes_graph two_nodes
two_nodes-IsGraph = (_, _, refl, refl, numbered-AreVertices two_nodes)

abbrev slot_bindings : Bindings
slot_bindings = record {
  Context = Slot;
  match_allocate = λ s spec. slot_match s;
  cancel = slot_cancel;
  marshal = λ job. some "spec";
  decode = λ text. some two_nodes_graph;
}

abbrev slot_live : Slot → ℤ → Bool
slot_live free j = false
slot_live taken j = eqb_ℤ j (pos 1)

-- What a match and a cancellation of the slot may do.
abbrev Begins : Slot → Slot × Matched → Type 0
Begins s (s', m) =
    m.allocated ≢ ""
    → (slot_live s (int64_of_uint64 m.job_id) ≡ false)
      × (slot_live s' (int64_of_uint64 m.job_id) ≡ true)
      × ((j : ℤ) → j ≢ int64_of_uint64 m.job_id → slot_live s' j ≡ slot_live s j)

slot_match-Begins : (s : Slot) → Begins s (slot_match s)
slot_match-Begins free = λ ne. (refl, refl, λ j apart. ground (arith, eqb_ℤ_iff j (pos 1)))
slot_match-Begins taken = λ ne. absurd (ne refl)

abbrev Keeps : Slot → Slot × Matched → Type 0
Keeps s (s', m) =
    ((e : String) → m.error ≢ some e)
    × (m.allocated ≡ "" → (j : ℤ) → slot_live s' j ≡ slot_live s j)

slot_match-Keeps : (s : Slot) → Keeps s (slot_match s)
slot_match-Keeps free = (none_ne_some, λ e. absurd (ne_str "graph" "" refl e))
slot_match-Keeps taken = (none_ne_some, λ e j. refl)

abbrev Ends : Slot → ℤ → Slot × Option String → Type 0
Ends s j (s', none) = (slot_live s' j ≡ false) × ((k : ℤ) → k ≢ j → slot_live s' k ≡ slot_live s k)
Ends s j (s', some e) = (k : ℤ) → slot_live s' k ≡ slot_live s k

slot_cancel-Ends : (s : Slot) (j : ℤ) → Ends s j (slot_cancel s j)
slot_cancel-Ends free j = λ k. refl
slot_cancel-Ends taken j = elim (Bool-cases (eqb_ℤ j (pos 1))) [
  | inl e ↦ rw e (refl, λ k apart. ground (arith, eqb_ℤ_iff j (pos 1), eqb_ℤ_iff k (pos 1), e))
  | inr e ↦ rw e (λ k. refl)
]

slot-IsReapi : IsReapi slot_bindings slot_live
slot-IsReapi = record {
  marshals = λ job. ("spec", refl);
  match_begun = λ s s' spec m e f ne.
      let (fresh, begun, others) = subst (Begins s) e (slot_match-Begins s) ne in
      (fresh, begun, others, (two_nodes_graph, two_nodes, refl, two_nodes-IsGraph));
  match_failed = λ s s' spec m x e f. absurd ((subst (Keeps s) e (slot_match-Keeps s)).0 x f);
  match_empty = λ s s' spec m e f empty. (subst (Keeps s) e (slot_match-Keeps s)).1 empty;
  cancel_ended = λ s s' j e. subst (Ends s j) e (slot_cancel-Ends s j);
  cancel_failed = λ s s' j x e. subst (Ends s j) e (slot_cancel-Ends s j);
}

abbrev slot_world : World
slot_world = with_sidecar toy slot_bindings

abbrev calm : Surroundings
calm = record {
  client_error = none;
  config_error = none;
  clientset_error = none;
  all_pods = reply [];
}

abbrev slot_plugin : Fluence slot_world
slot_plugin = record {
  manager = new_pod_group_manager slot_world (λ d. []) (some free) (pos (300 * 10 ^ 9));
  schedule_timeout = some (pos (300 * 10 ^ 9));
  pod_group_backoff = some (pos 0);
}

-- The group of two pods gets the two nodes.
pre_filter_group_places_example :
    (o : Outcome slot_world) × (pre_filter_group slot_world small
        (pod_named "b")
        []
        slot_plugin.manager
      ≡ done o)
    × (o.error ≡ none)
    × All
        (λ p. IsAt slot_world p (o.state, o.manager.pod_to_node))
        (pairs (pod_named "a" ∷ (pod_named "b" ∷ [])) ("node-a" ∷ ("node-b" ∷ [])))
unfolding get get_pod_group new_pod_group_manager HaveOwnNames
pre_filter_group_places_example =
    pre_filter_group_places toy slot_bindings small toy-IsCycleState (pod_named "b") (pod_named "a")
      (pod_named "b" ∷ []) group_g [] slot_plugin.manager free taken "spec"
      (record { allocated = "graph"; job_id = 1; error = none }) two_nodes_graph two_nodes refl refl
      refl (omega arith) refl refl refl refl refl refl (ne_str "graph" "" refl) refl
      two_nodes-IsGraph ((ne_str "b" "a" refl, tt), (tt, tt)) (omega arith)

-- Pod a is deleted while the number of the group's new job waits to be written.
abbrev first : Shared slot_world
first = record {
  manager = slot_plugin.manager;
  thread = start small (pod_named "a") [] slot_plugin.manager;
}

abbrev second : Shared slot_world
second = advance small first.manager first.thread

abbrev third : Shared slot_world
third = advance small second.manager second.thread

abbrev fourth : Shared slot_world
fourth = record { manager = delete_pod small (pod_named "a") third.manager; thread = third.thread }

abbrev last : Shared slot_world
last = advance small fourth.manager fourth.thread

with_sidecar-Interleaved_example :
    IsTracked (live_in toy slot_bindings slot_live slot-IsReapi) last.manager
    × InFlight (live_in toy slot_bindings slot_live slot-IsReapi) last.thread last.manager
unfolding new new_pod_group_manager get_pod_node get
with_sidecar-Interleaved_example =
    with_sidecar-Interleaved toy slot_bindings slot_live slot-IsReapi (λ d. []) (some free) calm
      slot_plugin refl last
      (turned fourth last
        (turned third fourth
          (turned second third
            (turned first second
              (turned _ first began (called small (pod_named "a") [] at_rest refl))
              (advanced small))
            (advanced small))
          (deleted small (pod_named "a")))
        (advanced small))

-- The group holds job 1, and pod a runs on its node.
abbrev running : Manager slot_world
running = record (slot_plugin.manager) {
  group_to_job = ("default/g", 1) ∷ [];
  pod_to_node = ("a", "node-a") ∷ [];
  server = some taken;
}

abbrev running_pod : Pod
running_pod = record (pod_named "a") { phase = PodPhase.running }

abbrev unlisted : Cluster
unlisted = record small { list_pods = λ namespace label. some [] }

reborn_pod_bypasses_example :
    let after = delete_pod unlisted running_pod running in
    (get "default/g" after.group_to_job ≡ none)
    × (live_in toy slot_bindings slot_live slot-IsReapi after.server (int64_of_uint64 1) ≡ false)
    × (pre_filter slot_world small (pod_named "a") [] after
        ≡ done (record {
          manager = after;
          state = [];
          node_names = some ("node-a" ∷ []);
          code = Code.success;
        }))
unfolding get get_pod_group new_pod_group_manager cancel_in answered flux_cancel
reborn_pod_bypasses_example =
    reborn_pod_bypasses (live_in toy slot_bindings slot_live slot-IsReapi)
      (sidecar-IsFlux toy slot_bindings slot_live slot-IsReapi) unlisted small running_pod
      (pod_named "a") group_g "node-a" [] running 1 (some free)
      (record { job_id = pos 1; error = pos 0 }) refl refl (λ pods e. sym (some_inj.0 e)) refl refl
      refl refl refl (ne_str "node-a" "" refl) refl
