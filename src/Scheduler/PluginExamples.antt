-- ===== src/Scheduler/PluginExamples.antt =====
-- Runs of the extension points in the small world of `Toy`.
use flux_k8s.Base.{
  ℕ, ◌+◌, true, List, All, String, [], ◌∷◌, some, none, pos, ◌≤ℤ◌, ◌≡◌, ◌≢◌, ◌↔◌, ◌⊎◌, refl, Option,
  done, panic, get, arith, count_if, ltb, ◌==◌, ==_iff, ne_str,
}
use flux_k8s.Kube.{Pod, PodGroup}
use flux_k8s.Scheduler.Groups.{get_creation_timestamp, get_pod_group, is_assigned, snapshot_pods}
use flux_k8s.Scheduler.Flux.{Manager}
use flux_k8s.Scheduler.Plugin.{
  Code, Helpers, creation_time, is_earlier, QueuedPodInfo, less, pre_filter, post_filter, permit,
}
use flux_k8s.Scheduler.Plugin.Order.{IsClock, less_trans, less_total}
use flux_k8s.Scheduler.Plugin.Assignment.{IsSent, group_stays, passed_over_goes_nowhere}
use flux_k8s.Scheduler.Manager.{Outcome, use_nodes, get_pod_node}
use flux_k8s.Scheduler.Manager.PreFilter.{HaveOwnNames, pairs}
use flux_k8s.Scheduler.Manager.Passed.{let_through}
use flux_k8s.Scheduler.Plugin.Gang.{GivesUp, permit-success_iff, post_filter_lem}
use flux_k8s.Scheduler.Toy.{toy, toy-IsCache, toy-IsCycleState}
use flux_k8s.Scheduler.Examples.{pod_named, group_g, small, idle}

abbrev clock : Helpers
clock = record { pod_priority = λ p. pos 0; time_equal = λ a b. a == b; time_before = ltb }

clock-IsClock : IsClock clock
clock-IsClock = record { time_equal_iff = ==_iff; time_before_iff = λ a b. ground arith }

abbrev queued : String → Option ℕ → QueuedPodInfo
queued name time = record { pod = pod_named name; initial_attempt_timestamp = time }

less_trans_example : less clock small (queued "a" (some 3)) (queued "c" (some 9)) ≡ done true
unfolding less creation_time get_creation_timestamp get_pod_group is_earlier
less_trans_example =
    less_trans clock clock-IsClock small (queued "a" (some 3)) (queued "b" (some 5))
      (queued "c" (some 9)) refl refl

less_total_example :
    (less clock small (queued "a" (some 9)) (queued "b" (some 9)) ≡ done true)
    ⊎ (less clock small (queued "b" (some 9)) (queued "a" (some 9)) ≡ done true)
less_total_example =
    less_total clock clock-IsClock small (queued "a" (some 9)) (queued "b" (some 9)) 9 9 refl refl
      (ne_str "default/a" "default/b" refl)

-- A pod that nobody has tried to schedule yet has no time.
less_never_attempted : less clock small (queued "a" (some 3)) (queued "b" none) ≡ panic
unfolding less creation_time get_creation_timestamp get_pod_group
less_never_attempted = refl

group_stays_example :
    let pods : List Pod = pod_named "a" ∷ pod_named "b" ∷ [] in
    let nodes : List String = "node-a" ∷ "node-b" ∷ [] in
    (o : Outcome toy) × (use_nodes toy small "default/g" (pod_named "a") pods [] nodes idle
      ≡ done o)
    × (o.error ≡ none)
    × All (λ p. IsSent toy small o.state o.manager p) (pairs pods nodes)
unfolding HaveOwnNames
group_stays_example =
    group_stays toy small toy-IsCycleState "default/g" (pod_named "a")
      (pod_named "a" ∷ pod_named "b" ∷ []) [] ("node-a" ∷ "node-b" ∷ []) idle
      ((ne_str "b" "a" refl, tt), (tt, tt)) (omega arith)
      (ne_str "node-a" "" refl, (ne_str "node-b" "" refl, tt))

permit-success_iff_example :
    ((permit toy small (pod_named "b") [] (pos 60) []).code ≡ Code.success) ↔ (
      ((get_pod_group small (pod_named "b")).0 ≡ "")
      ⊎ ((pg : PodGroup) × ((get_pod_group small (pod_named "b")).0 ≢ "")
          × ((get_pod_group small (pod_named "b")).1 ≡ some pg)
          × (pg.spec.min_member
              ≤ℤ pos
                  (count_if (is_assigned small pg.name pg.namespace) (snapshot_pods small) + 1))))
unfolding snapshot_pods
permit-success_iff_example =
    permit-success_iff toy small (pod_named "b") [] (pos 60) [] (omega arith)

post_filter_lem_example :
    let assigned = count_if (is_assigned small "g" "default") (snapshot_pods small) in
    ((pos 2 ≤ℤ pos assigned)
      → post_filter toy small (pod_named "a") none (pod_named "b" ∷ []) idle ≡ (idle, []))
    × (¬ (pos 2 ≤ℤ pos assigned)
        → GivesUp toy small
            (pod_named "a")
            group_g
            (get_pod_group small (pod_named "a")).0
            (pod_named "b" ∷ [])
            (post_filter toy small (pod_named "a") none (pod_named "b" ∷ []) idle))
unfolding get_pod_group
post_filter_lem_example =
    post_filter_lem toy small toy-IsCache (pod_named "a") group_g none (pod_named "b" ∷ []) idle
      refl

-- The group has been let through, but this pod was given no node.
abbrev passing : Manager toy
passing = record idle { permitted = ("default/g", pos 600) ∷ [] }

passed_over_goes_nowhere_example :
    pre_filter toy small (pod_named "b") [] passing
    ≡ done
        (record { manager = passing; state = []; node_names = some ("" ∷ []); code = Code.success })
unfolding get get_pod_group get_pod_node
passed_over_goes_nowhere_example =
    passed_over_goes_nowhere toy small (pod_named "b") [] passing refl
      (let_through group_g (pod_named "a" ∷ (pod_named "b" ∷ [])) refl refl refl (omega arith) refl)
