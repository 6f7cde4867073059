-- ===== src/Scheduler/Plugin/Lifecycle.antt =====
-- The life of the plugin: the extension points that the scheduler calls and the events of pods, in
-- any order, from `New` on. The sidecar answers to nobody else.
use flux_k8s.Base.{
  ℕ, String, Bool, List, [], Option, none, some, ℤ, ◌≡◌, done, Bool-cases, Option-cases, inl, inr,
  ap, sym, ◌∙◌, Map, ◌≢◌, not, str_eq, get, leb_ℤ, pos, eqb_ℤ,
}
use flux_k8s.Base.Run.{Ensures, Ensures-then, Ensures-done}
use flux_k8s.Kube.{Pod, PodGroup}
use flux_k8s.Labels.{get_pod_group_label}
use flux_k8s.Scheduler.World.{World, Cluster}
use flux_k8s.Scheduler.Groups.{get_pod_group, calculate_assigned_pods}
use flux_k8s.Scheduler.Allocations.{Allocations, Runs, none_yet, none_ne_some}
use flux_k8s.Scheduler.Flux.{Manager, update_pod, delete_pod}
use flux_k8s.Scheduler.Flux.Cancel.{IsFlux}
use flux_k8s.Scheduler.Flux.Refines.{allocations_of, update_pod-Runs, delete_pod-Runs}
use flux_k8s.Scheduler.Flux.Tracking.{IsTracked, Runs-IsTracked}
use flux_k8s.Scheduler.Manager.{
  Outcome, get_pod_node, delete_permitted_pod_group, backoff_pod_group,
}
use flux_k8s.Scheduler.Manager.Refines.{pre_filter_group-Runs}
use flux_k8s.Scheduler.Plugin.{
  Filtered, pre_filter, post_filter, unreserve, reject_group, maybe_backoff, enough_pods,
  after_group,
}
use flux_k8s.Scheduler.Plugin.Start.{Fluence, Surroundings, new, new_holds_nothing}

module _ (w : World) (plugin : Fluence w) where
  -- One call of an extension point that ends, or one event of a pod, with what the cluster answers
  -- during it. The other extension points leave the manager as it is.
  pub data Moves (m : Manager w) : Manager w → Type 0 where
    pre_filtered :
        (c : Cluster) (pod : Pod) (state : w.State) (f : Filtered w)
        → pre_filter w c pod state m ≡ done f
        → Moves m f.manager
    post_filtered :
        (c : Cluster) (pod : Pod) (waiting : List Pod)
        → Moves m (post_filter w c pod plugin.pod_group_backoff waiting m).0
    unreserved :
        (c : Cluster) (pod : Pod) (waiting : List Pod) → Moves m (unreserve w c pod waiting m).0
    updated : (c : Cluster) (old young : Pod) → Moves m (update_pod c old young m)
    deleted : (c : Cluster) (pod : Pod) → Moves m (delete_pod c pod m)

  -- The managers that the plugin's manager becomes.
  pub data Reachable : Manager w → Type 0 where
    started : Reachable plugin.manager
    moved : (m m' : Manager w) → Reachable m → Moves m m' → Reachable m'

module _ {w : World} (live : w.Server → ℤ → Bool) (flux : IsFlux w live) (c : Cluster)
    (a : Allocations) where
  abbrev RunsTo : Manager w → Type 0
  RunsTo m = Runs a (allocations_of live m)

  after_group-Runs :
      (pod : Pod) (o : Outcome w) → RunsTo o.manager → RunsTo (after_group w pod o).manager
  unfolding after_group
  after_group-Runs pod o t = elim (Option-cases o.error) [
    | inl e ↦ rw (e, after_group) t
    | inr (x, e) ↦ rw (e, after_group) t
  ]

  pre_filter-Runs :
      (pod : Pod) (state : w.State) (m : Manager w)
      → RunsTo m
      → Ensures (λ f. RunsTo f.manager) (pre_filter w c pod state m)
  unfolding pre_filter
  pre_filter-Runs pod state m t = elim (Bool-cases (not (str_eq (get_pod_node w m pod) ""))) [
    | inl e ↦ rw e t
    | inr e ↦ rw e (
        Ensures-then (λ o. RunsTo o.manager) (λ f. RunsTo f.manager) (after_group w pod) _
          (after_group-Runs pod) (pre_filter_group-Runs live flux c a pod state m t))
  ]

  pub unreserve-Runs :
      (pod : Pod) (waiting : List Pod) (m : Manager w)
      → RunsTo m
      → RunsTo (unreserve w c pod waiting m).0
  unfolding unreserve delete_permitted_pod_group
  unreserve-Runs pod waiting m t = elim (Option-cases (get_pod_group c pod).1) [
    | inl e ↦ rw (e, unreserve) t
    | inr (pg, e) ↦ rw (e, unreserve) t
  ]

  maybe_backoff-Runs :
      (pod : Pod) (pg : PodGroup) (group : String) (backoff : Option ℤ) (m : Manager w)
      → RunsTo m
      → RunsTo (maybe_backoff w c pod pg group backoff m)
  unfolding maybe_backoff backoff_pod_group
  maybe_backoff-Runs pod pg group none m t = t
  maybe_backoff-Runs pod pg group (some d) m t =
      elim (Bool-cases (enough_pods w c pg (c.list_pods pod.namespace (get_pod_group_label pod)))) [
        | inr e ↦ rw e t
        | inl e ↦ elim (Bool-cases (eqb_ℤ d (pos 0))) [
          | inl z ↦ rw e (rw z t)
          | inr z ↦ rw e (rw z t)
        ]
      ]

  pub post_filter-Runs :
      (pod : Pod) (backoff : Option ℤ) (waiting : List Pod) (m : Manager w)
      → RunsTo m
      → RunsTo (post_filter w c pod backoff waiting m).0
  unfolding post_filter reject_group delete_permitted_pod_group
  post_filter-Runs pod backoff waiting m t = elim (Option-cases (get_pod_group c pod).1) [
    | inl e ↦ rw (e, post_filter) t
    | inr (pg, e) ↦
        elim (Bool-cases
          (leb_ℤ pg.spec.min_member (pos (calculate_assigned_pods c pg.name pod.namespace)))) [
            | inl f ↦ rw (e, post_filter) (rw f t)
            | inr f ↦ rw (e, post_filter) (rw f (maybe_backoff-Runs pod pg _ backoff m t))
          ]
  ]

module _ {w : World} (live : w.Server → ℤ → Bool) (flux : IsFlux w live) (plugin : Fluence w) where
  Moves-Runs :
      (a : Allocations) (m m' : Manager w)
      → Moves w plugin m m'
      → Runs a (allocations_of live m)
      → Runs a (allocations_of live m')
  Moves-Runs a m _ (pre_filtered c pod state f e) t =
      Ensures-done (λ g. Runs a (allocations_of live g.manager)) _ f e
        (pre_filter-Runs live flux c a pod state m t)
  Moves-Runs a m _ (post_filtered c pod waiting) t =
      post_filter-Runs live flux c a pod plugin.pod_group_backoff waiting m t
  Moves-Runs a m _ (unreserved c pod waiting) t = unreserve-Runs live flux c a pod waiting m t
  Moves-Runs a m _ (updated c old young) t = update_pod-Runs live flux c a old young m t
  Moves-Runs a m _ (deleted c pod) t = delete_pod-Runs live flux c a pod m t

  -- Each call of an extension point that ends, and each event of a pod, is a sequence of steps of the
  -- groups' jobs: a group begins a new job, a group's job is over and the group holds none, or
  -- nothing changes for any group and any job.
  pub Moves-refines :
      (m m' : Manager w)
      → Moves w plugin m m'
      → Runs (allocations_of live m) (allocations_of live m')
  Moves-refines m m' moves = Moves-Runs _ m m' moves none_yet

  Reachable-Runs :
      (m : Manager w)
      → Reachable w plugin m
      → Runs (allocations_of live plugin.manager) (allocations_of live m)
  Reachable-Runs _ started = none_yet
  Reachable-Runs _ (moved m m' before moves) = Moves-Runs _ m m' moves (Reachable-Runs m before)

pub nothing_held : (g : String) (n : ℕ) (table : Map ℕ) → table ≡ [] → get g table ≢ some n
unfolding get
nothing_held g n table empty e = none_ne_some n (sym (ap (get g) empty) ∙ e)

module _ {w : World} (live : w.Server → ℤ → Bool) (flux : IsFlux w live) where
  -- From the plugin that `New` makes on, through any calls of the extension points that end and any
  -- events of pods, every job that the table of groups holds is live, and no two groups hold the
  -- same job.
  pub Reachable-IsTracked :
      (fresh : ℕ → w.Store) (server : w.Server) (s : Surroundings) (plugin : Fluence w)
      → (new w fresh server s).0 ≡ some plugin
      → (m : Manager w) → Reachable w plugin m
      → IsTracked live m
  Reachable-IsTracked fresh server s plugin e m reached =
      Runs-IsTracked live plugin.manager m (Reachable-Runs live flux plugin m reached) (record {
        held_is_live =
            λ g n h. absurd (nothing_held g n _ (new_holds_nothing w fresh server s plugin e) h);
        held_once = λ g h n k p q same.
            absurd (nothing_held g n _ (new_holds_nothing w fresh server s plugin e) p);
      })
