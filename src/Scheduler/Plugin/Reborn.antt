-- ===== src/Scheduler/Plugin/Reborn.antt =====
-- A pod that is deleted and made again under its name, as those of a StatefulSet are.
use flux_k8s.Base.{
  ℕ, String, Bool, false, [], ◌∷◌, none, some, ℤ, pos, ◌≡◌, ◌≢◌, ap, ◌∙◌, get, done,
}
use flux_k8s.Base.Int.{int64_of_uint64}
use flux_k8s.Kube.{Pod, PodPhase, PodGroup}
use flux_k8s.Messages.{CancelResponse, reply}
use flux_k8s.Scheduler.World.{World, Cluster}
use flux_k8s.Scheduler.Groups.{get_pod_group}
use flux_k8s.Scheduler.Flux.{Manager, delete_pod}
use flux_k8s.Scheduler.Flux.Cancel.{IsFlux}
use flux_k8s.Scheduler.Flux.Ends.{delete_pod_ends}
use flux_k8s.Scheduler.Flux.Nodes.{ListsNone, delete_pod-keeps_nodes}
use flux_k8s.Scheduler.Plugin.{Code, pre_filter}
use flux_k8s.Scheduler.Plugin.Assignment.{placed_stays}

module _ {w : World} (live : w.Server → ℤ → Bool) (flux : IsFlux w live) (c later : Cluster) where
  -- A running pod with a node is deleted, the sidecar cancels the job of its group, and no pod of the
  -- namespace has the namespaced name of the group for its group label: the group holds no job and
  -- its job is over, and a new pod of the same name is sent to the old node all the same, with the
  -- sidecar not asked.
  pub reborn_pod_bypasses :
      (pod again : Pod) (pg : PodGroup) (node : String) (state : w.State) (m : Manager w) (n : ℕ)
      (s : w.Server) (r : CancelResponse)
      → pod.phase ≡ PodPhase.running
      → (get_pod_group c pod).1 ≡ some pg
      → ListsNone c pod.namespace (get_pod_group c pod).0
      → get (get_pod_group c pod).0 m.group_to_job ≡ some n
      → w.dial m.server ≡ none
      → w.cancel m.server (record { job_id = int64_of_uint64 n }) ≡ (s, reply r)
      → r.error ≡ pos 0
      → get pod.name m.pod_to_node ≡ some node
      → node ≢ ""
      → again.name ≡ pod.name
      → let after = delete_pod c pod m in
        (get (get_pod_group c pod).0 after.group_to_job ≡ none)
        × (live after.server (int64_of_uint64 n) ≡ false)
        × (pre_filter w later again state after
            ≡ done (record {
              manager = after;
              state = state;
              node_names = some (node ∷ []);
              code = Code.success;
            }))
  reborn_pod_bypasses pod again pg node state m n s r e known none_listed held up answer zero placed
        ne same =
      let (freed, over) = delete_pod_ends live flux c pod pg m n s r e known held up answer zero in
      (
        freed,
        over,
        placed_stays w later again node state (delete_pod c pod m)
            (ap (λ k. get k (delete_pod c pod m).pod_to_node) same
              ∙ ap (get pod.name) (delete_pod-keeps_nodes c pod pg m known none_listed)
              ∙ placed)
            ne,
      )
