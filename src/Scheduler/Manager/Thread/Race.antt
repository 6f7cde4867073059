-- ===== src/Scheduler/Manager/Thread/Race.antt =====
-- An event of a pod between the answer of the sidecar and the table.
use flux_k8s.Base.{true, false, none, some, ℤ, Bool, ◌≡◌, ap, sym, ◌∙◌, get}
use flux_k8s.Base.Int.{uint64}
use flux_k8s.Kube.{Pod, PodGroup}
use flux_k8s.Messages.{MatchResponse, reply}
use flux_k8s.Scheduler.World.{World, Cluster}
use flux_k8s.Scheduler.PodSpec.Laws.{prepare_pod_job_spec_lem}
use flux_k8s.Scheduler.Groups.{get_pod_group}
use flux_k8s.Scheduler.Flux.{Manager, delete_pod}
use flux_k8s.Scheduler.Flux.Cancel.{IsFlux}
use flux_k8s.Scheduler.Flux.Ask.{request_of}
use flux_k8s.Scheduler.Flux.Pieces.{delete_pod-unheld, store_job_holds, call_match-answer, node_ids}
use flux_k8s.Scheduler.Manager.Thread.{Work, Shared, matching, sizing, advance, received}

module _ {w : World} (live : w.Server → ℤ → Bool) (flux : IsFlux w live) where
  -- The thread has asked for nodes for a group that exists and holds no job, the sidecar has answered,
  -- and a pod of the group is deleted before the answer is written: the deletion changes nothing, no
  -- job is cancelled, and the thread goes on to give the group the job that has begun, which is live
  -- and was not before; for a sidecar that obeys its laws.
  pub deletion_missed :
      (c now : Cluster) (pod : Pod) (pg : PodGroup) (k : Work w) (m : Manager w) (s : w.Server)
      (r : MatchResponse)
      → get_pod_group c pod ≡ (k.group_name, some pg)
      → get k.group_name m.group_to_job ≡ none
      → w.dial m.server ≡ none
      → w.match_allocate m.server (request_of k.rep_pod k.group k.group_name) ≡ (s, reply r)
      → let sent = advance now m (matching k) in
        let deleted = delete_pod c pod sent.manager in
        let after = advance now deleted sent.thread in
        (deleted ≡ sent.manager)
        × (after.thread ≡ sizing k (node_ids r))
        × (get k.group_name after.manager.group_to_job ≡ some (uint64 r.job_id))
        × (live m.server r.job_id ≡ false)
        × (live after.manager.server r.job_id ≡ true)
  unfolding advance received
  deletion_missed c now pod pg k m s r known unheld up found =
      let asks = (prepare_pod_job_spec_lem k.rep_pod k.group_name).0 in
      let (_, fresh, begun, _) =
        flux.match_new m.server s (request_of k.rep_pod k.group k.group_name) r asks found in
      let sent : Manager w = record m { server = s } in
      let same : delete_pod c pod sent ≡ sent =
        delete_pod-unheld c pod pg sent (ap (λ x. x.1) known)
          (ap (λ x. get x.0 m.group_to_job) known ∙ unheld) in
      let (holds, server) = store_job_holds k.group_name r (delete_pod c pod sent) in
      let answered = call_match-answer k.rep_pod k.group k.group_name m s r up found in
      let at = ap (received now k) answered in
      (
        ap (λ (x : Shared w). delete_pod c pod x.manager) at
            ∙ same
            ∙ sym (ap (λ (x : Shared w). x.manager) at),
        ap (λ (x : Shared w). (advance now (delete_pod c pod x.manager) x.thread).thread) at,
        ap
              (λ (x : Shared w).
                get k.group_name
                  (advance now (delete_pod c pod x.manager) x.thread).manager.group_to_job)
              at
            ∙ holds,
        fresh,
        ap
              (λ (x : Shared w).
                live (advance now (delete_pod c pod x.manager) x.thread).manager.server r.job_id)
              at
            ∙ ap (λ s. live s r.job_id) (server ∙ ap (λ (x : Manager w). x.server) same)
            ∙ begun,
      )
