-- ===== src/Scheduler/Flux/Clears.antt =====
-- A cancellation with a sidecar whose code is 0 whenever it answers.
use flux_k8s.Base.{
  String, none, pos, eqb_ℤ_iff, ◌≡◌, refl, get, get-delete_self, delete, Option-cases, inl, inr, ap,
  ◌∙◌,
}
use flux_k8s.Kube.{Pod}
use flux_k8s.Messages.{CancelRequest, CancelResponse, Reply, reply, refused}
use flux_k8s.Scheduler.World.{World, Cluster}
use flux_k8s.Scheduler.Flux.{Manager, cleanup, after_cancel, cancel_job, cancel_flux_job}

-- The sidecar never answers with another code.
abbrev pub AnswersZero : World → Type 0
AnswersZero w =
    (s s' : w.Server) (request : CancelRequest) (r : CancelResponse)
    → w.cancel s request ≡ (s', reply r)
    → r.error ≡ pos 0

pub cleanup_jobs :
    {w : World} (c : Cluster) (pod : Pod) (group : String) (m : Manager w)
    → (cleanup c pod group m).group_to_job ≡ delete group m.group_to_job
unfolding cleanup
cleanup_jobs c pod group m = elim (Option-cases (c.list_pods pod.namespace group)) [
  | inl e ↦ rw (e, cleanup) refl
  | inr (pods, e) ↦ rw (e, cleanup) refl
]

pub cleanup_server :
    {w : World} (c : Cluster) (pod : Pod) (group : String) (m : Manager w)
    → (cleanup c pod group m).server ≡ m.server
unfolding cleanup
cleanup_server c pod group m = elim (Option-cases (c.list_pods pod.namespace group)) [
  | inl e ↦ rw (e, cleanup) refl
  | inr (pods, e) ↦ rw (e, cleanup) refl
]

module _ {w : World} (zero_code : AnswersZero w) (c : Cluster) where
  after_cancel-clears :
      (pod : Pod) (group : String) (m : Manager w) (request : CancelRequest)
      → (a : w.Server × Reply CancelResponse) → w.cancel m.server request ≡ a
      → (after_cancel c group pod m a).1 ≡ none
      → get group (after_cancel c group pod m a).0.group_to_job ≡ none
  unfolding after_cancel
  after_cancel-clears pod group m request (s, refused x) e h = cc
  after_cancel-clears pod group m request (s, reply r) e h =
      let t = (eqb_ℤ_iff r.error (pos 0)).1 (zero_code m.server s request r e) in
      rw t (
        ap (get group) (cleanup_jobs c pod group (record m { server = s }))
        ∙ get-delete_self group m.group_to_job)

  pub cancel_flux_job-clears :
      (pod : Pod) (group : String) (m : Manager w)
      → (cancel_flux_job c group pod m).1 ≡ none
      → get group (cancel_flux_job c group pod m).0.group_to_job ≡ none
  unfolding cancel_flux_job cancel_job
  cancel_flux_job-clears pod group m = elim (Option-cases (get group m.group_to_job)) [
    | inl e ↦ rw (e, cancel_flux_job) (λ h. e)
    | inr (n, e) ↦ elim (Option-cases (w.dial m.server)) [
      | inr (x, d) ↦ rw (e, d, cancel_flux_job, cancel_job) (λ h. cc)
      | inl d ↦ rw (e, d, cancel_flux_job, cancel_job) (after_cancel-clears pod group m _ _ refl)
    ]
  ]
