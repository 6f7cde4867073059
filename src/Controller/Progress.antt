-- ===== src/Controller/Progress.antt =====
-- Where a reconcile rests, and what it deletes.
use flux_k8s.Base.{◌≡◌, ◌≢◌, refl, String, false, List, [], ◌∷◌, none, arith, ◌↔◌, ◌⊎◌, inl, inr}
use flux_k8s.Kube.{Pod, PodGroup, finished, failed}
use flux_k8s.Controller.Server.{Api, not_found, fault, Answer, found, fails, delete, Result}
use flux_k8s.Controller.Status.{next_group}
use flux_k8s.Controller.{
  update_and_patch, set_time_created, update_pod_group_size, update_status, reconcile_pods,
  reconcile_found, reconcile,
}

reconcile_pods_busy :
    (api : Api) (pg : PodGroup) (pods : Answer (List Pod))
    → reconcile_pods api pg pods ≢ ([], record { requeue = false; error = none })
unfolding reconcile_pods set_time_created update_pod_group_size update_status update_and_patch
reconcile_pods_busy api pg (fails e) = cc
reconcile_pods_busy api pg (found pods) = ground arith

reconcile_found_rests_iff :
    (api : Api) (pg : PodGroup)
    → (reconcile_found api pg ≡ ([], record { requeue = false; error = none }))
      ↔ ((pg.status.phase ≡ finished) ⊎ (pg.status.phase ≡ failed))
unfolding reconcile_found
reconcile_found_rests_iff api pg =
    ground (arith, reconcile_pods_busy api pg (api.list_pods pg.name))

Answer-cases {ℓ} :
    {A : Type ℓ} (a : Answer A)
    → ((v : A) × (a ≡ found v)) ⊎ (a ≡ fails not_found) ⊎ ((e : String) × (a ≡ fails (fault e)))
Answer-cases (found v) = inl (v, refl)
Answer-cases (fails not_found) = inr (inl refl)
Answer-cases (fails (fault e)) = inr (inr (e, refl))

-- The answers of the lookup on which there is nothing to reconcile.
abbrev pub IsOver : Answer PodGroup → Type 0
IsOver (found pg) = (pg.status.phase ≡ finished) ⊎ (pg.status.phase ≡ failed)
IsOver (fails not_found) = Unit
IsOver (fails (fault e)) = ⊥

-- A reconcile rests, with no call, no error and no request to come back, exactly when the group is
-- not found, finished or failed.
pub reconcile_rests_iff :
    (api : Api) (namespace name : String)
    → (reconcile api namespace name ≡ ([], record { requeue = false; error = none }))
      ↔ IsOver (api.get_group namespace name)
unfolding reconcile
reconcile_rests_iff api namespace name = elim (Answer-cases (api.get_group namespace name)) [
  | inl (pg, e) ↦ rw (e, reconcile) (reconcile_found_rests_iff api pg)
  | inr (inl e) ↦ rw (e, reconcile) ((λ _. tt), (λ _. refl))
  | inr (inr (f, e)) ↦ rw (e, reconcile) ((λ r. cc), (λ r. absurd r))
]

update_status_deletes :
    (api : Api) (pg : PodGroup) (pods : List Pod) {pg' : PodGroup} {r : Result}
    → update_status api pg pods ≡ (delete pg' ∷ [], r)
    → (pg' ≡ next_group pg pods)
      × ((pg'.status.phase ≡ finished) ⊎ (pg'.status.phase ≡ failed))
      × (r.requeue ≡ false)
unfolding update_status update_and_patch
update_status_deletes api pg pods e = ground arith

reconcile_pods_deletes :
    (api : Api) (pg : PodGroup) (l : Answer (List Pod)) {pg' : PodGroup} {r : Result}
    → reconcile_pods api pg l ≡ (delete pg' ∷ [], r)
    → (pods : List Pod) × (l ≡ found pods)
      × (pg' ≡ next_group pg pods)
      × ((pg'.status.phase ≡ finished) ⊎ (pg'.status.phase ≡ failed))
      × (r.requeue ≡ false)
unfolding reconcile_pods set_time_created update_pod_group_size update_and_patch
reconcile_pods_deletes api pg (fails f) {pg'} {r} e = cc
reconcile_pods_deletes api pg (found pods) {pg'} {r} e =
    let u : update_status api pg pods ≡ (delete pg' ∷ [], r) = ground arith in
    let (last, done, quiet) = update_status_deletes api pg pods u in (pods, refl, last, done, quiet)

reconcile_found_deletes :
    (api : Api) (pg : PodGroup) {pg' : PodGroup} {r : Result}
    → reconcile_found api pg ≡ (delete pg' ∷ [], r)
    → (pods : List Pod) × (api.list_pods pg.name ≡ found pods)
      × (pg' ≡ next_group pg pods)
      × ((pg'.status.phase ≡ finished) ⊎ (pg'.status.phase ≡ failed))
      × (r.requeue ≡ false)
unfolding reconcile_found
reconcile_found_deletes api pg {pg'} {r} e =
    reconcile_pods_deletes api pg (api.list_pods pg.name) {pg' = pg'} {r = r} (ground arith)

-- A reconcile deletes only a group that it has read and whose pods it has listed, and only once the
-- next status of that group is finished or failed.
pub reconcile_deletes :
    (api : Api) (namespace name : String) {pg' : PodGroup} {r : Result}
    → reconcile api namespace name ≡ (delete pg' ∷ [], r)
    → (pg : PodGroup) × (pods : List Pod) × (api.get_group namespace name ≡ found pg)
      × (api.list_pods pg.name ≡ found pods)
      × (pg' ≡ next_group pg pods)
      × ((pg'.status.phase ≡ finished) ⊎ (pg'.status.phase ≡ failed))
      × (r.requeue ≡ false)
unfolding reconcile
reconcile_deletes api namespace name e = elim (Answer-cases (api.get_group namespace name)) [
  | inl (pg, g) ↦
      let (pods, listed, last, done, quiet) =
        reconcile_found_deletes api pg (rw (g, reconcile) at e) in
      (pg, pods, g, listed, last, done, quiet)
  | inr (inl g) ↦ cc (rw (g, reconcile) at e)
  | inr (inr (f, g)) ↦ cc (rw (g, reconcile) at e)
]
