-- ===== src/Controller/Keeps.antt =====
-- What no reconcile changes, on a server that keeps the status of a group as a subresource.
use flux_k8s.Base.{
  ℕ, zero, suc, String, ◌&&◌, ◌||◌, List, Option, none, some, pos, ltb_ℤ, eqb_ℤ, ◌==◌, ◌≡◌, refl,
  ◌∙◌, Bool-cases, inl, inr,
}
use flux_k8s.Kube.{Pod, PodGroup, is_finished, is_failed, is_scheduling, is_pending}
use flux_k8s.Controller.Server.{Api, Answer, found, fails}
use flux_k8s.Controller.Status.{next_group}
use flux_k8s.Controller.Rounds.{rounds, serving, store_all}
use flux_k8s.Controller.{
  sub_time, two_days, update_and_patch, set_time_created, update_pod_group_size, update_status,
  reconcile_pods, reconcile_found, reconcile,
}

-- The stored group, if there is one, has the name, the namespace and the specification of `pg`.
abbrev pub IsKept : PodGroup → Option PodGroup → Type 0
IsKept pg none = Unit
IsKept pg (some x) = (x.name ≡ pg.name) × (x.namespace ≡ pg.namespace) × (x.spec ≡ pg.spec)

IsKept-trans : (a b : PodGroup) (s : Option PodGroup) → IsKept a (some b) → IsKept b s → IsKept a s
IsKept-trans a b none h k = tt
IsKept-trans a b (some x) (p, q, r) (p', q', r') = (p' ∙ p, q' ∙ q, r' ∙ r)

module _ (api : Api) (pg : PodGroup) where
  abbrev server : Api
  server = serving api (some pg)

  update_status-IsKept :
      (pods : List Pod) → IsKept pg (store_all (some pg) (update_status server pg pods).0)
  unfolding update_status update_and_patch
  update_status-IsKept pods =
      let phase = (next_group pg pods).status.phase in
      elim (Bool-cases (is_finished phase || is_failed phase)) [
        | inl e ↦ rw e tt
        | inr e ↦ rw e (refl, refl, refl)
      ]

  reconcile_pods-IsKept :
      (l : Answer (List Pod)) → IsKept pg (store_all (some pg) (reconcile_pods server pg l).0)
  unfolding reconcile_pods set_time_created update_pod_group_size update_and_patch
  reconcile_pods-IsKept (fails e) = (refl, refl, refl)
  reconcile_pods-IsKept (found pods) = elim (Bool-cases (pg.status.creation_time == 0)) [
    | inl e ↦ rw e (refl, refl, refl)
    | inr e ↦ elim (Bool-cases (eqb_ℤ pg.spec.min_member (pos 0))) [
      | inl z ↦ rw (e, z) (refl, refl, refl)
      | inr z ↦ rw (e, z) (update_status-IsKept pods)
    ]
  ]

  reconcile_found-IsKept : IsKept pg (store_all (some pg) (reconcile_found server pg).0)
  unfolding reconcile_found
  reconcile_found-IsKept =
      let phase = pg.status.phase in
      let late = ltb_ℤ two_days (sub_time pg.status.schedule_start_time pg.creation_timestamp) in
      elim (Bool-cases (is_finished phase || is_failed phase)) [
        | inl e ↦ rw e (refl, refl, refl)
        | inr e ↦
            elim (Bool-cases (
              (is_scheduling phase || is_pending phase)
              && eqb_ℤ pg.status.running (pos 0)
              && late)) [
                | inl f ↦ rw e (rw f (refl, refl, refl))
                | inr f ↦ rw e (rw f (reconcile_pods-IsKept (api.list_pods pg.name)))
              ]
      ]

module _ (api : Api) (namespace name : String) where
  rounds-IsKept_from :
      (k : ℕ) (pg : PodGroup) (s : Option PodGroup)
      → IsKept pg s
      → IsKept pg (rounds api namespace name k s)
  unfolding reconcile
  rounds-IsKept_from zero pg s h = h
  rounds-IsKept_from (suc k) pg none h = rounds-IsKept_from k pg none tt
  rounds-IsKept_from (suc k) pg (some x) h =
      rounds-IsKept_from k pg _ (IsKept-trans pg x _ h (reconcile_found-IsKept api x))

  -- On a server that keeps the status as a subresource, a group has the name, the namespace and the
  -- specification that it was created with after any number of reconciles that leave it.
  pub rounds-IsKept : (k : ℕ) (pg : PodGroup) → IsKept pg (rounds api namespace name k (some pg))
  rounds-IsKept k pg = rounds-IsKept_from k pg (some pg) (refl, refl, refl)
