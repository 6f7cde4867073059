-- ===== src/Controller/Size.antt =====
-- `updatePodGroupSize` against a server that keeps the status of a group as a subresource, as
-- types.go asks it to.
use flux_k8s.Base.{
  ℕ, zero, suc, some, ap, List, ◌∷◌, [], false, true, pos, ◌≡◌, ◌≢◌, refl, String, ltb_ℤ, eqb_ℤ,
  ◌==◌, arith, ◌∙◌, int32, length,
}
use flux_k8s.Kube.{Pod, PodGroup, PodGroupPhase, finished, failed, is_finished, is_failed}
use flux_k8s.Controller.Server.{Api, found, status_update, patch}
use flux_k8s.Controller.Rounds.{rounds, serving, store_all}
use flux_k8s.Controller.{
  sub_time, two_days, parsed_or, label_size, update_and_patch, update_pod_group_size,
  reconcile_pods, reconcile_found, reconcile,
}

goes_on :
    (phase : PodGroupPhase)
    → phase ≢ finished
    → phase ≢ failed
    → (is_finished phase ≡ false) × (is_failed phase ≡ false)
goes_on phase a b = ground arith

reconcile_found_goes_on :
    (api : Api) (pg : PodGroup)
    → is_finished pg.status.phase ≡ false
    → is_failed pg.status.phase ≡ false
    → ltb_ℤ two_days (sub_time pg.status.schedule_start_time pg.creation_timestamp) ≡ false
    → reconcile_found api pg ≡ reconcile_pods api pg (api.list_pods pg.name)
unfolding reconcile_found
reconcile_found_goes_on api pg going whole recent = ground arith

module _ (api : Api) (namespace name : String) (pg : PodGroup) (pods : List Pod)
    (listed : api.list_pods pg.name ≡ found pods) (zero_members : pg.spec.min_member ≡ pos 0)
    (timed : pg.status.creation_time ≢ 0) (up : pg.status.phase ≢ finished)
    (well : pg.status.phase ≢ failed)
    (recent : ltb_ℤ two_days (sub_time pg.status.schedule_start_time pg.creation_timestamp)
      ≡ false) where
  -- The reconcile sends the status that the group has, patches the group with itself, and comes back.
  sizeless_step :
      (x : PodGroup) × (x.status ≡ pg.status)
      × (reconcile (serving api (some pg)) namespace name ≡ (
        status_update x ∷ patch pg pg ∷ [],
        record { requeue = true; error = api.patch pg pg },
      ))
  unfolding reconcile reconcile_found reconcile_pods update_pod_group_size update_and_patch
  sizeless_step =
      let size = parsed_or (label_size (serving api (some pg)) pods) (int32 (pos (length pods))) in
      let (going, whole) = goes_on pg.status.phase up well in
      let et : (pg.status.creation_time == 0) ≡ false = ground arith in
      let ez : eqb_ℤ pg.spec.min_member (pos 0) ≡ true = ground arith in
      (
        record pg { spec = record (pg.spec) { min_member = size } },
        refl,
        reconcile_found_goes_on (serving api (some pg)) pg going whole recent
            ∙ rw (listed, reconcile_pods) (rw (et, ez) refl),
      )

  sizeless_round :
      store_all (some pg) (reconcile (serving api (some pg)) namespace name).0 ≡ some pg
  sizeless_round =
      let (x, same, step) = sizeless_step in
      ap (λ r. store_all (some pg) r.0) step ∙ ap (λ s. some (record pg { status = s })) same

  -- On a server that keeps the status as a subresource, a group that has its creation time, is
  -- neither finished nor failed nor two days late, and whose least number of members is 0, is the same
  -- after any number of reconciles, each of which asks to be done again: the size is never set.
  pub size_never_set :
      (k : ℕ)
      → (rounds api namespace name k (some pg) ≡ some pg)
        × ((reconcile (serving api (some pg)) namespace name).1.requeue ≡ true)
  size_never_set zero = (refl, ap (λ r. r.1.requeue) sizeless_step.2)
  size_never_set (suc k) =
      (ap (rounds api namespace name k) sizeless_round ∙ (size_never_set k).0, (size_never_set k).1)
