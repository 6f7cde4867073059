-- ===== src/Scheduler/Plugin/Gang.antt =====
-- `Permit`, `Unreserve` and `PostFilter` of fluence.go on the pods that wait for their group.
use flux_k8s.Base.{
  if◌then◌else◌, ℕ, ◌+◌, ◌-◌, ◌^◌, ◌<◌, String, true, false, List, [], Option, some, ℤ, pos, leb_ℤ,
  ◌≤ℤ◌, ◌≡◌, ◌≢◌, ◌↔◌, ◌⊎◌, refl, All, select-All, length-select, length, count_if, Bool-cases, inl,
  inr,
}
use flux_k8s.Base.Int.{leb_ℤ_iff}
use flux_k8s.Kube.{Pod, PodGroup}
use flux_k8s.Scheduler.World.{World, IsCache, Cluster}
use flux_k8s.Scheduler.Groups.{
  get_pod_group, calculate_assigned_pods_lem, snapshot_pods, is_assigned,
}
use flux_k8s.Scheduler.Flux.{Manager}
use flux_k8s.Scheduler.Manager.{
  delete_permitted_pod_group, permit_group, Status, pod_group_not_specified, pod_group_not_found,
}
use flux_k8s.Scheduler.Manager.Permit.{permit_group-success_iff, permit_group-not_specified_iff}
use flux_k8s.Scheduler.Plugin.{
  Code, permit, by_status, post_filter, unreserve, reject_group, is_sibling,
}

module _ (w : World) (c : Cluster) where
  -- What giving up a group comes to: it must pass `PreFilter` again at any time, and of the waiting
  -- pods its siblings, all of them and no other, are rejected.
  pub record GivesUp (pod : Pod) (pg : PodGroup) (group : String) (waiting : List Pod)
      (a : Manager w × List Pod) : Type 0 where
    pub not_permitted : (later : ℕ) → w.is_cached later group a.0.permitted ≡ false
    pub siblings_only : All (λ q. is_sibling w c pod pg q ≡ true) a.1
    pub all_siblings : length a.1 ≡ count_if (is_sibling w c pod pg) waiting

  -- `Unreserve` for a pod of a group that exists gives the group up.
  pub unreserve-GivesUp :
      IsCache w
      → (pod : Pod) (pg : PodGroup) (waiting : List Pod) (m : Manager w)
      → (get_pod_group c pod).1 ≡ some pg
      → GivesUp pod pg (get_pod_group c pod).0 waiting (unreserve w c pod waiting m)
  unfolding unreserve delete_permitted_pod_group
  unreserve-GivesUp cache pod pg waiting m e =
      rw (e, unreserve)
        (record {
          not_permitted = λ later. cache.cached-remove later _ m.permitted;
          siblings_only = select-All (is_sibling w c pod pg) waiting;
          all_siblings = length-select (is_sibling w c pod pg) waiting;
        })

  reject_group-GivesUp :
      IsCache w
      → (pod : Pod) (pg : PodGroup) (group : String) (backoff : Option ℤ) (waiting : List Pod)
      → (m : Manager w)
      → GivesUp pod pg group waiting (reject_group w c pod pg group backoff waiting m)
  unfolding reject_group delete_permitted_pod_group
  reject_group-GivesUp cache pod pg group backoff waiting m = record {
    not_permitted = λ later. cache.cached-remove later group _;
    siblings_only = select-All (is_sibling w c pod pg) waiting;
    all_siblings = length-select (is_sibling w c pod pg) waiting;
  }

  by_count :
      IsCache w
      → (pod : Pod) (pg : PodGroup) (group : String) (backoff : Option ℤ) (waiting : List Pod)
      → (m : Manager w) (n : ℕ)
      → let a =
          if leb_ℤ pg.spec.min_member (pos n)
          then (m, [])
          else reject_group w c pod pg group backoff waiting m in
        ((pg.spec.min_member ≤ℤ pos n) → a ≡ (m, []))
        × (¬ (pg.spec.min_member ≤ℤ pos n) → GivesUp pod pg group waiting a)
  by_count cache pod pg group backoff waiting m n =
      let test = leb_ℤ_iff pg.spec.min_member (pos n) in
      elim (Bool-cases (leb_ℤ pg.spec.min_member (pos n))) [
        | inl e ↦ rw e (λ _. refl, λ more. absurd (more (test.0 e)))
        | inr e ↦ rw e (
          λ le. cc (test.1 le, e),
          λ _. reject_group-GivesUp cache pod pg group backoff waiting m,
        )
      ]

  -- `PostFilter` for a pod of a group that exists leaves everything alone when the pods of the group
  -- with a node are already its least number of members, and else gives the group up.
  pub post_filter_lem :
      IsCache w
      → (pod : Pod) (pg : PodGroup) (backoff : Option ℤ) (waiting : List Pod) (m : Manager w)
      → (get_pod_group c pod).1 ≡ some pg
      → let assigned = count_if (is_assigned c pg.name pod.namespace) (snapshot_pods c) in
        ((pg.spec.min_member ≤ℤ pos assigned) → post_filter w c pod backoff waiting m ≡ (m, []))
        × (¬ (pg.spec.min_member ≤ℤ pos assigned)
            → GivesUp pod pg
                (get_pod_group c pod).0
                waiting
                (post_filter w c pod backoff waiting m))
  unfolding post_filter
  post_filter_lem cache pod pg backoff waiting m e =
      rw (e, post_filter)
        (rw (calculate_assigned_pods_lem c pg.name pod.namespace, post_filter)
          (by_count cache pod pg _ backoff waiting m _))

  by_status-success_iff :
      (pod : Pod) (waiting : List Pod) (timeout : ℤ) (r : Status × w.State)
      → ((by_status w c pod waiting timeout r).code ≡ Code.success)
        ↔ ((r.0 ≡ pod_group_not_specified) ⊎ (r.0 ≡ Status.success))
  unfolding by_status
  by_status-success_iff pod waiting timeout (pod_group_not_specified, _) =
      (λ _. inl refl, λ _. refl)
  by_status-success_iff pod waiting timeout (pod_group_not_found, _) =
      (λ h. cc, λ h. elim h [ inl e ↦ cc | inr e ↦ cc ])
  by_status-success_iff pod waiting timeout (Status.wait, _) =
      (λ h. cc, λ h. elim h [ inl e ↦ cc | inr e ↦ cc ])
  by_status-success_iff pod waiting timeout (Status.success, _) = (λ _. inr refl, λ _. refl)

  -- On a snapshot of fewer than 2^31 - 1 pods, `Permit` answers with success exactly for a pod with
  -- no group and for one that completes its group.
  pub permit-success_iff :
      (pod : Pod) (waiting : List Pod) (timeout : ℤ) (state : w.State)
      → length (snapshot_pods c) < 2 ^ 31 - 1
      → ((permit w c pod waiting timeout state).code ≡ Code.success) ↔ (
          ((get_pod_group c pod).0 ≡ "")
          ⊎ ((pg : PodGroup) × ((get_pod_group c pod).0 ≢ "")
              × ((get_pod_group c pod).1 ≡ some pg)
              × (pg.spec.min_member
                  ≤ℤ pos (count_if (is_assigned c pg.name pg.namespace) (snapshot_pods c) + 1))))
  unfolding permit
  permit-success_iff pod waiting timeout state small =
      let known = permit_group-success_iff w c pod state small in
      let alone = permit_group-not_specified_iff w c pod state in
      let code = by_status-success_iff pod waiting timeout (permit_group w c pod state) in
      (
        λ h. elim (code.0 h) [ inl e ↦ inl (alone.0 e) | inr e ↦ inr (known.0 e) ],
        λ h. elim h [ inl e ↦ code.1 (inl (alone.1 e)) | inr e ↦ code.1 (inr (known.1 e)) ],
      )
