-- ===== src/Scheduler/Manager/Permit.antt =====
-- `Permit` of core/core.go: when the last pod of a group may go on.
use mathlib.Core.Option.{some_inj}
use flux_k8s.Base.{
  ℕ, ◌+◌, ◌^◌, ◌-◌, ◌<◌, true, some, pos, int32, ◌≤ℤ◌, ◌+ℤ◌, leb_ℤ, ◌==◌, ◌≡◌, ◌≢◌, ◌↔◌, refl, ap,
  ◌∙◌, sym, arith, length, count_if, count_if-le, Bool-cases, inl, inr, str-cases, subst,
  Option-cases,
}
use flux_k8s.Base.Int.{leb_ℤ_iff, int32_of_IsInt32}
use flux_k8s.Kube.{Pod, PodGroup}
use flux_k8s.Scheduler.World.{World, Cluster}
use flux_k8s.Scheduler.Groups.{
  is_assigned, get_pod_group, calculate_assigned_pods, calculate_assigned_pods_lem, snapshot_pods,
}
use flux_k8s.Scheduler.Manager.{
  success, pod_group_not_specified, enough, permit_known, permit_group,
}

plus_one : (n : ℕ) → pos n +ℤ pos 1 ≡ pos (n + 1)
plus_one n = ground arith

count_next : (n : ℕ) → n < 2 ^ 31 - 1 → int32 (int32 (pos n) +ℤ pos 1) ≡ pos (n + 1)
count_next n small =
    ap (λ z. int32 (z +ℤ pos 1)) (int32_of_IsInt32 (pos n) (omega arith))
    ∙ ap int32 (plus_one n)
    ∙ int32_of_IsInt32 (pos (n + 1)) (omega arith)

enough_iff :
    (pg : PodGroup) (n : ℕ)
    → n < 2 ^ 31 - 1
    → (enough pg n ≡ true) ↔ (pg.spec.min_member ≤ℤ pos (n + 1))
unfolding enough
enough_iff pg n small =
    let e = ap (leb_ℤ pg.spec.min_member) (count_next n small) in
    let test = leb_ℤ_iff pg.spec.min_member (pos (n + 1)) in
    (λ h. test.0 (sym e ∙ h), λ le. e ∙ test.1 le)

module _ (w : World) (c : Cluster) where
  -- The pods of the group that have a node.
  abbrev pub assigned : PodGroup → ℕ
  assigned pg = count_if (is_assigned c pg.name pg.namespace) (snapshot_pods c)

  permit_known_iff :
      (pg : PodGroup) (state : w.State)
      → length (snapshot_pods c) < 2 ^ 31 - 1
      → ((permit_known w c pg state).0 ≡ success) ↔ (pg.spec.min_member ≤ℤ pos (assigned pg + 1))
  unfolding permit_known
  permit_known_iff pg state small =
      let n = assigned pg in
      let few = count_if-le (is_assigned c pg.name pg.namespace) (snapshot_pods c) in
      rw (calculate_assigned_pods_lem c pg.name pg.namespace, permit_known)
        (ground (arith, enough_iff pg n))

  -- `Permit` lets the pod on exactly when the pod's group exists and its pods with a node and this
  -- one are at least its least number of members, on a snapshot of fewer than 2^31 - 1 pods.
  pub permit_group-success_iff :
      (pod : Pod) (state : w.State)
      → length (snapshot_pods c) < 2 ^ 31 - 1
      → ((permit_group w c pod state).0 ≡ success) ↔ (
          (pg : PodGroup) × ((get_pod_group c pod).0 ≢ "")
          × ((get_pod_group c pod).1 ≡ some pg)
          × (pg.spec.min_member ≤ℤ pos (assigned pg + 1)))
  unfolding permit_group
  permit_group-success_iff pod state small = elim (str-cases (get_pod_group c pod).0 "") [
    | inl (e, t) ↦ rw (t, permit_group) (λ h. cc, λ (pg, ne, _, _). absurd (ne e))
    | inr (ne, t) ↦ elim (Option-cases (get_pod_group c pod).1) [
      | inl o ↦ rw (t, permit_group) (rw (o, permit_group) (λ h. cc, λ (pg, _, held, _). cc))
      | inr (pg, o) ↦
          let known = permit_known_iff pg state small in
          rw (t, permit_group)
            (rw (o, permit_group)
              (
                λ h. (pg, ne, refl, known.0 h),
                λ (pg', _, same, le). known.1 (
                    subst (λ q. q.spec.min_member ≤ℤ pos (assigned q + 1)) (sym (some_inj.0 same))
                      le),
              ))
    ]
  ]

  permit_known-specified :
      (pg : PodGroup) (state : w.State) → (permit_known w c pg state).0 ≢ pod_group_not_specified
  unfolding permit_known
  permit_known-specified pg state h =
      elim (Bool-cases (enough pg (calculate_assigned_pods c pg.name pg.namespace))) [
        | inl e ↦ cc
        | inr e ↦ elim (Bool-cases (calculate_assigned_pods c pg.name pg.namespace == 0)) [
          | inl z ↦ cc
          | inr z ↦ cc
        ]
      ]

  pub permit_group-not_specified_iff :
      (pod : Pod) (state : w.State)
      → ((permit_group w c pod state).0 ≡ pod_group_not_specified) ↔ ((get_pod_group c pod).0 ≡ "")
  unfolding permit_group
  permit_group-not_specified_iff pod state = elim (str-cases (get_pod_group c pod).0 "") [
    | inl (e, t) ↦ rw (t, permit_group) (λ _. e, λ _. refl)
    | inr (ne, t) ↦ elim (Option-cases (get_pod_group c pod).1) [
      | inl o ↦ rw (t, permit_group) (rw (o, permit_group) (λ h. cc, λ e. absurd (ne e)))
      | inr (pg, o) ↦
          rw (t, permit_group)
            (rw (o, permit_group)
              (λ h. absurd (permit_known-specified pg state h), λ e. absurd (ne e)))
    ]
  ]
