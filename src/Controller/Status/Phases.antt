-- ===== src/Controller/Status/Phases.antt =====
-- The phase that `updateStatus` chooses from the counts of the group's pods.
use flux_k8s.Base.{
  ℕ, ◌+◌, ◌^◌, ◌<◌, ◌≡◌, ◌≢◌, refl, false, List, pos, arith, length, ◌↔◌, ◌⊎◌, ltb_ℤ, ℤ, negsuc,
  int32, ◌+ℤ◌, ◌≤ℤ◌, ◌<ℤ◌,
}
use flux_k8s.Kube.{
  Pod, PodGroup, PodGroupPhase, unset, pending, scheduling, running, finished, failed,
}
use flux_k8s.Controller.Status.{PodStats, judge, next_default, by_phase, next_group}
use flux_k8s.Controller.Status.Counts.{
  counts-le-length, runs, successes, failures, get_current_pod_stats_lem,
}

-- What the counts of running, succeeded and failed pods say of a group that needs `m` members.
abbrev pub HasFinished : ℤ → ℕ → ℕ → ℕ → Type 0
HasFinished m r s f = m ≤ℤ pos s

abbrev pub HasFailed : ℤ → ℕ → ℕ → ℕ → Type 0
HasFailed m r s f = (pos s <ℤ m) × (0 < f) × (m ≤ℤ pos (f + r + s))

abbrev pub IsUp : ℤ → ℕ → ℕ → ℕ → Type 0
IsUp m r s f = (pos s <ℤ m) × (m ≤ℤ pos (s + r)) × (f ≡ 0)

abbrev pub IsWaiting : ℤ → ℕ → ℕ → ℕ → Type 0
IsWaiting m r s f = (pos (s + r) <ℤ m) × ((f ≡ 0) ⊎ (pos (f + r + s) <ℤ m))

abbrev pub counts : ℕ → ℕ → ℕ → PodStats
counts r s f = record { running = pos r; succeeded = pos s; failed = pos f }

int32_sum : (a b : ℕ) → a + b < 2 ^ 31 → int32 (pos a +ℤ pos b) ≡ pos (a + b)
int32_sum a b h = ground arith

not_ltb_ℤ : (a b : ℤ) → b ≤ℤ a → ltb_ℤ a b ≡ false
not_ltb_ℤ a b h = ground arith

pub counts_le :
    (pods : List Pod) → length pods < 2 ^ 31 → runs pods + successes pods + failures pods < 2 ^ 31
counts_le pods h = omega (arith, counts-le-length pods)

pub judge_lem :
    (phase : PodGroupPhase) (m : ℤ) (r s f : ℕ)
    → r + s + f < 2 ^ 31
    → (judge phase m (counts r s f) ≡ finished ↔ HasFinished m r s f)
      × (judge phase m (counts r s f) ≡ failed ↔ HasFailed m r s f)
      × (judge phase m (counts r s f) ≡ running ↔ IsUp m r s f)
      × (judge phase m (counts r s f) ≡ scheduling ↔ IsWaiting m r s f)
unfolding judge
judge_lem phase (pos m) r s f h =
    rw (int32_sum s r (omega arith), int32_sum f r (omega arith), int32_sum (f + r) s (omega arith))
      (ground arith)
judge_lem phase (negsuc m) r s f h =
    rw (int32_sum s r (omega arith), int32_sum f r (omega arith), int32_sum (f + r) s (omega arith))
      (ground arith)

pub judge_cases :
    (phase : PodGroupPhase) (m : ℤ) (s : PodStats)
    → (judge phase m s ≡ finished)
      ⊎ (judge phase m s ≡ failed)
      ⊎ (judge phase m s ≡ running)
      ⊎ (judge phase m s ≡ scheduling)
unfolding judge
judge_cases phase m s = ground arith

by_phase_default :
    (p : PodGroupPhase) (pg : PodGroup) (pods : List Pod)
    → p ≢ unset
    → p ≢ pending
    → by_phase p pg pods ≡ next_default pg pods
unfolding by_phase
by_phase_default unset pg pods hu hp = absurd (hu refl)
by_phase_default pending pg pods hu hp = absurd (hp refl)
by_phase_default _ pg pods hu hp = refl

-- The phase that `updateStatus` gives a group which has been scheduled and has its members, by the
-- counts of its pods (fewer than 2^31): finished when enough pods succeeded; failed when not, but
-- some pod failed and enough pods have started; running when none failed and enough run or
-- succeeded; scheduling otherwise. The comments at the phases in types.go say less: that running
-- counts running pods only, and that one failed pod makes a group failed.
pub next_group_phase :
    (pg : PodGroup) (pods : List Pod)
    → pg.status.phase ≢ unset
    → pg.status.phase ≢ pending
    → pg.spec.min_member ≤ℤ pos (length pods)
    → length pods < 2 ^ 31
    → let m = pg.spec.min_member in
      let phase = (next_group pg pods).status.phase in
      let r = runs pods in
      let s = successes pods in
      let f = failures pods in
      (phase ≡ finished ↔ HasFinished m r s f)
      × (phase ≡ failed ↔ HasFailed m r s f)
      × (phase ≡ running ↔ IsUp m r s f)
      × (phase ≡ scheduling ↔ IsWaiting m r s f)
unfolding next_group next_default
next_group_phase pg pods hu hp enough few =
    rw
      (
        by_phase_default pg.status.phase pg pods hu hp,
        not_ltb_ℤ _ _ enough,
        get_current_pod_stats_lem pods few,
      )
      (judge_lem pg.status.phase pg.spec.min_member (runs pods) (successes pods) (failures pods)
        (counts_le pods few))
