-- ===== src/Controller/Status/Steps.antt =====
-- Where `updateStatus` may take a group, as its pods ask for.
use flux_k8s.Base.{
  ℕ, ◌+◌, ◌^◌, ◌<◌, ◌≡◌, ◌≢◌, refl, true, false, List, pos, arith, length, inl, inr, Bool-cases,
  ltb_ℤ, leb_ℤ, ℤ, ◌≤ℤ◌,
}
use flux_k8s.Kube.{
  Pod, PodGroup, PodGroupPhase, unset, pending, scheduling, running, finished, failed,
}
use flux_k8s.Controller.Status.Phases.{
  HasFinished, HasFailed, IsUp, IsWaiting, counts, judge_lem, judge_cases, counts_le,
}
use flux_k8s.Controller.Status.{judge, next_default, next_pending, by_phase, next_group}
use flux_k8s.Controller.Status.Counts.{runs, successes, failures, get_current_pod_stats_lem}

-- The phases in which the pods decide.
abbrev IsActive : PodGroupPhase → Type 0
IsActive p = (p ≢ unset) × (p ≢ pending) × (p ≢ finished) × (p ≢ failed)

-- The phase diagram of a group that needs `m` members and has `n` pods, of which `r` run, `s` have
-- succeeded and `f` have failed. No step leaves a finished or a failed group.
pub data PhaseStep (m : ℤ) (n r s f : ℕ) : PodGroupPhase → PodGroupPhase → Type 0 where
  accept : PhaseStep m n r s f unset pending
  wait : ¬ (m ≤ℤ pos n) → PhaseStep m n r s f pending pending
  schedule : m ≤ℤ pos n → PhaseStep m n r s f pending scheduling
  shrink : {p : PodGroupPhase} → IsActive p → ¬ (m ≤ℤ pos n) → PhaseStep m n r s f p pending
  finish :
      {p : PodGroupPhase}
      → IsActive p
      → m ≤ℤ pos n
      → HasFinished m r s f
      → PhaseStep m n r s f p finished
  fail :
      {p : PodGroupPhase}
      → IsActive p
      → m ≤ℤ pos n
      → HasFailed m r s f
      → PhaseStep m n r s f p failed
  start :
      {p : PodGroupPhase} → IsActive p → m ≤ℤ pos n → IsUp m r s f → PhaseStep m n r s f p running
  reschedule :
      {p : PodGroupPhase}
      → IsActive p
      → m ≤ℤ pos n
      → IsWaiting m r s f
      → PhaseStep m n r s f p scheduling

judge-PhaseStep :
    (p phase : PodGroupPhase) (m : ℤ) (n r s f : ℕ)
    → r + s + f < 2 ^ 31
    → IsActive p
    → m ≤ℤ pos n
    → PhaseStep m n r s f p (judge phase m (counts r s f))
judge-PhaseStep p phase m n r s f few active enough =
    let (fin, bad, up, late) = judge_lem phase m r s f few in
    elim (judge_cases phase m (counts r s f)) [
      | inl e ↦ rw e (finish active enough (fin.0 e))
      | inr (inl e) ↦ rw e (fail active enough (bad.0 e))
      | inr (inr (inl e)) ↦ rw e (start active enough (up.0 e))
      | inr (inr (inr e)) ↦ rw e (reschedule active enough (late.0 e))
    ]

-- The step of a group of these pods.
abbrev pub StepsTo : PodGroup → List Pod → PodGroupPhase → PodGroupPhase → Type 0
StepsTo pg pods =
    PhaseStep pg.spec.min_member (length pods) (runs pods) (successes pods) (failures pods)

below : (a b : ℤ) → ltb_ℤ a b ≡ true → ¬ (b ≤ℤ a)
below a b h = ground arith

not_below : (a b : ℤ) → ltb_ℤ a b ≡ false → b ≤ℤ a
not_below a b h = ground arith

within : (a b : ℤ) → leb_ℤ a b ≡ true → a ≤ℤ b
within a b h = ground arith

not_within : (a b : ℤ) → leb_ℤ a b ≡ false → ¬ (a ≤ℤ b)
not_within a b h = ground arith

next_default-PhaseStep :
    (p : PodGroupPhase) (pg : PodGroup) (pods : List Pod)
    → length pods < 2 ^ 31
    → IsActive p
    → StepsTo pg pods p (next_default pg pods).status.phase
unfolding next_default
next_default-PhaseStep p pg pods few active =
    elim (Bool-cases (ltb_ℤ (pos (length pods)) pg.spec.min_member)) [
      | inl e ↦ rw e (shrink active (below (pos (length pods)) pg.spec.min_member e))
      | inr e ↦
          rw (e, get_current_pod_stats_lem pods few)
            (judge-PhaseStep p pg.status.phase pg.spec.min_member (length pods) (runs pods)
              (successes pods) (failures pods) (counts_le pods few) active
              (not_below (pos (length pods)) pg.spec.min_member e))
    ]

by_phase-PhaseStep :
    (p : PodGroupPhase) (pg : PodGroup) (pods : List Pod)
    → length pods < 2 ^ 31
    → p ≢ finished
    → p ≢ failed
    → pg.status.phase ≡ p
    → StepsTo pg pods p (by_phase p pg pods).status.phase
unfolding by_phase next_pending
by_phase-PhaseStep unset pg pods few hf hd e = accept
by_phase-PhaseStep pending pg pods few hf hd e =
    elim (Bool-cases (leb_ℤ pg.spec.min_member (pos (length pods)))) [
      | inl enough ↦ rw enough (schedule (within pg.spec.min_member (pos (length pods)) enough))
      | inr short ↦ rw short (rw e (wait (not_within pg.spec.min_member (pos (length pods)) short)))
    ]
by_phase-PhaseStep p pg pods few hf hd e = next_default-PhaseStep p pg pods few (cc, cc, hf, hd)

-- `updateStatus` moves a group that is neither finished nor failed, with fewer than 2^31 pods, along
-- the phase diagram: as the number of its pods and their counts ask for.
pub next_group-PhaseStep :
    (pg : PodGroup) (pods : List Pod)
    → length pods < 2 ^ 31
    → pg.status.phase ≢ finished
    → pg.status.phase ≢ failed
    → StepsTo pg pods pg.status.phase (next_group pg pods).status.phase
unfolding next_group
next_group-PhaseStep pg pods few hf hd = by_phase-PhaseStep pg.status.phase pg pods few hf hd refl
