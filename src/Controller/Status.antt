-- ===== src/Controller/Status.antt =====
-- The status of a PodGroup: `getCurrentPodStats`, and the phases of `updateStatus`.
pub mod Counts
pub mod Phases
pub mod Steps
use flux_k8s.Base.{
  ℕ, ◌+◌, String, Bool, true, false, ◌&&◌, ◌||◌, not, List, [], ◌∷◌, Option, none, some, ℤ, pos,
  ltb_ℤ, leb_ℤ, eqb_ℤ, int32, int64, ◌+ℤ◌, ◌-ℤ◌, ◌==◌, ltb, str_eq, length, if◌then◌else◌,
}
use flux_k8s.Kube.{
  Pod, PodPhase, PodGroup, PodGroupPhase, unset, pending, scheduling, running, finished, failed,
}

-- The counters of the loop are int32.
abbrev increment : ℤ → ℤ
increment n = int32 (n +ℤ pos 1)

pub record PodStats : Type 0 where
  pub running : ℤ
  pub succeeded : ℤ
  pub failed : ℤ

count_pod : PodStats → PodPhase → PodStats
count_pod s PodPhase.running = record s { running = increment s.running }
count_pod s PodPhase.succeeded = record s { succeeded = increment s.succeeded }
count_pod s PodPhase.failed = record s { failed = increment s.failed }
count_pod s _ = s

count_pods : PodStats → List Pod → PodStats
unfolding count_pod
count_pods s [] = s
count_pods s (pod ∷ pods) = count_pods (count_pod s pod.phase) pods

unfoldable pub get_current_pod_stats : List Pod → PodStats
unfolding count_pods
get_current_pod_stats pods =
    count_pods (record { running = pos 0; succeeded = pos 0; failed = pos 0 }) pods

-- The four tests in the default case of `updateStatus`, each of which may set the phase anew.
pub judge : PodGroupPhase → ℤ → PodStats → PodGroupPhase
judge phase min_member s =
    let p1 = if ltb_ℤ (int32 (s.succeeded +ℤ s.running)) min_member then scheduling else phase in
    let p2 = if leb_ℤ min_member (int32 (s.succeeded +ℤ s.running)) then running else p1 in
    let p3 =
      if not (eqb_ℤ s.failed (pos 0))
        && leb_ℤ min_member (int32 (int32 (s.failed +ℤ s.running) +ℤ s.succeeded))
      then failed
      else p2 in
    if leb_ℤ min_member s.succeeded then finished else p3

abbrev set_phase : PodGroup → PodGroupPhase → PodGroup
set_phase pg phase = record pg { status = record (pg.status) { phase = phase } }

next_default : PodGroup → List Pod → PodGroup
unfolding judge get_current_pod_stats
next_default pg pods =
    if ltb_ℤ (pos (length pods)) pg.spec.min_member
    then set_phase pg pending
    else let stats = get_current_pod_stats pods in
      record pg {
        status = record (pg.status) {
          phase = judge pg.status.phase pg.spec.min_member stats;
          running = stats.running;
          failed = stats.failed;
          succeeded = stats.succeeded;
        };
      }

next_pending : PodGroup → List Pod → PodGroup
next_pending pg pods =
    if leb_ℤ pg.spec.min_member (pos (length pods)) then set_phase pg scheduling else pg

-- The switch of `updateStatus`.
by_phase : PodGroupPhase → PodGroup → List Pod → PodGroup
unfolding next_default next_pending
by_phase unset pg pods = set_phase pg pending
by_phase pending pg pods = next_pending pg pods
by_phase _ pg pods = next_default pg pods

unfoldable pub next_group : PodGroup → List Pod → PodGroup
unfolding by_phase
next_group pg pods = by_phase pg.status.phase pg pods
