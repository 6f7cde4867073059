-- ===== src/Controller/Status/Counts.antt =====
-- `getCurrentPodStats` counts the pods of each phase.
use flux_k8s.Base.{
  ℕ, ◌+◌, ◌^◌, ◌<◌, ◌≤◌, ◌≡◌, Bool, true, false, List, [], ◌∷◌, pos, arith, length, count_if, ap,
  ◌∙◌, if◌then◌else◌,
}
use flux_k8s.Kube.{Pod, PodPhase}
use flux_k8s.Controller.Status.{PodStats, increment, count_pod, count_pods, get_current_pod_stats}

abbrev pub is_running : PodPhase → Bool
is_running PodPhase.running = true
is_running _ = false

abbrev pub is_succeeded : PodPhase → Bool
is_succeeded PodPhase.succeeded = true
is_succeeded _ = false

abbrev pub is_failed : PodPhase → Bool
is_failed PodPhase.failed = true
is_failed _ = false

abbrev pub runs : List Pod → ℕ
runs = count_if (λ p. is_running p.phase)

abbrev pub successes : List Pod → ℕ
successes = count_if (λ p. is_succeeded p.phase)

abbrev pub failures : List Pod → ℕ
failures = count_if (λ p. is_failed p.phase)

abbrev stats : ℕ → ℕ → ℕ → PodStats
stats r s f = record { running = pos r; succeeded = pos s; failed = pos f }

abbrev bit : Bool → ℕ
bit b = if b then 1 else 0

bits_le :
    (phase : PodPhase)
    → bit (is_running phase) + bit (is_succeeded phase) + bit (is_failed phase) ≤ 1
bits_le PodPhase.running = omega arith
bits_le _ = omega arith

increment_lem : (n : ℕ) → n + 1 < 2 ^ 31 → increment (pos n) ≡ pos (n + 1)
increment_lem n h = ground arith

stats_path : {r r' s s' f f' : ℕ} → r ≡ r' → s ≡ s' → f ≡ f' → stats r s f ≡ stats r' s' f'
stats_path p q t = λ i. stats (p i) (q i) (t i)

count_pod_lem :
    (r s f : ℕ) (phase : PodPhase)
    → r + s + f + 1 < 2 ^ 31
    → count_pod (stats r s f) phase
      ≡ stats
          (r + bit (is_running phase))
          (s + bit (is_succeeded phase))
          (f + bit (is_failed phase))
unfolding count_pod
count_pod_lem r s f PodPhase.running h = ground arith
count_pod_lem r s f _ h = ground arith

count_pods_lem :
    (r s f : ℕ) (pods : List Pod)
    → r + s + f + length pods < 2 ^ 31
    → count_pods (stats r s f) pods ≡ stats (r + runs pods) (s + successes pods) (f + failures pods)
unfolding count_pods
count_pods_lem r s f [] h = stats_path (omega arith) (omega arith) (omega arith)
count_pods_lem r s f (pod ∷ pods) h =
    let p = pod.phase in
    ap (λ n. count_pods n pods) (count_pod_lem r s f p (omega arith))
    ∙ count_pods_lem (r + bit (is_running p)) (s + bit (is_succeeded p)) (f + bit (is_failed p))
        pods (omega (arith, bits_le p))
    ∙ stats_path (omega arith) (omega arith) (omega arith)

-- With fewer than 2^31 pods the three counters are the numbers of running, succeeded and failed pods:
-- no counter wraps around.
pub get_current_pod_stats_lem :
    (pods : List Pod)
    → length pods < 2 ^ 31
    → get_current_pod_stats pods ≡ record {
      running = pos (runs pods);
      succeeded = pos (successes pods);
      failed = pos (failures pods);
    }
unfolding get_current_pod_stats
get_current_pod_stats_lem pods h =
    count_pods_lem 0 0 0 pods (omega arith) ∙ stats_path (omega arith) (omega arith) (omega arith)

pub counts-le-length : (pods : List Pod) → runs pods + successes pods + failures pods ≤ length pods
counts-le-length [] = omega arith
counts-le-length (pod ∷ pods) = omega (arith, bits_le pod.phase, counts-le-length pods)
