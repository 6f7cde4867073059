-- ===== src/Scheduler/Manager/Thread/Ends.antt =====
-- The scheduler's thread among others: whatever they do between its pieces, a `PreFilter` ends.
use flux_k8s.Base.{
  ℕ, zero, suc, String, Bool, true, false, List, [], ◌∷◌, ◌≡◌, refl, get, Option-cases, inl, inr,
}
use flux_k8s.Kube.{Pod}
use flux_k8s.Messages.{Reply, MatchResponse, reply, refused}
use flux_k8s.Scheduler.World.{World, Cluster}
use flux_k8s.Scheduler.Flux.{Manager}
use flux_k8s.Scheduler.Flux.Pieces.{node_ids}
use flux_k8s.Scheduler.Manager.Thread.{
  Work, Thread, Shared, crashed, asking, releasing, matching, storing, sizing, assigning, over,
  start, received, advance,
}
use flux_k8s.Scheduler.Manager.Thread.Start.{start-satisfies}

abbrev pub has_ended : {w : World} → Thread w → Bool
has_ended (over error state) = true
has_ended crashed = true
has_ended _ = false

-- Before the piece `i` the other threads do `others i`, and during it the cluster answers as
-- `answers i`.
module _ {w : World} (others : ℕ → Manager w → Manager w) (answers : ℕ → Cluster) where
  pub run_among : ℕ → ℕ → Shared w → Shared w
  run_among zero i s = s
  run_among (suc n) i s = run_among n (suc i) (advance (answers i) (others i s.manager) s.thread)

  abbrev Ends : ℕ → Shared w → Type 0
  Ends i s = (n : ℕ) × (has_ended (run_among n i s).thread ≡ true)

  Ends-advance :
      (i : ℕ) (m : Manager w) (t : Thread w)
      → Ends (suc i) (advance (answers i) (others i m) t)
      → Ends i (record { manager = m; thread = t })
  unfolding run_among
  Ends-advance i m t (n, e) = (suc n, e)

  assigning-Ends :
      (pods : List Pod) (nodes : List String) (k : Work w) (i : ℕ) (m : Manager w)
      → Ends i (record { manager = m; thread = assigning k pods nodes })
  unfolding run_among advance
  assigning-Ends pods [] k i m = (2, refl)
  assigning-Ends [] (node ∷ nodes) k i m = (1, refl)
  assigning-Ends (pod ∷ pods) (node ∷ nodes) k i m =
      Ends-advance i m (assigning k (pod ∷ pods) (node ∷ nodes))
        (assigning-Ends pods nodes _ (suc i) _)

  sizing-Ends :
      (nodes : List String) (k : Work w) (i : ℕ) (m : Manager w)
      → Ends i (record { manager = m; thread = sizing k nodes })
  unfolding advance
  sizing-Ends nodes k i m =
      Ends-advance i m (sizing k nodes) (assigning-Ends k.pods nodes k (suc i) _)

  received-Ends :
      (c : Cluster) (k : Work w) (i : ℕ) (a : Manager w × Reply MatchResponse)
      → Ends i (received c k a)
  unfolding received run_among advance
  received-Ends c k i (m, refused e) = (0, refl)
  received-Ends c k i (m, reply r) =
      Ends-advance i m (storing k r) (sizing-Ends (node_ids r) k (suc i) _)

  matching-Ends :
      (k : Work w) (i : ℕ) (m : Manager w) → Ends i (record { manager = m; thread = matching k })
  unfolding advance
  matching-Ends k i m = Ends-advance i m (matching k) (received-Ends (answers i) k (suc i) _)

  asking-Ends :
      (k : Work w) (i : ℕ) (m : Manager w) → Ends i (record { manager = m; thread = asking k })
  unfolding advance
  asking-Ends k i m =
      Ends-advance i m (asking k)
        (elim (Option-cases (get k.group_name (others i m).group_to_job)) [
          | inl e ↦ rw (e, advance) (matching-Ends k (suc i) _)
          | inr (n, e) ↦
              rw (e, advance)
                (Ends-advance (suc i) _ (releasing k) (matching-Ends k (suc (suc i)) _))
        ])

  -- A `PreFilter` of the scheduler's thread ends after a number of pieces, whatever the other threads do
  -- to the manager between them and whatever the cluster and the sidecar answer.
  pub start_ends :
      (c : Cluster) (pod : Pod) (state : w.State) (m : Manager w)
      → (n : ℕ) × (has_ended
            (run_among n 0 (record { manager = m; thread = start c pod state m })).thread
          ≡ true)
  unfolding run_among
  start_ends c pod state m =
      start-satisfies c (λ t. Ends 0 (record { manager = m; thread = t })) (0, refl)
        (λ k. asking-Ends k 0 m) (λ e st. (0, refl)) pod state m
