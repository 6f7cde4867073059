-- ===== src/Scheduler/Manager/Thread/Alone.antt =====
-- The scheduler's thread with nothing between its pieces.
use flux_k8s.Base.{
  String, List, [], ◌∷◌, some, ℕ, suc, pos, ltb_ℤ, get, length, ◌≡◌, refl, ap, sym, ◌∙◌, subst,
  Bool-cases, Option-cases, inl, inr, done, ◌>>=◌,
}
use flux_k8s.Base.Run.{Run}
use flux_k8s.Kube.{Pod, PodGroup}
use flux_k8s.Messages.{MatchResponse, Reply, reply, refused}
use flux_k8s.Scheduler.World.{World, Cluster}
use flux_k8s.Scheduler.Groups.{get_pod_group}
use flux_k8s.Scheduler.Flux.{Manager, ask_flux, release_earlier}
use flux_k8s.Scheduler.Flux.Pieces.{
  call_match, stored, node_ids, ask_flux-pieces, release_earlier-none, release_earlier-some,
}
use flux_k8s.Scheduler.Manager.{
  Outcome, assign_nodes, admit, admitted, use_nodes, use_answer, ask_for_pods, check_pods,
  check_group, pre_filter_group,
}
use flux_k8s.Scheduler.Manager.Thread.{
  Work, Thread, Shared, asking, releasing, matching, storing, sizing, assigning, ask_for,
  start_pods, start_group, start, received, advance, run, result_of,
}

module _ {w : World} (c : Cluster) where
  -- The thread ends, with the result.
  abbrev Ends : Shared w → Run (Outcome w) → Type 0
  Ends s r = (n : ℕ) × (result_of (run c n s) ≡ some r)

  Ends-advance :
      (m : Manager w) (t : Thread w) (r : Run (Outcome w))
      → Ends (advance c m t) r
      → Ends (record { manager = m; thread = t }) r
  unfolding run
  Ends-advance m t r (n, e) = (suc n, e)

  assigning-Ends :
      (pods : List Pod) (nodes : List String) (k : Work w) (m : Manager w)
      → Ends
          (record { manager = m; thread = assigning k pods nodes })
          (do
            written ← assign_nodes w pods nodes k.state m.pod_to_node
            done (admitted w c k.group_name m written))
  unfolding run advance assign_nodes
  assigning-Ends pods [] k m = (2, refl)
  assigning-Ends [] (node ∷ nodes) k m = (1, refl)
  assigning-Ends (pod ∷ pods) (node ∷ nodes) k m =
      Ends-advance m (assigning k (pod ∷ pods) (node ∷ nodes)) _ (assigning-Ends pods nodes _ _)

  sizing-Ends :
      (nodes : List String) (k : Work w) (m : Manager w)
      → Ends
          (record { manager = m; thread = sizing k nodes })
          (use_nodes w c k.group_name k.rep_pod k.pods k.state nodes m)
  unfolding advance use_nodes admit
  sizing-Ends nodes k m = Ends-advance m (sizing k nodes) _ (assigning-Ends k.pods nodes k _)

  received-Ends :
      (k : Work w) (a : Manager w × Reply MatchResponse)
      → Ends
          (received c k a)
          (use_answer w c k.group_name k.rep_pod k.pods k.state (stored k.group_name a))
  unfolding received use_answer stored run advance
  received-Ends k (m, refused e) = (0, refl)
  received-Ends k (m, reply r) = Ends-advance m (storing k r) _ (sizing-Ends (node_ids r) k _)

  matching-Ends :
      (k : Work w) (m : Manager w)
      → Ends
          (record { manager = m; thread = matching k })
          (use_answer w c k.group_name k.rep_pod k.pods k.state
            (stored k.group_name (call_match k.rep_pod k.group k.group_name m)))
  unfolding advance
  matching-Ends k m = Ends-advance m (matching k) _ (received-Ends k _)

  asking-Ends :
      (k : Work w) (m : Manager w)
      → Ends
          (record { manager = m; thread = asking k })
          (use_answer w c k.group_name k.rep_pod k.pods k.state
            (ask_flux c k.rep_pod k.group k.group_name m))
  unfolding advance
  asking-Ends k m =
      let go = λ (m1 : Manager w) (e : release_earlier c k.group_name k.rep_pod m ≡ m1).
        subst
          (λ a.
            Ends (record { manager = m1; thread = matching k })
              (use_answer w c k.group_name k.rep_pod k.pods k.state a))
          (ap (λ x. stored k.group_name (call_match k.rep_pod k.group k.group_name x)) (sym e)
            ∙ sym (ask_flux-pieces c k.rep_pod k.group k.group_name m))
          (matching-Ends k m1) in
      Ends-advance m (asking k) _ (elim (Option-cases (get k.group_name m.group_to_job)) [
        | inl e ↦ rw (e, advance) (go m (release_earlier-none c k.group_name k.rep_pod m e))
        | inr (n, e) ↦
            rw (e, advance)
              (Ends-advance m (releasing k) _
                (go _ (release_earlier-some c k.group_name k.rep_pod m n e)))
      ])

  ask_for-Ends :
      (group : String) (pg : PodGroup) (pods : List Pod) (state : w.State) (m : Manager w)
      → Ends
          (record { manager = m; thread = ask_for c group pg pods state })
          (ask_for_pods w c group pg pods state m)
  unfolding ask_for ask_for_pods run
  ask_for-Ends group pg [] state m = (0, refl)
  ask_for-Ends group pg (rep_pod ∷ rest) state m = asking-Ends _ m

  start_pods-Ends :
      (group : String) (pg : PodGroup) (pods : List Pod) (state : w.State) (m : Manager w)
      → Ends
          (record { manager = m; thread = start_pods c group pg pods state m })
          (check_pods w c group pg pods state m)
  unfolding start_pods check_pods run
  start_pods-Ends group pg pods state m =
      elim (Bool-cases (ltb_ℤ (pos (length pods)) pg.spec.min_member)) [
        | inl e ↦ rw e (0, refl)
        | inr e ↦ elim (Bool-cases (w.is_cached c.now group m.permitted)) [
          | inl p ↦ rw e (rw p (0, refl))
          | inr p ↦ rw e (rw p (ask_for-Ends group pg pods state m))
        ]
      ]

  start_group-Ends :
      (group : String) (pg : PodGroup) (pod : Pod) (state : w.State) (m : Manager w)
      → Ends
          (record { manager = m; thread = start_group c group pg pod state m })
          (check_group w c group pg pod state m)
  unfolding start_group check_group run
  start_group-Ends group pg pod state m = elim (Bool-cases (w.is_cached c.now group m.backed_off)) [
    | inl e ↦ rw e (0, refl)
    | inr e ↦ elim (Option-cases (c.list_pods pod.namespace (c.group_label pod))) [
      | inl p ↦ rw e (rw (p, check_group, start_group) (0, refl))
      | inr (pods, p) ↦
          rw e (rw (p, check_group, start_group) (start_pods-Ends group pg pods state m))
    ]
  ]

  -- With nothing between its pieces a `PreFilter` of the scheduler's thread ends after a number of
  -- them, and comes to what `pre_filter_group` comes to, panics included.
  pub start-pre_filter_group :
      (pod : Pod) (state : w.State) (m : Manager w)
      → (n : ℕ) × (result_of (run c n (record { manager = m; thread = start c pod state m }))
          ≡ some (pre_filter_group w c pod state m))
  unfolding start pre_filter_group run
  start-pre_filter_group pod state m = elim (Option-cases (get_pod_group c pod).1) [
    | inl e ↦ rw (e, start, pre_filter_group) (0, refl)
    | inr (pg, e) ↦ rw (e, start, pre_filter_group) (start_group-Ends _ pg pod state m)
  ]
