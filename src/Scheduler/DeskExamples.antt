-- ===== src/Scheduler/DeskExamples.antt =====
-- A sidecar with one job at a time, which it cancels on request; the next job has another number.
use flux_k8s.Base.{
  String, Bool, true, false, ne_str, none, some, ℤ, pos, eqb_ℤ, eqb_ℤ_iff, ◌≡◌, ◌≢◌, refl, [], ◌∷◌,
  get, Bool-cases, inl, inr, if◌then◌else◌, arith, subst, IsInt64,
}
use flux_k8s.Base.Int.{uint64, int64_of_uint64}
use flux_k8s.Messages.{MatchResponse, CancelResponse, Reply, reply, refused}
use flux_k8s.Scheduler.World.{World}
use flux_k8s.Scheduler.Groups.{get_pod_group}
use flux_k8s.Scheduler.Flux.{Manager, ask_flux, delete_pod}
use flux_k8s.Scheduler.Flux.Restart.{restarted, restart_ends_another_job}
use flux_k8s.Scheduler.Flux.Tracking.{IsTracked}
use flux_k8s.Kube.{Pod, PodPhase}
use flux_k8s.Scheduler.Flux.Cancel.{IsFlux}
use flux_k8s.Scheduler.Flux.Ends.{ask_flux-replaces}
use flux_k8s.Scheduler.Toy.{toy, job}
use flux_k8s.Scheduler.Examples.{pod_named, group_g, small}

pub data Desk : Type 0 where
  first nothing second : Desk

abbrev desk_match : Desk → Desk × Reply MatchResponse
desk_match nothing = (second, reply (job (pos 2)))
desk_match d = (d, refused "no nodes")

abbrev desk_cancel : Desk → ℤ → Desk × Reply CancelResponse
desk_cancel first j =
    if eqb_ℤ j (pos 1)
    then (nothing, reply (record { job_id = j; error = pos 0 }))
    else (first, refused "no such job")
desk_cancel second j =
    if eqb_ℤ j (pos 2)
    then (nothing, reply (record { job_id = j; error = pos 0 }))
    else (second, refused "no such job")
desk_cancel nothing j = (nothing, refused "no such job")

abbrev pub desk_live : Desk → ℤ → Bool
desk_live first j = eqb_ℤ j (pos 1)
desk_live nothing j = false
desk_live second j = eqb_ℤ j (pos 2)

abbrev pub desk_world : World
desk_world = record toy {
  Server = Desk;
  dial = λ s. none;
  match_allocate = λ s request. desk_match s;
  cancel = λ s request. desk_cancel s request.job_id;
}

abbrev Matches : Desk → Desk × Reply MatchResponse → Type 0
Matches s (s', reply r) =
    IsInt64 r.job_id
    × (desk_live s r.job_id ≡ false)
    × (desk_live s' r.job_id ≡ true)
    × ((j : ℤ) → j ≢ r.job_id → desk_live s' j ≡ desk_live s j)
Matches s (s', refused e) = (j : ℤ) → desk_live s' j ≡ desk_live s j

desk_match-Matches : (s : Desk) → Matches s (desk_match s)
desk_match-Matches first = λ j. refl
desk_match-Matches nothing =
    ((omega arith, omega arith), refl, refl, λ j ne. ground (arith, eqb_ℤ_iff j (pos 2)))
desk_match-Matches second = λ j. refl

abbrev Ends : Desk → ℤ → Desk × Reply CancelResponse → Type 0
Ends s j (s', reply r) =
    (r.error ≡ pos 0)
    × (desk_live s' j ≡ false)
    × ((k : ℤ) → k ≢ j → desk_live s' k ≡ desk_live s k)
Ends s j (s', refused e) = (k : ℤ) → desk_live s' k ≡ desk_live s k

desk_cancel-Ends : (s : Desk) (j : ℤ) → Ends s j (desk_cancel s j)
desk_cancel-Ends first j = elim (Bool-cases (eqb_ℤ j (pos 1))) [
  | inl e ↦
      rw e (refl, refl, λ k apart. ground (arith, eqb_ℤ_iff j (pos 1), eqb_ℤ_iff k (pos 1), e))
  | inr e ↦ rw e (λ k. refl)
]
desk_cancel-Ends nothing j = λ k. refl
desk_cancel-Ends second j = elim (Bool-cases (eqb_ℤ j (pos 2))) [
  | inl e ↦
      rw e (refl, refl, λ k apart. ground (arith, eqb_ℤ_iff j (pos 2), eqb_ℤ_iff k (pos 2), e))
  | inr e ↦ rw e (λ k. refl)
]

pub desk-IsFlux : IsFlux desk_world desk_live
desk-IsFlux = record {
  match_new = λ s s' request r asks h. subst (Matches s) h (desk_match-Matches s);
  match_refused = λ s s' request e asks h. subst (Matches s) h (desk_match-Matches s);
  cancel_done = λ s s' request r h z.
      let (_, over, others) = subst (Ends s request.job_id) h (desk_cancel-Ends s request.job_id) in
      (over, others);
  cancel_failed = λ s s' request r h ne.
      absurd (ne (subst (Ends s request.job_id) h (desk_cancel-Ends s request.job_id)).0);
  cancel_refused =
      λ s s' request e h. subst (Ends s request.job_id) h (desk_cancel-Ends s request.job_id);
}

abbrev pub holding : Manager desk_world
holding = record {
  schedule_timeout = pos 600;
  permitted = [];
  backed_off = [];
  group_to_job = ("default/g", 1) ∷ [];
  pod_to_node = [];
  server = first;
}

ask_flux-replaces_example :
    let after = (ask_flux small (pod_named "a") group_g "default/g" holding).0 in
    (get "default/g" after.group_to_job ≡ some (uint64 (pos 2)))
    × (desk_live after.server (int64_of_uint64 1) ≡ false)
    × ((h : String) → h ≢ "default/g" → get h after.group_to_job ≡ get h holding.group_to_job)
unfolding get
ask_flux-replaces_example =
    ask_flux-replaces desk_live desk-IsFlux small (pod_named "a") group_g "default/g" holding 1
      nothing second (record { job_id = pos 1; error = pos 0 }) (job (pos 2)) refl refl refl refl
      refl refl (λ e. cc)

-- The group of a running pod holds job 2 of the sidecar that answered before.
abbrev remembering : Manager desk_world
remembering = record holding { group_to_job = ("default/g", 2) ∷ []; server = first }

abbrev running_pod : Pod
running_pod = record (pod_named "a") { phase = PodPhase.running }

restart_ends_another_job_example :
    let between =
      (ask_flux small (pod_named "b") group_g "default/h" (restarted nothing remembering)).0 in
    let after = delete_pod small running_pod between in
    (get "default/g" between.group_to_job ≡ some 2)
    × (get "default/h" between.group_to_job ≡ some (uint64 (pos 2)))
    × (desk_live between.server (pos 2) ≡ true)
    × (get "default/h" after.group_to_job ≡ some (uint64 (pos 2)))
    × (desk_live after.server (pos 2) ≡ false)
    × ¬ IsTracked desk_live after
unfolding get get_pod_group
restart_ends_another_job_example =
    restart_ends_another_job desk_live desk-IsFlux small small (pod_named "b") running_pod group_g
      group_g "default/h" remembering 2 nothing second nothing (job (pos 2))
      (record { job_id = pos 2; error = pos 0 }) refl refl (ne_str "default/h" "default/g" refl)
      refl refl refl refl refl refl refl refl
