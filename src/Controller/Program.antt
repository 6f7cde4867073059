-- ===== src/Controller/Program.antt =====
-- `Run` of sig-scheduler-plugins/cmd/controller/app/server.go: the steps by which the program of the
-- controller and of the webhook is set up, up to the first that fails.
use flux_k8s.Base.{
  String, Bool, List, [], ◌∷◌, Option, none, some, ℤ, ◌≡◌, All, refl, ap, ◌∙◌, sym, Option-cases,
  inl, inr,
}
use flux_k8s.Scheduler.Allocations.{none_ne_some}

-- The fields of `ServerRunOptions` that are read.
pub record ServerRunOptions : Type 0 where
  pub api_server_qps : ℤ
  pub api_server_burst : ℤ
  pub metrics_addr : String
  pub probe_addr : String
  pub enable_leader_election : Bool
  pub workers : ℤ

-- The limits of a configuration of the client.
pub record Limits : Type 0 where
  pub qps : ℤ
  pub burst : ℤ

pub record ManagerOptions : Type 0 where
  pub limits : Limits
  pub bind_address : String
  pub health_probe_bind_address : String
  pub leader_election : Bool
  pub leader_election_id : String
  pub leader_election_namespace : String

pub data SetUp : Type 0 where
  new_manager : ManagerOptions → SetUp
  reconciler : String → ℤ → SetUp
  webhook : String → SetUp
  healthz_check readyz_check start_manager : SetUp

-- `config` is what `GetConfigOrDie` answers with. The limits of the options are set on one answer of
-- it, and the manager is made with another.
abbrev pub steps : Limits → ServerRunOptions → List SetUp
steps config s =
    new_manager (record {
      limits = config;
      bind_address = s.metrics_addr;
      health_probe_bind_address = s.probe_addr;
      leader_election = s.enable_leader_election;
      leader_election_id = "sched-plugins-controllers";
      leader_election_namespace = "kube-system";
    })
    ∷ reconciler "PodGroup" s.workers
    ∷ webhook "/mutate-v1-fluence"
    ∷ reconciler "ElasticQuota" s.workers
    ∷ healthz_check
    ∷ readyz_check
    ∷ start_manager
    ∷ []

module _ (fails : SetUp → Option String) where
  -- `Register` answers with no error.
  pub attempt : SetUp → Option String
  attempt (webhook path) = none
  attempt step = fails step

  -- The steps that are taken, with the error of the last.
  in_turn : List SetUp → List SetUp × Option String
  in_turn [] = ([], none)
  in_turn (step ∷ rest) =
      let later = in_turn rest in
      elim (attempt step) [ some e ↦ (step ∷ [], some e) | none ↦ (step ∷ later.0, later.1) ]

  pub run : Limits → ServerRunOptions → List SetUp × Option String
  run config s = in_turn (steps config s)

  in_turn-none :
      (taken : List SetUp)
      → (in_turn taken).1 ≡ none
      → All (λ step. attempt step ≡ none) taken × ((in_turn taken).0 ≡ taken)
  unfolding in_turn
  in_turn-none [] h = (tt, refl)
  in_turn-none (step ∷ rest) h = elim (Option-cases (attempt step)) [
    | inr (e, f) ↦ absurd (none_ne_some e (sym h ∙ rw (f, in_turn) refl))
    | inl f ↦
        let (each, same) = in_turn-none rest (rw (f, in_turn) at h) in
        ((f, each), rw (f, in_turn) (ap (λ l. step ∷ l) same))
  ]

  -- `Run` comes back without an error only after all steps have been taken, each without an error.
  pub run-none :
      (config : Limits) (s : ServerRunOptions)
      → (run config s).1 ≡ none
      → All (λ step. attempt step ≡ none) (steps config s) × ((run config s).0 ≡ steps config s)
  unfolding run
  run-none config s h = in_turn-none (steps config s) h
