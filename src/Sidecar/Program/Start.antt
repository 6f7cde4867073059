-- ===== src/Sidecar/Program/Start.antt =====
-- When the sidecar comes to serve.
use flux_k8s.Base.{
  String, Option, none, some, ◌≡◌, ◌≢◌, ◌↔◌, ◌⊎◌, refl, sym, ◌∙◌, inl, inr, Option-cases, done,
  failed, panic,
}
use flux_k8s.Base.Run.{Run}
use flux_k8s.Messages.{Reply, reply, refused}
use flux_k8s.Scheduler.Allocations.{none_ne_some}
use flux_k8s.Sidecar.Jgf.{FluxJgf}
use flux_k8s.Sidecar.Cluster.{Quantities, Api}
use flux_k8s.Sidecar.Cluster.Written.{
  create_in_cluster_jgf, create_in_cluster_jgf-panic_iff, IsStuck, done_ne_panic,
}
use flux_k8s.Sidecar.Program.{Flags, main, init_fluxion, listen_port, match_policy}

-- How a run ends that reads the graph which another has written.
data FollowsOn {A B : Type 0} (r : Run A) (c : Run B) : Type 0 where
  dies : r ≡ panic → c ≡ panic → FollowsOn r c
  goes_on : r ≢ panic → (b : B) → c ≡ done b → FollowsOn r c

module _ (q : Quantities) (api : Api q) where
  init_fluxion-FollowsOn :
      (file : Reply String) (policy label : String) (r : Run FluxJgf)
      → create_in_cluster_jgf q api label ≡ r
      → FollowsOn r (init_fluxion q api file policy label)
  unfolding init_fluxion
  init_fluxion-FollowsOn file policy label panic e = dies refl (rw (e, init_fluxion) refl)
  init_fluxion-FollowsOn file policy label (failed x) e =
      goes_on (λ h. cc) none (rw (e, init_fluxion) refl)
  init_fluxion-FollowsOn (refused x) policy label (done g) e =
      goes_on (done_ne_panic g) none (rw (e, init_fluxion) refl)
  init_fluxion-FollowsOn (reply text) policy label (done g) e =
      goes_on (done_ne_panic g) (some (text, match_policy policy)) (rw (e, init_fluxion) refl)

  main-dies_iff :
      (file : Reply String) (listen : String → Option String) (flags : Flags)
      → (main q api file listen flags ≡ panic) ↔ (
          (create_in_cluster_jgf q api flags.label ≡ panic)
          ⊎ (listen (listen_port flags.port) ≢ none))
  unfolding main
  main-dies_iff file listen flags =
      elim (init_fluxion-FollowsOn file flags.policy flags.label _ refl) [
        | dies e f ↦ (λ h. inl e, λ h. rw (f, main) refl)
        | goes_on ne context f ↦ elim (Option-cases (listen (listen_port flags.port))) [
          | inl l ↦ (
            λ h. absurd (done_ne_panic _ (rw (f, l, main) at h)),
            λ h. elim h [ inl e ↦ absurd (ne e) | inr up ↦ absurd (up l) ],
          )
          | inr (x, l) ↦ (λ h. inr (λ z. none_ne_some x (sym z ∙ l)), λ h. rw (f, l, main) refl)
        ]
      ]

  -- The sidecar dies before it serves exactly when the API server answers, the graph of its nodes is
  -- built, and it cannot be encoded or its file not made or not written; or when the address cannot
  -- be listened on.
  pub main-panic_iff :
      (file : Reply String) (listen : String → Option String) (flags : Flags)
      → (main q api file listen flags ≡ panic)
        ↔ (IsStuck q api flags.label ⊎ (listen (listen_port flags.port) ≢ none))
  main-panic_iff file listen flags =
      let (ends, stuck) = main-dies_iff file listen flags in
      let (down, up) = create_in_cluster_jgf-panic_iff q api flags.label in
      (
        λ h. elim (ends h) [ inl e ↦ inl (down e) | inr l ↦ inr l ],
        λ h. stuck (elim h [ inl e ↦ inl (up e) | inr l ↦ inr l ]),
      )

  -- Where the graph cannot be had from the API server the sidecar serves all the same, with no context.
  pub main_serves_no_graph :
      (file : Reply String) (listen : String → Option String) (flags : Flags) (e : String)
      → create_in_cluster_jgf q api flags.label ≡ failed e
      → listen (listen_port flags.port) ≡ none
      → main q api file listen flags
        ≡ done (record {
          context = none;
          address = listen_port flags.port;
          external_service = flags.external_service;
        })
  unfolding main init_fluxion
  main_serves_no_graph file listen flags e failure up = rw (failure, up, main, init_fluxion) refl
