-- ===== src/Scheduler/Plugin/Start.antt =====
-- How the plugin starts: `New` of fluence.go, `RegisterExisting` of register.go and
-- `NewPodGroupManager` of core/core.go.
use flux_k8s.Base.{
  ℕ, ◌*◌, ◌^◌, String, List, [], Option, none, some, ℤ, pos, ◌≡◌, refl, subst, Option-cases, inl,
  inr,
}
use flux_k8s.Kube.{Pod}
use flux_k8s.Messages.{Reply, reply, refused}
use flux_k8s.Scheduler.World.{World}
use flux_k8s.Scheduler.Flux.{Manager}

abbrev permit_waiting_time_seconds : ℕ
permit_waiting_time_seconds = 300

abbrev pod_group_backoff_seconds : ℕ
pod_group_backoff_seconds = 0

-- A duration is a number of nanoseconds.
abbrev n_seconds : ℕ → ℕ
n_seconds n = n * 10 ^ 9

-- The plugin; its logger and the framework's handle are left out.
pub record Fluence (w : World) : Type 0 where
  pub manager : Manager w
  pub schedule_timeout : Option ℤ
  pub pod_group_backoff : Option ℤ

-- What the plugin gets from its surroundings: the error of the client, those of the configuration
-- and of the client of the cluster, and the list of all pods.
pub record Surroundings : Type 0 where
  pub client_error : Option String
  pub config_error : Option String
  pub clientset_error : Option String
  pub all_pods : Reply (List Pod)

abbrev error_of : Reply (List Pod) → Option String
error_of (reply _) = none
error_of (refused e) = some e

-- The pods are counted for the log alone.
unfoldable pub register_existing : Surroundings → Option String
register_existing s = elim s.config_error [
  | some e ↦ some e
  | none ↦ elim s.clientset_error [ some e ↦ some e | none ↦ error_of s.all_pods ]
]

module _ (w : World) where
  -- `fresh d` is `gochache.New` with a default duration.
  unfoldable pub new_pod_group_manager : (ℕ → w.Store) → w.Server → ℤ → Manager w
  new_pod_group_manager fresh server schedule_timeout = record {
    schedule_timeout = schedule_timeout;
    permitted = fresh (n_seconds 3);
    backed_off = fresh (n_seconds 10);
    group_to_job = [];
    pod_to_node = [];
    server = server;
  }

  new_fluence : (ℕ → w.Store) → w.Server → Fluence w
  unfolding new_pod_group_manager
  new_fluence fresh server =
      let timeout = pos (n_seconds permit_waiting_time_seconds) in
      record {
        manager = new_pod_group_manager fresh server timeout;
        schedule_timeout = some timeout;
        pod_group_backoff = some (pos (n_seconds pod_group_backoff_seconds));
      }

  -- `New`: the plugin, if there is one, and the error. The error of `register_existing` comes with a
  -- plugin.
  unfoldable pub new : (ℕ → w.Store) → w.Server → Surroundings → Option (Fluence w) × Option String
  unfolding new_fluence
  new fresh server s = elim s.client_error [
    | some e ↦ (none, some e)
    | none ↦ (some (new_fluence fresh server), register_existing s)
  ]

  abbrev HoldsNothing : Option (Fluence w) → Type 0
  HoldsNothing o = elim o [ none ↦ Unit | some plugin ↦ plugin.manager.group_to_job ≡ [] ]

  -- No group holds a job in a new plugin.
  pub new_holds_nothing :
      (fresh : ℕ → w.Store) (server : w.Server) (s : Surroundings) (plugin : Fluence w)
      → (new fresh server s).0 ≡ some plugin
      → plugin.manager.group_to_job ≡ []
  unfolding new new_fluence new_pod_group_manager
  new_holds_nothing fresh server s plugin h =
      subst HoldsNothing h (elim (Option-cases s.client_error) [
        | inl e ↦ rw (e, new) refl
        | inr (x, e) ↦ rw (e, new) tt
      ])

  abbrev Serves : w.Server → Option (Fluence w) → Type 0
  Serves server o = elim o [ none ↦ Unit | some plugin ↦ plugin.manager.server ≡ server ]

  -- The sidecar goes on as it was.
  pub new_server :
      (fresh : ℕ → w.Store) (server : w.Server) (s : Surroundings) (plugin : Fluence w)
      → (new fresh server s).0 ≡ some plugin
      → plugin.manager.server ≡ server
  unfolding new new_fluence new_pod_group_manager
  new_server fresh server s plugin h = subst (Serves server) h (elim (Option-cases s.client_error) [
    | inl e ↦ rw (e, new) refl
    | inr (x, e) ↦ rw (e, new) tt
  ])
