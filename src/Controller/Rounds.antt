-- ===== src/Controller/Rounds.antt =====
-- Repeated reconciles of one group, against a server that stores what it is sent and keeps the status
-- as a subresource: a group is created with no status, an update of the status leaves the rest of the
-- group, and answers with it, and a patch of the group leaves the status.
use flux_k8s.Base.{ℕ, zero, suc, ◌≡◌, String, List, [], ◌∷◌, Option, none, some, pos}
use flux_k8s.Kube.{Pod, PodGroup, PodGroupPhase, no_status}
use flux_k8s.Controller.Server.{
  Api, not_found, found, fails, Call, status_update, patch, delete, create,
}
use flux_k8s.Controller.Watch.{new_pod_group}
use flux_k8s.Controller.{reconcile}

-- The group that the server stores for one that is created, at its time `c`.
abbrev pub created : ℕ → PodGroup → PodGroup
created c pg = record pg { creation_timestamp = c; status = no_status }

-- The server's stored group after a call.
abbrev pub store : Option PodGroup → Call → Option PodGroup
store (some pg) (status_update sent) = some (record pg { status = sent.status })
store (some pg) (patch old new) = some (record new { status = pg.status })
store none (create pg) = some (record pg { status = no_status })
store s (delete pg) = none
store s c = s

abbrev pub store_all : Option PodGroup → List Call → Option PodGroup
store_all s [] = s
store_all s (c ∷ cs) = store_all (store s c) cs

-- The same server, with the group stored so far.
abbrev pub serving : Api → Option PodGroup → Api
serving api none = record api { get_group = λ _ _. fails not_found }
serving api (some pg) = record api {
  get_group = λ _ _. found pg;
  status_update = λ sent. record pg { status = sent.status };
}

abbrev pub rounds : Api → String → String → ℕ → Option PodGroup → Option PodGroup
rounds api namespace name zero s = s
rounds api namespace name (suc k) s =
    let s' = store_all s (reconcile (serving api s) namespace name).0 in
    rounds api namespace name k s'

-- A group as the watch creates it, at the time `c` of the server.
abbrev pub fresh : Api → String → String → ℕ → ℕ → PodGroup
fresh api namespace name m c = created c (new_pod_group api name namespace (pos (suc m)))

module _ (api : Api) (namespace name : String) (pods : List Pod) (m c : ℕ)
    (listed : api.list_pods name ≡ found pods) where
  abbrev timed : ℕ → PodGroup
  timed t = record (fresh api namespace name m c) {
    status = record ((fresh api namespace name m c).status) { creation_time = t };
  }

  abbrev at_phase : ℕ → PodGroupPhase → PodGroup
  at_phase t phase = record (timed t) { status = record ((timed t).status) { phase = phase } }

  abbrev round : PodGroup → Option PodGroup
  round pg = store_all (some pg) (reconcile (serving api (some pg)) namespace name).0
