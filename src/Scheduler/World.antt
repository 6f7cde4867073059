-- ===== src/Scheduler/World.antt =====
-- What the plugin uses and does not implement: go-cache, the scheduling framework's CycleState, the
-- sidecar behind gRPC, and the answers of the cluster. The laws are what their documentation says.
use flux_k8s.Base.{ℕ, String, Bool, false, List, Option, some, ℤ, ◌≡◌, ◌≢◌, Map}
use flux_k8s.Kube.{Pod, PodGroup}
use flux_k8s.Messages.{MatchRequest, MatchResponse, CancelRequest, CancelResponse, Reply}

-- The values that the plugin keeps in a CycleState, and those of other plugins.
pub data StateData : Type 0 where
  flux_state : String → StateData
  permit_state : Bool → StateData
  pods_to_activate : Map Pod → StateData
  foreign : StateData

-- `is_cached now k s` and `add now k d s` are `Get` and `Add` at the time `now`, with a duration in
-- nanoseconds. `dial` answers with its error.
pub record World : Type 1 where
  pub Store : Type 0
  pub is_cached : ℕ → String → Store → Bool
  pub add : ℕ → String → ℤ → Store → Store
  pub remove : String → Store → Store
  pub State : Type 0
  pub read : State → String → Option StateData
  pub write : State → String → StateData → State
  pub Server : Type 0
  pub dial : Server → Option String
  pub match_allocate : Server → MatchRequest → Server × Reply MatchResponse
  pub cancel : Server → CancelRequest → Server × Reply CancelResponse

-- A key that has been deleted is not found.
pub record IsCache (w : World) : Type 0 where
  pub cached-remove :
      (now : ℕ) (k : String) (s : w.Store) → w.is_cached now k (w.remove k s) ≡ false

pub record IsCycleState (w : World) : Type 0 where
  pub read-write : (s : w.State) (k : String) (v : StateData) → w.read (w.write s k v) k ≡ some v
  pub read-write_ne :
      (s : w.State) (j k : String) (v : StateData) → j ≢ k → w.read (w.write s j v) k ≡ w.read s k

-- The answers of the API server and of the informers during one operation: `util.GetPodGroupLabel`,
-- a PodGroup by namespace and name (`none` is an error), the pods of a namespace with a value of the
-- group label, the pods on each node of the snapshot, and the time.
pub record Cluster : Type 0 where
  pub group_label : Pod → String
  pub get_group : String → String → Option PodGroup
  pub list_pods : String → String → Option (List Pod)
  pub node_infos : Option (List (List Pod))
  pub now : ℕ
