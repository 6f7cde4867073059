-- ===== src/Messages.antt =====
-- The messages of the gRPC service between the scheduler plugin and the sidecar, from
-- src/fluence/fluxcli-grpc/fluxcli.proto.
use flux_k8s.Base.{String, List, ℤ}

pub record PodSpec : Type 0 where
  pub id : String
  pub container : String
  pub cpu : ℤ  -- int32
  pub memory : ℤ  -- int64
  pub gpu : ℤ  -- int64
  pub storage : ℤ  -- int64
  pub labels : List String

pub record MatchRequest : Type 0 where
  pub ps : PodSpec
  pub request : String
  pub count : ℤ  -- int32

pub record NodeAlloc : Type 0 where
  pub node_id : String
  pub tasks : ℤ  -- int32

pub record MatchResponse : Type 0 where
  pub pod_id : String
  pub nodelist : List NodeAlloc
  pub job_id : ℤ  -- int64

pub record CancelRequest : Type 0 where
  pub job_id : ℤ  -- int64

pub record CancelResponse : Type 0 where
  pub job_id : ℤ  -- int64
  pub error : ℤ  -- int32

-- The answer of a remote call.
pub data Reply {ℓ} (A : Type ℓ) : Type ℓ where
  reply : A → Reply A
  refused : String → Reply A
