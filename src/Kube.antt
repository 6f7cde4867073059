-- ===== src/Kube.antt =====
-- The Kubernetes objects, with the fields that the source reads or writes: pods (k8s.io/api/core/v1)
-- and the PodGroup resource of sig-scheduler-plugins/apis/scheduling/v1alpha1/types.go.
-- A time is the number of nanoseconds since Go's zero time, which `IsZero` recognises.
use flux_k8s.Base.{ℕ, String, Bool, true, false, List, Option, ℤ, pos, Map}

-- `map[string]string`; a nil map is `none`.
abbrev pub Labels : Type 0
Labels = Option (Map String)

pub record OwnerReference : Type 0 where
  pub name : String
  pub uid : String

pub data PodPhase : Type 0 where
  pending running succeeded failed unknown : PodPhase
  other : String → PodPhase

-- What the accessors of a container's resources answer: requested cpu, memory and ephemeral
-- storage, and the limit of nvidia.com/gpu.
pub record Container : Type 0 where
  pub cpu : ℤ
  pub memory : ℤ
  pub storage : ℤ
  pub gpu : ℤ

pub record Pod : Type 0 where
  pub name : String
  pub namespace : String
  pub uid : String
  pub labels : Labels
  pub owner_references : List OwnerReference
  pub deletion_timestamp : ℕ
  pub node_name : String
  pub containers : List Container
  pub phase : PodPhase

pub data PodGroupPhase : Type 0 where
  unset : PodGroupPhase  -- the empty text
  pending running scheduling unknown finished failed : PodGroupPhase
  other : String → PodGroupPhase

pub record PodGroupSpec : Type 0 where
  pub min_member : ℤ  -- int32
  pub schedule_timeout_seconds : Option ℤ  -- *int32

pub record PodGroupStatus : Type 0 where
  pub phase : PodGroupPhase
  pub occupied_by : String
  pub running : ℤ  -- int32
  pub succeeded : ℤ  -- int32
  pub failed : ℤ  -- int32
  pub creation_time : ℕ
  pub schedule_start_time : ℕ

-- The zero value of a status.
abbrev pub no_status : PodGroupStatus
no_status = record {
  phase = unset;
  occupied_by = "";
  running = pos 0;
  succeeded = pos 0;
  failed = pos 0;
  creation_time = 0;
  schedule_start_time = 0;
}

pub record PodGroup : Type 0 where
  pub name : String
  pub namespace : String
  pub owner_references : List OwnerReference
  pub creation_timestamp : ℕ
  pub spec : PodGroupSpec
  pub status : PodGroupStatus

abbrev pub is_finished : PodGroupPhase → Bool
is_finished finished = true
is_finished _ = false

abbrev pub is_failed : PodGroupPhase → Bool
is_failed failed = true
is_failed _ = false

abbrev pub is_pending : PodGroupPhase → Bool
is_pending pending = true
is_pending _ = false

abbrev pub is_scheduling : PodGroupPhase → Bool
is_scheduling scheduling = true
is_scheduling _ = false
