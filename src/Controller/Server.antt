-- ===== src/Controller/Server.antt =====
-- The API server as the controller sees it: its answers, and the calls that change it. It is not
-- part of the source, so its answers are a parameter.
use flux_k8s.Base.{ℕ, String, Bool, List, Option}
use flux_k8s.Kube.{Pod, PodGroup}

pub data Fault : Type 0 where
  not_found : Fault
  fault : String → Fault

pub data Answer {ℓ} (A : Type ℓ) : Type ℓ where
  found : A → Answer A
  fails : Fault → Answer A

-- `status_update` answers with the object as it stands after the call, which is what the client
-- library leaves in the caller's variable. `list_pods` selects by the group label alone, in every
-- namespace. `group_label` is `util.GetPodGroupLabel`, and `unmarshal_time` is
-- `MicroTime.UnmarshalJSON`.
pub record Api : Type 0 where
  pub get_group : String → String → Answer PodGroup
  pub list_pods : String → Answer (List Pod)
  pub status_update : PodGroup → PodGroup
  pub patch : PodGroup → PodGroup → Option Fault
  pub delete : PodGroup → Option Fault
  pub create : PodGroup → Option Fault
  pub group_label : Pod → String
  pub unmarshal_time : String → Option ℕ
  pub now : ℕ

pub data Call : Type 0 where
  status_update : PodGroup → Call
  patch : PodGroup → PodGroup → Call
  delete : PodGroup → Call
  create : PodGroup → Call
  event : PodGroup → String → Call

pub record Result : Type 0 where
  pub requeue : Bool
  pub error : Option Fault
