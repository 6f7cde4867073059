-- ===== src/Scheduler/PodSpec.antt =====
-- sig-scheduler-plugins/pkg/fluence/podspec/podspec.go: the request for one pod, in the group's name.
-- Go visits the labels in no fixed order; here they come in the order of the list.
pub mod Laws
use Prim.Native.Nat.{ℕ}
use text.Mathlib.Text.{find?}
use flux_k8s.Base.{
  String, Bool, true, false, List, [], ◌∷◌, Option, none, some, ℤ, pos, eqb_ℤ, int32, int64, ◌+ℤ◌,
  Map, if◌then◌else◌,
}
use flux_k8s.Kube.{Labels, Pod, Container}
use flux_k8s.Messages.{PodSpec}

-- `strings.Contains`
abbrev contains : String → String → Bool
contains s t = elim (find? s t) [ none ↦ false | some _ ↦ true ]

jobspec_values : Map String → List String
jobspec_values [] = []
jobspec_values ((label, value) ∷ labels) =
    if contains label "jobspec" then value ∷ jobspec_values labels else jobspec_values labels

get_pod_jobspec_labels : Labels → List String
get_pod_jobspec_labels none = []
get_pod_jobspec_labels (some m) = jobspec_values m

-- The running sums of the loop, in the widths of the source.
pub record Totals : Type 0 where
  pub cpus : ℤ  -- int32
  pub memory : ℤ  -- int64
  pub gpus : ℤ  -- int64
  pub storage : ℤ  -- int64

add_container : Totals → Container → Totals
add_container t c = record {
  cpus = int32 (t.cpus +ℤ int32 c.cpu);
  memory = int64 (t.memory +ℤ c.memory);
  gpus = int64 (t.gpus +ℤ c.gpu);
  storage = int64 (t.storage +ℤ c.storage);
}

add_containers : Totals → List Container → Totals
add_containers t [] = t
add_containers t (c ∷ cs) = add_containers (add_container t c) cs

abbrev no_totals : Totals
no_totals = record { cpus = pos 0; memory = pos 0; gpus = pos 0; storage = pos 0 }

unfoldable pub prepare_pod_job_spec : Pod → String → PodSpec
unfolding add_containers add_container get_pod_jobspec_labels jobspec_values
prepare_pod_job_spec pod group_name =
    let t = add_containers no_totals pod.containers in
    record {
      id = group_name;
      container = group_name;
      cpu = if eqb_ℤ t.cpus (pos 0) then pos 1 else t.cpus;
      memory = t.memory;
      gpu = t.gpus;
      storage = t.storage;
      labels = get_pod_jobspec_labels pod.labels;
    }
