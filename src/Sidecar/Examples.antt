-- ===== src/Sidecar/Examples.antt =====
-- Runs of the sidecar.
use flux_k8s.Base.{◌*◌, ◌^◌, [], ◌∷◌, pos, ◌≡◌, refl, if◌then◌else◌}
use flux_k8s.Messages.{PodSpec}
use flux_k8s.Sidecar.JobSpec.{create_job_spec, amount_in, has_zone, create_job_spec_lem}

abbrev spec : PodSpec
spec = record {
  id = "default/g";
  container = "default/g";
  cpu = pos 4;
  memory = pos (3 * 2 ^ 20);
  gpu = pos 1;
  storage = pos 0;
  labels = "zone" ∷ [];
}

create_job_spec_lem_example :
    let job = create_job_spec spec (pos 2) in
    (amount_in "core" job.resources ≡ 8)
    × (amount_in "memory" job.resources ≡ 6)
    × (amount_in "gpu" job.resources ≡ 2)
    × (amount_in "node" job.resources ≡ (if has_zone ("zone" ∷ []) then 1 else 0))
create_job_spec_lem_example = create_job_spec_lem spec 2 4 (3 * 2 ^ 20) 1 refl refl refl
