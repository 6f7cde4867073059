-- ===== src/Sidecar/JobSpec.antt =====
-- src/fluence/jobspec: the job that Fluxion is asked to place, and how much of each resource it has.
use flux_k8s.Base.{
  ℕ, ◌+◌, ◌*◌, ◌/◌, ◌^◌, String, Bool, true, false, List, [], ◌∷◌, ℤ, pos, negsuc, ltb_ℤ, pos_part,
  str_eq, if◌then◌else◌, ◌≡◌, arith, ap, ◌∙◌, Bool-cases, inl, inr,
}
use flux_k8s.Messages.{PodSpec}

mutual
  pub data Resource : Type 0 where
    resource : (type_of : String) (count : ℤ) (label : String) (parts : Resources) → Resource

  pub data Resources : Type 0 where
    nil : Resources
    cons : Resource → Resources → Resources

pub record Task : Type 0 where
  pub command : List String
  pub slot : String
  pub per_slot : ℤ

pub record JobSpec : Type 0 where
  pub version : ℤ
  pub resources : Resources
  pub duration : ℤ
  pub tasks : List Task

-- A shift to the right by 20 bits, of a positive number.
abbrev megabytes : ℤ → ℤ
megabytes (pos n) = pos (n / 2 ^ 20)
megabytes (negsuc n) = negsuc (n / 2 ^ 20)

create_socket_resources : PodSpec → Resources
create_socket_resources spec =
    let gpu = if ltb_ℤ (pos 0) spec.gpu then cons (resource "gpu" spec.gpu "" nil) nil else nil in
    let memory =
      if ltb_ℤ (pos 0) spec.memory
      then cons (resource "memory" (megabytes spec.memory) "" nil) gpu
      else gpu in
    cons (resource "core" spec.cpu "" nil) memory

-- The loop over the labels, which ends at the first "zone".
pub has_zone : List String → Bool
has_zone [] = false
has_zone (label ∷ labels) = if str_eq label "zone" then true else has_zone labels

create_resources : PodSpec → Resources → ℤ → Resources
create_resources spec socket_resources count =
    let slot = cons (resource "slot" count "default" socket_resources) nil in
    if has_zone spec.labels
    then cons (resource "subnet" (pos 1) "" (cons (resource "node" (pos 1) "" slot) nil)) nil
    else slot

-- `CreateJobSpecYaml`, up to the text in YAML.
pub create_job_spec : PodSpec → ℤ → JobSpec
create_job_spec spec count = record {
  version = pos 9999;
  resources = create_resources spec (create_socket_resources spec) count;
  duration = pos 3600;
  tasks = record { command = spec.container ∷ []; slot = "default"; per_slot = pos 1 } ∷ [];
}

-- How many of a type the resources hold in all, each count multiplied by those that it stands under.
unfoldable mutual
  pub amount : String → Resource → ℕ
  amount t (resource type_of count label parts) =
      pos_part count * ((if str_eq type_of t then 1 else 0) + amount_in t parts)

  pub amount_in : String → Resources → ℕ
  amount_in t nil = 0
  amount_in t (cons r rest) = amount t r + amount_in t rest

socket_amounts :
    (spec : PodSpec) (cpus bytes gpus : ℕ)
    → spec.cpu ≡ pos cpus
    → spec.memory ≡ pos bytes
    → spec.gpu ≡ pos gpus
    → let r = create_socket_resources spec in
      (amount_in "core" r ≡ cpus)
      × (amount_in "memory" r ≡ bytes / 2 ^ 20)
      × (amount_in "gpu" r ≡ gpus)
      × (amount_in "node" r ≡ 0)
unfolding create_socket_resources amount amount_in
socket_amounts spec cpus bytes gpus e f h = rw e (rw f (rw h (ground arith)))

slot_amounts :
    (spec : PodSpec) (socket : Resources) (slots : ℕ)
    → let r = create_resources spec socket (pos slots) in
      (amount_in "core" r ≡ slots * amount_in "core" socket)
      × (amount_in "memory" r ≡ slots * amount_in "memory" socket)
      × (amount_in "gpu" r ≡ slots * amount_in "gpu" socket)
      × (amount_in "node" r
          ≡ (if has_zone spec.labels then 1 else 0) + slots * amount_in "node" socket)
unfolding create_resources amount amount_in
slot_amounts spec socket slots = elim (Bool-cases (has_zone spec.labels)) [
  | inl z ↦ rw z (omega arith, omega arith, omega arith, omega arith)
  | inr z ↦ rw z (omega arith, omega arith, omega arith, omega arith)
]

nothing : (n k : ℕ) → n + k * 0 ≡ n
nothing n k = omega arith

-- For a count of slots, and cpus, memory and gpus that are not negative, the job has that many cores,
-- gpus and whole megabytes of memory for each slot, with a zone as without one; and a node of its own
-- exactly for a zone.
pub create_job_spec_lem :
    (spec : PodSpec) (slots cpus bytes gpus : ℕ)
    → spec.cpu ≡ pos cpus
    → spec.memory ≡ pos bytes
    → spec.gpu ≡ pos gpus
    → let job = create_job_spec spec (pos slots) in
      (amount_in "core" job.resources ≡ slots * cpus)
      × (amount_in "memory" job.resources ≡ slots * (bytes / 2 ^ 20))
      × (amount_in "gpu" job.resources ≡ slots * gpus)
      × (amount_in "node" job.resources ≡ (if has_zone spec.labels then 1 else 0))
unfolding create_job_spec
create_job_spec_lem spec slots cpus bytes gpus e f h =
    let socket = create_socket_resources spec in
    let (core, memory, gpu, node) = slot_amounts spec socket slots in
    let (core1, memory1, gpu1, node1) = socket_amounts spec cpus bytes gpus e f h in
    (
      core ∙ ap (λ n. slots * n) core1,
      memory ∙ ap (λ n. slots * n) memory1,
      gpu ∙ ap (λ n. slots * n) gpu1,
      node ∙ ap (λ n. (if has_zone spec.labels then 1 else 0) + slots * n) node1 ∙ nothing _ slots,
    )
