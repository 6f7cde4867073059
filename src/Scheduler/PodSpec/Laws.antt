-- ===== src/Scheduler/PodSpec/Laws.antt =====
-- The cpus that are asked for.
use flux_k8s.Base.{
  ℕ, ◌+◌, ◌^◌, ◌<◌, ◌≡◌, ◌≢◌, refl, String, List, [], ◌∷◌, ℤ, pos, eqb_ℤ, int32, ◌+ℤ◌, arith,
  if◌then◌else◌, ap, ◌∙◌,
}
use flux_k8s.Kube.{Pod, Container}
use flux_k8s.Scheduler.PodSpec.{
  Totals, add_container, add_containers, no_totals, prepare_pod_job_spec,
}

-- Whatever the containers ask for, and also where the 32-bit sum wraps around, the request never asks
-- for 0 cpus; and it carries the group's name both as its id and as its container.
pub prepare_pod_job_spec_lem :
    (pod : Pod) (group_name : String)
    → ((prepare_pod_job_spec pod group_name).cpu ≢ pos 0)
      × ((prepare_pod_job_spec pod group_name).id ≡ group_name)
      × ((prepare_pod_job_spec pod group_name).container ≡ group_name)
unfolding prepare_pod_job_spec
prepare_pod_job_spec_lem pod group_name =
    (cpus_ne (add_containers no_totals pod.containers).cpus, refl, refl)
  where
    cpus_ne : (n : ℤ) → (if eqb_ℤ n (pos 0) then pos 1 else n) ≢ pos 0
    cpus_ne n = ground arith

-- The cpus of containers that each ask for a number, added up with no bound.
abbrev pub Asks : List ℕ → List Container → Type 0
Asks [] [] = Unit
Asks (n ∷ ns) (c ∷ cs) = (c.cpu ≡ pos n) × Asks ns cs
Asks _ _ = ⊥

abbrev pub sum : List ℕ → ℕ
sum [] = 0
sum (n ∷ ns) = n + sum ns

add_cpu : (a n : ℕ) (z : ℤ) → z ≡ pos n → a + n < 2 ^ 31 → int32 (pos a +ℤ int32 z) ≡ pos (a + n)
add_cpu a n z e h = rw e (ground arith)

add_containers_cpus :
    (t : Totals) (a : ℕ) (ns : List ℕ) (cs : List Container)
    → t.cpus ≡ pos a
    → Asks ns cs
    → a + sum ns < 2 ^ 31
    → (add_containers t cs).cpus ≡ pos (a + sum ns)
unfolding add_containers add_container
add_containers_cpus t a [] [] e k h = e ∙ ap pos (omega arith)
add_containers_cpus t a (n ∷ ns) (c ∷ cs) e (en, k) h =
    add_containers_cpus (add_container t c) (a + n) ns cs
      (rw e (add_cpu a n c.cpu en (omega arith))) k (omega arith)
    ∙ ap pos (omega arith)
add_containers_cpus t a [] (c ∷ cs) e k h = absurd k
add_containers_cpus t a (n ∷ ns) [] e k h = absurd k

-- While the containers' requests add up to less than 2^31, the request asks for their sum, and for
-- one cpu where that is 0.
pub prepare_pod_job_spec_cpu :
    (pod : Pod) (group_name : String) (ns : List ℕ)
    → Asks ns pod.containers
    → sum ns < 2 ^ 31
    → (prepare_pod_job_spec pod group_name).cpu
      ≡ (if eqb_ℤ (pos (sum ns)) (pos 0) then pos 1 else pos (sum ns))
unfolding prepare_pod_job_spec
prepare_pod_job_spec_cpu pod group_name ns k h =
    ap (λ n. if eqb_ℤ n (pos 0) then pos 1 else n)
      (add_containers_cpus no_totals 0 ns pod.containers refl k (omega arith)
        ∙ ap pos (omega arith))
