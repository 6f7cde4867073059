-- ===== src/Scheduler/Toy.antt =====
-- A small world in which the laws hold: a sidecar with two jobs that never agrees to cancel one, a
-- cache in which nothing passes, and a cycle's state as a map.
use mathlib.Core.Bool.{◌||◌}
use flux_k8s.Base.{
  Bool, true, false, [], ◌∷◌, Option, none, some, ℤ, pos, eqb_ℤ, eqb_ℤ_iff, ◌≡◌, ◌≢◌, refl, Map,
  get, put, delete, get-put_self, get-put_ne, get-delete_self, sym, ap, arith, IsInt64, subst,
}
use flux_k8s.Messages.{MatchRequest, MatchResponse, Reply, reply, refused}
use flux_k8s.Scheduler.World.{World, IsCache, IsCycleState, StateData}
use flux_k8s.Scheduler.Flux.Cancel.{IsFlux}

pub data Jobs : Type 0 where
  no_job one_job two_jobs : Jobs

abbrev pub job : ℤ → MatchResponse
job n = record {
  pod_id = "default/g";
  nodelist =
      record { node_id = "node-a"; tasks = pos 1 }
      ∷ record { node_id = "node-b"; tasks = pos 1 }
      ∷ [];
  job_id = n;
}

abbrev toy_match : Jobs → MatchRequest → Jobs × Reply MatchResponse
toy_match no_job _ = (one_job, reply (job (pos 1)))
toy_match one_job _ = (two_jobs, reply (job (pos 2)))
toy_match two_jobs _ = (two_jobs, refused "no nodes")

abbrev pub live : Jobs → ℤ → Bool
live no_job j = false
live one_job j = eqb_ℤ j (pos 1)
live two_jobs j = eqb_ℤ j (pos 1) || eqb_ℤ j (pos 2)

abbrev is_some : {A : Type 0} → Option A → Bool
is_some none = false
is_some (some _) = true

abbrev pub toy : World
toy = record {
  Store = Map ℤ;
  is_cached = λ now k s. is_some (get k s);
  add = λ now k d s. put k d s;
  remove = delete;
  State = Map StateData;
  read = λ s k. get k s;
  write = λ s k v. put k v s;
  Server = Jobs;
  dial = λ s. none;
  match_allocate = toy_match;
  cancel = λ s request. (s, refused "down");
}

pub toy-IsCache : IsCache toy
toy-IsCache = record { cached-remove = λ now k s. ap is_some (get-delete_self k s) }

pub toy-IsCycleState : IsCycleState toy
toy-IsCycleState = record {
  read-write = λ s k v. get-put_self k v s;
  read-write_ne = λ s j k v ne. get-put_ne j k v s ne;
}

-- What a match may do to the live jobs.
abbrev Matches : Jobs → Jobs × Reply MatchResponse → Type 0
Matches s (s', reply r) =
    IsInt64 r.job_id
    × (live s r.job_id ≡ false)
    × (live s' r.job_id ≡ true)
    × ((j : ℤ) → j ≢ r.job_id → live s' j ≡ live s j)
Matches s (s', refused e) = (j : ℤ) → live s' j ≡ live s j

toy_match-Matches : (s : Jobs) (request : MatchRequest) → Matches s (toy_match s request)
toy_match-Matches no_job request =
    ((omega arith, omega arith), refl, refl, λ j ne. ground (arith, eqb_ℤ_iff j (pos 1)))
toy_match-Matches one_job request =
    ((omega arith, omega arith), refl, refl, λ j ne. ground (arith, eqb_ℤ_iff j (pos 2)))
toy_match-Matches two_jobs request = λ j. refl

pub toy-IsFlux : IsFlux toy live
toy-IsFlux = record {
  match_new = λ s s' request r asks h. subst (Matches s) h (toy_match-Matches s request);
  match_refused = λ s s' request e asks h. subst (Matches s) h (toy_match-Matches s request);
  cancel_done = λ s s' request r h z. cc;
  cancel_failed = λ s s' request r h z. cc;
  cancel_refused = λ s s' request e h j. ap (λ a. live a.0 j) (sym h);
}
