-- ===== src/Controller/Owners.antt =====
-- `updateOwnerReferences` and `patchPodGroup` of podgroup_controller.go, which nothing calls.
-- `sort` is `sort.Strings`.
use Prim.Native.String.{◌++◌}
use mathlib.Core.Option.{some_inj}
use flux_k8s.Base.{String, true, false, List, [], ◌∷◌, none, some, Option, map, ◌≡◌, ap, sym, ◌∙◌}
use flux_k8s.Kube.{OwnerReference, Pod, PodGroup}
use flux_k8s.Labels.{namespaced}
use flux_k8s.Controller.Server.{Api, Fault, Call, Result, status_update}
use flux_k8s.Controller.{update_and_patch}

-- `strings.Join` with a comma.
abbrev with_commas : List String → String
with_commas [] = ""
with_commas (s ∷ []) = s
with_commas (s ∷ (t ∷ rest)) = s ++ "," ++ with_commas (t ∷ rest)

-- The owners of a pod by namespace and name.
abbrev owner_names : String → List OwnerReference → List String
owner_names namespace owners = map (λ (o : OwnerReference). namespaced namespace o.name) owners

module _ (api : Api) (sort : List String → List String) where
  own_by : PodGroup → String → List OwnerReference → List Call × Result
  own_by pg namespace [] = ([], record { requeue = true; error = none })
  own_by pg namespace (owner ∷ owners) = update_and_patch api pg (record pg {
    owner_references = owner ∷ owners;
    status = record (pg.status) {
      occupied_by = with_commas (sort (owner_names namespace (owner ∷ owners)));
    };
  })

  pub update_owner_references : PodGroup → List Pod → List Call × Result
  update_owner_references pg [] = ([], record { requeue = true; error = none })
  update_owner_references pg (pod ∷ pods) = own_by pg pod.namespace pod.owner_references

  -- The group that the calls write to its status, if there is a call.
  abbrev sent : List Call × Result → Option PodGroup
  sent (status_update pg ∷ _, _) = some pg
  sent _ = none

  own_by_again :
      (pg pg' : PodGroup) (namespace : String) (owners : List OwnerReference)
      → sent (own_by pg namespace owners) ≡ some pg'
      → sent (own_by pg' namespace owners) ≡ some pg'
  unfolding own_by update_and_patch
  own_by_again pg pg' namespace [] e = e
  own_by_again pg pg' namespace (owner ∷ owners) e =
      ap (λ (x : PodGroup). sent (own_by x namespace (owner ∷ owners))) (sym (some_inj.0 e)) ∙ e

  -- A group that has been given its owners is given the same by the same pods again.
  pub update_owner_references_again :
      (pg pg' : PodGroup) (pods : List Pod)
      → sent (update_owner_references pg pods) ≡ some pg'
      → sent (update_owner_references pg' pods) ≡ some pg'
  unfolding update_owner_references
  update_owner_references_again pg pg' [] e = e
  update_owner_references_again pg pg' (pod ∷ pods) e =
      own_by_again pg pg' pod.namespace pod.owner_references e

-- `status_patch` is `r.Status().Patch`; an error of it keeps the object from being patched.
pub patch_pod_group : Api → (PodGroup → PodGroup → Option Fault) → PodGroup → PodGroup → Result
patch_pod_group api status_patch old young = elim (status_patch old young) [
  | some e ↦ record { requeue = false; error = some e }
  | none ↦ record { requeue = false; error = api.patch old young }
]
