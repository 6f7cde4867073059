-- ===== src/Scheduler/Manager/Siblings.antt =====
-- `ActivateSiblings` of core/core.go: which pods it hands to the scheduler.
use flux_k8s.Base.{
  String, true, List, [], ◌∷◌, some, ◌≡◌, ◌≢◌, refl, ◌∙◌, Map, get, put, get-put_self, get-put_ne,
  All, str_ne,
}
use flux_k8s.Kube.{Pod}
use flux_k8s.Labels.{namespaced}
use flux_k8s.Scheduler.World.{World, Cluster, IsCycleState, permit_state, pods_to_activate}
use flux_k8s.Scheduler.Manager.{
  activate_siblings, activate, without_uid, stash, permit_state_key, pods_to_activate_key,
}

abbrev pub full_name : Pod → String
full_name pod = namespaced pod.namespace pod.name

-- No two pods of the list share a namespace and a name.
unfoldable pub HaveOwnFullNames : List Pod → Type 0
HaveOwnFullNames [] = Unit
HaveOwnFullNames (pod ∷ pods) =
    All (λ (q : Pod). full_name q ≢ full_name pod) pods × HaveOwnFullNames pods

stash-keeps :
    (k : String) (pods : List Pod) (table : Map Pod)
    → All (λ (q : Pod). full_name q ≢ k) pods
    → get k (stash pods table) ≡ get k table
unfolding stash
stash-keeps k [] table h = refl
stash-keeps k (pod ∷ pods) table (ne, h) =
    stash-keeps k pods (put (full_name pod) pod table) h ∙ get-put_ne (full_name pod) k pod table ne

-- Each pod stands in the table under its own full name.
pub Stashed : Map Pod → List Pod → Type 0
Stashed table [] = Unit
Stashed table (q ∷ pods) = (get (full_name q) table ≡ some q) × Stashed table pods

stash-Stashed :
    (pods : List Pod) (table : Map Pod) → HaveOwnFullNames pods → Stashed (stash pods table) pods
unfolding stash HaveOwnFullNames Stashed
stash-Stashed [] table h = tt
stash-Stashed (pod ∷ pods) table (ne, h) = (
  stash-keeps (full_name pod) pods _ ne ∙ get-put_self (full_name pod) pod table,
  stash-Stashed pods _ h,
)

module _ (w : World) (c : Cluster) (cycle : IsCycleState w) where
  activate-reads :
      (pods : List Pod) (state : w.State) (table : Map Pod)
      → w.read state pods_to_activate_key ≡ some (pods_to_activate table)
      → w.read (activate w c pods state) pods_to_activate_key
        ≡ some (pods_to_activate (stash pods table))
  unfolding activate stash
  activate-reads [] state table e = e
  activate-reads (pod ∷ pods) state table e =
      rw (e, activate) (cycle.read-write state pods_to_activate_key _)

  -- When the cycle's state asks for the activation and has a table for it, and the pods of the group
  -- are listed, the table that is left has every listed pod but the first with the UID of this one,
  -- under its own full name, and holds what it held under a name that is none of theirs.
  pub activate_siblings-stashes :
      (pod : Pod) (pods : List Pod) (state : w.State) (table : Map Pod)
      → c.group_label pod ≢ ""
      → w.read state permit_state_key ≡ some (permit_state true)
      → c.list_pods pod.namespace (c.group_label pod) ≡ some pods
      → w.read state pods_to_activate_key ≡ some (pods_to_activate table)
      → HaveOwnFullNames (without_uid pod.uid pods)
      → (k : String) → All (λ (q : Pod). full_name q ≢ k) (without_uid pod.uid pods)
      → (after : Map Pod) × (w.read (activate_siblings w c pod state) pods_to_activate_key
          ≡ some (pods_to_activate after))
        × Stashed after (without_uid pod.uid pods)
        × (get k after ≡ get k table)
  unfolding activate_siblings
  activate_siblings-stashes pod pods state table grouped asked listed held own k others = (
    stash (without_uid pod.uid pods) table,
    rw (str_ne (c.group_label pod) "" grouped) (
        rw (asked, listed, activate_siblings)
          (activate-reads (without_uid pod.uid pods) state table held)),
    stash-Stashed (without_uid pod.uid pods) table own,
    stash-keeps k (without_uid pod.uid pods) table others,
  )
