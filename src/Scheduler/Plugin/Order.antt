-- ===== src/Scheduler/Plugin/Order.antt =====
-- `Less` of fluence.go is a strict order of the queue.
use Prim.Native.Nat.{ℕ, Ordering, compare as compare_ℕ}
use Prim.Native.Char.{Char, code}
use Prim.Native.String.{String, [], ◌∷◌, compare, then}
use Prim.Native.String.compare
use text.Mathlib.Text.{is_lt, is_eq}
use text.Mathlib.TextPositions.{compare_refl, compare_self}
use text.Mathlib.TextEquality.{codes_equal}
use flux_k8s.Base.Run.{>>=-eq-done}
use flux_k8s.Labels.{namespaced}
use flux_k8s.Scheduler.World.{Cluster}
use flux_k8s.Scheduler.Groups.{get_pod_group, get_creation_timestamp}
use flux_k8s.Base.{
  some, subst, eqb_ℤ, ltb_ℤ, done, failed, panic, ◌>>=◌, Option-cases, ◌≢◌, ◌⊎◌, ◌↔◌, ◌<◌, inl, inr,
  eqb_ℤ_iff, ==_iff, Bool-cases, true, false, ◌≡◌, ◌&&◌, ◌||◌, refl, ap, ◌∙◌, sym, arith, ltb, ◌==◌,
}
use flux_k8s.Scheduler.Plugin.{text_lt, is_earlier, less, Helpers, QueuedPodInfo, creation_time}

then_lt : (o p : Ordering) → is_lt (then o p) ≡ (is_lt o || (is_eq o && is_lt p))
then_lt Ordering.lt p = refl
then_lt Ordering.eq p = refl
then_lt Ordering.gt p = refl

cons_lt :
    (c d : Char) (s t : String)
    → text_lt (c ∷ s) (d ∷ t) ≡ (ltb (code c) (code d) || ((code c == code d) && text_lt s t))
cons_lt c d s t =
    ap is_lt (compare.cons-cons c d s t) ∙ then_lt (compare_ℕ (code c) (code d)) (compare s t)

text_lt_trans : (s t u : String) → text_lt s t ≡ true → text_lt t u ≡ true → text_lt s u ≡ true
text_lt_trans [] (d ∷ t) (e ∷ u) h k = ap is_lt (compare.nil-cons e u)
text_lt_trans [] (d ∷ t) [] h k = cc (k, ap is_lt (compare.cons-nil d t))
text_lt_trans [] [] u h k = k
text_lt_trans (c ∷ s) [] u h k = cc (h, ap is_lt (compare.cons-nil c s))
text_lt_trans (c ∷ s) (d ∷ t) [] h k = cc (k, ap is_lt (compare.cons-nil d t))
text_lt_trans (c ∷ s) (d ∷ t) (e ∷ u) h k =
    ground (arith, cons_lt c d s t, cons_lt d e t u, cons_lt c e s u, text_lt_trans s t u)

text_lt_irrefl : (s : String) → text_lt s s ≡ false
text_lt_irrefl s = ap is_lt (compare_refl s)

==-compare : (m n : ℕ) → (m == n) ≡ true → compare_ℕ m n ≡ Ordering.eq
==-compare m n e = ap (compare_ℕ m) (sym ((==_iff m n).0 e)) ∙ compare_self m

text_lt_total : (s t : String) → s ≢ t → (text_lt s t ≡ true) ⊎ (text_lt t s ≡ true)
text_lt_total [] [] ne = absurd (ne refl)
text_lt_total [] (d ∷ t) ne = inl (ap is_lt (compare.nil-cons d t))
text_lt_total (c ∷ s) [] ne = inr (ap is_lt (compare.nil-cons c s))
text_lt_total (c ∷ s) (d ∷ t) ne = elim (Bool-cases (code c == code d)) [
  | inr apart ↦ ground (arith, cons_lt c d s t, cons_lt d c t s)
  | inl same ↦
      let heads = codes_equal c d (==-compare (code c) (code d) same) in
      elim (text_lt_total s t (λ tails. ne (λ i. heads i ∷ tails i))) [
        | inl l ↦ inl (ground (arith, cons_lt c d s t))
        | inr l ↦ inr (ground (arith, cons_lt d c t s))
      ]
]

done_inj : {A : Type 0} {a b : A} → done a ≡ done b → a ≡ b
done_inj {a} h = ap (λ r. elim r [ done v ↦ v | failed e ↦ a | panic ↦ a ]) h

-- `Equal` and `Before` of `metav1.MicroTime` compare instants.
pub record IsClock (h : Helpers) : Type 0 where
  pub time_equal_iff : (a b : ℕ) → (h.time_equal a b ≡ true) ↔ (a ≡ b)
  pub time_before_iff : (a b : ℕ) → (h.time_before a b ≡ true) ↔ (a < b)

module _ (h : Helpers) (c : Cluster) where
  -- Why one pod comes before another.
  data Before (i j : QueuedPodInfo) : Type 0 where
    by_priority : ltb_ℤ (h.pod_priority j.pod) (h.pod_priority i.pod) ≡ true → Before i j
    by_time :
        h.pod_priority i.pod ≡ h.pod_priority j.pod
        → (a b : ℕ) → creation_time c i ≡ done a
        → creation_time c j ≡ done b
        → is_earlier h i j a b ≡ true
        → Before i j

  less-by_priority :
      (i j : QueuedPodInfo)
      → eqb_ℤ (h.pod_priority i.pod) (h.pod_priority j.pod) ≡ false
      → less h c i j ≡ done (ltb_ℤ (h.pod_priority j.pod) (h.pod_priority i.pod))
  unfolding less
  less-by_priority i j apart = rw (apart, less) refl

  less-by_time :
      (i j : QueuedPodInfo)
      → eqb_ℤ (h.pod_priority i.pod) (h.pod_priority j.pod) ≡ true
      → less h c i j
        ≡ (creation_time c i >>= λ a. creation_time c j >>= λ b. done (is_earlier h i j a b))
  unfolding less
  less-by_time i j same = rw (same, less) refl

  less-times :
      (i j : QueuedPodInfo) (a b : ℕ)
      → h.pod_priority i.pod ≡ h.pod_priority j.pod
      → creation_time c i ≡ done a
      → creation_time c j ≡ done b
      → less h c i j ≡ done (is_earlier h i j a b)
  less-times i j a b same e f =
      less-by_time i j ((eqb_ℤ_iff (h.pod_priority i.pod) (h.pod_priority j.pod)).1 same)
      ∙ ap (λ x. x >>= λ t. creation_time c j >>= λ u. done (is_earlier h i j t u)) e
      ∙ ap (λ x. x >>= λ u. done (is_earlier h i j a u)) f

  less-Before : (i j : QueuedPodInfo) → less h c i j ≡ done true → Before i j
  less-Before i j l = elim (Bool-cases (eqb_ℤ (h.pod_priority i.pod) (h.pod_priority j.pod))) [
    | inr apart ↦ by_priority (done_inj (sym (less-by_priority i j apart) ∙ l))
    | inl same ↦
        let (a, e, l') = >>=-eq-done (creation_time c i) _ (sym (less-by_time i j same) ∙ l) in
        let (b, f, l'') = >>=-eq-done (creation_time c j) _ l' in
        by_time ((eqb_ℤ_iff (h.pod_priority i.pod) (h.pod_priority j.pod)).0 same) a b e f
          (done_inj l'')
  ]

  Before-less : (i j : QueuedPodInfo) → Before i j → less h c i j ≡ done true
  Before-less i j (by_priority l) =
      less-by_priority i j (ground (arith, eqb_ℤ_iff (h.pod_priority i.pod) (h.pod_priority j.pod)))
      ∙ ap done l
  Before-less i j (by_time same a b e f l) = less-times i j a b same e f ∙ ap done l

module _ (h : Helpers) (clock : IsClock h) (c : Cluster) where
  is_earlier_trans :
      (i j k : QueuedPodInfo) (a b d : ℕ)
      → is_earlier h i j a b ≡ true
      → is_earlier h j k b d ≡ true
      → is_earlier h i k a d ≡ true
  unfolding is_earlier
  is_earlier_trans i j k a b d p q =
      let name = λ (x : QueuedPodInfo). namespaced x.pod.namespace x.pod.name in
      ground (
        arith,
        clock.time_equal_iff a b,
        clock.time_equal_iff b d,
        clock.time_equal_iff a d,
        clock.time_before_iff a b,
        clock.time_before_iff b d,
        clock.time_before_iff a d,
        text_lt_trans (name i) (name j) (name k),
      )

  is_earlier_total :
      (i j : QueuedPodInfo) (a b : ℕ)
      → namespaced i.pod.namespace i.pod.name ≢ namespaced j.pod.namespace j.pod.name
      → (is_earlier h i j a b ≡ true) ⊎ (is_earlier h j i b a ≡ true)
  unfolding is_earlier
  is_earlier_total i j a b ne =
      let name = λ (x : QueuedPodInfo). namespaced x.pod.namespace x.pod.name in
      ground (
        arith,
        clock.time_equal_iff a b,
        clock.time_equal_iff b a,
        clock.time_before_iff a b,
        clock.time_before_iff b a,
        text_lt_total (name i) (name j) ne,
      )

  join-Before : (i j k : QueuedPodInfo) → Before h c i j → Before h c j k → Before h c i k
  join-Before i j k (by_priority p) (by_priority q) = by_priority (ground arith)
  join-Before i j k (by_priority p) (by_time same a b e f l) = by_priority (cc (p, same))
  join-Before i j k (by_time same a b e f l) (by_priority q) = by_priority (cc (q, same))
  join-Before i j k (by_time same a b e f l) (by_time same' b' d f' g l') =
      by_time (same ∙ same') a d e g (
        is_earlier_trans i j k a b d l
          (subst (λ x. is_earlier h j k x d ≡ true) (done_inj (sym f' ∙ f)) l'))

  -- Where `Less` puts one pod before a second and the second before a third, none of these ending in
  -- a panic, it puts the first before the third, and does not panic either; for times that are
  -- compared as instants.
  pub less_trans :
      (i j k : QueuedPodInfo)
      → less h c i j ≡ done true
      → less h c j k ≡ done true
      → less h c i k ≡ done true
  less_trans i j k p q =
      Before-less h c i k (join-Before i j k (less-Before h c i j p) (less-Before h c j k q))

  attempted :
      (i : QueuedPodInfo) (t : ℕ)
      → i.initial_attempt_timestamp ≡ some t
      → (a : ℕ) × (creation_time c i ≡ done a)
  unfolding creation_time get_creation_timestamp
  attempted i t e = elim (Option-cases (get_pod_group c i.pod).1) [
    | inl none_known ↦ (t, rw (none_known, get_creation_timestamp) (rw e refl))
    | inr (pg, known) ↦ elim (Bool-cases (pg.status.schedule_start_time == 0)) [
      | inl unset ↦ (t, rw (known, get_creation_timestamp) (rw unset (rw e refl)))
      | inr set ↦ (pg.status.schedule_start_time, rw (known, get_creation_timestamp) (rw set refl))
    ]
  ]

  -- Of two pods that have both been attempted and have different full names, `Less` puts one before
  -- the other; for times that are compared as instants.
  pub less_total :
      (i j : QueuedPodInfo) (t u : ℕ)
      → i.initial_attempt_timestamp ≡ some t
      → j.initial_attempt_timestamp ≡ some u
      → namespaced i.pod.namespace i.pod.name ≢ namespaced j.pod.namespace j.pod.name
      → (less h c i j ≡ done true) ⊎ (less h c j i ≡ done true)
  less_total i j t u first second ne =
      let (a, e) = attempted i t first in
      let (b, f) = attempted j u second in
      elim (Bool-cases (eqb_ℤ (h.pod_priority i.pod) (h.pod_priority j.pod))) [
        | inl same ↦
            let equal = (eqb_ℤ_iff (h.pod_priority i.pod) (h.pod_priority j.pod)).0 same in
            elim (is_earlier_total i j a b ne) [
              | inl l ↦ inl (Before-less h c i j (by_time equal a b e f l))
              | inr l ↦ inr (Before-less h c j i (by_time (sym equal) b a f e l))
            ]
        | inr apart ↦ elim (Bool-cases (ltb_ℤ (h.pod_priority j.pod) (h.pod_priority i.pod))) [
          | inl l ↦ inl (Before-less h c i j (by_priority l))
          | inr l ↦ inr (Before-less h c j i (by_priority (ground arith)))
        ]
      ]
