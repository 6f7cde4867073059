-- ===== src/Sidecar/Cluster/Free.antt =====
-- The cores that a node has left.
use flux_k8s.Base.{
  ℕ, ◌-◌, ◌/◌, ◌<◌, ◌≤◌, ◌^◌, pos, negsuc, int64, ◌-ℤ◌, pos_part, Map, get, ◌≡◌, ap, ◌∙◌, arith,
  ◌⊎◌, inl, inr,
}
use flux_k8s.Base.Int.{int64_of_IsInt64}
use flux_k8s.Sidecar.Cluster.{Quantities, KubeNode, avail_cpu, thousandth, or_zero}

le_or_lt : (a b : ℕ) → (a ≤ b) ⊎ (b < a)
le_or_lt a b = ground arith

minus_le : (t r : ℕ) → r ≤ t → pos t -ℤ pos r ≡ pos (t - r)
minus_le t r h = ground arith

minus_lt : (t r : ℕ) → t < r → pos t -ℤ pos r ≡ negsuc (r - t - 1)
minus_lt t r h = ground arith

cores_left :
    (t r : ℕ) → r ≤ t → t < 2 ^ 63 → pos_part (thousandth (int64 (pos t -ℤ pos r))) ≡ (t - r) / 1000
unfolding thousandth
cores_left t r h small =
    ap (λ z. pos_part (thousandth z))
      (ap int64 (minus_le t r h) ∙ int64_of_IsInt64 (pos (t - r)) (omega arith))

none_below_zero : (k : ℕ) → pos_part (pos 0 -ℤ pos k) ≡ 0
none_below_zero k = ground arith

no_cores : (t r : ℕ) → t < r → r < 2 ^ 63 → pos_part (thousandth (int64 (pos t -ℤ pos r))) ≡ 0
unfolding thousandth
no_cores t r h small =
    ap (λ z. pos_part (thousandth z))
      (ap int64 (minus_lt t r h) ∙ int64_of_IsInt64 (negsuc (r - t - 1)) (omega arith))
    ∙ none_below_zero _

module _ (q : Quantities) where
  -- When a node has t thousandths of a core below 2^63 and its pods ask for r below 2^63, the loop
  -- over the cores makes one for each whole core of what is left, t - r, and none when the pods ask
  -- for more than there is.
  pub avail_cpu-cores :
      (node : KubeNode q) (reqs : Map q.Quantity) (t r : ℕ)
      → q.milli_value node.cpu ≡ pos t
      → q.milli_value (or_zero q (get "cpu" reqs)) ≡ pos r
      → t < 2 ^ 63
      → r < 2 ^ 63
      → pos_part (avail_cpu q node reqs) ≡ (t - r) / 1000
  unfolding avail_cpu
  avail_cpu-cores node reqs t r e f small_t small_r =
      ap (λ z. pos_part (thousandth (int64 z)))
        (ap (λ z. z -ℤ q.milli_value (or_zero q (get "cpu" reqs))) e ∙ ap (λ z. pos t -ℤ z) f)
      ∙ elim (le_or_lt r t) [
        | inl le ↦ cores_left t r le small_t
        | inr lt ↦ no_cores t r lt small_r ∙ omega (arith, lt)
      ]
