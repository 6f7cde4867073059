-- ===== src/Sidecar/Cluster/Requests.antt =====
-- The sum of what pods ask for.
use flux_k8s.Base.{
  ℕ, ◌+◌, String, List, [], ◌∷◌, none, some, Map, get, get-put_self, get-put_ne, str-cases,
  Option-cases, ◌≡◌, sym, subst, arith, str_eq, if◌then◌else◌, inl, inr,
}
use flux_k8s.Kube.{Pod}
use flux_k8s.Sidecar.Cluster.{
  Quantities, add_request, add_requests, sum_requests, compute_total_requests,
}

module _ (q : Quantities) (measure : q.Quantity → ℕ) (name : String) where
  pub amount : Map q.Quantity → ℕ
  amount m = elim (get name m) [ none ↦ 0 | some v ↦ measure v ]

  -- The entries of a name, and those of many pods.
  asked : Map q.Quantity → ℕ
  asked [] = 0
  asked ((other, v) ∷ rest) = (if str_eq other name then measure v else 0) + asked rest

  pub asked_by : (Pod → Map q.Quantity) → List Pod → ℕ
  asked_by requests [] = 0
  asked_by requests (pod ∷ pods) = asked (requests pod) + asked_by requests pods

  module _ (additive : (a b : q.Quantity) → measure (q.add a b) ≡ measure a + measure b) where
    amount-add_request_self :
        (v : q.Quantity) (m : Map q.Quantity)
        → amount (add_request q name v m) ≡ measure v + amount m
    unfolding amount add_request
    amount-add_request_self v m = elim (Option-cases (get name m)) [
      | inl f ↦ rw (f, amount, add_request, get-put_self name v m) omega arith
      | inr (u, f) ↦
          rw (f, amount, add_request, get-put_self name (q.add u v) m) omega (arith, additive u v)
    ]

    amount-add_request :
        (other : String) (v : q.Quantity) (m : Map q.Quantity)
        → amount (add_request q other v m) ≡ (if str_eq other name then measure v else 0) + amount m
    unfolding amount add_request
    amount-add_request other v m = elim (str-cases other name) [
      | inl (same, e) ↦ rw e (
          subst (λ x. amount (add_request q x v m) ≡ measure v + amount m) (sym same)
            (amount-add_request_self v m))
      | inr (apart, e) ↦ elim (Option-cases (get other m)) [
        | inl f ↦ rw (e, f, amount, add_request, get-put_ne other name v m apart) omega arith
        | inr (u, f) ↦
            rw (e, f, amount, add_request, get-put_ne other name (q.add u v) m apart) omega arith
      ]
    ]

    amount-add_requests :
        (entries total : Map q.Quantity)
        → amount (add_requests q entries total) ≡ asked entries + amount total
    unfolding add_requests asked
    amount-add_requests [] total = omega arith
    amount-add_requests ((other, v) ∷ rest) total = omega (
      arith,
      amount-add_requests rest (add_request q other v total),
      amount-add_request other v total,
    )

    amount-sum_requests :
        (requests : Pod → Map q.Quantity) (pods : List Pod) (total : Map q.Quantity)
        → amount (sum_requests q requests pods total) ≡ asked_by requests pods + amount total
    unfolding sum_requests asked_by
    amount-sum_requests requests [] total = omega arith
    amount-sum_requests requests (pod ∷ pods) total = omega (
      arith,
      amount-sum_requests requests pods (add_requests q (requests pod) total),
      amount-add_requests (requests pod) total,
    )

    -- By any measure that adds up, what `compute_total_requests` holds for a resource is the sum of
    -- the entries for it in the requests of all the pods; a resource that nothing asks for counts 0.
    pub compute_total_requests-sum :
        (requests : Pod → Map q.Quantity) (pods : List Pod)
        → amount (compute_total_requests q requests pods) ≡ asked_by requests pods
    unfolding compute_total_requests amount get
    compute_total_requests-sum requests pods = omega (arith, amount-sum_requests requests pods [])
