-- ===== src/Sidecar/Cluster/Written.antt =====
-- `CreateInClusterJGF` from its client to its file, and `WriteJGF` of src/fluence/jgf/jgf.go.
use flux_k8s.Base.{
  String, List, Option, none, some, done, failed, panic, ◌>>=◌, ◌≡◌, ◌↔◌, ◌⊎◌, ◌≢◌, ap, sym, ◌∙◌,
  subst, refl, inl, inr, Option-cases,
}
use flux_k8s.Base.Run.{Run}
use flux_k8s.Messages.{Reply, reply, refused}
use flux_k8s.Scheduler.Allocations.{none_ne_some}
use flux_k8s.Sidecar.Jgf.{FluxJgf}
use flux_k8s.Sidecar.Cluster.{Quantities, KubeNode, Api, build_graph}

abbrev pub returned : {A : Type 0} → Reply A → Run A
returned (reply a) = done a
returned (refused e) = failed e

reply_inj : {A : Type 0} {a b : A} → reply a ≡ reply b → a ≡ b
reply_inj {a = a} h = ap (λ r. elim r [ reply v ↦ v | refused e ↦ a ]) h

pub done_ne_panic : {A : Type 0} (a : A) → done a ≢ panic
done_ne_panic a e = cc

-- A run that begins with an answer panics exactly where it goes on from it.
returned-panic_iff :
    {A B : Type 0} (r : Reply A) (f : A → Run B)
    → ((returned r >>= f) ≡ panic) ↔ ((a : A) × (r ≡ reply a) × (f a ≡ panic))
returned-panic_iff (reply a) f =
    (λ h. (a, refl, h), λ (b, e, h). subst (λ x. (returned x >>= f) ≡ panic) (sym e) h)
returned-panic_iff (refused e) f = (λ h. cc, λ (b, p, h). cc)

Reply-cases :
    {A : Type 0} (a : Reply A) → ((v : A) × (a ≡ reply v)) ⊎ ((e : String) × (a ≡ refused e))
Reply-cases (reply v) = inl (v, refl)
Reply-cases (refused e) = inr (e, refl)

module _ (q : Quantities) (api : Api q) where
  -- `log.Fatalf` ends the program as a panic does, so that no error of the file is returned.
  unfoldable pub write_jgf : FluxJgf → Run FluxJgf
  write_jgf g = elim (api.marshal_jgf g) [
    | refused e ↦ panic
    | reply text ↦ elim api.create_file [
      | some e ↦ panic
      | none ↦ elim (api.write_file text) [ some e ↦ panic | none ↦ done g ]
    ]
  ]

  abbrev or_list : Option String → Reply (List (KubeNode q)) → Reply (List (KubeNode q))
  or_list none nodes = nodes
  or_list (some e) nodes = refused e

  -- `CreateInClusterJGF`: the graph that has been written, or the error.
  unfoldable pub create_in_cluster_jgf : String → Run FluxJgf
  create_in_cluster_jgf skip_label = do
    nodes ← returned (or_list api.config_error (or_list api.client_error api.list_nodes))
    g ← returned (build_graph q api skip_label nodes)
    write_jgf g

  -- The graph can be encoded, and the file made and written.
  abbrev pub IsWritten : FluxJgf → Type 0
  IsWritten g =
      (text : String) × (api.marshal_jgf g ≡ reply text)
      × (api.create_file ≡ none)
      × (api.write_file text ≡ none)

  -- The API server answers, and the graph of its nodes is built and cannot be written.
  abbrev pub IsStuck : String → Type 0
  IsStuck skip_label =
      (nodes : List (KubeNode q)) × (g : FluxJgf) × (api.config_error ≡ none)
      × (api.client_error ≡ none)
      × (api.list_nodes ≡ reply nodes)
      × (build_graph q api skip_label nodes ≡ reply g)
      × ¬ IsWritten g

  written :
      (g : FluxJgf) (text : String)
      → api.marshal_jgf g ≡ reply text
      → api.create_file ≡ none
      → api.write_file text ≡ none
      → write_jgf g ≡ done g
  unfolding write_jgf
  written g text m c w = rw (m, write_jgf) (rw (c, write_jgf) (rw (w, write_jgf) refl))

  write_jgf-panic_iff : (g : FluxJgf) → (write_jgf g ≡ panic) ↔ ¬ IsWritten g
  unfolding write_jgf
  write_jgf-panic_iff g = elim (Reply-cases (api.marshal_jgf g)) [
    | inr (e, m) ↦ (λ _ (t, h, _, _). cc, λ _. rw (m, write_jgf) refl)
    | inl (text, m) ↦ elim (Option-cases api.create_file) [
      | inr (e, c) ↦ (λ _ (t, _, h, _). cc, λ _. rw (m, write_jgf) (rw (c, write_jgf) refl))
      | inl c ↦ elim (Option-cases (api.write_file text)) [
        | inr (e, w) ↦ (
          λ _ (t, h, _, k). none_ne_some e (sym k ∙ ap api.write_file (reply_inj (sym h ∙ m)) ∙ w),
          λ _. rw (m, write_jgf) (rw (c, write_jgf) (rw (w, write_jgf) refl)),
        )
        | inl w ↦ (
          λ h. absurd (done_ne_panic g (sym (written g text m c w) ∙ h)),
          λ h. absurd (h (text, m, c, w)),
        )
      ]
    ]
  ]

  or_list-reply_iff :
      (c d : Option String) (l : Reply (List (KubeNode q))) (nodes : List (KubeNode q))
      → (or_list c (or_list d l) ≡ reply nodes) ↔ ((c ≡ none) × (d ≡ none) × (l ≡ reply nodes))
  or_list-reply_iff none none l nodes = (λ h. (refl, refl, h), λ (_, _, h). h)
  or_list-reply_iff none (some e) l nodes = (λ h. cc, λ (_, h, _). cc)
  or_list-reply_iff (some e) d l nodes = (λ h. cc, λ (h, _, _). cc)

  -- `CreateInClusterJGF` ends the program exactly when the graph is built and cannot be written.
  pub create_in_cluster_jgf-panic_iff :
      (skip_label : String) → (create_in_cluster_jgf skip_label ≡ panic) ↔ IsStuck skip_label
  unfolding create_in_cluster_jgf
  create_in_cluster_jgf-panic_iff skip_label =
      let answers = or_list api.config_error (or_list api.client_error api.list_nodes) in
      let build = λ (nodes : List (KubeNode q)). build_graph q api skip_label nodes in
      let rest = λ (nodes : List (KubeNode q)). returned (build nodes) >>= write_jgf in
      let (down, up) = returned-panic_iff answers rest in
      (
        λ h.
            let (nodes, listed, h') = down h in
            let (g, built, h'') = (returned-panic_iff (build nodes) write_jgf).0 h' in
            let (c, d, l) =
              (or_list-reply_iff api.config_error api.client_error api.list_nodes nodes).0 listed in
            (nodes, g, c, d, l, built, (write_jgf-panic_iff g).0 h''),
        λ (nodes, g, c, d, l, built, stuck). up (
          nodes,
          (or_list-reply_iff api.config_error api.client_error api.list_nodes nodes).1 (c, d, l),
          (returned-panic_iff (build nodes) write_jgf).1
              (g, built, (write_jgf-panic_iff g).1 stuck),
        ),
      )
