-- ===== src/Sidecar/Program/Listen.antt =====
-- Where the sidecar listens, against where the plugin looks for it.
use Prim.Native.String.{◌++◌}
use text.Mathlib.Text.{starts_with}
use text.Mathlib.TextLemmas.{append_cancel_left}
use flux_k8s.Base.{String, true, false, ◌≡◌, ◌≢◌, ◌↔◌, ap, sym, ◌∙◌, Bool-cases, inl, inr}
use flux_k8s.Sidecar.Program.{listen_port}

-- The address that `AskFlux` and `cancelFluxJob` dial, without its host.
abbrev dialled_port : String
dialled_port = ":4242"

not_both : false ≢ true
not_both e = cc

-- The address that the sidecar gives to `net.Listen` is the text of the port that the plugin dials
-- exactly when the text of its port is 4242, without the colon that its default has.
pub listen_port_iff : (port : String) → (listen_port port ≡ dialled_port) ↔ (port ≡ "4242")
unfolding listen_port
listen_port_iff port = elim (Bool-cases (starts_with ":" port)) [
  | inl e ↦ rw e (
    λ h. absurd (not_both (sym (ap (starts_with ":") h) ∙ e)),
    λ h. absurd (not_both (sym (ap (starts_with ":") h) ∙ e)),
  )
  | inr e ↦ rw e (λ h. append_cancel_left ":" port "4242" h, λ h. ap (λ p. ":" ++ p) h)
]
