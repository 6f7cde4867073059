-- ===== src/Sidecar/Program/Examples.antt =====
-- The port of the sidecar.
use flux_k8s.Base.{
  ◌≡◌, ◌≢◌, ◌↔◌, ◌⊎◌, String, Option, none, some, false, str_eq, if◌then◌else◌, panic,
}
use flux_k8s.Messages.{reply}
use flux_k8s.Sidecar.Program.{Flags, listen_port, default_port, main}
use flux_k8s.Sidecar.Program.Start.{main-panic_iff}
use flux_k8s.Sidecar.Cluster.Written.{IsStuck}
use flux_k8s.Sidecar.Cluster.Layout.Examples.{thousandths, api}
use flux_k8s.Sidecar.Program.Listen.{listen_port_iff}

listen_port_iff_example : (listen_port default_port ≡ ":4242") ↔ (default_port ≡ "4242")
listen_port_iff_example = listen_port_iff default_port

-- The flags as they are by default, and a host on which nothing can listen on "::4242".
abbrev flags : Flags
flags = record { policy = ""; label = ""; port = default_port; external_service = false }

abbrev listen : String → Option String
listen address = if str_eq address "::4242" then some "too many colons in address" else none

main-panic_iff_example :
    (main thousandths api (reply "graph") listen flags ≡ panic)
    ↔ (IsStuck thousandths api "" ⊎ (listen (listen_port default_port) ≢ none))
main-panic_iff_example = main-panic_iff thousandths api (reply "graph") listen flags
