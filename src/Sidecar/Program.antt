-- ===== src/Sidecar/Program.antt =====
-- src/fluence/cmd/main.go, `InitFluxion` of fluxion/fluxion.go and service/service.go: how the sidecar
-- starts, where it listens, and its second service.
pub mod Listen
pub mod Start
mod Examples
use Prim.Native.String.{◌++◌}
use text.Mathlib.Text.{starts_with}
use flux_k8s.Base.{
  String, Bool, done, failed, panic, ◌>>=◌, Option, none, some, ℤ, pos, not, str_eq, if◌then◌else◌,
}
use flux_k8s.Messages.{Reply, reply, refused}
use flux_k8s.Base.Run.{Run}
use flux_k8s.Sidecar.Cluster.{Quantities, Api}
use flux_k8s.Sidecar.Cluster.Written.{create_in_cluster_jgf}

abbrev pub default_port : String
default_port = ":4242"

-- The address that `main` listens on; the arguments of `strings.HasPrefix` are as in the code, which
-- asks whether ":" begins with the port.
unfoldable pub listen_port : String → String
listen_port port = if not (starts_with ":" port) then ":" ++ port else port

abbrev pub match_policy : String → String
match_policy policy =
    if not (str_eq policy "") then "{\"matcher_policy\": \"" ++ policy ++ "\"}" else "{}"

-- What `InitContext` of the bindings is called with, if it is: the graph as it has been written and
-- is read again, and the options.
unfoldable pub init_fluxion :
    (q : Quantities) → Api q → Reply String → String → String → Run (Option (String × String))
init_fluxion q api file policy label = elim (create_in_cluster_jgf q api label) [
  | panic ↦ panic
  | failed e ↦ done none
  | done g ↦ elim file [
    | refused e ↦ done none
    | reply text ↦ done (some (text, match_policy policy))
  ]
]

pub record Flags : Type 0 where
  pub policy : String
  pub label : String
  pub port : String
  pub external_service : Bool

-- The server once it has been started: the context of Fluxion, the address, and its second service.
pub record Served : Type 0 where
  pub context : Option (String × String)
  pub address : String
  pub external_service : Bool

-- `main` up to `Serve`; `listen` is `net.Listen`. Its error is printed and the listener, which is nil
-- then, is asked for its address.
unfoldable pub main :
    (q : Quantities) → Api q → Reply String → (String → Option String) → Flags → Run Served
main q api file listen flags = do
  context ← init_fluxion q api file flags.policy flags.label
  elim (listen (listen_port flags.port)) [
    | some e ↦ panic
    | none ↦ done (record {
      context = context;
      address = listen_port flags.port;
      external_service = flags.external_service;
    })
  ]

pub record GroupRequest : Type 0 where
  pub group : String

pub record GroupResponse : Type 0 where
  pub name : String
  pub size : ℤ  -- int64

pub record ResourceResponse : Type 0 where
  pub graph : String

-- The two lookups of groups answer with nothing.
pub get_group : GroupRequest → Reply GroupResponse
get_group request = reply (record { name = ""; size = pos 0 })

pub list_groups : GroupRequest → Reply GroupResponse
list_groups request = reply (record { name = ""; size = pos 0 })

-- `GetResources`, with the file as it is read.
pub get_resources : Reply String → Reply ResourceResponse
get_resources (refused e) = refused e
get_resources (reply text) = reply (record { graph = text })
