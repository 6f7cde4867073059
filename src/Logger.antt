-- ===== src/Logger.antt =====
-- sig-scheduler-plugins/pkg/logger/logger.go: the plugin's logger, which opens its file for each line.
-- The file is a parameter, by the errors of opening and closing it.
pub mod Levels
use Prim.Native.String.{◌++◌}
use flux_k8s.Base.{
  String, List, [], ◌∷◌, Option, none, some, ℤ, pos, leb_ℤ, not, str_eq, if◌then◌else◌, done, panic,
}
use flux_k8s.Base.Run.{Run}

abbrev pub level_none : ℤ
level_none = pos 0

abbrev pub level_info : ℤ
level_info = pos 1

abbrev pub level_warning : ℤ
level_warning = pos 2

abbrev pub level_error : ℤ
level_error = pos 3

abbrev pub level_verbose : ℤ
level_verbose = pos 4

abbrev pub level_debug : ℤ
level_debug = pos 5

pub record DebugLogger : Type 0 where
  pub level : ℤ
  pub filename : String

-- A value of type `any`: a text, or something else as it is printed.
pub data Argument : Type 0 where
  text other : String → Argument

-- The errors of the file, by its name.
pub record Files : Type 0 where
  pub open_error : String → Option String
  pub close_error : String → Option String

-- The format and the arguments that are printed to the file, if they are, and the error.
pub record Logged : Type 0 where
  pub line : Option (String × List Argument)
  pub error : Option String

abbrev with_prefix : String → String → String
with_prefix prefix prolog = if not (str_eq prefix "") then prefix ++ " " ++ prolog else prolog

-- The first argument is taken as a text: there must be one, and it must be a text.
print_line : DebugLogger → Option String → ℤ → String → List Argument → Run Logged
print_line l closed level prefix [] = panic
print_line l closed level prefix (other s ∷ rest) = panic
print_line l closed level prefix (text prolog ∷ rest) = done (record {
  line = if leb_ℤ level l.level then some (with_prefix prefix prolog, rest) else none;
  error = closed;
})

module _ (files : Files) where
  log : DebugLogger → ℤ → String → List Argument → Run Logged
  log l level prefix message = elim (files.open_error l.filename) [
    | some e ↦ done (record { line = none; error = some e })
    | none ↦ print_line l (files.close_error l.filename) level prefix message
  ]

  pub info : DebugLogger → List Argument → Run Logged
  info l = log l level_info "   INFO: "

  pub error : DebugLogger → List Argument → Run Logged
  error l = log l level_error "  ERROR: "

  pub debug : DebugLogger → List Argument → Run Logged
  debug l = log l level_debug "  DEBUG: "

  pub verbose : DebugLogger → List Argument → Run Logged
  verbose l = log l level_verbose "VERBOSE: "

  pub warning : DebugLogger → List Argument → Run Logged
  warning l = log l level_warning "WARNING: "
