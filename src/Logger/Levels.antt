-- ===== src/Logger/Levels.antt =====
-- Which lines a logger writes.
use flux_k8s.Base.{
  String, Bool, true, false, List, ◌∷◌, none, some, ℤ, leb_ℤ, ◌≤ℤ◌, ◌≡◌, ◌≢◌, ◌∙◌, refl, done, ap,
  if◌then◌else◌,
}
use flux_k8s.Base.Int.{leb_ℤ_iff}
use flux_k8s.Base.Run.{Run}
use flux_k8s.Logger.{
  DebugLogger, Argument, text, Files, Logged, print_line, log, warning, error, level_warning,
  level_error, with_prefix,
}

not_true : (b : Bool) → b ≢ true → b ≡ false
not_true true ne = absurd (ne refl)
not_true false ne = refl

module _ (files : Files) (l : DebugLogger) (opens : files.open_error l.filename ≡ none) where
  -- What is logged, by the test of the level.
  abbrev outcome : String → String → List Argument → Bool → Run Logged
  outcome prefix prolog rest passes = done (record {
    line = if passes then some (with_prefix prefix prolog, rest) else none;
    error = files.close_error l.filename;
  })

  log_opened :
      (level : ℤ) (prefix prolog : String) (rest : List Argument)
      → log files l level prefix (text prolog ∷ rest)
        ≡ outcome prefix prolog rest (leb_ℤ level l.level)
  unfolding log print_line
  log_opened level prefix prolog rest = rw (opens, log) refl

  -- A logger whose file opens, at a level from Warning on and below Error, writes a warning with its
  -- prefix and drops an error.
  pub warning_hides_error :
      (prolog : String) (rest : List Argument)
      → level_warning ≤ℤ l.level
      → ¬ (level_error ≤ℤ l.level)
      → (warning files l (text prolog ∷ rest)
          ≡ done (record {
            line = some (with_prefix "WARNING: " prolog, rest);
            error = files.close_error l.filename;
          }))
        × (error files l (text prolog ∷ rest)
            ≡ done (record { line = none; error = files.close_error l.filename }))
  unfolding warning error
  warning_hides_error prolog rest low high = (
    log_opened level_warning "WARNING: " prolog rest
        ∙ ap (outcome "WARNING: " prolog rest) ((leb_ℤ_iff level_warning l.level).1 low),
    log_opened level_error "  ERROR: " prolog rest
        ∙ ap (outcome "  ERROR: " prolog rest)
            (not_true _ (λ e. high ((leb_ℤ_iff level_error l.level).0 e))),
  )
