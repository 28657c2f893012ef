-- ===== src/Logger/Outputs.antt =====
-- The outputs of a new logger of pkg/logger, and what Sync does with them.
use boot_backend_go_clean.Common.{
  ◌≡◌, ◌↔◌, refl, Option, none, some, List, [], ◌∷◌, arith, if◌then◌else◌,
}
use boot_backend_go_clean.Common.Text.{Text}
use boot_backend_go_clean.Errors.{Error}
use boot_backend_go_clean.Effect.{Outcome, ok, err, panic}
use boot_backend_go_clean.Logger.{Fields}
use boot_backend_go_clean.Logger.Config.{
  FileLogConfig, LoggerConfig, Target, file, Writer, standard, mkdir_error, later_error,
  sync_writers,
}
use boot_backend_go_clean.Logger.Zap.{ZapLogger, Atomics}
use boot_backend_go_clean.Logger.Zap.Methods.{Core, new_zap}
use boot_backend_go_clean.Logger.Slog
use boot_backend_go_clean.Logger.Slog.{SlogLogger, Options, new_slog_logger}
use boot_backend_go_clean.Logger.Slog.Methods as SlogMethods
use boot_backend_go_clean.Logger.Slog.Methods.{new_slog}
use boot_backend_go_clean.Logger.Zerolog
use boot_backend_go_clean.Logger.Zerolog.{ZerologLogger, new_zerolog_logger}
use boot_backend_go_clean.Logger.Zerolog.Methods as ZerologMethods
use boot_backend_go_clean.Logger.Zerolog.Methods.{new_zerolog}

abbrev pub targets : List Writer → List Target
targets [] = []
targets (w ∷ writers) = w.target ∷ targets writers

abbrev zap_targets : Outcome (ZapLogger × Core) → Outcome (List Target)
zap_targets (ok l) = ok l.1.targets
zap_targets (err e) = err e
zap_targets (panic m) = panic m

abbrev slog_targets : Outcome SlogLogger → Outcome (List Target)
slog_targets (ok l) = ok (targets l.output)
slog_targets (err e) = err e
slog_targets (panic m) = panic m

abbrev zerolog_targets : Outcome ZerologLogger → Outcome (List Target)
zerolog_targets (ok l) = ok (targets l.output)
zerolog_targets (err e) = err e
zerolog_targets (panic m) = panic m

module _ (join : Text → Text → Text) (mkdir_all : Text → Option Error) where
  -- The outputs that a configuration asks for: the standard one, and the file in its directory
  -- where file logging is enabled, provided that the directory can be made.
  abbrev asked_for : Target → Option FileLogConfig → Outcome (List Target)
  asked_for out none = ok (out ∷ [])
  asked_for out (some c) =
      let dir = join c.directory c.environment in
      if c.enable
      then elim (mkdir_all dir) [
        | none ↦ ok (out ∷ file (join dir c.filename) c ∷ [])
        | some e ↦ err (mkdir_error e)
      ]
      else ok (out ∷ [])

  -- From the same configuration the three constructors open the same outputs, the standard one
  -- and the log file where file logging is enabled, and give the same error, just where the
  -- directory of that file cannot be made.
  outputs_lem :
      (config : LoggerConfig) (a : Atomics) (o : Options)
      → (zap_targets (new_zap join mkdir_all config a).0
          ≡ asked_for (standard config.output) config.file_config)
        × (slog_targets (new_slog join mkdir_all config o).0
            ≡ asked_for (standard config.output) config.file_config)
        × (zerolog_targets (new_zerolog join mkdir_all config)
            ≡ asked_for (standard config.output) config.file_config)
  unfolding new_zap new_slog new_zerolog
  outputs_lem config a o = (ground arith, ground arith, ground arith)

-- The writers that report no error.
abbrev pub AllFlushed : (Writer → Option Error) → List Writer → Type 0
AllFlushed flush [] = Unit
AllFlushed flush (w ∷ writers) = (flush w ≡ none) × AllFlushed flush writers

sync_writers-eq-none :
    (flush : Writer → Option Error) (e : Option Error) (writers : List Writer)
    → (sync_writers flush e writers ≡ none) ↔ ((e ≡ none) × AllFlushed flush writers)
unfolding sync_writers
sync_writers-eq-none flush e [] = (λ h. (h, tt), λ h. h.0)
sync_writers-eq-none flush e (w ∷ writers) =
    let ih = sync_writers-eq-none flush (later_error e (flush w)) writers in
    (λ h. ground (arith, ih.0 h), λ h. ih.1 (ground arith))

-- Sync of a slog or zerolog logger gives no error exactly where every writer of the logger is
-- flushed without one; a logger that Clone, WithFields or WithTrace has made has no writers, so
-- that its Sync gives no error and flushes nothing, whatever the state of the outputs that it
-- writes to.
pub sync_lem :
    (flush : Writer → Option Error) (slog : SlogLogger) (zerolog : ZerologLogger) (fields : Fields)
    (id : Text)
    → ((SlogMethods.sync flush slog ≡ none) ↔ AllFlushed flush slog.writers)
      × ((ZerologMethods.sync flush zerolog ≡ none) ↔ AllFlushed flush zerolog.writers)
      × (SlogMethods.sync flush (Slog.clone slog) ≡ none)
      × (SlogMethods.sync flush (Slog.with_fields fields slog) ≡ none)
      × (SlogMethods.sync flush (Slog.with_trace id slog) ≡ none)
      × (ZerologMethods.sync flush (Zerolog.clone zerolog) ≡ none)
      × (ZerologMethods.sync flush (Zerolog.with_fields fields zerolog) ≡ none)
      × (ZerologMethods.sync flush (Zerolog.with_trace id zerolog) ≡ none)
unfolding SlogMethods.sync ZerologMethods.sync Slog.clone Slog.with_fields Slog.with_trace
    Zerolog.clone Zerolog.with_fields Zerolog.with_trace
sync_lem flush slog zerolog fields id =
    (flushed slog.writers, flushed zerolog.writers, refl, refl, refl, refl, refl, refl)
  where
    flushed :
        (writers : List Writer)
        → (sync_writers flush none writers ≡ none) ↔ AllFlushed flush writers
    flushed writers =
        let e = sync_writers-eq-none flush none writers in (λ h. (e.0 h).1, λ h. e.1 (refl, h))
