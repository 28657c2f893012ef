-- ===== src/Logger/Global.antt =====
-- The global logger of pkg/logger/logger.go: NewLogger, InitLogger, GetLogger and the variables
-- globalLogger and loggerOnce. A constructor is an action on `W`, what loggers and their outputs
-- share.
pub mod History
use boot_backend_go_clean.Common.{String, Bool, true, false, Option, none, some, if◌then◌else◌}
use Prim.Native.String.{◌++◌ as string_append}
use boot_backend_go_clean.Common.Text.{Text, codes, text_eq}
use boot_backend_go_clean.Errors.{Error, wrapped, error_text}
use boot_backend_go_clean.Effect.{Outcome, ok, err, panic, Action}
use boot_backend_go_clean.Logger.Config.{LoggerConfig, new_default_config}

pub record Globals (W L : Type 0) : Type 0 where
  pub global_logger : Option L
  -- loggerOnce has run its function
  pub done : Bool
  pub world : W

module _ {W L : Type 0} where
  -- NewLogger
  unfoldable pub new_logger :
      (LoggerConfig → Action W L)
      → (LoggerConfig → Action W L)
      → (LoggerConfig → Action W L)
      → LoggerConfig
      → Text
      → Action W L
  unfolding text_eq
  new_logger new_zap new_zerolog new_slog config logger_type =
      if text_eq logger_type (codes "zap")
      then new_zap config
      else if text_eq logger_type (codes "zerolog")
      then new_zerolog config
      else new_slog config

  -- `make` is NewLogger(_, "zap"), `environment` is os.Getenv("APP_ENVIRONMENT").
  module _ (make : LoggerConfig → Action W L) (environment : Text) where
    abbrev assigned : Outcome L × W → Globals W L → Outcome L × Globals W L
    assigned (ok l, w) g = (ok l, record g { global_logger = some l; world = w })
    assigned (err e, w) g = (err e, record g { world = w })
    assigned (panic m, w) g = (panic m, record g { world = w })

    -- initLoggerInternal
    unfoldable pub init_logger_internal : LoggerConfig → Action (Globals W L) L
    init_logger_internal config g = assigned (make config g.world) g

    abbrev explained : Outcome L × Globals W L → Outcome L × Globals W L
    explained (ok l, g) = (ok l, g)
    explained (err e, g) = (err (wrapped "failed to initialize logger" e), g)
    explained (panic m, g) = (panic m, g)

    -- InitLogger
    unfoldable pub init_logger : LoggerConfig → Action (Globals W L) L
    unfolding init_logger_internal
    init_logger config g = explained (init_logger_internal config g)

    -- The function that loggerOnce runs, where no logger is set, and the return of globalLogger.
    abbrev defaulted : Outcome L × Globals W L → Outcome (Option L) × Globals W L
    defaulted (ok l, g) = (ok g.global_logger, g)
    defaulted (err e, g) =
        (panic (string_append "Failed to initialize default logger: " (error_text e)), g)
    defaulted (panic m, g) = (panic m, g)

    abbrev first_get : Option L → Action (Globals W L) (Option L)
    unfolding init_logger_internal new_default_config
    first_get none g = defaulted (init_logger_internal (new_default_config environment) g)
    first_get (some l) g = (ok (some l), g)

    -- GetLogger; sync.Once counts a function that panics as run
    unfoldable pub get_logger : Action (Globals W L) (Option L)
    unfolding init_logger_internal new_default_config
    get_logger g =
        if g.done
        then (ok g.global_logger, g)
        else first_get g.global_logger (record g { done = true })
