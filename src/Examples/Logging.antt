-- ===== src/Examples/Logging.antt =====
-- The outputs, the methods and the global instance of the loggers at concrete inputs.
use boot_backend_go_clean.Common.{ℕ, ◌+◌, ◌≡◌, ◌↔◌, refl, true, Option, none, some, [], ◌∷◌}
use boot_backend_go_clean.Common.Text.{Text, codes}
use boot_backend_go_clean.Errors.{Error, text_error}
use boot_backend_go_clean.Effect.{ok, Action}
use boot_backend_go_clean.Logger.{
  LogLevel, debug_level, info_level, fatal_level, Fields, Args, Ending, returns, exits, panics,
  promised,
}
use boot_backend_go_clean.Logger.Config.{LoggerConfig, new_default_config, Writer}
use boot_backend_go_clean.Logger.Zap
use boot_backend_go_clean.Logger.Zap.{
  ZapLevel, zap_debug, zap_info, zap_warn, zap_error, zap_fatal, zap_panic, convert_to_zap_level,
}
use boot_backend_go_clean.Logger.Zap.Methods as ZapMethods
use boot_backend_go_clean.Logger.Zap.Methods.{new_zap}
use boot_backend_go_clean.Logger.Slog
use boot_backend_go_clean.Logger.Slog.Methods as SlogMethods
use boot_backend_go_clean.Logger.Slog.Methods.{new_slog}
use boot_backend_go_clean.Logger.Zerolog
use boot_backend_go_clean.Logger.Zerolog.{
  ZerologLevel, zero_debug, zero_info, zero_warn, zero_error, zero_fatal, zero_panic,
  convert_to_zerolog_level,
}
use boot_backend_go_clean.Logger.Zerolog.Methods as ZerologMethods
use boot_backend_go_clean.Logger.Zerolog.Methods.{new_zerolog}
use boot_backend_go_clean.Logger.Calls.{fields_of, message_of, say_lem}
use boot_backend_go_clean.Logger.Outputs.{AllFlushed, sync_lem}
use boot_backend_go_clean.Logger.Global.{Globals, get_logger}
use boot_backend_go_clean.Logger.Global.History.{get, init, view, replay, rebuild, replay-rebuild}
use boot_backend_go_clean.Examples.Logs.{zap_enabled, zero_enabled, root, plain, quiet}

-- How zap and zerolog end a call of each level, as they document it.
abbrev zap_after : ZapLevel → Ending
zap_after zap_fatal = exits
zap_after zap_panic = panics
zap_after _ = returns

zap_after-promised : (level : LogLevel) → zap_after (convert_to_zap_level level) ≡ promised level
unfolding convert_to_zap_level
zap_after-promised debug_level = refl
zap_after-promised level = refl

abbrev zero_after : ZerologLevel → Ending
zero_after zero_fatal = exits
zero_after zero_panic = panics
zero_after _ = returns

zero_after-promised :
    (level : LogLevel) → zero_after (convert_to_zerolog_level level) ≡ promised level
unfolding convert_to_zerolog_level
zero_after-promised debug_level = refl
zero_after-promised level = refl

abbrev pairs : Args → Fields
pairs [] = []
pairs (arg ∷ args) = ("arg", arg) ∷ []

abbrev unformatted : Text → Args → Text
unformatted format args = format

abbrev port : Args
port = codes "8080" ∷ []

say_lem_example :
    ((ZapMethods.say zap_enabled pairs unformatted zap_after fatal_level
        (codes "down")
        port
        root.0
        root.1).1
      ≡ exits)
    × (fields_of
          (ZapMethods.say zap_enabled pairs unformatted zap_after fatal_level
            (codes "down")
            port
            root.0
            root.1).0
        ≡ Zap.log zap_enabled none fatal_level (pairs port) root.0 root.1)
    × ((SlogMethods.say pairs unformatted fatal_level (codes "down") port plain.0).1 ≡ exits)
    × (fields_of (SlogMethods.say pairs unformatted fatal_level (codes "down") port plain.0).0
        ≡ Slog.log fatal_level (pairs port) plain.0)
    × ((ZerologMethods.say zero_enabled unformatted zero_after fatal_level
          (codes "down")
          port
          quiet).1
        ≡ exits)
    × (fields_of (
          message_of
            (ZerologMethods.say zero_enabled unformatted zero_after fatal_level
              (codes "down")
              port
              quiet).0)
        ≡ Zerolog.log zero_enabled fatal_level [] quiet)
say_lem_example =
    say_lem unformatted (codes "down") port zap_enabled pairs zap_after pairs zero_enabled
      zero_after fatal_level root.0 root.1 plain.0 quiet zap_after-promised zero_after-promised

abbrev config : LoggerConfig
unfolding new_default_config
config = new_default_config (codes "production")

abbrev failing_flush : Writer → Option Error
failing_flush w = some (text_error "sync /dev/stdout: invalid argument")

sync_lem_example :
    ((SlogMethods.sync failing_flush plain.0 ≡ none) ↔ AllFlushed failing_flush plain.0.writers)
    × ((ZerologMethods.sync failing_flush quiet ≡ none) ↔ AllFlushed failing_flush quiet.writers)
    × (SlogMethods.sync failing_flush (Slog.clone plain.0) ≡ none)
    × (SlogMethods.sync failing_flush (Slog.with_fields [] plain.0) ≡ none)
    × (SlogMethods.sync failing_flush (Slog.with_trace (codes "42") plain.0) ≡ none)
    × (ZerologMethods.sync failing_flush (Zerolog.clone quiet) ≡ none)
    × (ZerologMethods.sync failing_flush (Zerolog.with_fields [] quiet) ≡ none)
    × (ZerologMethods.sync failing_flush (Zerolog.with_trace (codes "42") quiet) ≡ none)
sync_lem_example = sync_lem failing_flush plain.0 quiet [] (codes "42")

-- A logger is its level here, and the world counts the loggers that are made.
abbrev make : LoggerConfig → Action ℕ LogLevel
make c made = (ok c.level, made + 1)

abbrev installed : Globals ℕ LogLevel
installed = record { global_logger = some info_level; done = true; world = 1 }

abbrev verbose : LoggerConfig
unfolding new_default_config
verbose = record config { level = debug_level }

replay-rebuild_example :
    (view make [] (replay make [] (get ∷ init verbose ∷ get ∷ []) installed)
      ≡ rebuild make [] (get ∷ init verbose ∷ get ∷ []) (view make [] installed))
    × ((get_logger make [] (replay make [] (get ∷ init verbose ∷ get ∷ []) installed)).0
        ≡ ok (rebuild make [] (get ∷ init verbose ∷ get ∷ []) (view make [] installed)).0)
replay-rebuild_example = replay-rebuild make [] (get ∷ init verbose ∷ get ∷ []) installed refl
