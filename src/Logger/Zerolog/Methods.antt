-- ===== src/Logger/Zerolog/Methods.antt =====
-- The methods of zerologLogger that write, Sync, and NewZerologLogger with its outputs. Of zerolog,
-- `enabled` is the order of its levels, and `after` is what it does after a message of a level.
use boot_backend_go_clean.Common.{
  Bool, true, false, Option, none, some, List, [], ◌∷◌, map, if◌then◌else◌,
}
use boot_backend_go_clean.Common.Text.{Text}
use boot_backend_go_clean.Errors.{Error}
use boot_backend_go_clean.Effect.{Outcome, ok, err, panic}
use boot_backend_go_clean.Logger.{
  LogLevel, debug_level, info_level, warn_level, error_level, fatal_level, panic_level, LogFormat,
  json_format, text_format, Fields, Args, Ending, Entry,
}
use boot_backend_go_clean.Logger.FieldMap.{merge}
use boot_backend_go_clean.Logger.Config.{
  LoggerConfig, Target, Writer, standard, file_outputs, sync_writers,
}
use boot_backend_go_clean.Logger.Zerolog.{
  ZerologLevel, zero_debug, zero_info, zero_warn, zero_error, zero_fatal, zero_panic, ZerologLogger,
  new_zerolog_logger, log,
}

abbrev is_text : LogFormat → Bool
is_text text_format = true
is_text json_format = false

-- A console writer stands before the standard output for the text format, never before the file.
abbrev pub writers_of : LoggerConfig → List Target → List Writer
writers_of config files =
    record { target = standard config.output; is_console = is_text config.format }
    ∷ map (λ t. record { target = t; is_console = false }) files

module _ (join : Text → Text → Text) (mkdir_all : Text → Option Error) where
  abbrev with_outputs : LoggerConfig → Outcome (List Target) → Outcome ZerologLogger
  unfolding new_zerolog_logger
  with_outputs config (ok files) = ok (
      new_zerolog_logger config.level config.initial_fields config.enable_stacktrace
        (writers_of config files))
  with_outputs config (err e) = err e
  with_outputs config (panic m) = panic m

  -- NewZerologLogger
  unfoldable pub new_zerolog : LoggerConfig → Outcome ZerologLogger
  unfolding new_zerolog_logger
  new_zerolog config = with_outputs config (file_outputs join mkdir_all config.file_config)

-- A message, and whether event.Stack() has been called for it.
abbrev pub Message : Type 0
Message = Entry ZerologLevel × Bool

module _ (enabled : ZerologLevel → ZerologLevel → Bool) (sprintf : Text → Args → Text)
    (after : ZerologLevel → Ending) where
  abbrev write : ZerologLevel → Bool → Text → ZerologLogger → Option Message × Ending
  write level stack msg l = (
    if enabled l.minimum level
        then some (record { level = level; message = msg; fields = l.fields }, stack)
        else none,
    after level,
  )

  -- Debugf, Infof, Warnf, Errorf, Fatalf, Panicf
  unfoldable pub sayf : LogLevel → Text → Args → ZerologLogger → Option Message × Ending
  sayf debug_level format args l = write zero_debug false (sprintf format args) l
  sayf info_level format args l = write zero_info false (sprintf format args) l
  sayf warn_level format args l = write zero_warn false (sprintf format args) l
  sayf error_level format args l = write zero_error l.enable_stacktrace (sprintf format args) l
  sayf fatal_level format args l = write zero_fatal l.enable_stacktrace (sprintf format args) l
  sayf panic_level format args l = write zero_panic false (sprintf format args) l

  -- Debug, Info, Warn, Error, Fatal, Panic: the message is a format here too
  unfoldable pub say : LogLevel → Text → Args → ZerologLogger → Option Message × Ending
  say debug_level msg args l = write zero_debug false (sprintf msg args) l
  say info_level msg args l = write zero_info false (sprintf msg args) l
  say warn_level msg args l = write zero_warn false (sprintf msg args) l
  say error_level msg args l = write zero_error l.enable_stacktrace (sprintf msg args) l
  say fatal_level msg args l = write zero_fatal l.enable_stacktrace (sprintf msg args) l
  say panic_level msg args l = write zero_panic false (sprintf msg args) l

-- LogWithDuration: the fields of the call over the duration
unfoldable pub log_with_duration :
    (ZerologLevel → ZerologLevel → Bool) → LogLevel → Text → Fields → ZerologLogger → Option Fields
unfolding log merge
log_with_duration enabled level duration fields l =
    log enabled level (merge (("duration", duration) ∷ []) fields) l

-- Sync
unfoldable pub sync : (Writer → Option Error) → ZerologLogger → Option Error
unfolding sync_writers
sync flush l = sync_writers flush none l.writers
