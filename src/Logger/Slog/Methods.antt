-- ===== src/Logger/Slog/Methods.antt =====
-- The methods of slogLogger that write, Sync, and NewSlogLogger with its outputs. `to_attrs` makes
-- attributes of the arguments of a call, as log/slog does.
use boot_backend_go_clean.Common.{
  Option, none, some, List, [], ◌∷◌, ◌++◌, map, leb, false, if◌then◌else◌,
}
use boot_backend_go_clean.Common.Text.{Text}
use boot_backend_go_clean.Errors.{Error}
use boot_backend_go_clean.Effect.{Outcome, ok, err, panic}
use boot_backend_go_clean.Logger.{
  LogLevel, debug_level, info_level, warn_level, error_level, fatal_level, panic_level, Fields,
  Args, Ending, returns, exits, panics, Entry,
}
use boot_backend_go_clean.Logger.FieldMap.{merge}
use boot_backend_go_clean.Logger.Config.{
  LoggerConfig, Target, Writer, standard, file_outputs, sync_writers,
}
use boot_backend_go_clean.Logger.Slog.{
  SlogLevel, slog_debug, slog_info, slog_warn, slog_error, value, Options, SlogLogger,
  new_slog_logger, log,
}

abbrev pub direct : Target → Writer
direct t = record { target = t; is_console = false }

module _ (join : Text → Text → Text) (mkdir_all : Text → Option Error) where
  abbrev with_outputs :
      LoggerConfig → Outcome (List Target) → Options → Outcome SlogLogger × Options
  unfolding new_slog_logger
  with_outputs config (ok files) o =
      let writers = direct (standard config.output) ∷ map direct files in
      let (l, o') = new_slog_logger config.level config.format config.initial_fields writers o in
      (ok l, o')
  with_outputs config (err e) o = (err e, o)
  with_outputs config (panic m) o = (panic m, o)

  -- NewSlogLogger
  unfoldable pub new_slog : LoggerConfig → Options → Outcome SlogLogger × Options
  unfolding new_slog_logger
  new_slog config o = with_outputs config (file_outputs join mkdir_all config.file_config) o

module _ (to_attrs : Args → Fields) (sprintf : Text → Args → Text) where
  abbrev write : SlogLevel → Text → Fields → SlogLogger → Option (Entry SlogLevel)
  write level msg attrs l =
      if leb (value l.handler.minimum) (value level)
      then some (record { level = level; message = msg; fields = l.handler.attrs ++ attrs })
      else none

  -- Debug, Info, Warn, Error, Fatal, Panic
  unfoldable pub say : LogLevel → Text → Args → SlogLogger → Option (Entry SlogLevel) × Ending
  say debug_level msg args l = (write slog_debug msg (to_attrs args) l, returns)
  say info_level msg args l = (write slog_info msg (to_attrs args) l, returns)
  say warn_level msg args l = (write slog_warn msg (to_attrs args) l, returns)
  say error_level msg args l = (write slog_error msg (to_attrs args) l, returns)
  say fatal_level msg args l = (write slog_error msg (to_attrs args) l, exits)
  say panic_level msg args l = (write slog_error msg (to_attrs args) l, panics)

  -- Debugf, Infof, Warnf, Errorf, Fatalf, Panicf
  unfoldable pub sayf : LogLevel → Text → Args → SlogLogger → Option (Entry SlogLevel) × Ending
  sayf debug_level format args l = (write slog_debug (sprintf format args) [] l, returns)
  sayf info_level format args l = (write slog_info (sprintf format args) [] l, returns)
  sayf warn_level format args l = (write slog_warn (sprintf format args) [] l, returns)
  sayf error_level format args l = (write slog_error (sprintf format args) [] l, returns)
  sayf fatal_level format args l = (write slog_error (sprintf format args) [] l, exits)
  sayf panic_level format args l = (write slog_error (sprintf format args) [] l, panics)

-- LogWithDuration: the fields of the call over the duration
unfoldable pub log_with_duration : LogLevel → Text → Fields → SlogLogger → Option Fields
unfolding log merge
log_with_duration level duration fields l = log level (merge (("duration", duration) ∷ []) fields) l

-- Sync
unfoldable pub sync : (Writer → Option Error) → SlogLogger → Option Error
unfolding sync_writers
sync flush l = sync_writers flush none l.writers
