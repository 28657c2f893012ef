-- ===== src/Logger/Zap/Methods.antt =====
-- The methods of zapLogger that write, and NewZapLogger with its outputs. Of zap, `enabled` is the
-- order of its levels, `sweeten` makes fields of the arguments of a sugared call, `after` is what
-- zap does after a message of a level, also where the message is not written.
use boot_backend_go_clean.Common.{Bool, Option, none, some, List, [], ◌∷◌, ◌++◌, if◌then◌else◌}
use boot_backend_go_clean.Common.Text.{Text}
use boot_backend_go_clean.Errors.{Error}
use boot_backend_go_clean.Effect.{Outcome, ok, err, panic}
use boot_backend_go_clean.Logger.{
  LogLevel, debug_level, info_level, warn_level, error_level, fatal_level, panic_level, LogFormat,
  json_format, text_format, Fields, Args, Ending, Entry,
}
use boot_backend_go_clean.Logger.FieldMap.{put}
use boot_backend_go_clean.Logger.Config.{LoggerConfig, Target, standard, file_outputs}
use boot_backend_go_clean.Logger.Zap.{
  ZapLevel, zap_debug, zap_info, zap_warn, zap_error, zap_panic, zap_fatal, ZapLogger, Atomics,
  new_zap_logger, log,
}

-- The core of a new logger: the encoder, the outputs, and the options AddCaller and AddStacktrace.
pub record Core : Type 0 where
  pub encoder : LogFormat
  pub targets : List Target
  pub caller : Bool
  pub stacktrace : Option ZapLevel

-- The encoder is the JSON one for that format, and the console one for every other.
abbrev encoder_of : LogFormat → LogFormat
encoder_of json_format = json_format
encoder_of text_format = text_format

module _ (join : Text → Text → Text) (mkdir_all : Text → Option Error) where
  abbrev with_outputs :
      LoggerConfig → Outcome (List Target) → ZapLogger → Outcome (ZapLogger × Core)
  with_outputs config (ok files) l = ok (
    l,
    record {
      encoder = encoder_of config.format;
      targets = standard config.output ∷ files;
      caller = config.enable_caller;
      stacktrace = if config.enable_stacktrace then some zap_error else none;
    },
  )
  with_outputs config (err e) l = err e
  with_outputs config (panic m) l = panic m

  -- NewZapLogger
  unfoldable pub new_zap : LoggerConfig → Atomics → Outcome (ZapLogger × Core) × Atomics
  unfolding new_zap_logger
  new_zap config a =
      let (l, a') = new_zap_logger config.level config.initial_fields a in
      (with_outputs config (file_outputs join mkdir_all config.file_config) l, a')

module _ (enabled : ZapLevel → ZapLevel → Bool) (sweeten : Args → Fields)
    (sprintf : Text → Args → Text) (after : ZapLevel → Ending) where
  abbrev write : ZapLevel → Text → Fields → ZapLogger → Atomics → Option (Entry ZapLevel) × Ending
  write level msg fields l a = (
    if enabled (a.value l.core) level
        then some (record { level = level; message = msg; fields = l.fields ++ fields })
        else none,
    after level,
  )

  -- Debug, Info, Warn, Error, Fatal, Panic
  unfoldable pub say :
      LogLevel → Text → Args → ZapLogger → Atomics → Option (Entry ZapLevel) × Ending
  say debug_level msg args = write zap_debug msg (sweeten args)
  say info_level msg args = write zap_info msg (sweeten args)
  say warn_level msg args = write zap_warn msg (sweeten args)
  say error_level msg args = write zap_error msg (sweeten args)
  say fatal_level msg args = write zap_fatal msg (sweeten args)
  say panic_level msg args = write zap_panic msg (sweeten args)

  -- Debugf, Infof, Warnf, Errorf, Fatalf, Panicf
  unfoldable pub sayf :
      LogLevel → Text → Args → ZapLogger → Atomics → Option (Entry ZapLevel) × Ending
  sayf debug_level format args = write zap_debug (sprintf format args) []
  sayf info_level format args = write zap_info (sprintf format args) []
  sayf warn_level format args = write zap_warn (sprintf format args) []
  sayf error_level format args = write zap_error (sprintf format args) []
  sayf fatal_level format args = write zap_fatal (sprintf format args) []
  sayf panic_level format args = write zap_panic (sprintf format args) []

-- The field that LogWithDuration sets in the map of the caller, or in a new one.
abbrev pub given_fields : Option Fields → Fields
given_fields none = []
given_fields (some fields) = fields

-- LogWithDuration, for a duration in milliseconds as a text: the fields of the entry, and the map
-- of the caller afterwards.
unfoldable pub log_with_duration :
    (ZapLevel → ZapLevel → Bool)
    → LogLevel
    → Text
    → Option Fields
    → ZapLogger
    → Atomics
    → Option Fields × Option Fields
unfolding log put
log_with_duration enabled level duration fields l a =
    let fields' = put "duration" duration (given_fields fields) in
    (log enabled none level fields' l a, elim fields [ none ↦ none | some _ ↦ some fields' ])
