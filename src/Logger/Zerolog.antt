-- ===== src/Logger/Zerolog.antt =====
-- pkg/logger/zerolog_logger.go. The order of zerolog's levels is the parameter `enabled`.
pub mod Methods
pub mod Agreement
use boot_backend_go_clean.Common.{
  ℕ, String, Bool, true, false, Option, none, some, List, [], ◌∷◌, ◌++◌, if◌then◌else◌,
}
use boot_backend_go_clean.Common.Text.{Text}
use boot_backend_go_clean.Logger.Config.{Writer}
use boot_backend_go_clean.Logger.{
  LogLevel, debug_level, info_level, warn_level, error_level, fatal_level, panic_level, Fields,
  at_least,
}

-- The constants of zerolog that the code names.
pub data ZerologLevel : Type 0 where
  zero_debug zero_info zero_warn zero_error zero_fatal zero_panic : ZerologLevel

-- convertToZerologLevel
unfoldable pub convert_to_zerolog_level : LogLevel → ZerologLevel
convert_to_zerolog_level debug_level = zero_debug
convert_to_zerolog_level info_level = zero_info
convert_to_zerolog_level warn_level = zero_warn
convert_to_zerolog_level error_level = zero_error
convert_to_zerolog_level fatal_level = zero_fatal
convert_to_zerolog_level panic_level = zero_panic

-- A zerolog.Logger is a value: its level and its context.
pub record ZerologLogger : Type 0 where
  pub minimum : ZerologLevel
  pub fields : Fields
  pub level : LogLevel
  -- l.config.EnableStacktrace
  pub enable_stacktrace : Bool
  pub output : List Writer
  pub writers : List Writer

-- NewZerologLogger, after its outputs have been opened
unfoldable pub new_zerolog_logger : LogLevel → Fields → Bool → List Writer → ZerologLogger
unfolding convert_to_zerolog_level
new_zerolog_logger level initial_fields enable_stacktrace writers = record {
  minimum = convert_to_zerolog_level level;
  fields = initial_fields;
  level = level;
  enable_stacktrace = enable_stacktrace;
  output = writers;
  writers = writers;
}

-- SetLevel, GetLevel, ShouldLog
unfoldable pub set_level : LogLevel → ZerologLogger → ZerologLogger
unfolding convert_to_zerolog_level
set_level level l = record l { level = level; minimum = convert_to_zerolog_level level }

unfoldable pub get_level : ZerologLogger → LogLevel
get_level l = l.level

unfoldable pub should_log : LogLevel → ZerologLogger → Bool
should_log level l = at_least l.level level

-- SetOutput
unfoldable pub set_output : Writer → ZerologLogger → ZerologLogger
set_output w l = record l { output = w ∷ [] }

-- Clone
unfoldable pub clone : ZerologLogger → ZerologLogger
clone l = record l { writers = [] }

-- The loggers of Clone and of the With methods do not take the field `writers` over.
-- With, WithFields; WithName; WithTrace; WithError
unfoldable pub with_fields : Fields → ZerologLogger → ZerologLogger
with_fields fields l = record l { fields = l.fields ++ fields; writers = [] }

unfoldable pub with_name : Text → ZerologLogger → ZerologLogger
unfolding with_fields
with_name name l = with_fields (("logger", name) ∷ []) l

unfoldable pub with_trace : Text → ZerologLogger → ZerologLogger
unfolding with_fields
with_trace trace_id l = with_fields (("traceID", trace_id) ∷ []) l

unfoldable pub with_error : Text → ZerologLogger → ZerologLogger
unfolding with_fields
with_error err l = with_fields (("error", err) ∷ []) l

-- Log: none where nothing is written, and else the fields of the entry.
unfoldable pub log :
    (ZerologLevel → ZerologLevel → Bool) → LogLevel → Fields → ZerologLogger → Option Fields
unfolding convert_to_zerolog_level
log enabled level fields l =
    if enabled l.minimum (convert_to_zerolog_level level) then some (l.fields ++ fields) else none
