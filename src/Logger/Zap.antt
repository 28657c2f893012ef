-- ===== src/Logger/Zap.antt =====
-- pkg/logger/zap_logger.go. A zap.AtomicLevel is a pointer, which the loggers derived from one
-- another share: a cell of `Atomics`. The order of zap's levels is the parameter `enabled`.
pub mod Methods
pub mod Sharing
use boot_backend_go_clean.Common.{
  ℕ, ◌+◌, ◌==◌, String, Bool, true, false, Option, none, some, List, [], ◌∷◌, ◌++◌, if◌then◌else◌,
}
use boot_backend_go_clean.Common.Text.{Text}
use boot_backend_go_clean.Logger.{
  LogLevel, debug_level, info_level, warn_level, error_level, fatal_level, panic_level, Fields,
}

-- The constants of zapcore that the code names.
pub data ZapLevel : Type 0 where
  zap_debug zap_info zap_warn zap_error zap_panic zap_fatal : ZapLevel

-- convertToZapLevel
unfoldable pub convert_to_zap_level : LogLevel → ZapLevel
convert_to_zap_level debug_level = zap_debug
convert_to_zap_level info_level = zap_info
convert_to_zap_level warn_level = zap_warn
convert_to_zap_level error_level = zap_error
convert_to_zap_level fatal_level = zap_fatal
convert_to_zap_level panic_level = zap_panic

-- The switch of GetLevel.
unfoldable pub level_of : ZapLevel → LogLevel
level_of zap_debug = debug_level
level_of zap_info = info_level
level_of zap_warn = warn_level
level_of zap_error = error_level
level_of zap_fatal = fatal_level
level_of zap_panic = panic_level

-- The atomic levels made so far, by their number.
pub record Atomics : Type 0 where
  pub value : ℕ → ZapLevel
  pub size : ℕ

abbrev pub set_cell : ℕ → ZapLevel → (ℕ → ZapLevel) → ℕ → ZapLevel
set_cell cell v value k = if k == cell then v else value k

-- The fields `logger` and `sugar` have the same core, which looks at the cell `core`.
pub record ZapLogger : Type 0 where
  pub core : ℕ
  pub level : ℕ
  pub name : List Text
  pub fields : Fields

-- zap.NewAtomicLevelAt(v)
abbrev new_atomic : ZapLevel → Atomics → Atomics
new_atomic v a = record { value = set_cell a.size v a.value; size = a.size + 1 }

-- NewZapLogger, without its output
unfoldable pub new_zap_logger : LogLevel → Fields → Atomics → ZapLogger × Atomics
unfolding convert_to_zap_level
new_zap_logger level initial_fields a = (
  record { core = a.size; level = a.size; name = []; fields = initial_fields },
  new_atomic (convert_to_zap_level level) a,
)

-- SetLevel, GetLevel
unfoldable pub set_level : LogLevel → ZapLogger → Atomics → Atomics
unfolding convert_to_zap_level
set_level level l a = record a { value = set_cell l.level (convert_to_zap_level level) a.value }

unfoldable pub get_level : ZapLogger → Atomics → LogLevel
unfolding level_of
get_level l a = level_of (a.value l.level)

-- Clone
unfoldable pub clone : ZapLogger → Atomics → ZapLogger × Atomics
clone l a = (record l { level = a.size }, new_atomic (a.value l.level) a)

-- With, WithFields; WithTrace; WithError; WithName
unfoldable pub with_fields : Fields → ZapLogger → ZapLogger
with_fields fields l = record l { fields = l.fields ++ fields }

unfoldable pub with_trace : Text → ZapLogger → ZapLogger
with_trace trace_id l = record l { fields = l.fields ++ ("traceID", trace_id) ∷ [] }

unfoldable pub with_error : Text → ZapLogger → ZapLogger
with_error err l = record l { fields = l.fields ++ ("error", err) ∷ [] }

unfoldable pub with_name : Text → ZapLogger → ZapLogger
with_name name l = record l { name = l.name ++ name ∷ [] }

module _ (enabled : ZapLevel → ZapLevel → Bool) where
  -- ShouldLog
  unfoldable pub should_log : LogLevel → ZapLogger → Atomics → Bool
  unfolding convert_to_zap_level
  should_log level l a = enabled (a.value l.level) (convert_to_zap_level level)

  -- Log: none where nothing is written, and else the fields of the entry. `trace_id` is the value
  -- "traceID" of the context. That zap panics or exits at its levels Panic and Fatal is left out.
  abbrev trace_fields : Option Text → Fields
  trace_fields none = []
  trace_fields (some trace_id) = ("traceID", trace_id) ∷ []

  unfoldable pub log : Option Text → LogLevel → Fields → ZapLogger → Atomics → Option Fields
  unfolding convert_to_zap_level
  log trace_id level fields l a =
      if enabled (a.value l.core) (convert_to_zap_level level)
      then some (l.fields ++ (fields ++ trace_fields trace_id))
      else none
