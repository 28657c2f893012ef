-- ===== src/Logger/Slog.antt =====
-- pkg/logger/slog_logger.go. The loggers derived from one another share the pointer `opts`: a cell
-- of `Options`. A handler of log/slog copies the options that it is made with.
pub mod Methods
pub mod Levels
use boot_backend_go_clean.Common.{
  ℕ, ◌+◌, ◌==◌, String, Bool, true, false, Option, none, some, List, [], ◌∷◌, ◌++◌, leb,
  if◌then◌else◌,
}
use boot_backend_go_clean.Common.Int.{ℤ, pos, negsuc, ltb_ℤ}
use boot_backend_go_clean.Common.Text.{Text}
use boot_backend_go_clean.Logger.Config.{Writer}
use boot_backend_go_clean.Logger.{
  LogLevel, debug_level, info_level, warn_level, error_level, fatal_level, panic_level, LogFormat,
  Fields, at_least,
}

-- The constants of log/slog: LevelDebug is -4, LevelInfo 0, LevelWarn 4 and LevelError 8.
pub data SlogLevel : Type 0 where
  slog_debug slog_info slog_warn slog_error : SlogLevel

abbrev pub value : SlogLevel → ℕ
value slog_debug = 0
value slog_info = 4
value slog_warn = 8
value slog_error = 12

-- convertToSlogLevel
unfoldable pub convert_to_slog_level : LogLevel → SlogLevel
convert_to_slog_level debug_level = slog_debug
convert_to_slog_level info_level = slog_info
convert_to_slog_level warn_level = slog_warn
convert_to_slog_level error_level = slog_error
convert_to_slog_level fatal_level = slog_error
convert_to_slog_level panic_level = slog_error

-- The field `Level` of the options made so far, by their number.
pub record Options : Type 0 where
  pub level : ℕ → SlogLevel
  pub size : ℕ

-- A handler: its format, the level and the writers that it was made with, and its attributes.
pub record Handler : Type 0 where
  pub format : LogFormat
  pub minimum : SlogLevel
  pub writer : List Writer
  pub attrs : Fields

pub record SlogLogger : Type 0 where
  pub handler : Handler
  pub level : LogLevel
  pub opts : ℕ
  pub output : List Writer
  pub writers : List Writer

abbrev pub set_cell : ℕ → SlogLevel → (ℕ → SlogLevel) → ℕ → SlogLevel
set_cell cell v level k = if k == cell then v else level k

-- NewSlogLogger, after its outputs have been opened; io.MultiWriter is the list of its writers
unfoldable pub new_slog_logger :
    LogLevel → LogFormat → Fields → List Writer → Options → SlogLogger × Options
unfolding convert_to_slog_level
new_slog_logger level format initial_fields writers o = (
  record {
    handler = record {
      format = format;
      minimum = convert_to_slog_level level;
      writer = writers;
      attrs = initial_fields;
    };
    level = level;
    opts = o.size;
    output = writers;
    writers = writers;
  },
  record { level = set_cell o.size (convert_to_slog_level level) o.level; size = o.size + 1 },
)

-- slog.NewJSONHandler(l.output, l.opts), slog.NewTextHandler(l.output, l.opts)
abbrev pub new_handler : LogFormat → SlogLogger → Options → Handler
new_handler format l o = record {
  format = format;
  minimum = o.level l.opts;
  writer = l.output;
  attrs = [];
}

-- SetLevel
unfoldable pub set_level : LogLevel → SlogLogger → Options → SlogLogger × Options
unfolding convert_to_slog_level
set_level level l o =
    let o' : Options = record o { level = set_cell l.opts (convert_to_slog_level level) o.level } in
    (record l { level = level; handler = new_handler l.handler.format l o' }, o')

-- GetLevel, ShouldLog
unfoldable pub get_level : SlogLogger → LogLevel
get_level l = l.level

unfoldable pub should_log : LogLevel → SlogLogger → Bool
should_log level l = at_least l.level level

-- SetFormat, SetOutput
unfoldable pub set_format : LogFormat → SlogLogger → Options → SlogLogger
set_format format l o = record l { handler = new_handler format l o }

unfoldable pub set_output : Writer → SlogLogger → Options → SlogLogger
set_output w l o =
    let l' : SlogLogger = record l { output = w ∷ [] } in
    record l' { handler = new_handler l.handler.format l' o }

-- Clone
unfoldable pub clone : SlogLogger → SlogLogger
clone l = record l { writers = [] }

-- The loggers of Clone and of the With methods do not take the field `writers` over.
-- With, WithFields; WithName; WithTrace; WithError
unfoldable pub with_fields : Fields → SlogLogger → SlogLogger
with_fields fields l = record l {
  handler = record l.handler { attrs = l.handler.attrs ++ fields };
  writers = [];
}

unfoldable pub with_name : Text → SlogLogger → SlogLogger
unfolding with_fields
with_name name l = with_fields (("logger", name) ∷ []) l

unfoldable pub with_trace : Text → SlogLogger → SlogLogger
unfolding with_fields
with_trace trace_id l = with_fields (("traceID", trace_id) ∷ []) l

unfoldable pub with_error : Text → SlogLogger → SlogLogger
unfolding with_fields
with_error err l = with_fields (("error", err) ∷ []) l

-- Log: none where nothing is written, and else the fields of the entry.
unfoldable pub log : LogLevel → Fields → SlogLogger → Option Fields
unfolding convert_to_slog_level
log level fields l =
    if leb (value l.handler.minimum) (value (convert_to_slog_level level))
    then some (l.handler.attrs ++ fields)
    else none
