-- ===== src/Logger/Config.antt =====
-- LoggerConfig, FileLogConfig and NewDefaultConfig of pkg/logger/logger.go, and the part of the
-- three constructors that opens the outputs.
use boot_backend_go_clean.Common.{ℕ, Bool, true, Option, none, some, List, [], ◌∷◌, if◌then◌else◌}
use boot_backend_go_clean.Common.Text.{Text, codes}
use boot_backend_go_clean.Errors.{Error, text_error, error_text}
use Prim.Native.String.{◌++◌ as string_append}
use boot_backend_go_clean.Effect.{Outcome, ok, err}
use boot_backend_go_clean.Logger.{LogLevel, info_level, LogFormat, json_format, Fields}

-- FileLogConfig
pub record FileLogConfig : Type 0 where
  pub enable : Bool
  pub environment : Text
  pub directory : Text
  pub filename : Text
  pub max_size : ℕ
  pub max_backups : ℕ
  pub max_age : ℕ
  pub compress : Bool
  pub use_local_time : Bool

-- LoggerConfig; a writer that the caller gives has a number
pub record LoggerConfig : Type 0 where
  pub level : LogLevel
  pub format : LogFormat
  pub output : Option ℕ
  pub enable_caller : Bool
  pub enable_stacktrace : Bool
  pub initial_fields : Fields
  pub file_config : Option FileLogConfig

-- NewDefaultConfig; `environment` is os.Getenv("APP_ENVIRONMENT")
unfoldable pub new_default_config : Text → LoggerConfig
new_default_config environment = record {
  level = info_level;
  format = json_format;
  output = none;
  enable_caller = true;
  enable_stacktrace = true;
  initial_fields = [];
  file_config = some (record {
    enable = true;
    environment = environment;
    directory = codes "logs";
    filename = codes "app.log";
    max_size = 100;
    max_backups = 30;
    max_age = 7;
    compress = true;
    use_local_time = true;
  });
}

-- Where the text goes: os.Stdout, a writer of the caller, or the file of a lumberjack.Logger.
pub data Target : Type 0 where
  stdout : Target
  given : ℕ → Target
  file : Text → FileLogConfig → Target

-- A writer, and whether a zerolog.ConsoleWriter stands before it.
pub record Writer : Type 0 where
  pub target : Target
  pub is_console : Bool

-- output := os.Stdout, or config.Output where it is set
abbrev pub standard : Option ℕ → Target
standard none = stdout
standard (some w) = given w

abbrev pub mkdir_error : Error → Error
mkdir_error e = text_error (string_append "创建日志目录失败: " (error_text e))

-- `join` is filepath.Join of two names, `mkdir_all` is os.MkdirAll.
module _ (join : Text → Text → Text) (mkdir_all : Text → Option Error) where
  -- The outputs after the standard one: the log file, whose directory is made first.
  abbrev pub opened : Option Error → Text → FileLogConfig → Outcome (List Target)
  opened (some e) dir c = err (mkdir_error e)
  opened none dir c = ok (file (join dir c.filename) c ∷ [])

  abbrev pub file_outputs : Option FileLogConfig → Outcome (List Target)
  file_outputs none = ok []
  file_outputs (some c) =
      let dir = join c.directory c.environment in
      if c.enable then opened (mkdir_all dir) dir c else ok []

-- Sync of slog_logger.go and zerolog_logger.go: the error of the last writer that has one. `flush`
-- gives nil for a writer without a method Sync.
abbrev pub later_error : Option Error → Option Error → Option Error
later_error e none = e
later_error e (some e') = some e'

unfoldable pub sync_writers : (Writer → Option Error) → Option Error → List Writer → Option Error
sync_writers flush sync_err [] = sync_err
sync_writers flush sync_err (w ∷ writers) =
    sync_writers flush (later_error sync_err (flush w)) writers
