-- ===== src/Logger.antt =====
-- pkg/logger: the levels of logger.go, and which messages each of the three back ends writes. The
-- text that is written is left to the libraries.
pub mod Config
pub mod FieldMap
pub mod Global
pub mod Zap
pub mod Calls
pub mod Outputs
pub mod Context
pub mod Slog
pub mod Zerolog
use boot_backend_go_clean.Common.{ℕ, Bool, String, List, leb}
use boot_backend_go_clean.Common.Text.{Text}

-- LogLevel, in the order of its constants; the program makes no other value of the type.
pub data LogLevel : Type 0 where
  debug_level info_level warn_level error_level fatal_level panic_level : LogLevel

-- The integer that `iota` gives the constant.
abbrev pub rank : LogLevel → ℕ
rank debug_level = 0
rank info_level = 1
rank warn_level = 2
rank error_level = 3
rank fatal_level = 4
rank panic_level = 5

-- LogFormat
pub data LogFormat : Type 0 where
  json_format text_format : LogFormat

-- Fields, the value of each as a text
abbrev pub Fields : Type 0
Fields = List (String × Text)

-- level >= minimum
abbrev pub at_least : LogLevel → LogLevel → Bool
at_least minimum level = leb (rank minimum) (rank level)

-- The arguments `args ...interface{}`, as the texts that they print as.
abbrev pub Args : Type 0
Args = List Text

-- What a call of a method does when the message has been written: it returns, os.Exit(1), or panic.
pub data Ending : Type 0 where
  returns exits panics : Ending

-- A message that is written, at a level of the back end.
pub record Entry (L : Type 0) : Type 0 where
  pub level : L
  pub message : Text
  pub fields : Fields

-- Debug, Info, Warn, Error, Fatal and Panic of the interface Logger promise this.
abbrev pub promised : LogLevel → Ending
promised fatal_level = exits
promised panic_level = panics
promised _ = returns
