-- ===== src/Logger/Slog/Levels.antt =====
-- What a change of the level does to a logger of pkg/logger/slog_logger.go.
use boot_backend_go_clean.Common.{
  ℕ, ◌*◌, ◌≡◌, refl, Bool, true, false, Option, none, some, arith, leb, if◌then◌else◌,
}
use boot_backend_go_clean.Common.Text.{Text}
use boot_backend_go_clean.Logger.{
  LogLevel, debug_level, info_level, warn_level, error_level, fatal_level, panic_level, LogFormat,
  Fields, rank, at_least,
}
use boot_backend_go_clean.Logger.Slog.{
  SlogLogger, Options, value, convert_to_slog_level, set_level, get_level, should_log, set_format,
  with_trace, with_fields, log,
}

abbrev pub is_written : Option Fields → Bool
is_written none = false
is_written (some fields) = true

abbrev pub smaller : ℕ → ℕ → ℕ
smaller a b = if leb a b then a else b

-- slog's level of a constant is that of ErrorLevel from there on.
value-convert :
    (level : LogLevel) → value (convert_to_slog_level level) ≡ 4 * smaller (rank level) 3
unfolding convert_to_slog_level
value-convert debug_level = refl
value-convert info_level = refl
value-convert warn_level = refl
value-convert error_level = refl
value-convert fatal_level = refl
value-convert panic_level = refl

-- After SetLevel, ShouldLog answers by the new level, and a message is written by the same order
-- with the levels above ErrorLevel taken for it. The logger has lost the fields that With,
-- WithTrace and the others have given it.
pub set_level_lem :
    (v level : LogLevel) (fields : Fields) (l : SlogLogger) (o : Options)
    → (get_level (set_level v l o).0 ≡ v)
      × (should_log level (set_level v l o).0 ≡ at_least v level)
      × (log level fields (set_level v l o).0
          ≡ (if leb (smaller (rank v) 3) (smaller (rank level) 3) then some fields else none))
unfolding set_level get_level should_log log
set_level_lem v level fields l o =
    (refl, refl, ground (arith, value-convert v, value-convert level))

-- When the level of a logger made by WithTrace is set, and the format of the logger it was made
-- from is set later, that one writes by the new level, though it reports the old one.
pub set_level_leaks :
    (v level : LogLevel) (format : LogFormat) (id : Text) (fields : Fields) (l : SlogLogger)
    (o : Options)
    → (get_level (set_format format l (set_level v (with_trace id l) o).1) ≡ get_level l)
      × (log level fields (set_format format l (set_level v (with_trace id l) o).1)
          ≡ log level fields (set_level v l o).0)
unfolding set_level get_level set_format with_trace with_fields log
set_level_leaks v level format id fields l o = (refl, ground arith)
