-- ===== src/Examples/Logs.antt =====
-- Loggers at concrete inputs.
use boot_backend_go_clean.Common.{ℕ, ◌≡◌, refl, Bool, true, false, none, List, [], ◌∷◌, leb, arith}
use boot_backend_go_clean.Common.Text.{codes}
use boot_backend_go_clean.Logger.Config.{Writer, stdout}
use boot_backend_go_clean.Logger.{
  LogLevel, debug_level, info_level, warn_level, error_level, fatal_level, panic_level, json_format,
  rank,
}
use boot_backend_go_clean.Logger.Zap
use boot_backend_go_clean.Logger.Zap.{
  ZapLevel, zap_debug, zap_info, zap_warn, zap_error, zap_panic, zap_fatal, ZapLogger, Atomics,
  convert_to_zap_level, new_zap_logger,
}
use boot_backend_go_clean.Logger.Zap.Sharing.{
  same, by_trace, is_written, set_level_reaches, clone_keeps_output,
}
use boot_backend_go_clean.Logger.Slog.{SlogLogger, Options, slog_info, new_slog_logger}
use boot_backend_go_clean.Logger.Zerolog
use boot_backend_go_clean.Logger.Zerolog.{
  ZerologLevel, zero_debug, zero_info, zero_warn, zero_error, zero_fatal, zero_panic, ZerologLogger,
  new_zerolog_logger, convert_to_zerolog_level,
}
use boot_backend_go_clean.Logger.Zerolog.Agreement.{IsOrdered}

-- The order that zap documents.
abbrev pub zap_rank : ZapLevel → ℕ
zap_rank zap_debug = 0
zap_rank zap_info = 1
zap_rank zap_warn = 2
zap_rank zap_error = 3
zap_rank zap_panic = 5
zap_rank zap_fatal = 6

abbrev pub zap_enabled : ZapLevel → ZapLevel → Bool
zap_enabled minimum level = leb (zap_rank minimum) (zap_rank level)

abbrev pub no_atomics : Atomics
no_atomics = record { value = λ k. zap_info; size = 0 }

abbrev pub root : ZapLogger × Atomics
root = new_zap_logger info_level [] no_atomics

abbrev traced : ZapLogger
traced = Zap.with_trace (codes "42") root.0

set_level_reaches_example :
    (Zap.get_level root.0 (Zap.set_level error_level traced root.1) ≡ error_level)
    × (Zap.should_log zap_enabled warn_level root.0 (Zap.set_level error_level traced root.1)
        ≡ zap_enabled (convert_to_zap_level error_level) (convert_to_zap_level warn_level))
    × (is_written
          (Zap.log zap_enabled none warn_level [] root.0 (Zap.set_level error_level traced root.1))
        ≡ Zap.should_log zap_enabled warn_level root.0 (Zap.set_level error_level traced root.1))
set_level_reaches_example =
    set_level_reaches zap_enabled info_level warn_level error_level [] no_atomics traced root.0 none
      [] (by_trace (codes "42") root.0 same) same

clone_keeps_output_example :
    (Zap.get_level
        (Zap.clone root.0 root.1).0
        (Zap.set_level debug_level (Zap.clone root.0 root.1).0 (Zap.clone root.0 root.1).1)
      ≡ debug_level)
    × (Zap.log zap_enabled none debug_level []
          (Zap.clone root.0 root.1).0
          (Zap.set_level debug_level (Zap.clone root.0 root.1).0 (Zap.clone root.0 root.1).1)
        ≡ Zap.log zap_enabled none debug_level [] root.0 root.1)
    × (Zap.log zap_enabled none debug_level [] root.0
          (Zap.set_level debug_level (Zap.clone root.0 root.1).0 (Zap.clone root.0 root.1).1)
        ≡ Zap.log zap_enabled none debug_level [] root.0 root.1)
unfolding new_zap_logger
clone_keeps_output_example =
    clone_keeps_output zap_enabled root.0 root.0 debug_level debug_level root.1 none []
      (omega arith) (omega arith)

abbrev pub no_options : Options
no_options = record { level = λ k. slog_info; size = 0 }

abbrev pub terminal : List Writer
terminal = record { target = stdout; is_console = false } ∷ []

abbrev pub plain : SlogLogger × Options
plain = new_slog_logger info_level json_format [] terminal no_options

abbrev pub zero_rank : ZerologLevel → ℕ
zero_rank zero_debug = 0
zero_rank zero_info = 1
zero_rank zero_warn = 2
zero_rank zero_error = 3
zero_rank zero_fatal = 4
zero_rank zero_panic = 5

abbrev pub zero_enabled : ZerologLevel → ZerologLevel → Bool
zero_enabled minimum level = leb (zero_rank minimum) (zero_rank level)

zero_rank-convert : (level : LogLevel) → zero_rank (convert_to_zerolog_level level) ≡ rank level
unfolding convert_to_zerolog_level
zero_rank-convert debug_level = refl
zero_rank-convert info_level = refl
zero_rank-convert warn_level = refl
zero_rank-convert error_level = refl
zero_rank-convert fatal_level = refl
zero_rank-convert panic_level = refl

zero_enabled-IsOrdered : IsOrdered zero_enabled
zero_enabled-IsOrdered minimum level = rw (zero_rank-convert minimum, zero_rank-convert level) refl

abbrev pub quiet : ZerologLogger
quiet = Zerolog.set_level error_level (new_zerolog_logger info_level [] true terminal)
