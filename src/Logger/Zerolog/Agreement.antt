-- ===== src/Logger/Zerolog/Agreement.antt =====
-- ShouldLog against Log of pkg/logger/zerolog_logger.go.
use boot_backend_go_clean.Common.{◌≡◌, refl, Bool, List, none, some, ◌++◌, if◌then◌else◌}
use boot_backend_go_clean.Logger.Config.{Writer}
use boot_backend_go_clean.Logger.{LogLevel, Fields, at_least}
use boot_backend_go_clean.Logger.Zerolog.{
  ZerologLevel, ZerologLogger, convert_to_zerolog_level, new_zerolog_logger, set_level, should_log,
  with_fields, clone, log,
}

-- A logger after calls of SetLevel, Clone and the With methods.
pub data IsReached : ZerologLogger → Type 0 where
  made :
      (level : LogLevel) (fields : Fields) (stack : Bool) (writers : List Writer)
      → IsReached (new_zerolog_logger level fields stack writers)
  by_level : (v : LogLevel) (l : ZerologLogger) → IsReached l → IsReached (set_level v l)
  by_fields : (fields : Fields) (l : ZerologLogger) → IsReached l → IsReached (with_fields fields l)
  by_clone : (l : ZerologLogger) → IsReached l → IsReached (clone l)

reached-minimum : (l : ZerologLogger) → IsReached l → l.minimum ≡ convert_to_zerolog_level l.level
unfolding new_zerolog_logger set_level with_fields clone
reached-minimum _ (made level fields stack writers) = refl
reached-minimum _ (by_level v l r) = refl
reached-minimum _ (by_fields fields l r) = reached-minimum l r
reached-minimum _ (by_clone l r) = reached-minimum l r

-- zerolog's order on the levels that the code uses, as it documents it.
abbrev pub IsOrdered : (ZerologLevel → ZerologLevel → Bool) → Type 0
IsOrdered enabled =
    (minimum level : LogLevel)
    → enabled (convert_to_zerolog_level minimum) (convert_to_zerolog_level level)
      ≡ at_least minimum level

-- If zerolog orders its levels as it documents, every logger that calls of SetLevel, Clone and
-- the With methods can reach writes a message, with its own fields first, exactly where ShouldLog
-- allows its level.
pub log_lem :
    (enabled : ZerologLevel → ZerologLevel → Bool) (level : LogLevel) (fields : Fields)
    (l : ZerologLogger)
    → IsOrdered enabled
    → IsReached l
    → log enabled level fields l ≡ (if should_log level l then some (l.fields ++ fields) else none)
unfolding log should_log
log_lem enabled level fields l ordered r = rw (reached-minimum l r, ordered l.level level) refl
