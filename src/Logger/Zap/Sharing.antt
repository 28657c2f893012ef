-- ===== src/Logger/Zap/Sharing.antt =====
-- Which loggers of pkg/logger/zap_logger.go a change of the level reaches.
use boot_backend_go_clean.Common.{◌<◌, ◌≡◌, refl, Bool, true, false, Option, none, some, arith}
use boot_backend_go_clean.Common.Text.{Text}
use boot_backend_go_clean.Logger.{
  LogLevel, debug_level, info_level, warn_level, error_level, fatal_level, panic_level, Fields,
}
use boot_backend_go_clean.Logger.Zap.{
  ZapLevel, ZapLogger, Atomics, convert_to_zap_level, level_of, new_zap_logger, set_level,
  get_level, clone, with_fields, with_trace, with_error, with_name, should_log, log,
}

-- `l` is made from `root` by With, WithFields, WithTrace, WithError and WithName.
pub data IsDerived (root : ZapLogger) : ZapLogger → Type 0 where
  same : IsDerived root root
  by_fields :
      (fields : Fields) (l : ZapLogger) → IsDerived root l → IsDerived root (with_fields fields l)
  by_trace : (id : Text) (l : ZapLogger) → IsDerived root l → IsDerived root (with_trace id l)
  by_error : (e : Text) (l : ZapLogger) → IsDerived root l → IsDerived root (with_error e l)
  by_name : (n : Text) (l : ZapLogger) → IsDerived root l → IsDerived root (with_name n l)

derived-cells :
    (root l : ZapLogger) → IsDerived root l → (l.core ≡ root.core) × (l.level ≡ root.level)
unfolding with_fields with_trace with_error with_name
derived-cells root _ same = (refl, refl)
derived-cells root _ (by_fields fields l d) = derived-cells root l d
derived-cells root _ (by_trace id l d) = derived-cells root l d
derived-cells root _ (by_error e l d) = derived-cells root l d
derived-cells root _ (by_name n l d) = derived-cells root l d

level_of-convert_to_zap_level : (level : LogLevel) → level_of (convert_to_zap_level level) ≡ level
unfolding level_of convert_to_zap_level
level_of-convert_to_zap_level debug_level = refl
level_of-convert_to_zap_level info_level = refl
level_of-convert_to_zap_level warn_level = refl
level_of-convert_to_zap_level error_level = refl
level_of-convert_to_zap_level fatal_level = refl
level_of-convert_to_zap_level panic_level = refl

-- What a logger writes.
abbrev pub is_written : Option Fields → Bool
is_written none = false
is_written (some fields) = true

module _ (enabled : ZapLevel → ZapLevel → Bool) where
  -- Setting the level through any logger of a family that New and the With methods have made sets
  -- it for every other: that one reports this level, writes a message exactly where zap enables
  -- its level under the new one, and says so in ShouldLog.
  pub set_level_reaches :
      (first level v : LogLevel) (initial : Fields) (a : Atomics) (l l' : ZapLogger)
      (trace : Option Text) (fields : Fields)
      → IsDerived (new_zap_logger first initial a).0 l
      → IsDerived (new_zap_logger first initial a).0 l'
      → (get_level l' (set_level v l (new_zap_logger first initial a).1) ≡ v)
        × (should_log enabled level l' (set_level v l (new_zap_logger first initial a).1)
            ≡ enabled (convert_to_zap_level v) (convert_to_zap_level level))
        × (is_written
              (log enabled trace level fields l' (set_level v l (new_zap_logger first initial a).1))
            ≡ should_log enabled level l' (set_level v l (new_zap_logger first initial a).1))
  unfolding set_level get_level should_log log new_zap_logger
  set_level_reaches first level v initial a l l' trace fields d d' =
      let (_, at) = derived-cells _ l d in
      let (core', at') = derived-cells _ l' d' in
      (
        ground (arith, at, at', level_of-convert_to_zap_level v),
        ground (arith, at, at'),
        ground (arith, at, at', core'),
      )

  -- Setting the level of a clone changes what the clone reports and not what is written, by the
  -- clone or by any logger that was there before.
  pub clone_keeps_output :
      (l l' : ZapLogger) (v level : LogLevel) (a : Atomics) (trace : Option Text) (fields : Fields)
      → l.core < a.size
      → l'.core < a.size
      → (get_level (clone l a).0 (set_level v (clone l a).0 (clone l a).1) ≡ v)
        × (log enabled trace level fields (clone l a).0 (set_level v (clone l a).0 (clone l a).1)
            ≡ log enabled trace level fields l a)
        × (log enabled trace level fields l' (set_level v (clone l a).0 (clone l a).1)
            ≡ log enabled trace level fields l' a)
  unfolding clone set_level get_level log
  clone_keeps_output l l' v level a trace fields old old' =
      (ground (arith, level_of-convert_to_zap_level v), ground (arith, old), ground (arith, old'))
