-- ===== src/Logger/Calls.antt =====
-- What the three back ends of pkg/logger make of the same call.
use boot_backend_go_clean.Common.{
  ◌≡◌, refl, Bool, String, Option, none, some, [], ◌∷◌, arith, if◌then◌else◌,
}
use boot_backend_go_clean.Common.Text.{Text}
use mathlib.Core.List.{append-nil}
use text.Mathlib.Text.{◌==◌ as str_eq}
use boot_backend_go_clean.Logger.{LogLevel, debug_level, Fields, Args, Ending, promised, Entry}
use boot_backend_go_clean.Logger.FieldMap.{
  field, put, merge, IsMap, or_else, field-put, field-merge,
}
use boot_backend_go_clean.Logger.Zap
use boot_backend_go_clean.Logger.Zap.{ZapLevel, ZapLogger, Atomics, convert_to_zap_level}
use boot_backend_go_clean.Logger.Zap.Methods as ZapMethods
use boot_backend_go_clean.Logger.Slog
use boot_backend_go_clean.Logger.Slog.{SlogLogger}
use boot_backend_go_clean.Logger.Slog.Methods as SlogMethods
use boot_backend_go_clean.Logger.Zerolog
use boot_backend_go_clean.Logger.Zerolog.{ZerologLevel, ZerologLogger, convert_to_zerolog_level}
use boot_backend_go_clean.Logger.Zerolog.Methods as ZerologMethods

-- The fields of an entry.
abbrev pub fields_of : {L : Type 0} → Option (Entry L) → Option Fields
fields_of none = none
fields_of (some e) = some e.fields

abbrev pub message_of : Option ZerologMethods.Message → Option (Entry ZerologLevel)
message_of none = none
message_of (some m) = some m.0

module _ (sprintf : Text → Args → Text) (msg : Text) (args : Args) where
  zap_call :
      (enabled : ZapLevel → ZapLevel → Bool) (sweeten : Args → Fields) (after : ZapLevel → Ending)
      (level : LogLevel) (l : ZapLogger) (a : Atomics)
      → ((level : LogLevel) → after (convert_to_zap_level level) ≡ promised level)
      → ((ZapMethods.say enabled sweeten sprintf after level msg args l a).1 ≡ promised level)
        × (fields_of (ZapMethods.say enabled sweeten sprintf after level msg args l a).0
            ≡ Zap.log enabled none level (sweeten args) l a)
  unfolding ZapMethods.say Zap.log
  zap_call enabled sweeten after debug_level l a h =
      (h debug_level, ground (arith, append-nil (sweeten args)))
  zap_call enabled sweeten after level l a h = (h level, ground (arith, append-nil (sweeten args)))

  slog_call :
      (to_attrs : Args → Fields) (level : LogLevel) (l : SlogLogger)
      → ((SlogMethods.say to_attrs sprintf level msg args l).1 ≡ promised level)
        × (fields_of (SlogMethods.say to_attrs sprintf level msg args l).0
            ≡ Slog.log level (to_attrs args) l)
  unfolding SlogMethods.say Slog.log
  slog_call to_attrs debug_level l = (refl, ground arith)
  slog_call to_attrs level l = (refl, ground arith)

  zerolog_call :
      (enabled : ZerologLevel → ZerologLevel → Bool) (after : ZerologLevel → Ending)
      (level : LogLevel) (l : ZerologLogger)
      → ((level : LogLevel) → after (convert_to_zerolog_level level) ≡ promised level)
      → ((ZerologMethods.say enabled sprintf after level msg args l).1 ≡ promised level)
        × (fields_of (message_of (ZerologMethods.say enabled sprintf after level msg args l).0)
            ≡ Zerolog.log enabled level [] l)
  unfolding ZerologMethods.say Zerolog.log
  zerolog_call enabled after debug_level l h = (h debug_level, ground (arith, append-nil l.fields))
  zerolog_call enabled after level l h = (h level, ground (arith, append-nil l.fields))

  -- If zap and zerolog end a call as their documentation says, then each of the three back ends
  -- ends a call of Debug, Info, Warn, Error, Fatal or Panic as the interface promises, whether
  -- the message is written or not, and writes it exactly where its Log writes one of that level.
  -- zap and slog write the arguments as fields; zerolog writes none, since it takes them for
  -- those of a format.
  pub say_lem :
      (enabled : ZapLevel → ZapLevel → Bool) (sweeten : Args → Fields) (after : ZapLevel → Ending)
      (to_attrs : Args → Fields) (enabled' : ZerologLevel → ZerologLevel → Bool)
      (after' : ZerologLevel → Ending) (level : LogLevel) (zap : ZapLogger) (a : Atomics)
      (slog : SlogLogger) (zerolog : ZerologLogger)
      → ((level : LogLevel) → after (convert_to_zap_level level) ≡ promised level)
      → ((level : LogLevel) → after' (convert_to_zerolog_level level) ≡ promised level)
      → ((ZapMethods.say enabled sweeten sprintf after level msg args zap a).1 ≡ promised level)
        × (fields_of (ZapMethods.say enabled sweeten sprintf after level msg args zap a).0
            ≡ Zap.log enabled none level (sweeten args) zap a)
        × ((SlogMethods.say to_attrs sprintf level msg args slog).1 ≡ promised level)
        × (fields_of (SlogMethods.say to_attrs sprintf level msg args slog).0
            ≡ Slog.log level (to_attrs args) slog)
        × ((ZerologMethods.say enabled' sprintf after' level msg args zerolog).1 ≡ promised level)
        × (fields_of
              (message_of (ZerologMethods.say enabled' sprintf after' level msg args zerolog).0)
            ≡ Zerolog.log enabled' level [] zerolog)
  say_lem enabled sweeten after to_attrs enabled' after' level zap a slog zerolog h h' =
      let z = zap_call enabled sweeten after level zap a h in
      let s = slog_call to_attrs level slog in
      let r = zerolog_call enabled' after' level zerolog h' in (z.0, z.1, s.0, s.1, r.0, r.1)

-- The fields that the three LogWithDuration hand to Log.
abbrev pub overridden : Text → Fields → Fields
overridden duration fields = put "duration" duration fields

abbrev pub overriding : Text → Fields → Fields
overriding duration fields = merge (("duration", duration) ∷ []) fields

-- LogWithDuration writes, on each back end, the entry of Log for the fields of the call and one
-- more, the duration, and where the call has a field "duration" itself, zap replaces it in the
-- map of the caller, while slog and zerolog keep it and drop the duration; every other field is
-- that of the call.
pub log_with_duration_lem :
    (enabled : ZapLevel → ZapLevel → Bool) (enabled' : ZerologLevel → ZerologLevel → Bool)
    (level : LogLevel) (duration : Text) (fields : Fields) (zap : ZapLogger) (a : Atomics)
    (slog : SlogLogger) (zerolog : ZerologLogger) (key : String)
    → IsMap fields
    → (ZapMethods.log_with_duration enabled level duration (some fields) zap a ≡ (
      Zap.log enabled none level (overridden duration fields) zap a,
      some (overridden duration fields),
    ))
      × (SlogMethods.log_with_duration level duration fields slog
          ≡ Slog.log level (overriding duration fields) slog)
      × (ZerologMethods.log_with_duration enabled' level duration fields zerolog
          ≡ Zerolog.log enabled' level (overriding duration fields) zerolog)
      × (field key (overridden duration fields)
          ≡ (if str_eq "duration" key then some duration else field key fields))
      × (field key (overriding duration fields)
          ≡ or_else (field key fields) (if str_eq "duration" key then some duration else none))
unfolding ZapMethods.log_with_duration SlogMethods.log_with_duration
    ZerologMethods.log_with_duration
log_with_duration_lem enabled enabled' level duration fields zap a slog zerolog key h = (
  refl,
  refl,
  refl,
  field-put key "duration" duration fields,
  unfold field in field-merge key (("duration", duration) ∷ []) fields h,
)
