-- ===== src/Server/Messages.antt =====
-- The type ginLogWriter of internal/app/server/app.go: gin's messages go to the logger of the
-- application.
use boot_backend_go_clean.Common.{
  ℕ, ◌≡◌, Bool, true, false, not, ◌&&◌, List, [], ◌∷◌, ◌++◌, refl, arith, if◌then◌else◌,
}
use boot_backend_go_clean.Common.Text.{Text, codes, byte_length, has_prefix, trim_prefix}
use boot_backend_go_clean.Effect.{Action, ok}
use boot_backend_go_clean.Validation.{is_space, trim_space}
use boot_backend_go_clean.Validation.Trim.{trim_space-line}
use boot_backend_go_clean.Logger.{LogLevel, debug_level, info_level, warn_level, error_level}

-- A call of the logger's Log with the background context and no fields.
pub record Call : Type 0 where
  pub level : LogLevel
  pub message : Text

abbrev warning_prefix : Text
warning_prefix = codes "[GIN-debug] [WARNING]"

abbrev error_prefix : Text
error_prefix = codes "[GIN-debug] [ERROR]"

abbrev debug_prefix : Text
debug_prefix = codes "[GIN-debug]"

-- The branches of Write, for the trimmed message.
unfoldable pub parse_level : Text → Call
unfolding has_prefix trim_prefix
parse_level message =
    if has_prefix message warning_prefix
    then record { level = warn_level; message = trim_prefix message (warning_prefix ++ codes " ") }
    else if has_prefix message error_prefix
    then record { level = error_level; message = trim_prefix message (error_prefix ++ codes " ") }
    else if has_prefix message debug_prefix
    then record { level = debug_level; message = trim_prefix message (debug_prefix ++ codes " ") }
    else record { level = info_level; message = message }

-- Write: the number of bytes, and the calls made so far, the last one first.
unfoldable pub write : Text → Action (List Call) ℕ
unfolding parse_level trim_space byte_length
write p calls = (ok (byte_length p), parse_level (trim_space p) ∷ calls)

-- The forms of a line that gin prints: a warning, an error, another debug message, or a text of its
-- own.
pub data Kind : Type 0 where
  warning failure debug plain : Kind

abbrev pub lead : Kind → Text
lead warning = codes "[GIN-debug] [WARNING] "
lead failure = codes "[GIN-debug] [ERROR] "
lead debug = codes "[GIN-debug] "
lead plain = []

abbrev pub level_of : Kind → LogLevel
level_of warning = warn_level
level_of failure = error_level
level_of debug = debug_level
level_of plain = info_level

-- The message does not look like one of another kind.
abbrev pub is_distinct : Kind → Text → Bool
is_distinct debug m = not (has_prefix m (codes "[WARNING]")) && not (has_prefix m (codes "[ERROR]"))
is_distinct plain m = not (has_prefix m debug_prefix)
is_distinct _ m = true

has_prefix-append : (m p q : Text) → has_prefix m p ≡ false → has_prefix m (p ++ q) ≡ false
unfolding has_prefix
has_prefix-append m [] q h = cc
has_prefix-append [] (b ∷ p) q h = refl
has_prefix-append (a ∷ m) (b ∷ p) q h = ground (arith, has_prefix-append m p q)

parse_level-lead :
    (k : Kind) (m : Text)
    → is_distinct k m ≡ true
    → parse_level (lead k ++ m) ≡ record { level = level_of k; message = m }
unfolding parse_level
parse_level-lead warning m h = refl
parse_level-lead failure m h = refl
parse_level-lead debug m h = ground arith
parse_level-lead plain m h =
    let own : has_prefix m debug_prefix ≡ false = ground arith in
    rw (
      has_prefix-append m debug_prefix (codes " [WARNING]") own,
      has_prefix-append m debug_prefix (codes " [ERROR]") own,
      own,
    )

-- The first character of a line is no space where that of its message is none.
trim_space-lead :
    (k : Kind) (b c : ℕ) (s t : Text)
    → is_space b ≡ false
    → is_space c ≡ false
    → t ++ c ∷ [] ≡ b ∷ s
    → trim_space ((lead k ++ (t ++ c ∷ [])) ++ 10 ∷ []) ≡ lead k ++ (t ++ c ∷ [])
unfolding is_space
trim_space-lead warning b c s t first last e =
    trim_space-line b'[' c _ (lead warning ++ t) refl last refl
trim_space-lead failure b c s t first last e =
    trim_space-line b'[' c _ (lead failure ++ t) refl last refl
trim_space-lead debug b c s t first last e =
    trim_space-line b'[' c _ (lead debug ++ t) refl last refl
trim_space-lead plain b c s t first last e = trim_space-line b c s t first last e

-- A line that gin prints, a lead-in and a message that neither begins nor ends with a space and
-- does not look like one of another kind, with a line feed, becomes one call of the logger at the
-- level that the lead-in names, with exactly the message, and Write reports that all its bytes
-- are written.
pub write_lem :
    (k : Kind) (b c : ℕ) (s t : Text) (calls : List Call)
    → is_space b ≡ false
    → is_space c ≡ false
    → t ++ c ∷ [] ≡ b ∷ s
    → is_distinct k (t ++ c ∷ []) ≡ true
    → write ((lead k ++ (t ++ c ∷ [])) ++ 10 ∷ []) calls ≡ (
      ok (byte_length ((lead k ++ (t ++ c ∷ [])) ++ 10 ∷ [])),
      record { level = level_of k; message = t ++ c ∷ [] } ∷ calls,
    )
unfolding write
write_lem k b c s t calls first last e d =
    rw (trim_space-lead k b c s t first last e, parse_level-lead k (t ++ c ∷ []) d)
