-- ===== src/Http/Number.antt =====
-- `strconv.ParseInt(s, 10, 64)` of Go's standard library, which the controllers and
-- internal/interfaces/http/utils/param_extractor.go call on a path parameter.
use boot_backend_go_clean.Common.{
  ℕ, ◌+◌, ◌-◌, ◌*◌, ◌^◌, ◌&&◌, Option, none, some, [], ◌∷◌, ltb, leb, ◌==◌, if◌then◌else◌,
}
use boot_backend_go_clean.Common.Int.{ℤ, pos, sub_ℕ}
use boot_backend_go_clean.Common.Text.{Text}
use boot_backend_go_clean.Errors.{Error, text_error}
use boot_backend_go_clean.Effect.{Outcome, ok, err}

-- The value of a text of decimal digits, after those that gave `n`.
digits : ℕ → Text → Option ℕ
digits n [] = some n
digits n (c ∷ s) =
    let rest = digits (n * 10 + (c - b'0')) s in if leb b'0' c && leb c b'9' then rest else none

abbrev syntax_error : Error
syntax_error = text_error "invalid syntax"

abbrev range_error : Error
range_error = text_error "value out of range"

-- At least one digit.
unsigned : Text → Option ℕ
unfolding digits
unsigned [] = none
unsigned (c ∷ s) = digits 0 (c ∷ s)

abbrev positive : Option ℕ → Outcome ℤ
positive none = err syntax_error
positive (some n) = if ltb n (2 ^ 63) then ok (pos n) else err range_error

abbrev negative : Option ℕ → Outcome ℤ
negative none = err syntax_error
negative (some n) = if leb n (2 ^ 63) then ok (sub_ℕ 0 n) else err range_error

-- strconv.ParseInt(s, 10, 64)
unfoldable pub parse_int : Text → Outcome ℤ
unfolding unsigned
parse_int [] = err syntax_error
parse_int (c ∷ s) =
    if c == b'-'
    then negative (unsigned s)
    else if c == b'+'
    then positive (unsigned s)
    else positive (unsigned (c ∷ s))

-- GetTargetUserIDFromParam; the identifier that comes with an error is not used
unfoldable pub get_target_user_id_from_param : Text → Outcome ℤ
unfolding parse_int
get_target_user_id_from_param id = parse_int id
