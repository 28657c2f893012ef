-- ===== src/Validation.antt =====
-- `User.Validate` of internal/domain/entity/user.go, and the functions of the standard library that
-- it calls: `strings.TrimSpace`, `strings.ToLower` and the regular expression of an address.
pub mod Email
pub mod Laws
pub mod Trim
use boot_backend_go_clean.Common.{
  ℕ, ◌+◌, Bool, true, false, ◌&&◌, ◌||◌, Option, none, some, List, [], ◌∷◌, map, ltb, leb, ◌==◌,
  not, if◌then◌else◌,
}
use mathlib.Core.List.{reverse}
use boot_backend_go_clean.Common.Lists.{length, all}
use boot_backend_go_clean.Common.Text.{Text, byte_length}
use boot_backend_go_clean.Errors.{Error, text_error}
use boot_backend_go_clean.Entity.{User}

-- unicode.IsSpace
unfoldable pub is_space : ℕ → Bool
is_space c =
    leb 9 c && leb c 13
    || c == 0x20
    || c == 0x85
    || c == 0xa0
    || c == 0x1680
    || leb 0x2000 c && leb c 0x200a
    || c == 0x2028
    || c == 0x2029
    || c == 0x202f
    || c == 0x205f
    || c == 0x3000

skip_spaces : Text → Text
skip_spaces [] = []
skip_spaces (c ∷ s) = if is_space c then skip_spaces s else c ∷ s

-- strings.TrimSpace
unfoldable pub trim_space : Text → Text
unfolding skip_spaces is_space
trim_space s = reverse (skip_spaces (reverse (skip_spaces s)))

-- unicode.ToLower on ASCII and on the code points beyond it that the class of the regular
-- expression takes in after the change: İ and the Kelvin sign. Another code point beyond ASCII
-- has a lower case beyond ASCII, and is refused by the expression in either form.
to_lower_rune : ℕ → ℕ
to_lower_rune c =
    if leb b'A' c && leb c b'Z'
    then c + 32
    else if c == 0x130
    then b'i'
    else if c == 0x212a
    then b'k'
    else c

-- strings.ToLower
unfoldable pub to_lower : Text → Text
unfolding to_lower_rune
to_lower s = map to_lower_rune s

-- [a-z] under the flag (?i): the letters, and the two code points that fold to `s` and `k`.
unfoldable pub is_letter : ℕ → Bool
is_letter c = leb b'a' c && leb c b'z' || leb b'A' c && leb c b'Z' || c == 0x17f || c == 0x212a

unfoldable pub is_digit : ℕ → Bool
is_digit c = leb b'0' c && leb c b'9'

-- [a-z0-9._%+\-]
unfoldable pub is_local : ℕ → Bool
unfolding is_letter is_digit
is_local c =
    is_letter c || is_digit c || c == b'.' || c == b'_' || c == b'%' || c == b'+' || c == b'-'

-- [a-z0-9.\-]
unfoldable pub is_domain : ℕ → Bool
unfolding is_letter is_digit
is_domain c = is_letter c || is_digit c || c == b'.' || c == b'-'

-- [a-z]{2,63}$
is_tld : Text → Bool
unfolding is_letter
is_tld s = all is_letter s && leb 2 (length s) && leb (length s) 63

-- `class+ separator rest$`, where `seen` tells whether a character of the class has been read.
-- Every separator is tried, as a search for a match would.
matches_from : (ℕ → Bool) → ℕ → (Text → Bool) → Bool → Text → Bool
matches_from class separator rest seen [] = false
matches_from class separator rest seen (c ∷ s) =
    seen && c == separator && rest s || class c && matches_from class separator rest true s

-- isValidEmail: (?i)^[a-z0-9._%+\-]+@[a-z0-9.\-]+\.[a-z]{2,63}$
unfoldable pub is_valid_email : Text → Bool
unfolding matches_from is_local is_domain is_tld
is_valid_email email =
    matches_from is_local b'@' (matches_from is_domain b'.' is_tld false) false email

abbrev pub is_empty : Text → Bool
is_empty [] = true
is_empty (c ∷ s) = false

-- strings.ToLower(strings.TrimSpace(email))
unfoldable pub normalize_email : Text → Text
unfolding trim_space to_lower
normalize_email email = to_lower (trim_space email)

-- Validate: the user it leaves behind, with the address normalised, and the error.
unfoldable pub validate : User → User × Option Error
validate u =
    if is_empty u.username
    then (u, some (text_error "username cannot be empty"))
    else if is_empty u.email
    then (u, some (text_error "email cannot be empty"))
    else let u' = record u { email = normalize_email u.email } in
      if not (is_valid_email u'.email)
      then (u', some (text_error "invalid email format"))
      else if ltb (byte_length u'.password) 8
      then (u', some (text_error "password must be at least 8 characters long"))
      else if ltb 72 (byte_length u'.password)
      then (u', some (text_error "password must not exceed 72 bytes"))
      else (u', none)
