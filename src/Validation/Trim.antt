-- ===== src/Validation/Trim.antt =====
-- strings.TrimSpace on a line: a text that neither begins nor ends with a space, and a line feed.
use boot_backend_go_clean.Common.{ℕ, ◌≡◌, false, [], ◌∷◌, ◌++◌}
use mathlib.Core.List.{reverse, reverse-append, reverse-reverse}
use boot_backend_go_clean.Common.Text.{Text}
use boot_backend_go_clean.Validation.{is_space, skip_spaces, trim_space}

skip_spaces-cons : (c : ℕ) (s : Text) → is_space c ≡ false → skip_spaces (c ∷ s) ≡ c ∷ s
unfolding skip_spaces
skip_spaces-cons c s h = rw h

skip_spaces-reverse :
    (c : ℕ) (t : Text)
    → is_space c ≡ false
    → skip_spaces (reverse ((t ++ c ∷ []) ++ 10 ∷ [])) ≡ reverse (t ++ c ∷ [])
unfolding skip_spaces is_space
skip_spaces-reverse c t last =
    rw (reverse-append (t ++ c ∷ []) (10 ∷ []), reverse-append t (c ∷ []))
      (skip_spaces-cons c (reverse t) last)

skip_spaces-first :
    (b : ℕ) (s w l : Text) → w ≡ b ∷ s → is_space b ≡ false → skip_spaces (w ++ l) ≡ w ++ l
skip_spaces-first b s w l e first = rw e (skip_spaces-cons b (s ++ l) first)

pub trim_space-line :
    (b c : ℕ) (s t : Text)
    → is_space b ≡ false
    → is_space c ≡ false
    → t ++ c ∷ [] ≡ b ∷ s
    → trim_space ((t ++ c ∷ []) ++ 10 ∷ []) ≡ t ++ c ∷ []
unfolding trim_space
trim_space-line b c s t first last e =
    rw (skip_spaces-first b s (t ++ c ∷ []) (10 ∷ []) e first, skip_spaces-reverse c t last)
      (reverse-reverse (t ++ c ∷ []))
