-- ===== src/Banner/Plain.antt =====
-- Colours in the banner of pkg/banner/banner.go: what a terminal shows, and what a log is given.
use boot_backend_go_clean.Common.{
  ◌==◌, if◌then◌else◌, ℕ, zero, suc, ◌+◌, ◌-◌, ◌/◌, ◌%◌, ◌≡◌, refl, ap, ◌∙◌, sym, Bool, true, false,
  not, ◌&&◌, ◌||◌, [], ◌∷◌, ◌++◌, arith,
}
use boot_backend_go_clean.Common.Int.{pos}
use boot_backend_go_clean.Common.Lists.{length}
use boot_backend_go_clean.Common.Text.{Text, codes, text_eq}
use boot_backend_go_clean.Common.Decimal.{digits_before, sprint_int}
use boot_backend_go_clean.Banner.{
  Build, escape, line, logo, colorize, apply_highlight, spaces, row, rows, table, banner, print,
}

-- No escape character.
unfoldable pub is_plain : Text → Bool
is_plain [] = true
is_plain (c ∷ s) = not (c == 27) && is_plain s

-- The text without its ANSI sequences, each of which ends with its first `m`; `inside` says whether
-- the text starts within one.
pub strip : Bool → Text → Text
strip inside [] = []
strip inside (c ∷ s) =
    let hidden = inside || (c == 27) in
    let rest = strip (hidden && not (c == b'm')) s in if hidden then rest else c ∷ rest

++-assoc : (a b c : Text) → (a ++ b) ++ c ≡ a ++ (b ++ c)
++-assoc [] b c = refl
++-assoc (x ∷ a) b c = ap (λ (s : Text). x ∷ s) (++-assoc a b c)

plain-++ : (s t : Text) → is_plain s ≡ true → is_plain t ≡ true → is_plain (s ++ t) ≡ true
unfolding is_plain
plain-++ [] t p q = q
plain-++ (c ∷ s) t p q = ground (arith, plain-++ s t)

strip-plain : (s t : Text) → is_plain s ≡ true → strip false (s ++ t) ≡ s ++ strip false t
unfolding is_plain strip
strip-plain [] t p = refl
strip-plain (c ∷ s) t p = ground (arith, strip-plain s t)

digits-plain :
    (fuel n : ℕ) (s : Text) → is_plain s ≡ true → is_plain (digits_before fuel n s) ≡ true
unfolding is_plain digits_before
digits-plain zero n s p = p
digits-plain (suc fuel) n s p = ground (arith, digits-plain fuel (n / 10) ((n % 10 + b'0') ∷ s))

-- A text that a terminal shows as `t`, in which nothing is escaped.
record Shows (s t : Text) : Type 0 where
  plain : is_plain t ≡ true
  strips : (rest : Text) → strip false (s ++ rest) ≡ t ++ strip false rest

itself : (s : Text) → is_plain s ≡ true → Shows s s
itself s p = record { plain = p; strips = λ rest. strip-plain s rest p }

infixl 5 ◌⧺◌
◌⧺◌ : {s t s' t' : Text} → Shows s t → Shows s' t' → Shows (s ++ s') (t ++ t')
◌⧺◌ {s} {t} {s'} {t'} h h' = record {
  plain = plain-++ t t' h.plain h'.plain;
  strips = λ rest.
      ap (strip false) (++-assoc s s' rest)
      ∙ (h.strips (s' ++ rest)
          ∙ (ap (λ (r : Text). t ++ r) (h'.strips rest) ∙ sym (++-assoc t t' (strip false rest))));
}

line-Shows : {s t : Text} → Shows s t → Shows (line s) (line t)
unfolding is_plain
line-Shows h = h ⧺ itself (10 ∷ []) refl

-- A sequence that a terminal does not show.
IsHidden : Text → Type 0
IsHidden code = (rest : Text) → strip false (code ++ rest) ≡ strip false rest

colorize-Shows :
    (code text : Text) (is_prod : Bool)
    → IsHidden code
    → is_plain text ≡ true
    → Shows (colorize code text is_prod) (colorize code text true)
unfolding colorize IsHidden strip
colorize-Shows code text true hidden p = itself text p
colorize-Shows code text false hidden p = record {
  plain = p;
  strips = λ rest.
      ap (strip false)
        (++-assoc (code ++ text) (escape "[0m") rest ∙ ++-assoc code text (escape "[0m" ++ rest))
      ∙ (hidden (text ++ (escape "[0m" ++ rest)) ∙ strip-plain text (escape "[0m" ++ rest) p);
}

highlight-Shows :
    (text : Text) (is_prod : Bool)
    → is_plain text ≡ true
    → Shows (apply_highlight text is_prod) (apply_highlight text true)
unfolding apply_highlight IsHidden strip
highlight-Shows text is_prod p = colorize-Shows (escape "[33m") text is_prod (λ rest. refl) p

row-Shows :
    (label value value' : Text)
    → is_plain label ≡ true
    → Shows value value'
    → Shows (row (label, value)) (row (label, value'))
unfolding is_plain
row-Shows label value value' p h =
    let name = label ++ codes ":" in
    line-Shows (
      itself (codes "  ") refl
      ⧺ itself name (plain-++ label (codes ":") p refl)
      ⧺ itself (spaces (14 - length name)) (spaces-plain (14 - length name))
      ⧺ itself (codes " ") refl
      ⧺ h)
  where
    spaces-plain : (n : ℕ) → is_plain (spaces n) ≡ true
    spaces-plain zero = refl
    spaces-plain (suc n) = spaces-plain n

-- What the banner is given holds no escape character.
pub record IsPlainBuild (build : Build) : Type 0 where
  pub version : is_plain build.version ≡ true
  pub git_commit : is_plain build.git_commit ≡ true
  pub build_time : is_plain build.build_time ≡ true
  pub go_version : is_plain build.go_version ≡ true
  pub goos : is_plain build.goos ≡ true
  pub goarch : is_plain build.goarch ≡ true

module _ (build : Build) (environment : Text) (is_prod : Bool) (h : IsPlainBuild build)
    (p : is_plain environment ≡ true) where
  -- Each row, the first one apart, is a highlighted text.
  value-Shows :
      (label text : Text)
      → is_plain label ≡ true
      → is_plain text ≡ true
      → Shows (row (label, apply_highlight text is_prod)) (row (label, apply_highlight text true))
  value-Shows label text q r =
      row-Shows label (apply_highlight text is_prod) (apply_highlight text true) q
        (highlight-Shows text is_prod r)

  author-Shows :
      Shows
        (apply_highlight (codes "Kirk Lin") is_prod
          ++ codes " "
          ++ colorize (escape "[90m") (codes "— https://github.com/kirklin") is_prod)
        (apply_highlight (codes "Kirk Lin") true
          ++ codes " "
          ++ colorize (escape "[90m") (codes "— https://github.com/kirklin") true)
  unfolding is_plain IsHidden strip
  author-Shows =
      highlight-Shows (codes "Kirk Lin") is_prod refl
      ⧺ itself (codes " ") refl
      ⧺ colorize-Shows (escape "[90m") (codes "— https://github.com/kirklin") is_prod (λ rest. refl)
          refl

  rows-Shows : Shows (rows (table is_prod build environment)) (rows (table true build environment))
  unfolding is_plain table sprint_int
  rows-Shows = ◌⧺◌ (row-Shows (codes "Author") _ _ refl author-Shows) (
      ◌⧺◌ (value-Shows (codes "Environment") environment refl p) (
        ◌⧺◌ (value-Shows (codes "Go Version") build.go_version refl h.go_version) (
          ◌⧺◌
            (value-Shows (codes "OS/Arch") (build.goos ++ codes "/" ++ build.goarch) refl (
              plain-++ (build.goos ++ codes "/") build.goarch
                (plain-++ build.goos (codes "/") h.goos refl) h.goarch))
            (◌⧺◌
              (value-Shows (codes "PID") (sprint_int (pos build.pid)) refl
                (digits-plain 20 build.pid [] refl))
              (◌⧺◌ (value-Shows (codes "Git Commit") build.git_commit refl h.git_commit) (
                ◌⧺◌ (value-Shows (codes "Build Time") build.build_time refl h.build_time)
                  (itself [] refl)))))))

  banner-Shows : Shows (banner is_prod build environment) (banner true build environment)
  unfolding banner is_plain IsHidden strip
  banner-Shows =
      colorize-Shows (escape "[36m") logo is_prod (λ rest. refl) refl
      ⧺ line-Shows (
          itself (codes "  ") refl
          ⧺ colorize-Shows (escape "[90m") (codes ":: Boot Backend Go Clean ::") is_prod
              (λ rest. refl) refl
          ⧺ itself (codes "    ") refl
          ⧺ colorize-Shows (escape "[32m") (codes "(v" ++ build.version ++ codes ")") is_prod
              (λ rest. refl) (plain-++ build.version (codes ")") h.version refl))
      ⧺ line-Shows (itself [] refl)
      ⧺ rows-Shows
      ⧺ line-Shows (itself [] refl)

++-[] : (s : Text) → s ++ [] ≡ s
++-[] [] = refl
++-[] (c ∷ s) = ap (λ (t : Text). c ∷ t) (++-[] s)

-- Let the build variables and the environment hold no escape character. Then what Print writes in
-- any environment is, once its ANSI sequences are removed, the banner without colours; and in
-- production it writes that banner itself, with no escape character.
pub print_lem :
    (build : Build) (environment : Text)
    → IsPlainBuild build
    → is_plain environment ≡ true
    → (strip false (print build environment) ≡ banner true build environment)
      × (is_plain (print build (codes "production")) ≡ true)
      × (print build (codes "production") ≡ banner true build (codes "production"))
unfolding print text_eq strip is_plain
print_lem build environment h p =
    let is_prod = text_eq environment (codes "production") in
    (
      ap (strip false) (sym (++-[] (banner is_prod build environment)))
          ∙ ((banner-Shows build environment is_prod h p).strips []
              ∙ ++-[] (banner true build environment)),
      (banner-Shows build (codes "production") true h refl).plain,
      refl,
    )
