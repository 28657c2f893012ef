-- ===== src/Banner.antt =====
-- pkg/banner/banner.go: the text that Print writes at the start of the server.
use boot_backend_go_clean.Common.{ℕ, zero, suc, ◌-◌, Bool, true, false, String, List, [], ◌∷◌, ◌++◌}
use boot_backend_go_clean.Common.Int.{pos}
use boot_backend_go_clean.Common.Lists.{length}
use boot_backend_go_clean.Common.Text.{Text, codes, text_eq}
use boot_backend_go_clean.Common.Decimal.{sprint_int}
pub mod Plain

-- The variables of pkg/version, and what runtime and os report.
pub record Build : Type 0 where
  pub version : Text
  pub git_commit : Text
  pub build_time : Text
  pub go_version : Text
  pub goos : Text
  pub goarch : Text
  pub pid : ℕ

-- "\033[" and the rest of a sequence
abbrev pub escape : String → Text
escape rest = 27 ∷ codes rest

abbrev line : Text → Text
line s = s ++ 10 ∷ []

abbrev logo : Text
logo =
    line []
    ++ line (codes "    ____              __     ____             __                  __")
    ++ line (codes "   / __ )____  ____  / /_   / __ )____ ______/ /_____  ____  ____/ /")
    ++ line (codes "  / __  / __ \\/ __ \\/ __/  / __  / __ '/ ___/ //_/ _ \\/ __ \\/ __  / ")
    ++ line (codes " / /_/ / /_/ / /_/ / /_   / /_/ / /_/ / /__/ ,< /  __/ / / / /_/ /  ")
    ++ line (codes "/_____/\\____/\\____/\\__/  /_____/\\__,_/\\___/_/|_|\\___/_/ /_/\\__,_/   ")

colorize : Text → Text → Bool → Text
colorize code text true = text
colorize code text false = code ++ text ++ escape "[0m"

apply_highlight : Text → Bool → Text
unfolding colorize
apply_highlight s plain = colorize (escape "[33m") s plain

abbrev spaces : ℕ → Text
spaces zero = []
spaces (suc n) = b' ' ∷ spaces n

-- The verb %-14s of a label and its colon, and the value after it.
abbrev row : Text × Text → Text
row (label, value) =
    let name = label ++ codes ":" in
    line (codes "  " ++ name ++ spaces (14 - length name) ++ codes " " ++ value)

abbrev rows : List (Text × Text) → Text
rows [] = []
rows (r ∷ rs) = row r ++ rows rs

abbrev table : Bool → Build → Text → List (Text × Text)
unfolding colorize apply_highlight
table is_prod build environment =
    (
      codes "Author",
      apply_highlight (codes "Kirk Lin") is_prod
          ++ codes " "
          ++ colorize (escape "[90m") (codes "— https://github.com/kirklin") is_prod,
    )
    ∷ (codes "Environment", apply_highlight environment is_prod)
    ∷ (codes "Go Version", apply_highlight build.go_version is_prod)
    ∷ (codes "OS/Arch", apply_highlight (build.goos ++ codes "/" ++ build.goarch) is_prod)
    ∷ (codes "PID", apply_highlight (sprint_int (pos build.pid)) is_prod)
    ∷ (codes "Git Commit", apply_highlight build.git_commit is_prod)
    ∷ (codes "Build Time", apply_highlight build.build_time is_prod)
    ∷ []

-- What the builder holds, with colours or without.
pub banner : Bool → Build → Text → Text
unfolding colorize
banner is_prod build environment =
    colorize (escape "[36m") logo is_prod
    ++ line (
        codes "  "
        ++ colorize (escape "[90m") (codes ":: Boot Backend Go Clean ::") is_prod
        ++ codes "    "
        ++ colorize (escape "[32m") (codes "(v" ++ build.version ++ codes ")") is_prod)
    ++ line []
    ++ rows (table is_prod build environment)
    ++ line []

pub print : Build → Text → Text
unfolding banner
print build environment = banner (text_eq environment (codes "production")) build environment
