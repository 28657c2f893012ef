-- ===== src/Config/Required.antt =====
-- What Validate of pkg/configs/config.go asks of a configuration.
use boot_backend_go_clean.Common.{
  String, ◌≡◌, ◌≢◌, ◌↔◌, refl, ap, sym, ◌∙◌, Bool, true, not, none, List, [], ◌∷◌, ◌++◌, arith,
  if◌then◌else◌, Bool-cases, inl, inr,
}
use boot_backend_go_clean.Common.Int.{ℤ, pos, eqb_ℤ, eqb_ℤ_iff}
use boot_backend_go_clean.Common.Text.{Text}
use boot_backend_go_clean.Validation.{trim_space, is_empty}
use boot_backend_go_clean.Config.{AppConfig, require_str, require_int, reported, missing, validate}

-- A variable of the environment that has to be there, with its value.
pub data Requirement : Type 0 where
  text : String → Text → Requirement
  number : String → ℤ → Requirement

-- The required variables, in the order of .env.example.
abbrev pub requirements : AppConfig → List Requirement
requirements c =
    text "APP_ENVIRONMENT" c.environment
    ∷ number "SERVER_PORT" c.server_port
    ∷ text "DB_TYPE" c.db_type
    ∷ text "DB_HOST" c.db_host
    ∷ number "DB_PORT" c.db_port
    ∷ text "DB_USER" c.db_user
    ∷ text "DB_PASSWORD" c.db_password
    ∷ text "DB_NAME" c.db_name
    ∷ number "DB_MAX_IDLE_CONNS" c.db_max_idle_conns
    ∷ number "DB_MAX_OPEN_CONNS" c.db_max_open_conns
    ∷ number "DB_CONN_MAX_LIFETIME_MINUTES" c.db_conn_max_lifetime_minutes
    ∷ text "ACCESS_TOKEN_SECRET" c.access_token_secret
    ∷ text "REFRESH_TOKEN_SECRET" c.refresh_token_secret
    ∷ text "JWT_ISSUER" c.jwt_issuer
    ∷ number "ACCESS_TOKEN_LIFETIME_HOURS" c.access_token_lifetime
    ∷ number "REFRESH_TOKEN_LIFETIME_HOURS" c.refresh_token_lifetime
    ∷ []

-- More than white space, and not 0.
abbrev pub IsMet : Requirement → Type 0
IsMet (text name val) = trim_space val ≢ []
IsMet (number name val) = val ≢ pos 0

abbrev is_met : Requirement → Bool
is_met (text name val) = not (is_empty (trim_space val))
is_met (number name val) = not (eqb_ℤ val (pos 0))

abbrev name_of : Requirement → String
name_of (text name val) = name
name_of (number name val) = name

unfoldable pub AllMet : List Requirement → Type 0
AllMet [] = Unit
AllMet (r ∷ rs) = IsMet r × AllMet rs

-- The names of the requirements that are not met.
unfoldable pub unmet : List Requirement → List String
unmet [] = []
unmet (r ∷ rs) = let rest = unmet rs in if is_met r then rest else name_of r ∷ rest

require : Requirement → List String → List String
unfolding require_str require_int
require (text name val) errs = require_str val name errs
require (number name val) errs = require_int val name errs

run : List Requirement → List String → List String
unfolding require
run [] errs = errs
run (r ∷ rs) errs = run rs (require r errs)

++-assoc : (xs ys zs : List String) → (xs ++ ys) ++ zs ≡ xs ++ (ys ++ zs)
++-assoc [] ys zs = refl
++-assoc (x ∷ xs) ys zs = ap (λ (l : List String). x ∷ l) (++-assoc xs ys zs)

++-nil : (xs : List String) → xs ++ [] ≡ xs
++-nil [] = refl
++-nil (x ∷ xs) = ap (λ (l : List String). x ∷ l) (++-nil xs)

require_lem :
    (r : Requirement) (errs : List String)
    → require r errs ≡ errs ++ (if is_met r then [] else name_of r ∷ [])
unfolding require require_str require_int
require_lem (text name val) errs = ground (arith, ++-nil errs)
require_lem (number name val) errs = ground (arith, ++-nil errs)

run_lem : (rs : List Requirement) (errs : List String) → run rs errs ≡ errs ++ unmet rs
unfolding run unmet
run_lem [] errs = sym (++-nil errs)
run_lem (r ∷ rs) errs =
    run_lem rs (require r errs)
    ∙ ap (λ (l : List String). l ++ unmet rs) (require_lem r errs)
    ∙ elim (Bool-cases (is_met r)) [
      | inl met ↦ rw (met) (ap (λ (l : List String). l ++ unmet rs) (++-nil errs))
      | inr unset ↦ rw (unset) (++-assoc errs (name_of r ∷ []) (unmet rs))
    ]

not-is_empty_iff : (s : Text) → (not (is_empty s) ≡ true) ↔ (s ≢ [])
not-is_empty_iff [] = (λ h. cc h, λ h. absurd (h refl))
not-is_empty_iff (c ∷ s) = (λ h. λ e. cc e, λ h. refl)

is_met_iff : (r : Requirement) → (is_met r ≡ true) ↔ IsMet r
is_met_iff (text name val) = not-is_empty_iff (trim_space val)
is_met_iff (number name val) = ground (arith, eqb_ℤ_iff val (pos 0))

unmet_iff : (rs : List Requirement) → (unmet rs ≡ []) ↔ AllMet rs
unfolding unmet AllMet
unmet_iff [] = (λ h. tt, λ h. refl)
unmet_iff (r ∷ rs) = elim (Bool-cases (is_met r)) [
  | inl met ↦ rw (met) (λ h. ((is_met_iff r).0 met, (unmet_iff rs).0 h), λ h. (unmet_iff rs).1 h.1)
  | inr unset ↦ rw (unset) (λ h. cc h, λ h. cc ((is_met_iff r).1 h.0, unset))
]

reported_iff : (errs : List String) → (reported errs ≡ none) ↔ (errs ≡ [])
reported_iff [] = (λ h. refl, λ h. refl)
reported_iff (name ∷ names) = (λ h. cc h, λ h. cc h)

missing_lem : (c : AppConfig) → missing c ≡ unmet (requirements c)
unfolding missing run require
missing_lem c = run_lem (requirements c) []

-- Validate names exactly the required variables that are not set, in the order of its tests, and
-- reports no error exactly where all are set: the texts are more than white space, the numbers are
-- not 0.
pub missing_iff :
    (c : AppConfig)
    → (missing c ≡ unmet (requirements c)) × ((validate c ≡ none) ↔ AllMet (requirements c))
unfolding validate
missing_iff c = (
  missing_lem c,
  rw (missing_lem c) (
    λ h. (unmet_iff (requirements c)).0 ((reported_iff _).0 h),
    λ h. (reported_iff _).1 ((unmet_iff (requirements c)).1 h),
  ),
)
