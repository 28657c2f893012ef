-- ===== src/Config.antt =====
-- pkg/configs/config.go: AppConfig, Validate, ServerAddress, and LoadConfig on the result of viper.
pub mod Required
use boot_backend_go_clean.Common.{
  String, Bool, true, false, Option, none, some, List, [], ◌∷◌, ◌++◌, if◌then◌else◌,
}
use boot_backend_go_clean.Common.Int.{ℤ, pos, eqb_ℤ}
use boot_backend_go_clean.Common.Text.{Text}
use boot_backend_go_clean.Common.Decimal.{sprint_int}
use boot_backend_go_clean.Errors.{text_error, wrapped}
use boot_backend_go_clean.Effect.{Outcome, ok, err, panic}
use boot_backend_go_clean.Validation.{trim_space, is_empty}

pub record AppConfig : Type 0 where
  pub environment : Text
  pub server_port : ℤ
  pub request_timeout : ℤ
  pub rate_limit_per_minute : ℤ
  pub db_type : Text
  pub db_host : Text
  pub db_port : ℤ
  pub db_user : Text
  pub db_password : Text
  pub db_name : Text
  pub db_ssl_mode : Text
  pub db_max_idle_conns : ℤ
  pub db_max_open_conns : ℤ
  pub db_conn_max_lifetime_minutes : ℤ
  pub access_token_lifetime : ℤ
  pub refresh_token_lifetime : ℤ
  pub access_token_secret : Text
  pub refresh_token_secret : Text
  pub jwt_issuer : Text
  pub snowflake_epoch : Text
  pub snowflake_machine_bits : ℤ
  pub snowflake_step_bits : ℤ

-- requireStr, requireInt: the names of the fields that are missing, in the order of the tests
unfoldable pub require_str : Text → String → List String → List String
unfolding trim_space
require_str val name errs = if is_empty (trim_space val) then errs ++ name ∷ [] else errs

unfoldable pub require_int : ℤ → String → List String → List String
require_int val name errs = if eqb_ℤ val (pos 0) then errs ++ name ∷ [] else errs

-- The names in the error of Validate, none where it returns nil.
unfoldable pub missing : AppConfig → List String
unfolding require_str require_int
missing c =
    let errs = require_str c.environment "APP_ENVIRONMENT" [] in
    let errs = require_int c.server_port "SERVER_PORT" errs in
    let errs = require_str c.db_type "DB_TYPE" errs in
    let errs = require_str c.db_host "DB_HOST" errs in
    let errs = require_int c.db_port "DB_PORT" errs in
    let errs = require_str c.db_user "DB_USER" errs in
    let errs = require_str c.db_password "DB_PASSWORD" errs in
    let errs = require_str c.db_name "DB_NAME" errs in
    let errs = require_int c.db_max_idle_conns "DB_MAX_IDLE_CONNS" errs in
    let errs = require_int c.db_max_open_conns "DB_MAX_OPEN_CONNS" errs in
    let errs = require_int c.db_conn_max_lifetime_minutes "DB_CONN_MAX_LIFETIME_MINUTES" errs in
    let errs = require_str c.access_token_secret "ACCESS_TOKEN_SECRET" errs in
    let errs = require_str c.refresh_token_secret "REFRESH_TOKEN_SECRET" errs in
    let errs = require_str c.jwt_issuer "JWT_ISSUER" errs in
    let errs = require_int c.access_token_lifetime "ACCESS_TOKEN_LIFETIME_HOURS" errs in
    require_int c.refresh_token_lifetime "REFRESH_TOKEN_LIFETIME_HOURS" errs

-- Validate
abbrev pub reported : List String → Option (List String)
reported [] = none
reported (name ∷ names) = some (name ∷ names)

unfoldable pub validate : AppConfig → Option (List String)
validate c = reported (missing c)

-- ServerAddress
unfoldable pub server_address : AppConfig → Text
unfolding sprint_int
server_address c = b':' ∷ sprint_int c.server_port

-- LoadConfig, after viper.Unmarshal; the text of the error names the missing fields
abbrev validated : AppConfig → Option (List String) → Outcome AppConfig
validated c none = ok c
validated c (some names) = err (text_error "configuration validation failed")

abbrev parsed : Outcome AppConfig → Outcome AppConfig
unfolding validate
parsed (ok c) = validated c (validate c)
parsed (err e) = err (wrapped "failed to parse configuration" e)
parsed (panic m) = panic m

unfoldable pub load_config : Outcome AppConfig → Outcome AppConfig
unfolding validate
load_config unmarshalled = parsed unmarshalled
