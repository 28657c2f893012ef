-- ===== src/Server/Application.antt =====
-- NewApplication and Initialize of internal/app/server/app.go, the composition of the components,
-- and main of cmd/main.go.
pub mod Composition
use boot_backend_go_clean.Common.{
  ℕ, String, Bool, true, false, Option, none, some, List, [], ◌∷◌, if◌then◌else◌,
}
use boot_backend_go_clean.Common.Int.{ℤ, pos, negsuc, ltb_ℤ, pos_part}
use boot_backend_go_clean.Common.Text.{Text, codes, text_eq}
use boot_backend_go_clean.Errors.{Error}
use boot_backend_go_clean.Effect.{Outcome, ok, err, panic}
use boot_backend_go_clean.Config.{AppConfig, load_config}
use boot_backend_go_clean.Snowflake.{Settings, NodeSettings, Global, init_node}
use boot_backend_go_clean.Database
use boot_backend_go_clean.Database.{Dialect, postgres, mysql, Driver, new_driver, minute, connect}
use boot_backend_go_clean.Blacklist.{TokenBlacklist, new_token_blacklist}
use boot_backend_go_clean.Jwt.{JwtAuthenticator}
use boot_backend_go_clean.AuthUseCase.{hours}
use boot_backend_go_clean.RateLimit.{RateLimiter, new_rate_limiter}

-- NewApplication: the configuration, and whether gin is in release mode; `loaded` is the result of
-- LoadConfig.
unfoldable pub new_application : Outcome AppConfig → Outcome (AppConfig × Bool)
unfolding text_eq
new_application (ok config) = ok (config, text_eq config.environment (codes "production"))
new_application (err e) = err e
new_application (panic m) = panic m

-- What Initialize has built.
pub record Components (G : Type 0) : Type 0 where
  pub db : Driver G
  pub token_blacklist : TokenBlacklist
  pub authenticator : JwtAuthenticator
  -- the field RefreshTokenLifetime that the use case reads
  pub refresh_token_lifetime : ℤ
  pub limiter : Option RateLimiter

-- Initialize returns, or a call of Fatalf ends the process with this message.
pub data Startup (A : Type 0) : Type 0 where
  started : A → Startup A
  exited : String → Startup A
  crashed : String → Startup A

-- The switch on DBType.
unfoldable pub dialect_of : Text → Option Dialect
unfolding text_eq
dialect_of db_type =
    if text_eq db_type (codes "postgres")
    then some postgres
    else if text_eq db_type (codes "mysql")
    then some mysql
    else none

abbrev pub snowflake_settings : AppConfig → Settings
snowflake_settings c = record {
  epoch = c.snowflake_epoch;
  machine_bits = c.snowflake_machine_bits;
  step_bits = c.snowflake_step_bits;
}

abbrev pub db_config : AppConfig → Database.Config
db_config c = record {
  host = c.db_host;
  port = c.db_port;
  user = c.db_user;
  password = c.db_password;
  db_name = c.db_name;
  ssl_mode = c.db_ssl_mode;
  max_idle_conns = c.db_max_idle_conns;
  max_open_conns = c.db_max_open_conns;
  conn_max_lifetime_minutes = c.db_conn_max_lifetime_minutes;
}

-- The limiter of Router.Setup.
unfoldable pub setup_limiter : AppConfig → Option RateLimiter
unfolding new_rate_limiter
setup_limiter c =
    if ltb_ℤ (pos 0) c.rate_limit_per_minute
    then some (new_rate_limiter (pos_part c.rate_limit_per_minute) minute)
    else none

-- The composition root.
unfoldable pub compose : {G : Type 0} → AppConfig → Driver G → Components G
unfolding setup_limiter new_token_blacklist hours
compose c db = record {
  db = db;
  token_blacklist = new_token_blacklist;
  authenticator = record {
    access_secret = c.access_token_secret;
    refresh_secret = c.refresh_token_secret;
    issuer = c.jwt_issuer;
    access_expiration = hours c.access_token_lifetime;
    refresh_expiration = hours c.refresh_token_lifetime;
  };
  refresh_token_lifetime = c.refresh_token_lifetime;
  limiter = setup_limiter c;
}

module _ {G : Type 0} (auto_migrate : G → Option Error) where
  -- AutoMigrate, which is called on the handle of the driver.
  abbrev migrated : AppConfig → Driver G → Option G → Startup (Components G)
  unfolding compose
  migrated c d none = crashed "invalid memory address or nil pointer dereference"
  migrated c d (some g) = elim (auto_migrate g) [
    | none ↦ started (compose c d)
    | some e ↦ exited "failed to auto migrate"
  ]

  abbrev connected : AppConfig → Outcome (Unit {0}) × Driver G → Startup (Components G)
  unfolding compose
  connected c (ok u, d) = migrated c d d.db
  connected c (err e, d) = exited "failed to connect to database"
  connected c (panic m, d) = crashed m

module _ {G : Type 0} (open_db : Dialect → Text → Option G × Option Error)
    (sql_db : G → Option Error) (auto_migrate : G → Option Error) where
  abbrev with_dialect : AppConfig → Option Dialect → Startup (Components G)
  unfolding connect compose
  with_dialect c none = exited "unsupported database type"
  with_dialect c (some dialect) =
      connected auto_migrate c (connect sql_db open_db (db_config c) (new_driver dialect))

  abbrev with_node : AppConfig → Option Error → Startup (Components G)
  unfolding connect compose dialect_of
  with_node c (some e) = exited "failed to init snowflake node"
  with_node c none = with_dialect c (dialect_of c.db_type)

module _ {N G : Type 0} (parse_time : Text → Option ℤ)
    (new_node : NodeSettings → Option N × Option Error)
    (open_db : Dialect → Text → Option G × Option Error) (sql_db : G → Option Error)
    (auto_migrate : G → Option Error) where
  -- Initialize
  unfoldable pub initialize : AppConfig → Global N → Startup (Components G) × Global N
  unfolding connect compose dialect_of init_node
  initialize c g =
      let (failure, g') = init_node parse_time new_node (snowflake_settings c) g in
      (with_node open_db sql_db auto_migrate c failure, g')

-- How the process ends: a panic, os.Exit(1), or the return of main after log.Sync.
pub data Exit : Type 0 where
  panicked exit_1 synced : Exit

-- main: what InitLogger, NewApplication and Initialize give, and then what Run returns.
unfoldable pub main : {L A C : Type 0} → Outcome L → Outcome A → Startup C → Option Error → Exit
main (ok l) (ok a) (started c) none = synced
main (ok l) (ok a) (started c) (some e) = exit_1
main (ok l) (ok a) (exited m) run = exit_1
main (ok l) (ok a) (crashed m) run = panicked
main (ok l) (err e) init run = exit_1
main (ok l) (panic m) init run = panicked
main (err e) app init run = panicked
main (panic m) app init run = panicked
