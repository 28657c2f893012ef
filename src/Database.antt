-- ===== src/Database.antt =====
-- pkg/database: Config of database.go, and the drivers of mysql/mysql.go and postgres/postgres.go.
-- GORM and database/sql are parameters: `open` is gorm.Open, whose handle is kept beside an error
-- too, `sql_db` is the method DB of a handle, `close` is that of database/sql.
use boot_backend_go_clean.Common.{String, Option, none, some, ◌++◌}
use boot_backend_go_clean.Common.Int.{ℤ, pos, ◌*ℤ◌, wrap64}
use boot_backend_go_clean.Common.Text.{Text, codes}
use boot_backend_go_clean.Common.Decimal.{sprint_int}
use boot_backend_go_clean.Errors.{Error, wrapped}
use boot_backend_go_clean.Effect.{Outcome, ok, err, panic}

-- database.Config
pub record Config : Type 0 where
  pub host : Text
  pub port : ℤ
  pub user : Text
  pub password : Text
  pub db_name : Text
  pub ssl_mode : Text
  pub max_idle_conns : ℤ
  pub max_open_conns : ℤ
  pub conn_max_lifetime_minutes : ℤ

pub data Dialect : Type 0 where
  postgres mysql : Dialect

-- The format strings of the two methods Connect.
unfoldable pub mysql_dsn : Config → Text
unfolding sprint_int
mysql_dsn c =
    c.user
    ++ (codes ":"
        ++ (c.password
            ++ (codes "@tcp("
                ++ (c.host
                    ++ (codes ":"
                        ++ (sprint_int c.port
                            ++ (codes ")/"
                                ++ (c.db_name
                                    ++ codes "?charset=utf8mb4&parseTime=True&loc=UTC"))))))))

unfoldable pub postgres_dsn : Config → Text
unfolding sprint_int
postgres_dsn c =
    codes "host="
    ++ (c.host
        ++ (codes " user="
            ++ (c.user
                ++ (codes " password="
                    ++ (c.password
                        ++ (codes " dbname="
                            ++ (c.db_name
                                ++ (codes " port="
                                    ++ (sprint_int c.port
                                        ++ (codes " sslmode="
                                            ++ (c.ssl_mode ++ codes " TimeZone=UTC")))))))))))

abbrev pub dsn : Dialect → Config → Text
unfolding postgres_dsn mysql_dsn
dsn postgres c = postgres_dsn c
dsn mysql c = mysql_dsn c

-- SetMaxIdleConns, SetMaxOpenConns and SetConnMaxLifetime, the last in nanoseconds
pub record Pool : Type 0 where
  pub max_idle : ℤ
  pub max_open : ℤ
  pub max_lifetime : ℤ

-- PostgresDB, MySQLDB; the pool is that of the connection.
pub record Driver (G : Type 0) : Type 0 where
  pub dialect : Dialect
  pub db : Option G
  pub pool : Option Pool

-- NewPostgresDB, NewMySQLDB
abbrev pub new_driver : {G : Type 0} → Dialect → Driver G
new_driver dialect = record { dialect = dialect; db = none; pool = none }

abbrev pub minute : ℤ
minute = pos 60000000000

abbrev nil_pointer : String
nil_pointer = "invalid memory address or nil pointer dereference"

module _ {G : Type 0} (sql_db : G → Option Error) where
  abbrev pub pooled : Config → Option Error → Driver G → Outcome (Unit {0}) × Driver G
  pooled c (some e) d = (err (wrapped "failed to get database instance for pooling config" e), d)
  pooled c none d = (
    ok tt,
    record d {
      pool = some (record {
        max_idle = c.max_idle_conns;
        max_open = c.max_open_conns;
        max_lifetime = wrap64 (c.conn_max_lifetime_minutes *ℤ minute);
      });
    },
  )

  -- m.db.DB(), where m.db is set.
  abbrev pub with_db : Config → Option G → Driver G → Outcome (Unit {0}) × Driver G
  with_db c none d = (panic nil_pointer, d)
  with_db c (some g) d = pooled c (sql_db g) d

  abbrev pub opened : Config → Option G × Option Error → Driver G → Outcome (Unit {0}) × Driver G
  opened c (g, some e) d = (err (wrapped "failed to connect to database" e), record d { db = g })
  opened c (g, none) d = with_db c g (record d { db = g })

  -- Connect
  unfoldable pub connect :
      (Dialect → Text → Option G × Option Error) → Config → Driver G → Outcome (Unit {0}) × Driver G
  unfolding postgres_dsn mysql_dsn
  connect open_db c d = opened c (open_db d.dialect (dsn d.dialect c)) d

module _ {G : Type 0} (sql_db : G → Option Error) (close_db : G → Option Error) where
  abbrev closed : G → Option Error → Outcome (Unit {0})
  closed g (some e) = err (wrapped "failed to get database instance" e)
  closed g none = elim (close_db g) [ none ↦ ok tt | some e ↦ err e ]

  -- Close
  unfoldable pub close : Driver G → Outcome (Unit {0})
  close d = elim d.db [ none ↦ panic nil_pointer | some g ↦ closed g (sql_db g) ]
