-- ===== src/Server/Application/Composition.antt =====
-- When Initialize returns, and with which components.
use boot_backend_go_clean.Common.{◌≡◌, Option, none, some}
use boot_backend_go_clean.Common.Int.{◌*ℤ◌, wrap64}
use boot_backend_go_clean.Common.Text.{Text}
use boot_backend_go_clean.Errors.{Error}
use boot_backend_go_clean.Config.{AppConfig}
use boot_backend_go_clean.Database
use boot_backend_go_clean.Database.{Dialect, Driver, Pool, minute, with_db}
use boot_backend_go_clean.Server.Application.{Components, compose}

abbrev pub pool_of : AppConfig → Pool
pool_of c = record {
  max_idle = c.db_max_idle_conns;
  max_open = c.db_max_open_conns;
  max_lifetime = wrap64 (c.db_conn_max_lifetime_minutes *ℤ minute);
}

module _ {G : Type 0} (open_db : Dialect → Text → Option G × Option Error)
    (sql_db : G → Option Error) (auto_migrate : G → Option Error) (c : AppConfig)
    (k : Components G) where
  -- The components stand on a connection that is open, pooled as configured, and migrated.
  abbrev pub IsReady : Driver G → Type 0
  IsReady d =
      (handle : G) × (d.db ≡ some handle)
      × (d.pool ≡ some (pool_of c))
      × (auto_migrate handle ≡ none)
      × (k ≡ compose c d)
