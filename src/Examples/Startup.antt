-- ===== src/Examples/Startup.antt =====
-- The start of the application at a concrete configuration.
use boot_backend_go_clean.Common.{◌≡◌, refl, true, false, Option, none, some}
use boot_backend_go_clean.Common.Int.{ℤ, pos}
use boot_backend_go_clean.Common.Text.{Text, codes}
use boot_backend_go_clean.Common.Decimal.{sprint_int}
use boot_backend_go_clean.Errors.{Error}
use boot_backend_go_clean.Snowflake.{NodeSettings}
use boot_backend_go_clean.Database.{Dialect, postgres, postgres_dsn}
use boot_backend_go_clean.Server.Application.{Components, db_config, compose}
use boot_backend_go_clean.Server.Application.Composition.{pool_of}
use boot_backend_go_clean.Banner.{Build, banner, print}
use boot_backend_go_clean.Banner.Plain.{is_plain, strip, IsPlainBuild, print_lem}
use boot_backend_go_clean.Examples.Platform.{env}

abbrev no_time : Text → Option ℤ
no_time epoch = none

-- A node is its settings, a handle is its data source name.
abbrev settled : NodeSettings → Option NodeSettings × Option Error
settled settings = (some settings, none)

abbrev opens : Dialect → Text → Option Text × Option Error
opens dialect name = (some name, none)

abbrev succeeds : Text → Option Error
succeeds handle = none

abbrev app : Components Text
unfolding compose postgres_dsn sprint_int
app = compose env (record {
  dialect = postgres;
  db = some (postgres_dsn (db_config env));
  pool = some (pool_of env);
})

-- The address and the data source name of the example.
port_text : sprint_int (pos 5432) ≡ codes "5432"
unfolding sprint_int
port_text = refl

abbrev build : Build
build = record {
  version = codes "1.2.3";
  git_commit = codes "fd16c1f";
  build_time = codes "unknown";
  go_version = codes "go1.24";
  goos = codes "linux";
  goarch = codes "amd64";
  pid = 4711;
}

build-IsPlainBuild : IsPlainBuild build
unfolding is_plain
build-IsPlainBuild = record {
  version = refl;
  git_commit = refl;
  build_time = refl;
  go_version = refl;
  goos = refl;
  goarch = refl;
}

plain_environment : is_plain (codes "development") ≡ true
unfolding is_plain
plain_environment = refl

print_lem_example :
    (strip false (print build (codes "development")) ≡ banner true build (codes "development"))
    × (is_plain (print build (codes "production")) ≡ true)
    × (print build (codes "production") ≡ banner true build (codes "production"))
print_lem_example = print_lem build (codes "development") build-IsPlainBuild plain_environment
