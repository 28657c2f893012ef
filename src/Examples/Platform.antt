-- ===== src/Examples/Platform.antt =====
-- The configuration and the generator of identifiers at concrete inputs.
use boot_backend_go_clean.Common.{ℕ, ◌≡◌, refl, Option, none, some, [], ◌∷◌}
use boot_backend_go_clean.Common.Int.{ℤ, pos}
use boot_backend_go_clean.Common.Text.{Text, codes}
use boot_backend_go_clean.Errors.{Error, text_error}
use boot_backend_go_clean.Effect.{Outcome, ok, panic}
use boot_backend_go_clean.Config.{AppConfig}
use boot_backend_go_clean.Snowflake.{Settings, NodeSettings, fresh, init_node, next_id}
use boot_backend_go_clean.Snowflake.Once.{retry, init_node_fails_for_good}

abbrev pub env : AppConfig
env = record {
  environment = codes "production";
  server_port = pos 8080;
  request_timeout = pos 30;
  rate_limit_per_minute = pos 60;
  db_type = codes "postgres";
  db_host = codes "db";
  db_port = pos 5432;
  db_user = codes "boot";
  db_password = codes " ";
  db_name = codes "boot";
  db_ssl_mode = codes "disable";
  db_max_idle_conns = pos 5;
  db_max_open_conns = pos 10;
  db_conn_max_lifetime_minutes = pos 5;
  access_token_lifetime = pos 1;
  refresh_token_lifetime = pos 24;
  access_token_secret = codes "access";
  refresh_token_secret = codes "refresh";
  jwt_issuer = codes "boot";
  snowflake_epoch = [];
  snowflake_machine_bits = pos 10;
  snowflake_step_bits = pos 12;
}

-- No time is ever read.
abbrev no_time : Text → Option ℤ
no_time text = none

abbrev counting : NodeSettings → Option ℕ × Option Error
counting st = (some 0, none)

abbrev count_on : ℕ → Outcome ℤ × ℕ
count_on n = (ok (pos n), n)

abbrev bad : Settings
bad = record { epoch = codes "yesterday"; machine_bits = pos 10; step_bits = pos 12 }

abbrev good : Settings
good = record bad { epoch = [] }

counting-none :
    (st : NodeSettings) (n : Option ℕ) (e : Error) → counting st ≡ (n, some e) → n ≡ none
counting-none st n e h = cc h

init_node_fails_for_good_example :
    ((init_node no_time counting good
        (retry no_time counting (good ∷ []) (init_node no_time counting bad fresh).1)).0
      ≡ none)
    × ((next_id count_on
          (retry no_time counting (good ∷ []) (init_node no_time counting bad fresh).1)).0
        ≡ panic "snowflake node not initialized")
unfolding init_node
init_node_fails_for_good_example =
    init_node_fails_for_good no_time counting count_on counting-none bad
      (text_error "failed to parse snowflake epoch") refl (good ∷ []) good
