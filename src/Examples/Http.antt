-- ===== src/Examples/Http.antt =====
-- Middlewares, replies and errors at concrete inputs.
use boot_backend_go_clean.Common.{
  ℕ, ◌+◌, ◌≡◌, refl, ◌⊎◌, true, false, Option, none, some, List, [], ◌∷◌, ◌↔◌, arith,
}
use boot_backend_go_clean.Common.Int.{ℤ, pos, negsuc, ◌+ℤ◌}
use boot_backend_go_clean.Common.Text.{Text, codes}
use boot_backend_go_clean.Errors.{
  Error, app, sentinel, err_internal, err_not_found, err_conflict, with_message, fail,
}
use boot_backend_go_clean.Errors.Chain.{
  Layer, copy, prefixed, below, variable, errors_is, errors_is_iff,
}
use boot_backend_go_clean.Effect.{Outcome, ok, pure}
use boot_backend_go_clean.Repository.{Authenticator}
use boot_backend_go_clean.Http.{GinContext}
use boot_backend_go_clean.Http.Number.{parse_int, get_target_user_id_from_param}
use boot_backend_go_clean.Middleware.Self.{IsStopped, IsSelf, jwt_auth-ensure_self}
use boot_backend_go_clean.GoMap.{lookup}
use boot_backend_go_clean.Http.{Handler}
use boot_backend_go_clean.Route.{Handlers}
use boot_backend_go_clean.RateLimit.{RateLimiter, new_rate_limiter, admit}
use boot_backend_go_clean.RateLimit.Consistency.{
  IsConsistent, new_rate_limiter-IsConsistent, admit-IsConsistent,
}
use boot_backend_go_clean.RateLimit.Window.{
  IsWithin, Event, request, sweep, passed, asked, smaller, passed_lem,
}
use boot_backend_go_clean.Infra.{InfraController, is_cached, new_infra_controller, peek, refresh}
use boot_backend_go_clean.Infra.Probe.{probes, AllBefore, probes_lem}

abbrev pub incoming : GinContext
incoming = record {
  authorization = codes "Bearer token";
  request_id_header = [];
  id_param = codes "7";
  client_ip = codes "10.0.0.1";
  user_id = none;
  username = none;
  request_id = none;
  errors = [];
  replies = [];
  headers = [];
  aborted = false;
}

-- An authenticator that accepts every access token as one of the user 7.
abbrev pub trusting : Authenticator Unit
trusting = record {
  generate_token_pair =
      λ user. pure (record { access_token = []; refresh_token = []; expires_at = pos 0 });
  validate_access_token = λ token. pure (
    record { user_id = pos 7; username = codes "alice" },
    record { issued_at = pos 0; expires_at = pos 0; issuer = [] },
  );
  validate_refresh_token = λ token.
      pure
        (record { user_id = pos 7 }, record { issued_at = pos 0; expires_at = pos 0; issuer = [] });
  blacklist_token = λ token duration. pure tt;
  is_token_blacklisted = λ token. pure false;
}

abbrev by_id : GinContext → Outcome ℤ
by_id c = get_target_user_id_from_param c.id_param

jwt_auth-ensure_self_example :
    IsStopped trusting by_id incoming tt (λ c. pure c)
    ⊎ IsSelf trusting by_id incoming tt (λ c. pure c)
jwt_auth-ensure_self_example = jwt_auth-ensure_self trusting by_id incoming tt (λ c. pure c)

abbrev pub limiter : RateLimiter
limiter = new_rate_limiter 2 (pos 60)

abbrev home : Text
home = codes "10.0.0.1"

abbrev traffic : List Event
traffic =
    request (pos 5) (pos 5) home
    ∷ request (pos 6) (pos 6) (codes "10.0.0.2")
    ∷ sweep (pos 7)
    ∷ request (pos 60) (pos 60) home
    ∷ []

passed_lem_example :
    passed home (request (pos 0) (pos 0) home ∷ traffic) limiter
    ≡ smaller (asked home (request (pos 0) (pos 0) home ∷ traffic)) limiter.limit
unfolding new_rate_limiter lookup IsWithin ◌+ℤ◌
passed_lem_example =
    passed_lem home (pos 0) (pos 0) traffic limiter (omega arith)
      (new_rate_limiter-IsConsistent 2 (pos 60)) refl (refl, (refl, (refl, (refl, tt))))

admit-IsConsistent_example : IsConsistent (admit (pos 0) (pos 0) home limiter).1
unfolding new_rate_limiter
admit-IsConsistent_example =
    admit-IsConsistent (pos 0) (pos 0) home limiter (omega arith)
      (new_rate_limiter-IsConsistent 2 (pos 60))

abbrev layers : List Layer
layers = prefixed "query" ∷ copy (sentinel err_conflict) ∷ prefixed "find" ∷ []

errors_is_iff_example :
    ((errors_is (below layers (fail err_internal)) (variable err_not_found) ≡ true)
      ↔ (err_internal ≡ err_not_found))
    × (errors_is
          (below layers (app (with_message (sentinel err_internal) "down")))
          (variable err_not_found)
        ≡ false)
errors_is_iff_example = errors_is_iff err_internal err_not_found layers "down"

-- A database that counts how often it is asked.
abbrev ping : ℕ → Option Error × ℕ
ping n = (none, n + 1)

abbrev infra : InfraController
infra = new_infra_controller true

probes_lem_example :
    ((probes ping ((pos 10, pos 11) ∷ (pos 12, pos 13) ∷ []) (infra, 0)).1 ≡ 1)
    × (peek (pos 20) (probes ping ((pos 10, pos 11) ∷ (pos 12, pos 13) ∷ []) (infra, 0)).0
        ≡ some (refresh ping (pos 10) (pos 11) (infra, 0)).0)
unfolding new_infra_controller is_cached AllBefore
probes_lem_example =
    probes_lem ping (pos 10) (pos 11) ((pos 12, pos 13) ∷ []) infra 0 (pos 20) refl (refl, tt) refl

abbrev passing : Handler Unit
passing c = pure c

abbrev pub handlers : Handlers Unit
handlers = record {
  register = passing;
  login = passing;
  refresh_token = passing;
  logout = passing;
  get_user = passing;
  get_current_user = passing;
  update_user = passing;
  welcome = passing;
  metrics = passing;
  live = passing;
  ready = passing;
  pprof = passing;
}

abbrev pub anonymous : GinContext
anonymous = record incoming { authorization = [] }

parses : parse_int (codes "-9223372036854775808") ≡ ok (negsuc 9223372036854775807)
unfolding parse_int
parses = refl
