-- ===== src/Route.antt =====
-- internal/interfaces/http/route: which middlewares each group of routes puts before its handlers.
-- Matching a path is left to gin; the handlers are those of the controllers with the result of
-- binding the body filled in.
pub mod Protection
use boot_backend_go_clean.Common.{Bool, true, false, String, List, [], ◌∷◌, ◌++◌, if◌then◌else◌}
use boot_backend_go_clean.Repository.{Authenticator}
use boot_backend_go_clean.Http.{GinContext, Handler}
use boot_backend_go_clean.Http.Number.{get_target_user_id_from_param}
use boot_backend_go_clean.Middleware.{jwt_auth_middleware, ensure_self_middleware}

-- The routes of auth_route.go, user_route.go and infra_route.go.
pub data AuthRoute : Type 0 where
  post_register post_login post_refresh post_logout : AuthRoute

pub data UserRoute : Type 0 where
  get_user_by_id get_current_user put_user : UserRoute

pub data InfraRoute : Type 0 where
  get_welcome get_metrics get_pprof get_health get_live get_ready : InfraRoute

pub data Endpoint : Type 0 where
  infra : InfraRoute → Endpoint
  auth : AuthRoute → Endpoint
  users : UserRoute → Endpoint

-- The handlers of the controllers, of promhttp and of pprof.
pub record Handlers (S : Type 0) : Type 0 where
  pub register : Handler S
  pub login : Handler S
  pub refresh_token : Handler S
  pub logout : Handler S
  pub get_user : Handler S
  pub get_current_user : Handler S
  pub update_user : Handler S
  pub welcome : Handler S
  pub metrics : Handler S
  pub live : Handler S
  pub ready : Handler S
  pub pprof : Handler S

-- The routes that registerInfraRoutes registers; `production` is r.config.Environment ==
-- "production".
unfoldable pub infra_routes : Bool → List InfraRoute
infra_routes production =
    get_welcome
    ∷ get_metrics
    ∷ ((if production then [] else get_pprof ∷ []) ++ get_health ∷ get_live ∷ get_ready ∷ [])

module _ {S : Type 0} (authenticator : Authenticator S) (h : Handlers S) where
  -- registerAuthRoutes
  unfoldable pub register_auth_routes : AuthRoute → Handler S
  unfolding jwt_auth_middleware
  register_auth_routes post_register = h.register
  register_auth_routes post_login = h.login
  register_auth_routes post_refresh = h.refresh_token
  register_auth_routes post_logout = jwt_auth_middleware authenticator h.logout

  -- registerUserRoutes: the group's middleware, then what the route puts before its handler
  unfoldable pub register_user_routes : UserRoute → Handler S
  unfolding jwt_auth_middleware ensure_self_middleware get_target_user_id_from_param
  register_user_routes get_user_by_id = jwt_auth_middleware authenticator h.get_user
  register_user_routes get_current_user = jwt_auth_middleware authenticator h.get_current_user
  register_user_routes put_user =
      jwt_auth_middleware authenticator
        (ensure_self_middleware (λ c. get_target_user_id_from_param c.id_param) h.update_user)

  -- registerInfraRoutes
  unfoldable pub register_infra_routes : InfraRoute → Handler S
  register_infra_routes get_welcome = h.welcome
  register_infra_routes get_metrics = h.metrics
  register_infra_routes get_pprof = h.pprof
  register_infra_routes get_health = h.live
  register_infra_routes get_live = h.live
  register_infra_routes get_ready = h.ready

  -- Setup, after the global middlewares
  unfoldable pub chain : Endpoint → Handler S
  unfolding register_infra_routes register_auth_routes register_user_routes
  chain (infra route) = register_infra_routes route
  chain (auth route) = register_auth_routes route
  chain (users route) = register_user_routes route
