-- ===== src/Route/Protection.antt =====
-- Which routes of internal/interfaces/http/route answer a request without a valid token.
use boot_backend_go_clean.Common.{
  ◌≡◌, refl, Bool, true, false, Option, none, some, String, inl, inr, Bool-cases,
}
use boot_backend_go_clean.Common.Text.{Text}
use boot_backend_go_clean.Errors.{Error}
use boot_backend_go_clean.Effect.{Outcome, ok, err}
use boot_backend_go_clean.Repository.{Authenticator}
use boot_backend_go_clean.Validation.{is_empty}
use boot_backend_go_clean.Http.{GinContext, Handler, abort_with}
use boot_backend_go_clean.Http.Number.{get_target_user_id_from_param}
use boot_backend_go_clean.Middleware.{bearer_token, jwt_auth_middleware, ensure_self_middleware}
use boot_backend_go_clean.Route.{
  post_logout, get_user_by_id, get_current_user, put_user, Endpoint, infra, auth, users, Handlers,
  register_auth_routes, register_user_routes, chain,
}

-- The routes that need a token.
abbrev pub is_protected : Endpoint → Bool
is_protected (infra route) = false
is_protected (auth post_logout) = true
is_protected (auth _) = false
is_protected (users route) = true

module _ {S : Type 0} (authenticator : Authenticator S) (c : GinContext) (s : S) where
  -- The request carries no token, or one that the authenticator refuses.
  pub data IsUnauthenticated : Type 0 where
    without_header : is_empty c.authorization ≡ true → IsUnauthenticated
    malformed : bearer_token c.authorization ≡ none → IsUnauthenticated
    refused :
        (token : Text) (e : Error)
        → bearer_token c.authorization ≡ some token
        → (authenticator.validate_access_token token s).0 ≡ err e
        → IsUnauthenticated

  IsRefusal : Outcome GinContext × S → Type 0
  IsRefusal r = (message : String) × (e : Option Error) × (r.0 ≡ ok (abort_with 401 message e c))

  unauthenticated-stops :
      (next : Handler S)
      → IsUnauthenticated
      → IsRefusal (jwt_auth_middleware authenticator next c s)
  unfolding jwt_auth_middleware IsRefusal
  unauthenticated-stops next u = elim (Bool-cases (is_empty c.authorization)) [
    | inl absent ↦ ("Authorization header is required", none, rw (absent) refl)
    | inr present ↦ stopped next present u
  ]
    where
      stopped :
          (next : Handler S)
          → is_empty c.authorization ≡ false
          → IsUnauthenticated
          → IsRefusal (jwt_auth_middleware authenticator next c s)
      stopped next present (without_header absent) = cc
      stopped next present (malformed h) =
          ("Invalid authorization header format", none, rw (present, h) refl)
      stopped next present (refused token e h k) =
          ("Invalid or expired token", some e, rw (present, h, k) refl)

  -- Whatever the handlers do, a protected route answers an unauthenticated request with 401 and
  -- aborts, without running its handler.
  pub chain-IsRefusal :
      (h : Handlers S) (endpoint : Endpoint)
      → is_protected endpoint ≡ true
      → IsUnauthenticated
      → (message : String) × (e : Option Error) × ((chain authenticator h endpoint c s).0
          ≡ ok (abort_with 401 message e c))
  unfolding chain register_auth_routes register_user_routes IsRefusal
  chain-IsRefusal h (auth post_logout) p u = unauthenticated-stops h.logout u
  chain-IsRefusal h (users get_user_by_id) p u = unauthenticated-stops h.get_user u
  chain-IsRefusal h (users get_current_user) p u = unauthenticated-stops h.get_current_user u
  chain-IsRefusal h (users put_user) p u =
      unauthenticated-stops
        (ensure_self_middleware (λ c. get_target_user_id_from_param c.id_param) h.update_user) u
  chain-IsRefusal h _ p u = cc
