-- ===== src/Middleware.antt =====
-- internal/interfaces/http/middleware: the middlewares that decide on a request. A middleware takes
-- the rest of the chain, `next`, which `c.Next()` runs.
pub mod Self
pub mod AccessLog
pub mod Metrics
pub mod Observed
pub mod Counts
pub mod Library
use boot_backend_go_clean.Common.{
  ℕ, String, Bool, true, false, Option, none, some, List, [], ◌∷◌, ◌++◌, ◌==◌, leb, if◌then◌else◌,
}
use boot_backend_go_clean.Common.Int.{ℤ, eqb_ℤ}
use boot_backend_go_clean.Common.Text.{Text, codes, text_eq}
use boot_backend_go_clean.Errors
use boot_backend_go_clean.Errors.{
  Error, AppError, app, sentinel, err_permission_denied, fail, error_text, text_error, http_code,
}
use boot_backend_go_clean.Errors.Chain.{as_app_error}
use boot_backend_go_clean.Effect.{
  Outcome, ok, err, panic, Action, pure, throw, lift, continue, handle, catch, ◌>>=◌,
}
use boot_backend_go_clean.Entity.{AccessTokenClaims, StandardClaims}
use boot_backend_go_clean.Validation.{to_lower, is_empty}
use boot_backend_go_clean.Repository.{Authenticator}
use boot_backend_go_clean.RateLimit.{RateLimiter, Decision, rejected, allowed, admit}
use boot_backend_go_clean.Http.{
  GinContext, Handler, HeaderValue, verbatim, itoa, rfc3339, json, abort_with,
}
use boot_backend_go_clean.Response.{new_error_response}

abbrev join_first : ℕ → List Text → List Text
join_first c [] = (c ∷ []) ∷ []
join_first c (field ∷ fields) = (c ∷ field) ∷ fields

-- strings.Split(s, " ")
unfoldable pub split : Text → List Text
split [] = [] ∷ []
split (c ∷ s) = let fields = split s in if c == b' ' then [] ∷ fields else join_first c fields

-- The two tests on the parts of the header.
abbrev bearer_of : List Text → Option Text
bearer_of [] = none
bearer_of (scheme ∷ []) = none
bearer_of (scheme ∷ token ∷ []) =
    if text_eq (to_lower scheme) (codes "bearer") then some token else none
bearer_of (scheme ∷ token ∷ x ∷ more) = none

unfoldable pub bearer_token : Text → Option Text
unfolding split to_lower
bearer_token header = bearer_of (split header)

-- GetUserIDFromContext, GetUsernameFromContext
abbrev pub get_user_id_from_context : GinContext → Option ℤ
get_user_id_from_context c = c.user_id

abbrev pub get_username_from_context : GinContext → Option Text
get_username_from_context c = c.username

-- c.Set(ContextKeyUserID, claims.UserID); c.Set(ContextKeyUsername, claims.Username)
abbrev pub authenticated : AccessTokenClaims → GinContext → GinContext
authenticated claims c = record c { user_id = some claims.user_id; username = some claims.username }

-- The replies of ErrorHandlerMiddleware to the last error.
abbrev formatted : Bool → Error → GinContext → GinContext
formatted release e c = elim (as_app_error e) [
  | some a ↦ abort_with (http_code a) (Errors.message a) (some (app a)) c
  | none ↦ abort_with 500 (if release then "Internal Server Error" else error_text e) none c
]

abbrev pub error_reply : Bool → GinContext → GinContext
error_reply release c = elim c.errors [
  | [] ↦ c
  | e ∷ _ ↦ elim c.replies [ [] ↦ formatted release e c | _ ∷ _ ↦ c ]
]

abbrev pub identified : Text → GinContext → GinContext
identified id c = record c {
  request_id = some id;
  headers = c.headers ++ ("X-Request-ID", verbatim id) ∷ [];
}

module _ {S : Type 0} where
  -- JWTAuthMiddleware after the header has been split.
  abbrev with_token : Authenticator S → Handler S → Option Text → Handler S
  with_token validator next none c =
      pure (abort_with 401 "Invalid authorization header format" none c)
  with_token validator next (some token) c =
      catch (validator.validate_access_token token) (λ claims. next (authenticated claims.0 c))
        (λ e. pure (abort_with 401 "Invalid or expired token" (some e) c))

  -- JWTAuthMiddleware
  unfoldable pub jwt_auth_middleware : Authenticator S → Handler S → Handler S
  unfolding bearer_token abort_with
  jwt_auth_middleware validator next c =
      if is_empty c.authorization
      then pure (abort_with 401 "Authorization header is required" none c)
      else with_token validator next (bearer_token c.authorization) c

  -- EnsureSelfMiddleware for the user that the request has been authenticated for.
  abbrev ensure_target : (GinContext → Outcome ℤ) → Handler S → Option ℤ → Handler S
  ensure_target get_target_user_id next none c =
      pure (abort_with 403 "Unable to identify authenticated user" none c)
  ensure_target get_target_user_id next (some user_id) c =
      catch (lift (get_target_user_id c))
        (λ target.
          if eqb_ℤ user_id target
          then next c
          else pure (
              abort_with 403 (Errors.message (sentinel err_permission_denied))
                (some (fail err_permission_denied)) c))
        (λ e. pure (abort_with 400 "Invalid target user ID" (some e) c))

  -- EnsureSelfMiddleware
  unfoldable pub ensure_self_middleware : (GinContext → Outcome ℤ) → Handler S → Handler S
  unfolding abort_with sentinel
  ensure_self_middleware get_target_user_id next c =
      ensure_target get_target_user_id next (get_user_id_from_context c) c

  -- LimitMiddleware: the lock is held until the rest of the chain has run, which therefore leaves
  -- the limiter alone.
  abbrev pub decided : Handler S → Decision × RateLimiter → Handler (RateLimiter × S)
  decided next (rejected, rl) c s = (
    ok (
        abort_with 429 "Rate limit exceeded. Please try again later."
          (some (text_error "too many requests")) c),
    (rl, s.1),
  )
  decided next (allowed remaining reset, rl) c s =
      let r =
        next
          (record c {
            headers =
                c.headers
                ++ ("X-RateLimit-Limit", itoa rl.limit)
                  ∷ ("X-RateLimit-Remaining", itoa remaining)
                  ∷ ("X-RateLimit-Reset", rfc3339 reset)
                  ∷ [];
          })
          s.1 in
      (r.0, (rl, r.1))

  unfoldable pub limit_middleware : ℤ → ℤ → Handler S → Handler (RateLimiter × S)
  unfolding admit abort_with
  limit_middleware now later next c s = decided next (admit now later c.client_ip s.0) c s

  -- ErrorHandlerMiddleware; `release` is gin.Mode() == gin.ReleaseMode
  unfoldable pub error_handler_middleware : Bool → Handler S → Handler S
  unfolding as_app_error abort_with
  error_handler_middleware release next c = next c >>= λ c'. pure (error_reply release c')

  -- RequestIDMiddleware; `next_id` is strconv.FormatInt(snowflakeutils.NextID(), 10)
  unfoldable pub request_id_middleware : Action S Text → Handler S → Handler S
  request_id_middleware next_id next c =
      if is_empty c.request_id_header
      then (next_id >>= λ id. next (identified id c))
      else next (identified c.request_id_header c)

pub data Level : Type 0 where
  info_level warn_level error_level : Level

-- The level that AccessLogMiddleware logs a status at.
unfoldable pub access_level : ℕ → Level
access_level status =
    if leb 500 status then error_level else if leb 400 status then warn_level else info_level
