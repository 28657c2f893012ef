-- ===== src/Http.antt =====
-- What the middleware and the controllers of internal/interfaces/http see of gin: a request, the
-- values that earlier handlers have set, and the replies written so far. `c.Next()` runs the rest
-- of the chain, which is the argument `next` of a middleware; a handler that aborts does not run
-- it.
pub mod Number
use boot_backend_go_clean.Common.{ℕ, String, Bool, true, Option, none, some, List, [], ◌∷◌, ◌++◌}
use boot_backend_go_clean.Common.Int.{ℤ}
use boot_backend_go_clean.Common.Text.{Text}
use boot_backend_go_clean.Errors.{Error}
use boot_backend_go_clean.Effect.{Outcome, Action}
use boot_backend_go_clean.Entity.{User, LoginResponse, RegisterResponse, RefreshTokenResponse}
use boot_backend_go_clean.Response.{Response, new_success_response, new_error_response}

-- The values of the field `Data` of a reply.
pub data Payload : Type 0 where
  registered : RegisterResponse → Payload
  logged_in : LoginResponse → Payload
  refreshed : RefreshTokenResponse → Payload
  user_found : User → Payload
  health : List (String × String) → Payload

-- c.JSON(code, body)
pub record Reply : Type 0 where
  pub code : ℕ
  pub body : Response Payload

-- The texts that c.Header is given: as they are, strconv.Itoa(n) and t.Format(time.RFC3339).
pub data HeaderValue : Type 0 where
  verbatim : Text → HeaderValue
  itoa : ℕ → HeaderValue
  rfc3339 : ℤ → HeaderValue

pub record GinContext : Type 0 where
  -- the headers Authorization and X-Request-ID, empty where they are absent
  pub authorization : Text
  pub request_id_header : Text
  -- c.Param("id"), c.ClientIP()
  pub id_param : Text
  pub client_ip : Text
  -- c.Get(ContextKeyUserID), c.Get(ContextKeyUsername), c.Get(ContextKeyRequestID)
  pub user_id : Option ℤ
  pub username : Option Text
  pub request_id : Option Text
  -- c.Errors, the last one first
  pub errors : List Error
  -- the replies written, the first one first, and whether a handler has called c.Abort
  pub replies : List Reply
  pub headers : List (String × HeaderValue)
  pub aborted : Bool

abbrev pub Handler : Type 0 → Type 0
Handler S = GinContext → Action S GinContext

abbrev pub json : ℕ → Response Payload → GinContext → GinContext
json code body c = record c { replies = c.replies ++ record { code = code; body = body } ∷ [] }

-- c.JSON(code, NewErrorResponse(message, err)); c.Abort()
unfoldable pub abort_with : ℕ → String → Option Error → GinContext → GinContext
unfolding new_error_response
abort_with code message err c = record (json code (new_error_response message err) c) {
  aborted = true;
}
