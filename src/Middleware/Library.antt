-- ===== src/Middleware/Library.antt =====
-- timeout_middleware.go and cors_middleware.go of internal/interfaces/http/middleware: what they
-- hand to the libraries gin-contrib/timeout and gin-contrib/cors.
use boot_backend_go_clean.Common.{String, Bool, true, none, List, [], ◌∷◌}
use boot_backend_go_clean.Common.Int.{ℤ, pos}
use boot_backend_go_clean.Http.{GinContext, Handler, json}
use boot_backend_go_clean.Response.{new_error_response}

-- TimeoutMiddleware; `timeout_new` is timeout.New of a duration and of the response to a request
-- that takes longer.
unfoldable pub timeout_middleware :
    {S : Type 0}
    → (ℤ → (GinContext → GinContext) → Handler S → Handler S)
    → ℤ
    → Handler S
    → Handler S
unfolding new_error_response
timeout_middleware timeout_new t =
    timeout_new t (λ c. json 408 (new_error_response "Request timeout" none) c)

-- cors.Config, the fields that the code sets
pub record CorsConfig : Type 0 where
  pub allow_all_origins : Bool
  pub allow_credentials : Bool
  pub allow_headers : List String
  pub allow_methods : List String
  -- in nanoseconds
  pub max_age : ℤ

abbrev pub cors_config : CorsConfig
cors_config = record {
  allow_all_origins = true;
  allow_credentials = true;
  allow_headers =
      "Origin" ∷ "Content-Length" ∷ "Content-Type" ∷ "Authorization" ∷ "Accept" ∷ "X-Requested-With"
      ∷ "X-CSRF-Token" ∷ [];
  allow_methods = "GET" ∷ "POST" ∷ "PUT" ∷ "PATCH" ∷ "DELETE" ∷ "HEAD" ∷ "OPTIONS" ∷ [];
  max_age = pos 43200000000000;
}

-- CORSMiddleware; `cors_new` is cors.New
unfoldable pub cors_middleware :
    {S : Type 0} → (CorsConfig → Handler S → Handler S) → Handler S → Handler S
cors_middleware cors_new = cors_new cors_config
