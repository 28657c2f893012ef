-- ===== src/Server/Engine.antt =====
-- The handlers that every request passes: those that NewApplication of internal/app/server/app.go
-- registers, then those of Setup of internal/interfaces/http/route/route.go, then its route.
pub mod Layers
pub mod Refusal
pub mod Service
use boot_backend_go_clean.Common.{ℕ, Bool, true, false, String, List, Option, none, some, ◌∷◌}
use boot_backend_go_clean.Common.Int.{ℤ, pos, ◌*ℤ◌, wrap64}
use boot_backend_go_clean.Common.Text.{Text}
use boot_backend_go_clean.Effect.{Outcome, Action}
use boot_backend_go_clean.Http.{GinContext, Handler}
use boot_backend_go_clean.Config.{AppConfig}
use boot_backend_go_clean.RateLimit.{RateLimiter}
use boot_backend_go_clean.Middleware.{limit_middleware, error_handler_middleware}
use boot_backend_go_clean.Middleware.AccessLog.{Request, LogCall}
use boot_backend_go_clean.Middleware.Metrics.{Metrics, metrics_middleware}
use boot_backend_go_clean.Middleware.Library.{CorsConfig, timeout_middleware, cors_middleware}
use boot_backend_go_clean.Middleware.Observed.{Visit, front}
use boot_backend_go_clean.Logger.Context.{Context}
use boot_backend_go_clean.Entity.{second}

-- Beside the state of the handlers, the metrics and the limiter, if there is one.
abbrev pub Limited : Type 0 → Type 0
Limited S = Option RateLimiter × (Metrics × S)

-- The handlers of gin and of gin-contrib, over the state that they stand in front of.
pub record Libraries (S : Type 0) : Type 0 where
  pub recovery : Handler (Limited S) → Handler (Limited S)
  pub timeout_new : ℤ → (GinContext → GinContext) → Handler (Limited S) → Handler (Limited S)
  pub cors_new : CorsConfig → Handler (Metrics × S) → Handler (Metrics × S)

-- The instants that LimitMiddleware and MetricsMiddleware read.
pub record Instants : Type 0 where
  pub limit_now : ℤ
  pub limit_later : ℤ
  pub metrics_start : ℤ
  pub metrics_finish : ℤ

module _ {S : Type 0} where
  -- The limiter stands in front where the configuration has made one.
  abbrev rated :
      Instants
      → Handler (Metrics × S)
      → GinContext
      → Option RateLimiter
      → Metrics × S
      → Outcome GinContext × Limited S
  unfolding limit_middleware
  rated t next c none s = let r = next c s in (r.0, (none, r.1))
  rated t next c (some rl) s =
      let r = limit_middleware t.limit_now t.limit_later next c (rl, s) in
      (r.0, (some r.1.0, r.1.1))

  -- Setup: the limiter, CORSMiddleware and MetricsMiddleware before a route
  unfoldable pub setup : Libraries S → Instants → Request → Handler S → Handler (Limited S)
  unfolding limit_middleware cors_middleware metrics_middleware
  setup libs t request route c s =
      rated t
        (cors_middleware libs.cors_new
          (metrics_middleware request t.metrics_start t.metrics_finish route))
        c s.0 s.1

module _ {S L : Type 0} where
  -- The chain of a request; the configured timeout is in seconds.
  unfoldable pub serve :
      Libraries S
      → AppConfig
      → Bool
      → Instants
      → Visit L
      → Action (List LogCall × Limited S) Text
      → (Context L → Handler S)
      → Handler (List LogCall × Limited S)
  unfolding front setup error_handler_middleware timeout_middleware
  serve libs config release t v next_id route = front v libs.recovery next_id (λ ctx.
      error_handler_middleware release (
        timeout_middleware libs.timeout_new (wrap64 (config.request_timeout *ℤ second))
          (setup libs t v.request (route ctx))))
