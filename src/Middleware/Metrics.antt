-- ===== src/Middleware/Metrics.antt =====
-- internal/interfaces/http/middleware/metrics_middleware.go: the counter http_requests_total and
-- the observations of http_request_duration_seconds.
use boot_backend_go_clean.Common.{ℕ, suc, Bool, ◌&&◌, ◌==◌, List, [], ◌∷◌, if◌then◌else◌}
use boot_backend_go_clean.Common.Int.{ℤ, ◌-ℤ◌}
use boot_backend_go_clean.Common.Text.{Text, codes, text_eq}
use boot_backend_go_clean.Effect.{Outcome, ok, err, panic}
use boot_backend_go_clean.Validation.{is_empty}
use boot_backend_go_clean.Http.{GinContext, Handler}
use boot_backend_go_clean.Middleware.AccessLog.{Request, status}

-- The labels of a series; strconv.Itoa(status) is injective, so the number stands for it.
pub record Labels : Type 0 where
  pub code : ℕ
  pub method : Text
  pub path : Text

abbrev pub same_labels : Labels → Labels → Bool
unfolding text_eq
same_labels a b = a.code == b.code && text_eq a.method b.method && text_eq a.path b.path

-- reqCount, and the observations of reqDuration: method, path and latency in nanoseconds
pub record Metrics : Type 0 where
  pub req_count : List (Labels × ℕ)
  pub req_duration : List ((Text × Text) × ℤ)

-- WithLabelValues(…).Inc()
unfoldable pub inc : Labels → List (Labels × ℕ) → List (Labels × ℕ)
inc labels [] = (labels, 1) ∷ []
inc labels ((k, n) ∷ counts) =
    if same_labels k labels then (k, suc n) ∷ counts else (k, n) ∷ inc labels counts

-- The label of the path.
abbrev pub unknown_route : Text
unknown_route = codes "UNKNOWN_ROUTE"

abbrev pub route_label : Text → Text
route_label full_path = if is_empty full_path then unknown_route else full_path

unfoldable pub record_request : Request → ℤ → GinContext → Metrics → Metrics
unfolding inc status
record_request request elapsed c m =
    let path = route_label request.full_path in
    record {
      req_count =
          inc (record { code = status request c; method = request.method; path = path })
            m.req_count;
      req_duration = ((request.method, path), elapsed) ∷ m.req_duration;
    }

module _ {S : Type 0} where
  abbrev measured :
      Request → ℤ → Outcome GinContext × S → Metrics → Outcome GinContext × (Metrics × S)
  unfolding record_request inc status
  measured request elapsed (ok c, s) m = (ok c, (record_request request elapsed c m, s))
  measured request elapsed (err e, s) m = (err e, (m, s))
  measured request elapsed (panic p, s) m = (panic p, (m, s))

  -- MetricsMiddleware, for the instants at which it reads the clock
  unfoldable pub metrics_middleware : Request → ℤ → ℤ → Handler S → Handler (Metrics × S)
  unfolding record_request inc status
  metrics_middleware request start finish next c s =
      measured request (finish -ℤ start) (next c s.1) s.0
