-- ===== src/Middleware/AccessLog.antt =====
-- internal/interfaces/http/middleware/access_log_middleware.go, with what it reads of the request
-- and of the writer of the reply.
use boot_backend_go_clean.Common.{ℕ, String, Option, none, some, List, [], ◌∷◌, ◌++◌, if◌then◌else◌}
use boot_backend_go_clean.Common.Int.{ℤ, ◌-ℤ◌}
use boot_backend_go_clean.Common.Text.{Text}
use boot_backend_go_clean.Errors.{Error}
use boot_backend_go_clean.Effect.{Outcome, ok, err, panic}
use boot_backend_go_clean.Validation.{is_empty}
use boot_backend_go_clean.Http.{GinContext, Handler}
use boot_backend_go_clean.Middleware.{Level, access_level}
use boot_backend_go_clean.Logger.Context.{Context, new_context}

-- c.Request.Method, c.Request.URL.Path, c.Request.URL.RawQuery, c.Request.UserAgent(), and
-- c.FullPath(), the pattern of the route, empty where no route matches.
pub record Request : Type 0 where
  pub method : Text
  pub path : Text
  pub raw_query : Text
  pub user_agent : Text
  pub full_path : Text

-- c.Writer.Status(): that of the first reply; before one is written, gin has set 404 where no route
-- matches and 200 elsewhere.
unfoldable pub status : Request → GinContext → ℕ
status request c = elim c.replies [
  | [] ↦ if is_empty request.full_path then 404 else 200
  | reply ∷ _ ↦ reply.code
]

-- The values of the fields; the latency is in nanoseconds, which the code prints as milliseconds.
pub data Value : Type 0 where
  text : Text → Value
  number : ℕ → Value
  integer : ℤ → Value
  latency : ℤ → Value
  error_list : List Error → Value

abbrev pub LogFields : Type 0
LogFields = List (String × Value)

-- A call of the logger's Log: the message is always "HTTP request".
pub record LogCall : Type 0 where
  pub level : Level
  pub fields : LogFields

abbrev attached : {A : Type 0} → String → (A → Value) → Option A → LogFields
attached key value none = []
attached key value (some x) = (key, value x) ∷ []

abbrev non_empty : Text → Option Text
non_empty [] = none
non_empty (c ∷ s) = some (c ∷ s)

abbrev some_errors : List Error → Option (List Error)
some_errors [] = none
some_errors (e ∷ errors) = some (e ∷ errors)

-- The fields, in the order in which the code sets them; `size` is c.Writer.Size().
unfoldable pub access_fields : Request → ℤ → (GinContext → ℕ) → GinContext → LogFields
unfolding status
access_fields request elapsed size c =
    ("method", text request.method)
    ∷ ("path", text request.path)
    ∷ ("status", number (status request c))
    ∷ ("latency_ms", latency elapsed)
    ∷ ("client_ip", text c.client_ip)
    ∷ ("user_agent", text request.user_agent)
    ∷ ("body_bytes", number (size c))
    ∷ (attached "query" text (non_empty request.raw_query)
        ++ (attached "request_id" text c.request_id
            ++ (attached "user_id" integer c.user_id
                ++ attached "errors" error_list (some_errors c.errors))))

-- The logger of the request.
abbrev request_logger : {L : Type 0} → (Text → L → L) → L → Option Text → L
request_logger with_trace log none = log
request_logger with_trace log (some id) = with_trace id log

module _ {S : Type 0} where
  -- After c.Next(). A panic passes the middleware by.
  abbrev logged :
      Request
      → ℤ
      → (GinContext → ℕ)
      → Outcome GinContext × S
      → List LogCall
      → Outcome GinContext × (List LogCall × S)
  unfolding access_fields access_level status
  logged request elapsed size (ok c, s) calls = (
    ok c,
    (
      record {
        level = access_level (status request c);
        fields = access_fields request elapsed size c;
      }
          ∷ calls,
      s,
    ),
  )
  logged request elapsed size (err e, s) calls = (err e, (calls, s))
  logged request elapsed size (panic m, s) calls = (panic m, (calls, s))

module _ {S L : Type 0} where
  -- AccessLogMiddleware, for the instants at which it reads the clock; the calls of the logger,
  -- the last one first, stand before the rest of the state. The rest of the chain is given the
  -- context of the request.
  unfoldable pub access_log_middleware :
      (Text → L → L)
      → L
      → Request
      → ℤ
      → ℤ
      → (GinContext → ℕ)
      → Context L
      → (Context L → Handler S)
      → Handler (List LogCall × S)
  unfolding access_fields access_level status new_context
  access_log_middleware with_trace log request start finish size ctx next c s =
      let ctx' = new_context ctx (request_logger with_trace log c.request_id) in
      logged request (finish -ℤ start) size (next ctx' c s.1) s.0
