-- ===== src/Server/Engine/Layers.antt =====
-- The handlers in front of a route, one lemma for each: what holds of the result of the rest of the
-- chain, for every context that differs in the headers of the reply alone, holds of its own result.
use boot_backend_go_clean.Common.{
  ℕ, ◌≡◌, ◌≢◌, refl, sym, ap, ◌∙◌, Bool, true, false, String, List, [], ◌∷◌, ◌++◌, Option, none,
  some, arith,
}
use boot_backend_go_clean.Common.Int.{ℤ, ◌-ℤ◌, ◌*ℤ◌, wrap64}
use boot_backend_go_clean.Common.Text.{Text}
use boot_backend_go_clean.Entity.{second}
use boot_backend_go_clean.Config.{AppConfig}
use boot_backend_go_clean.Validation.{is_empty}
use boot_backend_go_clean.Errors.{text_error}
use boot_backend_go_clean.Effect.{Outcome, ok, Action}
use boot_backend_go_clean.Http.{GinContext, Handler, HeaderValue, itoa, rfc3339, abort_with}
use boot_backend_go_clean.RateLimit.{RateLimiter, Decision, rejected, allowed, admit}
use boot_backend_go_clean.Middleware.{
  decided, error_reply, identified, limit_middleware, error_handler_middleware,
}
use boot_backend_go_clean.Middleware.AccessLog.{Request, LogCall}
use boot_backend_go_clean.Middleware.Metrics.{Metrics, record_request, metrics_middleware}
use boot_backend_go_clean.Middleware.Library.{cors_config, timeout_middleware, cors_middleware}
use boot_backend_go_clean.Middleware.Observed.{
  Visit, IsRecovery, entry, traced_context, front_returns,
}
use boot_backend_go_clean.Logger.Context.{Context}
use boot_backend_go_clean.Server.Engine.{Limited, Libraries, Instants, rated, setup, serve}

-- gin-contrib/timeout, for a handler that ends in time, and gin-contrib/cors, for a request that is
-- no preflight, under the configuration of CORSMiddleware, which allows all origins, as they are
-- documented: the one passes the result on, the other sets headers.
pub record IsPassing {S : Type 0} (libs : Libraries S) : Type 0 where
  pub in_time :
      (t : ℤ) (late : GinContext → GinContext) (next : Handler (Limited S)) (c c' : GinContext)
      (s s' : Limited S)
      → next c s ≡ (ok c', s')
      → libs.timeout_new t late next c s ≡ (ok c', s')
  pub cors_headers : GinContext → List (String × HeaderValue)
  pub with_headers :
      (next : Handler (Metrics × S)) (c : GinContext) (s : Metrics × S)
      → libs.cors_new cors_config next c s
        ≡ next (record c { headers = c.headers ++ cors_headers c }) s

-- The reply of the limiter to a request that it refuses.
abbrev pub too_many : GinContext → GinContext
unfolding abort_with
too_many c =
    abort_with 429 "Rate limit exceeded. Please try again later."
      (some (text_error "too many requests")) c

-- The status of the first reply.
abbrev pub first_code : GinContext → ℕ
first_code c = elim c.replies [ [] ↦ 0 | r ∷ _ ↦ r.code ]

abbrev pub has_reply : GinContext → Bool
has_reply c = elim c.replies [ [] ↦ false | r ∷ _ ↦ true ]

-- A reply that is written is not formatted again.
pub replied_once :
    (release : Bool) (c : GinContext) → has_reply c ≡ true → error_reply release c ≡ c
replied_once release c h = ground arith

pub too_many-first :
    (c : GinContext)
    → c.replies ≡ []
    → (has_reply (too_many c) ≡ true) × (first_code (too_many c) ≡ 429)
unfolding abort_with
too_many-first c r = (rw r refl, rw r refl)

-- c.Header adds to the headers of the reply.
abbrev pub with_more : List (String × HeaderValue) → GinContext → GinContext
with_more hs c = record c { headers = c.headers ++ hs }

-- The configuration has made a limiter, and it refuses a request from this address at these
-- instants.
abbrev pub IsLimited : Instants → Text → Option RateLimiter → Type 0
IsLimited t ip none = ⊥
IsLimited t ip (some rl) = (admit t.limit_now t.limit_later ip rl).0 ≡ rejected

-- What is assumed of a context of this address, and what is shown of the one that is left;
-- `Refused` is when the limiter answers.
pub record Contract (ip : Text) (Refused : Type 0) : Type 1 where
  pub Pre : GinContext → Type 0
  pub Post : GinContext → Type 0
  pub keeps : (hs : List (String × HeaderValue)) (c : GinContext) → Pre c → Pre (with_more hs c)
  pub client : (c : GinContext) → Pre c → c.client_ip ≡ ip
  pub limited : Refused → (c : GinContext) → Pre c → Post (too_many c)
  pub replied : (release : Bool) (c : GinContext) → Post c → error_reply release c ≡ c

module _ {ip : Text} {R : Type 0} (k : Contract ip R) where
  open k use {Pre, Post}

  abbrev pub Result : {S : Type 0} → Outcome GinContext × S → Type 0
  Result {S} r = (c : GinContext) × (s : S) × (r ≡ (ok c, s)) × Post c

  abbrev pub Meets : {S : Type 0} → Handler S → S → Type 0
  Meets h s = (c : GinContext) → Pre c → Result (h c s)

module _ {S : Type 0} {ip : Text} {R : Type 0} (k : Contract ip R) where
  open k use {Pre, Post, keeps, client, limited, replied}

  metrics-Meets :
      (request : Request) (start finish : ℤ) (next : Handler S) (m : Metrics) (s : S)
      → Meets k next s
      → Meets k (metrics_middleware request start finish next) (m, s)
  unfolding metrics_middleware
  metrics-Meets request start finish next m s h c p =
      let (c', s', q, x) = h c p in
      (c', (record_request request (finish -ℤ start) c' m, s'), rw q refl, x)

  cors-Meets :
      (libs : Libraries S) (next : Handler (Metrics × S)) (s : Metrics × S)
      → IsPassing libs
      → Meets k next s
      → Meets k (cors_middleware libs.cors_new next) s
  unfolding cors_middleware
  cors-Meets libs next s pass h c p =
      let hs : List (String × HeaderValue) = pass.cors_headers c in
      let (c', s', q, x) = h (with_more hs c) (keeps hs c p) in
      (c', s', pass.with_headers next c s ∙ q, x)

  decided-Result :
      (next : Handler S) (rl : RateLimiter) (s : S) (c : GinContext)
      → Pre c
      → (d : Decision × RateLimiter) → (d.0 ≡ rejected → R)
      → (d.0 ≢ rejected → Meets k next s)
      → Result k (decided next d c (rl, s))
  unfolding abort_with
  decided-Result next rl s c p (rejected, rl') stops passes =
      (too_many c, (rl', s), refl, limited (stops refl) c p)
  decided-Result next rl s c p (allowed remaining reset, rl') stops passes =
      let hs : List (String × HeaderValue) =
        ("X-RateLimit-Limit", itoa rl'.limit)
        ∷ ("X-RateLimit-Remaining", itoa remaining)
        ∷ ("X-RateLimit-Reset", rfc3339 reset)
        ∷ [] in
      let (c', s', q, x) = passes (λ e. cc e) (with_more hs c) (keeps hs c p) in
      (c', (rl', s'), rw q refl, x)

  -- The rest of the chain is asked only where the limiter admits the request.
  limit-Meets :
      (now later : ℤ) (next : Handler S) (rl : RateLimiter) (s : S)
      → ((admit now later ip rl).0 ≡ rejected → R)
      → ((admit now later ip rl).0 ≢ rejected → Meets k next s)
      → Meets k (limit_middleware now later next) (rl, s)
  unfolding limit_middleware
  limit-Meets now later next rl s stops passes c p =
      let e : admit now later c.client_ip rl ≡ admit now later ip rl =
        ap (λ (x : Text). admit now later x rl) (client c p) in
      decided-Result next rl s c p (admit now later c.client_ip rl)
        (λ r. stops (ap (λ (d : Decision × RateLimiter). d.0) (sym e) ∙ r))
        (λ n. passes (λ r. n (ap (λ (d : Decision × RateLimiter). d.0) e ∙ r)))

  -- Where the contract holds of a result, its reply is written and not formatted again.
  error_handler-Meets :
      (release : Bool) (next : Handler S) (s : S)
      → Meets k next s
      → Meets k (error_handler_middleware release next) s
  unfolding error_handler_middleware
  error_handler-Meets release next s h c p =
      let (c', s', q, x) = h c p in
      (c', s', rw q (ap (λ (d : GinContext). (ok d, s')) (replied release c' x)), x)

rated-Result :
    {S : Type 0} {ip : Text} (t : Instants) (next : Handler (Metrics × S)) (o : Option RateLimiter)
    (k : Contract ip (IsLimited t ip o)) (s : Metrics × S)
    → (¬ IsLimited t ip o → Meets k next s)
    → (c : GinContext) → k.Pre c
    → Result k (rated t next c o s)
unfolding limit_middleware
rated-Result t next none k s h c p =
    let (c', s', q, x) = h (λ n. n) c p in (c', (none, s'), rw q refl, x)
rated-Result t next (some rl) k s h c p =
    let (c', s', q, x) =
      limit-Meets k t.limit_now t.limit_later next rl s (λ r. r) (λ n. h (λ r. n r)) c p in
    (c', (some s'.0, s'.1), rw q refl, x)

module _ {S : Type 0} {ip : Text} (t : Instants) (o : Option RateLimiter)
    (k : Contract ip (IsLimited t ip o)) where
  open k use {Pre}

  setup-Meets :
      (libs : Libraries S) (request : Request) (route : Handler S) (m : Metrics) (s : S)
      → IsPassing libs
      → (¬ IsLimited t ip o → Meets k route s)
      → Meets k (setup libs t request route) (o, (m, s))
  unfolding setup
  setup-Meets libs request route m s pass h =
      rated-Result t
        (cors_middleware libs.cors_new
          (metrics_middleware request t.metrics_start t.metrics_finish route))
        o k (m, s)
        (λ n.
          cors-Meets k libs _ (m, s) pass
            (metrics-Meets k request t.metrics_start t.metrics_finish route m s (h n)))

module _ {S : Type 0} {ip : Text} {R : Type 0} (k : Contract ip R) where
  timeout-Meets :
      (libs : Libraries S) (t : ℤ) (next : Handler (Limited S)) (s : Limited S)
      → IsPassing libs
      → Meets k next s
      → Meets k (timeout_middleware libs.timeout_new t next) s
  unfolding timeout_middleware
  timeout-Meets libs t next s pass h c p =
      let (c', s', q, x) = h c p in (c', s', pass.in_time t _ next c c' s s' q, x)

module _ {S L : Type 0} {ip : Text} (t : Instants) (o : Option RateLimiter)
    (k : Contract ip (IsLimited t ip o)) (libs : Libraries S) (config : AppConfig) (release : Bool)
    (v : Visit L) (next_id : Action (List LogCall × Limited S) Text)
    (route : Context L → Handler S) where
  open k use {Pre, Post}

  -- All layers: a contract that the route keeps where it is asked is one of the whole chain, and
  -- one entry is logged.
  pub serve-Meets :
      (c : GinContext) (calls : List LogCall) (m : Metrics) (s : S)
      → IsRecovery v.request libs.recovery
      → IsPassing libs
      → is_empty c.request_id_header ≡ false
      → Pre (identified c.request_id_header c)
      → (¬ IsLimited t ip o → Meets k (route (traced_context v c.request_id_header)) s)
      → (c' : GinContext) × (s' : Limited S) × (serve libs config release t v next_id route c
            (calls, (o, (m, s)))
          ≡ (ok c', (entry v c' ∷ calls, s')))
        × Post c'
  unfolding serve
  serve-Meets c calls m s rec pass named p h =
      let timeout : ℤ = wrap64 (config.request_timeout *ℤ second) in
      let rest : Context L → Handler (Limited S) =
        λ ctx. timeout_middleware libs.timeout_new timeout (setup libs t v.request (route ctx)) in
      let ctx : Context L = traced_context v c.request_id_header in
      let (c', s', q, x) =
        error_handler-Meets k release (rest ctx) (o, (m, s))
          (timeout-Meets k libs timeout (setup libs t v.request (route ctx)) (o, (m, s)) pass
            (setup-Meets t o k libs v.request (route ctx) m s pass h))
          (identified c.request_id_header c) p in
      (
        c',
        s',
        front_returns v libs.recovery next_id (λ ctx. error_handler_middleware release (rest ctx)) c
            c' calls (o, (m, s)) s' rec named q,
        x,
      )
