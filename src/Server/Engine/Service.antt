-- ===== src/Server/Engine/Service.antt =====
-- A request with a valid token to a route that wants one, through all handlers of the server.
use boot_backend_go_clean.Common.{
  ◌≡◌, ◌⊎◌, inl, inr, refl, ap, ◌∙◌, Bool, true, false, String, List, [], ◌∷◌, ◌++◌, Option, none,
  some,
}
use boot_backend_go_clean.Common.Text.{Text}
use boot_backend_go_clean.Effect.{Outcome, ok, Action}
use boot_backend_go_clean.Entity.{AccessTokenClaims, StandardClaims}
use boot_backend_go_clean.Validation.{is_empty}
use boot_backend_go_clean.Repository.{Authenticator}
use boot_backend_go_clean.Config.{AppConfig}
use boot_backend_go_clean.Http.{GinContext, Handler, HeaderValue}
use boot_backend_go_clean.RateLimit.{RateLimiter}
use boot_backend_go_clean.Middleware.{identified, authenticated, bearer_token, jwt_auth_middleware}
use boot_backend_go_clean.Middleware.AccessLog.{LogCall}
use boot_backend_go_clean.Middleware.Metrics.{Metrics}
use boot_backend_go_clean.Middleware.Observed.{Visit, IsRecovery, entry}
use boot_backend_go_clean.Route.{
  post_logout, get_user_by_id, get_current_user, Endpoint, auth, users, Handlers,
  register_auth_routes, register_user_routes, chain,
}
use boot_backend_go_clean.Server.Engine.{Limited, Libraries, Instants, serve}
use boot_backend_go_clean.Server.Engine.Layers.{
  IsPassing, IsLimited, Contract, Meets, with_more, first_code, has_reply, replied_once,
  too_many-first, serve-Meets,
}

-- The handler of a route that wants a token and nothing else.
abbrev pub token_handler : {S : Type 0} → Handlers S → Endpoint → Option (Handler S)
token_handler h (auth post_logout) = some h.logout
token_handler h (users get_user_by_id) = some h.get_user
token_handler h (users get_current_user) = some h.get_current_user
token_handler h _ = none

-- The context that the handler is given, where the middlewares have set these headers.
abbrev pub enriched : AccessTokenClaims → List (String × HeaderValue) → GinContext → GinContext
enriched claims hs c =
    authenticated claims (record (identified c.request_id_header c) { headers = hs })

chain-token_handler :
    {S : Type 0} (authenticator : Authenticator S) (h : Handlers S) (endpoint : Endpoint)
    (f : Handler S)
    → token_handler h endpoint ≡ some f
    → chain authenticator h endpoint ≡ jwt_auth_middleware authenticator f
unfolding chain register_auth_routes register_user_routes
chain-token_handler authenticator h (auth post_logout) f e = cc
chain-token_handler authenticator h (users get_user_by_id) f e = cc
chain-token_handler authenticator h endpoint f e = cc

-- The handler of a valid token runs on the context of the request with the user of the token.
jwt_auth-valid :
    {S : Type 0} (authenticator : Authenticator S) (f : Handler S) (c : GinContext) (token : Text)
    (claims : AccessTokenClaims × StandardClaims) (s s' : S)
    → bearer_token c.authorization ≡ some token
    → is_empty c.authorization ≡ false
    → authenticator.validate_access_token token s ≡ (ok claims, s')
    → jwt_auth_middleware authenticator f c s ≡ f (authenticated claims.0 c) s'
unfolding jwt_auth_middleware
jwt_auth-valid authenticator f c token claims s s' b e v = rw (e, b, v) refl

module _ {S : Type 0} (L : Type 0) (f : Handler S) (claims : AccessTokenClaims) (s : S)
    (c : GinContext) where
  -- The limiter has refused the request, or it has not and the handler has answered.
  abbrev pub IsAnswer : GinContext → Type 0
  IsAnswer c' =
      (L × (first_code c' ≡ 429))
      ⊎ (¬ L × (hs : List (String × HeaderValue)) × ((f (enriched claims hs c) s).0 ≡ ok c'))

  abbrev service : c.replies ≡ [] → Contract c.client_ip L
  service fresh = record {
    Pre = λ c'.
        (hs : List (String × HeaderValue)) × (c'
          ≡ record (identified c.request_id_header c) { headers = hs });
    Post = λ c'. (has_reply c' ≡ true) × IsAnswer c';
    keeps = λ hs c' p. (p.0 ++ hs, ap (with_more hs) p.1);
    client = λ c' p. ap GinContext.client_ip p.1;
    limited = λ l c' p.
        let x = too_many-first c' (ap GinContext.replies p.1 ∙ fresh) in (x.0, inl (l, x.1));
    replied = λ release c' p. replied_once release c' p.0;
  }

service-Meets :
    {S L : Type 0} (authenticator : Authenticator S) (h : Handlers S) (endpoint : Endpoint)
    (f : Handler S) (token : Text) (claims : AccessTokenClaims × StandardClaims) (c : GinContext)
    (s s' : S) (fresh : c.replies ≡ [])
    → token_handler h endpoint ≡ some f
    → bearer_token c.authorization ≡ some token
    → is_empty c.authorization ≡ false
    → authenticator.validate_access_token token s ≡ (ok claims, s')
    → ((hs : List (String × HeaderValue))
        → (c' : GinContext) × (s'' : S) × (f (enriched claims.0 hs c) s' ≡ (ok c', s''))
          × (has_reply c' ≡ true))
    → ¬ L
    → Meets (service L f claims.0 s' c fresh) (chain authenticator h endpoint) s
service-Meets authenticator h endpoint f token claims c s s' fresh own bearer present valid answers
      admitted c' (hs, e) =
    let (a, s'', r, y) = answers hs in
    (
      a,
      s'',
      ap (λ (g : Handler _). g c' s) (chain-token_handler authenticator h endpoint f own)
          ∙ (jwt_auth-valid authenticator f c' token claims s s'
                (ap (λ (d : GinContext). bearer_token d.authorization) e ∙ bearer)
                (ap (λ (d : GinContext). is_empty d.authorization) e ∙ present) valid
              ∙ (ap (λ (d : GinContext). f (authenticated claims.0 d) s') e ∙ r)),
      (y, inr (admitted, hs, ap (λ (x : Outcome GinContext × _). x.0) r)),
    )

module _ {S K : Type 0} (libs : Libraries S) (config : AppConfig) (release : Bool) (t : Instants)
    (v : Visit K) (next_id : Action (List LogCall × Limited S) Text)
    (authenticator : Authenticator S) (h : Handlers S) where
  -- Let gin.Recovery behave as documented, the handler of the timeout end in time, and the
  -- request be no preflight of CORS. A request that names its identifier and has a valid token,
  -- to a route that wants one and nothing else, and whose handler always answers, is answered
  -- through the whole chain: with the status 429 where there is a limiter and it refuses the
  -- address of the client, and everywhere else by the handler of that route, which is given the
  -- context with the user of the token, the identifier and what headers the middlewares have set.
  -- Exactly one entry is logged, that of this answer.
  pub serve_answers :
      (endpoint : Endpoint) (f : Handler S) (token : Text)
      (claims : AccessTokenClaims × StandardClaims) (c : GinContext) (calls : List LogCall)
      (o : Option RateLimiter) (m : Metrics) (s s' : S)
      → IsRecovery v.request libs.recovery
      → IsPassing libs
      → token_handler h endpoint ≡ some f
      → bearer_token c.authorization ≡ some token
      → is_empty c.authorization ≡ false
      → authenticator.validate_access_token token s ≡ (ok claims, s')
      → c.replies ≡ []
      → is_empty c.request_id_header ≡ false
      → ((hs : List (String × HeaderValue))
          → (c' : GinContext) × (s'' : S) × (f (enriched claims.0 hs c) s' ≡ (ok c', s''))
            × (has_reply c' ≡ true))
      → (c' : GinContext) × (s'' : Limited S) × (serve libs config release t v next_id
            (λ ctx. chain authenticator h endpoint)
            c
            (calls, (o, (m, s)))
          ≡ (ok c', (entry v c' ∷ calls, s'')))
        × IsAnswer (IsLimited t c.client_ip o) f claims.0 s' c c'
  serve_answers endpoint f token claims c calls o m s s' rec pass own bearer present valid fresh
        named answers =
      let (c', s'', q, x) =
        serve-Meets t o (service (IsLimited t c.client_ip o) f claims.0 s' c fresh) libs config
          release v next_id (λ ctx. chain authenticator h endpoint) c calls m s rec pass named
          ((identified c.request_id_header c).headers, refl)
          (service-Meets authenticator h endpoint f token claims c s s' fresh own bearer present
            valid answers) in
      (c', s'', q, x.1)
