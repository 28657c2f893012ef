-- ===== src/Server/Engine/Refusal.antt =====
-- A request without a valid token to a protected route, through all handlers of the server.
use boot_backend_go_clean.Common.{
  ℕ, ◌≡◌, ◌⊎◌, inl, inr, refl, ap, ◌∙◌, Bool, true, false, List, [], ◌∷◌, Option, arith,
}
use boot_backend_go_clean.Common.Text.{Text}
use boot_backend_go_clean.Effect.{Outcome, ok, Action}
use boot_backend_go_clean.Validation.{is_empty}
use boot_backend_go_clean.Repository.{Authenticator}
use boot_backend_go_clean.Config.{AppConfig}
use boot_backend_go_clean.Http.{GinContext, abort_with}
use boot_backend_go_clean.RateLimit.{RateLimiter}
use boot_backend_go_clean.Middleware.{warn_level, bearer_token, access_level}
use boot_backend_go_clean.Middleware.AccessLog.{Request, LogCall, status}
use boot_backend_go_clean.Middleware.Metrics.{Metrics}
use boot_backend_go_clean.Middleware.Observed.{Visit, IsRecovery, entry}
use boot_backend_go_clean.Route.{Endpoint, Handlers, chain}
use boot_backend_go_clean.Route.Protection.{
  is_protected, IsUnauthenticated, without_header, malformed, refused, chain-IsRefusal,
}
use boot_backend_go_clean.Server.Engine.{Limited, Libraries, Instants, serve}
use boot_backend_go_clean.Server.Engine.Layers.{
  IsPassing, IsLimited, Contract, Meets, first_code, has_reply, replied_once, too_many-first,
  serve-Meets,
}

-- The token of a request depends on its header alone.
IsUnauthenticated-header :
    {S : Type 0} (authenticator : Authenticator S) (c c' : GinContext) (s : S)
    → c'.authorization ≡ c.authorization
    → IsUnauthenticated authenticator c s
    → IsUnauthenticated authenticator c' s
IsUnauthenticated-header authenticator c c' s e (without_header h) =
    without_header (ap is_empty e ∙ h)
IsUnauthenticated-header authenticator c c' s e (malformed h) = malformed (ap bearer_token e ∙ h)
IsUnauthenticated-header authenticator c c' s e (refused token x h k) =
    refused token x (ap bearer_token e ∙ h) k

-- A refusal of the middleware where the limiter has admitted the request, or of the limiter.
abbrev pub IsRefusedWith : Type 0 → ℕ → Type 0
IsRefusedWith limited code = (¬ limited × (code ≡ 401)) ⊎ (limited × (code ≡ 429))

-- A context of this address and header that has no reply yet, and one whose first reply is a
-- refusal.
abbrev refusal : (L : Type 0) (ip a : Text) → Contract ip L
refusal L ip a = record {
  Pre = λ c. (c.replies ≡ []) × (c.authorization ≡ a) × (c.client_ip ≡ ip);
  Post = λ c. (has_reply c ≡ true) × IsRefusedWith L (first_code c);
  keeps = λ hs c p. p;
  client = λ c p. p.2;
  limited = λ l c p. let x = too_many-first c p.0 in (x.0, inr (l, x.1));
  replied = λ release c p. replied_once release c p.0;
}

route-Meets :
    {S L : Type 0} (authenticator : Authenticator S) (h : Handlers S) (endpoint : Endpoint)
    (c : GinContext) (s : S)
    → is_protected endpoint ≡ true
    → IsUnauthenticated authenticator c s
    → ¬ L
    → Meets (refusal L c.client_ip c.authorization) (chain authenticator h endpoint) s
unfolding abort_with
route-Meets authenticator h endpoint c s p u admitted c' (r, e, _) =
    let (message, x, q) =
      chain-IsRefusal authenticator c' s h endpoint p
        (IsUnauthenticated-header authenticator c c' s e u) in
    (
      abort_with 401 message x c',
      (chain authenticator h endpoint c' s).1,
      ap (λ (o : Outcome GinContext). (o, (chain authenticator h endpoint c' s).1)) q,
      (rw r refl, inl (admitted, rw r refl)),
    )

status-first_code :
    (request : Request) (c : GinContext) → has_reply c ≡ true → status request c ≡ first_code c
unfolding status
status-first_code request c h = ground arith

warned : (L : Type 0) (n : ℕ) → IsRefusedWith L n → access_level n ≡ warn_level
unfolding access_level
warned L n (inl (a, e)) = ground arith
warned L n (inr (l, e)) = ground arith

module _ {S K : Type 0} (libs : Libraries S) (config : AppConfig) (release : Bool) (t : Instants)
    (v : Visit K) (next_id : Action (List LogCall × Limited S) Text)
    (authenticator : Authenticator S) (h : Handlers S) where
  -- Let gin.Recovery behave as documented, the handler of the timeout end in time, and the
  -- request be no preflight of CORS. A request that names its identifier and has no valid token,
  -- to a route that wants one, gets a reply through the whole chain of handlers: with the status
  -- 429 where there is a limiter and it refuses the address of the client, and with 401
  -- everywhere else. Exactly one entry is logged, that of this reply, at the level of a warning.
  pub serve_refuses :
      (endpoint : Endpoint) (c : GinContext) (calls : List LogCall) (o : Option RateLimiter)
      (m : Metrics) (s : S)
      → IsRecovery v.request libs.recovery
      → IsPassing libs
      → is_protected endpoint ≡ true
      → IsUnauthenticated authenticator c s
      → c.replies ≡ []
      → is_empty c.request_id_header ≡ false
      → (c' : GinContext) × (s' : Limited S) × (serve libs config release t v next_id
            (λ ctx. chain authenticator h endpoint)
            c
            (calls, (o, (m, s)))
          ≡ (ok c', (entry v c' ∷ calls, s')))
        × IsRefusedWith (IsLimited t c.client_ip o) (status v.request c')
        × (LogCall.level (entry v c') ≡ warn_level)
  unfolding serve
  serve_refuses endpoint c calls o m s rec pass protected unauth fresh named =
      let L : Type 0 = IsLimited t c.client_ip o in
      let (c', s', q, x) =
        serve-Meets t o (refusal L c.client_ip c.authorization) libs config release v next_id
          (λ ctx. chain authenticator h endpoint) c calls m s rec pass named (fresh, refl, refl)
          (route-Meets authenticator h endpoint c s protected unauth) in
      let st : IsRefusedWith L (status v.request c') =
        rw (status-first_code v.request c' x.0) x.1 in
      (c', s', q, st, warned L (status v.request c') st)
