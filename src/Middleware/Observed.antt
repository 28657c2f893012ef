-- ===== src/Middleware/Observed.antt =====
-- The first middlewares of every request, RequestIDMiddleware, AccessLogMiddleware and
-- gin.Recovery, one around the other, and what is logged.
use boot_backend_go_clean.Common.{ℕ, String, ◌≡◌, refl, Bool, true, false, List, ◌∷◌, arith}
use boot_backend_go_clean.Common.Int.{ℤ, ◌-ℤ◌}
use boot_backend_go_clean.Common.Text.{Text}
use boot_backend_go_clean.Effect.{Outcome, ok, err, panic, Action}
use boot_backend_go_clean.Validation.{is_empty}
use boot_backend_go_clean.Http.{GinContext, Handler}
use boot_backend_go_clean.Middleware.{request_id_middleware, identified, error_level, access_level}
use boot_backend_go_clean.Middleware.AccessLog.{
  Request, status, LogCall, access_fields, access_log_middleware,
}
use boot_backend_go_clean.Logger.Context.{Context, new_context}

-- gin.Recovery as it is documented: what a handler returns is passed on, and a panic becomes a
-- response with the status 500. A handler has no other outcome.
pub record IsRecovery {S : Type 0} (request : Request) (recovery : Handler S → Handler S)
    : Type 0 where
  pub passes :
      (next : Handler S) (c c' : GinContext) (s s' : S)
      → next c s ≡ (ok c', s')
      → recovery next c s ≡ (ok c', s')
  pub recovers :
      (next : Handler S) (c : GinContext) (m : String) (s s' : S)
      → next c s ≡ (panic m, s')
      → (c' : GinContext) × (recovery next c s ≡ (ok c', s')) × (status request c' ≡ 500)

-- What the instants, the request and its context are to the access log.
pub record Visit (L : Type 0) : Type 0 where
  pub with_trace : Text → L → L
  pub log : L
  pub request : Request
  pub start : ℤ
  pub finish : ℤ
  pub size : GinContext → ℕ
  pub ctx : Context L

-- The call of the logger for the request that has ended with this context.
abbrev pub entry : {L : Type 0} → Visit L → GinContext → LogCall
entry v c = record {
  level = access_level (status v.request c);
  fields = access_fields v.request (v.finish -ℤ v.start) v.size c;
}

-- The context with which the rest of the chain is called, for a request with this identifier.
abbrev pub traced_context : {L : Type 0} → Visit L → Text → Context L
traced_context v id = new_context v.ctx (v.with_trace id v.log)

module _ {S L : Type 0} (v : Visit L) (recovery : Handler S → Handler S)
    (next_id : Action (List LogCall × S) Text) (next : Context L → Handler S) where
  -- The first three handlers that NewApplication registers, around the rest of the chain.
  unfoldable pub front : Handler (List LogCall × S)
  unfolding request_id_middleware access_log_middleware
  front = request_id_middleware next_id (
      access_log_middleware v.with_trace v.log v.request v.start v.finish v.size v.ctx
        (λ ctx. recovery (next ctx)))

  -- How the context and the state after the first handlers come from the outcome of the others.
  abbrev pub Answers : GinContext → S → Outcome GinContext × S → Type 0
  Answers c' s' (ok c, s) = (c' ≡ c) × (s' ≡ s)
  Answers c' s' (panic m, s) =
      (s' ≡ s) × (status v.request c' ≡ 500) × (LogCall.level (entry v c') ≡ error_level)
  Answers c' s' (err e, s) = ⊥

  abbrev pub is_err : Outcome GinContext → Bool
  is_err (err e) = true
  is_err _ = false

  answer :
      (c : GinContext) (s : S) (r : Outcome GinContext × S)
      → IsRecovery v.request recovery
      → (n : Handler S) → n c s ≡ r
      → is_err r.0 ≡ false
      → (c' : GinContext) × (s' : S) × (recovery n c s ≡ (ok c', s')) × Answers c' s' r
  unfolding access_level
  answer c s (ok c1, s1) rec n e h = (c1, s1, rec.passes n c c1 s s1 e, (refl, refl))
  answer c s (panic m, s1) rec n e h =
      let p = rec.recovers n c m s s1 e in (p.0, s1, p.1, (refl, p.2, ground arith))
  answer c s (err x, s1) rec n e h = cc

  -- For gin.Recovery as it is documented and a request that names its identifier: the rest of the
  -- chain runs with a logger that carries the identifier, and whether it returns or panics, exactly
  -- one entry is logged, that of the context which is left. That is the one the rest has returned;
  -- after a panic its status is 500, and the level of the entry that of an error. What the rest has
  -- done to the state stands.
  pub front_lem :
      (c : GinContext) (calls : List LogCall) (s : S)
      → IsRecovery v.request recovery
      → is_empty c.request_id_header ≡ false
      → is_err (next (traced_context v c.request_id_header) (identified c.request_id_header c) s).0
        ≡ false
      → (c' : GinContext) × (s' : S) × (front c (calls, s) ≡ (ok c', (entry v c' ∷ calls, s')))
        × Answers c' s'
            (next (traced_context v c.request_id_header) (identified c.request_id_header c) s)
  unfolding front request_id_middleware access_log_middleware
  front_lem c calls s rec named h =
      let n = next (traced_context v c.request_id_header) in
      let (c', s', e, a) = answer (identified c.request_id_header c) s _ rec n refl h in
      (c', s', rw (named, e) refl, a)

  pub front_returns :
      (c c' : GinContext) (calls : List LogCall) (s s' : S)
      → IsRecovery v.request recovery
      → is_empty c.request_id_header ≡ false
      → next (traced_context v c.request_id_header) (identified c.request_id_header c) s
        ≡ (ok c', s')
      → front c (calls, s) ≡ (ok c', (entry v c' ∷ calls, s'))
  unfolding front request_id_middleware access_log_middleware
  front_returns c c' calls s s' rec named e =
      rw
        (
          named,
          rec.passes (next (traced_context v c.request_id_header))
              (identified c.request_id_header c) c' s s' e,
        )
        refl
