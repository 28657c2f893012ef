-- ===== src/Middleware/Self.antt =====
-- What the chain of PUT /v1/api/users/:id in internal/interfaces/http/route/user_route.go lets
-- through: jwt_auth_middleware.go, then ensure_self_middleware.go.
use boot_backend_go_clean.Common.{
  ◌≡◌, ◌⊎◌, inl, inr, Option-cases, Bool-cases, ap, ◌∙◌, sym, refl, true, false, none, some, [],
  ◌∷◌,
}
use boot_backend_go_clean.Common.Int.{ℤ, eqb_ℤ, eqb_ℤ_iff}
use boot_backend_go_clean.Common.Text.{Text}
use boot_backend_go_clean.Effect.{
  Outcome, ok, err, panic, pure, was_ok, was_err, was_panic, Outcome-cases,
}
use boot_backend_go_clean.Entity.{AccessTokenClaims, StandardClaims}
use boot_backend_go_clean.Repository.{Authenticator}
use boot_backend_go_clean.Validation.{is_empty}
use boot_backend_go_clean.Http.{abort_with, GinContext, Handler}
use boot_backend_go_clean.Middleware.{
  authenticated, split, bearer_token, jwt_auth_middleware, ensure_target, ensure_self_middleware,
}

-- The request is aborted, or a handler has panicked.
abbrev pub IsAborted : Outcome GinContext → Type 0
IsAborted (ok c) = c.aborted ≡ true
IsAborted (err e) = ⊥
IsAborted (panic m) = Unit

headerless : (header : Text) → is_empty header ≡ true → bearer_token header ≡ none
unfolding bearer_token split
headerless [] h = refl
headerless (c ∷ header) h = cc

module _ {S : Type 0} (target : GinContext → Outcome ℤ) (u : ℤ) (c : GinContext) (s : S) where
  ensure_target_cases :
      ((o : Outcome GinContext) × IsAborted o
        × ((next : Handler S) → ensure_target target next (some u) c s ≡ (o, s)))
      ⊎ ((target c ≡ ok u)
          × ((next : Handler S) → ensure_target target next (some u) c s ≡ next c s))
  unfolding abort_with
  ensure_target_cases = elim (Outcome-cases (target c)) [
    | was_ok t named ↦ elim (Bool-cases (eqb_ℤ u t)) [
      | inl same ↦
          inr (rw (named) (ap ok (sym ((eqb_ℤ_iff u t).0 same))), λ next. rw (named, same) refl)
      | inr other ↦ inl (
        (ensure_target target pure (some u) c s).0,
        rw (named, other) refl,
        λ next. rw (named, other) refl,
      )
    ]
    | was_err e unnamed ↦
        inl
          ((ensure_target target pure (some u) c s).0, rw (unnamed) refl, λ next. rw (unnamed) refl)
    | was_panic m crashed ↦ inl (panic m, tt, λ next. rw (crashed) refl)
  ]

module _ {S : Type 0} (validator : Authenticator S) (target : GinContext → Outcome ℤ)
    (c : GinContext) (s : S) where
  -- The two middlewares in front of a handler.
  abbrev pub guarded : Handler S → Outcome GinContext × S
  guarded next = jwt_auth_middleware validator (ensure_self_middleware target next) c s

  -- The state that the validation of the token leaves, where the request carries one.
  abbrev pub validated : S
  validated = elim (bearer_token c.authorization) [
    | none ↦ s
    | some token ↦ (validator.validate_access_token token s).1
  ]

  module _ (next : Handler S) where
    -- The chain has stopped in front of the handler: another handler gives the same result and the
    -- same state, which is the one that the validation has left.
    pub record IsStopped : Type 0 where
      pub aborted : IsAborted (guarded next).0
      pub untouched : (guarded next).1 ≡ validated
      pub unrun : (other : Handler S) → guarded other ≡ guarded next

    -- The request carries a token that validates, for the user that it names as its target, and has
    -- gone on to the handler in the state that the validation has left.
    pub record IsSelf : Type 0 where
      pub token : Text
      pub claims : AccessTokenClaims
      pub standard : StandardClaims
      pub carried : bearer_token c.authorization ≡ some token
      pub valid : (validator.validate_access_token token s).0 ≡ ok (claims, standard)
      pub own : target (authenticated claims c) ≡ ok claims.user_id
      pub handed_on :
          guarded next ≡ next (authenticated claims c) (validator.validate_access_token token s).1

    stopped-at :
        (o : Outcome GinContext)
        → IsAborted o
        → ((any : Handler S) → guarded any ≡ (o, validated))
        → IsStopped
    stopped-at o a h = record {
      aborted = rw (h next) a;
      untouched = rw (h next) refl;
      unrun = λ other. h other ∙ sym (h next);
    }

    valid_token_cases :
        (token : Text) (claims : AccessTokenClaims × StandardClaims)
        → is_empty c.authorization ≡ false
        → bearer_token c.authorization ≡ some token
        → (validator.validate_access_token token s).0 ≡ ok claims
        → IsStopped ⊎ IsSelf
    unfolding jwt_auth_middleware ensure_self_middleware
    valid_token_cases token claims present carried valid =
        elim (ensure_target_cases target claims.0.user_id (authenticated claims.0 c)
          (validator.validate_access_token token s).1) [
            | inl (o, a, stops) ↦
                inl (stopped-at o a (λ any. rw (validated, present, carried, valid) (stops any)))
            | inr (own, on) ↦ inr (record {
              token = token;
              claims = claims.0;
              standard = claims.1;
              carried = carried;
              valid = valid;
              own = own;
              handed_on = rw (jwt_auth_middleware, present, carried, valid) (on next);
            })
          ]

    -- Of a request to the two middlewares, either the chain stops it without running the handler
    -- (any other handler gives the same result), with an aborted context or a panic, and in the
    -- state that the validation has left, or it carries a token that validates for the user that
    -- it names as its target, and the handler runs with that user set, in that state.
    pub jwt_auth-ensure_self : IsStopped ⊎ IsSelf
    unfolding jwt_auth_middleware ensure_self_middleware abort_with
    jwt_auth-ensure_self = elim (Bool-cases (is_empty c.authorization)) [
      | inl absent ↦ inl (
          stopped-at (guarded next).0 (rw (absent) refl)
            (λ any. rw (validated, absent, headerless c.authorization absent) refl))
      | inr present ↦ elim (Option-cases (bearer_token c.authorization)) [
        | inl carried_none ↦ inl (
            stopped-at (guarded next).0 (rw (present, carried_none) refl)
              (λ any. rw (validated, present, carried_none) refl))
        | inr (token, carried) ↦ elim (Outcome-cases (validator.validate_access_token token s).0) [
          | was_ok claims valid ↦ valid_token_cases token claims present carried valid
          | was_err e invalid ↦ inl (
              stopped-at (guarded next).0 (rw (present, carried, invalid) refl)
                (λ any. rw (validated, present, carried, invalid) refl))
          | was_panic m crashed ↦
              inl (stopped-at (panic m) tt (λ any. rw (validated, present, carried, crashed) refl))
        ]
      ]
    ]
