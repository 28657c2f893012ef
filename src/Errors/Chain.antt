-- ===== src/Errors/Chain.antt =====
-- `errors.Is` and `errors.As` on the error chains of internal/domain/errors/errors.go and of
-- the copies that `Wrap` and `WithMessage` make.
use boot_backend_go_clean.Common.{
  ℕ, zero, suc, List, [], ◌∷◌, String, ◌≡◌, refl, sym, ap, ◌∙◌, ◌↔◌, ==_iff, arith, Bool, true,
  false, ◌||◌, Option, none, some, ◌==◌,
}
use boot_backend_go_clean.Errors.{
  Sentinel, err_internal, err_bad_request, err_not_found, err_unauthorized, err_forbidden,
  err_conflict, err_too_many_requests, err_request_timeout, err_username_exists, err_email_exists,
  err_invalid_credentials, err_token_blacklisted, err_token_invalid, err_token_signing_method,
  err_user_not_found, err_validation_failed, err_no_rows_affected, err_permission_denied,
  err_local_image_moderation, Origin, declared, Error, text_error, wrapped, record_not_found, app,
  AppError, app_error, Cause, nil, cause, code, message, http_code, unwrap, sentinel, fail, wrap,
  with_message,
}

-- A number for each package variable, as its address.
abbrev address : Sentinel → ℕ
address err_internal = 0
address err_bad_request = 1
address err_not_found = 2
address err_unauthorized = 3
address err_forbidden = 4
address err_conflict = 5
address err_too_many_requests = 6
address err_request_timeout = 7
address err_username_exists = 8
address err_email_exists = 9
address err_invalid_credentials = 10
address err_token_blacklisted = 11
address err_token_invalid = 12
address err_token_signing_method = 13
address err_user_not_found = 14
address err_validation_failed = 15
address err_no_rows_affected = 16
address err_permission_denied = 17
address err_local_image_moderation = 18

-- What a call of `errors.Is` looks for.
pub data Target : Type 0 where
  variable : Sentinel → Target
  gorm_not_found : Target

abbrev points_to : Origin → Target → Bool
points_to (declared s) (variable t) = address s == address t
points_to _ _ = false

unfoldable mutual
  -- errors.Is(err, target)
  pub errors_is : Error → Target → Bool
  errors_is (text_error t) target = false
  errors_is (wrapped prefix e) target = errors_is e target
  errors_is record_not_found gorm_not_found = true
  errors_is record_not_found (variable s) = false
  errors_is (app a) target = app_error_is a target

  pub app_error_is : AppError → Target → Bool
  app_error_is (app_error o c m h e) target = points_to o target || cause_is e target

  pub cause_is : Cause → Target → Bool
  cause_is nil target = false
  cause_is (cause e) target = errors_is e target

-- errors.As(err, &appErr): the first *AppError of the chain.
unfoldable pub as_app_error : Error → Option AppError
as_app_error (text_error t) = none
as_app_error (wrapped prefix e) = as_app_error e
as_app_error record_not_found = none
as_app_error (app a) = some a

-- A copy made by `Wrap` is found where its cause is, and is no longer equal to the package variable
-- it was made from.
pub wrap_lem :
    (a : AppError) (err : Error) (target : Target)
    → (code (wrap a err) ≡ code a)
      × (message (wrap a err) ≡ message a)
      × (http_code (wrap a err) ≡ http_code a)
      × (unwrap (wrap a err) ≡ cause err)
      × (errors_is (app (wrap a err)) target ≡ errors_is err target)
unfolding wrap errors_is
wrap_lem (app_error o c m h e) err target = (refl, refl, refl, refl, refl)

entry : ℕ → List Sentinel → Sentinel
entry n [] = err_local_image_moderation
entry zero (s ∷ rest) = s
entry (suc n) (s ∷ rest) = entry n rest

at_address : ℕ → Sentinel
unfolding entry
at_address n = entry n (
    err_internal ∷ err_bad_request ∷ err_not_found ∷ err_unauthorized ∷ err_forbidden ∷ err_conflict
    ∷ err_too_many_requests ∷ err_request_timeout ∷ err_username_exists ∷ err_email_exists
    ∷ err_invalid_credentials ∷ err_token_blacklisted ∷ err_token_invalid ∷ err_token_signing_method
    ∷ err_user_not_found ∷ err_validation_failed ∷ err_no_rows_affected ∷ err_permission_denied
    ∷ err_local_image_moderation ∷ [])

at_address-address : (s : Sentinel) → at_address (address s) ≡ s
unfolding at_address
at_address-address err_internal = refl
at_address-address err_bad_request = refl
at_address-address err_not_found = refl
at_address-address err_unauthorized = refl
at_address-address err_forbidden = refl
at_address-address err_conflict = refl
at_address-address err_too_many_requests = refl
at_address-address err_request_timeout = refl
at_address-address err_username_exists = refl
at_address-address err_email_exists = refl
at_address-address err_invalid_credentials = refl
at_address-address err_token_blacklisted = refl
at_address-address err_token_invalid = refl
at_address-address err_token_signing_method = refl
at_address-address err_user_not_found = refl
at_address-address err_validation_failed = refl
at_address-address err_no_rows_affected = refl
at_address-address err_permission_denied = refl
at_address-address err_local_image_moderation = refl

address_iff : (s t : Sentinel) → ((address s == address t) ≡ true) ↔ (s ≡ t)
address_iff s t = (
  λ h.
      sym (at_address-address s)
      ∙ ap at_address ((==_iff (address s) (address t)).0 h)
      ∙ at_address-address t,
  λ e. (==_iff (address s) (address t)).1 (ap address e),
)

errors_is-fail :
    (s t : Sentinel) → errors_is (fail s) (variable t) ≡ (address s == address t || false)
unfolding errors_is sentinel
errors_is-fail err_internal t = refl
errors_is-fail err_bad_request t = refl
errors_is-fail err_not_found t = refl
errors_is-fail err_unauthorized t = refl
errors_is-fail err_forbidden t = refl
errors_is-fail err_conflict t = refl
errors_is-fail err_too_many_requests t = refl
errors_is-fail err_request_timeout t = refl
errors_is-fail err_username_exists t = refl
errors_is-fail err_email_exists t = refl
errors_is-fail err_invalid_credentials t = refl
errors_is-fail err_token_blacklisted t = refl
errors_is-fail err_token_invalid t = refl
errors_is-fail err_token_signing_method t = refl
errors_is-fail err_user_not_found t = refl
errors_is-fail err_validation_failed t = refl
errors_is-fail err_no_rows_affected t = refl
errors_is-fail err_permission_denied t = refl
errors_is-fail err_local_image_moderation t = refl

unwrap-sentinel : (s : Sentinel) → unwrap (sentinel s) ≡ nil
unfolding sentinel
unwrap-sentinel err_internal = refl
unwrap-sentinel err_bad_request = refl
unwrap-sentinel err_not_found = refl
unwrap-sentinel err_unauthorized = refl
unwrap-sentinel err_forbidden = refl
unwrap-sentinel err_conflict = refl
unwrap-sentinel err_too_many_requests = refl
unwrap-sentinel err_request_timeout = refl
unwrap-sentinel err_username_exists = refl
unwrap-sentinel err_email_exists = refl
unwrap-sentinel err_invalid_credentials = refl
unwrap-sentinel err_token_blacklisted = refl
unwrap-sentinel err_token_invalid = refl
unwrap-sentinel err_token_signing_method = refl
unwrap-sentinel err_user_not_found = refl
unwrap-sentinel err_validation_failed = refl
unwrap-sentinel err_no_rows_affected = refl
unwrap-sentinel err_permission_denied = refl
unwrap-sentinel err_local_image_moderation = refl

unnamed :
    (a : AppError) (m : String) (t : Sentinel)
    → unwrap a ≡ nil
    → errors_is (app (with_message a m)) (variable t) ≡ false
unfolding errors_is with_message
unnamed (app_error o c m h nil) text t e = refl
unnamed (app_error o c m h (cause x)) text t e = cc

-- One step of a chain of errors: a copy that `Wrap` makes, or the prefix of fmt.Errorf with %w.
pub data Layer : Type 0 where
  copy : AppError → Layer
  prefixed : String → Layer

-- An error below any number of them, the outermost one first.
pub below : List Layer → Error → Error
unfolding wrap
below [] e = e
below (copy a ∷ layers) e = app (wrap a (below layers e))
below (prefixed prefix ∷ layers) e = wrapped prefix (below layers e)

errors_is-below :
    (layers : List Layer) (e : Error) (t : Target) → errors_is (below layers e) t ≡ errors_is e t
unfolding errors_is below
errors_is-below [] e t = refl
errors_is-below (copy a ∷ layers) e t =
    let (_, _, _, _, same) = wrap_lem a (below layers e) t in same ∙ errors_is-below layers e t
errors_is-below (prefixed prefix ∷ layers) e t = errors_is-below layers e t

-- `errors.Is` finds a package variable, below any number of copies made by `Wrap` and of prefixes,
-- under its own name and under no other; a copy that `WithMessage` has made of a package variable
-- is found under no name at all, wherever it stands in such a chain.
pub errors_is_iff :
    (s t : Sentinel) (layers : List Layer) (text : String)
    → ((errors_is (below layers (fail s)) (variable t) ≡ true) ↔ (s ≡ t))
      × (errors_is (below layers (app (with_message (sentinel s) text))) (variable t) ≡ false)
errors_is_iff s t layers text = (
  rw (errors_is-below layers (fail s) (variable t)) direct,
  errors_is-below layers (app (with_message (sentinel s) text)) (variable t)
      ∙ unnamed (sentinel s) text t (unwrap-sentinel s),
)
  where
    direct : (errors_is (fail s) (variable t) ≡ true) ↔ (s ≡ t)
    direct = (
      λ h. (address_iff s t).0 (ground (arith, h, errors_is-fail s t)),
      λ e. ground (arith, (address_iff s t).1 e, errors_is-fail s t),
    )
