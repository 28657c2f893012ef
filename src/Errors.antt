-- ===== src/Errors.antt =====
-- internal/domain/errors/errors.go: the application's error values, and the walk of an error
-- chain by the standard library's `errors.Is` and `errors.As`.
--
-- `errors.Is` compares the pointers of `*AppError` values, so a value carries where it was made:
-- `declared s` is the package variable `s`, `copied` is an allocation made by `Wrap` or
-- `WithMessage`, which is equal to no package variable.
pub mod Chain
use boot_backend_go_clean.Common.{ℕ, String}
use Prim.Native.String.{◌++◌}

-- The package variables `Err…`.
pub data Sentinel : Type 0 where
  err_internal err_bad_request err_not_found err_unauthorized err_forbidden err_conflict : Sentinel
  err_too_many_requests err_request_timeout : Sentinel
  err_username_exists err_email_exists err_invalid_credentials err_token_blacklisted : Sentinel
  err_token_invalid err_token_signing_method : Sentinel
  err_user_not_found err_validation_failed : Sentinel
  err_no_rows_affected err_permission_denied err_local_image_moderation : Sentinel

pub data Origin : Type 0 where
  declared : Sentinel → Origin
  copied : Origin

mutual
  -- A Go `error` that is not nil.
  pub data Error : Type 0 where
    -- errors.New(text), or an error of a library with that text
    text_error : String → Error
    -- fmt.Errorf("prefix: %w", err)
    wrapped : String → Error → Error
    -- gorm.ErrRecordNotFound
    record_not_found : Error
    app : AppError → Error

  -- Origin, Code, Message, HTTPCode, Err
  pub data AppError : Type 0 where
    app_error : Origin → String → String → ℕ → Cause → AppError

  -- The field `Err`, which may be nil.
  pub data Cause : Type 0 where
    nil : Cause
    cause : Error → Cause

abbrev pub origin : AppError → Origin
origin (app_error o c m h e) = o

abbrev pub code : AppError → String
code (app_error o c m h e) = c

abbrev pub message : AppError → String
message (app_error o c m h e) = m

abbrev pub http_code : AppError → ℕ
http_code (app_error o c m h e) = h

-- Unwrap
abbrev pub unwrap : AppError → Cause
unwrap (app_error o c m h e) = e

-- The struct that a package variable points to.
abbrev declare : Sentinel → String → String → ℕ → AppError
declare s c m h = app_error (declared s) c m h nil

unfoldable pub sentinel : Sentinel → AppError
sentinel err_internal = declare err_internal "INTERNAL_ERROR" "Internal server error" 500
sentinel err_bad_request = declare err_bad_request "BAD_REQUEST" "Invalid request" 400
sentinel err_not_found = declare err_not_found "NOT_FOUND" "Resource not found" 404
sentinel err_unauthorized = declare err_unauthorized "UNAUTHORIZED" "Unauthorized" 401
sentinel err_forbidden = declare err_forbidden "FORBIDDEN" "Permission denied" 403
sentinel err_conflict = declare err_conflict "CONFLICT" "Resource conflict" 409
sentinel err_too_many_requests =
    declare err_too_many_requests "RATE_LIMITED" "Rate limit exceeded. Please try again later." 429
sentinel err_request_timeout = declare err_request_timeout "REQUEST_TIMEOUT" "Request timeout" 408
sentinel err_username_exists =
    declare err_username_exists "USERNAME_ALREADY_EXISTS" "Username already exists" 409
sentinel err_email_exists =
    declare err_email_exists "EMAIL_ALREADY_EXISTS" "Email already exists" 409
sentinel err_invalid_credentials =
    declare err_invalid_credentials "INVALID_CREDENTIALS" "Invalid username or password" 401
sentinel err_token_blacklisted =
    declare err_token_blacklisted "TOKEN_REVOKED" "Token has been revoked" 401
sentinel err_token_invalid =
    declare err_token_invalid "TOKEN_INVALID" "Invalid or expired token" 401
sentinel err_token_signing_method =
    declare err_token_signing_method "TOKEN_SIGNING_INVALID" "Unexpected token signing method" 401
sentinel err_user_not_found = declare err_user_not_found "USER_NOT_FOUND" "User not found" 404
sentinel err_validation_failed =
    declare err_validation_failed "VALIDATION_FAILED" "Validation failed" 400
sentinel err_no_rows_affected =
    declare err_no_rows_affected "NO_ROWS_AFFECTED" "No rows affected" 404
sentinel err_permission_denied =
    declare err_permission_denied "PERMISSION_DENIED" "Permission denied for this operation" 403
sentinel err_local_image_moderation =
    declare err_local_image_moderation "IMAGE_MODERATION_UNSUPPORTED"
      "Local environment does not support image content moderation" 501

-- The variable itself, as an error value.
abbrev pub fail : Sentinel → Error
fail s = app (sentinel s)

-- Wrap
unfoldable pub wrap : AppError → Error → AppError
wrap (app_error o c m h e) err = app_error copied c m h (cause err)

-- WithMessage
unfoldable pub with_message : AppError → String → AppError
with_message (app_error o c m h e) msg = app_error copied c msg h e

unfoldable mutual
  -- Error(), of any error value
  pub error_text : Error → String
  error_text (text_error t) = t
  error_text (wrapped prefix e) = prefix ++ ": " ++ error_text e
  error_text record_not_found = "record not found"
  error_text (app a) = app_error_text a

  pub app_error_text : AppError → String
  app_error_text (app_error o c m h e) = "[" ++ c ++ "] " ++ m ++ cause_text e

  pub cause_text : Cause → String
  cause_text nil = ""
  cause_text (cause e) = ": " ++ error_text e
