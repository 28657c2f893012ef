-- ===== src/Response.antt =====
-- internal/domain/entity/response/response.go: the body of every reply. `payload` is the field
-- `Data`, none where it is nil.
pub mod Laws
use boot_backend_go_clean.Common.{ℕ, String, Bool, Option, none, some, List}
use boot_backend_go_clean.Common.Int.{ℤ, ◌*ℤ◌, ltb_ℤ, wrap64}
use boot_backend_go_clean.Errors
use boot_backend_go_clean.Errors.{Error, http_code}
use boot_backend_go_clean.Errors.Chain.{as_app_error}

pub data ResStatus : Type 0 where
  status_success status_error : ResStatus

pub record ErrorDetails : Type 0 where
  pub code : String
  pub message : String

pub record MetaInfo : Type 0 where
  pub debug : String

pub record Response {ℓ} (T : Type ℓ) : Type ℓ where
  pub status : ResStatus
  pub message : String
  pub payload : Option T
  pub error : Option ErrorDetails
  pub meta : Option MetaInfo

pub record Pagination : Type 0 where
  pub current : ℤ
  pub page_size : ℤ
  pub total : ℤ
  pub has_next : Bool
  pub next_page_token : String

pub record PageData {ℓ} (T : Type ℓ) : Type ℓ where
  pub list : List T
  pub pagination : Pagination
  pub extra : Option T

-- The details of NewErrorResponse; `err` is none where it is nil.
abbrev pub error_details : String → Option Error → ErrorDetails
error_details message none = record { code = "INTERNAL_ERROR"; message = message }
error_details message (some e) = elim (as_app_error e) [
  | none ↦ record { code = "INTERNAL_ERROR"; message = message }
  | some a ↦ record { code = Errors.code a; message = Errors.message a }
]

abbrev pub paginate : ℤ → ℤ → ℤ → Pagination
paginate current page_size total = record {
  current = current;
  page_size = page_size;
  total = total;
  has_next = ltb_ℤ (wrap64 (current *ℤ page_size)) total;
  next_page_token = "";
}

module _ {ℓ} {T : Type ℓ} where
  -- NewSuccessResponse
  unfoldable pub new_success_response : String → Option T → Response T
  new_success_response message payload = record {
    status = status_success;
    message = message;
    payload = payload;
    error = none;
    meta = none;
  }

  -- NewErrorResponse
  unfoldable pub new_error_response : String → Option Error → Response T
  unfolding as_app_error
  new_error_response message err = record {
    status = status_error;
    message = message;
    payload = none;
    error = some (error_details message err);
    meta = none;
  }

  -- NewPageResponse, NewPageResponseWithExtra
  unfoldable pub new_page_response_with_extra :
      String → List T → ℤ → ℤ → ℤ → Option T → Response (PageData T)
  unfolding wrap64 ◌*ℤ◌
  new_page_response_with_extra message list current page_size total extra = record {
    status = status_success;
    message = message;
    payload =
        some (record { list = list; pagination = paginate current page_size total; extra = extra });
    error = none;
    meta = none;
  }

  unfoldable pub new_page_response : String → List T → ℤ → ℤ → ℤ → Response (PageData T)
  unfolding new_page_response_with_extra
  new_page_response message list current page_size total =
      new_page_response_with_extra message list current page_size total none

-- HTTPCodeFromError
unfoldable pub http_code_from_error : Error → ℕ → ℕ
unfolding as_app_error
http_code_from_error err fallback = elim (as_app_error err) [
  | none ↦ fallback
  | some a ↦ http_code a
]
