-- ===== src/Response/Laws.antt =====
-- What the bodies of internal/domain/entity/response/response.go tell a client.
use boot_backend_go_clean.Common.{ℕ, String, ◌^◌, ◌≤◌, ◌<◌, ◌≡◌, refl, ◌↔◌, true, none, some, arith}
use boot_backend_go_clean.Common.Int.{ℤ, pos, ◌*ℤ◌, ◌<ℤ◌, wrap64, wrap64_exact, InInt64}
use boot_backend_go_clean.Errors.{Error, app, AppError, app_error, wrap}
use boot_backend_go_clean.Errors.Chain.{as_app_error}
use boot_backend_go_clean.Response.{paginate, new_error_response, http_code_from_error}

same_public :
    (message : String) (fallback : ℕ) (a : AppError) (cause : Error)
    → (new_error_response {T = Unit {0}} message (some (app (wrap a cause)))
        ≡ new_error_response message (some (app a)))
      × (http_code_from_error (app (wrap a cause)) fallback ≡ http_code_from_error (app a) fallback)
unfolding new_error_response http_code_from_error wrap
same_public message fallback (app_error o c m h e) cause = (refl, refl)

-- The cause of an `AppError` reaches no client: the body and the status are those of the error
-- without it. Of an error with no `AppError` in its chain a client learns nothing but the caller's
-- own message and status.
pub cause_is_hidden :
    (message : String) (fallback : ℕ) (a : AppError) (cause e : Error)
    → as_app_error e ≡ none
    → (new_error_response {T = Unit {0}} message (some (app (wrap a cause)))
        ≡ new_error_response message (some (app a)))
      × (http_code_from_error (app (wrap a cause)) fallback ≡ http_code_from_error (app a) fallback)
      × (new_error_response {T = Unit {0}} message (some e) ≡ new_error_response message none)
      × (http_code_from_error e fallback ≡ fallback)
unfolding new_error_response http_code_from_error wrap
cause_is_hidden message fallback a cause e h =
    let (body, status) = same_public message fallback a cause in
    (body, status, ground arith, ground arith)

-- `HasNext` is exact as long as the product of page and page size fits an `int64`.
pub has_next_iff :
    (current page_size total : ℤ)
    → InInt64 (current *ℤ page_size)
    → (paginate current page_size total).has_next ≡ true ↔ (current *ℤ page_size <ℤ total)
has_next_iff current page_size total fits = rw (wrap64_exact _ fits) (ground arith)

-- Where the product passes the largest `int64`, and is below 2^64, it wraps to a negative number,
-- and `HasNext` is true of every total, though the pages up to this one hold more than any.
pub has_next_overflows :
    (current page_size : ℤ) (n t : ℕ)
    → current *ℤ page_size ≡ pos n
    → 2 ^ 63 ≤ n
    → n < 2 ^ 64
    → (paginate current page_size (pos t)).has_next ≡ true
unfolding wrap64
has_next_overflows current page_size n t e h k = rw e (ground arith)
