-- ===== src/Controller/Update.antt =====
-- PUT /v1/api/users/:id: UpdateUser of internal/interfaces/http/controller/user_controller.go, over
-- internal/usecase/user_usecase.go and the JSON tags of internal/domain/entity/user.go.
use boot_backend_go_clean.Common.{String, ◌≡◌, ap, [], Bool-cases, refl, arith, some, inl, inr}
use boot_backend_go_clean.Common.Text.{byte_length}
use boot_backend_go_clean.Errors.{Error, text_error}
use boot_backend_go_clean.Effect.{ok, err}
use boot_backend_go_clean.Entity.{User}
use boot_backend_go_clean.Validation.{is_empty, is_valid_email, normalize_email, validate}
use boot_backend_go_clean.Repository.{Context, UserRepository}
use boot_backend_go_clean.UserUseCase
use boot_backend_go_clean.Response.{http_code_from_error, new_error_response}
use boot_backend_go_clean.Http.{GinContext, json}
use boot_backend_go_clean.Controller.{UserBody, user_of_body, new_user_use_case, update_user}

validate-no_password :
    (u : User) → u.password ≡ [] → (m : String) × ((validate u).1 ≡ some (text_error m))
unfolding validate byte_length
validate-no_password u bare = elim (Bool-cases (is_empty u.username)) [
  | inl h ↦ ("username cannot be empty", ground arith)
  | inr h ↦ elim (Bool-cases (is_empty u.email)) [
    | inl h2 ↦ ("email cannot be empty", ground arith)
    | inr h2 ↦ elim (Bool-cases (is_valid_email (normalize_email u.email))) [
      | inl h3 ↦
          ("password must be at least 8 characters long", ground (arith, ap byte_length bare))
      | inr h3 ↦ ("invalid email format", ground arith)
    ]
  ]
]

module _ {S : Type 0} (repo : UserRepository S) (ctx : Context) (c : GinContext) (s : S) where
  -- UpdateUser never succeeds and never reaches the repository: a body that binds gets the status
  -- 500, since it carries no password and Validate refuses a user without one, and one that does
  -- not bind gets 400.
  pub update_user_always_fails :
      (body : UserBody) (e : Error)
      → ((m : String) × (update_user (new_user_use_case repo) ctx (ok body) c s ≡ (
        ok (json 500 (new_error_response "Failed to update user" (some (text_error m))) c),
        s,
      )))
        × (update_user (new_user_use_case repo) ctx (err e) c s
            ≡ (ok (json 400 (new_error_response "Invalid input" (some e)) c), s))
  unfolding update_user UserUseCase.update_user http_code_from_error
  update_user_always_fails body e =
      let (m, refused) = validate-no_password (user_of_body body) refl in
      ((m, rw (UserUseCase.update_user, refused) refl), refl)
