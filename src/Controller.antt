-- ===== src/Controller.antt =====
-- internal/interfaces/http/controller/auth_controller.go and user_controller.go, over the
-- interfaces of internal/domain/usecase. What gin's ShouldBindJSON makes of a body is an
-- argument.
pub mod Update
use boot_backend_go_clean.Common.{ℕ, String, Option, none, some, []}
use boot_backend_go_clean.Common.Int.{ℤ}
use boot_backend_go_clean.Common.Text.{Text}
use boot_backend_go_clean.Errors.{Error}
use boot_backend_go_clean.Effect.{Outcome, ok, err, panic, Action, pure, lift, handle, catch}
use boot_backend_go_clean.Entity.{
  User, RegisterRequest, RegisterResponse, LoginRequest, LoginResponse, RefreshTokenRequest,
  RefreshTokenResponse, LogoutRequest,
}
use boot_backend_go_clean.Repository.{Context, UserRepository, TxManager, Authenticator, Bcrypt}
use boot_backend_go_clean.AuthUseCase
use boot_backend_go_clean.UserUseCase
use boot_backend_go_clean.Response.{new_success_response, new_error_response, http_code_from_error}
use boot_backend_go_clean.Http.{
  Payload, registered, logged_in, refreshed, user_found, GinContext, Handler, json,
}
use boot_backend_go_clean.Http.Number.{parse_int}
use boot_backend_go_clean.Middleware.{get_user_id_from_context}

-- internal/domain/usecase/auth_usecase.go, user_usecase.go
pub record AuthOperations (S : Type 0) : Type 0 where
  pub register : Context → RegisterRequest → Action S RegisterResponse
  pub login : Context → LoginRequest → Action S LoginResponse
  pub refresh_token : Context → RefreshTokenRequest → Action S RefreshTokenResponse
  pub logout : Context → LogoutRequest → Action S Unit

pub record UserOperations (S : Type 0) : Type 0 where
  pub get_user_by_id : Context → ℤ → Action S User
  pub update_user : Context → User → Action S Unit
  pub soft_delete_user : Context → ℤ → Action S Unit

-- The JSON of an entity.User, whose field Password has the tag `json:"-"`.
pub record UserBody : Type 0 where
  pub id : ℤ
  pub username : Text
  pub email : Text
  pub avatar_url : Option Text
  pub created_at : ℤ
  pub updated_at : Option ℤ
  pub deleted_at : Option ℤ

abbrev pub user_of_body : UserBody → User
user_of_body body = record {
  id = body.id;
  username = body.username;
  email = body.email;
  password = [];
  avatar_url = body.avatar_url;
  created_at = body.created_at;
  updated_at = body.updated_at;
  deleted_at = body.deleted_at;
}

module _ {S : Type 0} where
  abbrev succeed : ℕ → String → Option Payload → Handler S
  succeed code message payload c = pure (json code (new_success_response message payload) c)

  -- The status of an error of the use case, with the fallback of the handler.
  abbrev pub fail_with : ℕ → String → GinContext → Error → Action S GinContext
  fail_with fallback message c e =
      pure (json (http_code_from_error e fallback) (new_error_response message (some e)) c)

  abbrev bad_request : String → GinContext → Error → Action S GinContext
  bad_request message c e = pure (json 400 (new_error_response message (some e)) c)

module _ {S : Type 0} (use_case : AuthOperations S) (ctx : Context) where
  -- AuthController.Register
  unfoldable pub register : Outcome RegisterRequest → Handler S
  unfolding new_success_response new_error_response http_code_from_error
  register bound c =
      catch (lift bound)
        (λ req.
          catch (use_case.register ctx req)
            (λ resp. succeed 201 "User registered successfully" (some (registered resp)) c)
            (fail_with 500 "Registration failed" c))
        (bad_request "Invalid input" c)

  -- AuthController.Login
  unfoldable pub login : Outcome LoginRequest → Handler S
  unfolding new_success_response new_error_response http_code_from_error
  login bound c =
      catch (lift bound)
        (λ req.
          catch (use_case.login ctx req)
            (λ resp. succeed 200 "Login successful" (some (logged_in resp)) c)
            (fail_with 401 "Login failed" c))
        (bad_request "Invalid input" c)

  -- AuthController.RefreshToken
  unfoldable pub refresh_token : Outcome RefreshTokenRequest → Handler S
  unfolding new_success_response new_error_response http_code_from_error
  refresh_token bound c =
      catch (lift bound)
        (λ req.
          catch (use_case.refresh_token ctx req)
            (λ resp. succeed 200 "Token refreshed successfully" (some (refreshed resp)) c)
            (fail_with 401 "Token refresh failed" c))
        (bad_request "Invalid input" c)

  -- AuthController.Logout
  unfoldable pub logout : Outcome LogoutRequest → Handler S
  unfolding new_success_response new_error_response http_code_from_error
  logout bound c =
      catch (lift bound)
        (λ req.
          catch (use_case.logout ctx req) (λ _. succeed 200 "Logged out successfully" none c)
            (fail_with 500 "Logout failed" c))
        (bad_request "Invalid input" c)

module _ {S : Type 0} (use_case : UserOperations S) (ctx : Context) where
  -- The end of GetUser and of GetCurrentUser.
  abbrev answer_user : GinContext → ℤ → Action S GinContext
  answer_user c user_id =
      catch (use_case.get_user_by_id ctx user_id)
        (λ user. succeed 200 "User retrieved successfully" (some (user_found user)) c)
        (fail_with 500 "Failed to get user" c)

  -- UserController.GetUser
  unfoldable pub get_user : Handler S
  unfolding new_success_response new_error_response http_code_from_error parse_int
  get_user c = catch (lift (parse_int c.id_param)) (answer_user c) (bad_request "Invalid user ID" c)

  -- UserController.GetCurrentUser
  unfoldable pub get_current_user : Handler S
  unfolding new_success_response new_error_response http_code_from_error
  get_current_user c = elim (get_user_id_from_context c) [
    | none ↦ pure (json 401 (new_error_response "Unauthorized" none) c)
    | some user_id ↦ answer_user c user_id
  ]

  -- UserController.UpdateUser
  unfoldable pub update_user : Outcome UserBody → Handler S
  unfolding new_success_response new_error_response http_code_from_error
  update_user bound c =
      catch (lift bound)
        (λ body.
          catch (use_case.update_user ctx (user_of_body body))
            (λ _. succeed 200 "User updated successfully" none c)
            (fail_with 500 "Failed to update user" c))
        (bad_request "Invalid input" c)

  -- UserController.DeleteUser
  unfoldable pub delete_user : Handler S
  unfolding new_success_response new_error_response http_code_from_error parse_int
  delete_user c =
      catch (lift (parse_int c.id_param))
        (λ user_id.
          catch (use_case.soft_delete_user ctx user_id)
            (λ _. succeed 200 "User deleted successfully" none c)
            (fail_with 500 "Failed to delete user" c))
        (bad_request "Invalid user ID" c)

-- NewAuthUseCase, NewUserUseCase
abbrev pub new_auth_use_case :
    {S : Type 0}
    → UserRepository S
    → Authenticator S
    → TxManager S
    → Bcrypt S
    → ℤ
    → AuthOperations S
new_auth_use_case repo auth tx bcrypt lifetime = record {
  register = AuthUseCase.register repo auth tx bcrypt lifetime;
  login = AuthUseCase.login repo auth tx bcrypt lifetime;
  refresh_token = AuthUseCase.refresh_token repo auth tx bcrypt lifetime;
  logout = AuthUseCase.logout repo auth tx bcrypt lifetime;
}

abbrev pub new_user_use_case : {S : Type 0} → UserRepository S → UserOperations S
new_user_use_case repo = record {
  get_user_by_id = UserUseCase.get_user_by_id repo;
  update_user = UserUseCase.update_user repo;
  soft_delete_user = UserUseCase.soft_delete_user repo;
}
