-- ===== src/AuthUseCase.antt =====
-- internal/usecase/auth_usecase.go.
pub mod Login
pub mod Register
pub mod Transaction
use boot_backend_go_clean.Common.{Bool, true, false, Option, none, some, if◌then◌else◌}
use boot_backend_go_clean.Common.Int.{ℤ, ◌*ℤ◌, wrap64}
use boot_backend_go_clean.Common.Text.{Text}
use boot_backend_go_clean.Errors.{
  err_internal, err_username_exists, err_email_exists, err_invalid_credentials,
  err_token_blacklisted, err_token_invalid, err_user_not_found, err_validation_failed, Error, app,
  sentinel, fail, wrap, with_message, error_text,
}
use boot_backend_go_clean.Errors.Chain.{variable, errors_is}
use boot_backend_go_clean.Effect.{
  Outcome, ok, err, panic, Action, pure, throw, lift, continue, handle, catch, ◌>>=◌, ◌>>◌,
}
use boot_backend_go_clean.Entity.{
  User, zero_time, hour, RegisterRequest, RegisterResponse, LoginRequest, LoginResponse,
  RefreshTokenRequest, RefreshTokenResponse, LogoutRequest,
}
use boot_backend_go_clean.Common.Int.{pos}
use boot_backend_go_clean.Validation.{validate}
use boot_backend_go_clean.Repository.{Context, UserRepository, TxManager, Authenticator, Bcrypt}

-- ErrInternal.Wrap(err)
abbrev pub internal : Error → Error
internal e = app (wrap (sentinel err_internal) e)

-- &entity.User{Username: …, Email: …, Password: …}
abbrev pub new_user : RegisterRequest → User
new_user req = record {
  id = pos 0;
  username = req.username;
  email = req.email;
  password = req.password;
  avatar_url = none;
  created_at = zero_time;
  updated_at = none;
  deleted_at = none;
}

-- time.Duration(a.config.RefreshTokenLifetime)*time.Hour
unfoldable pub hours : ℤ → ℤ
unfolding wrap64 ◌*ℤ◌
hours n = wrap64 (n *ℤ hour)

module _ {S : Type 0} where
  -- A lookup that has to find nobody: `existing, err := find(…)` and the two tests after it.
  unfoldable pub ensure_absent : Action S User → Error → Action S Unit
  unfolding errors_is wrap sentinel
  ensure_absent find taken =
      catch find (λ existing. throw taken)
        (λ e. if errors_is e (variable err_user_not_found) then pure tt else throw (internal e))

module _ {S : Type 0} (repo : UserRepository S) (auth : Authenticator S) (tx : TxManager S)
    (bcrypt : Bcrypt S) (refresh_token_lifetime : ℤ) where
  -- The callback of Register.
  unfoldable pub create_unless_taken : RegisterRequest → User → Context → Action S User
  unfolding ensure_absent
  create_unless_taken req user ctx = do
    ensure_absent (repo.find_by_username ctx req.username) (fail err_username_exists)
    ensure_absent (repo.find_by_email ctx req.email) (fail err_email_exists)
    repo.create ctx user

  -- Register after Validate has returned nil.
  unfoldable pub register_valid : Context → RegisterRequest → User → Action S RegisterResponse
  unfolding create_unless_taken
  register_valid ctx req user =
      catch (bcrypt.generate_from_password req.password)
        (λ hash. do
          created ← tx.with_tx ctx (create_unless_taken req (record user { password = hash }))
          pure (record { user = created }))
        (λ e. throw (internal e))

  -- Register after Validate, with the user and the error that it has left.
  unfoldable pub register_validated :
      Context → RegisterRequest → User × Option Error → Action S RegisterResponse
  unfolding register_valid with_message sentinel
  register_validated ctx req (user, some e) =
      throw (app (with_message (sentinel err_validation_failed) (error_text e)))
  register_validated ctx req (user, none) = register_valid ctx req user

  -- Register
  unfoldable pub register : Context → RegisterRequest → Action S RegisterResponse
  unfolding register_validated validate
  register ctx req = register_validated ctx req (validate (new_user req))

  -- Login after the user has been found.
  unfoldable pub login_user : LoginRequest → User → Action S LoginResponse
  unfolding wrap sentinel
  login_user req user = elim (bcrypt.compare_hash_and_password user.password req.password) [
    | some e ↦ throw (fail err_invalid_credentials)
    | none ↦
        catch (auth.generate_token_pair user)
          (λ pair. pure (record {
            access_token = pair.access_token;
            refresh_token = pair.refresh_token;
            expires_at = pair.expires_at;
            user = user;
          }))
          (λ e. throw (internal e))
  ]

  -- Login
  unfoldable pub login : Context → LoginRequest → Action S LoginResponse
  unfolding login_user errors_is wrap sentinel
  login ctx req = catch (repo.find_by_username ctx req.username) (login_user req) (λ e.
      if errors_is e (variable err_user_not_found)
      then throw (fail err_invalid_credentials)
      else throw (internal e))

  -- RefreshToken after the user has been found.
  unfoldable pub rotate : RefreshTokenRequest → User → Action S RefreshTokenResponse
  unfolding wrap sentinel hours
  rotate req user =
      catch (auth.generate_token_pair user)
        (λ pair. do
          auth.blacklist_token req.refresh_token (hours refresh_token_lifetime)
          pure (record {
            access_token = pair.access_token;
            refresh_token = pair.refresh_token;
            expires_at = pair.expires_at;
          }))
        (λ e. throw (internal e))

  -- RefreshToken after the token has been validated, for the user that it names.
  unfoldable pub exchange : Context → RefreshTokenRequest → ℤ → Action S RefreshTokenResponse
  unfolding rotate errors_is wrap sentinel
  exchange ctx req user_id = catch (repo.find_by_id ctx user_id) (rotate req) (λ e.
      if errors_is e (variable err_user_not_found)
      then throw (fail err_user_not_found)
      else throw (internal e))

  -- RefreshToken
  unfoldable pub refresh_token : Context → RefreshTokenRequest → Action S RefreshTokenResponse
  unfolding exchange wrap sentinel
  refresh_token ctx req = do
    revoked ← auth.is_token_blacklisted req.refresh_token
    if revoked
        then throw (fail err_token_blacklisted)
        else catch (auth.validate_refresh_token req.refresh_token)
            (λ claims. exchange ctx req claims.0.user_id)
            (λ e. throw (app (wrap (sentinel err_token_invalid) e)))

  -- Logout
  unfoldable pub logout : Context → LogoutRequest → Action S Unit
  unfolding hours
  logout ctx req = elim ctx.done [
    | some e ↦ throw e
    | none ↦ auth.blacklist_token req.refresh_token (hours refresh_token_lifetime)
  ]
