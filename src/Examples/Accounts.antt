-- ===== src/Examples/Accounts.antt =====
-- Registration, login, validation, update and persistence of users at concrete inputs.
use boot_backend_go_clean.Common.{◌≡◌, ◌≢◌, refl, ◌↔◌, inr, true, none, some, [], ◌∷◌, String}
use boot_backend_go_clean.Common.Int.{pos}
use boot_backend_go_clean.Common.Text.{codes, byte_length, text_eq}
use boot_backend_go_clean.Errors.{Error, text_error, fail, err_invalid_credentials}
use boot_backend_go_clean.Errors.Chain.{errors_is}
use boot_backend_go_clean.Effect.{Outcome, ok, err}
use boot_backend_go_clean.Entity.{
  User, TokenPair, RegisterRequest, RegisterResponse, LoginRequest, LoginResponse, zero_time,
}
use boot_backend_go_clean.Validation.{is_valid_email, validate, normalize_email}
use boot_backend_go_clean.Validation.Email.{IsAddress, is_valid_email_iff}
use boot_backend_go_clean.Validation.Laws.{IsAcceptable, validate_iff}
use boot_backend_go_clean.Effect.{pure}
use boot_backend_go_clean.Jwt.{generate_token_pair}
use boot_backend_go_clean.Persistence.{
  find_by_username, find_by_email, create, with_tx, new_user_repository, new_tx_manager,
}
use boot_backend_go_clean.Persistence.Atomic.{gorm-register_atomic}
use boot_backend_go_clean.UserUseCase
use boot_backend_go_clean.UserUseCase.Updates.{update_user_sound}
use boot_backend_go_clean.Response.{new_error_response}
use boot_backend_go_clean.Http.{json}
use boot_backend_go_clean.Controller.{UserBody, new_user_use_case, update_user}
use boot_backend_go_clean.Controller.Update.{update_user_always_fails}
use boot_backend_go_clean.Persistence.{UserDto, convert_to_entity, convert_from_entity}
use boot_backend_go_clean.Persistence.Dto.{IsCanonical, convert_to_entity-convert_from_entity}
use boot_backend_go_clean.Examples.Http.{incoming}
use boot_backend_go_clean.Repository.{Authenticator}
use boot_backend_go_clean.Jwt.{new_jwt_authenticator}
use boot_backend_go_clean.AuthUseCase.{new_user, login, register}
use boot_backend_go_clean.AuthUseCase.Login.{login_sound, login_refuses_alike}
use boot_backend_go_clean.AuthUseCase.Register.{IsRegistered, register_sound, register_atomic}
use boot_backend_go_clean.Examples.Signer.{signer, signed_string}
use boot_backend_go_clean.Examples.Store.{
  no_rows, no_rows-IsTransactional, Db, store, tx, tx-IsAtomic, stored, hasher, alice, background,
  at_reading, settings, compare, find_where,
}

abbrev auth : Authenticator Db
auth = new_jwt_authenticator signer settings

abbrev carol : RegisterRequest
carol = record {
  username = codes "carol";
  email = codes " Carol@Example.com";
  password = codes "password2";
}

abbrev carol_again : RegisterRequest
carol_again = record carol { username = codes "alice" }

abbrev carol_stored : User
carol_stored = record (new_user carol) {
  email = codes "carol@example.com";
  password = codes "#password2";
}

registers :
    (register store auth tx hasher (pos 1) background carol (at_reading 0)).0
    ≡ ok (record { user = carol_stored })
unfolding register errors_is find_where is_valid_email normalize_email byte_length text_eq
registers = refl

register_sound_example :
    IsRegistered stored store auth tx hasher
      (pos 1)
      tx-IsAtomic
      background
      carol
      (at_reading 0)
      (record { user = carol_stored })
register_sound_example =
    register_sound stored store auth tx hasher (pos 1) tx-IsAtomic background carol (at_reading 0)
      registers

taken :
    (resp : RegisterResponse)
    → (register store auth tx hasher (pos 1) background carol_again (at_reading 0)).0 ≢ ok resp
unfolding register errors_is find_where is_valid_email normalize_email byte_length text_eq
taken resp h = cc h

register_atomic_example :
    stored (register store auth tx hasher (pos 1) background carol_again (at_reading 0)).1
    ≡ alice ∷ []
register_atomic_example =
    register_atomic stored store auth tx hasher (pos 1) tx-IsAtomic (λ password w. refl) background
      carol_again (at_reading 0) taken

abbrev right : LoginRequest
right = record { username = codes "alice"; password = codes "password1" }

abbrev wrong : LoginRequest
wrong = record { username = codes "alice"; password = codes "password2" }

abbrev let_in : Outcome LoginResponse
let_in = (login store auth tx hasher (pos 1) background right (at_reading 0)).0

abbrev response_of : Outcome LoginResponse → LoginResponse
response_of (ok resp) = resp
response_of _ = record { access_token = []; refresh_token = []; expires_at = pos 0; user = alice }

logs_in : let_in ≡ ok (response_of let_in)
unfolding login find_where text_eq compare generate_token_pair signed_string
logs_in = refl

login_sound_example :
    (user : User) × (pair : TokenPair) × ((store.find_by_username background
        (codes "alice")
        (at_reading 0)).0
      ≡ ok user)
    × (compare user.password (codes "password1") ≡ none)
    × ((auth.generate_token_pair user
          (store.find_by_username background (codes "alice") (at_reading 0)).1).0
        ≡ ok pair)
    × (response_of let_in ≡ record {
      access_token = pair.access_token;
      refresh_token = pair.refresh_token;
      expires_at = pair.expires_at;
      user = user;
    })
login_sound_example =
    login_sound store auth tx hasher (pos 1) background right (at_reading 0) logs_in

login_refuses_alike_example : login store auth tx hasher (pos 1) background wrong (at_reading 0) ≡ (
  err (fail err_invalid_credentials),
  (store.find_by_username background (codes "alice") (at_reading 0)).1,
)
unfolding find_where text_eq compare
login_refuses_alike_example =
    login_refuses_alike store auth tx hasher (pos 1) background wrong (at_reading 0)
      (inr (alice, text_error "hashedPassword is not the hash", refl, refl))

is_valid_email_iff_example :
    (is_valid_email (codes "carol@example.com") ≡ true) ↔ IsAddress (codes "carol@example.com")
is_valid_email_iff_example = is_valid_email_iff (codes "carol@example.com")

validate_iff_example :
    ((validate (new_user carol)).1 ≡ none ↔ IsAcceptable (new_user carol))
    × ((validate (new_user carol)
          ≡ (record (new_user carol) { email = normalize_email carol.email }, none))
        ↔ IsAcceptable (new_user carol))
validate_iff_example = validate_iff (new_user carol)

abbrev body : UserBody
body = record {
  id = pos 7;
  username = codes "alice";
  email = codes "alice@example.org";
  avatar_url = none;
  created_at = zero_time;
  updated_at = none;
  deleted_at = none;
}

abbrev malformed : Error
malformed = text_error "unexpected EOF"

update_user_always_fails_example :
    ((m : String) × (update_user
          (new_user_use_case store)
          background
          (ok body)
          incoming
          (at_reading 0)
        ≡ (
          ok (json 500 (new_error_response "Failed to update user" (some (text_error m))) incoming),
          at_reading 0,
        )))
    × (update_user (new_user_use_case store) background (err malformed) incoming (at_reading 0) ≡ (
      ok (json 400 (new_error_response "Invalid input" (some malformed)) incoming),
      at_reading 0,
    ))
update_user_always_fails_example =
    update_user_always_fails store background incoming (at_reading 0) body malformed

abbrev deleted : UserDto
deleted = record {
  id = pos 7;
  created_at = zero_time;
  updated_at = none;
  deleted_at = record { time = pos 5; valid = true };
  username = codes "alice";
  email = codes "alice@example.com";
  password = codes "#password1";
  avatar_url = none;
}

convert_to_entity-convert_from_entity_example :
    (convert_to_entity (convert_from_entity alice) ≡ alice)
    × ((convert_from_entity (convert_to_entity deleted) ≡ deleted) ↔ IsCanonical deleted.deleted_at)
convert_to_entity-convert_from_entity_example = convert_to_entity-convert_from_entity alice deleted

abbrev renamed : User
renamed = record alice { email = codes "Alice@example.org " }

updates : (UserUseCase.update_user store background renamed (at_reading 0)).0 ≡ ok tt
unfolding UserUseCase.update_user find_where is_valid_email normalize_email byte_length validate
updates = refl

update_user_sound_example :
    IsAcceptable renamed
    × (existing : User) × ((store.find_by_id background (pos 7) (at_reading 0)).0 ≡ ok existing)
    × (UserUseCase.update_user store background renamed (at_reading 0)
        ≡ store.update background
            (record renamed { email = normalize_email renamed.email })
            (store.find_by_id background (pos 7) (at_reading 0)).1)
update_user_sound_example = update_user_sound store background (at_reading 0) renamed updates

abbrev attempt : Outcome RegisterResponse
attempt =
    (register (new_user_repository (pure (pos 1)) (pure (pos 2)) no_rows) auth
      (new_tx_manager no_rows) hasher (pos 1) background carol (at_reading 0)).0

attempt-eq-err : attempt ≡ err (text_error "could not extend file")
unfolding register is_valid_email normalize_email byte_length validate errors_is find_by_username
    find_by_email create with_tx
attempt-eq-err = refl

refused : (resp : RegisterResponse) → attempt ≢ ok resp
refused resp h = cc (h, attempt-eq-err)

gorm-register_atomic_example :
    stored
      (register
        (new_user_repository (pure (pos 1)) (pure (pos 2)) no_rows)
        auth
        (new_tx_manager no_rows)
        hasher
        (pos 1)
        background
        carol
        (at_reading 0)).1
    ≡ alice ∷ []
gorm-register_atomic_example =
    gorm-register_atomic stored (pure (pos 1)) (pure (pos 2)) no_rows auth hasher (pos 1)
      no_rows-IsTransactional (λ password w. refl) background carol (at_reading 0) refused
