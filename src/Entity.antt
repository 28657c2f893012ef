-- ===== src/Entity.antt =====
-- internal/domain/entity: the user, the requests and responses of authentication, token claims.
--
-- `int64` identifiers are integers. An instant (`time.Time`) and a duration (`time.Duration`) are
-- integers in nanoseconds, an instant since the start of 1970, UTC. The pointers of a struct are
-- optional values: the code never changes what one points to.
use boot_backend_go_clean.Common.{Option}
use boot_backend_go_clean.Common.Int.{ℤ, pos, negsuc}
use boot_backend_go_clean.Common.Text.{Text}

pub record User : Type 0 where
  pub id : ℤ
  pub username : Text
  pub email : Text
  pub password : Text
  pub avatar_url : Option Text
  pub created_at : ℤ
  pub updated_at : Option ℤ
  pub deleted_at : Option ℤ

-- The zero `time.Time`, the start of the year 1.
abbrev pub zero_time : ℤ
zero_time = negsuc 62135596799999999999

abbrev pub second : ℤ
second = pos 1000000000

abbrev pub hour : ℤ
hour = pos 3600000000000

pub record LoginRequest : Type 0 where
  pub username : Text
  pub password : Text

pub record RegisterRequest : Type 0 where
  pub username : Text
  pub email : Text
  pub password : Text

pub record RefreshTokenRequest : Type 0 where
  pub refresh_token : Text

pub record LogoutRequest : Type 0 where
  pub refresh_token : Text

pub record LoginResponse : Type 0 where
  pub access_token : Text
  pub refresh_token : Text
  pub expires_at : ℤ
  pub user : User

pub record RegisterResponse : Type 0 where
  pub user : User

pub record RefreshTokenResponse : Type 0 where
  pub access_token : Text
  pub refresh_token : Text
  pub expires_at : ℤ

pub record TokenPair : Type 0 where
  pub access_token : Text
  pub refresh_token : Text
  pub expires_at : ℤ

pub record AccessTokenClaims : Type 0 where
  pub user_id : ℤ
  pub username : Text

pub record RefreshTokenClaims : Type 0 where
  pub user_id : ℤ

pub record StandardClaims : Type 0 where
  pub issued_at : ℤ
  pub expires_at : ℤ
  pub issuer : Text
