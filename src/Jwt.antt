-- ===== src/Jwt.antt =====
-- internal/infrastructure/auth/jwt_authenticator.go. The JWT library is not of this repository: it
-- is the parameter `Library`.
pub mod Float
pub mod Laws
pub mod Tokens
pub mod Identity
use boot_backend_go_clean.Common.{
  String, Bool, true, false, Option, none, some, List, [], ◌∷◌, if◌then◌else◌,
}
use boot_backend_go_clean.Common.Int.{ℤ, pos, ◌+ℤ◌, ltb_ℤ, unix}
use boot_backend_go_clean.Common.Text.{Text, codes, text_eq}
use boot_backend_go_clean.Errors.{Error, text_error}
use boot_backend_go_clean.Effect.{
  Outcome, ok, err, panic, Action, pure, throw, lift, continue, ◌>>=◌, ◌>>◌,
}
use boot_backend_go_clean.Entity.{
  User, TokenPair, AccessTokenClaims, RefreshTokenClaims, StandardClaims,
}
use boot_backend_go_clean.GoMap.{GoMap, lookup, insert}
use boot_backend_go_clean.Blacklist.{add_token, is_token_blacklisted}
use boot_backend_go_clean.World.{World, tick, time_now}
use boot_backend_go_clean.Repository.{Authenticator}
use Float.{to_float64, int64_of_float64}

-- The dynamic value of a claim. A `float64` stands for its integer part: the code does nothing with
-- one but convert it to an `int64`.
pub data Value : Type 0 where
  int64 : ℤ → Value
  float64 : ℤ → Value
  string : Text → Value
  other : Value

-- jwt.MapClaims
abbrev pub MapClaims : Type 0
MapClaims = GoMap Value

-- token.Method
pub data Method : Type 0 where
  hmac : Method
  other_method : Method

-- What `jwt.Parse` returns without an error. `claims` is none where the claims are no `MapClaims`.
pub record Token : Type 0 where
  pub claims : Option MapClaims
  pub is_valid : Bool

-- github.com/golang-jwt/jwt/v5: `NewWithClaims(SigningMethodHS256, claims).SignedString(secret)`,
-- and `Parse(text, key)` at an instant.
pub record Library : Type 0 where
  pub signed_string : MapClaims → Text → Outcome Text
  pub parse : ℤ → Text → (Method → Outcome Text) → Outcome Token

pub record JwtAuthenticator : Type 0 where
  pub access_secret : Text
  pub refresh_secret : Text
  pub issuer : Text
  pub access_expiration : ℤ
  pub refresh_expiration : ℤ

abbrev pub user_id_key : Text
user_id_key = codes "user_id"

abbrev pub username_key : Text
username_key = codes "username"

abbrev pub iat_key : Text
iat_key = codes "iat"

abbrev pub iss_key : Text
iss_key = codes "iss"

abbrev pub exp_key : Text
exp_key = codes "exp"

-- value.(float64), with a second result: 0 if it is none
abbrev pub float_or_zero : Option Value → ℤ
float_or_zero (some (float64 x)) = x
float_or_zero _ = pos 0

-- value.(string), with a second result: "" if it is none
abbrev pub string_or_empty : Option Value → Text
string_or_empty (some (string s)) = s
string_or_empty _ = []

-- value.(float64) and value.(string), which panic on another value
abbrev pub float_or_panic : Option Value → Outcome ℤ
float_or_panic (some (float64 x)) = ok x
float_or_panic _ = panic "interface conversion: interface {} is not float64"

abbrev pub string_or_panic : Option Value → Outcome Text
string_or_panic (some (string s)) = ok s
string_or_panic _ = panic "interface conversion: interface {} is not string"

-- claims["iss"].(string); !ok || iss != a.issuer
abbrev pub has_issuer : Text → Option Value → Bool
has_issuer issuer (some (string s)) = text_eq s issuer
has_issuer issuer _ = false

-- The key function: the secret, for an HMAC method.
abbrev pub key_for : Text → Method → Outcome Text
key_for secret hmac = ok secret
key_for secret other_method = err (text_error "unexpected signing method")

abbrev pub access_claims : User → Text → ℤ → MapClaims
access_claims user issuer now =
    (user_id_key, int64 user.id)
    ∷ (username_key, string user.username)
    ∷ (iat_key, int64 (unix now))
    ∷ (iss_key, string issuer)
    ∷ []

abbrev pub refresh_claims : User → Text → ℤ → MapClaims
refresh_claims user issuer now =
    (user_id_key, int64 user.id) ∷ (iat_key, int64 (unix now)) ∷ (iss_key, string issuer) ∷ []

-- the checks of extractClaims on a parsed token
abbrev pub check_claims : Text → Bool → Option MapClaims → Outcome MapClaims
check_claims issuer true (some claims) =
    if has_issuer issuer (lookup iss_key claims)
    then ok claims
    else err (text_error "invalid token issuer")
check_claims issuer _ _ = err (text_error "invalid token")

-- extractStandardClaims
unfoldable pub extract_standard_claims : MapClaims → Outcome StandardClaims
unfolding lookup int64_of_float64
extract_standard_claims claims = elim (float_or_panic (lookup iat_key claims)) [
  | panic m ↦ panic m
  | err e ↦ err e
  | ok iat ↦ elim (float_or_panic (lookup exp_key claims)) [
    | panic m ↦ panic m
    | err e ↦ err e
    | ok exp ↦ elim (string_or_panic (lookup iss_key claims)) [
      | panic m ↦ panic m
      | err e ↦ err e
      | ok iss ↦ ok (record {
        issued_at = int64_of_float64 iat;
        expires_at = int64_of_float64 exp;
        issuer = iss;
      })
    ]
  ]
]

module _ {D : Type 0} (jwt : Library) (a : JwtAuthenticator) where
  -- generateAccessToken, generateRefreshToken, from the claims that they begin with
  unfoldable pub sign_claims : (ℤ → MapClaims) → ℤ → Text → Action (World D) Text
  unfolding insert unix ◌+ℤ◌
  sign_claims claims expiration secret = do
    now ← time_now
    if ltb_ℤ (pos 0) expiration
        then (do
          later ← time_now
          lift (
              jwt.signed_string (insert exp_key (int64 (unix (later +ℤ expiration))) (claims now))
                secret))
        else lift (jwt.signed_string (claims now) secret)

  unfoldable pub generate_access_token : User → ℤ → Action (World D) Text
  unfolding sign_claims
  generate_access_token user expiration =
      sign_claims (access_claims user a.issuer) expiration a.access_secret

  unfoldable pub generate_refresh_token : User → ℤ → Action (World D) Text
  unfolding sign_claims
  generate_refresh_token user expiration =
      sign_claims (refresh_claims user a.issuer) expiration a.refresh_secret

  -- GenerateTokenPair
  unfoldable pub generate_token_pair : User → Action (World D) TokenPair
  unfolding generate_access_token generate_refresh_token
  generate_token_pair user = do
    access ← generate_access_token user a.access_expiration
    refresh ← generate_refresh_token user a.refresh_expiration
    now ← time_now
    pure (record {
      access_token = access;
      refresh_token = refresh;
      expires_at = now +ℤ a.access_expiration;
    })

  -- extractClaims
  unfoldable pub extract_claims : Text → Bool → Action (World D) MapClaims
  unfolding lookup
  extract_claims token is_access_token = do
    let secret = if is_access_token then a.access_secret else a.refresh_secret
    now ← time_now
    parsed ← lift (jwt.parse now token (key_for secret))
    lift (check_claims a.issuer parsed.is_valid parsed.claims)

  -- ValidateAccessToken
  unfoldable pub validate_access_token :
      Text → Action (World D) (AccessTokenClaims × StandardClaims)
  unfolding extract_claims extract_standard_claims
  validate_access_token token = do
    claims ← extract_claims token true
    standard ← lift (extract_standard_claims claims)
    pure (
      record {
        user_id = int64_of_float64 (float_or_zero (lookup user_id_key claims));
        username = string_or_empty (lookup username_key claims);
      },
      standard,
    )

  -- ValidateRefreshToken
  unfoldable pub validate_refresh_token :
      Text → Action (World D) (RefreshTokenClaims × StandardClaims)
  unfolding extract_claims extract_standard_claims
  validate_refresh_token token = do
    claims ← extract_claims token false
    standard ← lift (extract_standard_claims claims)
    pure (
      record { user_id = int64_of_float64 (float_or_zero (lookup user_id_key claims)) },
      standard,
    )

-- BlacklistToken
unfoldable pub blacklist_token : {D : Type 0} → Text → ℤ → Action (World D) Unit
unfolding add_token
blacklist_token token duration = do
  now ← time_now
  λ w. (ok tt, record w { blacklist = add_token now token duration w.blacklist })

-- IsTokenBlacklisted; the clock is read only where the token has an entry, and a reading that is
-- not used changes nothing that a request can see
unfoldable pub token_blacklisted : {D : Type 0} → Text → Action (World D) Bool
unfolding is_token_blacklisted
token_blacklisted token = do
  now ← time_now
  λ w. (ok (is_token_blacklisted now token w.blacklist), w)

-- NewJWTAuthenticator
abbrev pub new_jwt_authenticator :
    {D : Type 0} → Library → JwtAuthenticator → Authenticator (World D)
new_jwt_authenticator jwt a = record {
  generate_token_pair = generate_token_pair jwt a;
  validate_access_token = validate_access_token jwt a;
  validate_refresh_token = validate_refresh_token jwt a;
  blacklist_token = blacklist_token;
  is_token_blacklisted = token_blacklisted;
}
