-- ===== src/Jwt/Identity.antt =====
-- Which user a token of internal/infrastructure/auth/jwt_authenticator.go names when it is read
-- back: `user_id` is a number of a JSON document, and comes back through a `float64`.
use boot_backend_go_clean.Common.{ℕ, ◌%◌, ◌^◌, ◌<◌, ◌≡◌, refl, ◌≢◌, String}
use boot_backend_go_clean.Common.Int.{pos, ◌<ℤ◌, ◌≤ℤ◌, unix}
use boot_backend_go_clean.Common.Text.{Text, text_eq_refl}
use boot_backend_go_clean.Effect.{ok, panic}
use boot_backend_go_clean.Entity.{User, RefreshTokenClaims, StandardClaims}
use boot_backend_go_clean.World.{World, present}
use boot_backend_go_clean.Jwt.{
  Library, JwtAuthenticator, key_for, access_claims, generate_access_token, generate_refresh_token,
  validate_access_token, validate_refresh_token,
}
use boot_backend_go_clean.Jwt.Float.{float_exact, float_inexact}
use boot_backend_go_clean.Jwt.Laws.{IsFaithful, is_expired}
use boot_backend_go_clean.Jwt.Tokens.{
  read_back, expiry, sign_claims-undated, validate-generate_access, validate-generate_refresh,
}

module _ {D : Type 0} (jwt : Library) (a : JwtAuthenticator) (laws : IsFaithful jwt) where
  -- If the JWT library behaves as documented, an access token made for a user whose identifier is
  -- below 2^53, with a positive lifetime, validates until it expires to that identifier and name,
  -- under the issuer of the authenticator.
  pub access_token_names_user :
      (user : User) (n : ℕ) (w w' : World D) (t : Text)
      → user.id ≡ pos n
      → n < 2 ^ 53
      → pos 0 <ℤ a.access_expiration
      → (generate_access_token jwt a user a.access_expiration w).0 ≡ ok t
      → unix (present w') <ℤ expiry a.access_expiration w
      → (s : StandardClaims) × ((validate_access_token jwt a t w').0
          ≡ ok (record { user_id = user.id; username = user.username }, s))
        × (s.issuer ≡ a.issuer)
  access_token_names_user user n w w' t named small h made before = (
    record {
      issued_at = read_back (unix (present w));
      expires_at = read_back (expiry a.access_expiration w);
      issuer = a.issuer;
    },
    cc (validate-generate_access jwt a laws user w w' h made before, float_exact n small),
    refl,
  )

  -- If the JWT library behaves as documented, a refresh token made with a positive lifetime for a
  -- user whose identifier is an odd number between 2^53 and 2^54, which a Snowflake identifier can
  -- be, validates before it expires to another identifier.
  pub refresh_token_names_other :
      (user : User) (n : ℕ) (w w' : World D) (t : Text)
      → user.id ≡ pos n
      → 2 ^ 53 < n
      → n < 2 ^ 54
      → n % 2 ≡ 1
      → pos 0 <ℤ a.refresh_expiration
      → (generate_refresh_token jwt a user a.refresh_expiration w).0 ≡ ok t
      → unix (present w') <ℤ expiry a.refresh_expiration w
      → (c : RefreshTokenClaims) × (s : StandardClaims) × ((validate_refresh_token jwt a t w').0
          ≡ ok (c, s))
        × (c.user_id ≢ user.id)
  refresh_token_names_other user n w w' t named large below odd h made before = (
    _,
    _,
    validate-generate_refresh jwt a laws user w w' h made before,
    rw named (float_inexact n large below odd),
  )

  -- If the JWT library behaves as documented, an access token made with a lifetime that is not
  -- positive has no `exp`, and its validation panics.
  pub undated_token_panics :
      (user : User) (w w' : World D) (t : Text)
      → a.access_expiration ≤ℤ pos 0
      → (generate_access_token jwt a user a.access_expiration w).0 ≡ ok t
      → (m : String) × ((validate_access_token jwt a t w').0 ≡ panic m)
  unfolding generate_access_token validate_access_token
  undated_token_panics user w w' t h made =
      let claims = access_claims user a.issuer (present w) in
      (
        "interface conversion: interface {} is not float64",
        rw (
          laws.accepts claims a.access_secret t (present w') (key_for a.access_secret)
              (sign_claims-undated jwt a (access_claims user a.issuer) a.access_expiration
                a.access_secret w h made)
              refl (unfold is_expired in refl),
          text_eq_refl a.issuer,
        ),
      )
