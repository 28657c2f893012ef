-- ===== src/Jwt/Tokens.antt =====
-- The tokens of internal/infrastructure/auth/jwt_authenticator.go, from their making to their
-- validation.
use boot_backend_go_clean.Common.{
  ◌≡◌, refl, ◌≢◌, Bool, true, false, Option, some, arith, sym, Bool-cases, inl, inr,
}
use boot_backend_go_clean.Common.Int.{ℤ, pos, ◌+ℤ◌, ◌<ℤ◌, ◌≤ℤ◌, ltb_ℤ, unix}
use boot_backend_go_clean.Common.Text.{Text, text_eq_refl, text_eq_iff}
use boot_backend_go_clean.Errors.{Error}
use boot_backend_go_clean.Effect.{ok, err, continue-eq-ok}
use boot_backend_go_clean.Entity.{User, AccessTokenClaims, StandardClaims}
use boot_backend_go_clean.GoMap.{lookup, insert}
use boot_backend_go_clean.World.{World, present, tick}
use boot_backend_go_clean.Jwt.{
  Library, JwtAuthenticator, MapClaims, Value, int64, string, exp_key, iss_key, has_issuer,
  check_claims, key_for, access_claims, refresh_claims, extract_standard_claims, sign_claims,
  generate_access_token, generate_refresh_token, validate_access_token, validate_refresh_token,
}
use boot_backend_go_clean.Jwt.Float.{to_float64, int64_of_float64}
use boot_backend_go_clean.Jwt.Laws.{IsFaithful, is_expired}

-- What a claim that is an `int64` reads as in a parsed token.
abbrev pub read_back : ℤ → ℤ
read_back x = int64_of_float64 (to_float64 x)

-- The claim `exp` of a token that is made at `w`.
abbrev pub expiry : {D : Type 0} → ℤ → World D → ℤ
expiry expiration w = unix (present (tick w) +ℤ expiration)

-- The claims that sign_claims signs for a token that expires.
abbrev pub dated : {D : Type 0} → (ℤ → MapClaims) → ℤ → World D → MapClaims
dated claims expiration w = insert exp_key (int64 (expiry expiration w)) (claims (present w))

has_issuer-eq :
    (issuer : Text) (v : Option Value) → has_issuer issuer v ≡ true → v ≡ some (string issuer)
has_issuer-eq issuer (some (string s)) h = cc ((text_eq_iff s issuer).0 h)
has_issuer-eq issuer _ h = cc

check_claims-ok :
    (issuer : Text) (is_valid : Bool) (claims : Option MapClaims) {c : MapClaims}
    → check_claims issuer is_valid claims ≡ ok c
    → (is_valid ≡ true) × (claims ≡ some c) × (lookup iss_key c ≡ some (string issuer))
check_claims-ok issuer true (some claims) h =
    elim (Bool-cases (has_issuer issuer (lookup iss_key claims))) [
      | inl e ↦ (refl, ground arith, ground (arith, has_issuer-eq issuer (lookup iss_key claims) e))
      | inr e ↦ absurd (ground arith)
    ]
check_claims-ok issuer _ _ h = cc

extract_standard_claims-issuer :
    (claims : MapClaims) (s : StandardClaims) (issuer : Text)
    → extract_standard_claims claims ≡ ok s
    → lookup iss_key claims ≡ some (string issuer)
    → s.issuer ≡ issuer
unfolding extract_standard_claims
extract_standard_claims-issuer claims s issuer h e = ground arith

module _ {D : Type 0} (jwt : Library) (a : JwtAuthenticator) where
  sign_claims-dated :
      (claims : ℤ → MapClaims) (expiration : ℤ) (secret : Text) (w : World D) {t : Text}
      → pos 0 <ℤ expiration
      → (sign_claims jwt a claims expiration secret w).0 ≡ ok t
      → jwt.signed_string (dated claims expiration w) secret ≡ ok t
  unfolding sign_claims
  sign_claims-dated claims expiration secret w h e = ground arith

  -- Of a token that does not expire, and in general.
  pub sign_claims-undated :
      (claims : ℤ → MapClaims) (expiration : ℤ) (secret : Text) (w : World D) {t : Text}
      → expiration ≤ℤ pos 0
      → (sign_claims jwt a claims expiration secret w).0 ≡ ok t
      → jwt.signed_string (claims (present w)) secret ≡ ok t
  unfolding sign_claims
  sign_claims-undated claims expiration secret w h e = ground arith

  sign_claims-signed :
      (claims : ℤ → MapClaims) (expiration : ℤ) (secret : Text) (w : World D) {t : Text}
      → (sign_claims jwt a claims expiration secret w).0 ≡ ok t
      → (signed : MapClaims) × (jwt.signed_string signed secret ≡ ok t)
  sign_claims-signed claims expiration secret w e = elim (Bool-cases (ltb_ℤ (pos 0) expiration)) [
    | inl h ↦ (_, sign_claims-dated claims expiration secret w (ground arith) e)
    | inr h ↦ (_, sign_claims-undated claims expiration secret w (ground arith) e)
  ]

  -- What a foreign or expired token makes of a validation.
  validate_access-err :
      (t : Text) (w : World D) {e : Error}
      → jwt.parse (present w) t (key_for a.access_secret) ≡ err e
      → (validate_access_token jwt a t w).0 ≡ err e
  unfolding validate_access_token
  validate_access-err t w h = rw h

  pub validate_refresh-err :
      (t : Text) (w : World D) {e : Error}
      → jwt.parse (present w) t (key_for a.refresh_secret) ≡ err e
      → (validate_refresh_token jwt a t w).0 ≡ err e
  unfolding validate_refresh_token
  validate_refresh-err t w h = rw h

  -- A text that ValidateAccessToken accepts has been parsed under the access secret into a valid
  -- token with the issuer of the authenticator, which the claims returned carry.
  pub validate_access_sound :
      (t : Text) (w : World D) {c : AccessTokenClaims} {s : StandardClaims}
      → (validate_access_token jwt a t w).0 ≡ ok (c, s)
      → (claims : MapClaims) × (jwt.parse (present w) t (key_for a.access_secret)
          ≡ ok (record { claims = some claims; is_valid = true }))
        × (lookup iss_key claims ≡ some (string a.issuer))
        × (s.issuer ≡ a.issuer)
  unfolding validate_access_token
  validate_access_sound t w {s} h =
      let (claims, extracted, h1) = continue-eq-ok _ _ _ h in
      let (parsed, parse_ok, h2) =
        continue-eq-ok (jwt.parse (present w) t (key_for a.access_secret)) _ _ extracted in
      let (valid, same, issued) = check_claims-ok a.issuer parsed.is_valid parsed.claims h2 in
      let (standard, found, h3) = continue-eq-ok (extract_standard_claims claims) _ _ h1 in
      (
        claims,
        ground (arith, parse_ok, valid, same),
        issued,
        extract_standard_claims-issuer claims s a.issuer (ground (arith, found, h3)) issued,
      )

module _ {D : Type 0} (jwt : Library) (a : JwtAuthenticator) (laws : IsFaithful jwt) where
  -- A token that GenerateTokenPair has made, validated at a reading of the clock before its expiry.
  pub validate-generate_access :
      (user : User) (w w' : World D) {t : Text}
      → pos 0 <ℤ a.access_expiration
      → (generate_access_token jwt a user a.access_expiration w).0 ≡ ok t
      → unix (present w') <ℤ expiry a.access_expiration w
      → (validate_access_token jwt a t w').0
        ≡ ok (
          record { user_id = read_back user.id; username = user.username },
          record {
            issued_at = read_back (unix (present w));
            expires_at = read_back (expiry a.access_expiration w);
            issuer = a.issuer;
          },
        )
  unfolding generate_access_token validate_access_token
  validate-generate_access user w w' {t} h e before =
      let claims = dated (access_claims user a.issuer) a.access_expiration w in
      let fresh : is_expired (present w') claims ≡ false =
        unfold is_expired insert in ground arith in
      rw (
        laws.accepts claims a.access_secret t (present w') (key_for a.access_secret)
            (sign_claims-dated jwt a (access_claims user a.issuer) a.access_expiration
              a.access_secret w h e)
            refl fresh,
        text_eq_refl a.issuer,
      )

  pub validate-generate_refresh :
      (user : User) (w w' : World D) {t : Text}
      → pos 0 <ℤ a.refresh_expiration
      → (generate_refresh_token jwt a user a.refresh_expiration w).0 ≡ ok t
      → unix (present w') <ℤ expiry a.refresh_expiration w
      → (validate_refresh_token jwt a t w').0
        ≡ ok (
          record { user_id = read_back user.id },
          record {
            issued_at = read_back (unix (present w));
            expires_at = read_back (expiry a.refresh_expiration w);
            issuer = a.issuer;
          },
        )
  unfolding generate_refresh_token validate_refresh_token
  validate-generate_refresh user w w' {t} h e before =
      let claims = dated (refresh_claims user a.issuer) a.refresh_expiration w in
      let fresh : is_expired (present w') claims ≡ false =
        unfold is_expired insert in ground arith in
      rw (
        laws.accepts claims a.refresh_secret t (present w') (key_for a.refresh_secret)
            (sign_claims-dated jwt a (refresh_claims user a.issuer) a.refresh_expiration
              a.refresh_secret w h e)
            refl fresh,
        text_eq_refl a.issuer,
      )

  -- If the two secrets differ and the JWT library behaves as documented, an access token is
  -- refused as a refresh token and a refresh token is refused as an access token, whenever they
  -- were made and are presented.
  pub token_confusion :
      (user : User) (w1 w2 w' : World D) (t1 t2 : Text)
      → a.access_secret ≢ a.refresh_secret
      → (generate_access_token jwt a user a.access_expiration w1).0 ≡ ok t1
      → (generate_refresh_token jwt a user a.refresh_expiration w2).0 ≡ ok t2
      → ((e : Error) × ((validate_refresh_token jwt a t1 w').0 ≡ err e))
        × ((e : Error) × ((validate_access_token jwt a t2 w').0 ≡ err e))
  unfolding generate_access_token generate_refresh_token
  token_confusion user w1 w2 w' t1 t2 apart made made' = (
    let (c, signed) =
          sign_claims-signed jwt a (access_claims user a.issuer) a.access_expiration a.access_secret
            w1 made in
        let (e, refused) =
          laws.refuses c a.access_secret t1 (present w') (key_for a.refresh_secret) a.refresh_secret
            signed refl apart in
        (e, validate_refresh-err jwt a t1 w' refused),
    let (c, signed) =
          sign_claims-signed jwt a (refresh_claims user a.issuer) a.refresh_expiration
            a.refresh_secret w2 made' in
        let (e, refused) =
          laws.refuses c a.refresh_secret t2 (present w') (key_for a.access_secret) a.access_secret
            signed refl (λ p. apart (sym p)) in
        (e, validate_access-err jwt a t2 w' refused),
  )

  -- A refresh token that has expired is refused.
  pub validate_refresh_late :
      (user : User) (w w' : World D) {t : Text}
      → pos 0 <ℤ a.refresh_expiration
      → (generate_refresh_token jwt a user a.refresh_expiration w).0 ≡ ok t
      → expiry a.refresh_expiration w ≤ℤ unix (present w')
      → (e : Error) × ((validate_refresh_token jwt a t w').0 ≡ err e)
  unfolding generate_refresh_token
  validate_refresh_late user w w' {t} h made late =
      let claims = dated (refresh_claims user a.issuer) a.refresh_expiration w in
      let stale : is_expired (present w') claims ≡ true =
        unfold is_expired insert in ground arith in
      let signed =
        sign_claims-dated jwt a (refresh_claims user a.issuer) a.refresh_expiration a.refresh_secret
          w h made in
      let (e, refused) =
        laws.expires claims a.refresh_secret t (present w') (key_for a.refresh_secret) signed refl
          stale in
      (e, validate_refresh-err jwt a t w' refused)
