-- ===== src/Sessions.antt =====
-- A refresh token over time: `RefreshToken` of internal/usecase/auth_usecase.go with the
-- authenticator and the blacklist of internal/infrastructure/auth, one request after another.
pub mod Others
pub mod Replay
use boot_backend_go_clean.Common.{
  ℕ, suc, ◌≤◌, ◌<◌, ◌≡◌, refl, ap, ◌⊎◌, inl, inr, Bool, true, false, Option, none, some, arith,
  Bool-cases, ◌∙◌,
}
use boot_backend_go_clean.Common.Int.{ℤ, pos, ◌+ℤ◌, ◌<ℤ◌, ◌≤ℤ◌, ltb_ℤ, unix, +ℤ_parts}
use boot_backend_go_clean.Common.Text.{Text}
use boot_backend_go_clean.Errors.{
  Error, err_token_blacklisted, err_token_invalid, app, sentinel, fail, wrap,
}
use boot_backend_go_clean.Effect.{
  Outcome, ok, err, panic, Action, pure, continue, ◌>>=◌, continue-eq-ok,
}
use boot_backend_go_clean.Entity.{User, TokenPair, RefreshTokenRequest, RefreshTokenResponse}
use boot_backend_go_clean.Blacklist.{TokenBlacklist, add_token, is_token_blacklisted}
use boot_backend_go_clean.World.{World, present, tick, time_now, IsMonotone}
use boot_backend_go_clean.Repository.{Context, UserRepository, TxManager, Authenticator, Bcrypt}
use boot_backend_go_clean.Jwt.{
  Library, JwtAuthenticator, MapClaims, access_claims, refresh_claims, sign_claims,
  generate_access_token, generate_refresh_token, generate_token_pair, validate_refresh_token,
  blacklist_token, token_blacklisted, new_jwt_authenticator,
}
use boot_backend_go_clean.Jwt.Laws.{IsFaithful}
use boot_backend_go_clean.AuthUseCase.{internal, hours, rotate, refresh_token}
use boot_backend_go_clean.AuthUseCase.Login.{handle-eq-ok}

-- `w'` is `w` at a later reading of its clock, with the same blacklist.
pub record IsLater {D : Type 0} (w w' : World D) : Type 0 where
  pub same_clock : w'.clock.at ≡ w.clock.at
  pub more_reads : w.clock.reads ≤ w'.clock.reads
  pub same_blacklist : w'.blacklist ≡ w.blacklist

module _ {D : Type 0} where
  pub IsLater-refl : (w : World D) → IsLater w w
  IsLater-refl w = record { same_clock = refl; more_reads = omega arith; same_blacklist = refl }

  pub IsLater-tick : {w w' : World D} → IsLater w w' → IsLater w (tick w')
  IsLater-tick l = record {
    same_clock = l.same_clock;
    more_reads = omega (arith, l.more_reads);
    same_blacklist = l.same_blacklist;
  }

  pub IsLater-trans : {u v w : World D} → IsLater u v → IsLater v w → IsLater u w
  IsLater-trans l m = record {
    same_clock = m.same_clock ∙ l.same_clock;
    more_reads = omega (arith, l.more_reads, m.more_reads);
    same_blacklist = m.same_blacklist ∙ l.same_blacklist;
  }

module _ {D : Type 0} (jwt : Library) (a : JwtAuthenticator) where
  sign_claims-IsLater :
      (claims : ℤ → MapClaims) (expiration : ℤ) (secret : Text) (w : World D)
      → IsLater w (sign_claims jwt a claims expiration secret w).1
  unfolding sign_claims
  sign_claims-IsLater claims expiration secret w = ground arith

  continue-IsLater :
      {A B : Type 0} (r : Outcome A) (f : A → Action (World D) B) {w s : World D}
      → IsLater w s
      → ((x : A) → IsLater w (f x s).1)
      → IsLater w (continue r f s).1
  continue-IsLater (ok x) f l k = k x
  continue-IsLater (err e) f l k = l
  continue-IsLater (panic m) f l k = l

  -- Making a pair of tokens reads the clock, and changes nothing else of what a session depends on.
  generate_token_pair-IsLater :
      (user : User) (w : World D) → IsLater w (generate_token_pair jwt a user w).1
  unfolding generate_token_pair generate_access_token generate_refresh_token
  generate_token_pair-IsLater user w =
      let (made, s) =
        sign_claims jwt a (access_claims user a.issuer) a.access_expiration a.access_secret w in
      let (made', s') =
        sign_claims jwt a (refresh_claims user a.issuer) a.refresh_expiration a.refresh_secret s in
      let l =
        sign_claims-IsLater (access_claims user a.issuer) a.access_expiration a.access_secret w in
      let l' = IsLater-trans l (
        sign_claims-IsLater (refresh_claims user a.issuer) a.refresh_expiration a.refresh_secret
          s) in
      continue-IsLater {B = TokenPair} made
        (λ access. do
          refresh ← generate_refresh_token jwt a user a.refresh_expiration
          now ← time_now
          pure (record {
            access_token = access;
            refresh_token = refresh;
            expires_at = now +ℤ a.access_expiration;
          }))
        l (λ access. continue-IsLater {B = TokenPair} made' _ l' (λ refresh. IsLater-tick l'))

-- Where the lookup of a user by its identifier leaves the session state alone.
abbrev pub FindsQuietly : {D : Type 0} → UserRepository (World D) → Type 0
FindsQuietly {D} repo =
    (ctx : Context) (id : ℤ) (w : World D) → IsLater w (repo.find_by_id ctx id w).1

module _ {D : Type 0} (jwt : Library) (a : JwtAuthenticator) (repo : UserRepository (World D))
    (tx : TxManager (World D)) (bcrypt : Bcrypt (World D)) (lifetime : ℤ) where
  abbrev pub auth : Authenticator (World D)
  auth = new_jwt_authenticator jwt a

  -- `w1` is left by a request that has revoked the token at a reading of the clock of `w`.
  pub record HasRevoked (token : Text) (w w1 : World D) : Type 0 where
    pub reading : ℕ
    pub older : TokenBlacklist
    pub after_start : w.clock.reads ≤ reading
    pub same_clock : w1.clock.at ≡ w.clock.at
    pub more_reads : reading < w1.clock.reads
    pub revoked : w1.blacklist ≡ add_token (w.clock.at reading) token (hours lifetime) older

  -- The state that a rotation leaves behind, once the new pair has been made.
  abbrev revoke : Text → World D → World D
  revoke token s = record (tick s) {
    blacklist = add_token (present s) token (hours lifetime) s.blacklist;
  }

  revoke-HasRevoked :
      (token : Text) (w s : World D) → IsLater w s → HasRevoked token w (revoke token s)
  revoke-HasRevoked token w s l = record {
    reading = s.clock.reads;
    older = s.blacklist;
    after_start = l.more_reads;
    same_clock = l.same_clock;
    more_reads = omega arith;
    revoked =
        ap (λ (at : ℕ → ℤ). add_token (at s.clock.reads) token (hours lifetime) s.blacklist)
          l.same_clock;
  }

  rotated :
      (token : Text) (user : User) (s : World D) (pair : TokenPair)
      → (generate_token_pair jwt a user s).0 ≡ ok pair
      → (rotate repo auth tx bcrypt lifetime (record { refresh_token = token }) user s).1
        ≡ revoke token (generate_token_pair jwt a user s).1
  unfolding rotate blacklist_token
  rotated token user s pair made = rw made

  pub rotate-HasRevoked :
      (token : Text) (user : User) (w s : World D) {resp : RefreshTokenResponse}
      → IsLater w s
      → (rotate repo auth tx bcrypt lifetime (record { refresh_token = token }) user s).0 ≡ ok resp
      → HasRevoked token w
          (rotate repo auth tx bcrypt lifetime (record { refresh_token = token }) user s).1
  unfolding rotate
  rotate-HasRevoked token user w s l h =
      let (pair, made, rest) =
        handle-eq-ok (generate_token_pair jwt a user s).0 _ _ _
          (λ (e : Error) (b : RefreshTokenResponse) (k : err (internal e) ≡ ok b). cc k) h in
      let m = IsLater-trans l (generate_token_pair-IsLater jwt a user s) in
      rw (rotated token user s pair made)
        (revoke-HasRevoked token w (generate_token_pair jwt a user s).1 m)
