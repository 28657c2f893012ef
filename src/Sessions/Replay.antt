-- ===== src/Sessions/Replay.antt =====
-- A refresh token that has been exchanged once is refused ever after: `RefreshToken` of
-- internal/usecase/auth_usecase.go, served twice.
use boot_backend_go_clean.Common.{
  ℕ, suc, ◌+◌, ◌≤◌, ◌≡◌, ap, String, ◌⊎◌, inl, inr, true, false, some, arith, Bool-cases,
  if◌then◌else◌,
}
use boot_backend_go_clean.Common.Int.{ℤ, pos, ◌+ℤ◌, ◌<ℤ◌, ◌≤ℤ◌, unix_mono, +ℤ_parts}
use boot_backend_go_clean.Common.Text.{Text, text_eq_refl}
use boot_backend_go_clean.Errors.{
  Error, err_token_blacklisted, err_token_invalid, err_user_not_found, app, sentinel, fail, wrap,
}
use boot_backend_go_clean.Errors.Chain.{variable, errors_is}
use boot_backend_go_clean.Effect.{ok, err, panic, throw, Outcome-cases, was_ok, was_err, was_panic}
use boot_backend_go_clean.Entity.{
  User, RefreshTokenRequest, RefreshTokenResponse, RefreshTokenClaims, StandardClaims,
}
use boot_backend_go_clean.Blacklist.{is_live, is_token_blacklisted}
use boot_backend_go_clean.Blacklist.History.{is_token_blacklisted-add_token}
use boot_backend_go_clean.World.{World, present, tick, IsMonotone}
use boot_backend_go_clean.Repository.{Context, UserRepository, TxManager, Authenticator, Bcrypt}
use boot_backend_go_clean.Jwt.{
  Library, JwtAuthenticator, generate_refresh_token, validate_refresh_token, token_blacklisted,
  new_jwt_authenticator,
}
use boot_backend_go_clean.Jwt.Tokens.{validate_refresh_late}
use boot_backend_go_clean.Jwt.Laws.{IsFaithful}
use boot_backend_go_clean.AuthUseCase.{internal, hours, rotate, exchange, refresh_token}
use boot_backend_go_clean.AuthUseCase.Login.{handle-eq-ok}
use boot_backend_go_clean.Sessions.{
  IsLater, IsLater-refl, IsLater-tick, IsLater-trans, FindsQuietly, HasRevoked, rotate-HasRevoked,
}

-- An entry that a request has set `expiration` after its reading `k`, and that is over at the
-- reading `j`, is over no sooner than a token made at an earlier reading `i` with the same
-- lifetime.
past_entry :
    (at : ℕ → ℤ)
    → ((i j : ℕ) → i ≤ j → at i ≤ℤ at j)
    → (i k j : ℕ) (expiration : ℤ) → i ≤ k
    → k ≤ j
    → is_live (at j) (some (at k +ℤ expiration)) ≡ false
    → at i +ℤ expiration ≤ℤ at (suc j)
past_entry at mono i k j expiration h h' gone = omega (
  arith,
  mono i k h,
  mono j (suc j) (omega arith),
  +ℤ_parts (at i) expiration,
  +ℤ_parts (at k) expiration,
  over (at j) (at k +ℤ expiration) gone,
)
  where
    over : (now x : ℤ) → is_live now (some x) ≡ false → x <ℤ now
    over now x h = ground arith

module _ {D : Type 0} (jwt : Library) (a : JwtAuthenticator) where
  validate_refresh_token-state :
      (t : Text) (w : World D) → (validate_refresh_token jwt a t w).1 ≡ tick w
  unfolding validate_refresh_token
  validate_refresh_token-state t w = ground arith

module _ {D : Type 0} (jwt : Library) (a : JwtAuthenticator) (repo : UserRepository (World D))
    (tx : TxManager (World D)) (bcrypt : Bcrypt (World D)) (lifetime : ℤ) where
  abbrev auth : Authenticator (World D)
  auth = new_jwt_authenticator jwt a

  with_user :
      (ctx : Context) (req : RefreshTokenRequest) (id : ℤ) (s : World D) (user : User)
      → (repo.find_by_id ctx id s).0 ≡ ok user
      → exchange repo auth tx bcrypt lifetime ctx req id s
        ≡ rotate repo auth tx bcrypt lifetime req user (repo.find_by_id ctx id s).1
  unfolding exchange
  with_user ctx req id s user found = rw found

  not_found_fails :
      (e : Error) (s : World D) (b : RefreshTokenResponse)
      → ((if errors_is e (variable err_user_not_found)
            then throw (fail err_user_not_found)
            else throw (internal e))
          s).0
        ≡ ok b
      → ⊥
  not_found_fails e s b h = ground arith

  exchange-HasRevoked :
      (ctx : Context) (token : Text) (id : ℤ) (w s : World D) {resp : RefreshTokenResponse}
      → FindsQuietly repo
      → IsLater w s
      → (exchange repo auth tx bcrypt lifetime ctx (record { refresh_token = token }) id s).0
        ≡ ok resp
      → HasRevoked jwt a repo tx bcrypt lifetime token w
          (exchange repo auth tx bcrypt lifetime ctx (record { refresh_token = token }) id s).1
  unfolding exchange
  exchange-HasRevoked ctx token id w s quiet l h =
      let (user, found, rest) =
        handle-eq-ok (repo.find_by_id ctx id s).0 _ _ _
          (λ e b. not_found_fails e (repo.find_by_id ctx id s).1 b) h in
      rw (with_user ctx (record { refresh_token = token }) id s user found) (
        rotate-HasRevoked jwt a repo tx bcrypt lifetime token user w (repo.find_by_id ctx id s).1
          (IsLater-trans l (quiet ctx id s)) rest)

  abbrev asks_with : Text → RefreshTokenRequest
  asks_with token = record { refresh_token = token }

  -- The two ways in which `RefreshToken` ends before the user is looked up, and the way on.
  refused_revoked :
      (ctx : Context) (token : Text) (w : World D)
      → is_token_blacklisted (present w) token w.blacklist ≡ true
      → (refresh_token repo auth tx bcrypt lifetime ctx (asks_with token) w).0
        ≡ err (fail err_token_blacklisted)
  unfolding refresh_token token_blacklisted
  refused_revoked ctx token w h = rw h

  refused_invalid :
      (ctx : Context) (token : Text) (w : World D) (e : Error)
      → is_token_blacklisted (present w) token w.blacklist ≡ false
      → (validate_refresh_token jwt a token (tick w)).0 ≡ err e
      → (refresh_token repo auth tx bcrypt lifetime ctx (asks_with token) w).0
        ≡ err (app (wrap (sentinel err_token_invalid) e))
  unfolding refresh_token token_blacklisted
  refused_invalid ctx token w e h k = rw (h, k)

  goes_on :
      (ctx : Context) (token : Text) (w : World D) (c : RefreshTokenClaims) (sc : StandardClaims)
      → is_token_blacklisted (present w) token w.blacklist ≡ false
      → (validate_refresh_token jwt a token (tick w)).0 ≡ ok (c, sc)
      → refresh_token repo auth tx bcrypt lifetime ctx (asks_with token) w
        ≡ exchange repo auth tx bcrypt lifetime ctx (asks_with token) c.user_id (tick (tick w))
  unfolding refresh_token token_blacklisted
  goes_on ctx token w c sc h k = rw (h, k, validate_refresh_token-state jwt a token (tick w))

  panics :
      (ctx : Context) (token : Text) (w : World D) (m : String)
      → is_token_blacklisted (present w) token w.blacklist ≡ false
      → (validate_refresh_token jwt a token (tick w)).0 ≡ panic m
      → (refresh_token repo auth tx bcrypt lifetime ctx (asks_with token) w).0 ≡ panic m
  unfolding refresh_token token_blacklisted
  panics ctx token w m h k = rw (h, k)

  -- A refresh that succeeds has put the token that it was asked with on the blacklist, for the
  -- configured lifetime from a reading of the clock during the request, if the lookup of a user
  -- leaves the session state alone.
  pub refresh_token-HasRevoked :
      (ctx : Context) (token : Text) (w : World D) {resp : RefreshTokenResponse}
      → FindsQuietly repo
      → (refresh_token repo auth tx bcrypt lifetime ctx (asks_with token) w).0 ≡ ok resp
      → HasRevoked jwt a repo tx bcrypt lifetime token w
          (refresh_token repo auth tx bcrypt lifetime ctx (asks_with token) w).1
  refresh_token-HasRevoked ctx token w quiet h =
      elim (Bool-cases (is_token_blacklisted (present w) token w.blacklist)) [
        | inl revoked ↦ absurd (ground (arith, refused_revoked ctx token w revoked))
        | inr fresh ↦ elim (Outcome-cases (validate_refresh_token jwt a token (tick w)).0) [
          | was_err e k ↦ absurd (ground (arith, refused_invalid ctx token w e fresh k))
          | was_panic m k ↦ absurd (ground (arith, panics ctx token w m fresh k))
          | was_ok (c, sc) k ↦
              let e = goes_on ctx token w c sc fresh k in
              rw e (
                exchange-HasRevoked ctx token c.user_id w (tick (tick w)) quiet
                  (IsLater-tick (IsLater-tick (IsLater-refl w))) (rw e at h))
        ]
      ]

  -- The refusal of a token that has been exchanged, for a blacklist of `w2` that answers for it as
  -- the one that the first request has left.
  pub refresh_only_once :
      (laws : IsFaithful jwt) (ctx ctx' : Context) (user : User) (token : Text) (w0 w w2 : World D)
      {resp : RefreshTokenResponse}
      → FindsQuietly repo
      → IsMonotone w0.clock
      → pos 0 <ℤ a.refresh_expiration
      → a.refresh_expiration ≡ hours lifetime
      → (generate_refresh_token jwt a user a.refresh_expiration w0).0 ≡ ok token
      → w.clock.at ≡ w0.clock.at
      → w0.clock.reads + 2 ≤ w.clock.reads
      → (refresh_token repo auth tx bcrypt lifetime ctx (asks_with token) w).0 ≡ ok resp
      → w2.clock.at ≡ w0.clock.at
      → (refresh_token repo auth tx bcrypt lifetime ctx (asks_with token) w).1.clock.reads
        ≤ w2.clock.reads
      → is_token_blacklisted (present w2) token w2.blacklist
        ≡ is_token_blacklisted
            (present w2)
            token
            (refresh_token repo auth tx bcrypt lifetime ctx (asks_with token) w).1.blacklist
      → ((refresh_token repo auth tx bcrypt lifetime ctx' (asks_with token) w2).0
          ≡ err (fail err_token_blacklisted))
        ⊎ ((e : Error) × ((refresh_token repo auth tx bcrypt lifetime ctx' (asks_with token) w2).0
              ≡ err (app (wrap (sentinel err_token_invalid) e))))
  refresh_only_once laws ctx ctx' user token w0 w w2 quiet mono positive same made at_w later done
        at_w2 later2 kept =
      elim (Bool-cases (is_token_blacklisted (present w2) token w2.blacklist)) [
        | inl revoked ↦ inl (refused_revoked ctx' token w2 revoked)
        | inr fresh ↦
            let r = refresh_token-HasRevoked ctx token w quiet done in
            let gone : is_live (w0.clock.at w2.clock.reads)
                  (some (w0.clock.at r.reading +ℤ a.refresh_expiration))
                ≡ false =
              cc (
                kept,
                fresh,
                r.revoked,
                is_token_blacklisted-add_token (w.clock.at r.reading) (present w2) (hours lifetime)
                    token token r.older,
                text_eq_refl token,
                ap (λ (at : ℕ → ℤ). at w2.clock.reads) at_w2,
                ap (λ (at : ℕ → ℤ). at r.reading) at_w,
                same,
              ) in
            let (e, expired) = validate_refresh_late jwt a laws user w0 (tick w2) positive made (
              unix_mono _ _ (
                rw (ap (λ (at : ℕ → ℤ). at (suc w2.clock.reads)) at_w2) (
                  past_entry w0.clock.at mono (suc w0.clock.reads) r.reading w2.clock.reads
                    a.refresh_expiration (omega (arith, later, r.after_start))
                    (omega (arith, r.more_reads, later2)) gone))) in
            inr (e, refused_invalid ctx' token w2 e fresh expired)
      ]
