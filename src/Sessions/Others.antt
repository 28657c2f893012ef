-- ===== src/Sessions/Others.antt =====
-- A refresh token that has been exchanged, while other requests and the cleanup of the blacklist go
-- on: `RefreshToken` of internal/usecase/auth_usecase.go over internal/infrastructure/auth.
use boot_backend_go_clean.Common.{◌+◌, ◌≤◌, ◌≡◌, refl, ◌∙◌, ◌⊎◌, false, List, [], ◌∷◌, arith}
use boot_backend_go_clean.Common.Int.{ℤ, pos, ◌<ℤ◌, ◌≤ℤ◌, ◌+ℤ◌}
use boot_backend_go_clean.Common.Text.{Text, text_eq}
use boot_backend_go_clean.Errors.{
  Error, app, sentinel, fail, wrap, err_token_blacklisted, err_token_invalid,
}
use boot_backend_go_clean.Effect.{ok, err}
use boot_backend_go_clean.Entity.{User, RefreshTokenResponse}
use boot_backend_go_clean.GoMap.{IsMap, insert-IsMap, delete_where-IsMap}
use boot_backend_go_clean.Blacklist.{
  TokenBlacklist, after, cleanup, add_token, is_token_blacklisted,
}
use boot_backend_go_clean.Blacklist.History.{
  Change, added, cleaned, apply, cleanup_invisible, is_token_blacklisted-add_token,
}
use boot_backend_go_clean.World.{World, present, IsMonotone}
use boot_backend_go_clean.Repository.{Context, UserRepository, TxManager, Bcrypt}
use boot_backend_go_clean.Jwt.{
  Library, JwtAuthenticator, generate_refresh_token, new_jwt_authenticator,
}
use boot_backend_go_clean.Jwt.Laws.{IsFaithful}
use boot_backend_go_clean.AuthUseCase.{hours, refresh_token}
use boot_backend_go_clean.Sessions.{FindsQuietly}
use boot_backend_go_clean.Sessions.Replay.{refresh_only_once}

-- The addition of another token, or a cleanup no later than `now`.
abbrev pub IsOther : Text → ℤ → Change → Type 0
IsOther token now (added t k d) = text_eq k token ≡ false
IsOther token now (cleaned t) = t ≤ℤ now

abbrev pub AllOther : Text → ℤ → List Change → Type 0
AllOther token now [] = Unit
AllOther token now (c ∷ changes) = IsOther token now c × AllOther token now changes

-- A blacklist after more changes, the newest first.
unfoldable pub changed : List Change → TokenBlacklist → TokenBlacklist
unfolding apply
changed [] b = b
changed (c ∷ changes) b = apply c (changed changes b)

changed-IsMap :
    (changes : List Change) (b : TokenBlacklist)
    → IsMap b.blacklist
    → IsMap (changed changes b).blacklist
unfolding changed apply
changed-IsMap [] b m = m
changed-IsMap (added t k d ∷ changes) b m =
    unfold add_token in insert-IsMap k (t +ℤ d) _ (changed-IsMap changes b m)
changed-IsMap (cleaned t ∷ changes) b m =
    unfold cleanup in
    delete_where-IsMap (λ (x : ℤ). after t x) (changed changes b).blacklist _
      (changed-IsMap changes b m)

-- Changes that concern other tokens do not show.
changed_invisible :
    (token : Text) (now : ℤ) (changes : List Change) (b : TokenBlacklist)
    → IsMap b.blacklist
    → AllOther token now changes
    → is_token_blacklisted now token (changed changes b) ≡ is_token_blacklisted now token b
unfolding changed apply
changed_invisible token now [] b m others = refl
changed_invisible token now (added t k d ∷ changes) b m (other, others) = ground (
  arith,
  is_token_blacklisted-add_token t now d k token (changed changes b),
  changed_invisible token now changes b m others,
)
changed_invisible token now (cleaned t ∷ changes) b m (le, others) =
    cleanup_invisible t now token (changed changes b) (changed-IsMap changes b m) le
    ∙ changed_invisible token now changes b m others

module _ {D : Type 0} (jwt : Library) (a : JwtAuthenticator) (repo : UserRepository (World D))
    (tx : TxManager (World D)) (bcrypt : Bcrypt (World D)) (lifetime : ℤ) where
  -- Let the JWT library behave as documented, the clock not run backwards, the lookup of a user
  -- leave the session state alone, and the lifetime of refresh tokens be positive and the same for
  -- the authenticator and for the blacklist. Then a refresh token that GenerateTokenPair made at
  -- `w0`, and that a request served later, at `w`, has exchanged, is refused by every request
  -- served after that, at `w2`, whatever other tokens have been revoked and whichever cleanups
  -- have run in between: as revoked while its entry lasts, and as invalid afterwards. The
  -- blacklist that the first request left has each token once.
  pub refresh_token_used_once :
      (laws : IsFaithful jwt) (ctx ctx' : Context) (user : User) (token : Text) (w0 w w2 : World D)
      (changes : List Change) {resp : RefreshTokenResponse}
      → FindsQuietly repo
      → IsMonotone w0.clock
      → pos 0 <ℤ a.refresh_expiration
      → a.refresh_expiration ≡ hours lifetime
      → (generate_refresh_token jwt a user a.refresh_expiration w0).0 ≡ ok token
      → w.clock.at ≡ w0.clock.at
      → w0.clock.reads + 2 ≤ w.clock.reads
      → (refresh_token repo
          (new_jwt_authenticator jwt a)
          tx
          bcrypt
          lifetime
          ctx
          (record { refresh_token = token })
          w).0
        ≡ ok resp
      → w2.clock.at ≡ w0.clock.at
      → (refresh_token repo
          (new_jwt_authenticator jwt a)
          tx
          bcrypt
          lifetime
          ctx
          (record { refresh_token = token })
          w).1.clock.reads
        ≤ w2.clock.reads
      → IsMap
          (refresh_token repo
            (new_jwt_authenticator jwt a)
            tx
            bcrypt
            lifetime
            ctx
            (record { refresh_token = token })
            w).1.blacklist.blacklist
      → AllOther token (present w2) changes
      → w2.blacklist
        ≡ changed changes
            (refresh_token repo
              (new_jwt_authenticator jwt a)
              tx
              bcrypt
              lifetime
              ctx
              (record { refresh_token = token })
              w).1.blacklist
      → ((refresh_token repo
            (new_jwt_authenticator jwt a)
            tx
            bcrypt
            lifetime
            ctx'
            (record { refresh_token = token })
            w2).0
          ≡ err (fail err_token_blacklisted))
        ⊎ ((e : Error) × ((refresh_token repo
                (new_jwt_authenticator jwt a)
                tx
                bcrypt
                lifetime
                ctx'
                (record { refresh_token = token })
                w2).0
              ≡ err (app (wrap (sentinel err_token_invalid) e))))
  refresh_token_used_once laws ctx ctx' user token w0 w w2 changes quiet mono positive same made
        at_w later done at_w2 later2 map others kept =
      refresh_only_once jwt a repo tx bcrypt lifetime laws ctx ctx' user token w0 w w2 quiet mono
        positive same made at_w later done at_w2 later2
        (rw (kept) (changed_invisible token (present w2) changes _ map others))
