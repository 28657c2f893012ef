-- ===== src/Examples/Tokens.antt =====
-- Tokens at concrete inputs: what they are read back as, how they are refused, and how a refresh
-- token is used up.
use boot_backend_go_clean.Common.{
  ◌≡◌, ◌≢◌, refl, ◌⊎◌, true, Option, none, some, List, [], ◌∷◌, arith,
}
use boot_backend_go_clean.Common.Int.{pos}
use boot_backend_go_clean.Common.Text.{Text, codes, text_eq}
use boot_backend_go_clean.Errors.{
  Error, app, sentinel, fail, wrap, err_token_blacklisted, err_token_invalid,
}
use boot_backend_go_clean.Effect.{Outcome, ok, err}
use boot_backend_go_clean.Entity.{
  User, AccessTokenClaims, RefreshTokenClaims, StandardClaims, RefreshTokenResponse, hour,
}
use boot_backend_go_clean.GoMap.{IsMap, lookup}
use boot_backend_go_clean.Blacklist.{is_token_blacklisted, is_live, new_token_blacklist}
use boot_backend_go_clean.Blacklist.History.{
  Change, added, cleaned, replay, last_expiration, replay-is_token_blacklisted,
}
use boot_backend_go_clean.World.{present}
use boot_backend_go_clean.Jwt.{
  JwtAuthenticator, MapClaims, string, iss_key, key_for, generate_access_token,
  generate_refresh_token, validate_access_token, validate_refresh_token, new_jwt_authenticator,
  token_blacklisted, generate_token_pair, blacklist_token,
}
use boot_backend_go_clean.Jwt.Float.{to_float64}
use boot_backend_go_clean.Jwt.Tokens.{validate_access_sound, token_confusion}
use boot_backend_go_clean.Jwt.Identity.{access_token_names_user, refresh_token_names_other}
use boot_backend_go_clean.AuthUseCase.{hours, refresh_token}
use boot_backend_go_clean.Sessions.{FindsQuietly, IsLater}
use boot_backend_go_clean.Sessions.Others.{AllOther, changed, refresh_token_used_once}
use boot_backend_go_clean.Examples.Signer.{signer, signer-IsFaithful, signed_string, parse}
use boot_backend_go_clean.Examples.Store.{
  Db, store, tx, hasher, alice, bob, background, at_reading, settings, seconds-IsMonotone, found,
  find_where,
}

found-IsLater : (u : Option User) (w : Db) → IsLater w (found u w).1
found-IsLater none w = record { same_clock = refl; more_reads = omega arith; same_blacklist = refl }
found-IsLater (some u) w = record {
  same_clock = refl;
  more_reads = omega arith;
  same_blacklist = refl;
}

store-FindsQuietly : FindsQuietly store
unfolding find_where
store-FindsQuietly ctx id w = found-IsLater _ w

abbrev text_of : Outcome Text → Text
text_of (ok t) = t
text_of _ = []

abbrev access_of : JwtAuthenticator → User → Text
access_of a user =
    text_of (generate_access_token signer a user a.access_expiration (at_reading 0)).0

abbrev refresh_of : User → Text
refresh_of user = text_of (generate_refresh_token signer settings user hour (at_reading 0)).0

abbrev claims_or : {A : Type 0} → A → Outcome A → A
claims_or a (ok b) = b
claims_or a _ = a

abbrev accepted : AccessTokenClaims × StandardClaims
accepted =
    claims_or
      (
        record { user_id = pos 0; username = [] },
        record { issued_at = pos 0; expires_at = pos 0; issuer = [] },
      )
      (validate_access_token signer settings (access_of settings alice) (at_reading 5)).0

validate_access_sound_example :
    (claims : MapClaims) × (parse
        (present (at_reading 5))
        (access_of settings alice)
        (key_for (codes "access"))
      ≡ ok (record { claims = some claims; is_valid = true }))
    × (lookup iss_key claims ≡ some (string (codes "boot")))
    × (accepted.1.issuer ≡ codes "boot")
unfolding generate_access_token validate_access_token signed_string parse
validate_access_sound_example =
    validate_access_sound signer settings (access_of settings alice) (at_reading 5) refl

token_confusion_example :
    ((e : Error) × ((validate_refresh_token signer settings
          (access_of settings alice)
          (at_reading 5)).0
        ≡ err e))
    × ((e : Error) × ((validate_access_token signer settings (refresh_of alice) (at_reading 5)).0
          ≡ err e))
unfolding generate_access_token generate_refresh_token signed_string
token_confusion_example =
    token_confusion signer settings signer-IsFaithful alice (at_reading 0) (at_reading 0)
      (at_reading 5) (access_of settings alice) (refresh_of alice) (λ h. cc h) refl refl

access_token_names_user_example :
    (s : StandardClaims) × ((validate_access_token signer settings
        (access_of settings alice)
        (at_reading 5)).0
      ≡ ok (record { user_id = pos 7; username = codes "alice" }, s))
    × (s.issuer ≡ codes "boot")
unfolding generate_access_token signed_string
access_token_names_user_example =
    access_token_names_user signer settings signer-IsFaithful alice 7 (at_reading 0) (at_reading 5)
      (access_of settings alice) refl (omega arith) (omega arith) refl (omega arith)

refresh_token_names_other_example :
    (c : RefreshTokenClaims) × (s : StandardClaims) × ((validate_refresh_token signer settings
        (refresh_of bob)
        (at_reading 5)).0
      ≡ ok (c, s))
    × (c.user_id ≢ bob.id)
unfolding generate_refresh_token signed_string
refresh_token_names_other_example =
    refresh_token_names_other signer settings signer-IsFaithful bob 9007199254740993 (at_reading 0)
      (at_reading 5) (refresh_of bob) refl (omega arith) (omega arith) refl (omega arith) refl
      (omega arith)

abbrev history : List Change
history =
    cleaned (pos 30) ∷ added (pos 10) (codes "t") (pos 15) ∷ added (pos 5) (codes "u") (pos 50) ∷ []

replay-is_token_blacklisted_example :
    is_token_blacklisted (pos 31) (codes "u") (replay history)
    ≡ is_live (pos 31) (last_expiration (codes "u") history)
replay-is_token_blacklisted_example =
    replay-is_token_blacklisted history (pos 31) (codes "u")
      (omega arith, (omega arith, (omega arith, tt)))

abbrev first : Outcome RefreshTokenResponse × Db
first =
    refresh_token store (new_jwt_authenticator signer settings) tx hasher (pos 1) background
      (record { refresh_token = refresh_of alice }) (at_reading 2)

abbrev response_of : Outcome RefreshTokenResponse → RefreshTokenResponse
response_of (ok resp) = resp
response_of _ = record { access_token = []; refresh_token = []; expires_at = pos 0 }

refreshes : first.0 ≡ ok (response_of first.0)
unfolding refresh_token find_where generate_refresh_token signed_string parse validate_refresh_token
    token_blacklisted new_token_blacklist to_float64 generate_token_pair blacklist_token
refreshes = refl

same_clock : first.1.clock.at ≡ (at_reading 0).clock.at
unfolding refresh_token find_where generate_refresh_token signed_string parse validate_refresh_token
    token_blacklisted new_token_blacklist to_float64 generate_token_pair blacklist_token
same_clock = refl

abbrev others : List Change
others =
    cleaned (pos 1800000000500000000) ∷ added (pos 1800000000000000000) (codes "other") (pos 5) ∷ []

-- After the exchange, another token is revoked and the cleanup runs.
abbrev later_on : Db
later_on = record first.1 { blacklist = changed others first.1.blacklist }

each_once : IsMap first.1.blacklist.blacklist
unfolding refresh_token find_where generate_refresh_token signed_string parse validate_refresh_token
    token_blacklisted new_token_blacklist to_float64 generate_token_pair blacklist_token
each_once = (refl, tt)

others-AllOther : AllOther (refresh_of alice) (present later_on) others
unfolding refresh_token find_where generate_refresh_token signed_string parse validate_refresh_token
    token_blacklisted new_token_blacklist to_float64 generate_token_pair blacklist_token text_eq
others-AllOther = (omega arith, (refl, tt))

refresh_token_used_once_example :
    ((refresh_token store
        (new_jwt_authenticator signer settings)
        tx
        hasher
        (pos 1)
        background
        (record { refresh_token = refresh_of alice })
        later_on).0
      ≡ err (fail err_token_blacklisted))
    ⊎ ((e : Error) × ((refresh_token store
            (new_jwt_authenticator signer settings)
            tx
            hasher
            (pos 1)
            background
            (record { refresh_token = refresh_of alice })
            later_on).0
          ≡ err (app (wrap (sentinel err_token_invalid) e))))
unfolding hours generate_refresh_token signed_string
refresh_token_used_once_example =
    refresh_token_used_once signer settings store tx hasher (pos 1) signer-IsFaithful background
      background alice (refresh_of alice) (at_reading 0) (at_reading 2) later_on others
      store-FindsQuietly seconds-IsMonotone (omega arith) refl refl refl (omega arith) refreshes
      same_clock (omega arith) each_once others-AllOther refl
