-- ===== src/Jwt/Laws.antt =====
-- What the code relies on of github.com/golang-jwt/jwt/v5, as documented there: a token that was
-- signed with a secret is parsed, with its claims, under that secret until it expires, and is
-- refused under another secret or later. The claims pass through a JSON document.
use boot_backend_go_clean.Common.{◌≡◌, ◌≢◌, Bool, true, false, not, Option, some, [], ◌∷◌}
use boot_backend_go_clean.Common.Int.{ℤ, unix, ltb_ℤ}
use boot_backend_go_clean.Common.Text.{Text}
use boot_backend_go_clean.Errors.{Error}
use boot_backend_go_clean.Effect.{Outcome, ok, err}
use boot_backend_go_clean.GoMap.{lookup}
use boot_backend_go_clean.Jwt.{
  Value, int64, float64, string, other, MapClaims, Method, hmac, Library, exp_key,
}
use boot_backend_go_clean.Jwt.Float.{to_float64}

-- A claim after it has been encoded in JSON and decoded into an `interface{}`.
abbrev pub decode : Value → Value
decode (int64 x) = float64 (to_float64 x)
decode (float64 x) = float64 x
decode (string s) = string s
decode other = other

abbrev pub decode_claims : MapClaims → MapClaims
decode_claims [] = []
decode_claims ((k, v) ∷ claims) = (k, decode v) ∷ decode_claims claims

-- A token is valid while the clock is before its `exp`, a whole second; one with no `exp` stays
-- valid.
abbrev expires_by : ℤ → Option Value → Bool
expires_by now (some (int64 exp)) = not (ltb_ℤ (unix now) exp)
expires_by now _ = false

unfoldable pub is_expired : ℤ → MapClaims → Bool
unfolding lookup unix
is_expired now claims = expires_by now (lookup exp_key claims)

pub record IsFaithful (jwt : Library) : Type 0 where
  pub accepts :
      (claims : MapClaims) (secret token : Text) (now : ℤ) (key : Method → Outcome Text)
      → jwt.signed_string claims secret ≡ ok token
      → key hmac ≡ ok secret
      → is_expired now claims ≡ false
      → jwt.parse now token key
        ≡ ok (record { claims = some (decode_claims claims); is_valid = true })
  pub expires :
      (claims : MapClaims) (secret token : Text) (now : ℤ) (key : Method → Outcome Text)
      → jwt.signed_string claims secret ≡ ok token
      → key hmac ≡ ok secret
      → is_expired now claims ≡ true
      → (e : Error) × (jwt.parse now token key ≡ err e)
  pub refuses :
      (claims : MapClaims) (secret token : Text) (now : ℤ) (key : Method → Outcome Text)
      (secret' : Text)
      → jwt.signed_string claims secret ≡ ok token
      → key hmac ≡ ok secret'
      → secret ≢ secret'
      → (e : Error) × (jwt.parse now token key ≡ err e)
