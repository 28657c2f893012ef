-- ===== src/Examples/Signer.antt =====
-- A library for tokens: a token is the secret and the claims, written one after the other with
-- their lengths, and parsing reads them back. It stands for github.com/golang-jwt/jwt/v5, and
-- shows that what the development relies on of it can hold.
use boot_backend_go_clean.Common.{
  ℕ, zero, suc, ◌≡◌, ◌≢◌, refl, ap, true, false, some, [], ◌∷◌, ◌++◌, ◌==◌, if◌then◌else◌,
  Bool-cases, inl, inr,
}
use boot_backend_go_clean.Common.Int.{ℤ, pos, negsuc}
use boot_backend_go_clean.Common.Lists.{length}
use boot_backend_go_clean.Common.Text.{Text, text_eq, text_eq_refl, text_eq_iff}
use boot_backend_go_clean.Errors.{text_error}
use boot_backend_go_clean.Effect.{Outcome, ok, err, panic}
use boot_backend_go_clean.Jwt.{
  Value, int64, float64, string, other, MapClaims, Method, hmac, Token, Library,
}
use boot_backend_go_clean.Jwt.Laws.{decode_claims, is_expired, IsFaithful}

abbrev encode_text : Text → Text → Text
encode_text t rest = length t ∷ t ++ rest

abbrev encode_value : Value → Text → Text
encode_value (int64 (pos n)) rest = 0 ∷ n ∷ rest
encode_value (int64 (negsuc n)) rest = 1 ∷ n ∷ rest
encode_value (float64 (pos n)) rest = 2 ∷ n ∷ rest
encode_value (float64 (negsuc n)) rest = 3 ∷ n ∷ rest
encode_value (string t) rest = 4 ∷ encode_text t rest
encode_value other rest = 5 ∷ 0 ∷ rest

encode : MapClaims → Text
encode [] = []
encode ((k, v) ∷ claims) = encode_text k (encode_value v (encode claims))

abbrev push : ℕ → Text × Text → Text × Text
push c (t, rest) = (c ∷ t, rest)

split_at : ℕ → Text → Text × Text
split_at zero s = ([], s)
split_at (suc n) [] = ([], [])
split_at (suc n) (c ∷ s) = push c (split_at n s)

abbrev as_string : Text × Text → Value × Text
as_string (t, rest) = (string t, rest)

read_value : Text → Value × Text
unfolding split_at
read_value (tag ∷ n ∷ rest) =
    if tag == 0
    then (int64 (pos n), rest)
    else if tag == 1
    then (int64 (negsuc n), rest)
    else if tag == 2
    then (float64 (pos n), rest)
    else if tag == 3
    then (float64 (negsuc n), rest)
    else if tag == 4
    then as_string (split_at n rest)
    else (other, rest)
read_value _ = (other, [])

read_text : Text → Text × Text
unfolding split_at
read_text [] = ([], [])
read_text (n ∷ rest) = split_at n rest

-- Reads the given number of entries.
read : ℕ → Text → MapClaims
unfolding read_text read_value
read zero s = []
read (suc n) s = let (k, s') = read_text s in let (v, s'') = read_value s' in (k, v) ∷ read n s''

split_at-length : (t rest : Text) → split_at (length t) (t ++ rest) ≡ (t, rest)
unfolding split_at
split_at-length [] rest = refl
split_at-length (c ∷ t) rest = ap (push c) (split_at-length t rest)

read_value-encode_value : (v : Value) (rest : Text) → read_value (encode_value v rest) ≡ (v, rest)
unfolding read_value
read_value-encode_value (int64 (pos n)) rest = refl
read_value-encode_value (int64 (negsuc n)) rest = refl
read_value-encode_value (float64 (pos n)) rest = refl
read_value-encode_value (float64 (negsuc n)) rest = refl
read_value-encode_value (string t) rest = ap as_string (split_at-length t rest)
read_value-encode_value other rest = refl

read-encode : (claims : MapClaims) → read (length claims) (encode claims) ≡ claims
unfolding read encode read_text
read-encode [] = refl
read-encode ((k, v) ∷ claims) =
    rw
      (
        split_at-length k (encode_value v (encode claims)),
        read_value-encode_value v (encode claims),
        read-encode claims,
      )
      refl

unfoldable pub signed_string : MapClaims → Text → Outcome Text
unfolding encode
signed_string claims secret = ok (encode_text secret (length claims ∷ encode claims))

abbrev answer : ℤ → Outcome Text → Text → MapClaims → Outcome Token
answer now (ok secret) signed_with claims =
    if text_eq signed_with secret
    then if is_expired now claims
      then err (text_error "token is expired")
      else ok (record { claims = some (decode_claims claims); is_valid = true })
    else err (text_error "signature is invalid")
answer now (err e) signed_with claims = err e
answer now (panic m) signed_with claims = panic m

abbrev counted : Text → MapClaims
counted [] = []
counted (n ∷ s) = read n s

unfoldable pub parse : ℤ → Text → (Method → Outcome Text) → Outcome Token
unfolding read_text read is_expired text_eq
parse now token key = answer now (key hmac) (read_text token).0 (counted (read_text token).1)

abbrev pub signer : Library
signer = record { signed_string = signed_string; parse = parse }

parse-encode :
    (claims : MapClaims) (secret : Text) (now : ℤ) (key : Method → Outcome Text)
    → parse now (encode_text secret (length claims ∷ encode claims)) key
      ≡ answer now (key hmac) secret claims
unfolding parse read_text
parse-encode claims secret now key =
    rw (split_at-length secret (length claims ∷ encode claims), read-encode claims) refl

parse-signed_string :
    (claims : MapClaims) (secret token : Text) (now : ℤ) (key : Method → Outcome Text)
    → signed_string claims secret ≡ ok token
    → parse now token key ≡ answer now (key hmac) secret claims
unfolding signed_string
parse-signed_string claims secret token now key h =
    let e : encode_text secret (length claims ∷ encode claims) ≡ token = cc h in
    rw (← e) (parse-encode claims secret now key)

text_eq_apart : (s t : Text) → s ≢ t → text_eq s t ≡ false
text_eq_apart s t apart = elim (Bool-cases (text_eq s t)) [
  | inl same ↦ absurd (apart ((text_eq_iff s t).0 same))
  | inr differ ↦ differ
]

pub signer-IsFaithful : IsFaithful signer
signer-IsFaithful = record {
  accepts = λ claims secret token now key signed trusted fresh.
      rw
        (
          parse-signed_string claims secret token now key signed,
          trusted,
          text_eq_refl secret,
          fresh,
        )
        refl;
  expires = λ claims secret token now key signed trusted stale. (
    text_error "token is expired",
    rw (parse-signed_string claims secret token now key signed, trusted, text_eq_refl secret, stale)
        refl,
  );
  refuses = λ claims secret token now key secret' signed trusted apart. (
    text_error "signature is invalid",
    rw
        (
          parse-signed_string claims secret token now key signed,
          trusted,
          text_eq_apart secret secret' apart,
        )
        refl,
  );
}
