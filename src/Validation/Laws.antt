-- ===== src/Validation/Laws.antt =====
-- What `User.Validate` of internal/domain/entity/user.go accepts, and that a user it has accepted
-- is accepted again, unchanged.
use mathlib.Core.List.{
  reverse, reverse-cons, reverse-reverse, cons-ne-nil, append-ne-nil_of_right_ne-nil,
}
use boot_backend_go_clean.Common.{
  ℕ, ◌≤◌, ◌≡◌, refl, sym, ◌≢◌, ◌↔◌, ap, Bool, true, false, not, [], ◌∷◌, ◌++◌, Option, none, some,
  Option-cases, ◌⊎◌, arith, inl, inr,
}
use boot_backend_go_clean.Common.Lists.{all}
use boot_backend_go_clean.Common.Text.{Text, byte_length}
use boot_backend_go_clean.Errors.{Error}
use boot_backend_go_clean.Entity.{User}
use boot_backend_go_clean.Validation.{
  is_space, skip_spaces, trim_space, to_lower, is_letter, is_local, is_domain, normalize_email,
  is_empty, validate,
}
use boot_backend_go_clean.Validation.Email.{IsAddress, is_valid_email_iff}

-- What an accepted user is, read off the user that went in.
pub record IsAcceptable (u : User) : Type 0 where
  pub named : u.username ≢ []
  pub addressed : u.email ≢ []
  pub address : IsAddress (normalize_email u.email)
  pub long_enough : 8 ≤ byte_length u.password
  pub short_enough : byte_length u.password ≤ 72

validate_sound : (u : User) → (validate u).1 ≡ none → IsAcceptable u
unfolding validate
validate_sound u h = record {
  named = λ e. ground (arith, ap is_empty e);
  addressed = λ e. ground (arith, ap is_empty e);
  address = (is_valid_email_iff (normalize_email u.email)).0 (ground arith);
  long_enough = ground arith;
  short_enough = ground arith;
}

not-is_empty : (s : Text) → s ≢ [] → is_empty s ≡ false
not-is_empty [] h = absurd (h refl)
not-is_empty (c ∷ s) h = refl

pub validate_complete :
    (u : User) → IsAcceptable u → validate u ≡ (record u { email = normalize_email u.email }, none)
unfolding validate
validate_complete u a = ground (
  arith,
  not-is_empty u.username a.named,
  not-is_empty u.email a.addressed,
  (is_valid_email_iff (normalize_email u.email)).1 a.address,
  a.long_enough,
  a.short_enough,
)

-- `Validate` returns nil exactly for the users with a name, an address (trimmed and in lower case)
-- that the expression describes, and a password of 8 to 72 bytes; of such a user it changes nothing
-- but the address, which it trims and puts in lower case.
pub validate_iff :
    (u : User)
    → ((validate u).1 ≡ none ↔ IsAcceptable u)
      × ((validate u ≡ (record u { email = normalize_email u.email }, none)) ↔ IsAcceptable u)
validate_iff u = (
  (validate_sound u, λ a. ap (λ (r : User × Option Error). r.1) (validate_complete u a)),
  (λ e. validate_sound u (ap (λ (r : User × Option Error). r.1) e), λ a. validate_complete u a),
)

to_lower_idem : (s : Text) → to_lower (to_lower s) ≡ to_lower s
unfolding to_lower
to_lower_idem [] = refl
to_lower_idem (c ∷ s) =
    let ih : to_lower (to_lower s) ≡ to_lower s = to_lower_idem s in ground (arith, ih)

-- No character of an address is white space.
abbrev no_spaces : Text → Bool
no_spaces = all (λ c. not (is_space c))

skip_spaces-eq : (s : Text) → no_spaces s ≡ true → skip_spaces s ≡ s
unfolding skip_spaces
skip_spaces-eq [] h = refl
skip_spaces-eq (c ∷ s) h = ground arith

all-append : (p : ℕ → Bool) (s t : Text) → all p s ≡ true → all p t ≡ true → all p (s ++ t) ≡ true
all-append p [] t h k = k
all-append p (c ∷ s) t h k = ground (arith, all-append p s t)

all_imp :
    (p q : ℕ → Bool)
    → ((c : ℕ) → p c ≡ true → q c ≡ true)
    → (s : Text) → all p s ≡ true
    → all q s ≡ true
all_imp p q f [] h = refl
all_imp p q f (c ∷ s) h = ground (arith, f c, all_imp p q f s)

no_spaces-reverse : (s : Text) → no_spaces s ≡ true → no_spaces (reverse s) ≡ true
no_spaces-reverse [] h = refl
no_spaces-reverse (c ∷ s) h =
    rw reverse-cons
      (all-append _ (reverse s) (c ∷ []) (no_spaces-reverse s (ground arith)) (ground arith))

trim_space-eq : (s : Text) → no_spaces s ≡ true → trim_space s ≡ s
unfolding trim_space
trim_space-eq s h =
    rw (skip_spaces-eq s h, skip_spaces-eq (reverse s) (no_spaces-reverse s h)) (reverse-reverse s)

letter_no_space : (c : ℕ) → is_letter c ≡ true → not (is_space c) ≡ true
unfolding is_letter is_space
letter_no_space c h = ground arith

domain_no_space : (c : ℕ) → is_domain c ≡ true → not (is_space c) ≡ true
unfolding is_domain is_space
domain_no_space c h = ground arith

local_no_space : (c : ℕ) → is_local c ≡ true → not (is_space c) ≡ true
unfolding is_local is_space
local_no_space c h = ground arith

IsAddress-no_spaces : (s : Text) → IsAddress s → no_spaces s ≡ true
unfolding is_space
IsAddress-no_spaces s a = rw a.parts (
    all-append _ a.local _ (all_imp _ _ local_no_space a.local a.in_local) (
      all-append _ a.domain (b'.' ∷ a.tld) (all_imp _ _ domain_no_space a.domain a.in_domain)
        (all_imp _ _ letter_no_space a.tld a.in_tld)))

normalize_email_idem :
    (s : Text)
    → IsAddress (normalize_email s)
    → normalize_email (normalize_email s) ≡ normalize_email s
unfolding normalize_email
normalize_email_idem s a =
    rw (trim_space-eq (to_lower (trim_space s)) (IsAddress-no_spaces _ a))
      (to_lower_idem (trim_space s))

IsAddress-ne-nil : (s : Text) → IsAddress s → s ≢ []
IsAddress-ne-nil [] a e =
    absurd (append-ne-nil_of_right_ne-nil a.local (cons-ne-nil _ _) (sym a.parts))
IsAddress-ne-nil (c ∷ s) a e = cc

-- Validating a user again that `Validate` has accepted changes nothing and accepts it again.
pub validate_idem : (u : User) → (validate u).1 ≡ none → validate (validate u).0 ≡ validate u
validate_idem u h =
    let a = validate_sound u h in
    let u' : User = record u { email = normalize_email u.email } in
    let a' : IsAcceptable u' = record {
      named = a.named;
      addressed = IsAddress-ne-nil _ a.address;
      address = rw (normalize_email_idem u.email a.address) a.address;
      long_enough = a.long_enough;
      short_enough = a.short_enough;
    } in
    cc (validate_complete u a, validate_complete u' a', normalize_email_idem u.email a.address)

-- The two outcomes of `Validate`, with what each says.
pub validate-cases :
    (u : User)
    → (IsAcceptable u × (validate u ≡ (record u { email = normalize_email u.email }, none)))
      ⊎ ((e : Error) × ((validate u).1 ≡ some e))
validate-cases u = elim (Option-cases (validate u).1) [
  | inl h ↦ let a = validate_sound u h in inl (a, validate_complete u a)
  | inr (e, h) ↦ inr (e, h)
]
