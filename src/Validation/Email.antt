-- ===== src/Validation/Email.antt =====
-- The language of the regular expression in internal/domain/entity/user.go, stated apart from the
-- matcher.
use boot_backend_go_clean.Common.{
  ℕ, ◌≤◌, ◌≡◌, refl, ◌≢◌, ◌↔◌, ap, ◌∙◌, Bool, true, false, ◌&&◌, [], ◌∷◌, ◌++◌, arith, ◌==◌,
  Bool-cases, inl, inr,
}
use boot_backend_go_clean.Common.Lists.{length, all}
use boot_backend_go_clean.Common.Text.{Text}
use boot_backend_go_clean.Validation.{
  is_letter, is_local, is_domain, is_tld, matches_from, is_valid_email,
}

module _ (class : ℕ → Bool) (separator : ℕ) (rest : Text → Bool) where
  -- A prefix of the class, the separator, and what follows it.
  pub record Split (s : Text) : Type 0 where
    pub before : Text
    pub after : Text
    pub parts : s ≡ before ++ separator ∷ after
    pub in_class : all class before ≡ true
    pub follows : rest after ≡ true

  Split-cons : (c : ℕ) (s : Text) → class c ≡ true → Split s → Split (c ∷ s)
  Split-cons c s h p = record {
    before = c ∷ p.before;
    after = p.after;
    parts = ap (λ t. c ∷ t) p.parts;
    in_class = ground (arith, p.in_class);
    follows = p.follows;
  }

  Split-here : (c : ℕ) (s : Text) → c ≡ separator → rest s ≡ true → Split (c ∷ s)
  Split-here c s e h = record {
    before = [];
    after = s;
    parts = ap (λ d. d ∷ s) e;
    in_class = refl;
    follows = h;
  }

  matches_from-Split : (s : Text) → matches_from class separator rest true s ≡ true → Split s
  unfolding matches_from
  matches_from-Split [] h = cc
  matches_from-Split (c ∷ s) h = elim (Bool-cases (c == separator && rest s)) [
    | inl e ↦ Split-here c s (ground arith) (ground arith)
    | inr e ↦ Split-cons c s (ground arith) (matches_from-Split s (ground arith))
  ]

  matches_from-append :
      (before after : Text)
      → all class before ≡ true
      → rest after ≡ true
      → matches_from class separator rest true (before ++ separator ∷ after) ≡ true
  unfolding matches_from
  matches_from-append [] after h k = ground arith
  matches_from-append (c ∷ before) after h k = ground (arith, matches_from-append before after)

  -- The expression wants a character of the class before the separator.
  matches_from_sound :
      (s : Text)
      → matches_from class separator rest false s ≡ true
      → (p : Split s) × (p.before ≢ [])
  unfolding matches_from Split-cons
  matches_from_sound [] h = cc
  matches_from_sound (c ∷ s) h =
      (Split-cons c s (ground arith) (matches_from-Split s (ground arith)), λ e. cc)

  matches_from_complete :
      (before after : Text)
      → before ≢ []
      → all class before ≡ true
      → rest after ≡ true
      → matches_from class separator rest false (before ++ separator ∷ after) ≡ true
  unfolding matches_from
  matches_from_complete [] after n h k = absurd (n refl)
  matches_from_complete (c ∷ before) after n h k = ground (arith, matches_from-append before after)

-- An address: a local part, a domain and a top-level domain of 2 to 63 letters.
pub record IsAddress (s : Text) : Type 0 where
  pub local : Text
  pub domain : Text
  pub tld : Text
  pub parts : s ≡ local ++ b'@' ∷ (domain ++ b'.' ∷ tld)
  pub some_local : local ≢ []
  pub some_domain : domain ≢ []
  pub in_local : all is_local local ≡ true
  pub in_domain : all is_domain domain ≡ true
  pub in_tld : all is_letter tld ≡ true
  pub tld_least : 2 ≤ length tld
  pub tld_most : length tld ≤ 63

is_valid_email_sound : (s : Text) → is_valid_email s ≡ true → IsAddress s
unfolding is_valid_email
is_valid_email_sound s h =
    let (p, some_p) = matches_from_sound is_local b'@' _ s h in
    let (q, some_q) = matches_from_sound is_domain b'.' is_tld p.after p.follows in
    record {
      local = p.before;
      domain = q.before;
      tld = q.after;
      parts = p.parts ∙ ap (λ t. p.before ++ b'@' ∷ t) q.parts;
      some_local = some_p;
      some_domain = some_q;
      in_local = p.in_class;
      in_domain = q.in_class;
      in_tld = ground (arith, q.follows);
      tld_least = ground (arith, q.follows);
      tld_most = ground (arith, q.follows);
    }

is_valid_email_complete : (s : Text) → IsAddress s → is_valid_email s ≡ true
unfolding is_valid_email
is_valid_email_complete s a = rw a.parts (
    matches_from_complete is_local b'@' _ a.local _ a.some_local a.in_local (
      matches_from_complete is_domain b'.' is_tld a.domain a.tld a.some_domain a.in_domain
        (unfold is_tld in ground (arith, a.in_tld, a.tld_least, a.tld_most))))

-- The matcher accepts exactly the addresses.
pub is_valid_email_iff : (s : Text) → (is_valid_email s ≡ true) ↔ IsAddress s
is_valid_email_iff s = (is_valid_email_sound s, is_valid_email_complete s)
