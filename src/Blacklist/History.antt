-- ===== src/Blacklist/History.antt =====
-- The blacklist of internal/infrastructure/auth/blacklist.go against its history of
-- additions and cleanups.
use boot_backend_go_clean.Common.{
  ◌≡◌, refl, ◌∙◌, Option, none, some, List, [], ◌∷◌, arith, if◌then◌else◌,
}
use boot_backend_go_clean.Common.Int.{ℤ, ◌+ℤ◌, ◌≤ℤ◌}
use boot_backend_go_clean.Common.Text.{Text, text_eq}
use boot_backend_go_clean.GoMap.{
  IsMap, lookup-insert, insert-IsMap, lookup-delete_where, delete_where-IsMap,
}
use boot_backend_go_clean.Blacklist.{
  TokenBlacklist, new_token_blacklist, after, cleanup, add_token, is_live, is_token_blacklisted,
}

-- A change of the blacklist and its instant.
pub data Change : Type 0 where
  added : ℤ → Text → ℤ → Change
  cleaned : ℤ → Change

abbrev pub instant : Change → ℤ
instant (added now token duration) = now
instant (cleaned now) = now

unfoldable pub apply : Change → TokenBlacklist → TokenBlacklist
unfolding add_token cleanup
apply (added now token duration) b = add_token now token duration b
apply (cleaned now) b = cleanup now b

-- The blacklist after a history, the newest change first.
unfoldable pub replay : List Change → TokenBlacklist
unfolding apply new_token_blacklist
replay [] = new_token_blacklist
replay (c ∷ history) = apply c (replay history)

-- The expiration that the newest AddToken of the token has set.
unfoldable pub last_expiration : Text → List Change → Option ℤ
unfolding text_eq ◌+ℤ◌
last_expiration token [] = none
last_expiration token (added now t duration ∷ history) =
    if text_eq t token then some (now +ℤ duration) else last_expiration token history
last_expiration token (cleaned now ∷ history) = last_expiration token history

-- The changes have happened in their order, and none later than `now`.
abbrev pub IsOrdered : ℤ → List Change → Type 0
IsOrdered now [] = Unit
IsOrdered now (c ∷ history) = (instant c ≤ℤ now) × IsOrdered (instant c) history

replay-IsMap : (history : List Change) → IsMap (replay history).blacklist
unfolding replay apply
replay-IsMap [] = unfold new_token_blacklist in tt
replay-IsMap (added now token duration ∷ history) =
    unfold add_token in insert-IsMap token (now +ℤ duration) _ (replay-IsMap history)
replay-IsMap (cleaned now ∷ history) =
    unfold cleanup in
    delete_where-IsMap (λ (x : ℤ). after now x) (replay history).blacklist _ (replay-IsMap history)

is_live-later :
    (t now : ℤ) (o : Option ℤ)
    → t ≤ℤ now
    → is_live now (if is_live t o then o else none) ≡ is_live now o
is_live-later t now none h = refl
is_live-later t now (some x) h = ground arith

-- A cleanup changes no answer, then or later.
pub cleanup_invisible :
    (t now : ℤ) (token : Text) (b : TokenBlacklist)
    → IsMap b.blacklist
    → t ≤ℤ now
    → is_token_blacklisted now token (cleanup t b) ≡ is_token_blacklisted now token b
unfolding is_token_blacklisted cleanup
cleanup_invisible t now token b h le =
    ground (arith, lookup-delete_where (λ (x : ℤ). after t x) token b.blacklist b.blacklist h)

pub is_token_blacklisted-add_token :
    (t now d : ℤ) (k token : Text) (b : TokenBlacklist)
    → is_token_blacklisted now token (add_token t k d b)
      ≡ (if text_eq k token then is_live now (some (t +ℤ d)) else is_token_blacklisted now token b)
unfolding is_token_blacklisted add_token
is_token_blacklisted-add_token t now d k token b =
    ground (arith, lookup-insert k token (t +ℤ d) b.blacklist)

IsOrdered-mono :
    (t now : ℤ) (history : List Change) → t ≤ℤ now → IsOrdered t history → IsOrdered now history
IsOrdered-mono t now [] le h = tt
IsOrdered-mono t now (c ∷ history) le h = (omega (arith, h.0), h.1)

-- After any history of additions and cleanups, in the order of their instants, a token is refused
-- at an instant `now` no earlier than the last of them exactly when the newest addition of that
-- token set an expiration that is not before `now`. So no cleanup is ever seen.
pub replay-is_token_blacklisted :
    (history : List Change) (now : ℤ) (token : Text)
    → IsOrdered now history
    → is_token_blacklisted now token (replay history) ≡ is_live now (last_expiration token history)
unfolding replay last_expiration apply
replay-is_token_blacklisted [] now token h = unfold is_token_blacklisted new_token_blacklist in refl
replay-is_token_blacklisted (added t k d ∷ history) now token (le, h) = ground (
  arith,
  is_token_blacklisted-add_token t now d k token (replay history),
  replay-is_token_blacklisted history now token (IsOrdered-mono t now history le h),
)
replay-is_token_blacklisted (cleaned t ∷ history) now token (le, h) =
    cleanup_invisible t now token (replay history) (replay-IsMap history) le
    ∙ replay-is_token_blacklisted history now token (IsOrdered-mono t now history le h)
