-- ===== src/Blacklist.antt =====
-- internal/infrastructure/auth/blacklist.go: revoked tokens with the instant up to which they are
-- refused. The mutex makes each operation a step of its own, so an operation is a function of the
-- state; each takes the instant that `time.Now` returns in it.
pub mod History
pub mod Unordered
use boot_backend_go_clean.Common.{Bool, true, false, not, Option, none, some, []}
use boot_backend_go_clean.Common.Int.{ℤ, ◌+ℤ◌, ltb_ℤ}
use boot_backend_go_clean.Common.Text.{Text}
use boot_backend_go_clean.GoMap.{GoMap, lookup, insert, delete_where}

pub record TokenBlacklist : Type 0 where
  pub blacklist : GoMap ℤ

-- NewTokenBlacklist
unfoldable pub new_token_blacklist : TokenBlacklist
new_token_blacklist = record { blacklist = [] }

-- now.After(t)
abbrev pub after : ℤ → ℤ → Bool
after now t = ltb_ℤ t now

-- One tick of startCleanupRoutine, which comes across the entries in this order.
unfoldable pub cleanup_in : GoMap ℤ → ℤ → TokenBlacklist → TokenBlacklist
unfolding delete_where
cleanup_in order now b = record {
  blacklist = delete_where (λ expiration. after now expiration) order b.blacklist;
}

-- In the order of the list.
unfoldable pub cleanup : ℤ → TokenBlacklist → TokenBlacklist
unfolding cleanup_in
cleanup now b = cleanup_in b.blacklist now b

-- AddToken
unfoldable pub add_token : ℤ → Text → ℤ → TokenBlacklist → TokenBlacklist
unfolding insert ◌+ℤ◌
add_token now token duration b = record { blacklist = insert token (now +ℤ duration) b.blacklist }

-- what IsTokenBlacklisted makes of `expiration, exists := b.blacklist[token]`
abbrev pub is_live : ℤ → Option ℤ → Bool
is_live now none = false
is_live now (some expiration) = not (after now expiration)

-- IsTokenBlacklisted
unfoldable pub is_token_blacklisted : ℤ → Text → TokenBlacklist → Bool
unfolding lookup
is_token_blacklisted now token b = is_live now (lookup token b.blacklist)
