-- ===== src/RateLimit/Consistency.antt =====
-- The invariant of the limiter in internal/interfaces/http/middleware/limit_middleware.go.
use boot_backend_go_clean.Common.{ℕ, ◌≤◌, ◌<◌, ◌≡◌, refl, some, arith}
use boot_backend_go_clean.Common.Int.{ℤ}
use boot_backend_go_clean.Common.Text.{Text, text_eq_iff}
use boot_backend_go_clean.Blacklist.{after}
use boot_backend_go_clean.GoMap.{
  IsMap, lookup, lookup-insert, insert-IsMap, lookup-delete_where, delete_where-IsMap,
}
use boot_backend_go_clean.RateLimit.{RateLimiter, new_rate_limiter, cleanup, exists?, admit}

pub record IsConsistent (rl : RateLimiter) : Type 0 where
  pub requests_map : IsMap rl.requests
  pub reset_map : IsMap rl.reset_time
  -- A client has a count exactly where it has a window.
  pub paired : (ip : Text) → exists? (lookup ip rl.requests) ≡ exists? (lookup ip rl.reset_time)
  pub capped : (ip : Text) (n : ℕ) → lookup ip rl.requests ≡ some n → n ≤ rl.limit

pub new_rate_limiter-IsConsistent : (limit : ℕ) (d : ℤ) → IsConsistent (new_rate_limiter limit d)
unfolding new_rate_limiter lookup
new_rate_limiter-IsConsistent limit d = record {
  requests_map = tt;
  reset_map = tt;
  paired = λ ip. refl;
  capped = λ ip n h. cc;
}

-- The cleanup removes the count and the window of the same clients.
pub cleanup-IsConsistent :
    (now : ℤ) (rl : RateLimiter) → IsConsistent rl → IsConsistent (cleanup now rl)
unfolding cleanup
cleanup-IsConsistent now rl c = record {
  requests_map = delete_where-IsMap (λ (x : ℤ). after now x) rl.reset_time _ c.requests_map;
  reset_map = delete_where-IsMap (λ (x : ℤ). after now x) rl.reset_time _ c.reset_map;
  paired = λ ip.
      rw
        (
          lookup-delete_where (λ (x : ℤ). after now x) ip rl.reset_time rl.requests c.reset_map,
          lookup-delete_where (λ (x : ℤ). after now x) ip rl.reset_time rl.reset_time c.reset_map,
        )
        (ground (arith, c.paired ip));
  capped = λ ip n.
      rw (lookup-delete_where (λ (x : ℤ). after now x) ip rl.reset_time rl.requests c.reset_map)
        (λ h. ground (arith, c.capped ip n));
}

admit-requests-IsMap :
    (now later : ℤ) (ip : Text) (rl : RateLimiter)
    → IsMap rl.requests
    → IsMap (admit now later ip rl).1.requests
unfolding admit
admit-requests-IsMap now later ip rl m = grind (arith, insert-IsMap)

admit-reset-IsMap :
    (now later : ℤ) (ip : Text) (rl : RateLimiter)
    → IsMap rl.reset_time
    → IsMap (admit now later ip rl).1.reset_time
unfolding admit
admit-reset-IsMap now later ip rl m = grind (arith, insert-IsMap)

admit-paired :
    (now later : ℤ) (ip : Text) (rl : RateLimiter)
    → 0 < rl.limit
    → ((p : Text) → exists? (lookup p rl.requests) ≡ exists? (lookup p rl.reset_time))
    → (p : Text)
    → exists? (lookup p (admit now later ip rl).1.requests)
      ≡ exists? (lookup p (admit now later ip rl).1.reset_time)
unfolding admit
admit-paired now later ip rl positive h p = grind (arith, lookup-insert, text_eq_iff, h)

admit-capped :
    (now later : ℤ) (ip : Text) (rl : RateLimiter)
    → 0 < rl.limit
    → ((p : Text) (n : ℕ) → lookup p rl.requests ≡ some n → n ≤ rl.limit)
    → (p : Text) (n : ℕ) → lookup p (admit now later ip rl).1.requests ≡ some n
    → n ≤ rl.limit
unfolding admit
admit-capped now later ip rl positive h p n e = grind (arith, lookup-insert, text_eq_iff, h)

pub admit-limit :
    (now later : ℤ) (ip : Text) (rl : RateLimiter) → (admit now later ip rl).1.limit ≡ rl.limit
unfolding admit
admit-limit now later ip rl = ground arith

-- With a positive limit, a request keeps the two maps of the limiter in agreement: each has a
-- client at most once, a client has a count exactly where it has a window, and no count passes the
-- limit.
pub admit-IsConsistent :
    (now later : ℤ) (ip : Text) (rl : RateLimiter)
    → 0 < rl.limit
    → IsConsistent rl
    → IsConsistent (admit now later ip rl).1
unfolding admit
admit-IsConsistent now later ip rl positive c = record {
  requests_map = admit-requests-IsMap now later ip rl c.requests_map;
  reset_map = admit-reset-IsMap now later ip rl c.reset_map;
  paired = admit-paired now later ip rl positive c.paired;
  capped = λ p n e.
      rw (admit-limit now later ip rl) (admit-capped now later ip rl positive c.capped p n e);
}
