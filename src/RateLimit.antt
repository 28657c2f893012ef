-- ===== src/RateLimit.antt =====
-- internal/interfaces/http/middleware/limit_middleware.go: a fixed window of requests for each
-- client. The mutex makes each call a step of its own; a step takes the instants that `time.Now`
-- returns in it. A limit and a count are natural numbers: route.go makes a limiter for a positive
-- limit only, and a count is never decreased.
pub mod Consistency
pub mod Window
use boot_backend_go_clean.Common.{
  ℕ, ◌+◌, ◌-◌, Bool, true, false, not, ◌&&◌, ◌||◌, Option, none, some, [], if◌then◌else◌, leb,
}
use boot_backend_go_clean.Common.Int.{ℤ, ◌+ℤ◌}
use boot_backend_go_clean.Common.Text.{Text}
use boot_backend_go_clean.Blacklist.{after}
use boot_backend_go_clean.GoMap.{GoMap, lookup, insert, delete_where}

pub record RateLimiter : Type 0 where
  pub limit : ℕ
  pub window_duration : ℤ
  pub requests : GoMap ℕ
  pub reset_time : GoMap ℤ

-- NewRateLimiter
unfoldable pub new_rate_limiter : ℕ → ℤ → RateLimiter
new_rate_limiter limit duration = record {
  limit = limit;
  window_duration = duration;
  requests = [];
  reset_time = [];
}

-- cleanup
unfoldable pub cleanup : ℤ → RateLimiter → RateLimiter
unfolding delete_where
cleanup now rl = record rl {
  requests = delete_where (λ expire_time. after now expire_time) rl.reset_time rl.requests;
  reset_time = delete_where (λ expire_time. after now expire_time) rl.reset_time rl.reset_time;
}

-- A request is refused, or let through with the values of the headers X-RateLimit-Remaining and
-- X-RateLimit-Reset.
pub data Decision : Type 0 where
  rejected : Decision
  allowed : ℕ → ℤ → Decision

abbrev pub count_or_zero : Option ℕ → ℕ
count_or_zero none = 0
count_or_zero (some n) = n

abbrev pub exists? {ℓ} : {A : Type ℓ} → Option A → Bool
exists? none = false
exists? (some a) = true

-- !resetExists || time.Now().After(resetTime)
abbrev pub is_over : ℤ → Option ℤ → Bool
is_over now none = true
is_over now (some reset) = after now reset

-- The tests on the count, with the maps as they are then.
abbrev pub decide : Text → Bool → ℕ → ℤ → RateLimiter → Decision × RateLimiter
decide client_ip found count reset rl = if found && leb rl.limit count then (rejected, rl) else (
  allowed (rl.limit - (count + 1)) reset,
  record rl {
    requests = insert client_ip (count_or_zero (lookup client_ip rl.requests) + 1) rl.requests;
  },
)

abbrev pub reset_or : ℤ → Option ℤ → ℤ
reset_or t none = t
reset_or t (some r) = r

-- LimitMiddleware, up to the reply: the clock reads `now` at the test of the window, and `later`
-- where a new window is set.
unfoldable pub admit : ℤ → ℤ → Text → RateLimiter → Decision × RateLimiter
admit now later client_ip rl =
    let count = lookup client_ip rl.requests in
    let reset = lookup client_ip rl.reset_time in
    if is_over now reset
    then decide client_ip (exists? count) 0 (later +ℤ rl.window_duration) (record rl {
      requests = insert client_ip 0 rl.requests;
      reset_time = insert client_ip (later +ℤ rl.window_duration) rl.reset_time;
    })
    else decide client_ip (exists? count) (count_or_zero count) (reset_or now reset) rl
