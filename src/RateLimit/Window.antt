-- ===== src/RateLimit/Window.antt =====
-- What a client of the limiter in internal/interfaces/http/middleware/limit_middleware.go is let
-- through in one window, over any requests of all clients and runs of the cleanup.
use boot_backend_go_clean.Common.{
  ℕ, ◌+◌, ◌-◌, ◌≤◌, ◌<◌, ◌≡◌, refl, Bool, true, false, some, List, [], ◌∷◌, arith, if◌then◌else◌,
  leb,
}
use boot_backend_go_clean.Common.Int.{ℤ, ◌+ℤ◌}
use boot_backend_go_clean.Common.Text.{Text, text_eq, text_eq_iff, text_eq_refl}
use boot_backend_go_clean.Blacklist.{after}
use boot_backend_go_clean.GoMap.{lookup, lookup-insert, lookup-delete_where}
use boot_backend_go_clean.RateLimit.{
  RateLimiter, Decision, rejected, allowed, cleanup, is_over, admit,
}
use boot_backend_go_clean.RateLimit.Consistency.{
  IsConsistent, cleanup-IsConsistent, admit-IsConsistent, admit-limit,
}

-- A request with the two readings of the clock, or a run of the cleanup.
pub data Event : Type 0 where
  request : ℤ → ℤ → Text → Event
  sweep : ℤ → Event

abbrev pub happens : Event → RateLimiter → RateLimiter
happens (request now later ip) rl = (admit now later ip rl).1
happens (sweep now) rl = cleanup now rl

abbrev is_allowed : Decision → Bool
is_allowed rejected = false
is_allowed (allowed remaining reset) = true

-- 1 where the event is a request of the client, and where it is let through.
abbrev asks : Text → Event → ℕ
asks ip (request now later j) = if text_eq j ip then 1 else 0
asks ip (sweep now) = 0

abbrev passes : Text → Event → RateLimiter → ℕ
passes ip (request now later j) rl =
    if text_eq j ip then (if is_allowed (admit now later j rl).0 then 1 else 0) else 0
passes ip (sweep now) rl = 0

-- How many requests the client makes, and how many of them are let through.
unfoldable pub asked : Text → List Event → ℕ
asked ip [] = 0
asked ip (e ∷ events) = asks ip e + asked ip events

unfoldable pub passed : Text → List Event → RateLimiter → ℕ
passed ip [] rl = 0
passed ip (e ∷ events) rl = passes ip e rl + passed ip events (happens e rl)

-- The event reads no instant past the end of the window.
abbrev IsBefore : ℤ → Event → Type 0
IsBefore reset (request now later j) = after now reset ≡ false
IsBefore reset (sweep now) = after now reset ≡ false

unfoldable pub IsWithin : ℤ → List Event → Type 0
IsWithin reset [] = Unit
IsWithin reset (e ∷ events) = IsBefore reset e × IsWithin reset events

-- The client has a window that ends at `reset`, with `n` requests counted in it.
pub record IsCounted (ip : Text) (n : ℕ) (reset : ℤ) (rl : RateLimiter) : Type 0 where
  pub counted : lookup ip rl.requests ≡ some n
  pub window : lookup ip rl.reset_time ≡ some reset

happens-limit : (e : Event) (rl : RateLimiter) → (happens e rl).limit ≡ rl.limit
unfolding admit cleanup
happens-limit (request now later ip) rl = admit-limit now later ip rl
happens-limit (sweep now) rl = refl

happens-IsConsistent :
    (e : Event) (rl : RateLimiter) → 0 < rl.limit → IsConsistent rl → IsConsistent (happens e rl)
happens-IsConsistent (request now later ip) rl positive c =
    admit-IsConsistent now later ip rl positive c
happens-IsConsistent (sweep now) rl positive c = cleanup-IsConsistent now rl c

-- An event within the window moves the count by what it lets through, which is one where the client
-- asks and the limit is not reached.
happens-IsCounted :
    (ip : Text) (n : ℕ) (reset : ℤ) (e : Event) (rl : RateLimiter)
    → IsConsistent rl
    → IsBefore reset e
    → IsCounted ip n reset rl
    → IsCounted ip (n + passes ip e rl) reset (happens e rl)
unfolding admit cleanup
happens-IsCounted ip n reset (request now later j) rl c b k = record {
  counted = grind (arith, lookup-insert, text_eq_iff, b, k.counted, k.window);
  window = grind (arith, lookup-insert, text_eq_iff, b, k.counted, k.window);
}
happens-IsCounted ip n reset (sweep now) rl c b k = record {
  counted =
      rw
        (
          lookup-delete_where (λ (x : ℤ). after now x) ip rl.reset_time rl.requests c.reset_map,
          k.window,
          b,
        )
        (ground (arith, k.counted));
  window =
      rw
        (
          lookup-delete_where (λ (x : ℤ). after now x) ip rl.reset_time rl.reset_time c.reset_map,
          k.window,
          b,
        )
        refl;
}

passes_lem :
    (ip : Text) (n : ℕ) (reset : ℤ) (e : Event) (rl : RateLimiter)
    → IsBefore reset e
    → IsCounted ip n reset rl
    → passes ip e rl ≡ (if leb rl.limit n then 0 else asks ip e)
unfolding admit
passes_lem ip n reset (request now later j) rl b k =
    grind (arith, text_eq_iff, b, k.counted, k.window)
passes_lem ip n reset (sweep now) rl b k = ground arith

asks-le_one : (ip : Text) (e : Event) → asks ip e ≤ 1
asks-le_one ip (request now later j) = ground arith
asks-le_one ip (sweep now) = ground arith

abbrev pub smaller : ℕ → ℕ → ℕ
smaller a b = if leb a b then a else b

passed_within :
    (ip : Text) (n : ℕ) (reset : ℤ) (events : List Event) (rl : RateLimiter)
    → 0 < rl.limit
    → IsConsistent rl
    → IsWithin reset events
    → IsCounted ip n reset rl
    → passed ip events rl ≡ smaller (asked ip events) (rl.limit - n)
unfolding asked passed IsWithin
passed_within ip n reset [] rl positive c w k = ground arith
passed_within ip n reset (e ∷ events) rl positive c w k = ground (
  arith,
  passed_within ip (n + passes ip e rl) reset events (happens e rl)
      (rw (happens-limit e rl) positive) (happens-IsConsistent e rl positive c) w.1
      (happens-IsCounted ip n reset e rl c w.0 k),
  passes_lem ip n reset e rl w.0 k,
  happens-limit e rl,
  asks-le_one ip e,
)

-- A request with no window, or after its end, opens a window and is counted as the first of it.
opens :
    (ip : Text) (now later : ℤ) (rl : RateLimiter)
    → 0 < rl.limit
    → is_over now (lookup ip rl.reset_time) ≡ true
    → (passes ip (request now later ip) rl ≡ 1)
      × IsCounted ip 1 (later +ℤ rl.window_duration) (admit now later ip rl).1
unfolding admit
opens ip now later rl positive o = (
  grind (arith, text_eq_iff, o),
  record {
    counted = grind (arith, lookup-insert, text_eq_iff, o);
    window = grind (arith, lookup-insert, text_eq_iff, o);
  },
)

-- With a positive limit and maps that agree, a client whose window is over, or who has none, and
-- whose request opens a new one, is let through exactly as often as it asks up to the limit, over
-- any events that come before the new window ends: whatever other clients do, and whenever the
-- cleanup runs.
pub passed_lem :
    (ip : Text) (now later : ℤ) (events : List Event) (rl : RateLimiter)
    → 0 < rl.limit
    → IsConsistent rl
    → is_over now (lookup ip rl.reset_time) ≡ true
    → IsWithin (later +ℤ rl.window_duration) events
    → passed ip (request now later ip ∷ events) rl
      ≡ smaller (asked ip (request now later ip ∷ events)) rl.limit
unfolding asked passed
passed_lem ip now later events rl positive c o w = ground (
  arith,
  passed_within ip 1 (later +ℤ rl.window_duration) events (admit now later ip rl).1
      (rw (admit-limit now later ip rl) positive) (admit-IsConsistent now later ip rl positive c) w
      (opens ip now later rl positive o).1,
  (opens ip now later rl positive o).0,
  admit-limit now later ip rl,
  text_eq_refl ip,
)
