-- ===== src/Infra.antt =====
-- internal/interfaces/http/controller/infra_controller.go: the probes. The database is a parameter.
pub mod Probe
use boot_backend_go_clean.Common.{
  ℕ, String, Bool, true, false, Option, none, some, List, [], ◌∷◌, if◌then◌else◌,
}
use boot_backend_go_clean.Common.Int.{ℤ, pos, ◌+ℤ◌, ◌*ℤ◌, ltb_ℤ}
use boot_backend_go_clean.Errors.{Error, error_text}
use boot_backend_go_clean.Entity.{zero_time, second}
use boot_backend_go_clean.Http.{Reply, Payload, health}
use boot_backend_go_clean.Response.{new_success_response}

pub record InfraController : Type 0 where
  -- config.Environment is "production"
  pub production : Bool
  pub last_check_time : ℤ
  pub cached_all_healthy : Bool
  -- the entries of checks["database"]
  pub cached_checks : List (String × String)
  pub cache_ttl : ℤ

-- NewInfraController
unfoldable pub new_infra_controller : Bool → InfraController
unfolding ◌*ℤ◌
new_infra_controller production = record {
  production = production;
  last_check_time = zero_time;
  cached_all_healthy = false;
  cached_checks = [];
  cache_ttl = pos 5 *ℤ second;
}

abbrev reply : ℕ → String → List (String × String) → Reply
reply code message entries = record {
  code = code;
  body = new_success_response message (some (health entries));
}

-- Welcome, Live, with the strings of pkg/version
unfoldable pub welcome : String → String → String → InfraController → Reply
unfolding new_success_response
welcome version git_commit build_time h = reply 200 "Boot Backend Go Clean is running" (
    ("version", version)
    ∷ (if h.production then [] else ("git_commit", git_commit) ∷ ("build_time", build_time) ∷ []))

unfoldable pub live : String → Reply
unfolding new_success_response
live version = reply 200 "alive" (("version", version) ∷ [])

-- The reply of Ready to a result of the checks.
abbrev pub report : Bool → List (String × String) → Reply
report healthy entries =
    if healthy then reply 200 "ready" entries else reply 503 "not ready" entries

-- time.Since(h.lastCheckTime) < h.cacheTTL
unfoldable pub is_cached : ℤ → InfraController → Bool
unfolding ◌+ℤ◌
is_cached now h = ltb_ℤ now (h.last_check_time +ℤ h.cache_ttl)

-- Ready under the read lock: none where it goes on to the write lock.
unfoldable pub peek : ℤ → InfraController → Option Reply
unfolding is_cached new_success_response
peek now h = if is_cached now h then some (report h.cached_all_healthy h.cached_checks) else none

abbrev pub format_err : Bool → Error → String
format_err production e = if production then "service unavailable" else error_text e

abbrev pub entries_of : Bool → Option Error → List (String × String)
entries_of production none = ("status", "up") ∷ []
entries_of production (some e) = ("status", "down") ∷ ("error", format_err production e) ∷ []

abbrev is_up : Option Error → Bool
is_up none = true
is_up (some e) = false

-- The cache after a check, and the reply.
abbrev checked : ℤ → InfraController → Option Error → Reply × InfraController
checked later h result =
    let entries = entries_of h.production result in
    (
      report (is_up result) entries,
      record h {
        cached_all_healthy = is_up result;
        cached_checks = entries;
        last_check_time = later;
      },
    )

module _ {S : Type 0} (ping : S → Option Error × S) where
  abbrev pub checked_with : ℤ → InfraController → Option Error × S → Reply × (InfraController × S)
  checked_with later h (result, s) = let (r, h') = checked later h result in (r, (h', s))

  -- Ready under the write lock, which it holds to the end: the clock reads `now` at the second test
  -- and `later` after the check; `ping` is h.db.DB().DB() and Ping.
  unfoldable pub refresh : ℤ → ℤ → InfraController × S → Reply × (InfraController × S)
  unfolding is_cached new_success_response
  refresh now later (h, s) =
      if is_cached now h
      then (report h.cached_all_healthy h.cached_checks, (h, s))
      else checked_with later h (ping s)
