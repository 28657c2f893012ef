-- ===== src/Infra/Probe.antt =====
-- The cache of the readiness probe in internal/interfaces/http/controller/infra_controller.go.
use boot_backend_go_clean.Common.{
  ◌≡◌, refl, ap, true, false, Option, none, some, List, [], ◌∷◌, arith,
}
use boot_backend_go_clean.Common.Int.{ℤ, ◌+ℤ◌, ltb_ℤ}
use boot_backend_go_clean.Errors.{Error}
use boot_backend_go_clean.Http.{Reply}
use boot_backend_go_clean.Infra.{InfraController, is_cached, peek, refresh, checked_with}

module _ {S : Type 0} (ping : S → Option Error × S) where
  -- The probes that reach the write lock one after the other, each with its two readings.
  unfoldable pub probes : List (ℤ × ℤ) → InfraController × S → InfraController × S
  probes [] w = w
  probes ((now, later) ∷ rest) w = probes rest (refresh ping now later w).1

  unfoldable pub AllBefore : ℤ → List (ℤ × ℤ) → Type 0
  AllBefore end [] = Unit
  AllBefore end ((now, later) ∷ rest) = (ltb_ℤ now end ≡ true) × AllBefore end rest

  probes_cached :
      (rest : List (ℤ × ℤ)) (h : InfraController) (s : S)
      → AllBefore (h.last_check_time +ℤ h.cache_ttl) rest
      → probes rest (h, s) ≡ (h, s)
  unfolding probes AllBefore refresh
  probes_cached [] h s before = refl
  probes_cached ((now, later) ∷ rest) h s before =
      ground (arith, before.0, probes_cached rest h s before.1)

  probes-checked_with :
      (later : ℤ) (rest : List (ℤ × ℤ)) (h : InfraController) (t : ℤ) (r : Option Error × S)
      → AllBefore (later +ℤ h.cache_ttl) rest
      → ltb_ℤ t (later +ℤ h.cache_ttl) ≡ true
      → ((probes rest (checked_with ping later h r).1).1 ≡ r.1)
        × (peek t (probes rest (checked_with ping later h r).1).0
            ≡ some (checked_with ping later h r).0)
  unfolding peek is_cached
  probes-checked_with later rest h t (none, s') before soon =
      (rw (probes_cached rest _ s' before) refl, rw (probes_cached rest _ s' before, soon) refl)
  probes-checked_with later rest h t (some e, s') before soon =
      (rw (probes_cached rest _ s' before) refl, rw (probes_cached rest _ s' before, soon) refl)

  refresh-stale :
      (now later : ℤ) (h : InfraController) (s : S)
      → is_cached now h ≡ false
      → refresh ping now later (h, s) ≡ checked_with ping later h (ping s)
  unfolding refresh
  refresh-stale now later h s stale = rw (stale) refl

  probes-stale :
      (now later : ℤ) (rest : List (ℤ × ℤ)) (h : InfraController) (s : S)
      → is_cached now h ≡ false
      → probes ((now, later) ∷ rest) (h, s) ≡ probes rest (checked_with ping later h (ping s)).1
  unfolding probes
  probes-stale now later rest h s stale =
      ap (λ (r : Reply × (InfraController × S)). probes rest r.1)
        (refresh-stale now later h s stale)

  -- After a probe with a stale cache has checked the database at the instant `later`, no probe
  -- that comes before the cache expires reaches the database: it is as that check left it, and a
  -- reader is told what the check found.
  pub probes_lem :
      (now later : ℤ) (rest : List (ℤ × ℤ)) (h : InfraController) (s : S) (t : ℤ)
      → is_cached now h ≡ false
      → AllBefore (later +ℤ h.cache_ttl) rest
      → ltb_ℤ t (later +ℤ h.cache_ttl) ≡ true
      → ((probes ((now, later) ∷ rest) (h, s)).1 ≡ (ping s).1)
        × (peek t (probes ((now, later) ∷ rest) (h, s)).0 ≡ some (refresh ping now later (h, s)).0)
  probes_lem now later rest h s t stale before soon =
      rw (probes-stale now later rest h s stale, refresh-stale now later h s stale)
        (probes-checked_with later rest h t (ping s) before soon)
