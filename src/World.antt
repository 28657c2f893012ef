-- ===== src/World.antt =====
-- The state that the parts of one running server share: the clock, the blacklist that
-- internal/app/server/app.go creates, and the database `D`, which is not of this repository.
use boot_backend_go_clean.Common.{ℕ, suc, ◌≤◌}
use boot_backend_go_clean.Common.Int.{ℤ, ◌≤ℤ◌}
use boot_backend_go_clean.Effect.{ok, Action}
use boot_backend_go_clean.Blacklist.{TokenBlacklist}

-- The clock: the instant of each reading, and how many readings have been made. A request may be
-- served at any later reading.
pub record Clock : Type 0 where
  pub at : ℕ → ℤ
  pub reads : ℕ

pub record World (D : Type 0) : Type 0 where
  pub clock : Clock
  pub blacklist : TokenBlacklist
  pub db : D

-- The clock does not run backwards.
abbrev pub IsMonotone : Clock → Type 0
IsMonotone c = (i j : ℕ) → i ≤ j → c.at i ≤ℤ c.at j

-- The instant that the next reading gives.
abbrev pub present : {D : Type 0} → World D → ℤ
present w = w.clock.at w.clock.reads

abbrev pub tick : {D : Type 0} → World D → World D
tick w = record w { clock = record { at = w.clock.at; reads = suc w.clock.reads } }

-- time.Now()
abbrev pub time_now : {D : Type 0} → Action (World D) ℤ
time_now w = (ok (present w), tick w)
