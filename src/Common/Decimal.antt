-- ===== src/Common/Decimal.antt =====
-- The verb %d of fmt.Sprintf, for an int of 64 bits.
use Prim.Native.Nat.{ℕ, zero, suc, ◌+◌, ◌/◌, ◌%◌}
use mathlib.Core.List.{[], ◌∷◌}
use boot_backend_go_clean.Common.Tests.{◌==◌, if◌then◌else◌}
use boot_backend_go_clean.Common.Int.{ℤ, pos, negsuc}
use boot_backend_go_clean.Common.Text.{Text}

-- The decimal digits of a number before those of `s`, at most as many as the fuel.
unfoldable pub digits_before : ℕ → ℕ → Text → Text
digits_before zero n s = s
digits_before (suc fuel) n s =
    let s' = (n % 10 + b'0') ∷ s in
    let rest = digits_before fuel (n / 10) s' in if n / 10 == 0 then s' else rest

-- A number below 2 ^ 64 has at most twenty digits.
unfoldable pub sprint_int : ℤ → Text
unfolding digits_before
sprint_int (pos n) = digits_before 20 n []
sprint_int (negsuc n) = b'-' ∷ digits_before 20 (suc n) []
