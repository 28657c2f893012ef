-- ===== src/Jwt/Float.antt =====
-- Numbers of a JSON document that Go's standard library decodes into an `interface{}`: each becomes
-- the nearest `float64`, which has 53 bits of precision, the even one of two that are as near.
use boot_backend_go_clean.Common.{
  ℕ, zero, suc, ◌+◌, ◌-◌, ◌*◌, ◌/◌, ◌%◌, ◌^◌, ◌≤◌, ◌<◌, ◌≡◌, ap, sym, ◌∙◌, ◌≢◌, true, false, arith,
  ltb, ◌==◌, if◌then◌else◌,
}
use boot_backend_go_clean.Common.Int.{ℤ, pos, negsuc, sub_ℕ}

-- The multiple of `q` that is nearest to `n`, the even multiple if two are.
abbrev nearest : ℕ → ℕ → ℕ
nearest q n =
    let r = n % q in
    if ltb (2 * r) q
    then n - r
    else if ltb q (2 * r)
    then n - r + q
    else if (n / q) % 2 == 0
    then n - r
    else n - r + q

-- With the spacing `q` of the floats between 2^52 * q and 2^53 * q.
float_from : ℕ → ℕ → ℕ → ℕ
float_from zero q n = n
float_from (suc fuel) q n =
    let rest = float_from fuel (2 * q) n in if ltb n (2 ^ 53 * q) then nearest q n else rest

-- `q` doubled `fuel` times.
abbrev reach : ℕ → ℕ → ℕ
reach zero q = q
reach (suc fuel) q = reach fuel (2 * q)

abbrev raise : ℕ → ℕ → ℕ
raise zero more = more
raise (suc fuel) more = suc (raise fuel more)

-- More fuel changes nothing of a number below 2^53 * reach fuel q.
float_from-enough :
    (fuel more q n : ℕ)
    → n < 2 ^ 53 * reach fuel q
    → float_from (suc (raise fuel more)) q n ≡ float_from (suc fuel) q n
unfolding float_from
float_from-enough zero more q n h = ground arith
float_from-enough (suc fuel) more q n h =
    ap (λ (rest : ℕ). if ltb n (2 ^ 53 * q) then nearest q n else rest)
      (float_from-enough fuel more (2 * q) n h)

-- The fuel of `to_float64` is enough for an int64: eleven doublings reach 2^64.
to_float64-enough :
    (more n : ℕ) → n < 2 ^ 64 → float_from (suc (raise 11 more)) 1 n ≡ float_from 12 1 n
to_float64-enough more n h = float_from-enough 11 more 1 n h

unfoldable pub to_float64 : ℤ → ℤ
unfolding float_from
to_float64 (pos n) = pos (float_from 12 1 n)
to_float64 (negsuc n) = sub_ℕ 0 (float_from 12 1 (suc n))

-- int64(x) of an integral `float64`. Out of range the language leaves the value to the
-- implementation; it is the least `int64` on amd64.
unfoldable pub int64_of_float64 : ℤ → ℤ
int64_of_float64 (pos n) = if ltb n (2 ^ 63) then pos n else negsuc (2 ^ 63 - 1)
int64_of_float64 (negsuc n) = if ltb n (2 ^ 63) then negsuc n else negsuc (2 ^ 63 - 1)

-- A number below 2^53 survives the passage through a `float64`.
pub float_exact : (n : ℕ) → n < 2 ^ 53 → int64_of_float64 (to_float64 (pos n)) ≡ pos n
unfolding to_float64 int64_of_float64
float_exact n h = ground arith

nearest-odd : (n : ℕ) → n % 2 ≡ 1 → nearest 2 n ≢ n
nearest-odd n odd e = ground arith

-- Between 2^53 and 2^54 the floats are the even numbers.
float_from-between :
    (fuel n : ℕ) → 2 ^ 53 < n → n < 2 ^ 54 → float_from (suc (suc fuel)) 1 n ≡ nearest 2 n
unfolding float_from
float_from-between fuel n h k = rw (geb (2 ^ 53) n (omega arith), ltb_of n (2 ^ 54) k)
  where
    geb : (a b : ℕ) → a ≤ b → ltb b a ≡ false
    geb a b le = ground arith

    ltb_of : (a b : ℕ) → a < b → ltb a b ≡ true
    ltb_of a b lt = ground arith

int64_of_float64-pos : (m n : ℕ) → int64_of_float64 (pos m) ≡ pos n → m ≡ n
unfolding int64_of_float64
int64_of_float64-pos m n e = ground arith

-- An odd number between 2^53 and 2^54 does not.
pub float_inexact :
    (n : ℕ) → 2 ^ 53 < n → n < 2 ^ 54 → n % 2 ≡ 1 → int64_of_float64 (to_float64 (pos n)) ≢ pos n
unfolding to_float64
float_inexact n h k odd e =
    nearest-odd n odd
      (sym (float_from-between 10 n h k) ∙ int64_of_float64-pos (float_from 12 1 n) n e)
