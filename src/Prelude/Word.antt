-- ===== src/Prelude/Word.antt =====
-- Go's int64 (and int, on the 64-bit targets): an integer whose arithmetic wraps modulo 2 ^ 64.
use Prim.Native.Nat.{ℕ, suc, ◌+◌, ◌-◌, ◌*◌, ◌≤◌, ◌<◌, ◌%◌}
use mathlib.Core.Path.{◌≡◌}
use native.Mathlib.Omega.{arith}
use aieas_backend.Prelude.Tests.{ltb, if◌then◌else◌}
use aieas_backend.Prelude.Int.{ℤ, pos, negsuc, pos_part, neg_part, ◌+ℤ◌, ◌-ℤ◌, ◌*ℤ◌}

-- 2 ^ 63 and 2 ^ 64.
abbrev pub two_63 : ℕ
two_63 = 9223372036854775808

abbrev pub two_64 : ℕ
two_64 = 18446744073709551616

-- The integer that a 64-bit pattern stands for.
abbrev pub signed : ℕ → ℤ
signed r = if ltb r two_63 then pos r else negsuc (two_64 - 1 - r)

unfoldable pub wrap64 : ℤ → ℤ
wrap64 (pos n) = signed (n % two_64)
wrap64 (negsuc n) = signed (two_64 - 1 - n % two_64)

-- The values that an int64 holds.
abbrev pub IsInt64 : ℤ → Type 0
IsInt64 a = (pos_part a < two_63) × (neg_part a ≤ two_63)

unfoldable pub add64 : ℤ → ℤ → ℤ
add64 a b = wrap64 (a +ℤ b)

unfoldable pub sub64 : ℤ → ℤ → ℤ
sub64 a b = wrap64 (a -ℤ b)

unfoldable pub mul64 : ℤ → ℤ → ℤ
mul64 a b = wrap64 (a *ℤ b)

-- Go's `%` takes the sign of the dividend; the callers have excluded a divisor of 0.
unfoldable pub rem64 : ℤ → ℤ → ℤ
rem64 (pos n) b = pos (n % (pos_part b + neg_part b))
rem64 (negsuc n) b = pos 0 -ℤ pos (suc n % (pos_part b + neg_part b))

pub wrap64-IsInt64 : (a : ℤ) → IsInt64 (wrap64 a)
unfolding wrap64
wrap64-IsInt64 (pos n) = ground arith
wrap64-IsInt64 (negsuc n) = ground arith

pub wrap64_self : (a : ℤ) → IsInt64 a → wrap64 a ≡ a
unfolding wrap64
wrap64_self (pos n) h = ground arith
wrap64_self (negsuc n) h = ground arith

-- Where the exact result is an int64, the operation gives it.
pub add64_exact : (a b : ℤ) → IsInt64 (a +ℤ b) → add64 a b ≡ a +ℤ b
unfolding add64
add64_exact a b h = wrap64_self (a +ℤ b) h

pub sub64_exact : (a b : ℤ) → IsInt64 (a -ℤ b) → sub64 a b ≡ a -ℤ b
unfolding sub64
sub64_exact a b h = wrap64_self (a -ℤ b) h

pub mul64_exact : (a b : ℤ) → IsInt64 (a *ℤ b) → mul64 a b ≡ a *ℤ b
unfolding mul64
mul64_exact a b h = wrap64_self (a *ℤ b) h

-- On non-negative values.
pub add64_pos : (a b : ℕ) → a + b < two_63 → add64 (pos a) (pos b) ≡ pos (a + b)
unfolding add64 wrap64 ◌+ℤ◌
add64_pos a b h = ground arith

pub mul64_pos : (a b : ℕ) → a * b < two_63 → mul64 (pos a) (pos b) ≡ pos (a * b)
unfolding mul64 wrap64 ◌*ℤ◌
mul64_pos a b h = ground arith
