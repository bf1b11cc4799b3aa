-- ===== src/Ids/Bits.antt =====
-- The bitwise or of the words from which an identifier is put together.
use aieas_backend.Prelude.{ℕ, zero, suc, ◌+◌, ◌*◌, ◌/◌, ◌%◌, ◌<◌, max, ◌≡◌, ◌∙◌, arith}

-- `a | b` on the low `w` bits.
unfoldable pub bit_or : ℕ → ℕ → ℕ → ℕ
bit_or zero a b = 0
bit_or (suc w) a b = max (a % 2) (b % 2) + 2 * bit_or w (a / 2) (b / 2)

-- 2 ^ k
abbrev pub power : ℕ → ℕ
power zero = 1
power (suc k) = 2 * power k

bit_or_zero : (w a : ℕ) → a < power w → bit_or w a 0 ≡ a
unfolding bit_or
bit_or_zero zero a h = omega (arith, h)
bit_or_zero (suc w) a h = omega (arith, bit_or_zero w (a / 2) (omega (arith, h)))

double : (x m : ℕ) → x * (2 * m) ≡ 2 * (x * m)
double zero m = omega arith
double (suc x) m = omega (arith, double x m)

half : (n : ℕ) → 2 * n / 2 ≡ n
half n = omega arith

even : (n : ℕ) → 2 * n % 2 ≡ 0
even n = omega arith

-- A word above bit k and one below it share no bit, so that their or is their sum.
pub bit_or_disjoint :
    (w k x b : ℕ)
    → b < power k
    → x * power k + b < power w
    → bit_or w (x * power k) b ≡ x * power k + b
unfolding bit_or
bit_or_disjoint w zero x b low fits =
    let e : b ≡ 0 = omega (arith, low) in
    let m : x * 1 ≡ x = omega arith in
    rw (e, m) (bit_or_zero w x (omega (arith, fits, m)) ∙ omega arith)
bit_or_disjoint zero (suc k) x b low fits = omega (arith, fits)
bit_or_disjoint (suc w) (suc k) x b low fits =
    let rest =
      bit_or_disjoint w k x (b / 2) (omega (arith, low))
        (omega (arith, fits, double x (power k))) in
    rw (double x (power k), half (x * power k), even (x * power k), rest) (omega arith)
