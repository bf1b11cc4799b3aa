-- ===== src/Ids/Waiting.antt =====
-- The loop of waitUntil ends.
use aieas_backend.Prelude.{
  ℕ, zero, suc, ◌+◌, ◌<◌, ℤ, ◌≤ℤ◌, false, ltb_ℤ, some, ◌≡◌, inl, inr, refl, arith, Bool-cases,
}
use aieas_backend.Ids.Snowflake.{wait_until}

due_test : (a b : ℤ) → a ≤ℤ b → ltb_ℤ b a ≡ false
due_test a b h = ground arith

ap_clock :
    (clock : ℕ → ℤ) (n k : ℕ) (target : ℤ)
    → target ≤ℤ clock (suc n + k)
    → target ≤ℤ clock (n + suc k)
ap_clock clock n k target h = let q : suc n + k ≡ n + suc k = omega arith in rw q at h

-- If the clock reaches the target at the n-th reading from now on, waitUntil returns after no more
-- than n + 1 readings, and the second that it returns is not before the target.
pub wait_until_ends :
    (clock : ℕ → ℤ) (fuel n k : ℕ) (target : ℤ)
    → n < fuel
    → target ≤ℤ clock (n + k)
    → (second : ℤ) × (k' : ℕ) × (wait_until clock fuel k target ≡ some (second, k'))
      × (target ≤ℤ second)
      × (k' < suc (suc (n + k)))
unfolding wait_until
wait_until_ends clock zero n k target less h = absurd (omega (arith, less))
wait_until_ends clock (suc fuel) zero k target less h =
    let q : 0 + k ≡ k = omega arith in
    let now : target ≤ℤ clock k = rw q at h in
    (clock k, suc k, rw (due_test target (clock k) now, wait_until) refl, now, omega arith)
wait_until_ends clock (suc fuel) (suc n) k target less h =
    elim (Bool-cases (ltb_ℤ (clock k) target)) [
      | inr due ↦ (clock k, suc k, rw (due, wait_until) refl, ground arith, omega arith)
      | inl early ↦
          let there : target ≤ℤ clock (n + suc k) = ap_clock clock n k target h in
          let (s, k', q, l, m) =
            wait_until_ends clock fuel n (suc k) target (omega (arith, less)) there in
          (s, k', rw (early, wait_until) q, l, omega (arith, m))
    ]
