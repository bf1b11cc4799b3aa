-- ===== src/Domain/Increment/Price.antt =====
-- ValidateBidPrice accepts exactly the prices of an independent description. The hypotheses on the
-- ranges exclude a wrap of the int64 sums.
use native.Mathlib.Nat.{
  div-add-mod', add-sub_cancel_left, mul-le-mul_right, le_of_mul-le-mul_right, mul-mod_left,
}
use aieas_backend.Prelude.{
  Bool-cases, ℕ, ◌+◌, ◌-◌, ◌*◌, ◌/◌, ◌%◌, ◌≤◌, ◌<◌, pos, negsuc, none, ◌≡◌, ◌≢◌, ◌⊎◌, inl, inr, ◌↔◌,
  arith, two_63, add64, sub64, mul64, rem64, add64_pos, mul64_pos, wrap64, ◌-ℤ◌, ltb, ◌==◌, ◌&&◌,
}
use aieas_backend.Domain.Increment.{
  IncrementRule, validate_bid_amount, validate_bid_price, amount_for_price,
}

pub sub64_pos :
    (a b : ℕ)
    → a < two_63
    → b < two_63
    → ((b ≤ a) × (sub64 (pos a) (pos b) ≡ pos (a - b)))
      ⊎ ((a < b) × (sub64 (pos a) (pos b) ≡ negsuc (b - a - 1)))
unfolding sub64 wrap64 ◌-ℤ◌
sub64_pos a b ha hb = ground arith

-- A bid of k steps, 1 ≤ k ≤ n, or the cap itself within the reach of n steps.
abbrev pub IsAcceptable : ℕ → ℕ → ℕ → ℕ → ℕ → ℕ → Type 0
IsAcceptable start current cap price n a =
    (start < price)
    × (0 < cap → price ≤ cap)
    × (((0 < cap) × (price ≡ cap) × (current < price) × (price ≤ current + a * n))
        ⊎ ((k : ℕ) × (1 ≤ k) × (k ≤ n) × (price ≡ current + k * a)))

module _ (start current cap price n a : ℕ) (room : current + a * n < two_63) (fits : price < two_63)
    (gain : 0 < a) (some_steps : 0 < n) where
  step_le : a ≤ a * n
  step_le = grind arith

  reach : add64 (pos current) (mul64 (pos a) (pos n)) ≡ pos (current + a * n)
  reach = rw (mul64_pos a n (omega arith)) (add64_pos current (a * n) room)

  least : add64 (pos current) (pos a) ≡ pos (current + a)
  least = add64_pos current a (omega (arith, step_le))

  abbrev Accepts : Type 0
  Accepts =
      validate_bid_amount (pos start) (pos current) (pos cap) (pos price) (pos n) (pos a) ≡ none

  steps_accepted :
      Accepts
      → (0 < cap → price ≢ cap)
      → (start < price)
        × (0 < cap → price ≤ cap)
        × (current + a ≤ price)
        × ((price - current) % a ≡ 0)
        × (price ≤ current + a * n)
  unfolding validate_bid_amount rem64
  steps_accepted h c = ground (arith, reach, least, sub64_pos price current fits (omega arith))

  cap_accepted :
      Accepts
      → 0 < cap
      → price ≡ cap
      → (start < price) × (current < price) × (price ≤ current + a * n)
  unfolding validate_bid_amount
  cap_accepted h c e = ground (arith, reach)

  to_acceptable : Accepts → IsAcceptable start current cap price n a
  to_acceptable h = elim (Bool-cases (ltb 0 cap && price == cap)) [
    | inl c ↦
        let (s, g, r) = cap_accepted h (ground arith) (ground arith) in
        (s, λ _. ground arith, inl (ground arith, ground arith, g, r))
    | inr c ↦
        let (s, below, up, even, r) = steps_accepted h (λ p e. absurd (ground arith)) in
        let parts = div-add-mod' (price - current) a in
        let k_a : (price - current) / a * a ≡ price - current = omega arith in
        (
          s,
          below,
          inr (
            (price - current) / a,
            le_of_mul-le-mul_right {m = 1} (omega arith) gain,
            le_of_mul-le-mul_right {k = a} (omega arith) gain,
            omega arith,
          ),
        )
  ]

  from_cap :
      start < price → 0 < cap → price ≡ cap → current < price → price ≤ current + a * n → Accepts
  unfolding validate_bid_amount
  from_cap s c e g r = ground (arith, reach)

  from_steps :
      (k : ℕ)
      → start < price
      → (0 < cap → price ≤ cap)
      → 1 ≤ k
      → k ≤ n
      → price ≡ current + k * a
      → Accepts
  unfolding validate_bid_amount rem64
  from_steps k s below one most e =
      let up : a ≤ k * a = omega (arith, mul-le-mul_right {m = 1} {n = k} a one) in
      let far : k * a ≤ n * a = mul-le-mul_right a most in
      let even : (price - current) % a ≡ 0 = rw (e, add-sub_cancel_left) (mul-mod_left k a) in
      ground (arith, reach, least, sub64_pos price current fits (omega arith))

  from_acceptable : IsAcceptable start current cap price n a → Accepts
  from_acceptable (s, below, c) = elim c [
    | inl (p, e, g, r) ↦ from_cap s p e g r
    | inr (k, one, most, e) ↦ from_steps k s below one most e
  ]

price_by_amount :
    (start current cap price n a : ℕ) (rule : IncrementRule)
    → 0 < n
    → rule.max_bid_steps ≡ pos n
    → amount_for_price rule (pos current) ≡ pos a
    → validate_bid_price (pos start) (pos current) (pos cap) (pos price) rule
      ≡ validate_bid_amount (pos start) (pos current) (pos cap) (pos price) (pos n) (pos a)
unfolding validate_bid_price
price_by_amount start current cap price n a rule h en ea = rw (ea, en) (ground arith)

-- For a rule with a positive limit n of steps and a positive amount a at the current price, with
-- all prices non-negative and the reach `current + a * n` and the price below 2 ^ 63, the function
-- accepts a price exactly when it exceeds the start price, does not exceed a cap, and is either the
-- current price plus k steps with 1 ≤ k ≤ n, or the cap itself above the current price and within
-- the reach.
pub validate_bid_price_iff :
    (start current cap price n a : ℕ) (rule : IncrementRule)
    → current + a * n < two_63
    → price < two_63
    → 0 < a
    → 0 < n
    → rule.max_bid_steps ≡ pos n
    → amount_for_price rule (pos current) ≡ pos a
    → (validate_bid_price (pos start) (pos current) (pos cap) (pos price) rule ≡ none)
      ↔ IsAcceptable start current cap price n a
validate_bid_price_iff start current cap price n a rule room fits gain some_steps en ea =
    rw (price_by_amount start current cap price n a rule some_steps en ea) (
      to_acceptable start current cap price n a room fits gain some_steps,
      from_acceptable start current cap price n a room fits gain some_steps,
    )

pub acceptable_bounds :
    (start current cap price n a : ℕ)
    → 0 < a
    → IsAcceptable start current cap price n a
    → (current < price) × (price ≤ current + a * n)
acceptable_bounds start current cap price n a gain (s, below, inl (c, e, g, r)) = (g, r)
acceptable_bounds start current cap price n a gain (s, below, inr (k, one, most, e)) =
    let up : a ≤ k * a = omega (arith, mul-le-mul_right {m = 1} {n = k} a one) in
    let far : k * a ≤ n * a = mul-le-mul_right a most in (omega arith, omega arith)
