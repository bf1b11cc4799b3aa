-- ===== src/Domain/Increment/Expected.antt =====
-- The two price tests together: what a bid made on an older view of the price may cost.
use aieas_backend.Prelude.{
  ℕ, ◌+◌, ◌*◌, ◌≤◌, ◌<◌, pos, none, ◌≡◌, arith, two_63, add64, mul64, add64_pos, mul64_pos, ◌↔◌,
  dec_lt, sym, ap, ◌∙◌, pos_part,
}
use aieas_backend.Domain.Increment.{
  IncrementRule, validate_bid_expected_current_price, validate_bid_price, amount_for_price,
}
use aieas_backend.Domain.Increment.Price.{acceptable_bounds, validate_bid_price_iff}

-- With a positive limit n of steps and a positive amount a at the expected price, and no wrap, the
-- test of the expected price passes exactly when the expected price is not ahead of the current one
-- and, if it lags behind, the bid stays within the reach of the expected price and the cap.
pub validate_bid_expected_current_price_iff :
    (expected current cap price n a : ℕ) (rule : IncrementRule)
    → expected + a * n < two_63
    → 0 < a
    → 0 < n
    → rule.max_bid_steps ≡ pos n
    → amount_for_price rule (pos expected) ≡ pos a
    → (validate_bid_expected_current_price (pos expected) (pos current) (pos cap) (pos price) rule
        ≡ none)
      ↔ ((expected ≤ current)
          × (expected < current → (price ≤ expected + a * n) × (0 < cap → price ≤ cap)))
unfolding validate_bid_expected_current_price
validate_bid_expected_current_price_iff expected current cap price n a rule room gain some_steps en
      ea =
    let reach : add64 (pos expected) (mul64 (pos a) (pos n)) ≡ pos (expected + a * n) =
      rw (mul64_pos a n (omega arith)) (add64_pos expected (a * n) room) in
    rw (ea, en, reach)
      (λ h. (ground arith, λ l. (ground arith, λ c. ground arith)), λ h. ground (arith))

-- A bid that passes both tests, on an expected price at which the amount is e and at a current
-- price at which it is a, costs at most n steps more than the price that the bidder saw: also when
-- the current price has moved on in between.
pub accepted-le-expected :
    (start expected current cap price n e a : ℕ) (rule : IncrementRule)
    → expected + e * n < two_63
    → current + a * n < two_63
    → price < two_63
    → 0 < e
    → 0 < a
    → 0 < n
    → rule.max_bid_steps ≡ pos n
    → amount_for_price rule (pos expected) ≡ pos e
    → amount_for_price rule (pos current) ≡ pos a
    → validate_bid_expected_current_price (pos expected) (pos current) (pos cap) (pos price) rule
      ≡ none
    → validate_bid_price (pos start) (pos current) (pos cap) (pos price) rule ≡ none
    → (current < price) × (price ≤ expected + e * n)
accepted-le-expected start expected current cap price n e a rule re ra fits ge ga some_steps en ee
      ea he ha =
    let (first, late) =
      (validate_bid_expected_current_price_iff expected current cap price n e rule re ge some_steps
          en ee).0
        he in
    let (up, far) = acceptable_bounds start current cap price n a ga (
      (validate_bid_price_iff start current cap price n a rule ra fits ga some_steps en ea).0 ha) in
    elim (dec_lt expected current) [
      | yes lags ↦ (up, (late lags).0)
      | no level ↦
          let same : expected ≡ current = omega arith in
          let amounts : pos e ≡ pos a =
            sym ee ∙ ap (λ t. amount_for_price rule (pos t)) same ∙ ea in
          let values : e ≡ a = ap pos_part amounts in (up, rw (same, values) far)
    ]
