-- ===== src/Domain/Increment/Bounds.antt =====
-- What an accepted price satisfies whatever the signs of the prices are.
use aieas_backend.Prelude.{
  ℤ, pos, none, ◌≡◌, arith, ◌≤ℤ◌, ◌<ℤ◌, ◌+ℤ◌, add64_exact, +ℤ_parts, IsInt64,
}
use aieas_backend.Domain.Increment.{
  IncrementRule, amount_for_price, validate_bid_price, validate_bid_amount,
}

amount_bounds :
    (start current cap_price price steps amount : ℤ)
    → validate_bid_amount start current cap_price price steps amount ≡ none
    → IsInt64 (current +ℤ amount)
    → (start <ℤ price) × (current <ℤ price) × (pos 0 <ℤ cap_price → price ≤ℤ cap_price)
unfolding validate_bid_amount
amount_bounds start current cap_price price steps amount h room = (
  ground arith,
  ground (arith, add64_exact current amount room, +ℤ_parts current amount),
  λ c. ground arith,
)

-- An accepted price exceeds the start price and the current price, and no cap, provided that the
-- current price and its step have a sum below 2 ^ 63.
pub validate_bid_price_bounds :
    (start current cap_price price : ℤ) (rule : IncrementRule)
    → validate_bid_price start current cap_price price rule ≡ none
    → IsInt64 (current +ℤ amount_for_price rule current)
    → (start <ℤ price) × (current <ℤ price) × (pos 0 <ℤ cap_price → price ≤ℤ cap_price)
unfolding validate_bid_price
validate_bid_price_bounds start current cap_price price rule h room =
    amount_bounds start current cap_price price rule.max_bid_steps (amount_for_price rule current)
      (ground arith) room
