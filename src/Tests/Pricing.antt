-- ===== src/Tests/Pricing.antt =====
-- The pricing rules at concrete prices.
use mathlib.Core.List.{Memᴰ}
use aieas_backend.Prelude.{
  ◌≤◌, ◌<◌, ◌+◌, ◌*◌, pos, none, some, [], ◌∷◌, ◌≡◌, refl, ◌↔◌, arith, ◌<ℤ◌, ◌≤ℤ◌, trim_space,
  to_upper, lower_is, rem64, sub64, add64, mul64, wrap64, ◌-ℤ◌, ◌+ℤ◌, ◌*ℤ◌,
}
use aieas_backend.Domain.Error.{ok}
use aieas_backend.Domain.Auction.{
  running, closed_won, settled, extend_reset, other_mode, can_transition_auction,
  normalize_auction_extend_mode, validate_auction_anti_extend_config,
}
use aieas_backend.Domain.Auction.AntiExtend.{ReadsReset, validate_auction_anti_extend_config_iff}
use aieas_backend.Domain.Auction.Transitions.{History, here, next, stage-History}
use aieas_backend.Domain.Increment.{
  parse_increment_rule, amount_for_price, amount_in, steps_fail, validate_auction_pricing,
  validate_bid_price, validate_bid_amount, validate_bid_expected_current_price, price_step_mismatch,
  above_max_bid_steps,
}
use aieas_backend.Domain.Increment.Ladder.{IsSound, amount_in-InBand, parse_increment_rule-IsSound}
use aieas_backend.Domain.Increment.Pricing.{amount_for_price_pos}
use aieas_backend.Domain.Increment.Price.{IsAcceptable, validate_bid_price_iff}
use aieas_backend.Domain.Increment.Expected.{accepted-le-expected}
use aieas_backend.Tests.Data.{low_band, high_band, bands, ladder_fields, ladder_rule, fixed_rule}

-- The cases of the Go test TestValidateBidPriceFixed.
two_steps : validate_bid_price (pos 1000) (pos 1200) (pos 2000) (pos 1400) fixed_rule ≡ none
unfolding validate_bid_price validate_bid_amount amount_for_price rem64 sub64 add64 mul64 wrap64
    ◌-ℤ◌ ◌+ℤ◌ ◌*ℤ◌
two_steps = refl

off_step :
    validate_bid_price (pos 1000) (pos 1000) (pos 2000) (pos 1150) fixed_rule
    ≡ some price_step_mismatch
unfolding validate_bid_price validate_bid_amount amount_for_price rem64 sub64 add64 mul64 wrap64
    ◌-ℤ◌ ◌+ℤ◌ ◌*ℤ◌
off_step = refl

unaligned_cap : validate_bid_price (pos 1000) (pos 1400) (pos 1450) (pos 1450) fixed_rule ≡ none
unfolding validate_bid_price validate_bid_amount amount_for_price rem64 sub64 add64 mul64 wrap64
    ◌-ℤ◌ ◌+ℤ◌ ◌*ℤ◌
unaligned_cap = refl

-- A rule whose reach leaves int64 is wrapped, and refuses even the least raise.
reach_overflow :
    validate_bid_price
      (pos 0)
      (pos 100)
      (pos 0)
      (pos 9000000000000000100)
      (record fixed_rule { amount = pos 9000000000000000000 })
    ≡ some above_max_bid_steps
unfolding validate_bid_price validate_bid_amount amount_for_price rem64 sub64 add64 mul64 wrap64
    ◌-ℤ◌ ◌+ℤ◌ ◌*ℤ◌
reach_overflow = refl

parsed : parse_increment_rule (some ladder_fields) ≡ ok ladder_rule
unfolding parse_increment_rule lower_is trim_space
parsed = refl

priced : validate_auction_pricing (pos 1000) (pos 1500) (pos 5000) (some ladder_fields) ≡ none
unfolding validate_auction_pricing parse_increment_rule lower_is trim_space
priced = refl

normal_reset : normalize_auction_extend_mode (other_mode " reset") ≡ extend_reset
unfolding normalize_auction_extend_mode trim_space
normal_reset = refl

unknown_mode : normalize_auction_extend_mode (other_mode " Later ") ≡ other_mode "LATER"
unfolding normalize_auction_extend_mode trim_space to_upper
unknown_mode = refl

amount_for_price_pos_example : pos 0 <ℤ amount_for_price ladder_rule (pos 4999)
amount_for_price_pos_example =
    amount_for_price_pos (pos 1000) (pos 1500) (pos 5000) (pos 4999) (some ladder_fields)
      ladder_rule priced parsed (omega arith) (λ c. omega arith)

parse_increment_rule-IsSound_example : IsSound ladder_rule
parse_increment_rule-IsSound_example =
    parse_increment_rule-IsSound (some ladder_fields) ladder_rule parsed

amount_in-InBand_example : amount_in bands (pos 2500) ≡ pos 100
unfolding amount_in steps_fail
amount_in-InBand_example =
    amount_in-InBand high_band low_band (high_band ∷ []) (pos 2500) refl
      (Memᴰ.tail (Memᴰ.head refl)) (omega arith, omega arith)

validate_bid_price_iff_example :
    (validate_bid_price (pos 1000) (pos 1200) (pos 2000) (pos 1400) fixed_rule ≡ none)
    ↔ IsAcceptable 1000 1200 2000 1400 3 100
unfolding amount_for_price
validate_bid_price_iff_example =
    validate_bid_price_iff 1000 1200 2000 1400 3 100 fixed_rule (omega arith) (omega arith)
      (omega arith) (omega arith) refl refl

accepted-le-expected_example : (1200 < 1400) × (1400 ≤ 1100 + 100 * 3)
unfolding amount_for_price validate_bid_expected_current_price add64 mul64 wrap64 ◌+ℤ◌ ◌*ℤ◌
accepted-le-expected_example =
    accepted-le-expected 1000 1100 1200 2000 1400 3 100 100 fixed_rule (omega arith) (omega arith)
      (omega arith) (omega arith) (omega arith) (omega arith) refl refl refl refl two_steps

sold : History running settled
unfolding can_transition_auction
sold = next {b = closed_won} (next {b = running} here refl) refl

stage-History_example : 1 ≤ 5
stage-History_example = stage-History sold

validate_auction_anti_extend_config_iff_example :
    (validate_auction_anti_extend_config (pos 30) (pos 30) (other_mode " reset") ≡ none) ↔ (
      (pos 0 <ℤ pos 30) × (pos 0 <ℤ pos 30) × (ReadsReset (other_mode " reset") → pos 30 ≤ℤ pos 30))
validate_auction_anti_extend_config_iff_example =
    validate_auction_anti_extend_config_iff (pos 30) (pos 30) (other_mode " reset")
