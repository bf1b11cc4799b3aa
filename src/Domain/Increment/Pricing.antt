-- ===== src/Domain/Increment/Pricing.antt =====
-- ValidateAuctionPricing gives every price at which the lot can stand a step.
use aieas_backend.Prelude.{
  ℤ, pos, true, false, List, [], ◌∷◌, Option, none, some, ◌≡◌, refl, ◌<◌, arith, ◌≤ℤ◌, ◌<ℤ◌,
  last_or, length,
}
use aieas_backend.Domain.Error.{ok}
use aieas_backend.Domain.Increment.{
  IncrementStep, IncrementRule, RawRule, RuleType, fixed, ladder, other_rule, steps_fail, amount_in,
  parse_increment_rule, amount_for_price, validate_auction_pricing, starts_at, ends_at,
}
use aieas_backend.Domain.Increment.Ladder.{
  BelowEnd, amount_in_pos, ladder_checked, IsSound, parse_increment_rule-IsSound,
}

last_end :
    (s : IncrementStep) (rest : List IncrementStep) (cap p : ℤ)
    → ends_at (s ∷ rest) cap ≡ true
    → (pos 0 <ℤ cap → p <ℤ cap)
    → BelowEnd p (last_or s rest).max
last_end s [] cap p e below = at_end s.max refl
  where
    at_end : (m : Option ℤ) → s.max ≡ m → BelowEnd p m
    at_end none q = tt
    at_end (some m) q = ground (arith)
last_end s (t ∷ rest) cap p e below = last_end t rest cap p e below

ladder_amount :
    (steps : List IncrementStep) (start cap p : ℤ)
    → 0 < length steps
    → steps_fail steps ≡ false
    → starts_at steps start ≡ true
    → ends_at steps cap ≡ true
    → start ≤ℤ p
    → (pos 0 <ℤ cap → p <ℤ cap)
    → pos 0 <ℤ amount_in steps p
ladder_amount [] start cap p n f s e h below = absurd (omega arith)
ladder_amount (x ∷ rest) start cap p n f s e h below =
    amount_in_pos x rest p f (ground arith) (last_end x rest cap p e below)

amount_by_type :
    (rule : IncrementRule) (t : RuleType) (start reserve cap p : ℤ) (raw : RawRule)
    → rule.rule_type ≡ t
    → validate_auction_pricing start reserve cap raw ≡ none
    → parse_increment_rule raw ≡ ok rule
    → start ≤ℤ p
    → (pos 0 <ℤ cap → p <ℤ cap)
    → IsSound rule
    → pos 0 <ℤ amount_for_price rule p
unfolding amount_for_price
amount_by_type rule fixed start reserve cap p raw q v r h below sound = rw q (sound.fixed_amount q)
amount_by_type rule ladder start reserve cap p raw q v r h below sound =
    let (starts, ends) = ladder_checked start reserve cap raw rule v r q in
    rw q (
      ladder_amount rule.steps start cap p (sound.ladder_length q).0 (sound.ladder_valid q) starts
        ends h below)
amount_by_type rule (other_rule s) start reserve cap p raw q v r h below sound =
    absurd (ground (arith, sound.known_type))

-- For a lot whose pricing is valid, the step is positive at every price from the start price on
-- that lies below the cap price, if there is a cap.
pub amount_for_price_pos :
    (start reserve cap p : ℤ) (raw : RawRule) (rule : IncrementRule)
    → validate_auction_pricing start reserve cap raw ≡ none
    → parse_increment_rule raw ≡ ok rule
    → start ≤ℤ p
    → (pos 0 <ℤ cap → p <ℤ cap)
    → pos 0 <ℤ amount_for_price rule p
amount_for_price_pos start reserve cap p raw rule v r h below =
    amount_by_type rule rule.rule_type start reserve cap p raw refl v r h below
      (parse_increment_rule-IsSound raw rule r)
