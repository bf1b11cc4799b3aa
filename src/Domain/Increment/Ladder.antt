-- ===== src/Domain/Increment/Ladder.antt =====
-- What the validation of a ladder gives AmountForPrice.
use mathlib.Core.List.{Memᴰ}
use aieas_backend.Prelude.{
  ℤ, pos, Bool, true, false, List, [], ◌∷◌, Option, none, some, ◌≡◌, refl, arith, ◌≤ℤ◌, ◌<ℤ◌, ◌⊎◌,
  ltb_ℤ, ◌∙◌, ap, eq_of_parts, ==_iff, ◌≤◌, Option-cases, last_or, Bool-cases, inl, inr, length,
  ◌<◌,
}
use aieas_backend.Domain.Error.{ok}
use aieas_backend.Domain.Increment.{
  IncrementStep, IncrementRule, RuleFields, RuleType, RawRule, fixed, ladder, other_rule,
  steps_fail, amount_in, validate_ladder_steps, parse_increment_rule, parse_fields,
  validate_auction_pricing, starts_at, ends_at,
}

abbrev pub BelowEnd : ℤ → Option ℤ → Type 0
BelowEnd p none = Unit {0}
BelowEnd p (some m) = p <ℤ m

-- The band holds the price.
abbrev pub InBand : ℤ → IncrementStep → Type 0
InBand p s = (s.min ≤ℤ p) × BelowEnd p s.max

abbrev pub is_known : RuleType → Bool
is_known (other_rule s) = false
is_known _ = true

covered_last :
    (s : IncrementStep) (p : ℤ) (e : Option ℤ)
    → s.max ≡ e
    → steps_fail (s ∷ []) ≡ false
    → s.min ≤ℤ p
    → BelowEnd p e
    → pos 0 <ℤ amount_in (s ∷ []) p
unfolding steps_fail amount_in
covered_last s p none q f h b = ground arith
covered_last s p (some m) q f h b = ground arith

-- What the loop has checked of a band and the one behind it.
step_facts :
    (s t : IncrementStep) (rest : List IncrementStep) (e : Option ℤ)
    → s.max ≡ e
    → steps_fail (s ∷ t ∷ rest) ≡ false
    → (m : ℤ) × (e ≡ some m) × (s.min <ℤ m) × (m ≤ℤ t.min) × (t.min ≤ℤ m) × (pos 0 <ℤ s.amount)
unfolding steps_fail
step_facts s t rest none q f = absurd (ground arith)
step_facts s t rest (some m) q f = (m, refl, ground arith, ground arith, ground arith, ground arith)

amount_in_step :
    (s t : IncrementStep) (rest : List IncrementStep) (p m : ℤ)
    → s.max ≡ some m
    → s.min ≤ℤ p
    → ((p <ℤ m) × (amount_in (s ∷ t ∷ rest) p ≡ s.amount))
      ⊎ ((m ≤ℤ p) × (amount_in (s ∷ t ∷ rest) p ≡ amount_in (t ∷ rest) p))
unfolding amount_in
amount_in_step s t rest p m q h = elim (Bool-cases (ltb_ℤ p s.min)) [
  | inl below ↦ absurd (ground arith)
  | inr above ↦ elim (Bool-cases (ltb_ℤ p m)) [
    | inl here ↦ inl (ground arith, rw (above, q, here))
    | inr later ↦ inr (ground arith, rw (above, q, later))
  ]
]

covered_step :
    (s t : IncrementStep) (rest : List IncrementStep) (p : ℤ)
    → steps_fail (s ∷ t ∷ rest) ≡ false
    → s.min ≤ℤ p
    → (t.min ≤ℤ p → pos 0 <ℤ amount_in (t ∷ rest) p)
    → pos 0 <ℤ amount_in (s ∷ t ∷ rest) p
covered_step s t rest p f h ih =
    let (m, q, order, up, down, gain) = step_facts s t rest s.max refl f in
    elim (amount_in_step s t rest p m q h) [
      | inl (here, e) ↦ rw e gain
      | inr (later, e) ↦ rw e (ih (omega arith))
    ]

steps_fail-tail :
    (s t : IncrementStep) (rest : List IncrementStep)
    → steps_fail (s ∷ t ∷ rest) ≡ false
    → steps_fail (t ∷ rest) ≡ false
unfolding steps_fail
steps_fail-tail s t rest f = ground arith

-- A valid ladder has a positive amount from the start of its first band to the end of its last.
pub amount_in_pos :
    (s : IncrementStep) (rest : List IncrementStep) (p : ℤ)
    → steps_fail (s ∷ rest) ≡ false
    → s.min ≤ℤ p
    → BelowEnd p (last_or s rest).max
    → pos 0 <ℤ amount_in (s ∷ rest) p
amount_in_pos s [] p f h b = covered_last s p s.max refl f h b
amount_in_pos s (t ∷ rest) p f h b =
    covered_step s t rest p f h (λ h'. amount_in_pos t rest p (steps_fail-tail s t rest f) h' b)

first_min :
    (b s : IncrementStep) (rest : List IncrementStep)
    → steps_fail (s ∷ rest) ≡ false
    → Memᴰ b (s ∷ rest)
    → s.min ≤ℤ b.min
first_min b s rest f (Memᴰ.head e) = rw e (omega arith)
first_min b s [] f (Memᴰ.tail m) = elim m [ ]
first_min b s (t ∷ rest) f (Memᴰ.tail m) =
    let (_, _, order, up, down, gain) = step_facts s t rest s.max refl f in
    omega (arith, first_min b t rest (steps_fail-tail s t rest f) m)

amount_in_last :
    (s : IncrementStep) (p : ℤ) (e : Option ℤ)
    → s.max ≡ e
    → s.min ≤ℤ p
    → BelowEnd p e
    → amount_in (s ∷ []) p ≡ s.amount
unfolding amount_in
amount_in_last s p none q h b = ground arith
amount_in_last s p (some m) q h b = ground arith

-- In a valid ladder the amount at a price is that of any band that holds the price, so at most
-- one band holds it as far as the amounts tell.
pub amount_in-InBand :
    (b s : IncrementStep) (rest : List IncrementStep) (p : ℤ)
    → steps_fail (s ∷ rest) ≡ false
    → Memᴰ b (s ∷ rest)
    → InBand p b
    → amount_in (s ∷ rest) p ≡ b.amount
amount_in-InBand b s [] p f (Memᴰ.head e) h =
    rw e (amount_in_last s p s.max refl (rw e at h.0) (rw e at h.1))
amount_in-InBand b s [] p f (Memᴰ.tail m) h = elim m [ ]
amount_in-InBand b s (t ∷ rest) p f (Memᴰ.head e) h =
    let (m, q, order, up, down, gain) = step_facts s t rest s.max refl f in
    let below : BelowEnd p (some m) = rw (e, q) at h.1 in
    elim (amount_in_step s t rest p m q (rw e at h.0)) [
      | inl (here, eq) ↦ rw e eq
      | inr (later, eq) ↦ absurd (omega arith)
    ]
amount_in-InBand b s (t ∷ rest) p f (Memᴰ.tail m) h =
    let (m', q, order, up, down, gain) = step_facts s t rest s.max refl f in
    let first = first_min b t rest (steps_fail-tail s t rest f) m in
    elim (amount_in_step s t rest p m' q (omega (arith, h.0))) [
      | inl (here, e) ↦ absurd (omega (arith, h.0))
      | inr (later, e) ↦ e ∙ amount_in-InBand b t rest p (steps_fail-tail s t rest f) m h
    ]

pub ladder_checked :
    (start reserve cap : ℤ) (raw : RawRule) (rule : IncrementRule)
    → validate_auction_pricing start reserve cap raw ≡ none
    → parse_increment_rule raw ≡ ok rule
    → rule.rule_type ≡ ladder
    → (starts_at rule.steps start ≡ true) × (ends_at rule.steps cap ≡ true)
unfolding validate_auction_pricing
ladder_checked start reserve cap raw rule v p l = (ground arith, ground arith)

-- Bands that start at 0 or above, each with a positive amount; each ends above its start and where the
-- next one starts, and only the last may have no end.
abbrev pub IsBands : List IncrementStep → Type 0
IsBands [] = Unit
IsBands (s ∷ []) = (pos 0 ≤ℤ s.min) × (pos 0 <ℤ s.amount) × ((m : ℤ) → s.max ≡ some m → s.min <ℤ m)
IsBands (s ∷ t ∷ rest) =
    (pos 0 ≤ℤ s.min)
    × (pos 0 <ℤ s.amount)
    × (s.max ≡ some t.min)
    × (s.min <ℤ t.min)
    × IsBands (t ∷ rest)

joined_bands :
    (s t : IncrementStep) (rest : List IncrementStep)
    → steps_fail (s ∷ t ∷ rest) ≡ false
    → (s.max ≡ some t.min) × (s.min <ℤ t.min)
joined_bands s t rest f =
    let (m, q, order, up, down, gain) = step_facts s t rest s.max refl f in
    let same : m ≡ t.min = eq_of_parts m t.min (omega arith) in (q ∙ ap some same, omega arith)

steps_fail-IsBands : (l : List IncrementStep) → steps_fail l ≡ false → IsBands l
unfolding steps_fail
steps_fail-IsBands [] f = tt
steps_fail-IsBands (s ∷ []) f = (ground arith, ground arith, λ m q. ground (arith, (rw q at f)))
steps_fail-IsBands (s ∷ t ∷ rest) f =
    let (ends, order) = joined_bands s t rest f in
    (
      ground arith,
      ground arith,
      ends,
      order,
      steps_fail-IsBands (t ∷ rest) (steps_fail-tail s t rest f),
    )

-- What ParseIncrementRule promises of a rule that it returns.
pub record IsSound (rule : IncrementRule) : Type 0 where
  pub positive_steps : pos 0 <ℤ rule.max_bid_steps
  pub fixed_amount : rule.rule_type ≡ fixed → pos 0 <ℤ rule.amount
  pub ladder_length : rule.rule_type ≡ ladder → (0 < length rule.steps) × (length rule.steps ≤ 50)
  pub ladder_bands : rule.rule_type ≡ ladder → IsBands rule.steps
  pub ladder_valid : rule.rule_type ≡ ladder → steps_fail rule.steps ≡ false
  pub known_type : is_known rule.rule_type ≡ true

valid_ladder :
    (l : List IncrementStep)
    → validate_ladder_steps l ≡ none
    → (0 < length l) × (length l ≤ 50) × (steps_fail l ≡ false)
unfolding validate_ladder_steps
valid_ladder l h = (ground (arith, ==_iff (length l) 0), ground arith, ground arith)

parsed_ladder :
    (f : RuleFields) (rule : IncrementRule)
    → parse_fields f ladder ≡ ok rule
    → (pos 0 <ℤ rule.max_bid_steps)
      × (rule.rule_type ≡ ladder)
      × (validate_ladder_steps rule.steps ≡ none)
unfolding parse_fields
parsed_ladder f rule e = elim (Option-cases (validate_ladder_steps f.steps)) [
  | inl valid ↦ ground arith
  | inr (x, bad) ↦ absurd (ground (arith, (rw bad at e)))
]

parse_fields-IsSound :
    (f : RuleFields) (t : RuleType) (rule : IncrementRule)
    → parse_fields f t ≡ ok rule
    → IsSound rule
unfolding parse_fields
parse_fields-IsSound f fixed rule e = ground arith
parse_fields-IsSound f ladder rule e =
    let (positive, type, valid) = parsed_ladder f rule e in
    let (least, most, passed) = valid_ladder rule.steps valid in
    record {
      positive_steps = positive;
      fixed_amount = λ q. absurd (ground (arith, q, type));
      ladder_length = λ q. (least, most);
      ladder_bands = λ q. steps_fail-IsBands rule.steps passed;
      ladder_valid = λ q. passed;
      known_type = rw type refl;
    }
parse_fields-IsSound f (other_rule s) rule e = ground arith

-- A rule that ParseIncrementRule returns has a positive limit of steps and is either fixed with a
-- positive amount or a ladder of 1 to 50 bands. These start at 0 or above and have positive amounts;
-- each ends above its start and exactly where the next one starts, and only the last may be open.
pub parse_increment_rule-IsSound :
    (raw : RawRule) (rule : IncrementRule) → parse_increment_rule raw ≡ ok rule → IsSound rule
unfolding parse_increment_rule
parse_increment_rule-IsSound none rule e = cc
parse_increment_rule-IsSound (some f) rule e = parse_fields-IsSound f _ rule e
