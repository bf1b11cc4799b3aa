-- ===== src/Domain/Increment.antt =====
-- The increment rules of internal/domain/increment_rule.go: a fixed step or a ladder of bands, their
-- validation, and the two tests of a bid price. Prices are int64 cents, whose arithmetic wraps.
-- A raw JSON rule stands as what encoding/json reads from it: `none` for an empty or invalid text,
-- an unknown field or a field of another type, and otherwise the fields and which of them occur.
pub mod Ladder
pub mod Pricing
pub mod Price
pub mod Expected
pub mod Bounds
use aieas_backend.Prelude.{
  ℕ, ℤ, pos, String, Bool, true, false, ◌&&◌, ◌||◌, not, leb_ℤ, ltb_ℤ, eqb_ℤ, ltb, if◌then◌else◌,
  List, [], ◌∷◌, Option, none, some, length, lower_is, is_empty, add64, sub64, mul64, rem64, ◌==◌,
}
use aieas_backend.Domain.Error.{Error, invalid_argument, Result, ok, err}

pub data RuleType : Type 0 where
  fixed ladder : RuleType
  other_rule : String → RuleType

-- `t == ""`
abbrev pub unset_rule : RuleType
unset_rule = other_rule ""

unfoldable pub is_unset_rule : RuleType → Bool
is_unset_rule (other_rule s) = is_empty s
is_unset_rule _ = false

-- An increment band: `min` inclusive, `max` exclusive, `none` for nil.
pub record IncrementStep : Type 0 where
  pub min : ℤ
  pub max : Option ℤ
  pub amount : ℤ

pub record IncrementRule : Type 0 where
  pub rule_type : RuleType
  pub amount : ℤ
  pub max_bid_steps : ℤ
  pub steps : List IncrementStep

-- What the two decoders of ParseIncrementRule read from a text.
pub record RuleFields : Type 0 where
  pub has_type : Bool
  pub has_amount : Bool
  pub has_max_bid_steps : Bool
  pub has_steps : Bool
  pub type_text : String
  pub amount : ℤ
  pub max_bid_steps : ℤ
  pub steps : List IncrementStep

abbrev pub RawRule : Type 0
RawRule = Option RuleFields

pub data Reject : Type 0 where
  below_start_price price_step_mismatch below_min_increment above_max_bid_steps : Reject
  above_expected_max_bid_steps above_cap_price missing_expected_state : Reject
  stale_auction_state auction_busy : Reject
  -- the reasons that PlaceBid gives by itself
  auction_not_ready invalid_auction_state not_enrolled deposit_not_ready freq_limit : Reject

abbrev pub default_increment_amount : ℤ
default_increment_amount = pos 100

abbrev pub default_max_bid_steps : ℤ
default_max_bid_steps = pos 10

abbrev pub max_increment_rule_steps : ℕ
max_increment_rule_steps = 50

-- DefaultIncrementRule: the marshalled rule leaves its empty `steps` out.
abbrev pub default_increment_rule : RawRule
default_increment_rule = some (record {
  has_type = true;
  has_amount = true;
  has_max_bid_steps = true;
  has_steps = false;
  type_text = "fixed";
  amount = default_increment_amount;
  max_bid_steps = default_max_bid_steps;
  steps = [];
})

-- `step.Max != nil && *step.Max <= step.Min`
abbrev pub ends_early : IncrementStep → Bool
ends_early s = elim s.max [ none ↦ false | some m ↦ leb_ℤ m s.min ]

-- `step.Max == nil || *step.Max <= step.Min || next.Min != *step.Max`
abbrev pub breaks_before : IncrementStep → ℤ → Bool
breaks_before s next_min = elim s.max [
  | none ↦ true
  | some m ↦ leb_ℤ m s.min || not (eqb_ℤ next_min m)
]

-- The loop of validateLadderSteps.
unfoldable pub steps_fail : List IncrementStep → Bool
steps_fail [] = false
steps_fail (s ∷ []) = ltb_ℤ s.min (pos 0) || leb_ℤ s.amount (pos 0) || ends_early s
steps_fail (s ∷ t ∷ rest) =
    ltb_ℤ s.min (pos 0) || leb_ℤ s.amount (pos 0) || breaks_before s t.min || steps_fail (t ∷ rest)

-- validateLadderSteps
unfoldable pub validate_ladder_steps : List IncrementStep → Option Error
unfolding steps_fail
validate_ladder_steps steps =
    if length steps == 0 || ltb max_increment_rule_steps (length steps)
    then some invalid_argument
    else if steps_fail steps
    then some invalid_argument
    else none

-- strings.ToLower(strings.TrimSpace(rule.Type)) against the two constants
unfoldable pub rule_type_of : String → RuleType
rule_type_of s =
    if lower_is s "fixed" then fixed else if lower_is s "ladder" then ladder else other_rule s

-- ParseIncrementRule, behind the decoders.
unfoldable pub parse_fields : RuleFields → RuleType → Result IncrementRule
unfolding validate_ladder_steps
parse_fields f t =
    let rule : IncrementRule = record {
      rule_type = t;
      amount = f.amount;
      max_bid_steps = f.max_bid_steps;
      steps = f.steps;
    } in
    if not f.has_type || not f.has_max_bid_steps || leb_ℤ f.max_bid_steps (pos 0)
    then err invalid_argument
    else elim t [
      | fixed ↦
          if not f.has_amount || f.has_steps || leb_ℤ f.amount (pos 0)
          then err invalid_argument
          else ok rule
      | ladder ↦
          if f.has_amount || not f.has_steps
          then err invalid_argument
          else elim (validate_ladder_steps f.steps) [
            | none ↦ ok rule
            | some e ↦ err invalid_argument
          ]
      | other_rule s ↦ err invalid_argument
    ]

-- ParseIncrementRule
unfoldable pub parse_increment_rule : RawRule → Result IncrementRule
unfolding parse_fields rule_type_of lower_is
parse_increment_rule none = err invalid_argument
parse_increment_rule (some f) = parse_fields f (rule_type_of f.type_text)

-- ValidateIncrementRule
unfoldable pub validate_increment_rule : RawRule → Option Error
validate_increment_rule raw = elim (parse_increment_rule raw) [ ok _ ↦ none | err e ↦ some e ]

-- The loop of AmountForPrice over the bands.
unfoldable pub amount_in : List IncrementStep → ℤ → ℤ
amount_in [] price = pos 0
amount_in (s ∷ rest) price = if ltb_ℤ price s.min then amount_in rest price else elim s.max [
  | none ↦ s.amount
  | some m ↦ if ltb_ℤ price m then s.amount else amount_in rest price
]

-- AmountForPrice
unfoldable pub amount_for_price : IncrementRule → ℤ → ℤ
amount_for_price r price = elim r.rule_type [
  | fixed ↦ r.amount
  | ladder ↦ amount_in r.steps price
  | other_rule s ↦ pos 0
]

-- MinIncrementForPrice
unfoldable pub min_increment_for_price : RawRule → ℤ → ℤ → ℤ
min_increment_for_price raw current_price fallback =
    let fallback' = if leb_ℤ fallback (pos 0) then pos 1 else fallback in
    elim (parse_increment_rule raw) [
      | ok rule ↦
          let amount = amount_for_price rule current_price in
          if leb_ℤ amount (pos 0) then fallback' else amount
      | err e ↦ fallback'
    ]

-- The first band starts at the start price; `rule.Steps[0]` of an empty list would be a fault,
-- which ParseIncrementRule excludes.
abbrev pub starts_at : List IncrementStep → ℤ → Bool
starts_at [] start_price = false
starts_at (s ∷ rest) start_price = eqb_ℤ s.min start_price

-- The last band ends at the cap price, or nowhere if there is no cap.
abbrev pub ends_at : List IncrementStep → ℤ → Bool
ends_at [] cap_price = false
ends_at (s ∷ []) cap_price =
    if ltb_ℤ (pos 0) cap_price
    then elim s.max [ none ↦ false | some m ↦ eqb_ℤ m cap_price ]
    else elim s.max [ none ↦ true | some m ↦ false ]
ends_at (s ∷ t ∷ rest) cap_price = ends_at (t ∷ rest) cap_price

-- ValidateAuctionPricing
unfoldable pub validate_auction_pricing : ℤ → ℤ → ℤ → RawRule → Option Error
validate_auction_pricing start_price reserve_price cap_price raw =
    if ltb_ℤ start_price (pos 0) || ltb_ℤ reserve_price (pos 0) || ltb_ℤ cap_price (pos 0)
    then some invalid_argument
    else if ltb_ℤ (pos 0) cap_price && leb_ℤ cap_price start_price
    then some invalid_argument
    else if ltb_ℤ (pos 0) cap_price && ltb_ℤ (pos 0) reserve_price && ltb_ℤ cap_price reserve_price
    then some invalid_argument
    else elim (parse_increment_rule raw) [
      | err e ↦ some e
      | ok rule ↦ elim rule.rule_type [
        | ladder ↦
            if not (starts_at rule.steps start_price)
            then some invalid_argument
            else if not (ends_at rule.steps cap_price)
            then some invalid_argument
            else none
        | fixed ↦ none
        | other_rule s ↦ none
      ]
    ]

-- `if capPrice > 0 && maxAllowed > capPrice { maxAllowed = capPrice }`
abbrev pub capped : ℤ → ℤ → ℤ
capped max_allowed cap_price =
    if ltb_ℤ (pos 0) cap_price && ltb_ℤ cap_price max_allowed then cap_price else max_allowed

-- ValidateBidPrice behind the look-up of the band's amount; `none` accepts.
unfoldable pub validate_bid_amount : ℤ → ℤ → ℤ → ℤ → ℤ → ℤ → Option Reject
validate_bid_amount start_price current_price cap_price price max_bid_steps amount =
    if leb_ℤ amount (pos 0)
    then some price_step_mismatch
    else if leb_ℤ price start_price
    then some below_start_price
    else if ltb_ℤ (pos 0) cap_price && ltb_ℤ cap_price price
    then some above_cap_price
    else let is_cap_bid = ltb_ℤ (pos 0) cap_price && eqb_ℤ price cap_price in
      if not is_cap_bid && not (eqb_ℤ (rem64 (sub64 price current_price) amount) (pos 0))
      then some price_step_mismatch
      else if (if is_cap_bid
          then leb_ℤ price current_price
          else ltb_ℤ price (add64 current_price amount))
      then some below_min_increment
      else if ltb_ℤ (capped (add64 current_price (mul64 amount max_bid_steps)) cap_price) price
      then some above_max_bid_steps
      else none

-- ValidateBidPrice
unfoldable pub validate_bid_price : ℤ → ℤ → ℤ → ℤ → IncrementRule → Option Reject
validate_bid_price start_price current_price cap_price price rule =
    if leb_ℤ rule.max_bid_steps (pos 0)
    then some price_step_mismatch
    else validate_bid_amount start_price current_price cap_price price rule.max_bid_steps
        (amount_for_price rule current_price)

-- ValidateBidExpectedCurrentPrice
unfoldable pub validate_bid_expected_current_price : ℤ → ℤ → ℤ → ℤ → IncrementRule → Option Reject
validate_bid_expected_current_price expected current_price cap_price price rule =
    if ltb_ℤ expected (pos 0)
    then some stale_auction_state
    else if ltb_ℤ current_price expected
    then some stale_auction_state
    else if leb_ℤ rule.max_bid_steps (pos 0)
    then some price_step_mismatch
    else let amount = amount_for_price rule expected in
      if leb_ℤ amount (pos 0)
      then some price_step_mismatch
      else let max_allowed = capped (add64 expected (mul64 amount rule.max_bid_steps)) cap_price in
        if ltb_ℤ expected current_price && ltb_ℤ max_allowed price
        then some above_expected_max_bid_steps
        else none
