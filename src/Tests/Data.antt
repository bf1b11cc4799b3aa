-- ===== src/Tests/Data.antt =====
-- The lots, rules, inputs and auctions that the runs use.
use aieas_backend.Prelude.{pos, true, false, none, some, List, [], ◌∷◌, Time}
use aieas_backend.Domain.Auction.{running, extend_reset}
use aieas_backend.Domain.Increment.{
  IncrementStep, IncrementRule, RuleFields, fixed, ladder, unset_rule,
}
use aieas_backend.Domain.User.{admin}
use aieas_backend.Domain.Bid.{AuctionLot, BidInput, HammerInput}
use aieas_backend.Prelude.{
  add, contains, lookup, insert, add64, sub64, mul64, rem64, wrap64, ◌-ℤ◌, ◌+ℤ◌, ◌*ℤ◌, unix_milli,
  from_unix_milli, lower_is, trim_space,
}
use aieas_backend.Domain.Auction.{normalize_auction_extend_mode, is_reset}
use aieas_backend.Domain.Increment.{
  is_unset_rule, parse_increment_rule, amount_for_price, amount_in, validate_bid_price,
  validate_bid_amount, validate_bid_expected_current_price,
}
use aieas_backend.Realtime.PlaceBid.{
  bid, decide_bid, early_refusal, count_request, over_limit, accept, refuse, effective_rule,
  closing_of,
}
use aieas_backend.Realtime.Hammer.{hammer, decide_hammer, hammer_outcome}
use aieas_backend.Realtime.Entry.{Entry, blank_entry, init_auction, enroll}

abbrev pub low_band : IncrementStep
low_band = record { min = pos 1000; max = some (pos 2000); amount = pos 50 }

abbrev pub high_band : IncrementStep
high_band = record { min = pos 2000; max = some (pos 5000); amount = pos 100 }

abbrev pub bands : List IncrementStep
bands = low_band ∷ high_band ∷ []

abbrev pub ladder_fields : RuleFields
ladder_fields = record {
  has_type = true;
  has_amount = false;
  has_max_bid_steps = true;
  has_steps = true;
  type_text = " Ladder ";
  amount = pos 0;
  max_bid_steps = pos 5;
  steps = bands;
}

abbrev pub ladder_rule : IncrementRule
ladder_rule = record { rule_type = ladder; amount = pos 0; max_bid_steps = pos 5; steps = bands }

abbrev pub fixed_rule : IncrementRule
fixed_rule = record { rule_type = fixed; amount = pos 100; max_bid_steps = pos 3; steps = [] }

-- A running lot from 1000 up to a cap of 5000; the times are seconds of 2026.
abbrev pub noon : Time
noon = 63900000000000000000

abbrev pub lot : AuctionLot
lot = record {
  auction_id = 7;
  seller_id = "s1";
  live_session_id = some 3;
  start_price = pos 1000;
  reserve_price = pos 1500;
  cap_price = pos 5000;
  increment_rule = some ladder_fields;
  anti_sniping_sec = pos 30;
  anti_extend_sec = pos 30;
  anti_extend_mode = extend_reset;
  deposit_amount = pos 100;
  status = running;
  start_time = 63899999000000000000;
  end_time = 63900000010000000000;
  winner_id = none;
  deal_price = none;
  closed_at = none;
  closed_by = "";
  version = pos 1;
}

abbrev pub bid_input : BidInput
bid_input = record {
  request_id = "r1";
  auction_id = 7;
  live_session_id = 3;
  bidder_id = "u1";
  bidder_nickname = "ann";
  bidder_avatar_url = "";
  price = pos 1100;
  expected_current_price = some (pos 1000);
  now = noon;
  anti_sniping_ms = pos 30000;
  anti_extend_ms = pos 30000;
  anti_extend_mode = extend_reset;
  max_extend_count = pos 2;
  freq_limit_count = pos 10;
  freq_window_ms = pos 1000;
  start_price = pos 0;
  cap_price = pos 0;
  increment_rule = record {
    rule_type = unset_rule;
    amount = pos 0;
    max_bid_steps = pos 0;
    steps = [];
  };
}

-- The lot in the store, with one bidder enrolled.
abbrev pub opened : Entry
opened = init_auction [] [] lot (pos 1) (pos 5)

abbrev pub joined : Entry
joined = enroll opened "u1"

abbrev pub hammer_input : HammerInput
hammer_input = record {
  request_id = "h1";
  auction_id = 7;
  actor_id = "admin";
  actor_role = admin;
  closed_by = "system";
  force = false;
  reserve_price = pos 1500;
  now = 63900000020000000000;
}

-- A second bidder's bid, who has not enrolled.
abbrev pub late_input : BidInput
late_input = record bid_input { request_id = "r2"; bidder_id = "u2"; price = pos 1300 }

-- Opens what the operations of the store compute with.
unfoldable pub running_store : Unit {0}
unfolding bid decide_bid early_refusal count_request over_limit accept effective_rule is_unset_rule
    closing_of init_auction parse_increment_rule enroll add contains lookup insert amount_for_price
    amount_in validate_bid_price validate_bid_amount validate_bid_expected_current_price add64 sub64
    mul64 rem64 wrap64 ◌-ℤ◌ ◌+ℤ◌ ◌*ℤ◌ unix_milli from_unix_milli normalize_auction_extend_mode
    is_reset hammer decide_hammer hammer_outcome refuse lower_is trim_space blank_entry
running_store = tt
