-- ===== src/Realtime/Entry.antt =====
-- What the store keeps of one auction, and the operations on it that place no bid.
use aieas_backend.Prelude.{
  ℕ, ℤ, pos, String, Bool, leb_ℤ, ltb_ℤ, if◌then◌else◌, List, [], Option, none, some, length, add64,
  mul64, contains, add, string_eq, nat_eq,
}
use aieas_backend.Domain.Error.{ok, err}
use aieas_backend.Domain.Auction.{unset_status}
use aieas_backend.Domain.Increment.{
  IncrementRule, fixed, unset_rule, parse_increment_rule, amount_for_price,
}
use aieas_backend.Domain.Bid.{AuctionLot, AuctionState, BidResult, HammerResult}

-- memoryRankingEntry
pub record Standing : Type 0 where
  pub price : ℤ
  pub accepted_at : ℤ
  pub seq : ℤ

-- memoryFrequency
pub record Frequency : Type 0 where
  pub window_start : ℤ
  pub count : ℤ

-- memoryRealtimeAuction
pub record Entry : Type 0 where
  pub state : AuctionState
  pub min_increment : ℤ
  pub start_price : ℤ
  pub cap_price : ℤ
  pub rule : IncrementRule
  pub enrolled : List String
  pub deposits : List String
  pub ranking : List (String × Standing)
  pub next_bid_seq : ℤ
  pub idempotency : List (String × BidResult)
  pub hammer_result : Option HammerResult
  pub frequency : List (String × Frequency)

-- The rule with one step of an amount, where no other rule serves.
abbrev pub single_step : ℤ → IncrementRule
single_step amount = record {
  rule_type = fixed;
  amount = amount;
  max_bid_steps = pos 1;
  steps = [];
}

abbrev pub option_or : Option ℕ → ℕ → ℕ
option_or none d = d
option_or (some n) d = n

-- The state that InitAuction writes; `clock_ms` is time.Now().UTC().UnixMilli().
unfoldable pub fresh_state : AuctionLot → ℤ → ℤ → AuctionState
fresh_state a participants clock_ms = record {
  auction_id = a.auction_id;
  live_session_id = option_or a.live_session_id 0;
  status = a.status;
  start_price = a.start_price;
  cap_price = a.cap_price;
  increment_rule = a.increment_rule;
  current_price = a.start_price;
  leader_bidder_id = "";
  bid_count = pos 0;
  participant_count = participants;
  start_time = a.start_time;
  end_time = a.end_time;
  last_bid_ts_ms = pos 0;
  extend_count = pos 0;
  version = clock_ms;
  source = "redis";
  anti_sniping_ms = mul64 a.anti_sniping_sec (pos 1000);
  anti_extend_ms = mul64 a.anti_extend_sec (pos 1000);
}

-- The rule and the minimal increment that InitAuction keeps.
unfoldable pub init_rule : AuctionLot → ℤ → IncrementRule × ℤ
init_rule a min_increment =
    let least = if leb_ℤ min_increment (pos 0) then pos 1 else min_increment in
    elim (parse_increment_rule a.increment_rule) [
      | err e ↦ (single_step least, least)
      | ok rule ↦
          let amount = amount_for_price rule a.start_price in
          (rule, if ltb_ℤ (pos 0) amount then amount else least)
    ]

-- InitAuction: what was enrolled stays, everything else is new.
unfoldable pub init_auction : List String → List String → AuctionLot → ℤ → ℤ → Entry
unfolding fresh_state init_rule
init_auction enrolled deposits a min_increment clock_ms =
    let (rule, least) = init_rule a min_increment in
    record {
      state = fresh_state a (pos (length enrolled)) clock_ms;
      min_increment = least;
      start_price = a.start_price;
      cap_price = a.cap_price;
      rule = rule;
      enrolled = enrolled;
      deposits = deposits;
      ranking = [];
      next_bid_seq = pos 0;
      idempotency = [];
      hammer_result = none;
      frequency = [];
    }

-- The entry that getOrCreateAuctionLocked makes for an unknown id.
unfoldable pub blank_entry : ℕ → Entry
blank_entry id = record {
  state = record {
    auction_id = id;
    live_session_id = 0;
    status = unset_status;
    start_price = pos 0;
    cap_price = pos 0;
    increment_rule = none;
    current_price = pos 0;
    leader_bidder_id = "";
    bid_count = pos 0;
    participant_count = pos 0;
    start_time = 0;
    end_time = 0;
    last_bid_ts_ms = pos 0;
    extend_count = pos 0;
    version = pos 0;
    source = "redis";
    anti_sniping_ms = pos 0;
    anti_extend_ms = pos 0;
  };
  min_increment = pos 0;
  start_price = pos 0;
  cap_price = pos 0;
  rule = record { rule_type = unset_rule; amount = pos 0; max_bid_steps = pos 0; steps = [] };
  enrolled = [];
  deposits = [];
  ranking = [];
  next_bid_seq = pos 0;
  idempotency = [];
  hammer_result = none;
  frequency = [];
}

-- MarkEnrollment on the auction, for a trimmed user id that is not empty.
unfoldable pub enroll : Entry → String → Entry
enroll e user_id = record e {
  state = if contains user_id e.enrolled then e.state else record (e.state) {
    participant_count = add64 e.state.participant_count (pos 1);
    version = add64 e.state.version (pos 1);
  };
  enrolled = add user_id e.enrolled;
  deposits = add user_id e.deposits;
}

-- ResetAuctionParticipation on an auction that is there.
unfoldable pub reset_participation : Entry → Entry
reset_participation e = record e {
  state = record (e.state) { participant_count = pos 0; version = add64 e.state.version (pos 1) };
  enrolled = [];
  deposits = [];
}

-- BidPrerequisites on an auction that is there.
unfoldable pub bid_prerequisites : Entry → String → Bool × Bool
bid_prerequisites e user_id = (contains user_id e.enrolled, contains user_id e.deposits)
