-- ===== src/Realtime/PlaceBid.antt =====
-- PlaceBid on one auction of the store.
pub mod Cases
pub mod Effects
pub mod Ending
pub mod Idempotency
use aieas_backend.Prelude.{
  ℤ, pos, String, Bool, true, false, ◌&&◌, ◌||◌, not, leb_ℤ, ltb_ℤ, eqb_ℤ, if◌then◌else◌, Option,
  none, some, is_empty, add64, sub64, Time, is_zero_time, unix_milli, from_unix_milli, lookup,
  insert, contains, string_eq, nat_eq,
}
use aieas_backend.Domain.Auction.{
  AuctionStatus, running, extended, closed_won, is_reset, normalize_auction_extend_mode,
}
use aieas_backend.Domain.Increment.{
  IncrementRule, Reject, is_unset_rule, amount_for_price, validate_bid_price,
  validate_bid_expected_current_price, missing_expected_state, invalid_auction_state, not_enrolled,
  deposit_not_ready, freq_limit,
}
use aieas_backend.Domain.Bid.{AuctionState, BidInput, BidResult, risk_allow, risk_reject}
use aieas_backend.Realtime.Entry.{Frequency, Entry, single_step}

-- storeBidResult
unfoldable pub store_bid_result : Entry → String → BidResult → Entry
store_bid_result e request_id r =
    if is_empty request_id then e else record e { idempotency = insert request_id r e.idempotency }

-- rejectBid
unfoldable pub reject_bid : BidInput → Reject → AuctionState → BidResult
reject_bid i reason s = record {
  request_id = i.request_id;
  auction_id = i.auction_id;
  live_session_id = i.live_session_id;
  bidder_id = i.bidder_id;
  bidder_nickname = i.bidder_nickname;
  nickname = i.bidder_nickname;
  bidder_avatar_url = i.bidder_avatar_url;
  avatar_url = i.bidder_avatar_url;
  price = i.price;
  accepted = false;
  duplicate = false;
  reason = some reason;
  current_price = s.current_price;
  leader_bidder_id = s.leader_bidder_id;
  end_time = s.end_time;
  is_extended = false;
  extend_count = s.extend_count;
  version = s.version;
  event = "bid.rejected";
  risk_result = risk_reject;
  auction_status = s.status;
  auto_closed = false;
}

-- `result := rejectBid(…); auction.storeBidResult(…); return result, nil`
unfoldable pub refuse : Entry → BidInput → Reject → Entry × BidResult
unfolding store_bid_result reject_bid
refuse e i reason = let r = reject_bid i reason e.state in (store_bid_result e i.request_id r, r)

abbrev pub takes_bids : AuctionStatus → Bool
takes_bids running = true
takes_bids extended = true
takes_bids _ = false

-- The rule that PlaceBid works with: the input's, the stored one, or a single step.
unfoldable pub effective_rule : Entry → BidInput → IncrementRule
effective_rule e i =
    let given = i.increment_rule in
    let price = e.state.current_price in
    let rule =
      if is_unset_rule given.rule_type
        || leb_ℤ given.max_bid_steps (pos 0)
        || leb_ℤ (amount_for_price given price) (pos 0)
      then e.rule
      else given in
    if leb_ℤ (amount_for_price rule price) (pos 0) then single_step e.min_increment else rule

abbrev pub effective_start : Entry → BidInput → ℤ
effective_start e i = if eqb_ℤ i.start_price (pos 0) then e.start_price else i.start_price

abbrev pub effective_cap : Entry → BidInput → ℤ
effective_cap e i = if eqb_ℤ i.cap_price (pos 0) then e.cap_price else i.cap_price

-- The refusals of PlaceBid before a request counts against the frequency limit.
unfoldable pub early_refusal : Entry → BidInput → Option Reject
early_refusal e i =
    if not (takes_bids e.state.status)
    then some invalid_auction_state
    else if not (contains i.bidder_id e.enrolled)
    then some not_enrolled
    else if not (contains i.bidder_id e.deposits)
    then some deposit_not_ready
    else elim i.expected_current_price [
      | none ↦ some missing_expected_state
      | some expected ↦
          validate_bid_expected_current_price expected e.state.current_price (effective_cap e i)
            i.price (effective_rule e i)
    ]

-- A missing key reads as the zero value.
abbrev pub frequency_of : Entry → String → Frequency
frequency_of e user_id = elim (lookup user_id e.frequency) [
  | none ↦ record { window_start = pos 0; count = pos 0 }
  | some f ↦ f
]

abbrev pub limits_frequency : BidInput → Bool
limits_frequency i = ltb_ℤ (pos 0) i.freq_limit_count && ltb_ℤ (pos 0) i.freq_window_ms

-- The bidder's window with this request in it.
unfoldable pub next_frequency : Frequency → BidInput → ℤ → Frequency
next_frequency f i now_ms =
    if eqb_ℤ f.window_start (pos 0) || leb_ℤ i.freq_window_ms (sub64 now_ms f.window_start)
    then record { window_start = now_ms; count = pos 1 }
    else record f { count = add64 f.count (pos 1) }

unfoldable pub count_request : Entry → BidInput → ℤ → Entry
unfolding next_frequency
count_request e i now_ms =
    if limits_frequency i
    then record e {
      frequency =
          insert i.bidder_id (next_frequency (frequency_of e i.bidder_id) i now_ms) e.frequency;
    }
    else e

-- `freq.count > input.FreqLimitCount`, on the counted entry
unfoldable pub over_limit : Entry → BidInput → Bool
over_limit e i = limits_frequency i && ltb_ℤ i.freq_limit_count (frequency_of e i.bidder_id).count

-- How an accepted bid closes or extends the auction.
pub data Closing : Type 0 where
  stays : Closing
  closes : Closing
  extends : Time → Closing

unfoldable pub closing_of : AuctionState → BidInput → ℤ → ℤ → Closing
closing_of s i cap_price now_ms =
    if ltb_ℤ (pos 0) cap_price && eqb_ℤ i.price cap_price
    then closes
    else if ltb_ℤ (pos 0) i.anti_sniping_ms
        && ltb_ℤ (pos 0) i.anti_extend_ms
        && ltb_ℤ s.extend_count i.max_extend_count
    then if leb_ℤ (sub64 (unix_milli s.end_time) now_ms) i.anti_sniping_ms
      then extends (
          if is_reset (normalize_auction_extend_mode i.anti_extend_mode)
          then from_unix_milli (add64 now_ms i.anti_extend_ms)
          else from_unix_milli (add64 (unix_milli s.end_time) i.anti_extend_ms))
      else stays
    else stays

-- The state with the bid in it, before the end of the auction is looked at.
unfoldable pub raise_price : AuctionState → BidInput → ℤ → AuctionState
raise_price s i now_ms = record s {
  current_price = i.price;
  leader_bidder_id = i.bidder_id;
  bid_count = add64 s.bid_count (pos 1);
  last_bid_ts_ms = now_ms;
  version = add64 s.version (pos 1);
}

unfoldable pub close_state : AuctionState → Closing → Time → AuctionState
close_state s stays now = s
close_state s closes now = record s { status = closed_won; end_time = now }
close_state s (extends t) now = record s {
  end_time = t;
  extend_count = add64 s.extend_count (pos 1);
  status = extended;
}

abbrev pub is_extension : Closing → Bool
is_extension (extends t) = true
is_extension _ = false

abbrev pub is_closing : Closing → Bool
is_closing closes = true
is_closing _ = false

unfoldable pub accept_bid : BidInput → AuctionState → Closing → BidResult
accept_bid i s c = record {
  request_id = i.request_id;
  auction_id = i.auction_id;
  live_session_id = i.live_session_id;
  bidder_id = i.bidder_id;
  bidder_nickname = i.bidder_nickname;
  nickname = i.bidder_nickname;
  bidder_avatar_url = i.bidder_avatar_url;
  avatar_url = i.bidder_avatar_url;
  price = i.price;
  accepted = true;
  duplicate = false;
  reason = none;
  current_price = s.current_price;
  leader_bidder_id = s.leader_bidder_id;
  end_time = s.end_time;
  is_extended = is_extension c;
  extend_count = s.extend_count;
  version = s.version;
  event = "bid.accepted";
  risk_result = risk_allow;
  auction_status = s.status;
  auto_closed = is_closing c;
}

-- The end of PlaceBid, once the price has been accepted.
unfoldable pub accept : Entry → Time → BidInput → Entry × BidResult
unfolding raise_price close_state accept_bid store_bid_result
accept e now i =
    let now_ms = unix_milli now in
    let c = closing_of e.state i (effective_cap e i) now_ms in
    let s = close_state (raise_price e.state i now_ms) c now in
    let seq = add64 e.next_bid_seq (pos 1) in
    let r = accept_bid i s c in
    (
      store_bid_result
          (record e {
            state = s;
            next_bid_seq = seq;
            ranking =
                insert i.bidder_id (record { price = i.price; accepted_at = now_ms; seq = seq })
                  e.ranking;
          })
          i.request_id r,
      r,
    )

-- PlaceBid on a request that was not seen before.
unfoldable pub decide_bid : Entry → Time → BidInput → Entry × BidResult
decide_bid e now i = elim (early_refusal e i) [
  | some reason ↦ refuse e i reason
  | none ↦
      let counted = count_request e i (unix_milli now) in
      if over_limit counted i
      then refuse counted i freq_limit
      else elim (validate_bid_price (effective_start e i) e.state.current_price (effective_cap e i)
          i.price (effective_rule e i)) [
            | some reason ↦ refuse counted i reason
            | none ↦ accept counted now i
          ]
]

-- A decision is found again only under a request id that is not empty.
abbrev pub seen_result : Entry → String → Option BidResult
seen_result e request_id = if is_empty request_id then none else lookup request_id e.idempotency

abbrev pub bid_time : BidInput → Time → Time
bid_time i clock = if is_zero_time i.now then clock else i.now

-- PlaceBid on an auction that is there.
unfoldable pub bid : Entry → Time → BidInput → Entry × BidResult
bid e clock i = elim (seen_result e i.request_id) [
  | some r ↦ (e, record r { duplicate = true })
  | none ↦ decide_bid e (bid_time i clock) i
]
