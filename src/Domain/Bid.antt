-- ===== src/Domain/Bid.antt =====
-- The lot, its realtime state, and the inputs and results of a bid and of a hammer, from
-- internal/domain/auction.go. Of AuctionLot and AuctionState the fields stand here that the
-- modelled code reads or writes. A uint64 id is a number, 0 where a pointer would be nil.
use aieas_backend.Prelude.{ℕ, ℤ, String, Bool, Option, Time}
use aieas_backend.Domain.Auction.{AuctionStatus, AuctionExtendMode}
use aieas_backend.Domain.User.{Role}
use aieas_backend.Domain.Increment.{IncrementRule, RawRule, Reject}

pub record AuctionLot : Type 0 where
  pub auction_id : ℕ
  pub seller_id : String
  pub live_session_id : Option ℕ
  pub start_price : ℤ
  pub reserve_price : ℤ
  pub cap_price : ℤ
  pub increment_rule : RawRule
  pub anti_sniping_sec : ℤ
  pub anti_extend_sec : ℤ
  pub anti_extend_mode : AuctionExtendMode
  pub deposit_amount : ℤ
  pub status : AuctionStatus
  pub start_time : Time
  pub end_time : Time
  pub winner_id : Option String
  pub deal_price : Option ℤ
  pub closed_at : Option Time
  pub closed_by : String
  pub version : ℤ

pub record AuctionState : Type 0 where
  pub auction_id : ℕ
  pub live_session_id : ℕ
  pub status : AuctionStatus
  pub start_price : ℤ
  pub cap_price : ℤ
  pub increment_rule : RawRule
  pub current_price : ℤ
  pub leader_bidder_id : String
  pub bid_count : ℤ
  pub participant_count : ℤ
  pub start_time : Time
  pub end_time : Time
  pub last_bid_ts_ms : ℤ
  pub extend_count : ℤ
  pub version : ℤ
  pub source : String
  pub anti_sniping_ms : ℤ
  pub anti_extend_ms : ℤ

pub data BidRiskResult : Type 0 where
  risk_allow risk_reject risk_review : BidRiskResult

pub record BidInput : Type 0 where
  pub request_id : String
  pub auction_id : ℕ
  pub live_session_id : ℕ
  pub bidder_id : String
  pub bidder_nickname : String
  pub bidder_avatar_url : String
  pub price : ℤ
  pub expected_current_price : Option ℤ
  pub now : Time
  pub anti_sniping_ms : ℤ
  pub anti_extend_ms : ℤ
  pub anti_extend_mode : AuctionExtendMode
  pub max_extend_count : ℤ
  pub freq_limit_count : ℤ
  pub freq_window_ms : ℤ
  pub start_price : ℤ
  pub cap_price : ℤ
  pub increment_rule : IncrementRule

pub record BidResult : Type 0 where
  pub request_id : String
  pub auction_id : ℕ
  pub live_session_id : ℕ
  pub bidder_id : String
  pub bidder_nickname : String
  pub nickname : String
  pub bidder_avatar_url : String
  pub avatar_url : String
  pub price : ℤ
  pub accepted : Bool
  pub duplicate : Bool
  pub reason : Option Reject  -- "" is `none`
  pub current_price : ℤ
  pub leader_bidder_id : String
  pub end_time : Time
  pub is_extended : Bool
  pub extend_count : ℤ
  pub version : ℤ
  pub event : String
  pub risk_result : BidRiskResult
  pub auction_status : AuctionStatus
  pub auto_closed : Bool

pub record RankingEntry : Type 0 where
  pub rank : ℤ
  pub bidder_id : String
  pub price : ℤ

pub record HammerInput : Type 0 where
  pub request_id : String
  pub auction_id : ℕ
  pub actor_id : String
  pub actor_role : Role
  pub closed_by : String
  pub force : Bool
  pub reserve_price : ℤ
  pub now : Time

pub record HammerResult : Type 0 where
  pub request_id : String
  pub auction_id : ℕ
  pub status : AuctionStatus
  pub winner_id : String
  pub price : ℤ
  pub duplicate : Bool
  pub closed_at : Time
  pub version : ℤ
