-- ===== src/Domain/Auction.antt =====
-- The auction lot of internal/domain/auction.go: statuses, the table of transitions, and the
-- settings of the anti-sniping extension. A Go string type is a data type with a constructor for
-- each constant, and one for every other string (the zero value is that of the empty string).
pub mod Transitions
pub mod AntiExtend
use aieas_backend.Prelude.{
  ℕ, ℤ, pos, String, Bool, true, false, ◌&&◌, ◌||◌, not, leb_ℤ, ltb_ℤ, str_eq, if◌then◌else◌, ◌≡◌,
  ◌↔◌, upper_is, to_upper, refl, arith, trim_space, is_empty, Option, none, some, ◌==◌, eq_iff,
}
use aieas_backend.Domain.Error.{Error, invalid_argument}

pub data AuctionStatus : Type 0 where
  draft pending_audit audit_rejected ready warming_up running extended : AuctionStatus
  hammer_pending closed_won closed_failed settled : AuctionStatus
  -- any other string
  other_status : String → AuctionStatus

abbrev pub unset_status : AuctionStatus
unset_status = other_status ""

-- `==` on the statuses.
abbrev status_code : AuctionStatus → ℕ
status_code draft = 0
status_code pending_audit = 1
status_code audit_rejected = 2
status_code ready = 3
status_code warming_up = 4
status_code running = 5
status_code extended = 6
status_code hammer_pending = 7
status_code closed_won = 8
status_code closed_failed = 9
status_code settled = 10
status_code (other_status _) = 11

abbrev status_text : AuctionStatus → String
status_text (other_status s) = s
status_text _ = ""

unfoldable pub status_eq : AuctionStatus → AuctionStatus → Bool
status_eq a b = status_code a == status_code b && str_eq (status_text a) (status_text b)

-- Valid
unfoldable pub is_valid : AuctionStatus → Bool
is_valid (other_status s) = false
is_valid _ = true

-- Terminal
unfoldable pub is_terminal : AuctionStatus → Bool
is_terminal closed_won = true
is_terminal closed_failed = true
is_terminal settled = true
is_terminal _ = false

-- The switch of CanTransitionAuction, below its test for equal statuses.
moves : AuctionStatus → AuctionStatus → Bool
unfolding status_eq
moves draft to = status_eq to pending_audit || status_eq to closed_failed
moves pending_audit to =
    status_eq to ready || status_eq to audit_rejected || status_eq to closed_failed
moves audit_rejected to =
    status_eq to draft
    || status_eq to pending_audit
    || status_eq to ready
    || status_eq to closed_failed
moves ready to =
    status_eq to pending_audit
    || status_eq to warming_up
    || status_eq to running
    || status_eq to closed_failed
moves warming_up to = status_eq to running || status_eq to closed_failed
moves running to =
    status_eq to extended
    || status_eq to hammer_pending
    || status_eq to closed_won
    || status_eq to closed_failed
moves extended to =
    status_eq to hammer_pending || status_eq to closed_won || status_eq to closed_failed
moves hammer_pending to = status_eq to closed_won || status_eq to closed_failed
moves closed_won to = status_eq to settled
moves _ to = false

-- CanTransitionAuction
unfoldable pub can_transition_auction : AuctionStatus → AuctionStatus → Bool
unfolding status_eq moves
can_transition_auction from to = if status_eq from to then true else moves from to

pub data AuctionExtendMode : Type 0 where
  extend_add extend_reset : AuctionExtendMode
  other_mode : String → AuctionExtendMode

-- `==` against AuctionExtendModeReset, and AuctionExtendMode.Valid
unfoldable pub is_valid_mode : AuctionExtendMode → Bool
is_valid_mode (other_mode s) = false
is_valid_mode _ = true

unfoldable pub is_reset : AuctionExtendMode → Bool
is_reset extend_reset = true
is_reset _ = false

-- NormalizeAuctionExtendMode.
unfoldable pub normalize_auction_extend_mode : AuctionExtendMode → AuctionExtendMode
unfolding trim_space upper_is to_upper
normalize_auction_extend_mode (other_mode s) =
    if is_empty (trim_space s)
    then extend_add
    else if upper_is s "ADD"
    then extend_add
    else if upper_is s "RESET"
    then extend_reset
    else other_mode (to_upper (trim_space s))
normalize_auction_extend_mode m = m

-- ValidateAuctionAntiExtendConfig
unfoldable pub validate_auction_anti_extend_config : ℤ → ℤ → AuctionExtendMode → Option Error
validate_auction_anti_extend_config anti_sniping_sec anti_extend_sec mode =
    if leb_ℤ anti_sniping_sec (pos 0) || leb_ℤ anti_extend_sec (pos 0)
    then some invalid_argument
    else if is_reset (normalize_auction_extend_mode mode) && ltb_ℤ anti_extend_sec anti_sniping_sec
    then some invalid_argument
    else none

pub status_eq_iff : (a b : AuctionStatus) → (status_eq a b ≡ true) ↔ (a ≡ b)
unfolding status_eq
status_eq_iff a b = ground (arith, eq_iff (status_text a) (status_text b))
