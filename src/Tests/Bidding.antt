-- ===== src/Tests/Bidding.antt =====
-- Bids and hammers on a concrete auction of the store.
use aieas_backend.Prelude.{pos, true, false, [], ◌∷◌, ◌≡◌, refl, ◌↔◌, ◌≢◌, arith, ◌≤ℤ◌, unix_milli}
use aieas_backend.Domain.Error.{ok}
use aieas_backend.Domain.Auction.{
  closed_won, closed_failed, can_transition_auction, validate_auction_anti_extend_config,
}
use aieas_backend.Domain.Bid.{BidInput, HammerInput, HammerResult}
use aieas_backend.Realtime.Entry.{Entry, blank_entry, enroll, reset_participation}
use aieas_backend.Realtime.PlaceBid.{bid}
use aieas_backend.Realtime.PlaceBid.Effects.{Keeps, rejected_bid-Keeps}
use aieas_backend.Realtime.PlaceBid.Ending.{bid_transition, extension_count, extension_not_earlier}
use aieas_backend.Realtime.PlaceBid.Idempotency.{bid_again, bids as run_bids}
use aieas_backend.Realtime.Hammer.{hammer}
use aieas_backend.Realtime.Hammer.Again.{stays, enrolled, left, bidden, hammer_again}
use aieas_backend.Realtime.Hammer.Outcome.{hammer_winner}
use aieas_backend.Realtime.Invariant.{Inv, here, next, restarts, enrolls, bids}
use aieas_backend.Realtime.Invariant.Steps.{reachable-Inv}
use aieas_backend.Realtime.Cap.{cap_bid_wins}
use aieas_backend.Tests.Data.{
  running_store, late_input, lot, bid_input, hammer_input, opened, joined,
}

-- The last half minute: the accepted bid resets the end to half a minute behind it.
first_bid :
    let (e, r) = bid joined 0 bid_input in
    (r.accepted ≡ true)
    × (e.state.end_time ≡ 63900000030000000000)
    × (e.state.current_price ≡ pos 1100)
unfolding running_store
first_bid = (refl, refl, refl)

reachable-Inv_example : Inv (bid joined 0 bid_input).0
unfolding running_store
reachable-Inv_example = reachable-Inv 7 (
    next
      (next (next {e' = blank_entry 7} here (restarts lot (pos 1) (pos 5)))
        (enrolls "u1" refl (omega arith)))
      (bids 0 bid_input (omega arith, omega arith)))

bid_again_example :
    let e' = run_bids (bid joined 0 bid_input).0 ((0, late_input) ∷ []) in
    bid e' 5 bid_input ≡ (e', record ((bid joined 0 bid_input).1) { duplicate = true })
bid_again_example = bid_again joined 0 5 bid_input bid_input ((0, late_input) ∷ []) refl refl

rejected_bid-Keeps_example : Keeps opened (bid opened 0 bid_input).0
unfolding running_store
rejected_bid-Keeps_example = rejected_bid-Keeps opened 0 bid_input refl

bid_transition_example :
    can_transition_auction joined.state.status (bid joined 0 bid_input).0.state.status ≡ true
bid_transition_example = bid_transition joined 0 bid_input

extension_count_example :
    (pos 0 ≤ℤ (bid joined 0 bid_input).0.state.extend_count)
    × ((bid joined 0 bid_input).0.state.extend_count ≤ℤ pos 2)
unfolding running_store
extension_count_example =
    extension_count joined 0 bid_input (omega arith) (omega arith, omega arith) (omega arith)

extension_not_earlier_example : unix_milli joined.state.end_time ≤ℤ unix_milli 63900000030000000000
unfolding running_store validate_auction_anti_extend_config
extension_not_earlier_example =
    extension_not_earlier joined.state bid_input (pos 5000) 63900000030000000000 30 30 1764403200000
      1764403210000 refl refl refl refl (omega arith) (omega arith) (omega arith) refl

capped_input : BidInput
capped_input = record bid_input { cap_price = pos 1100 }

cap_bid_wins_example :
    ((bid joined 0 capped_input).0.state.status ≡ closed_won)
    × ((r : HammerResult) × ((hammer
            (bid joined 0 capped_input).0
            0
            (record hammer_input { reserve_price = pos 1100 })).1
          ≡ ok r)
        × (r.status ≡ closed_won)
        × (r.winner_id ≡ "u1")
        × (r.price ≡ pos 1100))
unfolding running_store capped_input
cap_bid_wins_example =
    cap_bid_wins joined 0 0 capped_input (record hammer_input { reserve_price = pos 1100 })
      (reachable-Inv 7 (
        next (next {e' = blank_entry 7} here (restarts lot (pos 1) (pos 5)))
          (enrolls "u1" refl (omega arith))))
      refl refl (omega arith) refl (omega arith) refl

failed_hammer : HammerResult
failed_hammer = record {
  request_id = "h1";
  auction_id = 7;
  status = closed_failed;
  winner_id = "";
  price = pos 0;
  duplicate = false;
  closed_at = 63900000020000000000;
  version = pos 6;
}

-- Behind the hammer a user leaves and joins, and a bid is refused.
abbrev hammered_entry : Entry
hammered_entry = (hammer opened 0 hammer_input).0

abbrev moved_on : Entry
moved_on = (bid (enroll (reset_participation hammered_entry) "u2") 0 late_input).0

hammer_again_example :
    hammer moved_on 9 hammer_input ≡ (moved_on, ok (record failed_hammer { duplicate = true }))
unfolding running_store failed_hammer
hammer_again_example =
    hammer_again opened 0 9 hammer_input hammer_input failed_hammer refl
      (bidden (enrolled (left stays) "u2") 0 late_input)

forced_input : HammerInput
forced_input = record hammer_input { force = true; reserve_price = pos 1000 }

won_hammer : HammerResult
won_hammer = record {
  request_id = "h1";
  auction_id = 7;
  status = closed_won;
  winner_id = "u1";
  price = pos 1100;
  duplicate = false;
  closed_at = 63900000020000000000;
  version = pos 8;
}

hammer_winner_example :
    let e = (bid joined 0 bid_input).0 in
    ((won_hammer.status ≡ closed_won)
      ↔ ((e.state.leader_bidder_id ≢ "") × (forced_input.reserve_price ≤ℤ e.state.current_price)))
    × (won_hammer.status ≡ closed_won
        → (won_hammer.winner_id ≡ e.state.leader_bidder_id)
          × (won_hammer.price ≡ e.state.current_price))
    × (won_hammer.status ≢ closed_won
        → (won_hammer.status ≡ closed_failed) × (won_hammer.winner_id ≡ ""))
unfolding running_store forced_input won_hammer
hammer_winner_example = hammer_winner (bid joined 0 bid_input).0 0 forced_input won_hammer refl refl
