-- ===== src/Tests/Settled.antt =====
-- A lot with a bid and two deposits, sold at one reserve price and not at another.
use aieas_backend.Prelude.{
  pos, String, true, none, some, [], ◌∷◌, ◌≡◌, inl, inr, refl, arith, nat_eq, string_eq, differ,
  trim_left, trim_right, uint64_to_string, digits,
}
use aieas_backend.Domain.Error.{ok}
use aieas_backend.Domain.User.{is_admin, is_merchant}
use aieas_backend.Domain.Auction.{closed_won, closed_failed, status_eq}
use aieas_backend.Domain.Bid.{AuctionLot, HammerInput, HammerResult}
use aieas_backend.Order.Deal.{OrderDeal}
use aieas_backend.Order.Repository.{new_order_repository}
use aieas_backend.Realtime.Entry.{Entry}
use aieas_backend.Realtime.PlaceBid.{bid}
use aieas_backend.Realtime.Store.{get_auction_state}
use aieas_backend.Settlement.Deposits.{
  DepositLedger, DepositRepository, deposit_ready, new_deposit_repository, create_deposit,
  deposit_key,
}
use aieas_backend.Settlement.Hammer.{Books, Answers, complete_input, hammer_internal, effective_end}
use aieas_backend.Settlement.Release.{Sound, new_deposit_repository-Sound, create_deposit-Sound}
use aieas_backend.Settlement.Closing.{OnAuction, Due, IsSold, IsUnsold}
use aieas_backend.Settlement.Outcome.{hammer_sells, hammer_fails}
use aieas_backend.Tests.Data.{running_store, lot, joined, bid_input, hammer_input}

-- Opens what the witnesses compute with.
unfoldable pub running_settlement : Unit {0}
unfolding running_store create_deposit deposit_key uint64_to_string digits is_admin is_merchant
    effective_end get_auction_state status_eq trim_left trim_right
running_settlement = tt

abbrev deposit_of : String → DepositLedger
deposit_of user = record {
  id = 0;
  auction_id = 7;
  user_id = user;
  amount = pos 100;
  status = deposit_ready;
  related_order_id = none;
  remark = "";
  created_at = 0;
  updated_at = 0;
}

abbrev first_deposit : DepositRepository
first_deposit = (create_deposit new_deposit_repository 5 (deposit_of "u1")).0

abbrev ledger : DepositRepository
ledger = (create_deposit first_deposit 6 (deposit_of "u2")).0

ledger-Sound : Sound ledger
unfolding running_settlement
ledger-Sound =
    create_deposit-Sound first_deposit 6 (deposit_of "u2")
      (create_deposit-Sound new_deposit_repository 5 (deposit_of "u1") new_deposit_repository-Sound
        refl)
      refl

abbrev with_bid : Entry
with_bid = (bid joined 0 bid_input).0

abbrev pub cheap_lot : AuctionLot
cheap_lot = record lot { reserve_price = pos 1000 }

abbrev pub books : AuctionLot → Books
books a = record {
  lots = (7, a) ∷ [];
  orders = new_order_repository;
  deposits = ledger;
  store = (7, with_bid) ∷ [];
}

abbrev pub answers : Answers
answers = record {
  clock = 63900000021000000000;
  request_id = "hammer-1";
  order_id = ok 40;
  top_record = ok none;
  snapshot = λ a p u t. [];
  pay_timeout = pos 900000000000;
}

abbrev forced : HammerInput
forced = record hammer_input { force = true }

due :
    (a : AuctionLot)
    → OnAuction (books a) a
    → a.auction_id ≡ 7
    → Due (books a) (complete_input answers forced) a with_bid
unfolding running_settlement
due a on own = record {
  lot = on;
  own = own;
  may_close = refl;
  stored = refl;
  undecided = refl;
  timed = refl;
  come = inl refl;
}

cheap_lot-OnAuction : OnAuction (books cheap_lot) cheap_lot
unfolding running_settlement
cheap_lot-OnAuction = record { at = refl; named = omega arith; opened = refl }

lot-OnAuction : OnAuction (books lot) lot
unfolding running_settlement
lot-OnAuction = record { at = refl; named = omega arith; opened = refl }

abbrev user : String
user = "u1"

hammer_sells_example :
    (b' : Books) × (r : HammerResult) × (o : OrderDeal) × (hammer_internal
        (books cheap_lot)
        answers
        forced
      ≡ (b', ok (r, some o)))
    × (r.status ≡ closed_won)
    × (r.winner_id ≡ "u1")
    × (r.price ≡ pos 1100)
    × IsSold (books cheap_lot) answers cheap_lot forced r b' o
unfolding running_settlement
hammer_sells_example =
    hammer_sells (books cheap_lot) answers forced cheap_lot with_bid 40
      (due cheap_lot cheap_lot-OnAuction refl) ledger-Sound (differ user "" refl) (omega arith) refl
      refl

hammer_fails_example :
    (b' : Books) × (r : HammerResult) × (hammer_internal (books lot) answers forced
      ≡ (b', ok (r, none)))
    × (r.status ≡ closed_failed)
    × (r.winner_id ≡ "")
    × IsUnsold (books lot) answers lot forced r b'
unfolding running_settlement
hammer_fails_example =
    hammer_fails (books lot) answers forced lot with_bid (due lot lot-OnAuction refl) ledger-Sound
      (inr (omega arith))
