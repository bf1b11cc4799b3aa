-- ===== src/Settlement/Auctions.antt =====
-- FindByID and CloseWithVersion of MemoryAuctionRepository, internal/modules/auction/repository.
-- cloneAuction copies slices, which have no aliases here.
use aieas_backend.Prelude.{
  ℕ, ℤ, pos, Bool, false, ◌||◌, not, ◌==◌, if◌then◌else◌, none, some, List, [], ◌∷◌, lookup, insert,
  nat_eq, eqb_ℤ, add64,
}
use aieas_backend.Domain.Error.{
  invalid_argument, not_found, invalid_state, optimistic_conflict, Result, ok, err,
}
use aieas_backend.Domain.Auction.{AuctionStatus, status_eq, is_terminal}
use aieas_backend.Domain.Bid.{AuctionLot}

abbrev pub Lots : Type 0
Lots = List (ℕ × AuctionLot)

-- FindByID
unfoldable pub find_lot : Lots → ℕ → Result AuctionLot
find_lot r id = elim (lookup id r) [ none ↦ err not_found | some a ↦ ok a ]

-- statusInList, for a list that is not empty; the callers give such ones.
abbrev pub status_in_list : AuctionStatus → List AuctionStatus → Bool
status_in_list s [] = false
status_in_list s (v ∷ l) = status_eq v s || status_in_list s l

-- The row that CloseWithVersion stores.
abbrev pub closed_row : AuctionLot → AuctionLot → ℤ → AuctionLot
closed_row current a expected = record current {
  status = a.status;
  winner_id = a.winner_id;
  deal_price = a.deal_price;
  closed_at = a.closed_at;
  closed_by = a.closed_by;
  version = add64 expected (pos 1);
}

-- CloseWithVersion, with its error.
unfoldable pub close_with_version :
    Lots → AuctionLot → ℤ → List AuctionStatus → Lots × Result AuctionLot
unfolding is_terminal
close_with_version r a expected allowed =
    if a.auction_id == 0 then (r, err invalid_argument) else elim (lookup a.auction_id r) [
      | none ↦ (r, err not_found)
      | some current ↦
          if not (eqb_ℤ current.version expected) || not (status_in_list current.status allowed)
          then (r, err (if is_terminal current.status then invalid_state else optimistic_conflict))
          else (
            insert a.auction_id (closed_row current a expected) r,
            ok (record a { version = add64 expected (pos 1) }),
          )
    ]
