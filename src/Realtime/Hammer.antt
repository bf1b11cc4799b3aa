-- ===== src/Realtime/Hammer.antt =====
-- Hammer on one auction of the store.
pub mod Outcome
pub mod Again
use aieas_backend.Prelude.{
  ℤ, pos, Bool, true, false, ◌&&◌, not, leb_ℤ, if◌then◌else◌, none, some, is_empty, add64, Time,
  is_zero_time, before, string_eq, nat_eq,
}
use aieas_backend.Domain.Error.{invalid_state, Result, ok, err}
use aieas_backend.Domain.Auction.{closed_won, closed_failed}
use aieas_backend.Domain.Bid.{AuctionState, HammerInput, HammerResult}
use aieas_backend.Realtime.Entry.{Entry}

-- Whom Hammer declares the winner, and the status that the auction gets.
abbrev pub has_winner : AuctionState → ℤ → Bool
has_winner s reserve_price =
    not (is_empty s.leader_bidder_id) && leb_ℤ reserve_price s.current_price

unfoldable pub hammer_outcome : AuctionState → HammerInput → Time → HammerResult
hammer_outcome s i now =
    let won = has_winner s i.reserve_price in
    record {
      request_id = i.request_id;
      auction_id = i.auction_id;
      status = if won then closed_won else closed_failed;
      winner_id = if won then s.leader_bidder_id else "";
      price = if won then s.current_price else pos 0;
      duplicate = false;
      closed_at = now;
      version = add64 s.version (pos 1);
    }

-- The entry that Hammer leaves behind when it decides.
abbrev pub hammered : Entry → HammerResult → Entry
hammered e r = record e {
  state = record (e.state) { status = r.status; version = r.version };
  hammer_result = some r;
}

abbrev pub hammer_time : HammerInput → Time → Time
hammer_time i clock = if is_zero_time i.now then clock else i.now

-- Hammer on an auction that has not been hammered.
unfoldable pub decide_hammer : Entry → Time → HammerInput → Entry × Result HammerResult
decide_hammer e now i =
    if not i.force && before now e.state.end_time
    then (e, err invalid_state)
    else let r = hammer_outcome e.state i now in (hammered e r, ok r)

-- Hammer on an auction that is there.
unfoldable pub hammer : Entry → Time → HammerInput → Entry × Result HammerResult
hammer e clock i = elim e.hammer_result [
  | some r ↦ (e, ok (record r { duplicate = true }))
  | none ↦ decide_hammer e (hammer_time i clock) i
]
