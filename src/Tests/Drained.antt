-- ===== src/Tests/Drained.antt =====
-- A hammer that marks its lot, waits for the bids in flight and then closes the lot.
use aieas_backend.Prelude.{◌+◌, pos, false, none, Option, [], nat_eq, string_eq}
use aieas_backend.Domain.Error.{ok, err}
use aieas_backend.Domain.Auction.{closed_failed, is_terminal, can_transition_auction}
use aieas_backend.Domain.Bid.{HammerInput, HammerResult}
use aieas_backend.Order.Deal.{OrderDeal}
use aieas_backend.Async.Coordinator.{new_coordinator}
use aieas_backend.Async.Barrier.{Gate, Moment, new_gate, open_gate, close_gate}
use aieas_backend.Settlement.Hammer.{
  Books, hammer_internal, close_lot, verdict, settle, release_each,
}
use aieas_backend.Settlement.Pending.{
  Wait, Hammered, begin_hammer_pending, hammer_with_drain, begin_read, mark_pending,
  drain_and_finalize, is_early,
}
use aieas_backend.Settlement.Deposits.{find_by_auction_user, update_deposit}
use aieas_backend.Tests.Data.{hammer_input}
use aieas_backend.Tests.Pending.{running_pending}
use aieas_backend.Realtime.Store.{hammer_auction}
use aieas_backend.Settlement.Auctions.{find_lot, close_with_version}
use aieas_backend.Tests.Settled.{running_settlement, books, answers, cheap_lot}

-- Opens what the witnesses compute with.
unfoldable opening : Unit {0}
unfolding running_settlement running_pending begin_hammer_pending hammer_with_drain begin_read
    mark_pending drain_and_finalize can_transition_auction is_terminal is_early find_lot
    close_with_version hammer_internal close_lot verdict hammer_auction open_gate settle
    find_by_auction_user update_deposit release_each
opening = tt

abbrev gate : Gate
gate = new_gate (pos 200)

abbrev before_hammer : Books
before_hammer = books cheap_lot

-- An hour after the lot has ended.
abbrev input : HammerInput
input = record hammer_input { now = 63903600000000000000 }

abbrev moment : Moment
moment = record {
  now = answers.clock + 200;
  coordinator = new_coordinator (pos 2) (pos 0) (pos 1);
  gate = close_gate gate answers.clock 7;
}

abbrev wait : Wait
wait = record {
  start = answers.clock;
  max_wait = pos 1000;
  first = moment;
  signals = [];
  books = record before_hammer {
    lots = (begin_hammer_pending before_hammer before_hammer.lots gate answers input).0;
  };
}

abbrev drained : Hammered
drained = hammer_with_drain before_hammer before_hammer.lots gate answers wait answers input

abbrev answer : HammerResult × Option OrderDeal
answer = elim ((hammer_internal wait.books answers input).1) [
  | ok x ↦ x
  | err e ↦ (
    record {
      request_id = "";
      auction_id = 0;
      status = closed_failed;
      winner_id = "";
      price = pos 0;
      duplicate = false;
      closed_at = 0;
      version = pos 0;
    },
    none,
  )
]
