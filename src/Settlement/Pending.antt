-- ===== src/Settlement/Pending.antt =====
-- BeginHammerPending and hammerWithDrain of HammerService, internal/modules/auction/app/hammer_service.go,
-- with a gate and a barrier. Other handlers may write the books between the read of a lot and its
-- write, and while the barrier waits: the lots at the write and the books after the wait are
-- arguments. The frame to the clients and the metrics are left out.
use aieas_backend.Prelude.{
  ℕ, ℤ, Bool, true, false, not, ◌&&◌, ◌||◌, ◌==◌, if◌then◌else◌, Option, none, some, List, [], ◌∷◌,
  Time, is_zero_time, before, is_empty, str_eq,
}
use aieas_backend.Domain.Error.{Error, invalid_argument, forbidden, invalid_state, Result, ok, err}
use aieas_backend.Domain.User.{is_admin, is_merchant}
use aieas_backend.Domain.Auction.{
  running, extended, hammer_pending, settled, AuctionStatus, status_eq, is_terminal,
  can_transition_auction,
}
use aieas_backend.Domain.Bid.{AuctionLot, HammerInput, HammerResult}
use aieas_backend.Order.Deal.{OrderDeal}
use aieas_backend.Realtime.Store.{get_auction_state}
use aieas_backend.Async.Barrier.{Gate, Moment, Signal, close_gate, open_gate, wait_drain}
use aieas_backend.Settlement.Auctions.{Lots, find_lot, close_with_version}
use aieas_backend.Settlement.Hammer.{Books, Answers, complete_input, hammer_internal}

-- BeginHammerPendingResult
pub record BeginHammerPendingResult : Type 0 where
  pub already_closed : Bool
  pub already_pending : Bool
  pub transitioned_at : Time
  pub hammer_input : HammerInput

abbrev pub Begin : Type 0
Begin = Lots × Gate × Result BeginHammerPendingResult

abbrev pub begun : Bool → Bool → HammerInput → BeginHammerPendingResult
begun closed pending i = record {
  already_closed = closed;
  already_pending = pending;
  transitioned_at = i.now;
  hammer_input = i;
}

-- The lot that BeginHammerPending writes.
abbrev pub pending_lot : AuctionLot → HammerInput → AuctionLot
pending_lot a i = record a {
  status = hammer_pending;
  closed_by = if is_empty i.closed_by then a.closed_by else i.closed_by;
}

-- What a lot that is pending or closed already answers; `other` for the rest.
abbrev pub replayed : Lots → Gate → Time → AuctionStatus → HammerInput → Begin → Begin
replayed r g now status i other =
    if status_eq status hammer_pending
    then (r, close_gate g now i.auction_id, ok (begun false true i))
    else if is_terminal status || status_eq status settled
    then (r, g, ok (begun true false i))
    else other

-- BeginHammerPending where CloseWithVersion has failed.
unfoldable pub after_conflict : Lots → Gate → Time → HammerInput → Error → Begin
unfolding find_lot
after_conflict r g now i e = elim (find_lot r i.auction_id) [
  | err _ ↦ (r, g, err e)
  | ok existing ↦ replayed r g now existing.status i (r, g, err e)
]

-- What BeginHammerPending does with the answer of CloseWithVersion.
abbrev pub marked : Gate → Time → HammerInput → Lots × Result AuctionLot → Begin
marked g now i (lots, outcome) = elim outcome [
  | ok _ ↦ (lots, close_gate g now i.auction_id, ok (begun false false i))
  | err e ↦ after_conflict lots g now i e
]

-- The write of BeginHammerPending, for the lot that it has read.
unfoldable pub mark_pending : Lots → Gate → Time → AuctionLot → HammerInput → Begin
mark_pending r g now a i =
    marked g now i (close_with_version r (pending_lot a i) a.version (running ∷ extended ∷ []))

-- BeginHammerPending from the test of its actor on.
unfoldable pub begin_read : Lots → Gate → Time → AuctionLot → HammerInput → Begin
unfolding mark_pending
begin_read r g now a i =
    let written = mark_pending r g now a i in
    if not (is_admin i.actor_role || (is_merchant i.actor_role && str_eq i.actor_id a.seller_id))
    then (r, g, err forbidden)
    else replayed r g now a.status i (
        if can_transition_auction a.status hammer_pending
        then written
        else (r, g, err invalid_state))

-- Whether the realtime state says that the lot has not ended yet.
unfoldable pub is_early : Books → HammerInput → Bool
is_early b i = elim (get_auction_state b.store i.auction_id) [
  | none ↦ false
  | some s ↦ not i.force && not (is_zero_time s.end_time) && before i.now s.end_time
]

-- BeginHammerPending: the books at its read, and the lots at its write.
unfoldable pub begin_hammer_pending : Books → Lots → Gate → Answers → HammerInput → Begin
unfolding begin_read find_lot
begin_hammer_pending b r g w given =
    let i = complete_input w given in
    if i.auction_id == 0
    then (r, g, err invalid_argument)
    else if is_early b i
    then (r, g, err invalid_state)
    else elim (find_lot b.lots i.auction_id) [
      | err e ↦ (r, g, err e)
      | ok a ↦ begin_read r g w.clock a i
    ]

-- What the wait of a hammer finds: the clock at its start, the instants at which it looks, and the
-- books once it is over.
pub record Wait : Type 0 where
  pub start : Time
  pub max_wait : ℤ
  pub first : Moment
  pub signals : List Signal
  pub books : Books

abbrev pub Hammered : Type 0
Hammered = Books × Gate × Option (Result (HammerResult × Option OrderDeal))

-- hammerInternal and then the gate.
abbrev pub finalize : Gate → Books → Answers → ℕ → HammerInput → Hammered
finalize g b w id i =
    let (after, answer) = hammer_internal b w i in (after, open_gate g id, some answer)

-- hammerWithDrain, by what the barrier answers.
abbrev pub after_wait : Books → Answers → ℕ → HammerInput → Gate × Option Bool → Hammered
after_wait b w id i (g, drained) = elim drained [
  | none ↦ (b, g, none)
  | some false ↦ (b, g, some (err invalid_state))
  | some true ↦ finalize g b w id i
]

-- hammerWithDrain once the lot is pending.
unfoldable pub drain_and_finalize : Gate → Answers → Wait → ℕ → HammerInput → Hammered
drain_and_finalize g w wait id i =
    after_wait wait.books w id i (wait_drain g wait.start id wait.max_wait wait.first wait.signals)

-- hammerWithDrain, by what BeginHammerPending answers.
abbrev pub after_begin : Books → Answers → Wait → ℕ → Begin → Hammered
after_begin b w wait id (lots, gate, answer) =
    let after : Books = record b { lots = lots } in
    elim answer [
      | err e ↦ (after, gate, some (err e))
      | ok p ↦
          if p.already_closed
          then finalize gate after w id p.hammer_input
          else drain_and_finalize gate w wait id p.hammer_input
    ]

-- hammerWithDrain; its answer is none while it still waits.
unfoldable pub hammer_with_drain :
    Books → Lots → Gate → Answers → Wait → Answers → HammerInput → Hammered
unfolding begin_hammer_pending drain_and_finalize
hammer_with_drain b r g w wait later given =
    after_begin b later wait given.auction_id (begin_hammer_pending b r g w given)
