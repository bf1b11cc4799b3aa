-- ===== src/Settlement/Hammer.antt =====
-- hammerInternal of HammerService, internal/modules/auction/app/hammer_service.go. What the service
-- asks of others is a record of their answers: the id generator, the query of the bid records, the
-- JSON of a snapshot, the clock. The transaction manager runs its body; the memory repositories undo
-- nothing. What follows the transaction only tells others: counters, events, metrics, the callback.
use aieas_backend.Prelude.{
  ℕ, ◌+◌, ℤ, pos, pos_part, String, Bool, true, false, not, ◌&&◌, ◌||◌, ◌==◌, if◌then◌else◌, Option,
  none, some, List, [], ◌∷◌, Time, is_zero_time, before, is_empty, str_eq, ltb_ℤ, add64, trim_space,
}
use aieas_backend.Domain.Error.{
  Error, invalid_argument, not_found, forbidden, invalid_state, Result, ok, err,
}
use aieas_backend.Domain.User.{is_admin, is_merchant}
use aieas_backend.Domain.Auction.{
  running, extended, hammer_pending, closed_won, closed_failed, status_eq, is_terminal,
}
use aieas_backend.Domain.Bid.{AuctionLot, HammerInput, HammerResult}
use aieas_backend.Order.Deal.{OrderDeal, created, unpaid, other_fulfillment}
use aieas_backend.Order.Repository.{
  OrderRepository, create_if_absent_by_auction, find_by_auction_id,
}
use aieas_backend.Realtime.Store.{Store, get_auction_state, hammer_auction}
use aieas_backend.Settlement.Auctions.{Lots, find_lot, close_with_version}
use aieas_backend.Settlement.Deposits.{
  DepositStatus, deposit_pending, deposit_ready, deposit_captured, deposit_released, DepositLedger,
  DepositRepository, find_by_auction_user, list_by_auction, update_deposit,
}

-- The repositories and the realtime store behind the service.
pub record Books : Type 0 where
  pub lots : Lots
  pub orders : OrderRepository
  pub deposits : DepositRepository
  pub store : Store

-- The answers of what is outside.
pub record Answers : Type 0 where
  -- time.Now
  pub clock : Time
  -- the id that a request without one gets
  pub request_id : String
  -- NextOrderID; 0 without a generator
  pub order_id : Result ℕ
  -- the bidder and the price of the best bid record of the round, in the repository's order
  pub top_record : Result (Option (String × ℤ))
  -- buildLotDealSnapshot, by json.Marshal
  pub snapshot : AuctionLot → ℤ → String → Time → List ℕ
  pub pay_timeout : ℤ

-- `deposit.Status != READY && deposit.Status != PENDING`, negated
abbrev pub is_releasable : DepositStatus → Bool
is_releasable deposit_ready = true
is_releasable deposit_pending = true
is_releasable _ = false

abbrev pub is_user : String → Option String → Bool
is_user user none = false
is_user user (some winner) = str_eq user winner

abbrev pub released : String → DepositLedger → DepositLedger
released remark d = record d { status = deposit_released; related_order_id = none; remark = remark }

-- The loop of releaseDeposits.
unfoldable pub release_each :
    DepositRepository
    → Time
    → List DepositLedger
    → String
    → Option String
    → DepositRepository × Option Error
release_each r now [] remark winner = (r, none)
release_each r now (d ∷ l) remark winner =
    if is_user d.user_id winner || not (is_releasable d.status)
    then release_each r now l remark winner
    else elim ((update_deposit r now (released remark d)).1) [
      | some e ↦ ((update_deposit r now (released remark d)).0, some e)
      | none ↦ release_each (update_deposit r now (released remark d)).0 now l remark winner
    ]

-- releaseDeposits
unfoldable pub release_deposits :
    DepositRepository → Time → ℕ → String → Option String → DepositRepository × Option Error
unfolding list_by_auction
release_deposits r now auction_id remark winner =
    release_each r now (list_by_auction r auction_id) remark winner

-- `result`, where its winner or its price does not do.
unfoldable pub checked_result : AuctionLot → HammerResult → HammerResult
unfolding status_eq
checked_result current result =
    if status_eq result.status closed_won
      && (is_empty result.winner_id || ltb_ℤ result.price current.reserve_price)
    then record result { status = closed_failed; winner_id = ""; price = pos 0 }
    else result

abbrev pub is_won : HammerResult → Bool
is_won result = status_eq result.status closed_won

-- The lot that the transaction writes.
abbrev pub closed_lot : AuctionLot → HammerInput → HammerResult → AuctionLot
closed_lot current i result = record current {
  status = result.status;
  closed_at = some result.closed_at;
  closed_by = if is_empty i.closed_by then i.actor_id else i.closed_by;
  winner_id = if is_won result then some result.winner_id else none;
  deal_price = if is_won result then some result.price else none;
}

abbrev pub deal_order : AuctionLot → HammerInput → HammerResult → Answers → ℕ → OrderDeal
deal_order current i result w id = record {
  id = id;
  auction_id = current.auction_id;
  live_session_id = current.live_session_id;
  lot_snapshot = w.snapshot current result.price result.winner_id result.closed_at;
  winner_id = result.winner_id;
  winner_nickname = "";
  seller_id = current.seller_id;
  deal_price = result.price;
  deposit_amount = current.deposit_amount;
  status = created;
  pay_status = unpaid;
  fulfillment_status = other_fulfillment "";
  pay_deadline = some (i.now + pos_part w.pay_timeout);
  paid_at = none;
  shipped_at = none;
  received_at = none;
  closed_at = none;
  version = pos 0;
  created_at = i.now;
  updated_at = i.now;
}

-- The deposit of the winner, which becomes part of the payment.
unfoldable pub capture_deposit :
    DepositRepository → Time → ℕ → String → ℕ → DepositRepository × Option Error
capture_deposit r now auction_id winner order_id = elim (find_by_auction_user r auction_id winner) [
  | err _ ↦ (r, none)
  | ok d ↦ update_deposit r now (record d {
    status = deposit_captured;
    related_order_id = some order_id;
    remark = "captured_by_hammer";
  })
]

-- The deposits of a lot that is sold.
unfoldable pub settle_deposits :
    Books → Answers → AuctionLot → HammerResult → OrderDeal → Books × Result (Option OrderDeal)
unfolding capture_deposit release_deposits
settle_deposits b w current result order =
    let (captured, failure) =
      capture_deposit b.deposits w.clock current.auction_id result.winner_id order.id in
    let with_winner : Books = record b { deposits = captured } in
    let (rest, failure') =
      release_deposits captured w.clock current.auction_id "released_by_hammer"
        (some result.winner_id) in
    let settled : Books = record b { deposits = rest } in
    elim failure [
      | some e ↦ (with_winner, err e)
      | none ↦ elim failure' [ some e ↦ (settled, err e) | none ↦ (settled, ok (some order)) ]
    ]

-- The order and the deposits of a lot that is sold.
unfoldable pub settle_won :
    Books → Answers → AuctionLot → HammerInput → HammerResult → Books × Result (Option OrderDeal)
unfolding settle_deposits
settle_won b w current i result = elim w.order_id [
  | err e ↦ (b, err e)
  | ok id ↦
      let (orders, order, _) =
        create_if_absent_by_auction b.orders w.clock (deal_order current i result w id) in
      settle_deposits (record b { orders = orders }) w current result order
]

-- The deposits of a lot that is not sold.
unfoldable pub settle_failed : Books → Answers → AuctionLot → Books × Result (Option OrderDeal)
unfolding release_deposits
settle_failed b w current =
    let (rest, failure) =
      release_deposits b.deposits w.clock current.auction_id "released_by_auction_failed" none in
    let settled : Books = record b { deposits = rest } in
    elim failure [ some e ↦ (settled, err e) | none ↦ (settled, ok none) ]

-- The order and the deposits, once the lot is closed with a result.
unfoldable pub settle_rest :
    Books
    → Answers
    → AuctionLot
    → HammerInput
    → HammerResult
    → Books × Result (HammerResult × Option OrderDeal)
unfolding settle_won settle_failed
settle_rest b w stored i result =
    let (after, order) =
      if is_won result then settle_won b w stored i result else settle_failed b w stored in
    elim order [ err e ↦ (after, err e) | ok o ↦ (after, ok (result, o)) ]

-- The transaction from CloseWithVersion on.
unfoldable pub settle_lot :
    Books
    → Answers
    → AuctionLot
    → HammerInput
    → HammerResult
    → Books × Result (HammerResult × Option OrderDeal)
unfolding settle_rest
settle_lot b w current i result =
    let (lots, outcome) =
      close_with_version b.lots (closed_lot current i result) current.version
        (running ∷ extended ∷ hammer_pending ∷ []) in
    elim outcome [
      | err e ↦ (record b { lots = lots }, err e)
      | ok stored ↦ settle_rest (record b { lots = lots }) w stored i result
    ]

-- The body of the transaction.
unfoldable pub settle :
    Books → Answers → HammerInput → HammerResult → Books × Result (HammerResult × Option OrderDeal)
unfolding settle_lot checked_result
settle b w i result = elim (find_lot b.lots i.auction_id) [
  | err e ↦ (b, err e)
  | ok current ↦ settle_lot b w current i (checked_result current result)
]

-- existingCloseResult; none where the lot is not closed.
unfoldable pub existing_close_result :
    Books → Answers → AuctionLot → String → Option (HammerResult × Option OrderDeal)
unfolding is_terminal status_eq
existing_close_result b w a request_id =
    if not (is_terminal a.status)
    then none
    else some (
      record {
        request_id = request_id;
        auction_id = a.auction_id;
        status = a.status;
        winner_id = elim a.winner_id [ none ↦ "" | some u ↦ u ];
        price = elim a.deal_price [ none ↦ pos 0 | some p ↦ p ];
        duplicate = false;
        closed_at = elim a.closed_at [ none ↦ w.clock | some t ↦ t ];
        version = pos 0;
      },
      if status_eq a.status closed_won
          then elim (find_by_auction_id b.orders a.auction_id) [ ok o ↦ some o | err _ ↦ none ]
          else none,
    )

-- fallbackHammerFromBidRecords
unfoldable pub fallback_hammer : Answers → AuctionLot → HammerInput → Result HammerResult
fallback_hammer w a i =
    let lost : HammerResult = record {
      request_id = i.request_id;
      auction_id = a.auction_id;
      status = closed_failed;
      winner_id = "";
      price = pos 0;
      duplicate = false;
      closed_at = i.now;
      version = add64 a.version (pos 1);
    } in
    elim w.top_record [
      | err e ↦ err e
      | ok none ↦ ok lost
      | ok (some (bidder, price)) ↦
          if is_empty bidder || ltb_ℤ price a.reserve_price
          then ok lost
          else ok (record lost { status = closed_won; winner_id = bidder; price = price })
    ]

-- When the lot ends: the realtime state's time where there is one.
unfoldable pub effective_end : Books → AuctionLot → Time
effective_end b a = elim (get_auction_state b.store a.auction_id) [
  | none ↦ a.end_time
  | some s ↦ if is_zero_time s.end_time then a.end_time else s.end_time
]

-- The realtime store's verdict, or that of the bid records where the store does not know the lot.
abbrev pub judged_by :
    Books
    → Answers
    → AuctionLot
    → HammerInput
    → Store × Result HammerResult
    → Books × Result HammerResult
judged_by b w a i (store, answer) =
    let after : Books = record b { store = store } in
    elim answer [
      | ok r ↦ (after, ok r)
      | err not_found ↦
          (after, if before i.now (effective_end b a) then err not_found else fallback_hammer w a i)
      | err e ↦ (after, err e)
    ]

unfoldable pub verdict : Books → Answers → AuctionLot → HammerInput → Books × Result HammerResult
verdict b w a i = judged_by b w a i (hammer_auction b.store w.clock i)

-- How the service answers where the transaction has failed.
unfoldable pub after_failure :
    Books → Answers → HammerInput → Error → Result (HammerResult × Option OrderDeal)
unfolding existing_close_result
after_failure b w i invalid_state = elim (find_lot b.lots i.auction_id) [
  | err _ ↦ err invalid_state
  | ok a ↦ elim (existing_close_result b w a i.request_id) [
    | none ↦ err invalid_state
    | some (r, o) ↦ ok (record r { duplicate = true }, o)
  ]
]
after_failure b w i e = err e

-- How the service answers once the transaction is over.
abbrev pub answered :
    Answers
    → HammerInput
    → Books × Result (HammerResult × Option OrderDeal)
    → Books × Result (HammerResult × Option OrderDeal)
answered w i (after, outcome) = elim outcome [
  | ok x ↦ (after, ok x)
  | err e ↦ (after, after_failure after w i e)
]

-- The transaction, where there is a verdict.
abbrev pub close_judged :
    Answers
    → HammerInput
    → Books × Result HammerResult
    → Books × Result (HammerResult × Option OrderDeal)
close_judged w i (judged, answer) = elim answer [
  | err e ↦ (judged, err e)
  | ok r ↦ answered w i (settle judged w i r)
]

-- hammerInternal from the test of its actor on, for the lot and the input with its time.
unfoldable pub close_lot :
    Books → Answers → AuctionLot → HammerInput → Books × Result (HammerResult × Option OrderDeal)
unfolding existing_close_result effective_end verdict
close_lot b w a i =
    let input : HammerInput = record i { reserve_price = a.reserve_price } in
    let judged = close_judged w input (verdict b w a input) in
    if not (is_admin i.actor_role || (is_merchant i.actor_role && str_eq i.actor_id a.seller_id))
    then (b, err forbidden)
    else elim (existing_close_result b w a i.request_id) [
      | some (r, o) ↦ (b, ok (record r { duplicate = true }, o))
      | none ↦
          if not i.force && before i.now (effective_end b a) then (b, err invalid_state) else judged
    ]

-- The input with a request id and a time.
abbrev pub complete_input : Answers → HammerInput → HammerInput
complete_input w given = record given {
  request_id =
      if is_empty (trim_space given.request_id) then w.request_id else trim_space given.request_id;
  now = if is_zero_time given.now then w.clock else given.now;
}

-- hammerInternal
unfoldable pub hammer_internal :
    Books → Answers → HammerInput → Books × Result (HammerResult × Option OrderDeal)
unfolding close_lot
hammer_internal b w given =
    let i = complete_input w given in
    if i.auction_id == 0
    then (b, err invalid_argument)
    else elim (find_lot b.lots i.auction_id) [ err e ↦ (b, err e) | ok a ↦ close_lot b w a i ]
