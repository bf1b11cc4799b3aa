-- ===== src/Settlement/Outcome.antt =====
-- What hammerInternal answers and leaves where a hammer is due.
use aieas_backend.Prelude.{
  ℕ, String, true, false, not, ◌&&◌, ◌==◌, ==_iff, none, some, ◌≡◌, ◌≢◌, ◌⊎◌, inl, inr, refl, sym,
  ap, ◌∙◌, arith, lookup, insert, nat_eq, string_eq, ◌≤ℤ◌, ◌<ℤ◌, before,
}
use aieas_backend.Domain.Error.{ok}
use aieas_backend.Domain.Auction.{
  running, extended, hammer_pending, closed_won, closed_failed, status_eq_iff, is_terminal,
}
use aieas_backend.Domain.Bid.{AuctionLot, HammerInput, HammerResult}
use aieas_backend.Order.Deal.{OrderDeal}
use aieas_backend.Realtime.Entry.{Entry}
use aieas_backend.Realtime.Hammer.{hammer}
use aieas_backend.Realtime.Hammer.Outcome.{hammer_winner}
use aieas_backend.Realtime.Store.{hammer_auction}
use aieas_backend.Settlement.Auctions.{find_lot}
use aieas_backend.Settlement.Hammer.{
  Books, Answers, settle, settle_lot, checked_result, verdict, effective_end, existing_close_result,
  close_lot, hammer_internal,
}
use aieas_backend.Settlement.Release.{Sound}
use aieas_backend.Settlement.Sale.{is_open}
use aieas_backend.Settlement.Hammer.{close_judged, judged_by, answered, complete_input}
use aieas_backend.Settlement.Closing.{
  OnAuction, Due, IsSold, IsUnsold, judged, decided_hammer, kept_result, settle-IsSold,
  settle-IsUnsold,
}

abbrev books_after : Books → Answers → HammerInput → AuctionLot → Entry → Books
books_after b w i a e = record b {
  store = insert i.auction_id (hammer e w.clock (judged w i a e)).0 b.store;
}

verdict_given :
    (b : Books) (w : Answers) (i : HammerInput) (a : AuctionLot) (e : Entry) (r : HammerResult)
    → Due b i a e
    → (hammer e w.clock (judged w i a e)).1 ≡ ok r
    → verdict b w a (judged w i a e) ≡ (books_after b w i a e, ok r)
unfolding verdict hammer_auction
verdict_given b w i a e r v h =
    let given : hammer_auction b.store w.clock (judged w i a e)
        ≡ (insert i.auction_id (hammer e w.clock (judged w i a e)).0 b.store, ok r) =
      rw (v.stored, hammer_auction, h) refl in
    ap (judged_by b w a (judged w i a e)) given

settle_found :
    (b : Books) (w : Answers) (i : HammerInput) (a : AuctionLot) (r : HammerResult)
    → lookup i.auction_id b.lots ≡ some a
    → checked_result a r ≡ r
    → settle b w i r ≡ settle_lot b w a i r
unfolding settle find_lot
settle_found b w i a r at kept =
    let opens : settle b w i r ≡ settle_lot b w a i (checked_result a r) =
      rw (at, settle, find_lot) refl in
    opens ∙ ap (settle_lot b w a i) kept

open_not_closed : (a : AuctionLot) → is_open a ≡ true → is_terminal a.status ≡ false
unfolding is_terminal
open_not_closed a h = ground (
  arith,
  status_eq_iff running a.status,
  status_eq_iff extended a.status,
  status_eq_iff hammer_pending a.status,
)

no_close_result :
    (b : Books) (w : Answers) (a : AuctionLot) (id : String)
    → is_open a ≡ true
    → existing_close_result b w a id ≡ none
unfolding existing_close_result
no_close_result b w a id h = rw (open_not_closed a h, existing_close_result) refl

close_lot_judges :
    (b : Books) (w : Answers) (i : HammerInput) (a : AuctionLot) (e : Entry)
    → Due b i a e
    → close_lot b w a i ≡ close_judged w (judged w i a e) (verdict b w a (judged w i a e))
unfolding close_lot
close_lot_judges b w i a e v =
    let nothing = no_close_result b w a i.request_id v.lot.opened in
    let on_time : (not i.force && before i.now (effective_end b a)) ≡ false =
      ground (arith, v.come) in
    rw (v.may_close, nothing, on_time, close_lot) refl

hammer_internal_closes :
    (b : Books) (w : Answers) (given : HammerInput) (a : AuctionLot) (e : Entry)
    → let i = complete_input w given in Due b i a e → hammer_internal b w given ≡ close_lot b w a i
unfolding hammer_internal find_lot
hammer_internal_closes b w given a e v =
    let at : lookup given.auction_id b.lots ≡ some a =
      ap (λ x. lookup x b.lots) (sym v.own) ∙ v.lot.at in
    let named : (given.auction_id == 0) ≡ false =
      ground (arith, ==_iff given.auction_id 0, v.own, v.lot.named) in
    rw (named, at, hammer_internal, find_lot) refl

-- A due hammer, up to what the transaction does with the verdict.
judged_result :
    (b : Books) (w : Answers) (given : HammerInput) (a : AuctionLot) (e : Entry) (r : HammerResult)
    → let i = complete_input w given in
      Due b i a e
      → (hammer e w.clock (judged w i a e)).1 ≡ ok r
      → hammer_internal b w given
        ≡ answered w (judged w i a e) (settle_lot (books_after b w i a e) w a (judged w i a e) r)
judged_result b w given a e r v h =
    let i = complete_input w given in
    let at : lookup i.auction_id b.lots ≡ some a =
      ap (λ x. lookup x b.lots) (sym v.own) ∙ v.lot.at in
    hammer_internal_closes b w given a e v
    ∙ close_lot_judges b w i a e v
    ∙ ap (close_judged w (judged w i a e)) (verdict_given b w i a e r v h)
    ∙ ap (answered w (judged w i a e)) (
        settle_found (books_after b w i a e) w (judged w i a e) a r at
          (kept_result w i a e r v.undecided h))

-- A hammer succeeds where its lot is in the books as running, extended or pending under an id that is
-- not 0, its actor is an admin or the lot's seller, the store has the auction without a hammer
-- result, the request with the clock's time is forced or not before the auction's end, the ledger is
-- sound, the lot has no order and an id for one is given, and the auction has a leader at a price that
-- meets the reserve. The lot is then closed as won by the leader at the current price, its order is
-- in the books with that winner and price, the winner's deposit is captured for that order, the other
-- ready or pending deposits on the lot are released, and all others stay as they were.
pub hammer_sells :
    (b : Books) (w : Answers) (given : HammerInput) (a : AuctionLot) (e : Entry) (n : ℕ)
    → Due b (complete_input w given) a e
    → Sound b.deposits
    → e.state.leader_bidder_id ≢ ""
    → a.reserve_price ≤ℤ e.state.current_price
    → w.order_id ≡ ok n
    → lookup a.auction_id b.orders.by_auction ≡ none
    → (b' : Books) × (r : HammerResult) × (o : OrderDeal) × (hammer_internal b w given
        ≡ (b', ok (r, some o)))
      × (r.status ≡ closed_won)
      × (r.winner_id ≡ e.state.leader_bidder_id)
      × (r.price ≡ e.state.current_price)
      × IsSold b w a given r b' o
hammer_sells b w given a e n v sound leader reserve gives fresh =
    let i = complete_input w given in
    let (r, h) = decided_hammer b w i a e v in
    let (won, winner, _) = hammer_winner e w.clock (judged w i a e) r v.undecided h in
    let is_closed_won = won.1 (leader, reserve) in
    let (named, priced) = winner is_closed_won in
    let lot : OnAuction (books_after b w i a e) a = record {
      at = v.lot.at;
      named = v.lot.named;
      opened = v.lot.opened;
    } in
    let (b', o, same, sold) =
      settle-IsSold (books_after b w i a e) w (judged w i a e) a r lot sound n
        ((status_eq_iff r.status closed_won).1 is_closed_won) gives fresh in
    (
      b',
      r,
      o,
      judged_result b w given a e r v h ∙ ap (answered w (judged w i a e)) same,
      is_closed_won,
      named,
      priced,
      sold,
    )

-- A hammer succeeds where its lot is in the books as running, extended or pending under an id that is
-- not 0, its actor is an admin or the lot's seller, the store has the auction without a hammer
-- result, the request with the clock's time is forced or not before the auction's end, the ledger is
-- sound, and the auction has no leader or a price below the reserve. The lot is then closed as failed
-- with no winner, the orders stay, the ready or pending deposits on the lot are released, and all
-- others stay as they were.
pub hammer_fails :
    (b : Books) (w : Answers) (given : HammerInput) (a : AuctionLot) (e : Entry)
    → Due b (complete_input w given) a e
    → Sound b.deposits
    → (e.state.leader_bidder_id ≡ "") ⊎ (e.state.current_price <ℤ a.reserve_price)
    → (b' : Books) × (r : HammerResult) × (hammer_internal b w given ≡ (b', ok (r, none)))
      × (r.status ≡ closed_failed)
      × (r.winner_id ≡ "")
      × IsUnsold b w a given r b'
hammer_fails b w given a e v sound none_wins =
    let i = complete_input w given in
    let (r, h) = decided_hammer b w i a e v in
    let (won, _, lost) = hammer_winner e w.clock (judged w i a e) r v.undecided h in
    let not_won : r.status ≢ closed_won = λ q.
      let (leader, reserve) = won.0 q in
      elim none_wins [ inl nobody ↦ leader nobody | inr low ↦ omega (arith, low, reserve) ] in
    let (failed, nobody) = lost not_won in
    let lot : OnAuction (books_after b w i a e) a = record {
      at = v.lot.at;
      named = v.lot.named;
      opened = v.lot.opened;
    } in
    let (b', same, unsold) =
      settle-IsUnsold (books_after b w i a e) w (judged w i a e) a r lot sound
        (ground (arith, not_won, status_eq_iff r.status closed_won)) in
    (
      b',
      r,
      judged_result b w given a e r v h ∙ ap (answered w (judged w i a e)) same,
      failed,
      nobody,
      unsold,
    )
