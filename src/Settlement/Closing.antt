-- ===== src/Settlement/Closing.antt =====
-- What a hammer that is due leaves in the books.
use aieas_backend.Prelude.{
  ℕ, ◌<◌, pos, Bool, true, false, ◌&&◌, ◌||◌, if◌then◌else◌, Option, none, some, Time, ◌≡◌, ◌⊎◌,
  inl, inr, refl, ap, ◌∙◌, arith, lookup, insert, nat_eq, string_eq, is_empty, ltb_ℤ, add64,
  lookup-insert_self, Bool-cases, is_zero_time, before, str_eq, empty_iff,
}
use aieas_backend.Domain.Error.{Result, ok, err}
use aieas_backend.Domain.User.{is_admin, is_merchant}
use aieas_backend.Domain.Auction.{closed_won, status_eq, status_eq_iff}
use aieas_backend.Domain.Bid.{AuctionLot, HammerInput, HammerResult}
use aieas_backend.Order.Deal.{OrderDeal}
use aieas_backend.Realtime.Entry.{Entry}
use aieas_backend.Realtime.Hammer.{hammer}
use aieas_backend.Realtime.Hammer.Outcome.{hammer_due, hammer_winner}
use aieas_backend.Realtime.Store.{get_auction_state}
use aieas_backend.Settlement.Auctions.{Lots, closed_row}
use aieas_backend.Settlement.Deposits.{DepositLedger}
use aieas_backend.Settlement.Hammer.{
  Books, Answers, settle_lot, settle_rest, settle_won, settle_failed, checked_result, closed_lot,
  is_won, effective_end,
}
use aieas_backend.Settlement.Release.{Sound, after_release}
use aieas_backend.Settlement.Capture.{Sold}
use aieas_backend.Settlement.Sale.{
  is_open, HasOrder, settle_won-Sells, settle_failed-Releases, closes_lot,
}

-- A lot that is on auction, with its row in the books.
pub record OnAuction (b : Books) (a : AuctionLot) : Type 0 where
  pub at : lookup a.auction_id b.lots ≡ some a
  pub named : 0 < a.auction_id
  pub opened : is_open a ≡ true

-- What the books say of the lot once it is closed with a result.
abbrev pub Row : Books → AuctionLot → HammerInput → HammerResult → Type 0
Row b a i r = lookup a.auction_id b.lots ≡ some (closed_row a (closed_lot a i r) a.version)

-- The lot is sold: its row, its order, and the deposits.
abbrev pub IsSold :
    Books → Answers → AuctionLot → HammerInput → HammerResult → Books → OrderDeal → Type 0
IsSold b w a i r b' o =
    Row b' a i r
    × HasOrder b' a.auction_id r o
    × Sold b.deposits w.clock a.auction_id r.winner_id o.id b'.deposits

-- The lot is not sold: its row, no order, and the deposits.
abbrev pub IsUnsold : Books → Answers → AuctionLot → HammerInput → HammerResult → Books → Type 0
IsUnsold b w a i r b' =
    Row b' a i r
    × (b'.orders ≡ b.orders)
    × ((id : ℕ) (d : DepositLedger)
        → lookup id b.deposits.items ≡ some d
        → lookup id b'.deposits.items
          ≡ some (after_release w.clock a.auction_id "released_by_auction_failed" none d))

-- settle_lot, by what CloseWithVersion answers.
abbrev rest_of :
    Books
    → Answers
    → HammerInput
    → HammerResult
    → Lots × Result AuctionLot
    → Books × Result (HammerResult × Option OrderDeal)
rest_of b w i r (lots, outcome) = elim outcome [
  | err e ↦ (record b { lots = lots }, err e)
  | ok stored ↦ settle_rest (record b { lots = lots }) w stored i r
]

if_true : {A : Type 0} {t : Bool} (x y : A) → t ≡ true → (if t then x else y) ≡ x
if_true x y h = rw h refl

if_false : {A : Type 0} {t : Bool} (x y : A) → t ≡ false → (if t then x else y) ≡ y
if_false x y h = rw h refl

abbrev with_result :
    HammerResult
    → Books × Result (Option OrderDeal)
    → Books × Result (HammerResult × Option OrderDeal)
with_result r (after, order) = elim order [ err e ↦ (after, err e) | ok o ↦ (after, ok (r, o)) ]

rest_sold :
    (b b' : Books) (w : Answers) (a : AuctionLot) (i : HammerInput) (r : HammerResult)
    (o : OrderDeal)
    → is_won r ≡ true
    → settle_won b w a i r ≡ (b', ok (some o))
    → settle_rest b w a i r ≡ (b', ok (r, some o))
unfolding settle_rest
rest_sold b b' w a i r o won same =
    ap (with_result r) (if_true (settle_won b w a i r) (settle_failed b w a) won ∙ same)

rest_unsold :
    (b b' : Books) (w : Answers) (a : AuctionLot) (i : HammerInput) (r : HammerResult)
    → is_won r ≡ false
    → settle_failed b w a ≡ (b', ok none)
    → settle_rest b w a i r ≡ (b', ok (r, none))
unfolding settle_rest
rest_unsold b b' w a i r lost same =
    ap (with_result r) (if_false (settle_won b w a i r) (settle_failed b w a) lost ∙ same)

module _ (b : Books) (w : Answers) (i : HammerInput) (a : AuctionLot) (r : HammerResult)
    (lot : OnAuction b a) (sound : Sound b.deposits) where
  abbrev closed_books : Books
  closed_books = record b {
    lots = insert a.auction_id (closed_row a (closed_lot a i r) a.version) b.lots;
  }

  abbrev stored_lot : AuctionLot
  stored_lot = record (closed_lot a i r) { version = add64 a.version (pos 1) }

  settle_lot_opens : settle_lot b w a i r ≡ settle_rest closed_books w stored_lot i r
  unfolding settle_lot
  settle_lot_opens =
      ap (rest_of b w i r) (closes_lot b.lots a (closed_lot a i r) lot.at lot.named lot.opened)

  pub settle-IsSold :
      (n : ℕ)
      → is_won r ≡ true
      → w.order_id ≡ ok n
      → lookup a.auction_id b.orders.by_auction ≡ none
      → (b' : Books) × (o : OrderDeal) × (settle_lot b w a i r ≡ (b', ok (r, some o)))
        × IsSold b w a i r b' o
  settle-IsSold n won gives fresh =
      let (b', o, same, lots, has, sold) =
        settle_won-Sells closed_books w stored_lot i r n gives sound fresh in
      let row : Row b' a i r =
        ap (λ l. lookup a.auction_id l) lots
        ∙ lookup-insert_self a.auction_id (closed_row a (closed_lot a i r) a.version) b.lots in
      (
        b',
        o,
        settle_lot_opens ∙ rest_sold closed_books b' w stored_lot i r o won same,
        (row, has, sold),
      )

  pub settle-IsUnsold :
      is_won r ≡ false
      → (b' : Books) × (settle_lot b w a i r ≡ (b', ok (r, none))) × IsUnsold b w a i r b'
  settle-IsUnsold lost =
      let (ledger, same, each) = settle_failed-Releases closed_books w stored_lot sound in
      let b' : Books = record closed_books { deposits = ledger } in
      (
        b',
        settle_lot_opens ∙ rest_unsold closed_books b' w stored_lot i r lost same,
        (
          lookup-insert_self a.auction_id (closed_row a (closed_lot a i r) a.version) b.lots,
          refl,
          each,
        ),
      )

-- A hammer that is due: its actor may close the lot, the store has the auction, which no hammer has
-- decided, and the time has come or the hammer is forced.
pub record Due (b : Books) (i : HammerInput) (a : AuctionLot) (e : Entry) : Type 0 where
  pub lot : OnAuction b a
  pub own : a.auction_id ≡ i.auction_id
  pub may_close :
      (is_admin i.actor_role || (is_merchant i.actor_role && str_eq i.actor_id a.seller_id)) ≡ true
  pub stored : lookup i.auction_id b.store ≡ some e
  pub undecided : e.hammer_result ≡ none
  pub timed : is_zero_time i.now ≡ false
  pub come : (i.force ≡ true) ⊎ (before i.now (effective_end b a) ≡ false)

-- The result that the realtime store gives it.
abbrev pub judged : Answers → HammerInput → AuctionLot → Entry → HammerInput
judged w i a e = record i { reserve_price = a.reserve_price }

-- A time that is not before the effective end is not before that of the state.
not_before_end :
    (now end_time other : Time)
    → before now (if is_zero_time end_time then other else end_time) ≡ false
    → before now end_time ≡ false
not_before_end now end_time other h = ground arith

pub decided_hammer :
    (b : Books) (w : Answers) (i : HammerInput) (a : AuctionLot) (e : Entry)
    → Due b i a e
    → (r : HammerResult) × ((hammer e w.clock (judged w i a e)).1 ≡ ok r)
unfolding effective_end get_auction_state
decided_hammer b w i a e v = hammer_due e w.clock (judged w i a e) v.undecided (elim v.come [
  | inl forced ↦ inl forced
  | inr late ↦
      let here : lookup a.auction_id b.store ≡ some e =
        ap (λ x. lookup x b.store) v.own ∙ v.stored in
      let late' = rw (effective_end, get_auction_state, here) at late in
      inr (rw v.timed (not_before_end i.now e.state.end_time a.end_time late'))
])

pub kept_result :
    (w : Answers) (i : HammerInput) (a : AuctionLot) (e : Entry) (r : HammerResult)
    → e.hammer_result ≡ none
    → (hammer e w.clock (judged w i a e)).1 ≡ ok r
    → checked_result a r ≡ r
unfolding checked_result status_eq
kept_result w i a e r u h =
    let (won, winner, lost) = hammer_winner e w.clock (judged w i a e) r u h in
    elim (Bool-cases (status_eq r.status closed_won)) [
      | inr other ↦ rw other refl
      | inl same ↦
          let is_closed_won = (status_eq_iff r.status closed_won).0 same in
          let (leader, reserve) = won.0 is_closed_won in
          let (named, priced) = winner is_closed_won in
          let full : is_empty r.winner_id ≡ false =
            rw named (ground (arith, leader, (empty_iff e.state.leader_bidder_id).0)) in
          let enough : ltb_ℤ r.price a.reserve_price ≡ false =
            rw priced (ground (arith, reserve)) in
          rw (same, full, enough) refl
    ]
