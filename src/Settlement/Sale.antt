-- ===== src/Settlement/Sale.antt =====
-- The transaction of a lot that is sold, and of one that is not.
use aieas_backend.Prelude.{
  ℕ, ◌+◌, ◌%◌, two_64, ◌<◌, pos, Bool, true, false, ◌==◌, ==_iff, if◌then◌else◌, none, some, [],
  ◌∷◌, ◌≡◌, refl, ap, ◌∙◌, arith, lookup, insert, nat_eq, string_eq, eqb_ℤ, add64,
  lookup-insert_self,
}
use aieas_backend.Domain.Error.{ok}
use aieas_backend.Domain.Auction.{running, extended, hammer_pending}
use aieas_backend.Domain.Bid.{AuctionLot, HammerInput, HammerResult}
use aieas_backend.Order.Deal.{OrderDeal, normalize_fulfillment_status}
use aieas_backend.Order.Repository.{
  OrderRepository, create_if_absent_by_auction, find_by_auction_id, new_order, clone_order,
  get_order,
}
use aieas_backend.Settlement.Auctions.{Lots, close_with_version, closed_row, status_in_list}
use aieas_backend.Settlement.Hammer.{
  Books, Answers, settle_won, settle_deposits, settle_failed, deal_order, capture_deposit,
  release_deposits,
}
use aieas_backend.Settlement.Deposits.{DepositLedger, DepositRepository}
use aieas_backend.Settlement.Release.{Sound, after_release, release_deposits_each}
use aieas_backend.Settlement.Capture.{Sold, capture-release}

-- The statuses from which a lot is closed.
abbrev pub is_open : AuctionLot → Bool
is_open a = status_in_list a.status (running ∷ extended ∷ hammer_pending ∷ [])

-- The order of the lot in the books.
abbrev pub HasOrder : Books → ℕ → HammerResult → OrderDeal → Type 0
HasOrder b auction_id r o =
    (find_by_auction_id b.orders auction_id ≡ ok o)
    × (o.winner_id ≡ r.winner_id)
    × (o.deal_price ≡ r.price)
    × (o.auction_id ≡ auction_id)

order_found :
    (r : OrderRepository) (a id : ℕ) (o : OrderDeal)
    → lookup a r.by_auction ≡ some id
    → lookup id r.orders ≡ some o
    → find_by_auction_id r a ≡ ok (clone_order o)
unfolding find_by_auction_id
order_found r a id o here there =
    let got : get_order r id ≡ o = rw (there, get_order) refl in
    rw (here, find_by_auction_id) (ap (λ x. ok (clone_order x)) got)

-- A new order is found under its lot.
created_order :
    (b : Books) (w : Answers) (current : AuctionLot) (i : HammerInput) (r : HammerResult) (n : ℕ)
    → lookup current.auction_id b.orders.by_auction ≡ none
    → let o = deal_order current i r w n in
      let o' = clone_order (new_order b.orders w.clock o) in
      let (orders, stored, is_new) = create_if_absent_by_auction b.orders w.clock o in
      (stored ≡ o') × (find_by_auction_id orders current.auction_id ≡ ok o')
unfolding create_if_absent_by_auction new_order clone_order find_by_auction_id
    normalize_fulfillment_status
created_order b w current i r n fresh =
    let n' = new_order b.orders w.clock (deal_order current i r w n) in
    let o' = clone_order n' in
    let a = current.auction_id in
    let here : lookup a (insert a n'.id b.orders.by_auction) ≡ some n'.id =
      lookup-insert_self a n'.id b.orders.by_auction in
    let there : lookup n'.id (insert n'.id o' b.orders.orders) ≡ some o' =
      lookup-insert_self n'.id o' b.orders.orders in
    rw (fresh, create_if_absent_by_auction)
      (
        refl,
        order_found
            (record {
              next = if n == 0 then (b.orders.next + 1) % two_64 else b.orders.next;
              orders = insert n'.id o' b.orders.orders;
              by_auction = insert a n'.id b.orders.by_auction;
            })
            a n'.id o' here there,
      )

settle_deposits-Sells :
    (b : Books) (w : Answers) (current : AuctionLot) (r : HammerResult) (o : OrderDeal)
    → Sound b.deposits
    → (ledger : DepositRepository) × (settle_deposits b w current r o
        ≡ (record b { deposits = ledger }, ok (some o)))
      × Sold b.deposits w.clock current.auction_id r.winner_id o.id ledger
unfolding settle_deposits
settle_deposits-Sells b w current r o v =
    let (fine, fine', sold) =
      capture-release b.deposits w.clock current.auction_id r.winner_id o.id v in
    let held = capture_deposit b.deposits w.clock current.auction_id r.winner_id o.id in
    let after =
      release_deposits held.0 w.clock current.auction_id "released_by_hammer" (some r.winner_id) in
    (after.0, rw (settle_deposits, fine, fine') refl, sold)

pub settle_won-Sells :
    (b : Books) (w : Answers) (current : AuctionLot) (i : HammerInput) (r : HammerResult) (n : ℕ)
    → w.order_id ≡ ok n
    → Sound b.deposits
    → lookup current.auction_id b.orders.by_auction ≡ none
    → (b' : Books) × (o : OrderDeal) × (settle_won b w current i r ≡ (b', ok (some o)))
      × (b'.lots ≡ b.lots)
      × HasOrder b' current.auction_id r o
      × Sold b.deposits w.clock current.auction_id r.winner_id o.id b'.deposits
unfolding settle_won
settle_won-Sells b w current i r n gives v fresh =
    let c = create_if_absent_by_auction b.orders w.clock (deal_order current i r w n) in
    let o' = clone_order (new_order b.orders w.clock (deal_order current i r w n)) in
    let (stored, found) = created_order b w current i r n fresh in
    let opens : settle_won b w current i r
        ≡ settle_deposits (record b { orders = c.0 }) w current r c.1 =
      rw (gives, settle_won) refl in
    let (ledger, same, sold) = settle_deposits-Sells (record b { orders = c.0 }) w current r o' v in
    (
      record b { orders = c.0; deposits = ledger },
      o',
      opens ∙ ap (settle_deposits (record b { orders = c.0 }) w current r) stored ∙ same,
      refl,
      (
        found,
        (unfold new_order clone_order in refl),
        (unfold new_order clone_order in refl),
        (unfold new_order clone_order in refl),
      ),
      sold,
    )

pub settle_failed-Releases :
    (b : Books) (w : Answers) (current : AuctionLot)
    → Sound b.deposits
    → (ledger : DepositRepository) × (settle_failed b w current
        ≡ (record b { deposits = ledger }, ok none))
      × ((id : ℕ) (d : DepositLedger)
          → lookup id b.deposits.items ≡ some d
          → lookup id ledger.items
            ≡ some (after_release w.clock current.auction_id "released_by_auction_failed" none d))
unfolding settle_failed
settle_failed-Releases b w current v =
    let (fine, each) =
      release_deposits_each b.deposits w.clock current.auction_id "released_by_auction_failed" none
        v in
    let after =
      release_deposits b.deposits w.clock current.auction_id "released_by_auction_failed" none in
    (after.0, rw (settle_failed, fine) refl, each)

pub closes_lot :
    (r : Lots) (current lot : AuctionLot)
    → lookup lot.auction_id r ≡ some current
    → 0 < lot.auction_id
    → is_open current ≡ true
    → close_with_version r lot current.version (running ∷ extended ∷ hammer_pending ∷ []) ≡ (
      insert lot.auction_id (closed_row current lot current.version) r,
      ok (record lot { version = add64 current.version (pos 1) }),
    )
unfolding close_with_version
closes_lot r current lot at positive open_status =
    let named : (lot.auction_id == 0) ≡ false = ground (arith, ==_iff lot.auction_id 0) in
    let same : eqb_ℤ current.version current.version ≡ true = ground arith in
    rw (named, at, same, open_status, close_with_version) refl
