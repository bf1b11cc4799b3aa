-- ===== src/Order/Repository.antt =====
-- The memory repository of internal/modules/order/repository/repository.go. `now` is the clock's
-- answer inside the operation; an order that is passed by address and changed is a second result.
use aieas_backend.Prelude.{
  ℕ, ℤ, pos, Bool, true, false, ◌||◌, not, if◌then◌else◌, none, some, ◌==◌, List, [], ◌∷◌, Time,
  is_zero_time, add64, eqb_ℤ, lookup, insert, two_64, ◌+◌, ◌%◌, nat_eq,
}
use aieas_backend.Domain.Error.{
  invalid_state, invalid_argument, not_found, optimistic_conflict, Result, ok, err,
}
use aieas_backend.Order.Deal.{
  OrderStatus, other_status, other_pay, other_fulfillment, FulfillmentStatus, received, OrderDeal,
  order_status_eq, fulfillment_eq, normalize_fulfillment_status, is_terminal,
}

pub record OrderRepository : Type 0 where
  pub next : ℕ
  pub orders : List (ℕ × OrderDeal)
  pub by_auction : List (ℕ × ℕ)

-- NewMemoryOrderRepository
abbrev pub new_order_repository : OrderRepository
new_order_repository = record { next = 1; orders = []; by_auction = [] }

-- cloneOrder: values have no aliases here, so what is left is the status it normalizes.
unfoldable pub clone_order : OrderDeal → OrderDeal
clone_order o = record o { fulfillment_status = normalize_fulfillment_status o.fulfillment_status }

-- A map's zero value for a missing order.
abbrev zero_order : OrderDeal
zero_order = record {
  id = 0;
  auction_id = 0;
  live_session_id = none;
  lot_snapshot = [];
  winner_id = "";
  winner_nickname = "";
  seller_id = "";
  deal_price = pos 0;
  deposit_amount = pos 0;
  status = other_status "";
  pay_status = other_pay "";
  fulfillment_status = other_fulfillment "";
  pay_deadline = none;
  paid_at = none;
  shipped_at = none;
  received_at = none;
  closed_at = none;
  version = pos 0;
  created_at = 0;
  updated_at = 0;
}

abbrev pub get_order : OrderRepository → ℕ → OrderDeal
get_order r id = elim (lookup id r.orders) [ none ↦ zero_order | some o ↦ o ]

-- The order that CreateIfAbsentByAuction stores.
unfoldable pub new_order : OrderRepository → Time → OrderDeal → OrderDeal
new_order r now o = record o {
  id = if o.id == 0 then r.next else o.id;
  created_at = if is_zero_time o.created_at then now else o.created_at;
  updated_at = now;
}

-- CreateIfAbsentByAuction, with the order it returns and whether that one is new.
unfoldable pub create_if_absent_by_auction :
    OrderRepository → Time → OrderDeal → OrderRepository × OrderDeal × Bool
unfolding new_order
create_if_absent_by_auction r now o = elim (lookup o.auction_id r.by_auction) [
  | some id ↦ (r, clone_order (get_order r id), false)
  | none ↦
      let o' = new_order r now o in
      (
        record {
          next = if o.id == 0 then (r.next + 1) % two_64 else r.next;
          orders = insert o'.id (clone_order o') r.orders;
          by_auction = insert o'.auction_id o'.id r.by_auction;
        },
        clone_order o',
        true,
      )
]

-- FindByAuctionID
unfoldable pub find_by_auction_id : OrderRepository → ℕ → Result OrderDeal
find_by_auction_id r auction_id = elim (lookup auction_id r.by_auction) [
  | none ↦ err not_found
  | some id ↦ ok (clone_order (get_order r id))
]

-- FindByID
unfoldable pub find_by_id : OrderRepository → ℕ → Result OrderDeal
find_by_id r id = elim (lookup id r.orders) [ none ↦ err not_found | some o ↦ ok (clone_order o) ]

-- The loops of orderStatusInList and fulfillmentStatusInList
abbrev has_status : OrderStatus → List OrderStatus → Bool
has_status s [] = false
has_status s (v ∷ l) = order_status_eq v s || has_status s l

abbrev has_fulfillment : FulfillmentStatus → List FulfillmentStatus → Bool
has_fulfillment s [] = false
has_fulfillment s (v ∷ l) = fulfillment_eq s (normalize_fulfillment_status v) || has_fulfillment s l

abbrev is_nil {ℓ} : {A : Type ℓ} → List A → Bool
is_nil [] = true
is_nil (_ ∷ _) = false

unfoldable pub order_status_in_list : OrderStatus → List OrderStatus → Bool
order_status_in_list s l = if is_nil l then true else has_status s l

unfoldable pub fulfillment_status_in_list : FulfillmentStatus → List FulfillmentStatus → Bool
fulfillment_status_in_list s l =
    if is_nil l then true else has_fulfillment (normalize_fulfillment_status s) l

-- What UpdateStatusWithVersion stores over the current order.
unfoldable pub with_status : OrderDeal → OrderDeal → ℤ → Time → OrderDeal
unfolding clone_order
with_status current o expected now = clone_order (record current {
  status = o.status;
  pay_status = o.pay_status;
  paid_at = o.paid_at;
  closed_at = o.closed_at;
  version = add64 expected (pos 1);
  updated_at = now;
})

-- UpdateStatusWithVersion; the caller's order comes back with its new version and time.
unfoldable pub update_status_with_version :
    OrderRepository → Time → OrderDeal → ℤ → List OrderStatus → OrderRepository × Result OrderDeal
unfolding with_status order_status_in_list is_terminal
update_status_with_version r now o expected allowed =
    if o.id == 0 then (r, err invalid_argument) else elim (lookup o.id r.orders) [
      | none ↦ (r, err not_found)
      | some current ↦
          if not (eqb_ℤ current.version expected)
            || not (order_status_in_list current.status allowed)
          then (r, err (if is_terminal current.status then invalid_state else optimistic_conflict))
          else (
            record r { orders = insert o.id (with_status current o expected now) r.orders },
            ok (record o { version = add64 expected (pos 1); updated_at = now }),
          )
    ]

-- What UpdateFulfillmentWithVersion stores over the current order.
unfoldable pub with_fulfillment : OrderDeal → OrderDeal → ℤ → Time → OrderDeal
unfolding clone_order
with_fulfillment current o expected now = clone_order (record current {
  fulfillment_status = normalize_fulfillment_status o.fulfillment_status;
  shipped_at = o.shipped_at;
  received_at = o.received_at;
  version = add64 expected (pos 1);
  updated_at = now;
})

-- UpdateFulfillmentWithVersion; the caller's order comes back as stored.
unfoldable pub update_fulfillment_with_version :
    OrderRepository
    → Time
    → OrderDeal
    → ℤ
    → List FulfillmentStatus
    → OrderRepository × Result OrderDeal
unfolding with_fulfillment fulfillment_status_in_list
update_fulfillment_with_version r now o expected allowed =
    if o.id == 0 then (r, err invalid_argument) else elim (lookup o.id r.orders) [
      | none ↦ (r, err not_found)
      | some current ↦
          if not (eqb_ℤ current.version expected)
            || not (fulfillment_status_in_list current.fulfillment_status allowed)
          then if fulfillment_eq current.fulfillment_status o.fulfillment_status
            then (r, ok (clone_order current))
            else if fulfillment_eq current.fulfillment_status received
            then (r, err invalid_state)
            else (r, err optimistic_conflict)
          else let o' = with_fulfillment current o expected now in
            (record r { orders = insert o.id o' r.orders }, ok o')
    ]
