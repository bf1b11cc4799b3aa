-- ===== src/Tests/Orders.antt =====
-- The theorems on orders at one order, which its winner pays for after the worker has read it.
use mathlib.Core.List.{Memᴰ}
use aieas_backend.Prelude.{
  pos, ◌≡◌, refl, arith, none, some, [], ◌∷◌, lookup, insert, nat_eq, ◌≤◌, add64, wrap64, ◌+ℤ◌,
  trim_space,
}
use aieas_backend.Domain.User.{buyer, is_admin, is_buyer}
use aieas_backend.Order.Deal.{
  created, paid, unpaid, pay_paid, unshipped, OrderDeal, normalize_fulfillment_status, is_paid,
  is_terminal, mark_paid, mark_timeout, payment_expired, can_transition_order, order_status_eq,
  pay_is_paid, pay_is_unpaid,
}
use aieas_backend.Order.Repository.{
  OrderRepository, new_order_repository, new_order, create_if_absent_by_auction, find_by_id,
  clone_order, update_status_with_version, with_status, order_status_in_list,
}
use aieas_backend.Order.Listing.{normalize_user_id}
use aieas_backend.Order.Service.{
  pay_body, pay_write, may_buy, same_user_id, close_body, is_expired_candidate,
}
use aieas_backend.Order.History.{Life, Steps, here, next, creates, reads, pays, times_out, delivery}
use aieas_backend.Order.Interleaving.{order-Life, decided_order_stays}

abbrev deal : OrderDeal
deal = record {
  id = 0;
  auction_id = 7;
  live_session_id = none;
  lot_snapshot = [];
  winner_id = "u_5";
  winner_nickname = "";
  seller_id = "9";
  deal_price = pos 1500;
  deposit_amount = pos 100;
  status = created;
  pay_status = unpaid;
  fulfillment_status = unshipped;
  pay_deadline = some 1000;
  paid_at = none;
  shipped_at = none;
  received_at = none;
  closed_at = none;
  version = pos 0;
  created_at = 10;
  updated_at = 10;
}

-- The order as stored, and as paid at 900.
abbrev pub stored_deal : OrderDeal
stored_deal = record deal { id = 1; updated_at = 20 }

abbrev paid_deal : OrderDeal
paid_deal = record stored_deal {
  status = paid;
  pay_status = pay_paid;
  paid_at = some 900;
  version = pos 1;
  updated_at = 901;
}

abbrev shop : OrderDeal → OrderRepository
shop o = record { next = 2; orders = (1, o) ∷ []; by_auction = (7, 1) ∷ [] }

-- Opens what the operations on the order compute with.
unfoldable running_orders : Unit {0}
unfolding create_if_absent_by_auction new_order clone_order normalize_fulfillment_status lookup
    insert find_by_id pay_body pay_write may_buy same_user_id normalize_user_id trim_space is_paid
    payment_expired mark_paid mark_timeout can_transition_order order_status_eq pay_is_paid
    update_status_with_version with_status order_status_in_list add64 wrap64 ◌+ℤ◌ is_admin is_buyer
    close_body is_expired_candidate pay_is_unpaid is_terminal
running_orders = tt

opened_shop : Steps new_order_repository [] (shop stored_deal) (stored_deal ∷ [])
unfolding running_orders
opened_shop = next (next here (creates 20 deal (refl, refl, refl) refl)) (reads 1 stored_deal refl)

-- The worker on the order as it was.
late_worker : Steps (shop paid_deal) (stored_deal ∷ []) (shop paid_deal) (stored_deal ∷ [])
unfolding running_orders
late_worker =
    next here (times_out stored_deal 2000 2001 (Memᴰ.head refl) (omega arith, omega arith))

paid_shop : Steps new_order_repository [] (shop paid_deal) (stored_deal ∷ [])
unfolding running_orders
paid_shop =
    next opened_shop
      (pays stored_deal 900 901 "U_5" buyer (Memᴰ.head refl) (omega arith, omega arith))

order-Life_example : (stored_deal.id ≡ 1) × Life stored_deal
unfolding running_orders
order-Life_example = order-Life 1 stored_deal opened_shop refl

decided_order_stays_example :
    (o' : OrderDeal) × (lookup 1 (shop paid_deal).orders ≡ some o')
    × (o'.status ≡ paid)
    × (o'.pay_status ≡ pay_paid)
    × (delivery unshipped ≤ delivery o'.fulfillment_status)
unfolding running_orders
decided_order_stays_example = decided_order_stays 1 paid_deal paid_shop late_worker refl refl
