-- ===== src/Tests/Access.antt =====
-- What a buyer sees of a shop with two orders.
use aieas_backend.Prelude.{
  lookup, pos, true, ◌≡◌, refl, none, some, [], ◌∷◌, All, trim_space, nat_eq,
}
use aieas_backend.Domain.Error.{err, not_found}
use aieas_backend.Domain.User.{buyer}
use aieas_backend.Order.Deal.{
  OrderDeal, order_status_eq, fulfillment_eq, pay_status_eq, normalize_fulfillment_status,
}
use aieas_backend.Order.Repository.{OrderRepository, clone_order}
use aieas_backend.Order.Listing.{
  OrderFilter, list_orders, matches, matches_user, select, normalize_user_id,
}
use aieas_backend.Order.Query.{list, own_filter, enrich_winner_nicknames, enrich_loop}
use aieas_backend.Order.Access.{MaySee, is_known, list_own}
use aieas_backend.Tests.Orders.{stored_deal}

abbrev other_deal : OrderDeal
other_deal = record stored_deal { id = 2; auction_id = 8; winner_id = "6" }

abbrev two_orders : OrderRepository
two_orders = record {
  next = 3;
  orders = (1, stored_deal) ∷ (2, other_deal) ∷ [];
  by_auction = (7, 1) ∷ (8, 2) ∷ [];
}

-- A buyer who asks for another winner's orders.
abbrev greedy : OrderFilter
greedy = record {
  winner_id = "6";
  seller_id = "";
  auction_id = 0;
  live_session_id = 0;
  status = none;
  pay_status = none;
  fulfillment_status = none;
  limit = pos 0;
  offset = pos 0;
}

list_own_example : All (MaySee buyer "5") (stored_deal ∷ []) × (is_known buyer ≡ true)
unfolding lookup list own_filter list_orders matches matches_user select clone_order
    normalize_user_id trim_space enrich_winner_nicknames enrich_loop order_status_eq fulfillment_eq
    pay_status_eq normalize_fulfillment_status
list_own_example =
    list_own (some (λ _. err not_found)) two_orders greedy "5" buyer (stored_deal ∷ []) refl refl
