-- ===== src/Order/Query.antt =====
-- The reading side of the order service: Get, List and Mine.
use aieas_backend.Prelude.{
  ℕ, String, true, false, ◌||◌, not, if◌then◌else◌, Option, none, some, List, [], ◌∷◌, is_empty,
  trim_space, lookup, insert, string_eq,
}
use aieas_backend.Domain.Error.{forbidden, Result, ok, err}
use aieas_backend.Domain.User.{Role, admin, buyer, merchant, other_role, User, is_buyer}
use aieas_backend.Order.Deal.{OrderDeal}
use aieas_backend.Order.Repository.{OrderRepository, find_by_id}
use aieas_backend.Order.Listing.{OrderFilter, list_orders}
use aieas_backend.Order.Service.{UserReader, can_access_order, enrich_winner_nickname}

-- Get
unfoldable pub get : UserReader → OrderRepository → ℕ → String → Role → Result OrderDeal
unfolding find_by_id can_access_order
get users r id actor role = elim (find_by_id r id) [
  | err e ↦ err e
  | ok o ↦
      if not (can_access_order o actor role)
      then err forbidden
      else ok (enrich_winner_nickname users o)
]

-- The switch of List on the role: the filter of what the actor may see.
unfoldable pub own_filter : OrderFilter → String → Role → Option OrderFilter
own_filter f actor admin = some f
own_filter f actor merchant = some (record f { seller_id = actor })
own_filter f actor buyer = some (record f { winner_id = actor })
own_filter f actor (other_role s) = none

abbrev with_nickname : OrderDeal → String → OrderDeal
with_nickname o nickname = record o { winner_nickname = nickname }

-- The loop of enrichWinnerNicknames, with its cache of the names found; a user who is not found
-- counts as one with no name from the second order on.
unfoldable pub enrich_loop :
    (String → Result User) → List (String × String) → List OrderDeal → List OrderDeal
unfolding trim_space
enrich_loop find cache [] = []
enrich_loop find cache (o ∷ rest) =
    let winner = trim_space o.winner_id in
    elim (is_empty winner) [
      | true ↦ o ∷ enrich_loop find cache rest
      | false ↦ elim (lookup winner cache) [
        | some nickname ↦ with_nickname o nickname ∷ enrich_loop find cache rest
        | none ↦ elim (find winner) [
          | err e ↦ o ∷ enrich_loop find (insert winner "" cache) rest
          | ok user ↦
              let nickname = trim_space user.nickname in
              with_nickname o nickname ∷ enrich_loop find (insert winner nickname cache) rest
        ]
      ]
    ]

-- enrichWinnerNicknames
unfoldable pub enrich_winner_nicknames : UserReader → List OrderDeal → List OrderDeal
unfolding enrich_loop
enrich_winner_nicknames none l = l
enrich_winner_nicknames (some find) l = enrich_loop find [] l

-- List
unfoldable pub list :
    UserReader → OrderRepository → OrderFilter → String → Role → Result (List OrderDeal)
unfolding own_filter list_orders enrich_winner_nicknames
list users r f actor role = elim (own_filter f actor role) [
  | none ↦ err forbidden
  | some own ↦ ok (enrich_winner_nicknames users (list_orders r own))
]

-- Mine
unfoldable pub mine :
    UserReader → OrderRepository → String → Role → OrderFilter → Result (List OrderDeal)
unfolding trim_space list_orders enrich_winner_nicknames
mine users r actor role f =
    if is_empty (trim_space actor) || not (is_buyer role)
    then err forbidden
    else ok (enrich_winner_nicknames users (list_orders r (record f { winner_id = actor })))
