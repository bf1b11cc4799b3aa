-- ===== src/Order/Service.antt =====
-- The order service of internal/modules/order/app/service.go over the memory repository and a
-- transaction manager that runs its body (NoopTxManager). In each body no write comes before an
-- error, so that a rollback would change nothing. The order that a body has read is an argument of
-- its model: other operations may come between the read and the write.
use aieas_backend.Prelude.{
  ℕ, ℤ, pos, String, Bool, true, false, ◌&&◌, ◌||◌, not, str_eq, if◌then◌else◌, Option, none, some,
  List, [], ◌∷◌, Time, is_empty, trim_space, is_zero_time, leb_ℤ, ◌+◌,
}
use aieas_backend.Domain.Error.{
  Error, invalid_state, optimistic_conflict, not_found, forbidden, Result, ok, err,
}
use aieas_backend.Domain.User.{
  Role, admin, buyer, merchant, other_role, is_admin, is_buyer, is_merchant, User,
}
use aieas_backend.Order.Deal.{
  created, unshipped, shipped, OrderDeal, order_status_eq, is_terminal, pay_is_unpaid,
  payment_expired, is_paid, mark_paid, mark_timeout, mark_shipped, mark_received,
}
use aieas_backend.Order.Repository.{
  OrderRepository, find_by_id, update_status_with_version, update_fulfillment_with_version,
}
use aieas_backend.Order.Listing.{normalize_user_id, list_pay_timeout_candidates}

-- sameUserID
unfoldable pub same_user_id : String → String → Bool
unfolding normalize_user_id
same_user_id a b =
    not (is_empty (normalize_user_id a)) && str_eq (normalize_user_id a) (normalize_user_id b)

-- canAccessOrder
unfoldable pub can_access_order : OrderDeal → String → Role → Bool
can_access_order o actor admin = true
can_access_order o actor merchant = not (is_empty actor) && same_user_id o.seller_id actor
can_access_order o actor buyer = not (is_empty actor) && same_user_id o.winner_id actor
can_access_order o actor (other_role s) = false

-- The reader of users that the service may have been given.
abbrev pub UserReader : Type 0
UserReader = Option (String → Result User)

-- enrichWinnerNickname
unfoldable pub enrich_winner_nickname : UserReader → OrderDeal → OrderDeal
unfolding trim_space
enrich_winner_nickname none o = o
enrich_winner_nickname (some find) o =
    if is_empty (trim_space o.winner_id) then o else elim (find (trim_space o.winner_id)) [
      | err e ↦ o
      | ok user ↦ record o { winner_nickname = trim_space user.nickname }
    ]

-- Who may pay and receive, and who may ship.
unfoldable pub may_buy : OrderDeal → String → Role → Bool
unfolding same_user_id
may_buy o actor role = is_admin role || (is_buyer role && same_user_id o.winner_id actor)

unfoldable pub may_ship : OrderDeal → String → Role → Bool
unfolding same_user_id
may_ship o actor role = is_admin role || (is_merchant role && same_user_id o.seller_id actor)

-- How the body of Pay ends: with txErr, with resultErr, or with the order.
pub data PayEnd : Type 0 where
  fails : Error → PayEnd
  expired : PayEnd
  pays : OrderDeal → PayEnd

-- A write of the body of Pay.
unfoldable pub pay_write :
    OrderRepository
    → Time
    → OrderDeal
    → Result OrderDeal
    → (OrderDeal → PayEnd)
    → OrderRepository × PayEnd
unfolding update_status_with_version
pay_write r stored current (err e) end = (r, fails e)
pay_write r stored current (ok o) end =
    let (r', result) = update_status_with_version r stored o current.version (created ∷ []) in
    (r', elim result [ err e ↦ fails e | ok saved ↦ end saved ])

-- The body of Pay, at the time `now`; the repository writes at the time `stored`.
unfoldable pub pay_body :
    OrderRepository → Result OrderDeal → Time → Time → String → Role → OrderRepository × PayEnd
unfolding may_buy is_paid pay_write
pay_body r (err e) now stored actor role = (r, fails e)
pay_body r (ok current) now stored actor role =
    if not (may_buy current actor role)
    then (r, fails forbidden)
    else if is_paid current
    then (r, pays current)
    else if not (order_status_eq current.status created)
    then (r, fails invalid_state)
    else if payment_expired current now
    then pay_write r stored current (mark_timeout current now) (λ _. expired)
    else pay_write r stored current (mark_paid current now) pays

-- resolvePayFinalState; `none` leaves the error as it is.
unfoldable pub resolve_pay_final_state :
    UserReader → OrderRepository → ℕ → Error → Option (Result OrderDeal)
unfolding find_by_id is_paid is_terminal
resolve_pay_final_state users r id e =
    let answer : Option (Result OrderDeal) = elim (find_by_id r id) [
      | err find_err ↦ some (err find_err)
      | ok latest ↦
          if is_paid latest
          then some (ok (enrich_winner_nickname users latest))
          else if is_terminal latest.status
          then some (err invalid_state)
          else some (err e)
    ] in
    elim e [ optimistic_conflict ↦ answer | invalid_state ↦ answer | _ ↦ none ]

-- What Pay returns after its body, with the repository as it is then.
unfoldable pub pay_result : UserReader → OrderRepository → ℕ → PayEnd → Result OrderDeal
pay_result users r id (fails e) = elim (resolve_pay_final_state users r id e) [
  | none ↦ err e
  | some result ↦ result
]
pay_result users r id expired = err invalid_state
pay_result users r id (pays o) = ok (enrich_winner_nickname users o)

-- Pay, with nothing in between.
unfoldable pub pay :
    UserReader
    → OrderRepository
    → ℕ
    → Time
    → Time
    → String
    → Role
    → OrderRepository × Result OrderDeal
unfolding pay_body pay_result find_by_id
pay users r id now stored actor role =
    let (r', end) = pay_body r (find_by_id r id) now stored actor role in
    (r', pay_result users r' id end)

-- The body of Ship.
unfoldable pub ship_body :
    OrderRepository
    → Result OrderDeal
    → Time
    → Time
    → String
    → Role
    → OrderRepository × Result OrderDeal
unfolding may_ship mark_shipped update_fulfillment_with_version
ship_body r (err e) now stored actor role = (r, err e)
ship_body r (ok current) now stored actor role =
    if not (may_ship current actor role)
    then (r, err forbidden)
    else elim (mark_shipped current now) [
      | err e ↦ (r, err e)
      | ok o ↦ update_fulfillment_with_version r stored o current.version (unshipped ∷ [])
    ]

-- The body of Receive.
unfoldable pub receive_body :
    OrderRepository
    → Result OrderDeal
    → Time
    → Time
    → String
    → Role
    → OrderRepository × Result OrderDeal
unfolding may_buy mark_received update_fulfillment_with_version
receive_body r (err e) now stored actor role = (r, err e)
receive_body r (ok current) now stored actor role =
    if not (may_buy current actor role)
    then (r, err forbidden)
    else elim (mark_received current now) [
      | err e ↦ (r, err e)
      | ok o ↦ update_fulfillment_with_version r stored o current.version (shipped ∷ [])
    ]

-- Ship and Receive, with nothing in between.
unfoldable pub ship :
    UserReader
    → OrderRepository
    → ℕ
    → Time
    → Time
    → String
    → Role
    → OrderRepository × Result OrderDeal
unfolding ship_body find_by_id
ship users r id now stored actor role =
    let (r', result) = ship_body r (find_by_id r id) now stored actor role in
    (r', elim result [ err e ↦ err e | ok o ↦ ok (enrich_winner_nickname users o) ])

unfoldable pub receive :
    UserReader
    → OrderRepository
    → ℕ
    → Time
    → Time
    → String
    → Role
    → OrderRepository × Result OrderDeal
unfolding receive_body find_by_id
receive users r id now stored actor role =
    let (r', result) = receive_body r (find_by_id r id) now stored actor role in
    (r', elim result [ err e ↦ err e | ok o ↦ ok (enrich_winner_nickname users o) ])

-- Whether the worker goes on with an order, which it may have read before others changed it.
unfoldable pub is_expired_candidate : OrderDeal → Time → Bool
unfolding order_status_eq pay_is_unpaid payment_expired
is_expired_candidate current now =
    order_status_eq current.status created
    && pay_is_unpaid current.pay_status
    && payment_expired current now

-- The errors that the worker passes over as someone else's success.
abbrev close_end : Error → Result Bool
close_end optimistic_conflict = ok false
close_end invalid_state = ok false
close_end e = err e

abbrev mark_end : Error → Result Bool
mark_end invalid_state = ok false
mark_end e = err e

-- closeExpiredCandidate, on the order as read.
unfoldable pub close_body :
    OrderRepository → Result OrderDeal → Time → Time → OrderRepository × Result Bool
unfolding is_expired_candidate mark_timeout update_status_with_version
close_body r (err not_found) now stored = (r, ok false)
close_body r (err e) now stored = (r, err e)
close_body r (ok current) now stored =
    if not (is_expired_candidate current now)
    then (r, ok false)
    else elim (mark_timeout current now) [
      | err e ↦ (r, mark_end e)
      | ok o ↦
          let (r', result) = update_status_with_version r stored o current.version (created ∷ []) in
          (r', elim result [ err e ↦ close_end e | ok saved ↦ ok true ])
    ]

-- The loop of CloseExpiredOnce; with the number it closed, and the error that stopped it.
unfoldable pub close_all :
    OrderRepository → List OrderDeal → Time → Time → ℕ → OrderRepository × ℕ × Option Error
unfolding close_body find_by_id
close_all r [] now stored closed = (r, closed, none)
close_all r (candidate ∷ rest) now stored closed =
    let (r', result) = close_body r (find_by_id r candidate.id) now stored in
    let go_on = close_all r' rest now stored in
    elim result [
      | err e ↦ (r', closed, some e)
      | ok true ↦ go_on (closed + 1)
      | ok false ↦ go_on closed
    ]

-- CloseExpiredOnce; the clock is read only for a zero `now`.
unfoldable pub close_expired_once :
    OrderRepository → Time → Time → Time → ℤ → OrderRepository × ℕ × Option Error
unfolding close_all list_pay_timeout_candidates
close_expired_once r clock now stored limit =
    let at = if is_zero_time now then clock else now in
    let n = if leb_ℤ limit (pos 0) then pos 100 else limit in
    close_all r (list_pay_timeout_candidates r at n) at stored 0
