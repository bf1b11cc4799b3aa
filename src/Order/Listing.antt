-- ===== src/Order/Listing.antt =====
-- The two queries of the memory order repository: List and ListPayTimeoutCandidates. A map's
-- iteration has no order, so a result depends on it only where the sort leaves a choice.
use aieas_backend.Prelude.{
  zero, suc, ℕ, ℤ, pos, String, Bool, true, ◌&&◌, ◌||◌, str_eq, if◌then◌else◌, Option, none, some,
  ◌==◌, List, [], ◌∷◌, Time, ltb, leb_ℤ, ltb_ℤ, is_empty, trim_space, before, take, pos_part,
}
use aieas_backend.Order.Deal.{
  OrderStatus, created, FulfillmentStatus, PayStatus, OrderDeal, order_status_eq, fulfillment_eq,
  pay_status_eq, normalize_fulfillment_status, pay_is_unpaid, payment_expired,
}
use aieas_backend.Order.Repository.{OrderRepository, clone_order}
use Prim.Native.Char.{code}

-- Without the prefix "u_" or "U_".
abbrev strip_prefix : String → String
strip_prefix (String.◌∷◌ c (String.◌∷◌ d s)) =
    if (code c == b'u' || code c == b'U') && code d == b'_'
    then s
    else String.◌∷◌ c (String.◌∷◌ d s)
strip_prefix s = s

-- normalizeUserIDForDB, and normalizeUserID of the service, which is the same code.
unfoldable pub normalize_user_id : String → String
unfolding trim_space
normalize_user_id id = strip_prefix (trim_space id)

-- A status filter of "" is `none`.
pub record OrderFilter : Type 0 where
  pub winner_id : String
  pub seller_id : String
  pub auction_id : ℕ
  pub live_session_id : ℕ
  pub status : Option OrderStatus
  pub pay_status : Option PayStatus
  pub fulfillment_status : Option FulfillmentStatus
  pub limit : ℤ
  pub offset : ℤ

unfoldable pub matches_user : String → String → Bool
unfolding normalize_user_id
matches_user wanted id = is_empty wanted || str_eq (normalize_user_id id) (normalize_user_id wanted)

abbrev in_session : ℕ → Option ℕ → Bool
in_session wanted none = wanted == 0
in_session wanted (some id) = wanted == 0 || id == wanted

-- The tests of the loop in List, as the condition under which an order is kept.
unfoldable pub matches : OrderFilter → OrderDeal → Bool
unfolding matches_user order_status_eq pay_status_eq fulfillment_eq normalize_fulfillment_status
matches f o =
    matches_user f.winner_id o.winner_id
    && matches_user f.seller_id o.seller_id
    && (f.auction_id == 0 || o.auction_id == f.auction_id)
    && in_session f.live_session_id o.live_session_id
    && elim f.status [ none ↦ true | some s ↦ order_status_eq o.status s ]
    && elim f.pay_status [ none ↦ true | some s ↦ pay_status_eq o.pay_status s ]
    && elim f.fulfillment_status [
      | none ↦ true
      | some s ↦
          fulfillment_eq (normalize_fulfillment_status o.fulfillment_status)
            (normalize_fulfillment_status s)
    ]

unfoldable pub select : (OrderDeal → Bool) → List (ℕ × OrderDeal) → List OrderDeal
unfolding clone_order
select p [] = []
select p ((k, o) ∷ m) = let rest = select p m in if p o then clone_order o ∷ rest else rest

-- sort.Slice, by a test of what comes first.
abbrev pub place : (OrderDeal → OrderDeal → Bool) → OrderDeal → List OrderDeal → List OrderDeal
place less o [] = o ∷ []
place less o (x ∷ l) = let rest = place less o l in if less x o then x ∷ rest else o ∷ x ∷ l

abbrev pub sort_orders : (OrderDeal → OrderDeal → Bool) → List OrderDeal → List OrderDeal
sort_orders less [] = []
sort_orders less (o ∷ l) = place less o (sort_orders less l)

abbrev pub drop : ℕ → List OrderDeal → List OrderDeal
drop zero l = l
drop (suc n) [] = []
drop (suc n) (x ∷ l) = drop n l

-- `orders[offset:end]`, or the empty list where the offset is past the end.
abbrev pub page : ℤ → ℤ → List OrderDeal → List OrderDeal
page limit offset l = take (pos_part limit) (drop (pos_part offset) l)

-- MemoryOrderRepository.List
unfoldable pub list_orders : OrderRepository → OrderFilter → List OrderDeal
unfolding matches select
list_orders r f =
    let limit = if leb_ℤ f.limit (pos 0) || ltb_ℤ (pos 100) f.limit then pos 20 else f.limit in
    let offset = if ltb_ℤ f.offset (pos 0) then pos 0 else f.offset in
    page limit offset (sort_orders (λ a b. ltb b.id a.id) (select (matches f) r.orders))

unfoldable pub pay_has_timed_out : Time → OrderDeal → Bool
unfolding order_status_eq pay_is_unpaid payment_expired
pay_has_timed_out now o =
    order_status_eq o.status created && pay_is_unpaid o.pay_status && payment_expired o now

abbrev due_first : OrderDeal → OrderDeal → Bool
due_first a b = elim a.pay_deadline [
  | none ↦ ltb a.id b.id
  | some d ↦ elim b.pay_deadline [
    | none ↦ ltb a.id b.id
    | some e ↦ if d == e then ltb a.id b.id else before d e
  ]
]

-- ListPayTimeoutCandidates
unfoldable pub list_pay_timeout_candidates : OrderRepository → Time → ℤ → List OrderDeal
unfolding pay_has_timed_out select
list_pay_timeout_candidates r now limit =
    let n = if leb_ℤ limit (pos 0) || ltb_ℤ (pos 500) limit then pos 100 else limit in
    take (pos_part n) (sort_orders due_first (select (pay_has_timed_out now) r.orders))
