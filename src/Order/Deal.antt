-- ===== src/Order/Deal.antt =====
-- The order of internal/domain/ops.go: its statuses and the four changes an order goes through.
use aieas_backend.Prelude.{
  ℕ, ℤ, String, Bool, true, false, ◌&&◌, ◌||◌, not, str_eq, if◌then◌else◌, ◌≡◌, ◌↔◌, arith, Option,
  none, some, ◌==◌, eq_iff, List, Time, before,
}
use aieas_backend.Domain.Error.{invalid_state, Result, ok, err}

pub data OrderStatus : Type 0 where
  created paid timeout cancelled : OrderStatus
  other_status : String → OrderStatus

pub data PayStatus : Type 0 where
  unpaid pay_paid refunded : PayStatus
  other_pay : String → PayStatus

pub data FulfillmentStatus : Type 0 where
  unshipped shipped received : FulfillmentStatus
  other_fulfillment : String → FulfillmentStatus

abbrev order_code : OrderStatus → ℕ
order_code created = 0
order_code paid = 1
order_code timeout = 2
order_code cancelled = 3
order_code (other_status _) = 4

abbrev order_text : OrderStatus → String
order_text (other_status s) = s
order_text _ = ""

-- `==` on the statuses.
unfoldable pub order_status_eq : OrderStatus → OrderStatus → Bool
order_status_eq a b = order_code a == order_code b && str_eq (order_text a) (order_text b)

abbrev pay_code : PayStatus → ℕ
pay_code unpaid = 0
pay_code pay_paid = 1
pay_code refunded = 2
pay_code (other_pay _) = 3

abbrev pay_text : PayStatus → String
pay_text (other_pay s) = s
pay_text _ = ""

unfoldable pub pay_status_eq : PayStatus → PayStatus → Bool
pay_status_eq a b = pay_code a == pay_code b && str_eq (pay_text a) (pay_text b)

unfoldable pub pay_is_paid : PayStatus → Bool
pay_is_paid pay_paid = true
pay_is_paid _ = false

unfoldable pub pay_is_unpaid : PayStatus → Bool
pay_is_unpaid unpaid = true
pay_is_unpaid _ = false

-- OrderStatus.Terminal
unfoldable pub is_terminal : OrderStatus → Bool
is_terminal paid = true
is_terminal timeout = true
is_terminal cancelled = true
is_terminal _ = false

-- CanTransitionOrder
unfoldable pub can_transition_order : OrderStatus → OrderStatus → Bool
unfolding order_status_eq
can_transition_order from to = if order_status_eq from to then true else elim from [
  | created ↦ order_status_eq to paid || order_status_eq to timeout || order_status_eq to cancelled
  | _ ↦ false
]

-- NormalizeFulfillmentStatus
unfoldable pub normalize_fulfillment_status : FulfillmentStatus → FulfillmentStatus
normalize_fulfillment_status (other_fulfillment s) = unshipped
normalize_fulfillment_status f = f

abbrev fulfillment_code : FulfillmentStatus → ℕ
fulfillment_code unshipped = 0
fulfillment_code shipped = 1
fulfillment_code received = 2
fulfillment_code (other_fulfillment _) = 3

abbrev fulfillment_text : FulfillmentStatus → String
fulfillment_text (other_fulfillment s) = s
fulfillment_text _ = ""

unfoldable pub fulfillment_eq : FulfillmentStatus → FulfillmentStatus → Bool
fulfillment_eq a b =
    fulfillment_code a == fulfillment_code b && str_eq (fulfillment_text a) (fulfillment_text b)

-- A nil pointer is `none`.
pub record OrderDeal : Type 0 where
  pub id : ℕ
  pub auction_id : ℕ
  pub live_session_id : Option ℕ
  pub lot_snapshot : List ℕ
  pub winner_id : String
  pub winner_nickname : String
  pub seller_id : String
  pub deal_price : ℤ
  pub deposit_amount : ℤ
  pub status : OrderStatus
  pub pay_status : PayStatus
  pub fulfillment_status : FulfillmentStatus
  pub pay_deadline : Option Time
  pub paid_at : Option Time
  pub shipped_at : Option Time
  pub received_at : Option Time
  pub closed_at : Option Time
  pub version : ℤ
  pub created_at : Time
  pub updated_at : Time

-- PaymentExpired
unfoldable pub payment_expired : OrderDeal → Time → Bool
payment_expired o now = elim o.pay_deadline [ none ↦ false | some d ↦ not (before now d) ]

-- Both statuses of a paid order.
unfoldable pub is_paid : OrderDeal → Bool
unfolding order_status_eq pay_is_paid
is_paid o = order_status_eq o.status paid && pay_is_paid o.pay_status

-- The four methods change the order in place, and not at all where they fail; every caller
-- passes an order that is there.

-- MarkPaid
unfoldable pub mark_paid : OrderDeal → Time → Result OrderDeal
unfolding is_paid can_transition_order
mark_paid o now =
    if is_paid o
    then ok o
    else if not (can_transition_order o.status paid)
    then err invalid_state
    else ok (record o { status = paid; pay_status = pay_paid; paid_at = some now })

-- MarkTimeout
unfoldable pub mark_timeout : OrderDeal → Time → Result OrderDeal
unfolding order_status_eq can_transition_order pay_is_unpaid
mark_timeout o now =
    if order_status_eq o.status timeout
    then ok o
    else if not (can_transition_order o.status timeout) || not (pay_is_unpaid o.pay_status)
    then err invalid_state
    else ok (record o { status = timeout; closed_at = some now })

-- MarkShipped
unfoldable pub mark_shipped : OrderDeal → Time → Result OrderDeal
unfolding is_paid fulfillment_eq normalize_fulfillment_status
mark_shipped o now =
    if fulfillment_eq o.fulfillment_status shipped
    then ok o
    else if not (is_paid o)
        || not (fulfillment_eq (normalize_fulfillment_status o.fulfillment_status) unshipped)
    then err invalid_state
    else ok (record o { fulfillment_status = shipped; shipped_at = some now })

-- MarkReceived
unfoldable pub mark_received : OrderDeal → Time → Result OrderDeal
unfolding is_paid fulfillment_eq normalize_fulfillment_status
mark_received o now =
    if fulfillment_eq o.fulfillment_status received
    then ok o
    else if not (is_paid o)
        || not (fulfillment_eq (normalize_fulfillment_status o.fulfillment_status) shipped)
    then err invalid_state
    else ok (record o { fulfillment_status = received; received_at = some now })

pub order_status_eq_iff : (a b : OrderStatus) → (order_status_eq a b ≡ true) ↔ (a ≡ b)
unfolding order_status_eq
order_status_eq_iff a b = ground (arith, eq_iff (order_text a) (order_text b))

pub fulfillment_eq_iff : (a b : FulfillmentStatus) → (fulfillment_eq a b ≡ true) ↔ (a ≡ b)
unfolding fulfillment_eq
fulfillment_eq_iff a b = ground (arith, eq_iff (fulfillment_text a) (fulfillment_text b))
