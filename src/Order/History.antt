-- ===== src/Order/History.antt =====
-- Orders under the service's operations in any order and interleaving: an operation writes by what
-- it has read, and others may have written in between.
use mathlib.Core.List.{Memᴰ}
use aieas_backend.Prelude.{
  ℕ, ℤ, pos, String, true, ◌≡◌, ◌≢◌, ◌⊎◌, refl, ap, ◌∙◌, arith, none, some, List, ◌∷◌, Time, lookup,
  eq_of_parts, pos_part, neg_part, ◌+ℤ◌, ◌≤ℤ◌, +ℤ_parts, ◌≤◌, nat_eq,
}
use aieas_backend.Domain.Error.{ok}
use aieas_backend.Domain.User.{Role}
use aieas_backend.Order.Deal.{
  created, paid, timeout, unpaid, pay_paid, FulfillmentStatus, unshipped, shipped, received,
  other_fulfillment, OrderDeal, normalize_fulfillment_status, is_terminal,
}
use aieas_backend.Order.Repository.{
  OrderRepository, new_order, create_if_absent_by_auction, find_by_id,
}
use aieas_backend.Order.Service.{pay_body, ship_body, receive_body, close_body}
use aieas_backend.Order.Moves.{Moves, HasNext}

-- How far the delivery has gone.
abbrev pub delivery : FulfillmentStatus → ℕ
delivery unshipped = 0
delivery shipped = 1
delivery received = 2
delivery (other_fulfillment s) = 0

-- An order awaits its payment, is paid and on its way, or has timed out.
abbrev pub Life : OrderDeal → Type 0
Life o =
    ((o.status ≡ created) × (o.pay_status ≡ unpaid) × (o.fulfillment_status ≡ unshipped))
    ⊎ ((o.status ≡ paid)
        × (o.pay_status ≡ pay_paid)
        × (normalize_fulfillment_status o.fulfillment_status ≡ o.fulfillment_status))
    ⊎ ((o.status ≡ timeout) × (o.pay_status ≡ unpaid) × (o.fulfillment_status ≡ unshipped))

abbrev pub Inv : OrderRepository → Type 0
Inv r = (id : ℕ) (o : OrderDeal) → lookup id r.orders ≡ some o → (o.id ≡ id) × Life o

-- What a later state of an order keeps of an earlier one.
abbrev pub Onward : OrderDeal → OrderDeal → Type 0
Onward o o' =
    (o.version ≤ℤ o'.version)
    × (o.version ≡ o'.version → o' ≡ o)
    × (is_terminal o.status ≡ true → (o'.status ≡ o.status) × (o'.pay_status ≡ o.pay_status))
    × (delivery o.fulfillment_status ≤ delivery o'.fulfillment_status)

abbrev pub Later : OrderRepository → OrderRepository → Type 0
Later r r' =
    (id : ℕ) (o : OrderDeal)
    → lookup id r.orders ≡ some o
    → (o' : OrderDeal) × (lookup id r'.orders ≡ some o') × Onward o o'

-- An order as the hammer creates it: not paid, not shipped.
abbrev pub IsNew : OrderDeal → Type 0
IsNew o =
    (o.status ≡ created)
    × (o.pay_status ≡ unpaid)
    × (normalize_fulfillment_status o.fulfillment_status ≡ unshipped)

-- An operation on the repository r, with the orders `seen` that operations under way have read.
pub data Step (r : OrderRepository) (seen : List OrderDeal)
    : OrderRepository → List OrderDeal → Type 0 where
  creates :
      (now : Time) (o : OrderDeal)
      → IsNew o
      → lookup ((new_order r now o).id) r.orders ≡ none
      → Step r seen (create_if_absent_by_auction r now o).0 seen
  reads : (id : ℕ) (s : OrderDeal) → find_by_id r id ≡ ok s → Step r seen r (s ∷ seen)
  pays :
      (s : OrderDeal) (now stored : Time) (actor : String) (role : Role)
      → Memᴰ s seen
      → HasNext s
      → Step r seen (pay_body r (ok s) now stored actor role).0 seen
  ships :
      (s : OrderDeal) (now stored : Time) (actor : String) (role : Role)
      → Memᴰ s seen
      → HasNext s
      → Step r seen (ship_body r (ok s) now stored actor role).0 seen
  receives :
      (s : OrderDeal) (now stored : Time) (actor : String) (role : Role)
      → Memᴰ s seen
      → HasNext s
      → Step r seen (receive_body r (ok s) now stored actor role).0 seen
  times_out :
      (s : OrderDeal) (now stored : Time)
      → Memᴰ s seen
      → HasNext s
      → Step r seen (close_body r (ok s) now stored).0 seen

pub data Steps (r : OrderRepository) (seen : List OrderDeal)
    : OrderRepository → List OrderDeal → Type 0 where
  here : Steps r seen r seen
  next :
      {r' r'' : OrderRepository} {seen' seen'' : List OrderDeal}
      → Steps r seen r' seen'
      → Step r' seen' r'' seen''
      → Steps r seen r'' seen''

pub Onward-refl : (o : OrderDeal) → Onward o o
Onward-refl o = (omega arith, λ _. refl, λ _. (refl, refl), omega arith)

pub squeeze : (a b c : ℤ) → a ≤ℤ b → b ≤ℤ c → a ≡ c → (a ≡ b) × (b ≡ c)
squeeze a b c l m e = (
  eq_of_parts a b (omega (arith, l, m, ap pos_part e, ap neg_part e)),
  eq_of_parts b c (omega (arith, l, m, ap pos_part e, ap neg_part e)),
)

pub Onward-trans : (a b c : OrderDeal) → Onward a b → Onward b c → Onward a c
Onward-trans a b c (l, e, t, d) (l', e', t', d') = (
  omega (arith, l, l'),
  λ q. let (p, p') = squeeze a.version b.version c.version l l' q in e' p' ∙ e p,
  λ q. let (st, py) = t q in let (st', py') = t' (rw st q) in (st' ∙ st, py' ∙ py),
  omega (arith, d, d'),
)

not_same : (a b : ℤ) → b ≡ a +ℤ pos 1 → (a ≤ℤ b) × (a ≢ b)
not_same a b e = (
  omega (arith, ap pos_part e, ap neg_part e, +ℤ_parts a (pos 1)),
  λ q.
      omega (arith, ap pos_part e, ap neg_part e, ap pos_part q, ap neg_part q, +ℤ_parts a (pos 1)),
)

pub Moves-Onward : (s o : OrderDeal) → Life s → Moves s o → Onward s o
unfolding normalize_fulfillment_status is_terminal
Moves-Onward s o life (same, up, move) =
    let (l, n) = not_same s.version o.version up in
    (l, λ q. absurd (n q), λ q. ground arith, ground arith)

pub Moves-Life : (s o : OrderDeal) → Life s → Moves s o → Life o
unfolding normalize_fulfillment_status
Moves-Life s o life (same, up, move) = ground arith
