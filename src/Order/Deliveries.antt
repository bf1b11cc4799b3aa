-- ===== src/Order/Deliveries.antt =====
-- What the bodies of Ship, Receive and the timeout worker do to one order.
use aieas_backend.Prelude.{
  String, true, ◌≡◌, ◌⊎◌, inl, inr, refl, sym, arith, some, [], ◌∷◌, Time, Bool-cases,
}
use aieas_backend.Domain.Error.{ok, Result-cases, ok-injective}
use aieas_backend.Domain.User.{Role}
use aieas_backend.Order.Deal.{
  created, paid, pay_paid, unshipped, shipped, received, OrderDeal, normalize_fulfillment_status,
  order_status_eq_iff, fulfillment_eq, fulfillment_eq_iff, pay_is_paid, is_paid, mark_timeout,
  mark_shipped, mark_received,
}
use aieas_backend.Order.Repository.{
  OrderRepository, with_fulfillment, clone_order, update_fulfillment_with_version,
}
use aieas_backend.Order.Service.{
  ship_body, receive_body, close_body, is_expired_candidate, may_buy, may_ship,
}
use aieas_backend.Order.Update.{Snapshot}
use aieas_backend.Order.Moves.{Writes, HasNext, write_fulfillment, times_out}

is_paid-parts : (s : OrderDeal) → is_paid s ≡ true → (s.status ≡ paid) × (s.pay_status ≡ pay_paid)
unfolding is_paid pay_is_paid
is_paid-parts s h = ground (arith, order_status_eq_iff s.status paid)

-- A mark that succeeds leaves a delivered order alone or finds a paid one.
mark_shipped-ok :
    (s o : OrderDeal) (now : Time)
    → mark_shipped s now ≡ ok o
    → ((o ≡ s) × (s.fulfillment_status ≡ shipped))
      ⊎ ((is_paid s ≡ true)
          × (o ≡ record s { fulfillment_status = shipped; shipped_at = some now }))
unfolding mark_shipped
mark_shipped-ok s o now h = elim (Bool-cases (fulfillment_eq s.fulfillment_status shipped)) [
  | inl done ↦
      inl (
        sym (ok-injective (rw done at h)),
        (fulfillment_eq_iff s.fulfillment_status shipped).0 done,
      )
  | inr not_yet ↦ inr (ground arith, sym (ok-injective (ground arith)))
]

mark_received-ok :
    (s o : OrderDeal) (now : Time)
    → mark_received s now ≡ ok o
    → ((o ≡ s) × (s.fulfillment_status ≡ received))
      ⊎ ((is_paid s ≡ true)
          × (o ≡ record s { fulfillment_status = received; received_at = some now }))
unfolding mark_received
mark_received-ok s o now h = elim (Bool-cases (fulfillment_eq s.fulfillment_status received)) [
  | inl done ↦
      inl (
        sym (ok-injective (rw done at h)),
        (fulfillment_eq_iff s.fulfillment_status received).0 done,
      )
  | inr not_yet ↦ inr (ground arith, sym (ok-injective (ground arith)))
]

ships :
    (r : OrderRepository) (now stored : Time) (s o : OrderDeal)
    → Snapshot r s
    → HasNext s
    → mark_shipped s now ≡ ok o
    → Writes r s (update_fulfillment_with_version r stored o s.version (unshipped ∷ [])).0
unfolding with_fulfillment clone_order normalize_fulfillment_status
ships r now stored s o snap room h = elim (mark_shipped-ok s o now h) [
  | inl (q, done) ↦
      write_fulfillment r stored s o unshipped snap room (rw q refl)
        (λ n. absurd (ground (arith, rw done at n)))
  | inr (sold, q) ↦
      let (p, m) = is_paid-parts s sold in
      write_fulfillment r stored s o unshipped snap room (rw q refl)
        (λ n. rw q (inl (p, m, p, m, n, refl)))
]

receives :
    (r : OrderRepository) (now stored : Time) (s o : OrderDeal)
    → Snapshot r s
    → HasNext s
    → mark_received s now ≡ ok o
    → Writes r s (update_fulfillment_with_version r stored o s.version (shipped ∷ [])).0
unfolding with_fulfillment clone_order normalize_fulfillment_status
receives r now stored s o snap room h = elim (mark_received-ok s o now h) [
  | inl (q, done) ↦
      write_fulfillment r stored s o shipped snap room (rw q refl)
        (λ n. absurd (ground (arith, rw done at n)))
  | inr (sold, q) ↦
      let (p, m) = is_paid-parts s sold in
      write_fulfillment r stored s o shipped snap room (rw q refl)
        (λ n. rw q (inr (p, m, p, m, n, refl)))
]

pub ship_body-Writes :
    (r : OrderRepository) (s : OrderDeal) (now stored : Time) (actor : String) (role : Role)
    → Snapshot r s
    → HasNext s
    → Writes r s (ship_body r (ok s) now stored actor role).0
unfolding ship_body
ship_body-Writes r s now stored actor role snap room = elim (Bool-cases (may_ship s actor role)) [
  | inr q ↦ rw q (inl refl)
  | inl q ↦ elim (Result-cases (mark_shipped s now)) [
    | inr (e, h) ↦ rw (q, h) (inl refl)
    | inl (o, h) ↦ rw (q, h) (ships r now stored s o snap room h)
  ]
]

pub receive_body-Writes :
    (r : OrderRepository) (s : OrderDeal) (now stored : Time) (actor : String) (role : Role)
    → Snapshot r s
    → HasNext s
    → Writes r s (receive_body r (ok s) now stored actor role).0
unfolding receive_body
receive_body-Writes r s now stored actor role snap room = elim (Bool-cases (may_buy s actor role)) [
  | inr q ↦ rw q (inl refl)
  | inl q ↦ elim (Result-cases (mark_received s now)) [
    | inr (e, h) ↦ rw (q, h) (inl refl)
    | inl (o, h) ↦ rw (q, h) (receives r now stored s o snap room h)
  ]
]

pub close_body-Writes :
    (r : OrderRepository) (s : OrderDeal) (now stored : Time)
    → Snapshot r s
    → HasNext s
    → Writes r s (close_body r (ok s) now stored).0
unfolding close_body is_expired_candidate mark_timeout
close_body-Writes r s now stored snap room = elim (Bool-cases (is_expired_candidate s now)) [
  | inr q ↦ rw q (inl refl)
  | inl q ↦
      let fresh = (order_status_eq_iff s.status created).0 (ground arith) in
      elim (Result-cases (mark_timeout s now)) [
        | inl (o, h) ↦ rw (q, h) (times_out r now stored s o snap room fresh h)
        | inr (e, h) ↦ rw (q, h) (inl refl)
      ]
]
