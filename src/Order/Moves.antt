-- ===== src/Order/Moves.antt =====
-- What the bodies of the order service do to one order: each either leaves the repository alone or
-- replaces the order that it has read by one that is a single move further.
use aieas_backend.Prelude.{
  pos, String, true, false, ◌≡◌, ◌⊎◌, inl, inr, refl, sym, arith, some, [], ◌∷◌, Time, lookup,
  IsInt64, ◌+ℤ◌, add64_exact, Bool-cases, nat_eq,
}
use aieas_backend.Domain.Error.{Result, ok, err, ok-injective}
use aieas_backend.Domain.User.{Role}
use aieas_backend.Order.Deal.{
  created, paid, timeout, unpaid, pay_paid, FulfillmentStatus, unshipped, shipped, received,
  OrderDeal, normalize_fulfillment_status, order_status_eq, order_status_eq_iff, fulfillment_eq_iff,
  pay_is_unpaid, is_paid, can_transition_order, payment_expired, mark_paid, mark_timeout,
}
use aieas_backend.Order.Repository.{
  OrderRepository, with_status, with_fulfillment, clone_order, fulfillment_status_in_list,
  update_status_with_version, update_fulfillment_with_version,
}
use aieas_backend.Order.Service.{pay_body, pay_write, may_buy, PayEnd}
use aieas_backend.Order.Update.{Snapshot, put, update_status-Snapshot, update_fulfillment-Snapshot}

-- The four moves of an order, by what they find and what they leave.
abbrev pub Pays : OrderDeal → OrderDeal → Type 0
Pays s o =
    (s.status ≡ created)
    × (o.status ≡ paid)
    × (o.pay_status ≡ pay_paid)
    × (o.fulfillment_status ≡ normalize_fulfillment_status s.fulfillment_status)

abbrev pub TimesOut : OrderDeal → OrderDeal → Type 0
TimesOut s o =
    (s.status ≡ created)
    × (s.pay_status ≡ unpaid)
    × (o.status ≡ timeout)
    × (o.pay_status ≡ unpaid)
    × (o.fulfillment_status ≡ normalize_fulfillment_status s.fulfillment_status)

abbrev pub Delivers : FulfillmentStatus → FulfillmentStatus → OrderDeal → OrderDeal → Type 0
Delivers from to s o =
    (s.status ≡ paid)
    × (s.pay_status ≡ pay_paid)
    × (o.status ≡ paid)
    × (o.pay_status ≡ pay_paid)
    × (normalize_fulfillment_status s.fulfillment_status ≡ from)
    × (o.fulfillment_status ≡ to)

abbrev pub Moves : OrderDeal → OrderDeal → Type 0
Moves s o =
    (o.id ≡ s.id)
    × (o.version ≡ s.version +ℤ pos 1)
    × (Pays s o ⊎ TimesOut s o ⊎ Delivers unshipped shipped s o ⊎ Delivers shipped received s o)

-- What a body does that has read s.
abbrev pub Writes : OrderRepository → OrderDeal → OrderRepository → Type 0
Writes r s r' =
    (r' ≡ r) ⊎ ((o : OrderDeal) × (lookup s.id r.orders ≡ some s) × (r' ≡ put r s.id o) × Moves s o)

-- The version has a successor in int64.
abbrev pub HasNext : OrderDeal → Type 0
HasNext s = IsInt64 (s.version +ℤ pos 1)

write_status :
    (r : OrderRepository) (stored : Time) (s o : OrderDeal)
    → Snapshot r s
    → HasNext s
    → o.id ≡ s.id
    → Pays s (with_status s o s.version stored) ⊎ TimesOut s (with_status s o s.version stored)
    → Writes r s (update_status_with_version r stored o s.version (created ∷ [])).0
unfolding with_status clone_order
write_status r stored s o snap room same move =
    elim (update_status-Snapshot r stored s o (created ∷ []) same snap) [
      | inl q ↦ inl q
      | inr (at, _, q) ↦ inr (
        with_status s o s.version stored,
        at,
        q,
        (
          refl,
          add64_exact s.version (pos 1) room,
          elim move [ inl m ↦ inl m | inr m ↦ inr (inl m) ],
        ),
      )
    ]

listed_one :
    (f from : FulfillmentStatus)
    → fulfillment_status_in_list f (from ∷ []) ≡ true
    → normalize_fulfillment_status f ≡ normalize_fulfillment_status from
unfolding fulfillment_status_in_list
listed_one f from h =
    ground (
      arith,
      fulfillment_eq_iff (normalize_fulfillment_status f) (normalize_fulfillment_status from),
    )

pub write_fulfillment :
    (r : OrderRepository) (stored : Time) (s o : OrderDeal) (from : FulfillmentStatus)
    → Snapshot r s
    → HasNext s
    → o.id ≡ s.id
    → (normalize_fulfillment_status s.fulfillment_status ≡ normalize_fulfillment_status from
        → let o' = with_fulfillment s o s.version stored in
          Delivers unshipped shipped s o' ⊎ Delivers shipped received s o')
    → Writes r s (update_fulfillment_with_version r stored o s.version (from ∷ [])).0
unfolding with_fulfillment clone_order
write_fulfillment r stored s o from snap room same move =
    elim (update_fulfillment-Snapshot r stored s o (from ∷ []) same snap) [
      | inl q ↦ inl q
      | inr (at, listed, q) ↦ inr (
        with_fulfillment s o s.version stored,
        at,
        q,
        (
          refl,
          add64_exact s.version (pos 1) room,
          elim (move (listed_one s.fulfillment_status from listed)) [
            | inl m ↦ inr (inr (inl m))
            | inr m ↦ inr (inr (inr m))
          ],
        ),
      )
    ]

pub mark_paid-ok :
    (s o : OrderDeal) (now : Time)
    → is_paid s ≡ false
    → mark_paid s now ≡ ok o
    → o ≡ record s { status = paid; pay_status = pay_paid; paid_at = some now }
unfolding mark_paid
mark_paid-ok s o now fresh h = elim (Bool-cases (can_transition_order s.status paid)) [
  | inl may ↦ sym (ok-injective (rw (fresh, may) at h))
  | inr not_may ↦ absurd (ground (arith, rw (fresh, not_may) at h))
]

pub mark_timeout-ok :
    (s o : OrderDeal) (now : Time)
    → s.status ≡ created
    → mark_timeout s now ≡ ok o
    → (s.pay_status ≡ unpaid) × (o ≡ record s { status = timeout; closed_at = some now })
unfolding mark_timeout pay_is_unpaid order_status_eq can_transition_order
mark_timeout-ok s o now fresh h = elim (Bool-cases (pay_is_unpaid s.pay_status)) [
  | inl may ↦ (ground arith, sym (ok-injective (rw (fresh, may) at h)))
  | inr not_may ↦ absurd (ground (arith, rw (fresh, not_may) at h))
]

pub times_out :
    (r : OrderRepository) (now stored : Time) (s o : OrderDeal)
    → Snapshot r s
    → HasNext s
    → s.status ≡ created
    → mark_timeout s now ≡ ok o
    → Writes r s (update_status_with_version r stored o s.version (created ∷ [])).0
unfolding with_status clone_order
times_out r now stored s o snap room fresh h =
    let (owed, q) = mark_timeout-ok s o now fresh h in
    write_status r stored s o snap room (rw q refl) (rw q (inr (fresh, owed, refl, owed, refl)))

pays_off :
    (r : OrderRepository) (now stored : Time) (s o : OrderDeal)
    → Snapshot r s
    → HasNext s
    → s.status ≡ created
    → is_paid s ≡ false
    → mark_paid s now ≡ ok o
    → Writes r s (update_status_with_version r stored o s.version (created ∷ [])).0
unfolding with_status clone_order
pays_off r now stored s o snap room fresh new h =
    let q = mark_paid-ok s o now new h in
    write_status r stored s o snap room (rw q refl) (rw q (inl (fresh, refl, refl, refl)))

pay_write-Writes :
    (r : OrderRepository) (stored : Time) (s : OrderDeal) (m : Result OrderDeal)
    (end : OrderDeal → PayEnd)
    → ((o : OrderDeal)
        → m ≡ ok o
        → Writes r s (update_status_with_version r stored o s.version (created ∷ [])).0)
    → Writes r s (pay_write r stored s m end).0
unfolding pay_write
pay_write-Writes r stored s (ok o) end h = h o refl
pay_write-Writes r stored s (err e) end h = inl refl

pub pay_body-Writes :
    (r : OrderRepository) (s : OrderDeal) (now stored : Time) (actor : String) (role : Role)
    → Snapshot r s
    → HasNext s
    → Writes r s (pay_body r (ok s) now stored actor role).0
unfolding pay_body
pay_body-Writes r s now stored actor role snap room = elim (Bool-cases (may_buy s actor role)) [
  | inr q ↦ rw q (inl refl)
  | inl q ↦ elim (Bool-cases (is_paid s)) [
    | inl p ↦ rw (q, p) (inl refl)
    | inr new ↦ elim (Bool-cases (order_status_eq s.status created)) [
      | inr p ↦ rw (q, new, p) (inl refl)
      | inl p ↦
          let fresh = (order_status_eq_iff s.status created).0 p in
          elim (Bool-cases (payment_expired s now)) [
            | inl late ↦
                rw (q, new, p, late)
                  (pay_write-Writes r stored s _ _
                    (λ o. times_out r now stored s o snap room fresh))
            | inr in_time ↦
                rw (q, new, p, in_time)
                  (pay_write-Writes r stored s _ _
                    (λ o. pays_off r now stored s o snap room fresh new))
          ]
    ]
  ]
]
