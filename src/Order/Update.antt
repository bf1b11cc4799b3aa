-- ===== src/Order/Update.antt =====
-- What the two versioned updates of the memory repository do with a snapshot: an order that was
-- read earlier, and whose version stands for its content.
use aieas_backend.Prelude.{
  ℕ, ℤ, true, ◌≡◌, ◌⊎◌, inl, inr, sym, arith, some, List, Time, eqb_ℤ, lookup, insert, ◌≤ℤ◌, nat_eq,
  Bool-cases,
}
use aieas_backend.Order.Deal.{OrderStatus, FulfillmentStatus, OrderDeal}
use aieas_backend.Order.Repository.{
  OrderRepository, with_status, update_status_with_version, order_status_in_list, with_fulfillment,
  update_fulfillment_with_version, fulfillment_status_in_list,
}

-- An order that was read from the repository at some time: the one that is there now has the same
-- version only if it is the same.
abbrev pub Snapshot : OrderRepository → OrderDeal → Type 0
Snapshot r s =
    (o : OrderDeal) × (lookup s.id r.orders ≡ some o)
    × (s.version ≤ℤ o.version)
    × (s.version ≡ o.version → o ≡ s)

-- The repository with another order in the place of one.
abbrev pub put : OrderRepository → ℕ → OrderDeal → OrderRepository
put r id o = record r { orders = insert id o r.orders }

eqb-eq : (a b : ℤ) → eqb_ℤ a b ≡ true → a ≡ b
eqb-eq a b h = ground arith

-- An update on a snapshot leaves the repository alone, or it finds the snapshot there.
pub update_status-Snapshot :
    (r : OrderRepository) (now : Time) (s o : OrderDeal) (allowed : List OrderStatus)
    → o.id ≡ s.id
    → Snapshot r s
    → let w = update_status_with_version r now o s.version allowed in
      (w.0 ≡ r)
      ⊎ ((lookup s.id r.orders ≡ some s)
          × (order_status_in_list s.status allowed ≡ true)
          × (w.0 ≡ put r s.id (with_status s o s.version now)))
unfolding update_status_with_version
update_status-Snapshot r now s o allowed same (c, at, less, tells) =
    elim (Bool-cases (eqb_ℤ c.version s.version)) [
      | inr differs ↦ rw (same, at, differs) (ground arith)
      | inl agrees ↦
          let e : c ≡ s = tells (sym (eqb-eq c.version s.version agrees)) in
          elim (Bool-cases (order_status_in_list s.status allowed)) [
            | inr differs ↦ rw (same, at, e, differs) (ground arith)
            | inl listed ↦ rw (same, at, agrees, e, listed) (ground arith)
          ]
    ]

pub update_fulfillment-Snapshot :
    (r : OrderRepository) (now : Time) (s o : OrderDeal) (allowed : List FulfillmentStatus)
    → o.id ≡ s.id
    → Snapshot r s
    → let w = update_fulfillment_with_version r now o s.version allowed in
      (w.0 ≡ r)
      ⊎ ((lookup s.id r.orders ≡ some s)
          × (fulfillment_status_in_list s.fulfillment_status allowed ≡ true)
          × (w.0 ≡ put r s.id (with_fulfillment s o s.version now)))
unfolding update_fulfillment_with_version
update_fulfillment-Snapshot r now s o allowed same (c, at, less, tells) =
    elim (Bool-cases (eqb_ℤ c.version s.version)) [
      | inr differs ↦ rw (same, at, differs) (ground arith)
      | inl agrees ↦
          let e : c ≡ s = tells (sym (eqb-eq c.version s.version agrees)) in
          elim (Bool-cases (fulfillment_status_in_list s.fulfillment_status allowed)) [
            | inr differs ↦ rw (same, at, e, differs) (ground arith)
            | inl listed ↦ rw (same, at, agrees, e, listed) (ground arith)
          ]
    ]
