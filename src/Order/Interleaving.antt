-- ===== src/Order/Interleaving.antt =====
-- What holds of the orders along every sequence of operations, and that no operation undoes
-- another one's decision on an order.
use mathlib.Core.List.{Memᴰ}
use aieas_backend.Prelude.{
  ℕ, ℤ, true, ◌≡◌, ◌⊎◌, inl, inr, refl, sym, ap, ◌∙◌, arith, none, some, List, [], ◌∷◌, Time,
  lookup, insert, lookup-insert, ◌≤ℤ◌, Option-cases, Bool-cases, nat_eq, All, ◌≤◌, ◌==◌, ==_iff,
}
use aieas_backend.Domain.Error.{ok, err, ok-injective, not_found}
use aieas_backend.Order.Deal.{
  OrderDeal, FulfillmentStatus, normalize_fulfillment_status, is_terminal,
}
use aieas_backend.Order.Repository.{
  OrderRepository, new_order_repository, new_order, create_if_absent_by_auction, find_by_id,
  clone_order,
}
use aieas_backend.Order.Update.{Snapshot, put}
use aieas_backend.Order.Moves.{Writes, Moves, pay_body-Writes}
use aieas_backend.Order.Deliveries.{ship_body-Writes, receive_body-Writes, close_body-Writes}
use aieas_backend.Order.History.{
  Life, Inv, IsNew, Later, Onward-refl, Onward-trans, squeeze, Moves-Onward, Moves-Life, Step,
  Steps, delivery, creates, reads, pays, ships, receives, times_out, here, next,
}

Later-refl : (r : OrderRepository) → Later r r
Later-refl r id o at = (o, at, Onward-refl o)

Later-trans : (a b c : OrderRepository) → Later a b → Later b c → Later a c
Later-trans a b c f g id o at =
    let (o', at', on) = f id o at in
    let (o'', at'', on') = g id o' at' in (o'', at'', Onward-trans o o' o'' on on')

no_order : {o : OrderDeal} {A : Type 0} → none ≡ some o → A
no_order h = absurd (ground arith)

not_ok : {o : OrderDeal} {A : Type 0} → err not_found ≡ ok o → A
not_ok h = absurd (ground arith)

some_eq : {a b : OrderDeal} → some a ≡ some b → a ≡ b
some_eq h = cc

put-Inv :
    (r : OrderRepository) (s o : OrderDeal)
    → Inv r
    → lookup s.id r.orders ≡ some s
    → Moves s o
    → Inv (put r s.id o)
put-Inv r s o v at m id o' h = elim (Bool-cases (s.id == id)) [
  | inl same ↦
      let q : o ≡ o' = some_eq (rw (lookup-insert s.id id o r.orders, same) at h) in
      rw (← q) (m.0 ∙ (==_iff s.id id).0 same, Moves-Life s o ((v s.id s at).1) m)
  | inr other ↦ v id o' (rw (lookup-insert s.id id o r.orders, other) at h)
]

put-Later :
    (r : OrderRepository) (s o : OrderDeal)
    → Inv r
    → lookup s.id r.orders ≡ some s
    → Moves s o
    → Later r (put r s.id o)
put-Later r s o v at m id o' h = elim (Bool-cases (s.id == id)) [
  | inl same ↦
      let q : o' ≡ s = some_eq (sym h ∙ rw (← (==_iff s.id id).0 same) at) in
      (
        o,
        rw (lookup-insert s.id id o r.orders, same) refl,
        rw q (Moves-Onward s o ((v s.id s at).1) m),
      )
  | inr other ↦ (o', rw (lookup-insert s.id id o r.orders, other) h, Onward-refl o')
]

Writes-Inv :
    {r r' : OrderRepository} (s : OrderDeal) → Inv r → Writes r s r' → (Inv r') × Later r r'
Writes-Inv {r} s v (inl q) = rw q (v, Later-refl r)
Writes-Inv {r} s v (inr (o, at, q, m)) = rw q (put-Inv r s o v at m, put-Later r s o v at m)

Snapshot-Later :
    (r r' : OrderRepository) (s : OrderDeal) → Later r r' → Snapshot r s → Snapshot r' s
Snapshot-Later r r' s f (o, at, less, tells) =
    let (o', at', (l, same, _, _)) = f s.id o at in
    (
      o',
      at',
      omega (arith, less, l),
      λ q. let (p, p') = squeeze s.version o.version o'.version less l q in same p' ∙ tells p,
    )

All-Later :
    (r r' : OrderRepository) (seen : List OrderDeal)
    → Later r r'
    → All (Snapshot r) seen
    → All (Snapshot r') seen
All-Later r r' [] f a = tt
All-Later r r' (s ∷ seen) f (h, a) = (Snapshot-Later r r' s f h, All-Later r r' seen f a)

All-Memᴰ :
    (r : OrderRepository) (s : OrderDeal) (seen : List OrderDeal)
    → Memᴰ s seen
    → All (Snapshot r) seen
    → Snapshot r s
All-Memᴰ r s [] m a = elim m [ ]
All-Memᴰ r s (x ∷ seen) (Memᴰ.head e) (h, a) = rw e h
All-Memᴰ r s (x ∷ seen) (Memᴰ.tail m) (h, a) = All-Memᴰ r s seen m a

-- What CreateIfAbsentByAuction does: nothing, or a new order under its key.
create_cases :
    (r : OrderRepository) (now : Time) (o : OrderDeal)
    → let n = new_order r now o in
      let r' = (create_if_absent_by_auction r now o).0 in
      (r' ≡ r) ⊎ (r'.orders ≡ insert n.id (clone_order n) r.orders)
unfolding create_if_absent_by_auction
create_cases r now o = elim (Option-cases (lookup o.auction_id r.by_auction)) [
  | inr (id, old) ↦ inl (rw (old, create_if_absent_by_auction) refl)
  | inl fresh ↦ inr (rw (fresh, create_if_absent_by_auction) refl)
]

added-Inv :
    (r : OrderRepository) (now : Time) (o : OrderDeal)
    → Inv r
    → IsNew o
    → lookup ((new_order r now o).id) r.orders ≡ none
    → let n = new_order r now o in let r' = put r n.id (clone_order n) in (Inv r') × Later r r'
unfolding new_order clone_order
added-Inv r now o v (st, py, fu) free =
    let n = new_order r now o in
    let c : OrderDeal = clone_order n in
    (
      λ id o' h. elim (Bool-cases (n.id == id)) [
        | inl same ↦
            let q : c ≡ o' = some_eq (rw (lookup-insert n.id id c r.orders, same) at h) in
            rw (← q) ((==_iff n.id id).0 same, inl (st, py, fu))
        | inr other ↦ v id o' (rw (lookup-insert n.id id c r.orders, other) at h)
      ],
      λ id o' h. elim (Bool-cases (n.id == id)) [
        | inl same ↦ no_order (sym free ∙ rw (← (==_iff n.id id).0 same) at h)
        | inr other ↦ (o', rw (lookup-insert n.id id c r.orders, other) h, Onward-refl o')
      ],
    )

created-Inv :
    (r : OrderRepository) (now : Time) (o : OrderDeal)
    → Inv r
    → IsNew o
    → lookup ((new_order r now o).id) r.orders ≡ none
    → (Inv (create_if_absent_by_auction r now o).0)
      × Later r (create_if_absent_by_auction r now o).0
created-Inv r now o v new free = elim (create_cases r now o) [
  | inl q ↦ rw q (v, Later-refl r)
  | inr q ↦
      let (v', f) = added-Inv r now o v new free in
      (λ id o' h. v' id o' (rw q at h), λ id o' h. rw q (f id o' h))
]

Life-clone : (o : OrderDeal) → Life o → clone_order o ≡ o
unfolding clone_order normalize_fulfillment_status
Life-clone o l =
    let n : normalize_fulfillment_status o.fulfillment_status ≡ o.fulfillment_status =
      ground arith in
    ap (λ (f : FulfillmentStatus). let o' : OrderDeal = record o { fulfillment_status = f } in o') n

le_of_eq : (a b : ℤ) → a ≡ b → a ≤ℤ b
le_of_eq a b e = rw e (omega arith)

-- Reading gives a snapshot.
read-Snapshot :
    (r : OrderRepository) (id : ℕ) (s : OrderDeal) → Inv r → find_by_id r id ≡ ok s → Snapshot r s
unfolding find_by_id
read-Snapshot r id s v h = elim (Option-cases (lookup id r.orders)) [
  | inl none_there ↦ not_ok (rw (none_there, find_by_id) at h)
  | inr (o, at) ↦
      let (key, life) = v id o at in
      let same : o ≡ s = sym (Life-clone o life) ∙ ok-injective (rw (at, find_by_id) at h) in
      let named : s.id ≡ id = ap (λ (x : OrderDeal). x.id) (sym same) ∙ key in
      (
        o,
        ap (λ (k : ℕ). lookup k r.orders) named ∙ at,
        le_of_eq s.version o.version (ap (λ (x : OrderDeal). x.version) (sym same)),
        λ _. same,
      )
]

written :
    {r r' : OrderRepository} (seen : List OrderDeal) (s : OrderDeal)
    → Inv r
    → All (Snapshot r) seen
    → Writes r s r'
    → (Inv r') × (Later r r') × All (Snapshot r') seen
written {r} {r'} seen s v a w = let (v', f) = Writes-Inv s v w in (v', f, All-Later r r' seen f a)

Step-Inv :
    {r : OrderRepository} {seen : List OrderDeal} {r' : OrderRepository} {seen' : List OrderDeal}
    → Step r seen r' seen'
    → Inv r
    → All (Snapshot r) seen
    → (Inv r') × (Later r r') × All (Snapshot r') seen'
Step-Inv {r} {seen} (creates now o new free) v a =
    let (v', f) = created-Inv r now o v new free in
    (v', f, All-Later r (create_if_absent_by_auction r now o).0 seen f a)
Step-Inv {r} {seen} (reads id s h) v a = (v, Later-refl r, (read-Snapshot r id s v h, a))
Step-Inv {r} {seen} (pays s now stored actor role m n) v a =
    written seen s v a (pay_body-Writes r s now stored actor role (All-Memᴰ r s seen m a) n)
Step-Inv {r} {seen} (ships s now stored actor role m n) v a =
    written seen s v a (ship_body-Writes r s now stored actor role (All-Memᴰ r s seen m a) n)
Step-Inv {r} {seen} (receives s now stored actor role m n) v a =
    written seen s v a (receive_body-Writes r s now stored actor role (All-Memᴰ r s seen m a) n)
Step-Inv {r} {seen} (times_out s now stored m n) v a =
    written seen s v a (close_body-Writes r s now stored (All-Memᴰ r s seen m a) n)

Steps-Inv :
    {r : OrderRepository} {seen : List OrderDeal} {r' : OrderRepository} {seen' : List OrderDeal}
    → Steps r seen r' seen'
    → Inv r
    → All (Snapshot r) seen
    → (Inv r') × (Later r r') × All (Snapshot r') seen'
Steps-Inv {r} here v a = (v, Later-refl r, a)
Steps-Inv {r} {r' = r'} (next {r' = m} h s) v a =
    let (v', f, a') = Steps-Inv h v a in
    let (v'', g, a'') = Step-Inv s v' a' in (v'', Later-trans r m r' f g, a'')

empty-Inv : Inv new_order_repository
unfolding lookup
empty-Inv id o h = no_order h

-- Whatever orders are created and whatever payments, deliveries and timeouts run on them, in any
-- interleaving, each order awaits its payment and is not shipped, or is paid with a known delivery
-- status, or has timed out unpaid and not shipped. Created orders come unpaid, unshipped and under
-- an identifier that is free, and the versions stay in int64.
pub order-Life :
    {r : OrderRepository} {seen : List OrderDeal} (id : ℕ) (o : OrderDeal)
    → Steps new_order_repository [] r seen
    → lookup id r.orders ≡ some o
    → (o.id ≡ id) × Life o
order-Life id o h at = (Steps-Inv h empty-Inv tt).0 id o at

-- Once an order is paid or timed out, no later operation changes its status or its payment, loses
-- it, or turns its delivery back, also if that operation had read the order before. Created orders
-- come unpaid, unshipped and under an identifier that is free, and the versions stay in int64.
pub decided_order_stays :
    {r : OrderRepository} {seen : List OrderDeal} {r' : OrderRepository} {seen' : List OrderDeal}
    (id : ℕ) (o : OrderDeal)
    → Steps new_order_repository [] r seen
    → Steps r seen r' seen'
    → lookup id r.orders ≡ some o
    → is_terminal o.status ≡ true
    → (o' : OrderDeal) × (lookup id r'.orders ≡ some o')
      × (o'.status ≡ o.status)
      × (o'.pay_status ≡ o.pay_status)
      × (delivery o.fulfillment_status ≤ delivery o'.fulfillment_status)
decided_order_stays {r} {seen} id o before after at done =
    let (v, f, a) = Steps-Inv before empty-Inv tt in
    let (v', g, a') = Steps-Inv after v a in
    let (o', at', (_, _, kept, d)) = g id o at in let (st, py) = kept done in (o', at', st, py, d)
