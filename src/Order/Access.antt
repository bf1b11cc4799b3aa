-- ===== src/Order/Access.antt =====
-- Who sees which orders through List and Mine.
use aieas_backend.Prelude.{
  ℕ, zero, suc, String, Bool, true, false, none, some, List, [], ◌∷◌, ◌≡◌, refl, arith, is_empty,
  eq_iff, All, take, lookup, insert, string_eq, Bool-cases, Option-cases, inl, inr, trim_space,
}
use aieas_backend.Domain.Error.{Result, ok, ok-injective, Result-cases}
use aieas_backend.Domain.User.{Role, admin, buyer, merchant, other_role, User}
use aieas_backend.Order.Deal.{OrderDeal}
use aieas_backend.Order.Repository.{OrderRepository, clone_order}
use aieas_backend.Order.Listing.{
  normalize_user_id, OrderFilter, matches, matches_user, select, place, sort_orders, drop,
  list_orders,
}
use aieas_backend.Order.Service.{UserReader}
use aieas_backend.Order.Query.{own_filter, enrich_loop, enrich_winner_nicknames, list}

-- The order's winner, or its seller, is the actor, up to the prefix that the clients write.
abbrev pub WonBy : String → OrderDeal → Type 0
WonBy actor o = normalize_user_id o.winner_id ≡ normalize_user_id actor

abbrev pub SoldBy : String → OrderDeal → Type 0
SoldBy actor o = normalize_user_id o.seller_id ≡ normalize_user_id actor

-- What List does with the selected orders keeps a property of all of them.
module _ (P : OrderDeal → Type 0) where
  place-All :
      (less : OrderDeal → OrderDeal → Bool) (o : OrderDeal) (l : List OrderDeal)
      → P o
      → All P l
      → All P (place less o l)
  place-All less o [] p a = (p, tt)
  place-All less o (x ∷ l) p (q, a) = elim (Bool-cases (less x o)) [
    | inl first ↦ rw first (q, place-All less o l p a)
    | inr second ↦ rw second (p, (q, a))
  ]

  sort-All :
      (less : OrderDeal → OrderDeal → Bool) (l : List OrderDeal)
      → All P l
      → All P (sort_orders less l)
  sort-All less [] a = tt
  sort-All less (o ∷ l) (p, a) = place-All less o (sort_orders less l) p (sort-All less l a)

  take-All : (n : ℕ) (l : List OrderDeal) → All P l → All P (take n l)
  take-All zero l a = tt
  take-All (suc n) [] a = tt
  take-All (suc n) (x ∷ l) (p, a) = (p, take-All n l a)

  drop-All : (n : ℕ) (l : List OrderDeal) → All P l → All P (drop n l)
  drop-All zero l a = a
  drop-All (suc n) [] a = tt
  drop-All (suc n) (x ∷ l) (p, a) = drop-All n l a

  select-All :
      (f : OrderFilter) (m : List (ℕ × OrderDeal))
      → ((o : OrderDeal) → matches f o ≡ true → P (clone_order o))
      → All P (select (matches f) m)
  unfolding select
  select-All f [] h = tt
  select-All f ((k, o) ∷ m) h = elim (Bool-cases (matches f o)) [
    | inl kept ↦ rw (kept, select) (h o kept, select-All f m h)
    | inr left ↦ rw (left, select) (select-All f m h)
  ]

  list_orders-All :
      (r : OrderRepository) (f : OrderFilter)
      → ((o : OrderDeal) → matches f o ≡ true → P (clone_order o))
      → All P (list_orders r f)
  unfolding list_orders
  list_orders-All r f h = take-All _ _ (drop-All _ _ (sort-All _ _ (select-All f r.orders h)))

  enrich_loop-All :
      (find : String → Result User) (cache : List (String × String)) (l : List OrderDeal)
      → ((o : OrderDeal) (s : String)
          → P o
          → let o' : OrderDeal = record o { winner_nickname = s } in P o')
      → All P l
      → All P (enrich_loop find cache l)
  unfolding enrich_loop
  enrich_loop-All find cache [] h a = tt
  enrich_loop-All find cache (o ∷ l) h (p, a) =
      let winner = trim_space o.winner_id in
      elim (Bool-cases (is_empty winner)) [
        | inl blank ↦ rw (blank, enrich_loop) (p, enrich_loop-All find cache l h a)
        | inr some_winner ↦ elim (Option-cases (lookup winner cache)) [
          | inr (s, hit) ↦
              rw (some_winner, hit, enrich_loop) (h o s p, enrich_loop-All find cache l h a)
          | inl miss ↦ elim (Result-cases (find winner)) [
            | inr (e, q) ↦
                rw (some_winner, miss, q, enrich_loop)
                  (p, enrich_loop-All find (insert winner "" cache) l h a)
            | inl (user, q) ↦
                rw (some_winner, miss, q, enrich_loop)
                  (
                    h o (trim_space user.nickname) p,
                    enrich_loop-All find (insert winner (trim_space user.nickname) cache) l h a,
                  )
          ]
        ]
      ]

matches_user-same :
    (wanted id : String)
    → is_empty wanted ≡ false
    → matches_user wanted id ≡ true
    → normalize_user_id id ≡ normalize_user_id wanted
unfolding matches_user
matches_user-same wanted id named h =
    (eq_iff (normalize_user_id id) (normalize_user_id wanted)).0 (rw named at h)

matches-WonBy :
    (f : OrderFilter) (o : OrderDeal)
    → is_empty f.winner_id ≡ false
    → matches f o ≡ true
    → WonBy f.winner_id (clone_order o)
unfolding matches clone_order
matches-WonBy f o named h = matches_user-same f.winner_id o.winner_id named (ground arith)

matches-SoldBy :
    (f : OrderFilter) (o : OrderDeal)
    → is_empty f.seller_id ≡ false
    → matches f o ≡ true
    → SoldBy f.seller_id (clone_order o)
unfolding matches clone_order
matches-SoldBy f o named h = matches_user-same f.seller_id o.seller_id named (ground arith)

enriched-All :
    (P : OrderDeal → Type 0) (users : UserReader) (l : List OrderDeal)
    → ((o : OrderDeal) (s : String)
        → P o
        → let o' : OrderDeal = record o { winner_nickname = s } in P o')
    → All P l
    → All P (enrich_winner_nicknames users l)
unfolding enrich_winner_nicknames
enriched-All P none l h a = a
enriched-All P (some find) l h a = enrich_loop-All P find [] l h a

-- Role.Valid
abbrev pub is_known : Role → Bool
is_known (other_role s) = false
is_known _ = true

-- What an actor may see of all orders.
abbrev pub MaySee : Role → String → OrderDeal → Type 0
MaySee admin actor o = Unit
MaySee merchant actor o = SoldBy actor o
MaySee buyer actor o = WonBy actor o
MaySee (other_role s) actor o = true ≡ false

-- For an actor with a name that is not empty, List gives a buyer only orders that the buyer won, and
-- a merchant only orders that the merchant sold, whatever the filter asks for, and it gives
-- nothing to a role that is not one of the three.
pub list_own :
    (users : UserReader) (r : OrderRepository) (f : OrderFilter) (actor : String) (role : Role)
    (l : List OrderDeal)
    → is_empty actor ≡ false
    → list users r f actor role ≡ ok l
    → All (MaySee role actor) l × (is_known role ≡ true)
unfolding list own_filter
list_own users r f actor admin l named h = (
  rw (← ok-injective h)
      (enriched-All (λ _. Unit) users _ (λ o s p. p) (list_orders-All (λ _. Unit) r f (λ o m. tt))),
  refl,
)
list_own users r f actor buyer l named h = (
  rw (← ok-injective h) (
      enriched-All (WonBy actor) users _ (λ o s p. p)
        (list_orders-All (WonBy actor) r (record f { winner_id = actor })
          (λ o m. matches-WonBy (record f { winner_id = actor }) o named m))),
  refl,
)
list_own users r f actor merchant l named h = (
  rw (← ok-injective h) (
      enriched-All (SoldBy actor) users _ (λ o s p. p)
        (list_orders-All (SoldBy actor) r (record f { seller_id = actor })
          (λ o m. matches-SoldBy (record f { seller_id = actor }) o named m))),
  refl,
)
list_own users r f actor (other_role s) l named h = absurd (ground arith)
