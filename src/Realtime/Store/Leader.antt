-- ===== src/Realtime/Store/Leader.antt =====
-- Who leads an auction stands first in TopN.
use aieas_backend.Prelude.{
  ℕ, ℤ, pos, String, false, some, List, [], ◌∷◌, ◌≡◌, ◌≢◌, ◌⊎◌, inl, inr, refl, sym, ap, ◌∙◌, arith,
  lookup, nat_eq, string_eq, Bool-cases, All, All-Among, differ, Among, Ordered, Distinct,
  insert-Distinct, insert_cases, no_value, some_inj, apart, ◌<ℤ◌, length, Time, str_eq, eq_iff, ◌≤◌,
}
use aieas_backend.Domain.Bid.{AuctionState, BidInput, RankingEntry}
use aieas_backend.Domain.Increment.Bounds.{validate_bid_price_bounds}
use aieas_backend.Realtime.Entry.{
  Entry, Standing, init_auction, blank_entry, enroll, reset_participation,
}
use aieas_backend.Realtime.PlaceBid.{bid, bid_time, effective_rule, effective_cap, effective_start}
use aieas_backend.Realtime.PlaceBid.Cases.{Accepts, bid_cases}
use aieas_backend.Realtime.PlaceBid.Effects.{Accepts-Lands, refuse-Keeps, new_standing}
use aieas_backend.Realtime.Hammer.Outcome.{hammer_cases}
use aieas_backend.Realtime.Invariant.{
  Inv, HasRoom, Step, restarts, enrolls, resets, bids, hammers, Reach, here, next, accepted_fields,
}
use aieas_backend.Realtime.Invariant.Steps.{reachable-Inv}
use aieas_backend.Realtime.Store.{Store, top_n, top_rows, top_limit, ranked_from}
use aieas_backend.Realtime.Store.Ranking.{
  NotBehind, top_rows-Ordered, top_rows-Among, top_rows_cases, top_limit_bounds,
}

-- Everybody but the leader stands below the current price.
record Led (e : Entry) : Type 0 where
  pub distinct : Distinct e.ranking
  pub below :
      (b : String) (s : Standing)
      → lookup b e.ranking ≡ some s
      → b ≢ e.state.leader_bidder_id
      → s.price <ℤ e.state.current_price

Led-same :
    {e e' : Entry}
    → e'.ranking ≡ e.ranking
    → e'.state.leader_bidder_id ≡ e.state.leader_bidder_id
    → e'.state.current_price ≡ e.state.current_price
    → Led e
    → Led e'
Led-same r l p v = record { distinct = rw r v.distinct; below = rw (r, l, p) v.below }

accepted-Led :
    (e : Entry) (clock : Time) (i : BidInput)
    → Inv e
    → HasRoom e i
    → Accepts e clock i
    → Led e
    → Led (bid e clock i).0
accepted-Led e clock i v room a w =
    let now = bid_time i clock in
    let l = (Accepts-Lands a).0 in
    let fields = accepted_fields e now i in
    let price : (bid e clock i).0.state.current_price ≡ i.price =
      ap (λ (s : AuctionState). s.current_price) l.state ∙ fields.0 in
    let leader : (bid e clock i).0.state.leader_bidder_id ≡ i.bidder_id =
      ap (λ (s : AuctionState). s.leader_bidder_id) l.state ∙ fields.1 in
    let higher =
      (validate_bid_price_bounds (effective_start e i) e.state.current_price (effective_cap e i)
        i.price (effective_rule e i) a.priced room).1 in
    record {
      distinct =
          rw (l.ranking) (insert-Distinct i.bidder_id (new_standing e now i) e.ranking w.distinct);
      below = λ b s at other.
          elim (insert_cases i.bidder_id b (new_standing e now i) e.ranking s
            (rw (l.ranking) at at)) [
              | inl (same, _) ↦ absurd (other (sym same ∙ sym leader))
              | inr (_, old) ↦ rw price (omega (arith, higher, v.top b s old))
            ];
    }

enroll_leaves :
    (e : Entry) (u : String)
    → ((enroll e u).ranking ≡ e.ranking)
      × ((enroll e u).state.leader_bidder_id ≡ e.state.leader_bidder_id)
      × ((enroll e u).state.current_price ≡ e.state.current_price)
unfolding enroll
enroll_leaves e u = (refl, ground arith, ground arith)

Step-Led : {e e' : Entry} → Step e e' → Inv e → Led e → Led e'
unfolding init_auction reset_participation lookup
Step-Led {e} (restarts a m c) v w = record { distinct = tt; below = λ b s h. no_value h }
Step-Led {e} (enrolls u n room) v w = let (r, l, p) = enroll_leaves e u in Led-same r l p w
Step-Led {e} resets v w = Led-same refl refl refl w
Step-Led {e} (bids clock i room) v w = elim (bid_cases e clock i) [
  | inl r ↦ rw (r.result) w
  | inr (inl r) ↦
      let k = refuse-Keeps e r.at i r.reason r.same in
      rw (r.result) (
        Led-same k.ranking (ap (λ (s : AuctionState). s.leader_bidder_id) k.state)
          (ap (λ (s : AuctionState). s.current_price) k.state) w)
  | inr (inr a) ↦ accepted-Led e clock i v room a w
]
Step-Led {e} (hammers clock i) v w = elim (hammer_cases e clock i) [
  | inl r ↦ rw (r.result) w
  | inr (inl r) ↦ rw (r.result) w
  | inr (inr r) ↦ rw (r.result) (Led-same refl refl refl w)
]

reachable-Led : (id : ℕ) {e : Entry} → Reach (blank_entry id) e → Led e
unfolding blank_entry lookup
reachable-Led id here = record { distinct = tt; below = λ b s h. no_value h }
reachable-Led id (next r s) = Step-Led s (reachable-Inv id r) (reachable-Led id r)

Among-lookup :
    (b : String) (s : Standing) (m : List (String × Standing))
    → lookup b m ≡ some s
    → Among (b, s) m
unfolding lookup
Among-lookup b s [] h = no_value h
Among-lookup b s ((j, w) ∷ m) h = elim (Bool-cases (str_eq j b)) [
  | inl same ↦ let q : w ≡ s = some_inj (rw same at h) in inl (rw ((eq_iff j b).0 same, q) refl)
  | inr other ↦ inr (Among-lookup b s m (rw other at h))
]

lookup-Among :
    (b : String) (s : Standing) (m : List (String × Standing))
    → Distinct m
    → Among (b, s) m
    → lookup b m ≡ some s
unfolding lookup
lookup-Among b s [] d h = absurd h
lookup-Among b s ((j, w) ∷ m) (n, d) (inl q) =
    rw
      (
        ap (λ (x : String × Standing). x.0) q,
        ap (λ (x : String × Standing). x.1) q,
        (eq_iff b b).1 refl,
      )
      refl
lookup-Among b s ((j, w) ∷ m) (n, d) (inr h) =
    let there = lookup-Among b s m d h in
    let other : str_eq j b ≡ false =
      apart j b (λ q. no_value (sym n ∙ ap (λ k. lookup k m) q ∙ there)) in
    rw other there

-- A row that only itself does not stand behind is the first.
stands_first :
    (x : String × Standing) (n : ℕ) (rows : List (String × Standing))
    → Ordered NotBehind rows
    → 1 ≤ n
    → (Among x rows) ⊎ ((All (λ y. NotBehind y x) rows) × (length rows ≡ n))
    → ((y : String × Standing) → Among y rows → NotBehind y x → y ≡ x)
    → (others : List (String × Standing)) × (rows ≡ x ∷ others)
stands_first x n [] d room (inl m) alone = absurd m
stands_first x n [] d room (inr (_, short)) alone = absurd (omega (arith, room, short))
stands_first x n (h ∷ t) (a, d) room (inl (inl q)) alone = (t, rw q refl)
stands_first x n (h ∷ t) (a, d) room (inl (inr m)) alone =
    (t, rw (alone h (inl refl) (All-Among (NotBehind h) x t a m)) refl)
stands_first x n (h ∷ t) (a, d) room (inr ((b, _), _)) alone = (t, rw (alone h (inl refl) b) refl)

leader_alone :
    (e : Entry) (st : Standing)
    → Led e
    → lookup e.state.leader_bidder_id e.ranking ≡ some st
    → st.price ≡ e.state.current_price
    → (y : String × Standing) → Among y e.ranking
    → NotBehind y (e.state.leader_bidder_id, st)
    → y ≡ (e.state.leader_bidder_id, st)
leader_alone e st w at price (u, s) m ahead =
    let there = lookup-Among u s e.ranking w.distinct m in
    elim (Bool-cases (str_eq u e.state.leader_bidder_id)) [
      | inl same ↦
          let q = (eq_iff u e.state.leader_bidder_id).0 same in
          let v : s ≡ st = some_inj (sym there ∙ ap (λ k. lookup k e.ranking) q ∙ at) in
          rw (q, v) refl
      | inr other ↦
          let low = w.below u s there (differ u e.state.leader_bidder_id other) in
          absurd (ground (arith, ahead, low, price))
    ]

-- Whatever operations reach an auction of the store from its creation, as reachable-Inv counts
-- them: where it has a leader, TopN, whatever its limit, answers with the leader at the current price
-- and rank 1, and the others behind.
pub leader_first :
    (id : ℕ) (s : Store) {e : Entry} (limit : ℤ)
    → Reach (blank_entry id) e
    → lookup id s ≡ some e
    → e.state.leader_bidder_id ≢ ""
    → (others : List RankingEntry) × (top_n s id limit
        ≡ record {
          rank = pos 1;
          bidder_id = e.state.leader_bidder_id;
          price = e.state.current_price;
        }
          ∷ others)
unfolding top_n
leader_first id s {e} limit r at led =
    let w = reachable-Led id r in
    elim ((reachable-Inv id r).led) [
      | inl nobody ↦ absurd (led nobody)
      | inr (st, ranked, price) ↦
          let x : String × Standing = (e.state.leader_bidder_id, st) in
          let (others, rows) =
            stands_first x (top_limit limit) (top_rows e limit) (top_rows-Ordered e limit)
              ((top_limit_bounds limit).0)
              (top_rows_cases e limit x (Among-lookup e.state.leader_bidder_id st e.ranking ranked))
              (λ y m. leader_alone e st w ranked price y (top_rows-Among e limit y m)) in
          (ranked_from 1 others, rw (at, top_n, rows, price) refl)
    ]
