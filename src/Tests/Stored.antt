-- ===== src/Tests/Stored.antt =====
-- One auction of the whole store, with a bid, and its ranking.
use aieas_backend.Prelude.{
  pos, String, some, List, [], ◌∷◌, ◌≡◌, ◌⊎◌, inl, refl, arith, lookup, nat_eq, string_eq, All,
  Among, Ordered, length, ◌≤◌, differ, trim_left, trim_right,
}
use mathlib.Core.Path.{subst}
use aieas_backend.Domain.Bid.{RankingEntry}
use aieas_backend.Realtime.Entry.{Entry, Standing, blank_entry}
use aieas_backend.Realtime.PlaceBid.{bid}
use aieas_backend.Realtime.Invariant.{HasRoom, Reach}
use aieas_backend.Realtime.Store.{
  Store, new_store, init_stored_auction, get_or_create_auction, mark_enrollment, place_bid, top_n,
}
use aieas_backend.Realtime.Store.Steps.{
  StoreReach, starts, goes_on, inits, marks, places, stored_auction-Reach,
}
use aieas_backend.Realtime.Store.Ranking.{NotBehind, Numbers, top_n_best}
use aieas_backend.Realtime.Store.Leader.{leader_first}
use aieas_backend.Tests.Data.{running_store, lot, bid_input, joined}

abbrev filled : Store
filled = (7, (bid joined 0 bid_input).0) ∷ []

-- Opens the operations of the whole store too.
unfoldable running_stored : Unit {0}
unfolding running_store init_stored_auction get_or_create_auction mark_enrollment place_bid top_n
    trim_left trim_right
running_stored = tt

abbrev with_lot : Store
with_lot = (init_stored_auction new_store lot (pos 1) (pos 5)).0

abbrev with_user : Store
with_user = (mark_enrollment with_lot 7 " u1 ").0

abbrev with_bid : Store
with_bid = (place_bid with_user 0 bid_input).0

with_user-StoreReach : StoreReach with_user
unfolding running_stored
with_user-StoreReach =
    goes_on (goes_on starts (inits lot (pos 1) (pos 5))) (marks 7 " u1 " (omega arith))

same_entry : {e f : Entry} → some e ≡ some f → e ≡ f
same_entry h = cc

with_bid-StoreReach : StoreReach with_bid
unfolding running_stored
with_bid-StoreReach = goes_on with_user-StoreReach (
    places 0 bid_input
      (λ e at. subst (λ x. HasRoom x bid_input) (same_entry at) (omega arith, omega arith)))

stored_auction-Reach_example : Reach (blank_entry 7) (bid joined 0 bid_input).0
unfolding running_stored
stored_auction-Reach_example =
    stored_auction-Reach 7 (bid joined 0 bid_input).0 with_bid-StoreReach refl

top_n_best_example :
    (rows : List (String × Standing)) × (Numbers 1 rows (top_n filled 7 (pos 5)))
    × (length rows ≤ 5)
    × (Ordered NotBehind rows)
    × ((x : String × Standing) → Among x rows → Among x (bid joined 0 bid_input).0.ranking)
    × ((x : String × Standing)
        → Among x (bid joined 0 bid_input).0.ranking
        → (Among x rows) ⊎ ((All (λ y. NotBehind y x) rows) × (length rows ≡ 5)))
unfolding lookup
top_n_best_example =
    top_n_best filled 7 (bid joined 0 bid_input).0 (pos 5) 5 refl
      (inl (omega arith, omega arith, refl))

abbrev bidder : String
bidder = "u1"

leader_first_example :
    (others : List RankingEntry) × (top_n filled 7 (pos 5)
      ≡ record { rank = pos 1; bidder_id = "u1"; price = pos 1100 } ∷ others)
unfolding running_stored
leader_first_example =
    leader_first 7 filled (pos 5)
      (stored_auction-Reach 7 (bid joined 0 bid_input).0 with_bid-StoreReach refl) refl
      (differ bidder "" refl)
