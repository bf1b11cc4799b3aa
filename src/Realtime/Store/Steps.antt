-- ===== src/Realtime/Store/Steps.antt =====
-- Any sequence of operations on the whole store is one of operations on each of its auctions.
use aieas_backend.Prelude.{
  ℕ, ◌+◌, ◌<◌, ℤ, String, some, [], ◌==◌, ◌≡◌, inl, inr, Time, lookup, insert, nat_eq, insert_cases,
  no_value, Bool-cases, Option-cases, is_empty, trim_space, length, two_63,
}
use aieas_backend.Domain.Bid.{AuctionLot, BidInput, HammerInput}
use aieas_backend.Realtime.Entry.{Entry, init_auction, blank_entry, enroll, reset_participation}
use aieas_backend.Realtime.PlaceBid.{bid}
use aieas_backend.Realtime.Hammer.{hammer}
use aieas_backend.Realtime.Invariant.{
  HasRoom, restarts, enrolls, resets, bids, hammers, Reach, here, next,
}
use aieas_backend.Realtime.Store.{
  Store, new_store, init_stored_auction, get_or_create_auction, mark_enrollment,
  reset_auction_participation, place_bid, hammer_auction,
}

-- A call of a method that may write. Enrolments and bids ask for what Step asks for.
pub data StoreStep (s : Store) : Store → Type 0 where
  inits :
      (a : AuctionLot) (min_increment clock_ms : ℤ)
      → StoreStep s (init_stored_auction s a min_increment clock_ms).0
  marks :
      (id : ℕ) (user_id : String)
      → length (get_or_create_auction s id).enrolled + 1 < two_63
      → StoreStep s (mark_enrollment s id user_id).0
  clears : (id : ℕ) → StoreStep s (reset_auction_participation s id).0
  places :
      (clock : Time) (i : BidInput)
      → ((e : Entry) → lookup i.auction_id s ≡ some e → HasRoom e i)
      → StoreStep s (place_bid s clock i).0
  closes : (clock : Time) (i : HammerInput) → StoreStep s (hammer_auction s clock i).0

pub data StoreReach : Store → Type 0 where
  starts : StoreReach new_store
  goes_on : {s s' : Store} → StoreReach s → StoreStep s s' → StoreReach s'

abbrev Refines : Store → Type 0
Refines s = (id : ℕ) (e : Entry) → lookup id s ≡ some e → Reach (blank_entry id) e

insert-Refines :
    (s : Store) (id : ℕ) (e : Entry)
    → Refines s
    → Reach (blank_entry id) e
    → Refines (insert id e s)
insert-Refines s id e v r j f at = elim (insert_cases id j e s f at) [
  | inl (same, q) ↦ rw (← same, ← q) r
  | inr (_, old) ↦ v j f old
]

got_or_created :
    (s : Store) (id : ℕ) → Refines s → Reach (blank_entry id) (get_or_create_auction s id)
unfolding get_or_create_auction
got_or_created s id v = elim (Option-cases (lookup id s)) [
  | inl away ↦ rw (away, get_or_create_auction) here
  | inr (e, at) ↦ rw (at, get_or_create_auction) (v id e at)
]

init-Refines :
    (s : Store) (a : AuctionLot) (m c : ℤ) → Refines s → Refines (init_stored_auction s a m c).0
unfolding init_stored_auction
init-Refines s a m c v = elim (Option-cases (lookup a.auction_id s)) [
  | inl away ↦
      rw (away, init_stored_auction)
        (insert-Refines s a.auction_id (init_auction [] [] a m c) v
          (unfold blank_entry in next here (restarts a m c)))
  | inr (e, at) ↦
      rw (at, init_stored_auction)
        (insert-Refines s a.auction_id (init_auction e.enrolled e.deposits a m c) v
          (next (v a.auction_id e at) (restarts a m c)))
]

mark-Refines :
    (s : Store) (id : ℕ) (u : String)
    → length (get_or_create_auction s id).enrolled + 1 < two_63
    → Refines s
    → Refines (mark_enrollment s id u).0
unfolding mark_enrollment
mark-Refines s id u room v = elim (Bool-cases (is_empty (trim_space u))) [
  | inl nobody ↦ rw (nobody, mark_enrollment) v
  | inr user ↦
      rw (user, mark_enrollment)
        (insert-Refines s id (enroll (get_or_create_auction s id) (trim_space u)) v
          (next (got_or_created s id v) (enrolls (trim_space u) user room)))
]

clear-Refines : (s : Store) (id : ℕ) → Refines s → Refines (reset_auction_participation s id).0
unfolding reset_auction_participation
clear-Refines s id v = elim (Bool-cases (id == 0)) [
  | inl nothing ↦ rw (nothing, reset_auction_participation) v
  | inr lot ↦ elim (Option-cases (lookup id s)) [
    | inl away ↦ rw (lot, away, reset_auction_participation) v
    | inr (e, at) ↦
        rw (lot, at, reset_auction_participation)
          (insert-Refines s id (reset_participation e) v (next (v id e at) resets))
  ]
]

place-Refines :
    (s : Store) (clock : Time) (i : BidInput)
    → ((e : Entry) → lookup i.auction_id s ≡ some e → HasRoom e i)
    → Refines s
    → Refines (place_bid s clock i).0
unfolding place_bid
place-Refines s clock i room v = elim (Option-cases (lookup i.auction_id s)) [
  | inl away ↦ rw (away, place_bid) v
  | inr (e, at) ↦
      rw (at, place_bid)
        (insert-Refines s i.auction_id (bid e clock i).0 v
          (next (v i.auction_id e at) (bids clock i (room e at))))
]

close-Refines :
    (s : Store) (clock : Time) (i : HammerInput) → Refines s → Refines (hammer_auction s clock i).0
unfolding hammer_auction
close-Refines s clock i v = elim (Option-cases (lookup i.auction_id s)) [
  | inl away ↦ rw (away, hammer_auction) v
  | inr (e, at) ↦
      rw (at, hammer_auction)
        (insert-Refines s i.auction_id (hammer e clock i).0 v
          (next (v i.auction_id e at) (hammers clock i)))
]

StoreStep-Refines : {s s' : Store} → StoreStep s s' → Refines s → Refines s'
StoreStep-Refines {s} (inits a m c) v = init-Refines s a m c v
StoreStep-Refines {s} (marks id u room) v = mark-Refines s id u room v
StoreStep-Refines {s} (clears id) v = clear-Refines s id v
StoreStep-Refines {s} (places clock i room) v = place-Refines s clock i room v
StoreStep-Refines {s} (closes clock i) v = close-Refines s clock i v

-- Whatever operations on whichever auctions the store has run since it was empty, each auction in it
-- is one that operations on that auction alone reach from its creation, so that what holds of those
-- holds in the store. The steps ask, as Step does, that no sum leaves the int64 range.
pub stored_auction-Reach :
    {s : Store} (id : ℕ) (e : Entry)
    → StoreReach s
    → lookup id s ≡ some e
    → Reach (blank_entry id) e
unfolding lookup
stored_auction-Reach id e starts at = no_value at
stored_auction-Reach id e (goes_on r t) at =
    StoreStep-Refines t (λ j f. stored_auction-Reach j f r) id e at
