-- ===== src/Realtime/Store.antt =====
-- MemoryRealtimeStore of internal/infra/realtime/memory.go: the auctions by their ids, with each
-- method. The mutex makes a method one step. The operations on one auction are those of Entry,
-- PlaceBid and Hammer. A string of time.Now is an argument.
pub mod Ranking
pub mod Leader
pub mod Steps
use Prim.Native.String.{compare}
use Prim.Native.Nat.{Ordering}
use aieas_backend.Prelude.{
  ℕ, zero, suc, ◌+◌, ℤ, pos, pos_part, String, Bool, true, false, ◌||◌, ◌==◌, if◌then◌else◌, Option,
  none, some, List, [], ◌∷◌, Time, lookup, insert, nat_eq, string_eq, is_empty, trim_space, leb_ℤ,
  ltb_ℤ, eqb_ℤ, sort_by, take,
}
use aieas_backend.Domain.Error.{Error, invalid_argument, not_found, Result, ok, err}
use aieas_backend.Domain.Increment.{auction_not_ready}
use aieas_backend.Domain.Bid.{
  AuctionLot, AuctionState, BidInput, BidResult, HammerInput, HammerResult, RankingEntry,
}
use aieas_backend.Realtime.Entry.{
  Entry, Standing, init_auction, blank_entry, enroll, reset_participation, bid_prerequisites,
}
use aieas_backend.Realtime.PlaceBid.{bid, reject_bid}
use aieas_backend.Realtime.Hammer.{hammer}

abbrev pub Store : Type 0
Store = List (ℕ × Entry)

-- NewMemoryRealtimeStore
abbrev pub new_store : Store
new_store = []

-- InitAuction
unfoldable pub init_stored_auction : Store → AuctionLot → ℤ → ℤ → Store × AuctionState
init_stored_auction s a min_increment clock_ms =
    let e : Entry = elim (lookup a.auction_id s) [
      | none ↦ init_auction [] [] a min_increment clock_ms
      | some old ↦ init_auction old.enrolled old.deposits a min_increment clock_ms
    ] in
    (insert a.auction_id e s, e.state)

-- GetAuctionState
unfoldable pub get_auction_state : Store → ℕ → Option AuctionState
get_auction_state s auction_id = elim (lookup auction_id s) [
  | none ↦ none
  | some e ↦ some (record (e.state) { source = "redis" })
]

-- getOrCreateAuctionLocked, for the entry alone; its caller writes the entry back.
unfoldable pub get_or_create_auction : Store → ℕ → Entry
get_or_create_auction s auction_id = elim (lookup auction_id s) [
  | none ↦ blank_entry auction_id
  | some e ↦ e
]

-- MarkEnrollment
unfoldable pub mark_enrollment : Store → ℕ → String → Store × Option Error
unfolding get_or_create_auction
mark_enrollment s auction_id user_id =
    let user = trim_space user_id in
    if is_empty user
    then (s, some invalid_argument)
    else (insert auction_id (enroll (get_or_create_auction s auction_id) user) s, none)

-- ResetAuctionParticipation
unfoldable pub reset_auction_participation : Store → ℕ → Store × Option Error
reset_auction_participation s auction_id =
    if auction_id == 0 then (s, some invalid_argument) else elim (lookup auction_id s) [
      | none ↦ (s, none)
      | some e ↦ (insert auction_id (reset_participation e) s, none)
    ]

-- BidResultByRequestID
unfoldable pub bid_result_by_request_id : Store → ℕ → String → Option BidResult
bid_result_by_request_id s auction_id request_id =
    if is_empty request_id
    then none
    else elim (lookup auction_id s) [ none ↦ none | some e ↦ lookup request_id e.idempotency ]

-- BidPrerequisites
unfoldable pub stored_prerequisites : Store → ℕ → String → Bool × Bool
stored_prerequisites s auction_id user_id = elim (lookup auction_id s) [
  | none ↦ (false, false)
  | some e ↦ bid_prerequisites e user_id
]

-- PlaceBid
unfoldable pub place_bid : Store → Time → BidInput → Store × BidResult
place_bid s clock i = elim (lookup i.auction_id s) [
  | none ↦ (s, reject_bid i auction_not_ready (blank_entry i.auction_id).state)
  | some e ↦ let (e', r) = bid e clock i in (insert i.auction_id e' s, r)
]

-- Hammer
unfoldable pub hammer_auction : Store → Time → HammerInput → Store × Result HammerResult
hammer_auction s clock i = elim (lookup i.auction_id s) [
  | none ↦ (s, err not_found)
  | some e ↦ let (e', r) = hammer e clock i in (insert i.auction_id e' s, r)
]

-- The order of strings by their bytes is that by their code points.
abbrev str_less : String → String → Bool
str_less s t = elim (compare s t) [ Ordering.lt ↦ true | _ ↦ false ]

-- The test that TopN sorts by.
abbrev pub ranks_before : String × Standing → String × Standing → Bool
ranks_before (u, a) (v, b) =
    if eqb_ℤ a.price b.price
    then if eqb_ℤ a.accepted_at b.accepted_at
      then if eqb_ℤ a.seq b.seq then str_less u v else ltb_ℤ a.seq b.seq
      else ltb_ℤ a.accepted_at b.accepted_at
    else ltb_ℤ b.price a.price

abbrev pub ranked_from : ℕ → List (String × Standing) → List RankingEntry
ranked_from n [] = []
ranked_from n ((u, a) ∷ l) =
    record { rank = pos (n + 1); bidder_id = u; price = a.price } ∷ ranked_from (n + 1) l

-- The limit that TopN works with.
unfoldable pub top_limit : ℤ → ℕ
top_limit limit = if leb_ℤ limit (pos 0) || ltb_ℤ (pos 100) limit then 10 else pos_part limit

-- The rows of the ranking that TopN answers with, before they are numbered.
unfoldable pub top_rows : Entry → ℤ → List (String × Standing)
unfolding top_limit
top_rows e limit = take (top_limit limit) (sort_by ranks_before e.ranking)

-- TopN
unfoldable pub top_n : Store → ℕ → ℤ → List RankingEntry
unfolding top_rows
top_n s auction_id limit = elim (lookup auction_id s) [
  | none ↦ []
  | some e ↦ ranked_from 0 (top_rows e limit)
]
