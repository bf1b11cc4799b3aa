-- ===== src/Realtime/Invariant.antt =====
-- What holds of an auction in the store after any operations, in any order.
pub mod Steps
use aieas_backend.Prelude.{
  ℕ, suc, ◌+◌, ◌≤◌, ◌<◌, ℤ, pos, String, Bool, true, false, not, ◌&&◌, ◌||◌, Option, none, some,
  List, [], ◌∷◌, ◌≡◌, refl, sym, ap, ◌∙◌, ◌⊎◌, inl, inr, arith, Time, lookup, insert, contains, add,
  string_eq, lookup-insert, lookup-insert_self, contains-add, if◌then◌else◌, str_eq, eq_iff,
  str_eq_refl, add64, add64_pos, two_63, ◌<ℤ◌, ◌≤ℤ◌, ◌+ℤ◌, IsInt64, is_empty, length, Bool-cases,
  Option-cases,
}
use aieas_backend.Domain.Error.{ok, err}
use aieas_backend.Domain.Auction.{AuctionStatus, closed_won, closed_failed}
use aieas_backend.Domain.Increment.{amount_for_price, validate_bid_price}
use aieas_backend.Domain.Increment.Bounds.{validate_bid_price_bounds}
use aieas_backend.Domain.Bid.{AuctionLot, AuctionState, BidInput, HammerInput, HammerResult}
use aieas_backend.Realtime.Entry.{
  Entry, Standing, init_auction, blank_entry, enroll, reset_participation,
}
use aieas_backend.Realtime.PlaceBid.{
  bid, bid_time, early_refusal, close_state, raise_price, Closing, stays, closes, extends,
  closing_of, takes_bids, effective_rule, effective_cap, effective_start,
}
use aieas_backend.Realtime.PlaceBid.Cases.{Accepts, bid_cases}
use aieas_backend.Realtime.PlaceBid.Effects.{
  early_refusal-none, Keeps, Lands, Accepts-Lands, accepted_state, new_standing, refuse-Keeps,
  rejected_bid-Keeps,
}
use aieas_backend.Realtime.Hammer.{hammer}
use aieas_backend.Realtime.Hammer.Outcome.{IsClosed}

pub record Inv (e : Entry) : Type 0 where
  -- the leader, if there is one, stands in the ranking at the current price
  pub led :
      (e.state.leader_bidder_id ≡ "")
      ⊎ ((s : Standing) × (lookup e.state.leader_bidder_id e.ranking ≡ some s)
          × (s.price ≡ e.state.current_price))
  -- nobody stands above the current price, and that is not below the start price
  pub top :
      (b : String) (s : Standing) → lookup b e.ranking ≡ some s → s.price ≤ℤ e.state.current_price
  pub above_start : e.state.start_price ≤ℤ e.state.current_price
  -- the participants are those who enrolled, each with a deposit and a name
  pub counted : e.state.participant_count ≡ pos (length e.enrolled)
  pub matched : e.deposits ≡ e.enrolled
  pub named : contains "" e.enrolled ≡ false
  -- a hammered auction is closed, as its result says
  pub closed :
      (r : HammerResult)
      → e.hammer_result ≡ some r
      → (e.state.status ≡ r.status) × IsClosed r.status

-- The current price and its step have a sum that an int64 holds.
abbrev pub HasRoom : Entry → BidInput → Type 0
HasRoom e i =
    IsInt64 (e.state.current_price +ℤ amount_for_price (effective_rule e i) e.state.current_price)

-- An operation of the store on the auction.
pub data Step (e : Entry) : Entry → Type 0 where
  restarts :
      (a : AuctionLot) (min_increment clock_ms : ℤ)
      → Step e (init_auction e.enrolled e.deposits a min_increment clock_ms)
  enrolls :
      (user_id : String)
      → is_empty user_id ≡ false
      → length e.enrolled + 1 < two_63
      → Step e (enroll e user_id)
  resets : Step e (reset_participation e)
  bids : (clock : Time) (i : BidInput) → HasRoom e i → Step e (bid e clock i).0
  hammers : (clock : Time) (i : HammerInput) → Step e (hammer e clock i).0

pub data Reach (e : Entry) : Entry → Type 0 where
  here : Reach e e
  next : {e' e'' : Entry} → Reach e e' → Step e' e'' → Reach e e''

Keeps-Inv : {e e' : Entry} → Keeps e e' → Inv e → Inv e'
Keeps-Inv k v = record {
  led = rw (k.state, k.ranking) v.led;
  top = rw (k.state, k.ranking) v.top;
  above_start = rw (k.state) v.above_start;
  counted = rw (k.state, k.enrolled) v.counted;
  matched = rw (k.deposits, k.enrolled) v.matched;
  named = rw (k.enrolled) v.named;
  closed = rw (k.state, k.hammer_result) v.closed;
}

close_state-keeps :
    (s : AuctionState) (c : Closing) (now : Time)
    → ((close_state s c now).current_price ≡ s.current_price)
      × ((close_state s c now).leader_bidder_id ≡ s.leader_bidder_id)
      × ((close_state s c now).start_price ≡ s.start_price)
      × ((close_state s c now).participant_count ≡ s.participant_count)
unfolding close_state
close_state-keeps s stays now = (refl, refl, refl, refl)
close_state-keeps s closes now = (refl, refl, refl, refl)
close_state-keeps s (extends t) now = (refl, refl, refl, refl)

-- What the state behind an accepted bid shares with the bid and the old state.
pub accepted_fields :
    (e : Entry) (now : Time) (i : BidInput)
    → ((accepted_state e now i).current_price ≡ i.price)
      × ((accepted_state e now i).leader_bidder_id ≡ i.bidder_id)
      × ((accepted_state e now i).start_price ≡ e.state.start_price)
      × ((accepted_state e now i).participant_count ≡ e.state.participant_count)
unfolding raise_price
accepted_fields e now i = close_state-keeps _ _ now
