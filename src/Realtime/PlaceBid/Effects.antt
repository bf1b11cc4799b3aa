-- ===== src/Realtime/PlaceBid/Effects.antt =====
-- What each of the three ends of PlaceBid does to the auction.
use mathlib.Core.Bool.{false≢true}
use aieas_backend.Prelude.{
  Bool-cases, sym, pos, String, true, false, none, some, ◌≡◌, refl, ap, ◌∙◌, inl, inr, arith, Time,
  insert, contains, string_eq, add64, is_empty, unix_milli,
}
use aieas_backend.Domain.Increment.{Reject}
use aieas_backend.Domain.Bid.{AuctionState, BidInput, BidResult}
use aieas_backend.Realtime.Entry.{Entry, Standing}
use aieas_backend.Realtime.PlaceBid.{
  bid, bid_time, refuse, accept, store_bid_result, early_refusal, raise_price, close_state,
  closing_of, takes_bids, effective_cap,
}
use aieas_backend.Realtime.PlaceBid.Cases.{
  SameButFrequency, counted, count_request-SameButFrequency, Accepts, bid_cases,
}

-- All but the decisions and the frequencies are the same.
pub record Keeps (e e' : Entry) : Type 0 where
  pub state : e'.state ≡ e.state
  pub ranking : e'.ranking ≡ e.ranking
  pub enrolled : e'.enrolled ≡ e.enrolled
  pub deposits : e'.deposits ≡ e.deposits
  pub hammer_result : e'.hammer_result ≡ e.hammer_result
  pub next_bid_seq : e'.next_bid_seq ≡ e.next_bid_seq

Keeps-trans : {e e' e'' : Entry} → Keeps e e' → Keeps e' e'' → Keeps e e''
Keeps-trans k k' = record {
  state = k'.state ∙ k.state;
  ranking = k'.ranking ∙ k.ranking;
  enrolled = k'.enrolled ∙ k.enrolled;
  deposits = k'.deposits ∙ k.deposits;
  hammer_result = k'.hammer_result ∙ k.hammer_result;
  next_bid_seq = k'.next_bid_seq ∙ k.next_bid_seq;
}

Keeps-refl : (e : Entry) → Keeps e e
Keeps-refl e = record {
  state = refl;
  ranking = refl;
  enrolled = refl;
  deposits = refl;
  hammer_result = refl;
  next_bid_seq = refl;
}

pub SameButFrequency-Keeps : {e e' : Entry} → SameButFrequency e e' → Keeps e e'
SameButFrequency-Keeps h = record {
  state = ap (λ (x : Entry). x.state) h;
  ranking = ap (λ (x : Entry). x.ranking) h;
  enrolled = ap (λ (x : Entry). x.enrolled) h;
  deposits = ap (λ (x : Entry). x.deposits) h;
  hammer_result = ap (λ (x : Entry). x.hammer_result) h;
  next_bid_seq = ap (λ (x : Entry). x.next_bid_seq) h;
}

pub store_bid_result-Keeps :
    (e : Entry) (request_id : String) (r : BidResult) → Keeps e (store_bid_result e request_id r)
unfolding store_bid_result
store_bid_result-Keeps e request_id r = elim (Bool-cases (is_empty request_id)) [
  | inl h ↦ rw (h, store_bid_result) (Keeps-refl e)
  | inr h ↦
      rw (h, store_bid_result)
        (record {
          state = refl;
          ranking = refl;
          enrolled = refl;
          deposits = refl;
          hammer_result = refl;
          next_bid_seq = refl;
        })
]

pub refuse-Keeps :
    (e at : Entry) (i : BidInput) (r : Reject) → SameButFrequency e at → Keeps e (refuse at i r).0
unfolding refuse
refuse-Keeps e at i r h =
    Keeps-trans (SameButFrequency-Keeps h) (store_bid_result-Keeps at i.request_id _)

pub refuse-rejected :
    (e : Entry) (i : BidInput) (r : Reject)
    → ((refuse e i r).1.accepted ≡ false) × ((refuse e i r).1.reason ≡ some r)
unfolding refuse
refuse-rejected e i r = (refl, refl)

pub accept-accepted : (e : Entry) (now : Time) (i : BidInput) → (accept e now i).1.accepted ≡ true
unfolding accept
accept-accepted e now i = refl

-- The state behind an accepted bid.
abbrev pub accepted_state : Entry → Time → BidInput → AuctionState
accepted_state e now i =
    close_state (raise_price e.state i (unix_milli now))
      (closing_of e.state i (effective_cap e i) (unix_milli now)) now

abbrev pub new_standing : Entry → Time → BidInput → Standing
new_standing e now i = record {
  price = i.price;
  accepted_at = unix_milli now;
  seq = add64 e.next_bid_seq (pos 1);
}

-- The entry behind an accepted bid.
pub record Lands (e : Entry) (now : Time) (i : BidInput) (e' : Entry) : Type 0 where
  pub state : e'.state ≡ accepted_state e now i
  pub ranking : e'.ranking ≡ insert i.bidder_id (new_standing e now i) e.ranking
  pub enrolled : e'.enrolled ≡ e.enrolled
  pub deposits : e'.deposits ≡ e.deposits
  pub hammer_result : e'.hammer_result ≡ e.hammer_result
  pub next_bid_seq : e'.next_bid_seq ≡ add64 e.next_bid_seq (pos 1)

pub accept-Lands : (e : Entry) (now : Time) (i : BidInput) → Lands e now i (accept e now i).0
unfolding accept
accept-Lands e now i =
    let k =
      store_bid_result-Keeps
        (record e {
          state = accepted_state e now i;
          next_bid_seq = add64 e.next_bid_seq (pos 1);
          ranking = insert i.bidder_id (new_standing e now i) e.ranking;
        })
        i.request_id _ in
    record {
      state = k.state;
      ranking = k.ranking;
      enrolled = k.enrolled;
      deposits = k.deposits;
      hammer_result = k.hammer_result;
      next_bid_seq = k.next_bid_seq;
    }

-- The count against the frequency limit does not matter for what an acceptance does.
Lands-counted :
    {e e' e'' : Entry} (now : Time) (i : BidInput)
    → SameButFrequency e e'
    → Lands e' now i e''
    → Lands e now i e''
Lands-counted {e} {e'} {e''} now i h l =
    let l' : Lands (record e { frequency = e'.frequency }) now i e'' = rw h at l in
    record {
      state = l'.state;
      ranking = l'.ranking;
      enrolled = l'.enrolled;
      deposits = l'.deposits;
      hammer_result = l'.hammer_result;
      next_bid_seq = l'.next_bid_seq;
    }

pub Accepts-Lands :
    {e : Entry} {clock : Time} {i : BidInput}
    → Accepts e clock i
    → Lands e (bid_time i clock) i (bid e clock i).0 × ((bid e clock i).1.accepted ≡ true)
Accepts-Lands {e} {clock} {i} a =
    let now = bid_time i clock in
    rw (a.result) (
      Lands-counted now i (count_request-SameButFrequency e clock i)
          (accept-Lands (counted e clock i) now i),
      accept-accepted (counted e clock i) now i,
    )

-- A bid whose result is not an acceptance leaves the state of the auction, its ranking, its
-- participants and its hammer result as they were.
pub rejected_bid-Keeps :
    (e : Entry) (clock : Time) (i : BidInput)
    → (bid e clock i).1.accepted ≡ false
    → Keeps e (bid e clock i).0
rejected_bid-Keeps e clock i h = elim (bid_cases e clock i) [
  | inl r ↦ rw (r.result) (Keeps-refl e)
  | inr (inl r) ↦ rw (r.result) (refuse-Keeps e r.at i r.reason r.same)
  | inr (inr a) ↦ absurd (false≢true (sym h ∙ (Accepts-Lands a).1))
]

-- The guards that an accepted bid has passed.
pub early_refusal-none :
    (e : Entry) (i : BidInput)
    → early_refusal e i ≡ none
    → (takes_bids e.state.status ≡ true)
      × (contains i.bidder_id e.enrolled ≡ true)
      × (contains i.bidder_id e.deposits ≡ true)
unfolding early_refusal
early_refusal-none e i h = (ground arith, ground arith, ground arith)
