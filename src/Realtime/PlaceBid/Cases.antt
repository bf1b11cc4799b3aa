-- ===== src/Realtime/PlaceBid/Cases.antt =====
-- The three ways in which PlaceBid ends: a decision found again, a refusal, an acceptance.
use aieas_backend.Prelude.{
  true, false, none, some, ◌≡◌, refl, ◌⊎◌, inl, inr, arith, Bool-cases, Option-cases, Time,
  unix_milli,
}
use aieas_backend.Domain.Increment.{Reject, freq_limit, validate_bid_price}
use aieas_backend.Domain.Bid.{BidInput, BidResult}
use aieas_backend.Realtime.Entry.{Entry}
use aieas_backend.Realtime.PlaceBid.{
  bid, decide_bid, seen_result, bid_time, refuse, accept, early_refusal, count_request, over_limit,
  effective_start, effective_cap, effective_rule,
}

-- The entry with this request counted against the frequency limit.
abbrev pub counted : Entry → Time → BidInput → Entry
counted e clock i = count_request e i (unix_milli (bid_time i clock))

-- At most the frequencies differ.
abbrev pub SameButFrequency : Entry → Entry → Type 0
SameButFrequency e e' = e' ≡ record e { frequency = e'.frequency }

pub count_request-SameButFrequency :
    (e : Entry) (clock : Time) (i : BidInput) → SameButFrequency e (counted e clock i)
unfolding count_request
count_request-SameButFrequency e clock i = ground arith

pub record Repeats (e : Entry) (clock : Time) (i : BidInput) : Type 0 where
  pub first : BidResult
  pub seen : seen_result e i.request_id ≡ some first
  pub result : bid e clock i ≡ (e, record first { duplicate = true })

pub record Refuses (e : Entry) (clock : Time) (i : BidInput) : Type 0 where
  pub reason : Reject
  pub at : Entry
  pub unseen : seen_result e i.request_id ≡ none
  pub same : SameButFrequency e at
  pub result : bid e clock i ≡ refuse at i reason

pub record Accepts (e : Entry) (clock : Time) (i : BidInput) : Type 0 where
  pub unseen : seen_result e i.request_id ≡ none
  pub allowed : early_refusal e i ≡ none
  pub calm : over_limit (counted e clock i) i ≡ false
  pub priced :
      validate_bid_price
        (effective_start e i)
        e.state.current_price
        (effective_cap e i)
        i.price
        (effective_rule e i)
      ≡ none
  pub result : bid e clock i ≡ accept (counted e clock i) (bid_time i clock) i

module _ (e : Entry) (clock : Time) (i : BidInput)
    (unseen : seen_result e i.request_id ≡ none) where
  fresh : bid e clock i ≡ decide_bid e (bid_time i clock) i
  unfolding bid
  fresh = rw (unseen, bid)

  refused_early : (r : Reject) → early_refusal e i ≡ some r → Refuses e clock i
  unfolding decide_bid
  refused_early r h = record {
    reason = r;
    at = e;
    unseen = unseen;
    same = refl;
    result = rw fresh (rw (h, decide_bid));
  }

  refused_often :
      early_refusal e i ≡ none → over_limit (counted e clock i) i ≡ true → Refuses e clock i
  unfolding decide_bid
  refused_often h o = record {
    reason = freq_limit;
    at = counted e clock i;
    unseen = unseen;
    same = count_request-SameButFrequency e clock i;
    result = rw fresh (rw (h, o, decide_bid));
  }

  priced_cases :
      early_refusal e i ≡ none
      → over_limit (counted e clock i) i ≡ false
      → Refuses e clock i ⊎ Accepts e clock i
  unfolding decide_bid
  priced_cases h o =
      elim (Option-cases (
        validate_bid_price (effective_start e i) e.state.current_price (effective_cap e i) i.price
          (effective_rule e i))) [
            | inl p ↦ inr (record {
              unseen = unseen;
              allowed = h;
              calm = o;
              priced = p;
              result = rw fresh (rw (h, o, p, decide_bid));
            })
            | inr (r, p) ↦ inl (record {
              reason = r;
              at = counted e clock i;
              unseen = unseen;
              same = count_request-SameButFrequency e clock i;
              result = rw fresh (rw (h, o, p, decide_bid));
            })
          ]

  fresh_cases : Refuses e clock i ⊎ Accepts e clock i
  fresh_cases = elim (Option-cases (early_refusal e i)) [
    | inr (r, h) ↦ inl (refused_early r h)
    | inl h ↦ elim (Bool-cases (over_limit (counted e clock i) i)) [
      | inl o ↦ inl (refused_often h o)
      | inr o ↦ priced_cases h o
    ]
  ]

pub bid_cases :
    (e : Entry) (clock : Time) (i : BidInput)
    → Repeats e clock i ⊎ Refuses e clock i ⊎ Accepts e clock i
unfolding bid
bid_cases e clock i = elim (Option-cases (seen_result e i.request_id)) [
  | inr (r, h) ↦ inl (record { first = r; seen = h; result = rw (h, bid) })
  | inl h ↦ inr (fresh_cases e clock i h)
]
