-- ===== src/Realtime/PlaceBid/Idempotency.antt =====
-- One request id, one decision.
use aieas_backend.Prelude.{
  not, ◌&&◌, str_eq_refl, List, [], ◌∷◌, Option-cases, ap, String, true, false, none, some, ◌≡◌,
  refl, ◌∙◌, inl, inr, arith, Time, string_eq, lookup-insert, if◌then◌else◌, str_eq, eq_iff,
  is_empty,
}
use aieas_backend.Domain.Increment.{Reject}
use aieas_backend.Domain.Bid.{BidInput, BidResult}
use aieas_backend.Realtime.Entry.{Entry}
use aieas_backend.Realtime.PlaceBid.{bid, bid_time, refuse, accept, store_bid_result, seen_result}
use aieas_backend.Realtime.PlaceBid.Cases.{
  SameButFrequency, counted, count_request-SameButFrequency, bid_cases,
}

seen_result-store :
    (e : Entry) (request_id other : String) (r : BidResult)
    → seen_result (store_bid_result e request_id r) other ≡ (
        if not (is_empty request_id) && str_eq request_id other
        then some r
        else seen_result e other)
unfolding store_bid_result
seen_result-store e request_id other r =
    ground (arith, lookup-insert request_id other r e.idempotency, eq_iff request_id other)

seen_result-same :
    (e e' : Entry) (request_id : String)
    → SameButFrequency e e'
    → seen_result e' request_id ≡ seen_result e request_id
seen_result-same e e' request_id h = ap (λ (x : Entry). seen_result x request_id) h

-- A fresh decision is what is stored, and nothing else about the stored decisions changes.
pub record Records (e : Entry) (i : BidInput) (p : Entry × BidResult) : Type 0 where
  pub stored :
      (other : String)
      → seen_result p.0 other ≡ (
          if not (is_empty i.request_id) && str_eq i.request_id other
          then some p.1
          else seen_result e other)

refuse-Records : (e : Entry) (i : BidInput) (r : Reject) → Records e i (refuse e i r)
unfolding refuse
refuse-Records e i r = record { stored = λ other. seen_result-store e i.request_id other _ }

accept-Records : (e : Entry) (now : Time) (i : BidInput) → Records e i (accept e now i)
unfolding accept
accept-Records e now i = record { stored = λ other. seen_result-store _ i.request_id other _ }

Records-same :
    {e e' : Entry} {i : BidInput} {p : Entry × BidResult}
    → SameButFrequency e e'
    → Records e' i p
    → Records e i p
Records-same {e} {e'} {i} {p} h r = record {
  stored = λ other.
      r.stored other
      ∙ ap (λ t. if not (is_empty i.request_id) && str_eq i.request_id other then some p.1 else t)
          (seen_result-same e e' other h);
}

bid-Records :
    (e : Entry) (clock : Time) (i : BidInput)
    → seen_result e i.request_id ≡ none
    → Records e i (bid e clock i)
bid-Records e clock i u = elim (bid_cases e clock i) [
  | inl r ↦ absurd (ground (arith, u, r.seen))
  | inr (inl r) ↦ rw (r.result) (Records-same r.same (refuse-Records r.at i r.reason))
  | inr (inr a) ↦ rw (a.result) (
      Records-same (count_request-SameButFrequency e clock i)
        (accept-Records (counted e clock i) (bid_time i clock) i))
]

bid_seen :
    (e : Entry) (clock : Time) (i : BidInput) (r : BidResult)
    → seen_result e i.request_id ≡ some r
    → bid e clock i ≡ (e, record r { duplicate = true })
unfolding bid
bid_seen e clock i r h = rw (h, bid)

-- Behind a bid its request id is decided, as the result says up to the mark of a repetition.
bid_decides :
    (e : Entry) (clock : Time) (i : BidInput)
    → is_empty i.request_id ≡ false
    → (r : BidResult) × (seen_result (bid e clock i).0 i.request_id ≡ some r)
      × (record r { duplicate = true } ≡ record ((bid e clock i).1) { duplicate = true })
bid_decides e clock i h = elim (Option-cases (seen_result e i.request_id)) [
  | inl u ↦ (
    (bid e clock i).1,
    (bid-Records e clock i u).stored i.request_id ∙ rw (h, str_eq_refl i.request_id),
    refl,
  )
  | inr (r, s) ↦ (r, rw (bid_seen e clock i r s) s, rw (bid_seen e clock i r s))
]

-- A bid keeps every decision that was stored before it.
pub bid_keeps_decisions :
    (e : Entry) (clock : Time) (j : BidInput) (request_id : String) (r : BidResult)
    → seen_result e request_id ≡ some r
    → seen_result (bid e clock j).0 request_id ≡ some r
bid_keeps_decisions e clock j request_id r s = elim (Option-cases (seen_result e j.request_id)) [
  | inr (r', s') ↦ rw (bid_seen e clock j r' s') s
  | inl u ↦
      (bid-Records e clock j u).stored request_id
      ∙ ground (arith, u, s, eq_iff j.request_id request_id)
]

-- Bids one after another, each with the reading of the clock.
pub bids : Entry → List (Time × BidInput) → Entry
bids e [] = e
bids e ((clock, i) ∷ rest) = bids (bid e clock i).0 rest

bids_keep_decisions :
    (e : Entry) (l : List (Time × BidInput)) (request_id : String) (r : BidResult)
    → seen_result e request_id ≡ some r
    → seen_result (bids e l) request_id ≡ some r
unfolding bids
bids_keep_decisions e [] request_id r s = s
bids_keep_decisions e ((clock, i) ∷ rest) request_id r s =
    bids_keep_decisions (bid e clock i).0 rest request_id r
      (bid_keeps_decisions e clock i request_id r s)

-- Whatever bids come in between, a bid that is sent again under its request id, if that is not
-- empty, gets the first answer, marked as a duplicate, and changes nothing.
pub bid_again :
    (e : Entry) (clock later : Time) (i j : BidInput) (l : List (Time × BidInput))
    → is_empty i.request_id ≡ false
    → j.request_id ≡ i.request_id
    → let e' = bids (bid e clock i).0 l in
      bid e' later j ≡ (e', record ((bid e clock i).1) { duplicate = true })
bid_again e clock later i j l h same =
    let (r, s, first) = bid_decides e clock i h in
    let e' = bids (bid e clock i).0 l in
    let kept : seen_result e' i.request_id ≡ some r =
      bids_keep_decisions (bid e clock i).0 l i.request_id r s in
    bid_seen e' later j r (rw same kept) ∙ ap (λ (x : BidResult). (e', x)) first
