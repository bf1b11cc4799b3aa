-- ===== src/Realtime/Hammer/Again.antt =====
-- A hammer result stays until the auction is initialised again.
use aieas_backend.Prelude.{String, true, some, ◌≡◌, refl, ap, ◌∙◌, inl, inr, Time}
use aieas_backend.Domain.Error.{ok}
use aieas_backend.Domain.Bid.{BidInput, HammerInput, HammerResult}
use aieas_backend.Realtime.Entry.{Entry, enroll, reset_participation}
use aieas_backend.Realtime.PlaceBid.{bid}
use aieas_backend.Realtime.PlaceBid.Cases.{bid_cases}
use aieas_backend.Realtime.PlaceBid.Effects.{refuse-Keeps, Accepts-Lands}
use aieas_backend.Realtime.Hammer.{hammer}
use aieas_backend.Realtime.Hammer.Outcome.{hammer-Kept, hammer_repeats}

-- Operations on the auction, other than InitAuction, in any order and number.
pub data Goes (e : Entry) : Entry → Type 0 where
  stays : Goes e e
  enrolled : {e' : Entry} → Goes e e' → (user_id : String) → Goes e (enroll e' user_id)
  left : {e' : Entry} → Goes e e' → Goes e (reset_participation e')
  bidden : {e' : Entry} → Goes e e' → (clock : Time) (i : BidInput) → Goes e (bid e' clock i).0
  hammered_again :
      {e' : Entry} → Goes e e' → (clock : Time) (i : HammerInput) → Goes e (hammer e' clock i).0

bid_keeps_hammer :
    (e : Entry) (clock : Time) (i : BidInput) → (bid e clock i).0.hammer_result ≡ e.hammer_result
bid_keeps_hammer e clock i = elim (bid_cases e clock i) [
  | inl r ↦ rw (r.result) refl
  | inr (inl r) ↦ rw (r.result) ((refuse-Keeps e r.at i r.reason r.same).hammer_result)
  | inr (inr a) ↦ (Accepts-Lands a).0.hammer_result
]

hammer_keeps :
    (e : Entry) (clock : Time) (i : HammerInput) (r : HammerResult)
    → e.hammer_result ≡ some r
    → (hammer e clock i).0.hammer_result ≡ some r
hammer_keeps e clock i r h = rw (hammer_repeats e clock i r h) h

Goes-keeps :
    {e e' : Entry} (r : HammerResult)
    → Goes e e'
    → e.hammer_result ≡ some r
    → e'.hammer_result ≡ some r
unfolding enroll reset_participation
Goes-keeps r stays h = h
Goes-keeps r (enrolled g u) h = Goes-keeps r g h
Goes-keeps r (left g) h = Goes-keeps r g h
Goes-keeps r (bidden {e'} g clock i) h = bid_keeps_hammer e' clock i ∙ Goes-keeps r g h
Goes-keeps r (hammered_again {e'} g clock i) h = hammer_keeps e' clock i r (Goes-keeps r g h)

-- Behind a Hammer that answers a result, whatever bids, enrolments, resets of participation and
-- hammers follow in any order, every later Hammer answers that result, marked as a duplicate,
-- whether forced or not, and changes nothing. InitAuction, which forgets it, is not among them.
pub hammer_again :
    {e' : Entry} (e : Entry) (clock later : Time) (i j : HammerInput) (r : HammerResult)
    → (hammer e clock i).1 ≡ ok r
    → Goes (hammer e clock i).0 e'
    → hammer e' later j ≡ (e', ok (record r { duplicate = true }))
hammer_again {e'} e clock later i j r h g =
    let (first, kept, same) = hammer-Kept e clock i r h in
    hammer_repeats e' later j first (Goes-keeps first g kept)
    ∙ ap (λ (x : HammerResult). (e', ok x)) same
