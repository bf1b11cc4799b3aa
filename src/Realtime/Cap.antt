-- ===== src/Realtime/Cap.antt =====
-- A bid at the cap price ends the auction, and the bidder has won it.
use mathlib.Core.Bool.{false≢true}
use aieas_backend.Prelude.{
  pos, true, false, none, ◌≡◌, refl, sym, ap, ◌∙◌, ◌≢◌, inl, inr, arith, Time, before, string_eq,
  unix_milli, ◌<ℤ◌, ◌≤ℤ◌,
}
use aieas_backend.Domain.Error.{ok}
use aieas_backend.Domain.Auction.{closed_won}
use aieas_backend.Domain.Bid.{AuctionState, BidInput, HammerInput, HammerResult}
use aieas_backend.Realtime.Entry.{Entry}
use aieas_backend.Realtime.PlaceBid.{
  bid, bid_time, close_state, raise_price, effective_cap, seen_result,
}
use aieas_backend.Realtime.PlaceBid.Cases.{Accepts, bid_cases}
use aieas_backend.Realtime.PlaceBid.Effects.{
  Accepts-Lands, accepted_state, early_refusal-none, refuse-rejected,
}
use aieas_backend.Realtime.PlaceBid.Ending.{closes_at_cap}
use aieas_backend.Realtime.Hammer.{hammer, hammer_time}
use aieas_backend.Realtime.Hammer.Outcome.{hammer_winner, hammer_due}
use aieas_backend.Realtime.Invariant.{Inv}
use aieas_backend.Realtime.Invariant.Steps.{accepts_unhammered}

-- A fresh bid that is answered with an acceptance has passed every test.
pub accepted-Accepts :
    (e : Entry) (clock : Time) (i : BidInput)
    → seen_result e i.request_id ≡ none
    → (bid e clock i).1.accepted ≡ true
    → Accepts e clock i
accepted-Accepts e clock i u h = elim (bid_cases e clock i) [
  | inl r ↦ absurd (ground (arith, u, r.seen))
  | inr (inl r) ↦
      absurd (false≢true (sym (refuse-rejected r.at i r.reason).0 ∙ (rw (r.result) at h)))
  | inr (inr a) ↦ a
]

capped_state :
    (e : Entry) (now : Time) (i : BidInput)
    → pos 0 <ℤ effective_cap e i
    → i.price ≡ effective_cap e i
    → let s = accepted_state e now i in
      (s.status ≡ closed_won)
      × (s.end_time ≡ now)
      × (s.leader_bidder_id ≡ i.bidder_id)
      × (s.current_price ≡ i.price)
unfolding close_state raise_price
capped_state e now i p q =
    rw ((closes_at_cap e.state i (effective_cap e i) (unix_milli now)).1 (p, q), close_state)
      (refl, refl, refl, refl)

-- A fresh bid that is accepted at the cap price closes the auction as won, and a Hammer that comes
-- no earlier than the bid, with a reserve that does not exceed the cap, confirms the bidder as the
-- winner at the cap price. The auction's invariant holds before the bid.
pub cap_bid_wins :
    (e : Entry) (clock later : Time) (i : BidInput) (h : HammerInput)
    → Inv e
    → seen_result e i.request_id ≡ none
    → (bid e clock i).1.accepted ≡ true
    → pos 0 <ℤ effective_cap e i
    → i.price ≡ effective_cap e i
    → h.reserve_price ≤ℤ i.price
    → before (hammer_time h later) (bid_time i clock) ≡ false
    → ((bid e clock i).0.state.status ≡ closed_won)
      × ((r : HammerResult) × ((hammer (bid e clock i).0 later h).1 ≡ ok r)
          × (r.status ≡ closed_won)
          × (r.winner_id ≡ i.bidder_id)
          × (r.price ≡ i.price))
cap_bid_wins e clock later i h v u acc p q reserve due =
    let a = accepted-Accepts e clock i u acc in
    let l = (Accepts-Lands a).0 in
    let (won, end, leader, price) = capped_state e (bid_time i clock) i p q in
    let e' = (bid e clock i).0 in
    let open_result : e'.hammer_result ≡ none =
      l.hammer_result ∙ accepts_unhammered e clock i v a in
    let status : e'.state.status ≡ closed_won = ap (λ (s : AuctionState). s.status) l.state ∙ won in
    let end' : e'.state.end_time ≡ bid_time i clock =
      ap (λ (s : AuctionState). s.end_time) l.state ∙ end in
    let leader' : e'.state.leader_bidder_id ≡ i.bidder_id =
      ap (λ (s : AuctionState). s.leader_bidder_id) l.state ∙ leader in
    let price' : e'.state.current_price ≡ i.price =
      ap (λ (s : AuctionState). s.current_price) l.state ∙ price in
    let (r, result) = hammer_due e' later h open_result (inr (rw end' due)) in
    let (wins, what, _) = hammer_winner e' later h r open_result result in
    let named : e'.state.leader_bidder_id ≢ "" = λ empty.
      false≢true
        (sym v.named ∙ (rw (sym leader' ∙ empty) at (early_refusal-none e i a.allowed).1)) in
    let yes_won = wins.1 (named, rw price' reserve) in
    (status, (r, result, yes_won, (what yes_won).0 ∙ leader', (what yes_won).1 ∙ price'))
