-- ===== src/Realtime/Invariant/Steps.antt =====
-- Every operation of the store keeps the invariant.
use mathlib.Core.Bool.{false≢true}
use aieas_backend.Prelude.{
  ℕ, ◌+◌, ◌<◌, ℤ, pos, String, false, none, some, List, ◌≡◌, refl, sym, ap, ◌∙◌, inl, inr, arith,
  Time, lookup, contains, add, string_eq, lookup-insert, lookup-insert_self, contains-add, str_eq,
  eq_iff, add64_pos, two_63, ◌<ℤ◌, ◌≤ℤ◌, is_empty, length, Bool-cases, Option-cases,
}
use aieas_backend.Domain.Increment.Bounds.{validate_bid_price_bounds}
use aieas_backend.Domain.Bid.{AuctionLot, AuctionState, BidInput, HammerInput, HammerResult}
use aieas_backend.Realtime.Entry.{
  Entry, Standing, init_auction, blank_entry, enroll, reset_participation,
}
use aieas_backend.Realtime.PlaceBid.{
  bid, bid_time, early_refusal, takes_bids, effective_rule, effective_cap, effective_start,
}
use aieas_backend.Realtime.PlaceBid.Cases.{Accepts, bid_cases}
use aieas_backend.Realtime.PlaceBid.Effects.{
  early_refusal-none, Lands, Accepts-Lands, new_standing, refuse-Keeps,
}
use aieas_backend.Realtime.Hammer.{hammer, hammered}
use aieas_backend.Realtime.Hammer.Outcome.{IsClosed, outcome-IsClosed, hammer_cases}
use aieas_backend.Realtime.Invariant.{
  Inv, HasRoom, Step, restarts, enrolls, resets, bids, hammers, Reach, here, next, Keeps-Inv,
  accepted_fields,
}

named_differs : (s : String) → is_empty s ≡ false → str_eq s "" ≡ false
named_differs s h = elim (Bool-cases (str_eq s "")) [
  | inr n ↦ n
  | inl e ↦ absurd (false≢true (sym h ∙ ap is_empty ((eq_iff s "").0 e)))
]

not_closed :
    (e : Entry) (i : BidInput)
    → Inv e
    → early_refusal e i ≡ none
    → (r : HammerResult) → e.hammer_result ≡ some r
    → ⊥
not_closed e i v allowed r h =
    let open_status = (early_refusal-none e i allowed).0 in
    let (same, shut) = v.closed r h in
    elim shut [
      | inl c ↦ false≢true (ap takes_bids (sym (same ∙ c)) ∙ open_status)
      | inr c ↦ false≢true (ap takes_bids (sym (same ∙ c)) ∙ open_status)
    ]

module _ (e e' : Entry) (clock : Time) (i : BidInput) (v : Inv e) (a : Accepts e clock i)
    (l : Lands e (bid_time i clock) i e') (room : HasRoom e i) where
  higher : e.state.current_price <ℤ i.price
  higher =
      (validate_bid_price_bounds (effective_start e i) e.state.current_price (effective_cap e i)
        i.price (effective_rule e i) a.priced room).1

  price : e'.state.current_price ≡ i.price
  price =
      ap (λ (s : AuctionState). s.current_price) l.state
      ∙ (accepted_fields e (bid_time i clock) i).0

  leader : e'.state.leader_bidder_id ≡ i.bidder_id
  leader =
      ap (λ (s : AuctionState). s.leader_bidder_id) l.state
      ∙ (accepted_fields e (bid_time i clock) i).1

  start : e'.state.start_price ≡ e.state.start_price
  start =
      ap (λ (s : AuctionState). s.start_price) l.state ∙ (accepted_fields e (bid_time i clock) i).2

  participants : e'.state.participant_count ≡ e.state.participant_count
  participants =
      ap (λ (s : AuctionState). s.participant_count) l.state
      ∙ (accepted_fields e (bid_time i clock) i).3

  ranked : lookup i.bidder_id e'.ranking ≡ some (new_standing e (bid_time i clock) i)
  ranked = rw (l.ranking) (lookup-insert_self i.bidder_id _ e.ranking)

  accepted_top :
      (b : String) (s : Standing) → lookup b e'.ranking ≡ some s → s.price ≤ℤ e'.state.current_price
  accepted_top b s h = rw price (
      ground (
        arith,
        higher,
        v.top b s,
        rw (l.ranking, lookup-insert i.bidder_id b (new_standing e (bid_time i clock) i) e.ranking)
            at h,
      ))

  accepted-Inv : Inv e'
  accepted-Inv = record {
    led = inr (new_standing e (bid_time i clock) i, rw leader ranked, sym price);
    top = accepted_top;
    above_start = rw (price, start) (omega (arith, higher, v.above_start));
    counted = participants ∙ v.counted ∙ ap (λ (l : List String). pos (length l)) (sym l.enrolled);
    matched = rw (l.deposits, l.enrolled) v.matched;
    named = rw (l.enrolled) v.named;
    closed = λ r h. absurd (not_closed e i v a.allowed r (sym l.hammer_result ∙ h));
  }

-- An auction that takes a bid has not been hammered.
pub accepts_unhammered :
    (e : Entry) (clock : Time) (i : BidInput) → Inv e → Accepts e clock i → e.hammer_result ≡ none
accepts_unhammered e clock i v a = elim (Option-cases e.hammer_result) [
  | inl h ↦ h
  | inr (r, h) ↦ absurd (not_closed e i v a.allowed r h)
]

bid-Inv : (e : Entry) (clock : Time) (i : BidInput) → HasRoom e i → Inv e → Inv (bid e clock i).0
bid-Inv e clock i room v = elim (bid_cases e clock i) [
  | inl r ↦ rw (r.result) v
  | inr (inl r) ↦ rw (r.result) (Keeps-Inv (refuse-Keeps e r.at i r.reason r.same) v)
  | inr (inr a) ↦ accepted-Inv e (bid e clock i).0 clock i v a (Accepts-Lands a).0 room
]

init_auction-Inv :
    (e : Entry) (a : AuctionLot) (min_increment clock_ms : ℤ)
    → Inv e
    → Inv (init_auction e.enrolled e.deposits a min_increment clock_ms)
unfolding init_auction lookup
init_auction-Inv e a min_increment clock_ms v = record {
  led = inl refl;
  top = λ b s h. cc;
  above_start = omega arith;
  counted = refl;
  matched = v.matched;
  named = v.named;
  closed = λ r h. cc;
}

participation :
    (e : Entry) (user_id : String)
    → length e.enrolled + 1 < two_63
    → Inv e
    → (enroll e user_id).state.participant_count ≡ pos (length (add user_id e.enrolled))
unfolding enroll add
participation e user_id room v = elim (Bool-cases (contains user_id e.enrolled)) [
  | inl old ↦ rw old v.counted
  | inr new ↦ rw (new, v.counted, add64_pos (length e.enrolled) 1 room) (ap pos (omega arith))
]

enroll_keeps :
    (e : Entry) (user_id : String)
    → ((enroll e user_id).state.current_price ≡ e.state.current_price)
      × ((enroll e user_id).state.leader_bidder_id ≡ e.state.leader_bidder_id)
      × ((enroll e user_id).state.start_price ≡ e.state.start_price)
      × ((enroll e user_id).state.status ≡ e.state.status)
unfolding enroll
enroll_keeps e user_id = elim (Bool-cases (contains user_id e.enrolled)) [
  | inl old ↦ rw old (refl, refl, refl, refl)
  | inr new ↦ rw new (refl, refl, refl, refl)
]

enroll-Inv :
    (e : Entry) (user_id : String)
    → is_empty user_id ≡ false
    → length e.enrolled + 1 < two_63
    → Inv e
    → Inv (enroll e user_id)
enroll-Inv e user_id n room v =
    let (price, leader, start, status) = enroll_keeps e user_id in
    record {
      led = rw (price, leader) (unfold enroll in v.led);
      top = rw price (unfold enroll in v.top);
      above_start = rw (price, start) v.above_start;
      counted = unfold enroll in participation e user_id room v;
      matched = unfold enroll in ap (add user_id) v.matched;
      named =
          unfold enroll in
          (contains-add user_id "" e.enrolled ∙ rw (named_differs user_id n) v.named);
      closed = rw status (unfold enroll in v.closed);
    }

reset_participation-Inv : (e : Entry) → Inv e → Inv (reset_participation e)
unfolding reset_participation contains
reset_participation-Inv e v = record {
  led = v.led;
  top = v.top;
  above_start = v.above_start;
  counted = refl;
  matched = refl;
  named = refl;
  closed = v.closed;
}

hammered-Inv : (e : Entry) (r : HammerResult) → IsClosed r.status → Inv e → Inv (hammered e r)
hammered-Inv e r c v = record {
  led = v.led;
  top = v.top;
  above_start = v.above_start;
  counted = v.counted;
  matched = v.matched;
  named = v.named;
  closed = λ r' h.
      let h' : some r ≡ some r' = h in
      let same : r ≡ r' = cc in (ap (λ (x : HammerResult). x.status) same, rw same at c);
}

hammer-Inv : (e : Entry) (clock : Time) (i : HammerInput) → Inv e → Inv (hammer e clock i).0
hammer-Inv e clock i v = elim (hammer_cases e clock i) [
  | inl r ↦ rw (r.result) v
  | inr (inl r) ↦ rw (r.result) v
  | inr (inr r) ↦ rw (r.result) (hammered-Inv e _ (outcome-IsClosed e.state i _) v)
]

Step-Inv : {e e' : Entry} → Step e e' → Inv e → Inv e'
Step-Inv {e} (restarts a m c) v = init_auction-Inv e a m c v
Step-Inv {e} (enrolls u n room) v = enroll-Inv e u n room v
Step-Inv {e} resets v = reset_participation-Inv e v
Step-Inv {e} (bids clock i room) v = bid-Inv e clock i room v
Step-Inv {e} (hammers clock i) v = hammer-Inv e clock i v

blank_entry-Inv : (id : ℕ) → Inv (blank_entry id)
unfolding blank_entry lookup contains
blank_entry-Inv id = record {
  led = inl refl;
  top = λ b s h. cc;
  above_start = omega arith;
  counted = refl;
  matched = refl;
  named = refl;
  closed = λ r h. cc;
}

Reach-Inv : {e e' : Entry} → Inv e → Reach e e' → Inv e'
Reach-Inv v here = v
Reach-Inv v (next r s) = Step-Inv s (Reach-Inv v r)

-- Whatever operations reach an auction of the store from its creation, in any order and number, its
-- leader stands at the current price, nobody stands higher, the price is not below the start
-- price, the participants are counted and have deposits, and a hammer result agrees with the status.
-- The steps ask that no participant has an empty name and that no sum leaves the int64 range.
pub reachable-Inv : (id : ℕ) {e : Entry} → Reach (blank_entry id) e → Inv e
reachable-Inv id r = Reach-Inv (blank_entry-Inv id) r
