-- ===== src/Realtime/PlaceBid/Ending.antt =====
-- How an accepted bid moves the end and the status of the auction.
use aieas_backend.Prelude.{
  ℕ, ◌+◌, ◌*◌, ◌≤◌, ◌<◌, ℤ, pos, true, none, ◌≡◌, refl, sym, ap, inl, inr, ◌↔◌, arith, Time,
  Bool-cases, if◌then◌else◌, add64, sub64, mul64, add64_pos, IsInt64, add64_exact, +ℤ_parts,
  mul64_pos, two_63, ◌<ℤ◌, ◌≤ℤ◌, unix_milli, from_unix_milli, unix_milli-from_unix_milli,
  eq_of_parts,
}
use aieas_backend.Domain.Auction.{
  AuctionStatus, running, extended, closed_won, can_transition_auction, is_reset,
  normalize_auction_extend_mode, validate_auction_anti_extend_config,
}
use aieas_backend.Domain.Auction.AntiExtend.{
  is_reset-normalize, validate_auction_anti_extend_config_iff,
}
use aieas_backend.Domain.Increment.Price.{sub64_pos}
use aieas_backend.Domain.Auction.Transitions.{stay_allowed}
use aieas_backend.Realtime.PlaceBid.Cases.{bid_cases}
use aieas_backend.Realtime.PlaceBid.Effects.{Accepts-Lands, refuse-Keeps, early_refusal-none}
use aieas_backend.Domain.Bid.{AuctionState, BidInput}
use aieas_backend.Realtime.Entry.{Entry}
use aieas_backend.Realtime.PlaceBid.{
  bid, bid_time, close_state, raise_price, Closing, stays, closes, extends, closing_of, takes_bids,
  effective_cap,
}

pub closes_at_cap :
    (s : AuctionState) (i : BidInput) (cap_price now_ms : ℤ)
    → (closing_of s i cap_price now_ms ≡ closes) ↔ ((pos 0 <ℤ cap_price) × (i.price ≡ cap_price))
unfolding closing_of
closes_at_cap s i cap_price now_ms =
    (λ h. (ground arith, ground (arith, eq_of_parts i.price cap_price)), λ h. ground arith)

-- An extension is made only in the last stretch and below the limit of extensions.
pub extends_needs :
    (s : AuctionState) (i : BidInput) (cap_price now_ms : ℤ) (t : Time)
    → closing_of s i cap_price now_ms ≡ extends t
    → (pos 0 <ℤ i.anti_sniping_ms)
      × (pos 0 <ℤ i.anti_extend_ms)
      × (s.extend_count <ℤ i.max_extend_count)
      × (sub64 (unix_milli s.end_time) now_ms ≤ℤ i.anti_sniping_ms)
      × (t ≡ (
          if is_reset (normalize_auction_extend_mode i.anti_extend_mode)
          then from_unix_milli (add64 now_ms i.anti_extend_ms)
          else from_unix_milli (add64 (unix_milli s.end_time) i.anti_extend_ms)))
unfolding closing_of
extends_needs s i cap_price now_ms t h =
    (ground arith, ground arith, ground arith, ground arith, ground arith)

extension_reset :
    (s x n d : ℕ) → n + x < two_63 → d < two_63 → sub64 (pos d) (pos n) ≤ℤ pos s → s ≤ x → d ≤ n + x
extension_reset s x n d room fits near enough = ground (arith, sub64_pos d n fits (omega arith))

-- Under a setting that ValidateAuctionAntiExtendConfig accepts, with its seconds turned into the
-- milliseconds of the bid as the bid service does, an extension never moves the end of the auction
-- to an earlier millisecond, in either mode. Times are from 1970 on and no sum leaves int64.
pub extension_not_earlier :
    (st : AuctionState) (i : BidInput) (cap_price : ℤ) (t : Time) (s x n d : ℕ)
    → validate_auction_anti_extend_config (pos s) (pos x) i.anti_extend_mode ≡ none
    → i.anti_sniping_ms ≡ mul64 (pos s) (pos 1000)
    → i.anti_extend_ms ≡ mul64 (pos x) (pos 1000)
    → unix_milli st.end_time ≡ pos d
    → n + s * 1000 < two_63
    → n + x * 1000 < two_63
    → d + x * 1000 < two_63
    → closing_of st i cap_price (pos n) ≡ extends t
    → unix_milli st.end_time ≤ℤ unix_milli t
extension_not_earlier st i cap_price t s x n d valid es ex ed rs rx rd h =
    let (_, _, _, near, at) = extends_needs st i cap_price (pos n) t h in
    let (_, _, long) =
      (validate_auction_anti_extend_config_iff (pos s) (pos x) i.anti_extend_mode).0 valid in
    let now_plus = add64_pos n (x * 1000) rx in
    let end_plus = add64_pos d (x * 1000) rd in
    let near' : sub64 (pos d) (pos n) ≤ℤ pos (s * 1000) =
      rw (ed, es, mul64_pos s 1000 (omega arith)) at near in
    elim (Bool-cases (is_reset (normalize_auction_extend_mode i.anti_extend_mode))) [
      | inl reset ↦
          let at' : t ≡ from_unix_milli (pos (n + x * 1000)) =
            rw (reset, ex, mul64_pos x 1000 (omega arith), now_plus) at at in
          let late =
            extension_reset (s * 1000) (x * 1000) n d rx (omega arith) near'
              (omega (arith, long ((is_reset-normalize i.anti_extend_mode).0 reset))) in
          rw (at', unix_milli-from_unix_milli (pos (n + x * 1000)) (omega arith), ed)
            (omega (arith, late))
      | inr add ↦
          let at' : t ≡ from_unix_milli (pos (d + x * 1000)) =
            rw (add, ex, mul64_pos x 1000 (omega arith), ed, end_plus) at at in
          rw (at', unix_milli-from_unix_milli (pos (d + x * 1000)) (omega arith), ed) (omega arith)
    ]

open_moves :
    (a : AuctionStatus)
    → takes_bids a ≡ true
    → (can_transition_auction a extended ≡ true) × (can_transition_auction a closed_won ≡ true)
unfolding can_transition_auction
open_moves running h = (refl, refl)
open_moves extended h = (refl, refl)
open_moves _ h = cc

accepted_status :
    (s : AuctionState) (c : Closing) (now : Time)
    → takes_bids s.status ≡ true
    → can_transition_auction s.status (close_state s c now).status ≡ true
unfolding close_state
accepted_status s stays now h = stay_allowed s.status s.status refl
accepted_status s closes now h = (open_moves s.status h).1
accepted_status s (extends t) now h = (open_moves s.status h).0

-- Every bid, accepted or not, changes the status only as CanTransitionAuction allows.
pub bid_transition :
    (e : Entry) (clock : Time) (i : BidInput)
    → can_transition_auction e.state.status (bid e clock i).0.state.status ≡ true
unfolding raise_price
bid_transition e clock i = elim (bid_cases e clock i) [
  | inl r ↦ rw (r.result) (stay_allowed e.state.status e.state.status refl)
  | inr (inl r) ↦ stay_allowed e.state.status _ (
      ap (λ (s : AuctionState). s.status)
        (sym (rw (← r.result) at (refuse-Keeps e r.at i r.reason r.same).state)))
  | inr (inr a) ↦
      let now = bid_time i clock in
      rw ((Accepts-Lands a).0.state) (
        accepted_status (raise_price e.state i (unix_milli now)) _ now
          (early_refusal-none e i a.allowed).0)
]

extended_count :
    (s : AuctionState) (c : Closing) (now : Time) (most : ℤ)
    → pos 0 ≤ℤ s.extend_count
    → IsInt64 most
    → s.extend_count ≤ℤ most
    → ((t : Time) → c ≡ extends t → s.extend_count <ℤ most)
    → (pos 0 ≤ℤ (close_state s c now).extend_count) × ((close_state s c now).extend_count ≤ℤ most)
unfolding close_state
extended_count s stays now most low fits high below = (low, high)
extended_count s closes now most low fits high below = (low, high)
extended_count s (extends t) now most low fits high below =
    let less = below t refl in
    let parts = +ℤ_parts s.extend_count (pos 1) in
    rw (add64_exact s.extend_count (pos 1) (ground (arith, less, parts)))
      (omega (arith, parts), omega (arith, less, parts))

-- A bid keeps the count of extensions between 0 and the limit that it comes with.
pub extension_count :
    (e : Entry) (clock : Time) (i : BidInput)
    → pos 0 ≤ℤ e.state.extend_count
    → IsInt64 i.max_extend_count
    → e.state.extend_count ≤ℤ i.max_extend_count
    → (pos 0 ≤ℤ (bid e clock i).0.state.extend_count)
      × ((bid e clock i).0.state.extend_count ≤ℤ i.max_extend_count)
unfolding raise_price
extension_count e clock i low fits high = elim (bid_cases e clock i) [
  | inl r ↦ rw (r.result) (low, high)
  | inr (inl r) ↦ rw (r.result) (rw ((refuse-Keeps e r.at i r.reason r.same).state) (low, high))
  | inr (inr a) ↦
      let now = bid_time i clock in
      rw ((Accepts-Lands a).0.state) (
        extended_count (raise_price e.state i (unix_milli now)) _ now i.max_extend_count low fits
          high (λ t h. (extends_needs e.state i (effective_cap e i) (unix_milli now) t h).2))
]
