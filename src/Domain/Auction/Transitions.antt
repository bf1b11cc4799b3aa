-- ===== src/Domain/Auction/Transitions.antt =====
-- CanTransitionAuction against the diagram of the auction's life, and what every history keeps.
use aieas_backend.Prelude.{ℕ, true, false, ◌≡◌, refl, ◌↔◌, ◌⊎◌, inl, inr, ◌≢◌, arith, ◌≤◌}
use aieas_backend.Domain.Auction.{
  AuctionStatus, draft, pending_audit, audit_rejected, ready, warming_up, running, extended,
  hammer_pending, closed_won, closed_failed, settled, other_status, status_eq_iff, is_valid,
  is_terminal, can_transition_auction,
}

-- An edge of the diagram.
pub data Edge : AuctionStatus → AuctionStatus → Type 0 where
  submit : Edge draft pending_audit
  approve : Edge pending_audit ready
  reject : Edge pending_audit audit_rejected
  rework : Edge audit_rejected draft
  resubmit : Edge audit_rejected pending_audit
  overrule : Edge audit_rejected ready
  recheck : Edge ready pending_audit
  warm : Edge ready warming_up
  start : Edge ready running
  start_warm : Edge warming_up running
  extend : Edge running extended
  hold : Edge running hammer_pending
  hold_extended : Edge extended hammer_pending
  win : Edge running closed_won
  win_extended : Edge extended closed_won
  win_held : Edge hammer_pending closed_won
  settle : Edge closed_won settled
  fail : {s : AuctionStatus} → is_valid s ≡ true → is_terminal s ≡ false → Edge s closed_failed

ruleset edges = (
  submit, approve, reject, rework, resubmit, overrule, recheck, warm, start, start_warm, extend,
  hold, hold_extended, win, win_extended, win_held, settle, fail,
)

failure_allowed :
    (s : AuctionStatus)
    → is_valid s ≡ true
    → is_terminal s ≡ false
    → can_transition_auction s closed_failed ≡ true
unfolding can_transition_auction is_valid is_terminal
failure_allowed (other_status t) v h = cc
failure_allowed closed_won v h = cc
failure_allowed closed_failed v h = cc
failure_allowed settled v h = cc
failure_allowed _ v h = refl

Edge-can_transition_auction : {a b : AuctionStatus} → Edge a b → can_transition_auction a b ≡ true
unfolding can_transition_auction
Edge-can_transition_auction (fail {s} v h) = failure_allowed s v h
Edge-can_transition_auction _ = refl

can_transition_auction-Edge :
    (a b : AuctionStatus) → can_transition_auction a b ≡ true → (a ≡ b) ⊎ Edge a b
unfolding can_transition_auction is_valid is_terminal
can_transition_auction-Edge a b h = grind (arith, edges, status_eq_iff)

pub stay_allowed : (a b : AuctionStatus) → a ≡ b → can_transition_auction a b ≡ true
unfolding can_transition_auction
stay_allowed a b e = rw ((status_eq_iff a b).1 e)

-- The function allows a change exactly when it is an edge of the diagram or no change at all.
pub can_transition_auction_iff :
    (a b : AuctionStatus) → (can_transition_auction a b ≡ true) ↔ ((a ≡ b) ⊎ Edge a b)
can_transition_auction_iff a b = (
  can_transition_auction-Edge a b,
  λ c. elim c [ inl e ↦ stay_allowed a b e | inr e ↦ Edge-can_transition_auction e ],
)

-- A history: changes that the function allows, one after another.
pub data History (a : AuctionStatus) : AuctionStatus → Type 0 where
  here : History a a
  next : {b c : AuctionStatus} → History a b → can_transition_auction b c ≡ true → History a c

-- How far the life has gone; `settled` lies behind `closed_won`.
abbrev pub stage : AuctionStatus → ℕ
stage running = 1
stage extended = 2
stage hammer_pending = 3
stage closed_won = 4
stage closed_failed = 4
stage settled = 5
stage _ = 0

stage-change : (a b : AuctionStatus) → can_transition_auction a b ≡ true → stage a ≤ stage b
unfolding can_transition_auction
stage-change a b h = ground (arith, status_eq_iff a b)

-- Along changes that CanTransitionAuction allows the stage never falls: they lead no lot that has
-- started back to preparation and no closed lot out of the closed statuses. A change that is made
-- without asking it, as resetAuctionToReady of the live session service does, is no part of a history.
pub stage-History : {a b : AuctionStatus} → History a b → stage a ≤ stage b
stage-History here = omega arith
stage-History (next {b} {c} h e) = omega (arith, stage-History h, stage-change b c e)

settled-change :
    (b : AuctionStatus) → can_transition_auction b settled ≡ true → (b ≡ settled) ⊎ (b ≡ closed_won)
unfolding can_transition_auction
settled-change b h = ground arith

-- A lot is settled only after it was won: every history to `settled` passes `closed_won`.
pub settled_needs_win :
    {a : AuctionStatus} (b : AuctionStatus)
    → a ≢ settled
    → b ≡ settled
    → History a b
    → History a closed_won
settled_needs_win b n e here = absurd (n e)
settled_needs_win c n e (next {b} {c = d} h s) = elim (settled-change b (rw e at s)) [
  | inl p ↦ settled_needs_win b n p h
  | inr p ↦ rw p at h
]

can_close :
    (a : AuctionStatus) → is_valid a ≡ true → is_terminal a ≡ false → History a closed_failed
can_close a v t = next here (failure_allowed a v t)

-- The validity of a status is kept, and every valid status that is not terminal can be closed.
valid-change :
    (a b : AuctionStatus)
    → is_valid a ≡ true
    → can_transition_auction a b ≡ true
    → is_valid b ≡ true
unfolding can_transition_auction is_valid
valid-change a b v h = ground (arith, status_eq_iff a b)
