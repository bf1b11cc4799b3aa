-- ===== src/Realtime/Hammer/Outcome.antt =====
-- How Hammer ends: a result found again, a refusal before the end of the auction, a decision.
use mathlib.Core.Bool.{false≢true}
use aieas_backend.Prelude.{
  empty_iff, true, false, not, ◌&&◌, none, some, ◌≡◌, refl, ap, ◌↔◌, ◌∙◌, ◌⊎◌, inl, inr, ◌≢◌, arith,
  Time, before, Bool-cases, Option-cases, ◌≤ℤ◌,
}
use aieas_backend.Domain.Error.{ok, err, ok-injective, invalid_state}
use aieas_backend.Domain.Auction.{AuctionStatus, closed_won, closed_failed}
use aieas_backend.Domain.Bid.{AuctionState, HammerInput, HammerResult}
use aieas_backend.Realtime.Entry.{Entry}
use aieas_backend.Realtime.Hammer.{
  hammer, decide_hammer, hammer_outcome, hammered, hammer_time, has_winner,
}

abbrev pub IsClosed : AuctionStatus → Type 0
IsClosed s = (s ≡ closed_won) ⊎ (s ≡ closed_failed)

pub outcome-IsClosed :
    (s : AuctionState) (i : HammerInput) (now : Time) → IsClosed (hammer_outcome s i now).status
unfolding hammer_outcome
outcome-IsClosed s i now = ground arith

pub record Repeats (e : Entry) (clock : Time) (i : HammerInput) : Type 0 where
  pub first : HammerResult
  pub decided : e.hammer_result ≡ some first
  pub result : hammer e clock i ≡ (e, ok (record first { duplicate = true }))

pub record TooEarly (e : Entry) (clock : Time) (i : HammerInput) : Type 0 where
  pub undecided : e.hammer_result ≡ none
  pub unforced : i.force ≡ false
  pub early : before (hammer_time i clock) e.state.end_time ≡ true
  pub result : hammer e clock i ≡ (e, err invalid_state)

pub record Decides (e : Entry) (clock : Time) (i : HammerInput) : Type 0 where
  pub undecided : e.hammer_result ≡ none
  pub due : (i.force ≡ true) ⊎ (before (hammer_time i clock) e.state.end_time ≡ false)
  pub result : hammer e clock i ≡ (
    hammered e (hammer_outcome e.state i (hammer_time i clock)),
    ok (hammer_outcome e.state i (hammer_time i clock)),
  )

fresh :
    (e : Entry) (clock : Time) (i : HammerInput)
    → e.hammer_result ≡ none
    → hammer e clock i ≡ decide_hammer e (hammer_time i clock) i
unfolding hammer
fresh e clock i h = simp (h, hammer)

fresh_cases :
    (e : Entry) (clock : Time) (i : HammerInput)
    → e.hammer_result ≡ none
    → TooEarly e clock i ⊎ Decides e clock i
unfolding decide_hammer
fresh_cases e clock i h =
    elim (Bool-cases (not i.force && before (hammer_time i clock) e.state.end_time)) [
      | inl early ↦ inl (record {
        undecided = h;
        unforced = ground arith;
        early = ground arith;
        result = fresh e clock i h ∙ rw (early, decide_hammer);
      })
      | inr due ↦ inr (record {
        undecided = h;
        due = ground arith;
        result = fresh e clock i h ∙ rw (due, decide_hammer);
      })
    ]

pub hammer_cases :
    (e : Entry) (clock : Time) (i : HammerInput)
    → Repeats e clock i ⊎ TooEarly e clock i ⊎ Decides e clock i
unfolding hammer
hammer_cases e clock i = elim (Option-cases e.hammer_result) [
  | inr (r, h) ↦ inl (record { first = r; decided = h; result = simp (h, hammer) })
  | inl h ↦ inr (fresh_cases e clock i h)
]

pub hammer_repeats :
    (e : Entry) (clock : Time) (i : HammerInput) (r : HammerResult)
    → e.hammer_result ≡ some r
    → hammer e clock i ≡ (e, ok (record r { duplicate = true }))
unfolding hammer
hammer_repeats e clock i r h = simp (h, hammer)

-- The result that is kept behind a Hammer that gave `r`.
abbrev pub Kept : HammerResult → Entry → Type 0
Kept r e =
    (first : HammerResult) × (e.hammer_result ≡ some first)
    × (record first { duplicate = true } ≡ record r { duplicate = true })

pub hammer-Kept :
    (e : Entry) (clock : Time) (i : HammerInput) (r : HammerResult)
    → (hammer e clock i).1 ≡ ok r
    → Kept r (hammer e clock i).0
hammer-Kept e clock i r h = elim (hammer_cases e clock i) [
  | inl c ↦
      let same : record (c.first) { duplicate = true } ≡ r = ok-injective (rw (c.result) at h) in
      rw (c.result) (
        c.first,
        c.decided,
        ap (λ (x : HammerResult). let y : HammerResult = record x { duplicate = true } in y) same,
      )
  | inr (inl c) ↦ absurd (ground (arith, rw (c.result) at h))
  | inr (inr c) ↦
      let same : hammer_outcome e.state i (hammer_time i clock) ≡ r =
        ok-injective (rw (c.result) at h) in
      rw (c.result) (
        hammer_outcome e.state i (hammer_time i clock),
        refl,
        ap (λ (x : HammerResult). let y : HammerResult = record x { duplicate = true } in y) same,
      )
]

abbrev Declares : AuctionState → HammerInput → HammerResult → Type 0
Declares s i r =
    ((r.status ≡ closed_won) ↔ ((s.leader_bidder_id ≢ "") × (i.reserve_price ≤ℤ s.current_price)))
    × (r.status ≡ closed_won → (r.winner_id ≡ s.leader_bidder_id) × (r.price ≡ s.current_price))
    × (r.status ≢ closed_won → (r.status ≡ closed_failed) × (r.winner_id ≡ ""))

outcome-Declares :
    (s : AuctionState) (i : HammerInput) (now : Time) → Declares s i (hammer_outcome s i now)
unfolding hammer_outcome
outcome-Declares s i now = elim (Bool-cases (has_winner s i.reserve_price)) [
  | inl won ↦ rw won (
    (
      λ _. (
        λ e. false≢true (ground (arith, won, (empty_iff s.leader_bidder_id).1 e)),
        ground (arith, won),
      ),
      λ _. refl,
    ),
    λ _. (refl, refl),
    λ n. absurd (n refl),
  )
  | inr lost ↦ rw lost (
    (λ e. cc, λ h. absurd (ground (arith, lost, (empty_iff s.leader_bidder_id).0))),
    λ e. cc,
    λ _. (refl, refl),
  )
]

-- A Hammer that decides declares the auction won exactly if there is a leader and the current price
-- meets the reserve; the winner is then the leader at the current price, and otherwise the auction
-- has failed with no winner.
pub hammer_winner :
    (e : Entry) (clock : Time) (i : HammerInput) (r : HammerResult)
    → e.hammer_result ≡ none
    → (hammer e clock i).1 ≡ ok r
    → ((r.status ≡ closed_won)
        ↔ ((e.state.leader_bidder_id ≢ "") × (i.reserve_price ≤ℤ e.state.current_price)))
      × (r.status ≡ closed_won
          → (r.winner_id ≡ e.state.leader_bidder_id) × (r.price ≡ e.state.current_price))
      × (r.status ≢ closed_won → (r.status ≡ closed_failed) × (r.winner_id ≡ ""))
hammer_winner e clock i r u h = elim (fresh_cases e clock i u) [
  | inl c ↦ absurd (ground (arith, rw (c.result) at h))
  | inr c ↦
      let same : hammer_outcome e.state i (hammer_time i clock) ≡ r =
        ok-injective (rw (c.result) at h) in
      rw same at (outcome-Declares e.state i (hammer_time i clock))
]

-- Behind the end of the auction, or forced, the first Hammer decides.
pub hammer_due :
    (e : Entry) (clock : Time) (i : HammerInput)
    → e.hammer_result ≡ none
    → (i.force ≡ true) ⊎ (before (hammer_time i clock) e.state.end_time ≡ false)
    → (r : HammerResult) × ((hammer e clock i).1 ≡ ok r)
hammer_due e clock i u due = elim (fresh_cases e clock i u) [
  | inl c ↦ absurd (ground (arith, c.unforced, c.early))
  | inr c ↦ (hammer_outcome e.state i (hammer_time i clock), rw (c.result))
]
