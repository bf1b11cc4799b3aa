-- ===== src/Settlement/Draining.antt =====
-- What BeginHammerPending and hammerWithDrain leave.
use aieas_backend.Prelude.{
  ℕ, if◌then◌else◌, true, false, ◌∷◌, ◌≡◌, ◌⊎◌, lookup, insert, nat_eq, Option, some,
}
use aieas_backend.Domain.Error.{Error, invalid_state, optimistic_conflict, ok, err}
use aieas_backend.Domain.Auction.{
  AuctionStatus, running, extended, hammer_pending, closed_won, closed_failed, settled, is_terminal,
}
use aieas_backend.Domain.Bid.{AuctionLot, HammerInput, HammerResult}
use aieas_backend.Order.Deal.{OrderDeal}
use aieas_backend.Async.Barrier.{Gate, is_closed}
use aieas_backend.Async.Drain.{SomeSettled, moments}
use aieas_backend.Settlement.Auctions.{Lots}
use aieas_backend.Settlement.Hammer.{Books, Answers, hammer_internal}
use aieas_backend.Settlement.Pending.{Begin, Wait}

abbrev pub IsOver : AuctionStatus → Type 0
IsOver s = (s ≡ closed_won) ⊎ (s ≡ closed_failed) ⊎ (s ≡ settled)

abbrev pub IsPending : AuctionStatus → Type 0
IsPending s = s ≡ hammer_pending

-- The lot has such a status where it is read: in the first lots or in the second.
abbrev pub Found : Lots → Lots → ℕ → (AuctionStatus → Type 0) → Type 0
Found m r id P = (a : AuctionLot) × ((lookup id m ≡ some a) ⊎ (lookup id r ≡ some a)) × P a.status

-- The lot is written as HAMMER_PENDING, and was RUNNING or EXTENDED; nothing else is written.
abbrev pub Marks : Lots → ℕ → Lots → Type 0
Marks r id r' =
    (c : AuctionLot) × (a : AuctionLot) × (lookup id r ≡ some c)
    × ((c.status ≡ running) ⊎ (c.status ≡ extended))
    × (a.status ≡ hammer_pending)
    × (r' ≡ insert id a r)

-- What a BeginHammerPending leaves, by its answer.
abbrev pub Begun : Lots → Lots → Gate → ℕ → Begin → Type 0
Begun m r g id (r', g', err e) = (r' ≡ r) × (g' ≡ g)
Begun m r g id (r', g', ok p) =
    ((p.already_closed ≡ true) × (r' ≡ r) × (g' ≡ g) × Found m r id IsOver)
    ⊎ ((p.already_closed ≡ false)
        × (is_closed g' id ≡ true)
        × (((p.already_pending ≡ true) × (r' ≡ r) × Found m r id IsPending)
            ⊎ ((p.already_pending ≡ false) × Marks r id r')))

abbrev refusal : AuctionLot → Error
refusal c = if is_terminal c.status then invalid_state else optimistic_conflict

-- What hammerInternal leaves and answers.
abbrev pub Hammers :
    Books → Answers → HammerInput → Books → HammerResult × Option OrderDeal → Type 0
Hammers b w i b' x = ((hammer_internal b w i).0 ≡ b') × ((hammer_internal b w i).1 ≡ ok x)

-- What hammerWithDrain has met where it answers a result.
abbrev pub Drained :
    Lots
    → Lots
    → ℕ
    → Wait
    → Answers
    → HammerInput
    → Books
    → HammerResult × Option OrderDeal
    → Type 0
Drained m r id wait w i b' x =
    (Found m r id IsOver)
    ⊎ ((SomeSettled id (wait.first ∷ moments wait.signals)) × (Hammers wait.books w i b' x))
