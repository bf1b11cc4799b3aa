-- ===== src/Async/Barrier.antt =====
-- HammerPublisherGate and InFlightBarrier of internal/modules/auction/app/hammer_barrier.go. A mutex
-- makes each operation of the gate one step; `now` is the clock's answer in it. What a wait reads
-- at one instant is a Moment, and what its select receives is a Signal. The server gives the barrier
-- a coordinator and a gate; metrics are left out.
use aieas_backend.Prelude.{
  ℕ, ◌+◌, ℤ, pos, pos_part, Bool, true, false, not, ◌&&◌, ◌==◌, if◌then◌else◌, Option, none, some,
  List, [], ◌∷◌, Time, before, lookup, insert, delete, nat_eq, leb_ℤ, ltb_ℤ, sub_ℕ,
}
use aieas_backend.Async.Coordinator.{Coordinator, pending_for_auction}

-- HammerPublisherGate
pub record Gate : Type 0 where
  pub closed : List (ℕ × Time)
  pub grace_for : ℤ

-- NewHammerPublisherGate
unfoldable pub new_gate : ℤ → Gate
new_gate grace = record { closed = []; grace_for = if ltb_ℤ grace (pos 0) then pos 0 else grace }

-- Close
unfoldable pub close_gate : Gate → Time → ℕ → Gate
close_gate g now auction_id = if auction_id == 0 then g else elim (lookup auction_id g.closed) [
  | some _ ↦ g
  | none ↦ record g { closed = insert auction_id now g.closed }
]

-- Open
unfoldable pub open_gate : Gate → ℕ → Gate
open_gate g auction_id =
    if auction_id == 0 then g else record g { closed = delete auction_id g.closed }

-- IsClosed
unfoldable pub is_closed : Gate → ℕ → Bool
is_closed g auction_id =
    if auction_id == 0
    then false
    else elim (lookup auction_id g.closed) [ none ↦ false | some _ ↦ true ]

-- ClosedSince
unfoldable pub closed_since : Gate → ℕ → Option Time
closed_since g auction_id = if auction_id == 0 then none else lookup auction_id g.closed

-- SetGrace
unfoldable pub set_grace : Gate → ℤ → Gate
set_grace g grace = if ltb_ℤ grace (pos 0) then g else record g { grace_for = grace }

-- What a check finds: the clock, the bids that are pending, and the gate.
pub record Moment : Type 0 where
  pub now : Time
  pub coordinator : Coordinator
  pub gate : Gate

-- The closure `check` of WaitDrain.
unfoldable pub is_drained : ℕ → Moment → Bool
unfolding closed_since
is_drained auction_id w =
    if ltb_ℤ (pos 0) (pending_for_auction w.coordinator auction_id)
    then false
    else elim (closed_since w.gate auction_id) [
      | none ↦ false
      | some closed_at ↦
          not (ltb_ℤ (pos 0) w.gate.grace_for && ltb_ℤ (sub_ℕ w.now closed_at) w.gate.grace_for)
    ]

pub data Signal : Type 0 where
  cancelled : Signal
  tick : Time → Moment → Signal

-- The deadline of a wait; 5 s where no positive bound is given.
unfoldable pub deadline_of : Time → ℤ → Time
deadline_of start max_wait =
    start + (if leb_ℤ max_wait (pos 0) then 5000000000 else pos_part max_wait)

-- The loop of WaitDrain; none while it still waits.
unfoldable pub drain_loop : ℕ → Time → List Signal → Option Bool
drain_loop auction_id deadline [] = none
drain_loop auction_id deadline (cancelled ∷ l) = some false
drain_loop auction_id deadline (tick now w ∷ l) =
    let rest = drain_loop auction_id deadline l in
    if is_drained auction_id w
    then some true
    else if not (before now deadline)
    then some false
    else rest

-- WaitDrain: the gate it closes, and its answer.
unfoldable pub wait_drain : Gate → Time → ℕ → ℤ → Moment → List Signal → Gate × Option Bool
unfolding deadline_of
wait_drain g start auction_id max_wait first l = (
  close_gate g start auction_id,
  if is_drained auction_id first
      then some true
      else drain_loop auction_id (deadline_of start max_wait) l,
)
