-- ===== src/Tests/Pending.antt =====
-- Two users bid on one lot, one bid is decided, and a hammer waits for them.
use aieas_backend.Prelude.{
  ◌<◌, String, Bool, true, false, pos, pos_part, ◌≡◌, ◌≢◌, ◌↔◌, refl, arith, none, some, List, [],
  ◌∷◌, lookup, insert, delete, nat_eq, string_eq, add64, sub64, wrap64, ◌+ℤ◌, ◌-ℤ◌, ◌≤◌, inl, inr,
  differ, digits, uint64_to_string,
}
use aieas_backend.Async.Coordinator.{
  Coordinator, PendingEntry, Envelope, new_coordinator, try_enqueue, on_decision,
  user_auction_pending_key, pending_for_auction, release_user, release_bid, release_all,
  resend_timeout, deliver, lower_count, handle_ack,
}
use aieas_backend.Async.Counting.{HasPending, pending_on}
use aieas_backend.Async.Steps.{
  Reachable, starts, continues, enqueues, decides, acknowledges, try_enqueue-Reachable,
  pending_for_auction-Reachable,
}
use aieas_backend.Async.Release.{release_user_iff, timeouts, copies, resends_end}
use aieas_backend.Async.Barrier.{
  Gate, Moment, Signal, new_gate, close_gate, closed_since, is_drained, deadline_of, drain_loop,
  wait_drain, tick,
}
use aieas_backend.Async.Drain.{SomeSettled, OnTime, wait_drain-Settled, wait_drain-Ends}

-- Opens what the coordinator and the barrier compute with.
unfoldable pub running_pending : Unit {0}
unfolding new_coordinator try_enqueue on_decision user_auction_pending_key pending_for_auction
    release_user release_bid release_all resend_timeout deliver lower_count handle_ack lookup insert
    delete add64 sub64 wrap64 ◌+ℤ◌ ◌-ℤ◌ uint64_to_string digits new_gate close_gate closed_since
    is_drained deadline_of drain_loop wait_drain timeouts
running_pending = tt

abbrev none_pending : Coordinator
none_pending = new_coordinator (pos 2) (pos 0) (pos 1)

abbrev one_pending : Coordinator
one_pending = (try_enqueue none_pending 100 7 5 "u1" "b1").0

abbrev two_pending : Coordinator
two_pending = (try_enqueue one_pending 101 7 5 "u2" "b2").0

abbrev result_frame : Envelope
result_frame = record {
  kind = "bid.result";
  request_id = "b1";
  seq = pos 0;
  ack = false;
  live_session_id = 0;
  payload = [];
}

abbrev decided : Coordinator
decided = (on_decision two_pending 5 "u1" "b1" result_frame).0

one_pending-Reachable : Reachable one_pending
unfolding running_pending
one_pending-Reachable =
    continues (starts (pos 2) (pos 0) (pos 1) (omega arith, omega arith))
      (enqueues 100 7 5 "u1" "b1" (omega arith) refl)

two_pending-Reachable : Reachable two_pending
unfolding running_pending
two_pending-Reachable =
    continues one_pending-Reachable (enqueues 101 7 5 "u2" "b2" (omega arith) refl)

decided-Reachable : Reachable decided
decided-Reachable = continues two_pending-Reachable (decides 5 "u1" "b1" result_frame)

pending_for_auction-Reachable_example :
    (pending_for_auction two_pending 7 ≡ pos (pending_on 7 two_pending))
    × (pending_on 7 two_pending ≤ pos_part two_pending.max_pending_per_auction)
pending_for_auction-Reachable_example =
    pending_for_auction-Reachable 7 two_pending-Reachable (omega arith)

both_counted : pending_for_auction two_pending 7 ≡ pos 2
unfolding running_pending
both_counted = refl

try_enqueue-Reachable_example : ((try_enqueue one_pending 102 7 5 "u1" "b3").1 ≡ none) ↔ (
    (HasPending one_pending "u1" 7 → ⊥)
    × (pending_on 7 one_pending < pos_part one_pending.max_pending_per_auction))
try_enqueue-Reachable_example =
    try_enqueue-Reachable 102 7 5 "u1" "b3" one_pending-Reachable (omega arith)

abbrev second_entry : PendingEntry
second_entry = record {
  bid_id = "b2";
  auction_id = 7;
  session_id = 5;
  user_id = "u2";
  created_at = 101;
  env = record {
    kind = "";
    request_id = "";
    seq = pos 0;
    ack = false;
    live_session_id = 0;
    payload = [];
  };
  resolved = false;
  attempts = pos 0;
  armed = false;
}

abbrev first_user : String
first_user = "u1"

abbrev second_user : String
second_user = "u2"

release_user_iff_example :
    (lookup "b2" (release_user two_pending "u1").pending ≡ some second_entry)
    ↔ ((lookup "b2" two_pending.pending ≡ some second_entry) × (second_user ≢ first_user))
release_user_iff_example =
    release_user_iff "u1" "b2" second_entry two_pending-Reachable (differ first_user "" refl)

abbrev first_entry : PendingEntry
first_entry = record {
  bid_id = "b1";
  auction_id = 7;
  session_id = 5;
  user_id = "u1";
  created_at = 100;
  env = result_frame;
  resolved = true;
  attempts = pos 0;
  armed = true;
}

resends_end_example :
    let (d, sent) = timeouts 2 decided "b1" in
    (lookup "b1" d.pending ≡ none)
    × (sent ≡ copies 1 (record { session_id = 5; user_id = "u1"; env = result_frame } ∷ []))
unfolding running_pending
resends_end_example =
    resends_end 1 0 decided "b1" first_entry refl refl (omega arith) refl refl (omega arith)

-- The gate closes at 200, the first look is at 200, and both bids are gone at 500.
abbrev gate : Gate
gate = close_gate (new_gate (pos 200)) 200 7

abbrev acknowledged : Coordinator
acknowledged = handle_ack (handle_ack two_pending "b1") "b2"

acknowledged-Reachable : Reachable acknowledged
acknowledged-Reachable =
    continues (continues two_pending-Reachable (acknowledges "b1")) (acknowledges "b2")

abbrev busy_moment : Moment
busy_moment = record { now = 200; coordinator = two_pending; gate = gate }

abbrev idle_moment : Moment
idle_moment = record { now = 500; coordinator = acknowledged; gate = gate }

wait_drain-Settled_example : SomeSettled 7 (busy_moment ∷ idle_moment ∷ [])
unfolding running_pending
wait_drain-Settled_example =
    wait_drain-Settled (new_gate (pos 200)) 200 7 (pos 1000) busy_moment (tick 500 idle_moment ∷ [])
      (two_pending-Reachable, (acknowledged-Reachable, tt)) refl

wait_drain-Ends_example :
    (answer : Bool) × ((wait_drain
        (new_gate (pos 200))
        200
        7
        (pos 0)
        busy_moment
        (tick 700 busy_moment ∷ tick 5000000200 busy_moment ∷ [])).1
      ≡ some answer)
    × ((l : List Signal)
        → OnTime 5000000200 l
        → (wait_drain (new_gate (pos 200)) 200 7 (pos 0) busy_moment l).1 ≢ some false)
wait_drain-Ends_example =
    wait_drain-Ends (new_gate (pos 200)) 200 7 (pos 0) 5000000000 busy_moment
      (tick 700 busy_moment ∷ tick 5000000200 busy_moment ∷ []) (inr (omega arith, refl))
      (inr (inl (omega arith)))
