-- ===== src/Async/Steps.antt =====
-- The coordinators that operations can reach from an empty one, and what holds of each.
use aieas_backend.Prelude.{
  ℕ, ◌≤◌, ◌<◌, ℤ, pos, pos_part, String, true, false, none, some, List, ◌↔◌, [], ◌∷◌, Time, ◌≡◌,
  inl, inr, refl, arith, lookup, insert, nat_eq, string_eq, two_64, Bool-cases, Option-cases,
  is_empty, ltb_ℤ, IsInt64, add64, no_value, ◌⊎◌,
}
use aieas_backend.Async.Coordinator.{
  Coordinator, PendingEntry, Envelope, new_coordinator, try_enqueue, on_decision, decided_entry,
  handle_ack, release_bid, release_all, release_user, bids_of, resend_timeout, deliver,
  pending_for_auction,
}
use aieas_backend.Async.Counting.{Inv, pending_on, replaced-Inv, released-Inv, HasPending}
use aieas_backend.Async.Admission.{enqueued-Inv, try_enqueue_iff}

-- One call of an operation or one timer that fires. A bid's id is new when it is enqueued
-- (DealBidID of the callers is a random id).
pub data Step (c : Coordinator) : Coordinator → Type 0 where
  enqueues :
      (now : Time) (a s : ℕ) (u b : String)
      → a < two_64
      → lookup b c.pending ≡ none
      → Step c ((try_enqueue c now a s u b).0)
  decides : (s : ℕ) (u b : String) (env : Envelope) → Step c ((on_decision c s u b env).0)
  acknowledges : (b : String) → Step c (handle_ack c b)
  disconnects : (u : String) → Step c (release_user c u)
  fires : (b : String) → Step c ((resend_timeout c b).0)

pub data Reachable : Coordinator → Type 0 where
  starts :
      (limit timeout resends : ℤ)
      → IsInt64 limit
      → Reachable (new_coordinator limit timeout resends)
  continues : {c d : Coordinator} → Reachable c → Step c d → Reachable d

new_coordinator-Inv :
    (limit timeout resends : ℤ) → IsInt64 limit → Inv (new_coordinator limit timeout resends)
unfolding new_coordinator lookup
new_coordinator-Inv limit timeout resends h = record {
  distinct = tt;
  marked = λ b e q. no_value q;
  owned = λ k b q. no_value q;
  counted = λ a. refl;
  bounded = λ a. omega arith;
  small = ground (arith, h);
}

decided-Inv :
    (c : Coordinator) (s : ℕ) (u b : String) (env : Envelope)
    → Inv c
    → Inv ((on_decision c s u b env).0)
unfolding on_decision
decided-Inv c s u b env v = elim (Option-cases (lookup b c.pending)) [
  | inl away ↦ rw (away, on_decision) v
  | inr (e, at) ↦ rw (at, on_decision) (replaced-Inv c b e (decided_entry e s env) v at refl refl)
]

acknowledged-Inv : (c : Coordinator) (b : String) → Inv c → Inv (handle_ack c b)
unfolding handle_ack
acknowledged-Inv c b v = elim (Bool-cases (is_empty b)) [
  | inl e ↦ rw e v
  | inr e ↦ rw e (released-Inv c b v)
]

release_all-Inv : (c : Coordinator) (bs : List String) → Inv c → Inv (release_all c bs)
unfolding release_all
release_all-Inv c [] v = v
release_all-Inv c (b ∷ bs) v = release_all-Inv (release_bid c b) bs (released-Inv c b v)

released_user-Inv : (c : Coordinator) (u : String) → Inv c → Inv (release_user c u)
unfolding release_user
released_user-Inv c u v = elim (Bool-cases (is_empty u)) [
  | inl e ↦ rw e v
  | inr e ↦ rw e (release_all-Inv c (bids_of u c.pending) v)
]

-- What the timer of a pending bid does.
pub resend_timeout_cases :
    (c : Coordinator) (b : String) (e : PendingEntry)
    → lookup b c.pending ≡ some e
    → let more = record e { attempts = add64 e.attempts (pos 1); armed = true } in
      ((e.resolved ≡ false) × (resend_timeout c b ≡ (c, [])))
      ⊎ ((e.resolved ≡ true)
          × (((ltb_ℤ c.max_resend_attempts more.attempts ≡ true)
                × (resend_timeout c b ≡ (release_bid c b, [])))
              ⊎ ((ltb_ℤ c.max_resend_attempts more.attempts ≡ false)
                  × (resend_timeout c b ≡ (
                    record c { pending = insert b more c.pending },
                    deliver e.session_id e.user_id e.env,
                  )))))
unfolding resend_timeout
resend_timeout_cases c b e at = elim (Bool-cases e.resolved) [
  | inr waits ↦ inl (waits, rw (at, resend_timeout, waits) refl)
  | inl done ↦ elim (Bool-cases (ltb_ℤ c.max_resend_attempts (add64 e.attempts (pos 1)))) [
    | inl over ↦ inr (done, inl (over, rw (at, resend_timeout, done, over) refl))
    | inr under ↦ inr (done, inr (under, rw (at, resend_timeout, done, under) refl))
  ]
]

fired-Inv : (c : Coordinator) (b : String) → Inv c → Inv ((resend_timeout c b).0)
unfolding resend_timeout
fired-Inv c b v = elim (Option-cases (lookup b c.pending)) [
  | inl away ↦ rw (away, resend_timeout) v
  | inr (e, at) ↦ elim (resend_timeout_cases c b e at) [
    | inl (_, q) ↦ rw q v
    | inr (_, inl (_, q)) ↦ rw q (released-Inv c b v)
    | inr (_, inr (_, q)) ↦ rw q (
        replaced-Inv c b e (record e { attempts = add64 e.attempts (pos 1); armed = true }) v at
          refl refl)
  ]
]

Step-Inv : {c d : Coordinator} → Inv c → Step c d → Inv d
Step-Inv {c} v (Step.enqueues now a s u b word fresh) = enqueued-Inv c now a s u b v word fresh
Step-Inv {c} v (Step.decides s u b env) = decided-Inv c s u b env v
Step-Inv {c} v (Step.acknowledges b) = acknowledged-Inv c b v
Step-Inv {c} v (Step.disconnects u) = released_user-Inv c u v
Step-Inv {c} v (Step.fires b) = fired-Inv c b v

-- In a coordinator that operations reach from an empty one with an int64 bound, enqueueing new bid
-- ids on uint64 lots only, the number of pending bids is right for every lot, no lot has more than
-- the bound, and each user's mark is that of a bid of theirs.
pub Reachable-Inv : {c : Coordinator} → Reachable c → Inv c
Reachable-Inv (Reachable.starts limit timeout resends h) =
    new_coordinator-Inv limit timeout resends h
Reachable-Inv (Reachable.continues r s) = Step-Inv (Reachable-Inv r) s

-- In a coordinator that operations reach from an empty one with an int64 bound, enqueueing new bid
-- ids on uint64 lots only, PendingForAuction tells, for a lot whose id is not 0, how many bids on it
-- are pending, and that is at most the bound; so 0 means that none is.
pub pending_for_auction-Reachable :
    {c : Coordinator} (a : ℕ)
    → Reachable c
    → 0 < a
    → (pending_for_auction c a ≡ pos (pending_on a c))
      × (pending_on a c ≤ pos_part c.max_pending_per_auction)
unfolding pending_for_auction
pending_for_auction-Reachable {c} a r h =
    (ground (arith, (Reachable-Inv r).counted a), (Reachable-Inv r).bounded a)

-- In a coordinator that operations reach from an empty one with an int64 bound, enqueueing new bid
-- ids on uint64 lots only, TryEnqueue admits a bid on a uint64 lot exactly where its user has no
-- pending bid on that lot and the lot has fewer pending bids than the bound.
pub try_enqueue-Reachable :
    {c : Coordinator} (now : Time) (a s : ℕ) (u b : String)
    → Reachable c
    → a < two_64
    → ((try_enqueue c now a s u b).1 ≡ none)
      ↔ ((HasPending c u a → ⊥) × (pending_on a c < pos_part c.max_pending_per_auction))
try_enqueue-Reachable {c} now a s u b r word = try_enqueue_iff c now a s u b (Reachable-Inv r) word
