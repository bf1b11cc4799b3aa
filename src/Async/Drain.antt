-- ===== src/Async/Drain.antt =====
-- What the answer of WaitDrain means, and that it comes.
use aieas_backend.Prelude.{
  ℕ, ◌+◌, ◌≤◌, ◌<◌, ℤ, pos, String, Bool, true, false, ◌==◌, ==_iff, some, List, [], ◌∷◌, Time, ◌≡◌,
  ◌≢◌, ◌⊎◌, inl, inr, refl, arith, lookup, nat_eq, string_eq, Bool-cases, Option-cases, ltb_ℤ,
  tally, no_value, some_inj, before, sub_ℕ, ◌≤ℤ◌,
}
use aieas_backend.Async.Coordinator.{PendingEntry, pending_for_auction}
use aieas_backend.Async.Counting.{on_auction, pending_on}
use aieas_backend.Async.Steps.{Reachable, pending_for_auction-Reachable}
use aieas_backend.Async.Barrier.{
  Gate, Moment, Signal, cancelled, tick, closed_since, is_drained, deadline_of, drain_loop,
  wait_drain,
}

-- No entry that a test holds of is in a map whose tally is 0.
none_tallied :
    {V : Type 0} (p : V → Bool) (k : String) (v : V) (m : List (String × V))
    → tally p m ≡ 0
    → lookup k m ≡ some v
    → p v ≡ false
unfolding lookup
none_tallied p k v [] z h = no_value h
none_tallied p k v ((j, w) ∷ m) z h = elim (Bool-cases (string_eq.beq j k)) [
  | inl same ↦ let q : w ≡ v = some_inj (rw same at h) in ground (arith)
  | inr other ↦ none_tallied p k v m (omega (arith, z)) (rw other at h)
]

-- At this instant no bid on the lot is pending, and the gate has been closed for the grace time.
abbrev pub Settled : ℕ → Moment → Type 0
Settled a w =
    ((b : String) (e : PendingEntry) → lookup b w.coordinator.pending ≡ some e → e.auction_id ≢ a)
    × ((t : Time) × (closed_since w.gate a ≡ some t)
        × (w.gate.grace_for ≤ℤ sub_ℕ w.now t ⊎ w.gate.grace_for ≤ℤ pos 0))

is_drained-Settled :
    (a : ℕ) (w : Moment) → Reachable w.coordinator → is_drained a w ≡ true → Settled a w
unfolding is_drained closed_since
is_drained-Settled a w r h =
    elim (Bool-cases (ltb_ℤ (pos 0) (pending_for_auction w.coordinator a))) [
      | inl busy ↦ absurd (ground (arith, (rw busy at h)))
      | inr idle ↦ elim (Bool-cases (a == 0)) [
        | inl nothing ↦ absurd (ground (arith, (rw (idle, nothing) at h)))
        | inr lot ↦ elim (Option-cases (lookup a w.gate.closed)) [
          | inl away ↦ absurd (ground (arith, (rw (idle, lot, away) at h)))
          | inr (t, at) ↦
              let (count, _) = pending_for_auction-Reachable a r (ground (arith, ==_iff a 0)) in
              let none_left : pending_on a w.coordinator ≡ 0 = ground (arith, (rw count at idle)) in
              (
                λ b e there q.
                    let other =
                      none_tallied (on_auction a) b e w.coordinator.pending none_left there in
                    ground (arith, ==_iff e.auction_id a),
                (t, rw lot at, ground (arith, (rw (idle, lot, at) at h))),
              )
        ]
      ]
    ]

-- The instants at which a wait looks.
abbrev pub moments : List Signal → List Moment
moments [] = []
moments (cancelled ∷ l) = moments l
moments (tick now w ∷ l) = w ∷ moments l

abbrev pub AllReachable : List Moment → Type 0
AllReachable [] = Unit
AllReachable (w ∷ l) = (Reachable w.coordinator) × AllReachable l

abbrev pub SomeSettled : ℕ → List Moment → Type 0
SomeSettled a [] = ⊥
SomeSettled a (w ∷ l) = (Settled a w) ⊎ (SomeSettled a l)

loop-Settled :
    (a : ℕ) (deadline : Time) (l : List Signal)
    → AllReachable (moments l)
    → drain_loop a deadline l ≡ some true
    → SomeSettled a (moments l)
unfolding drain_loop
loop-Settled a deadline [] r h = no_value h
loop-Settled a deadline (cancelled ∷ l) r h = absurd (ground arith)
loop-Settled a deadline (tick now w ∷ l) (r, rs) h = elim (Bool-cases (is_drained a w)) [
  | inl drained ↦ inl (is_drained-Settled a w r drained)
  | inr busy ↦ elim (Bool-cases (before now deadline)) [
    | inl early ↦ inr (loop-Settled a deadline l rs (rw (busy, early) at h))
    | inr late ↦ absurd (ground (arith, (rw (busy, late) at h)))
  ]
]

-- Where WaitDrain answers true, one of the instants it looked at had no pending bid on the lot and a
-- gate that was closed for at least the grace time, provided that the coordinator at each of those
-- instants is one that operations reach from an empty one.
pub wait_drain-Settled :
    (g : Gate) (start : Time) (a : ℕ) (max_wait : ℤ) (first : Moment) (l : List Signal)
    → AllReachable (first ∷ moments l)
    → (wait_drain g start a max_wait first l).1 ≡ some true
    → SomeSettled a (first ∷ moments l)
unfolding wait_drain
wait_drain-Settled g start a max_wait first l (r, rs) h = elim (Bool-cases (is_drained a first)) [
  | inl drained ↦ inl (is_drained-Settled a first r drained)
  | inr busy ↦ inr (loop-Settled a (deadline_of start max_wait) l rs (rw busy at h))
]

-- The signals that end a wait: a cancelled context, or a tick at the deadline or after it.
abbrev pub Ends : Time → List Signal → Type 0
Ends deadline [] = ⊥
Ends deadline (cancelled ∷ l) = Unit
Ends deadline (tick now w ∷ l) = (deadline ≤ now) ⊎ (Ends deadline l)

loop-Ends :
    (a : ℕ) (deadline : Time) (l : List Signal)
    → Ends deadline l
    → (answer : Bool) × (drain_loop a deadline l ≡ some answer)
unfolding drain_loop
loop-Ends a deadline [] e = absurd e
loop-Ends a deadline (cancelled ∷ l) e = (false, refl)
loop-Ends a deadline (tick now w ∷ l) e = elim (Bool-cases (is_drained a w)) [
  | inl drained ↦ (true, rw drained refl)
  | inr busy ↦ elim (Bool-cases (before now deadline)) [
    | inr late ↦ (false, rw (busy, late) refl)
    | inl early ↦ elim e [
      | inl late ↦ absurd (ground arith)
      | inr later ↦ rw (busy, early) (loop-Ends a deadline l later)
    ]
  ]
]

-- The signals of a wait that is not cancelled and has not come to its deadline.
abbrev pub OnTime : Time → List Signal → Type 0
OnTime deadline [] = Unit
OnTime deadline (cancelled ∷ l) = ⊥
OnTime deadline (tick now w ∷ l) = (now < deadline) × OnTime deadline l

loop-OnTime :
    (a : ℕ) (deadline : Time) (l : List Signal)
    → OnTime deadline l
    → drain_loop a deadline l ≢ some false
unfolding drain_loop
loop-OnTime a deadline [] t h = no_value h
loop-OnTime a deadline (cancelled ∷ l) t h = t
loop-OnTime a deadline (tick now w ∷ l) (early, t) h = elim (Bool-cases (is_drained a w)) [
  | inl drained ↦ absurd (ground (arith, (rw drained at h)))
  | inr busy ↦ elim (Bool-cases (before now deadline)) [
    | inl soon ↦ loop-OnTime a deadline l t (rw (busy, soon) at h)
    | inr late ↦ absurd (ground (arith, late, early))
  ]
]

-- The nanoseconds that a wait is given: those asked for, or 5 s where that is not positive.
abbrev pub Given : ℤ → ℕ → Type 0
Given max_wait n = ((0 < n) × (max_wait ≡ pos n)) ⊎ ((max_wait ≤ℤ pos 0) × (n ≡ 5000000000))

deadline_of-Given :
    (start : Time) (max_wait : ℤ) (n : ℕ)
    → Given max_wait n
    → deadline_of start max_wait ≡ start + n
unfolding deadline_of
deadline_of-Given start max_wait n (inl (up, q)) = rw q (ground (arith, up))
deadline_of-Given start max_wait n (inr (low, q)) = ground (arith, low, q)

-- WaitDrain answers, whatever it finds, where among its signals is the end of its context or a tick
-- at or after its deadline, which lies the given wait after the start, 5 s where that is not
-- positive; and it never answers false on signals that are all ticks before that deadline.
pub wait_drain-Ends :
    (g : Gate) (start : Time) (a : ℕ) (max_wait : ℤ) (n : ℕ) (first : Moment) (l : List Signal)
    → Given max_wait n
    → Ends (start + n) l
    → (answer : Bool) × ((wait_drain g start a max_wait first l).1 ≡ some answer)
      × ((l' : List Signal)
          → OnTime (start + n) l'
          → (wait_drain g start a max_wait first l').1 ≢ some false)
unfolding wait_drain
wait_drain-Ends g start a max_wait n first l given e =
    let same = deadline_of-Given start max_wait n given in
    elim (Bool-cases (is_drained a first)) [
      | inl drained ↦ (true, rw drained refl, λ l' t h. absurd (ground (arith, (rw drained at h))))
      | inr busy ↦
          let (answer, q) = loop-Ends a (start + n) l e in
          (
            answer,
            rw (busy, same) q,
            λ l' t h. loop-OnTime a (start + n) l' t (rw (busy, same) at h),
          )
    ]
