-- ===== src/Async/Admission.antt =====
-- What TryEnqueue admits, and that an admitted bid keeps the counts and marks.
use aieas_backend.Prelude.{
  ℕ, ◌+◌, ◌<◌, pos, pos_part, String, true, false, ◌==◌, ==_iff, if◌then◌else◌, none, some, Time,
  ◌≡◌, ◌≢◌, ◌↔◌, ◌⊎◌, inl, inr, refl, sym, ap, ◌∙◌, arith, lookup, insert, nat_eq, string_eq,
  two_64, add64, add64_pos, Bool-cases, Option-cases, insert-Distinct, tally, tally-insert_new,
  leb_ℤ, no_value, apart, insert_cases, passed_by, lookup-insert_self,
}
use aieas_backend.Async.Coordinator.{
  PendingEntry, Coordinator, no_envelope, count_of, user_auction_pending_key, try_enqueue,
  user_pending, hot_auction_full,
}
use aieas_backend.Async.Counting.{
  Inv, on_auction, key_of, pending_on, HasPending, marked_iff, count_of-insert,
}

-- The entry of an admitted bid.
abbrev pub fresh_entry : Time → ℕ → ℕ → String → String → PendingEntry
fresh_entry now auction_id session_id user_id bid_id = record {
  bid_id = bid_id;
  auction_id = auction_id;
  session_id = session_id;
  user_id = user_id;
  created_at = now;
  env = no_envelope;
  resolved = false;
  attempts = pos 0;
  armed = false;
}

abbrev pub admitted : Coordinator → String → PendingEntry → Coordinator
admitted c b e = record c {
  pending = insert b e c.pending;
  auction_count =
      insert e.auction_id (add64 (count_of e.auction_id c.auction_count) (pos 1)) c.auction_count;
  user_auction_key = insert (key_of e) b c.user_auction_key;
}

admitted-Inv :
    (c : Coordinator) (b : String) (e : PendingEntry)
    → Inv c
    → e.auction_id < two_64
    → lookup b c.pending ≡ none
    → lookup (key_of e) c.user_auction_key ≡ none
    → leb_ℤ c.max_pending_per_auction (count_of e.auction_id c.auction_count) ≡ false
    → Inv (admitted c b e)
admitted-Inv c b e v word fresh unmarked space =
    let n = pending_on e.auction_id c in
    let full : count_of e.auction_id c.auction_count ≡ pos n = v.counted e.auction_id in
    let room : n < pos_part c.max_pending_per_auction = ground (arith, (rw full at space)) in
    let up : add64 (count_of e.auction_id c.auction_count) (pos 1) ≡ pos (n + 1) =
      rw full (add64_pos n 1 (omega (arith, room, v.small))) in
    let tallies : (a : ℕ)
        → tally (on_auction a) (insert b e c.pending)
          ≡ (if e.auction_id == a then 1 else 0) + pending_on a c =
      λ a. tally-insert_new (on_auction a) b e c.pending fresh in
    record {
      distinct = insert-Distinct b e c.pending v.distinct;
      marked = λ b' f h. elim (insert_cases b b' e c.pending f h) [
        | inl (same, q) ↦
            rw (← q, ← same) (lookup-insert_self (key_of e) b c.user_auction_key, word)
        | inr (other, there) ↦
            let (mark, small) = v.marked b' f there in
            (
              passed_by (key_of e) (key_of f) b c.user_auction_key b'
                  (apart (key_of e) (key_of f)
                    (λ q. no_value (sym unmarked ∙ ap (λ k. lookup k c.user_auction_key) q ∙ mark)))
                  mark,
              small,
            )
      ];
      owned = λ k b' h. elim (insert_cases (key_of e) k b c.user_auction_key b' h) [
        | inl (same, q) ↦ (e, rw (← q) (lookup-insert_self b e c.pending), same)
        | inr (other, mark) ↦
            let (f, there, key) = v.owned k b' mark in
            (
              f,
              passed_by b b' e c.pending f
                  (apart b b' (λ q. no_value (sym fresh ∙ ap (λ x. lookup x c.pending) q ∙ there)))
                  there,
              key,
            )
      ];
      counted = λ a.
          count_of-insert e.auction_id a (add64 (count_of e.auction_id c.auction_count) (pos 1))
            c.auction_count
          ∙ rw (up, tallies a) (ground (arith, v.counted a, ==_iff e.auction_id a));
      bounded = λ a. ground (arith, tallies a, v.bounded a, room, ==_iff e.auction_id a);
      small = v.small;
    }

-- TryEnqueue, by what it finds.
pub try_enqueue_cases :
    (c : Coordinator) (now : Time) (a s : ℕ) (u b : String)
    → ((lookup (user_auction_pending_key u a) c.user_auction_key ≢ none)
        × (try_enqueue c now a s u b ≡ (c, some user_pending)))
      ⊎ ((lookup (user_auction_pending_key u a) c.user_auction_key ≡ none)
          × (((leb_ℤ c.max_pending_per_auction (count_of a c.auction_count) ≡ true)
                × (try_enqueue c now a s u b ≡ (c, some hot_auction_full)))
              ⊎ ((leb_ℤ c.max_pending_per_auction (count_of a c.auction_count) ≡ false)
                  × (try_enqueue c now a s u b ≡ (admitted c b (fresh_entry now a s u b), none)))))
unfolding try_enqueue
try_enqueue_cases c now a s u b =
    elim (Option-cases (lookup (user_auction_pending_key u a) c.user_auction_key)) [
      | inr (k, mark) ↦ inl ((λ q. no_value (sym q ∙ mark)), rw (mark, try_enqueue) refl)
      | inl away ↦
          elim (Bool-cases (leb_ℤ c.max_pending_per_auction (count_of a c.auction_count))) [
            | inl full ↦ inr (away, inl (full, rw (away, full, try_enqueue) refl))
            | inr space ↦ inr (away, inr (space, rw (away, space, try_enqueue) refl))
          ]
    ]

pub enqueued-Inv :
    (c : Coordinator) (now : Time) (a s : ℕ) (u b : String)
    → Inv c
    → a < two_64
    → lookup b c.pending ≡ none
    → Inv ((try_enqueue c now a s u b).0)
enqueued-Inv c now a s u b v word fresh = elim (try_enqueue_cases c now a s u b) [
  | inl (mark, q) ↦ rw q v
  | inr (away, inl (full, q)) ↦ rw q v
  | inr (away, inr (space, q)) ↦
      rw q (admitted-Inv c b (fresh_entry now a s u b) v word fresh away space)
]

-- TryEnqueue admits a bid exactly where its user has no pending bid on the lot and the lot has
-- fewer pending bids than the bound.
pub try_enqueue_iff :
    (c : Coordinator) (now : Time) (a s : ℕ) (u b : String)
    → Inv c
    → a < two_64
    → ((try_enqueue c now a s u b).1 ≡ none)
      ↔ ((HasPending c u a → ⊥) × (pending_on a c < pos_part c.max_pending_per_auction))
try_enqueue_iff c now a s u b v word =
    let known = marked_iff c u a v word in
    let count = v.counted a in
    elim (try_enqueue_cases c now a s u b) [
      | inl (mark, q) ↦ rw q ((λ h. absurd (ground arith)), λ (h, _). absurd (h (known.0 mark)))
      | inr (away, inl (full, q)) ↦
          rw q ((λ h. absurd (ground arith)), λ (_, l). absurd (ground (arith, (rw count at full))))
      | inr (away, inr (space, q)) ↦
          rw q ((λ h. ((λ p. known.1 p away), ground (arith, (rw count at space)))), λ _. refl)
    ]
