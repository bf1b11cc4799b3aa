-- ===== src/Async/Counting.antt =====
-- The counts and marks of the coordinator agree with the bids that are pending.
use aieas_backend.Prelude.{
  ℕ, ◌+◌, ◌≤◌, ◌<◌, ℤ, pos, pos_part, String, Bool, ◌==◌, ==_iff, if◌then◌else◌, none, some, List,
  ◌≡◌, ◌≢◌, ◌↔◌, inl, inr, refl, sym, ap, ◌∙◌, arith, lookup, insert, delete, lookup-insert,
  lookup-delete, nat_eq, string_eq, str_eq, eq_iff, two_63, two_64, sub64, Bool-cases, Option-cases,
  Distinct, tally, insert-Distinct, delete-Distinct, tally-insert_old, tally-delete, last_colon,
  uint64_to_string, uint64_to_string_inj, uint64_to_string-HasNoColon, wrap64, ◌-ℤ◌, some_inj,
  no_value, apart, differ, kept, spared,
}
use aieas_backend.Async.Coordinator.{
  PendingEntry, Coordinator, count_of, user_auction_pending_key, release_bid, lower_count,
}

-- Two pairs of a user and a lot have different keys.
pub user_auction_pending_key_inj :
    (u v : String) (a b : ℕ)
    → a < two_64
    → b < two_64
    → user_auction_pending_key u a ≡ user_auction_pending_key v b
    → (u ≡ v) × (a ≡ b)
unfolding user_auction_pending_key
user_auction_pending_key_inj u v a b h k e =
    let (p, q) =
      last_colon u v (uint64_to_string a) (uint64_to_string b) (uint64_to_string-HasNoColon a)
        (uint64_to_string-HasNoColon b) e in
    (p, uint64_to_string_inj a b (omega (arith, h)) (omega (arith, k)) q)

abbrev pub on_auction : ℕ → PendingEntry → Bool
on_auction a e = e.auction_id == a

abbrev pub key_of : PendingEntry → String
key_of e = user_auction_pending_key e.user_id e.auction_id

-- How many bids on a lot are pending.
abbrev pub pending_on : ℕ → Coordinator → ℕ
pending_on a c = tally (on_auction a) c.pending

-- Every pending bid has its user's mark, every mark is that of a pending bid, and the count of a
-- lot is the number of its pending bids, within the bound.
pub record Inv (c : Coordinator) : Type 0 where
  pub distinct : Distinct c.pending
  pub marked :
      (b : String) (e : PendingEntry)
      → lookup b c.pending ≡ some e
      → (lookup (key_of e) c.user_auction_key ≡ some b) × (e.auction_id < two_64)
  pub owned :
      (k b : String)
      → lookup k c.user_auction_key ≡ some b
      → (e : PendingEntry) × (lookup b c.pending ≡ some e) × (key_of e ≡ k)
  pub counted : (a : ℕ) → count_of a c.auction_count ≡ pos (pending_on a c)
  pub bounded : (a : ℕ) → pending_on a c ≤ pos_part c.max_pending_per_auction
  pub small : pos_part c.max_pending_per_auction < two_63

pub count_of-insert :
    (k a : ℕ) (n : ℤ) (m : List (ℕ × ℤ))
    → count_of a (insert k n m) ≡ (if k == a then n else count_of a m)
count_of-insert k a n m = rw (lookup-insert k a n m, count_of) (ground arith)

count_of-delete :
    (k a : ℕ) (m : List (ℕ × ℤ))
    → count_of a (delete k m) ≡ (if k == a then pos 0 else count_of a m)
count_of-delete k a m = rw (lookup-delete k a m, count_of) (ground arith)

sub64_suc : (n : ℕ) → n + 1 < two_63 → sub64 (pos (n + 1)) (pos 1) ≡ pos n
unfolding sub64 wrap64 ◌-ℤ◌
sub64_suc n h = ground arith

count_of-lower_count :
    (k a n : ℕ) (m : List (ℕ × ℤ))
    → count_of k m ≡ pos (n + 1)
    → n + 1 < two_63
    → count_of a (lower_count k m) ≡ (if k == a then pos n else count_of a m)
unfolding lower_count
count_of-lower_count k a n m h l =
    rw (h, sub64_suc n l) (ground (arith, count_of-insert k a (pos n) m, count_of-delete k a m))

-- An entry is overwritten by one of the same bid.
pub replaced-Inv :
    (c : Coordinator) (b : String) (e e' : PendingEntry)
    → Inv c
    → lookup b c.pending ≡ some e
    → e'.auction_id ≡ e.auction_id
    → e'.user_id ≡ e.user_id
    → Inv (record c { pending = insert b e' c.pending })
replaced-Inv c b e e' v at same_lot same_user =
    let same_key : key_of e' ≡ key_of e = rw (same_lot, same_user) refl in
    let tallies : (a : ℕ) → tally (on_auction a) (insert b e' c.pending) ≡ pending_on a c =
      λ a. ground (arith, tally-insert_old (on_auction a) b e' e c.pending at, same_lot) in
    record {
      distinct = insert-Distinct b e' c.pending v.distinct;
      marked = λ b' f h. elim (Bool-cases (str_eq b b')) [
        | inl same ↦
            let q : e' ≡ f = some_inj (rw (lookup-insert b b' e' c.pending, same) at h) in
            rw (← q, same_key, same_lot, ← (eq_iff b b').0 same) (v.marked b e at)
        | inr other ↦ v.marked b' f (rw (lookup-insert b b' e' c.pending, other) at h)
      ];
      owned = λ k b' h.
          let (f, there, key) = v.owned k b' h in
          elim (Bool-cases (str_eq b b')) [
            | inl same ↦
                let q : e ≡ f = some_inj (sym at ∙ rw (← (eq_iff b b').0 same) at there) in
                (e', rw (lookup-insert b b' e' c.pending, same) refl, same_key ∙ rw q key)
            | inr other ↦ (f, rw (lookup-insert b b' e' c.pending, other) there, key)
          ];
      counted = λ a. rw (tallies a) (v.counted a);
      bounded = λ a. rw (tallies a) (v.bounded a);
      small = v.small;
    }

pub released-Inv : (c : Coordinator) (b : String) → Inv c → Inv (release_bid c b)
unfolding release_bid
released-Inv c b v = elim (Option-cases (lookup b c.pending)) [
  | inl away ↦ rw (away, release_bid) v
  | inr (e, at) ↦
      let n = tally (on_auction e.auction_id) (delete b c.pending) in
      let tallies : (a : ℕ)
          → (if e.auction_id == a then 1 else 0) + tally (on_auction a) (delete b c.pending)
            ≡ pending_on a c =
        λ a. tally-delete (on_auction a) b e c.pending v.distinct at in
      let here : pending_on e.auction_id c ≡ n + 1 =
        ground (arith, tallies e.auction_id, (==_iff e.auction_id e.auction_id).1 refl) in
      let room : n + 1 < two_63 = ground (arith, v.bounded e.auction_id, v.small, here) in
      let full : count_of e.auction_id c.auction_count ≡ pos (n + 1) =
        v.counted e.auction_id ∙ ap pos here in
      rw (at, release_bid)
        (record {
          distinct = delete-Distinct b c.pending v.distinct;
          marked = λ b' f h.
              let (other, there) = kept b b' c.pending f h in
              let (mark, word) = v.marked b' f there in
              (
                spared (key_of e) (key_of f) c.user_auction_key b'
                    (apart (key_of e) (key_of f) (λ q. differ b b' other (
                      some_inj (
                        sym ((v.marked b e at).0)
                        ∙ ap (λ k. lookup k c.user_auction_key) q
                        ∙ mark))))
                    mark,
                word,
              );
          owned = λ k b' h.
              let (other, mark) = kept (key_of e) k c.user_auction_key b' h in
              let (f, there, key) = v.owned k b' mark in
              (
                f,
                spared b b' c.pending f
                    (apart b b' (λ q. differ (key_of e) k other (
                      ap key_of (some_inj (sym at ∙ ap (λ x. lookup x c.pending) q ∙ there))
                      ∙ key)))
                    there,
                key,
              );
          counted = λ a.
              count_of-lower_count e.auction_id a n c.auction_count full room
              ∙ ground (arith, tallies a, v.counted a, ==_iff e.auction_id a);
          bounded = λ a. omega (arith, tallies a, v.bounded a);
          small = v.small;
        })
]

abbrev pub HasPending : Coordinator → String → ℕ → Type 0
HasPending c u a =
    (b : String) × (e : PendingEntry) × (lookup b c.pending ≡ some e)
    × (e.user_id ≡ u)
    × (e.auction_id ≡ a)

-- A mark is there exactly where the user has a pending bid on the lot.
pub marked_iff :
    (c : Coordinator) (u : String) (a : ℕ)
    → Inv c
    → a < two_64
    → (lookup (user_auction_pending_key u a) c.user_auction_key ≢ none) ↔ HasPending c u a
marked_iff c u a v word = (
  λ h. elim (Option-cases (lookup (user_auction_pending_key u a) c.user_auction_key)) [
    | inl away ↦ absurd (h away)
    | inr (b, mark) ↦
        let (e, there, key) = v.owned (user_auction_pending_key u a) b mark in
        let (p, q) =
          user_auction_pending_key_inj e.user_id u e.auction_id a ((v.marked b e there).1) word
            key in
        (b, e, there, p, q)
  ],
  λ (b, e, there, p, q) h.
      let mark : lookup (user_auction_pending_key u a) c.user_auction_key ≡ some b =
        rw (← p, ← q) ((v.marked b e there).0) in
      no_value (sym h ∙ mark),
)
