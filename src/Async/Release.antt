-- ===== src/Async/Release.antt =====
-- What ReleaseUser leaves, and how the resends of a decided bid end.
use aieas_backend.Prelude.{
  ℕ, zero, suc, ◌+◌, ◌<◌, pos, String, true, false, if◌then◌else◌, none, some, List, [], ◌∷◌, ◌++◌,
  ◌≡◌, ◌≢◌, ◌↔◌, ◌==◌, ==_iff, inl, inr, refl, sym, ap, ◌∙◌, arith, lookup, insert, contains,
  nat_eq, string_eq, str_eq, str_eq_refl, eq_iff, two_63, Bool-cases, Option-cases, is_empty, add64,
  add64_pos, Distinct, lookup-delete, lookup-insert_self, no_value, some_inj, differ,
}
use aieas_backend.Async.Coordinator.{
  Coordinator, PendingEntry, Delivery, deliver, release_bid, release_all, release_user, bids_of,
  resend_timeout,
}
use aieas_backend.Async.Steps.{Reachable, Reachable-Inv, resend_timeout_cases}

lookup-release_bid :
    (c : Coordinator) (b b' : String)
    → lookup b' (release_bid c b).pending ≡ (if str_eq b b' then none else lookup b' c.pending)
unfolding release_bid
lookup-release_bid c b b' = elim (Option-cases (lookup b c.pending)) [
  | inl away ↦
      rw (away, release_bid)
        (elim (Bool-cases (str_eq b b')) [
          | inl same ↦ rw (same, ← (eq_iff b b').0 same) away
          | inr other ↦ rw other refl
        ])
  | inr (e, at) ↦ rw (at, release_bid) (lookup-delete b b' c.pending)
]

lookup-release_all :
    (c : Coordinator) (bs : List String) (b : String)
    → lookup b (release_all c bs).pending ≡ (if contains b bs then none else lookup b c.pending)
unfolding release_all contains
lookup-release_all c [] b = refl
lookup-release_all c (x ∷ bs) b =
    ground (arith, lookup-release_all (release_bid c x) bs b, lookup-release_bid c x b)

contains-bids_of-none :
    (u b : String) (m : List (String × PendingEntry))
    → lookup b m ≡ none
    → contains b (bids_of u m) ≡ false
unfolding lookup contains
contains-bids_of-none u b [] h = refl
contains-bids_of-none u b ((k, e) ∷ m) h = ground (arith, contains-bids_of-none u b m)

contains-bids_of :
    (u b : String) (m : List (String × PendingEntry)) (e : PendingEntry)
    → Distinct m
    → lookup b m ≡ some e
    → contains b (bids_of u m) ≡ str_eq e.user_id u
unfolding lookup contains
contains-bids_of u b [] e d h = no_value h
contains-bids_of u b ((k, f) ∷ m) e (n, d) h = elim (Bool-cases (str_eq k b)) [
  | inl same ↦
      let q : f ≡ e = some_inj (rw same at h) in
      let away : lookup b m ≡ none = rw ((eq_iff k b).0 same) at n in
      ground (arith, contains-bids_of-none u b m away)
  | inr other ↦ ground (arith, contains-bids_of u b m e d (rw other at h))
]

named_not_empty : (u : String) → u ≢ "" → is_empty u ≡ false
named_not_empty String.[] h = absurd (h refl)
named_not_empty (String.◌∷◌ c u) h = refl

-- In a coordinator that operations reach from an empty one with an int64 bound, enqueueing new bid
-- ids on uint64 lots only, ReleaseUser with a user's id that is not empty leaves exactly the pending
-- bids of the other users: those of the user are released in every live session, not in one.
pub release_user_iff :
    {c : Coordinator} (u b : String) (e : PendingEntry)
    → Reachable c
    → u ≢ ""
    → (lookup b (release_user c u).pending ≡ some e)
      ↔ ((lookup b c.pending ≡ some e) × (e.user_id ≢ u))
unfolding release_user
release_user_iff {c} u b e r named =
    let nonempty : is_empty u ≡ false = named_not_empty u named in
    let result = lookup-release_all c (bids_of u c.pending) b in
    rw (nonempty, result)
      (elim (Option-cases (lookup b c.pending)) [
        | inl away ↦
            rw (contains-bids_of-none u b c.pending away, away)
              ((λ h. no_value h), (λ (h, _). no_value h))
        | inr (f, at) ↦
            rw (contains-bids_of u b c.pending f ((Reachable-Inv r).distinct) at, at)
              (elim (Bool-cases (str_eq f.user_id u)) [
                | inl same ↦ rw same (
                  (λ h. no_value h),
                  (λ (h, other). absurd (
                      other
                        (ap (λ x. x.user_id) (sym (some_inj h)) ∙ (eq_iff f.user_id u).0 same))),
                )
                | inr other ↦ rw other (
                  (λ h. (h, λ q. differ f.user_id u other (ap (λ x. x.user_id) (some_inj h) ∙ q))),
                  (λ (h, _). h),
                )
              ])
      ])

-- n timers of a bid in a row, with what they send.
unfoldable pub timeouts : ℕ → Coordinator → String → Coordinator × List Delivery
timeouts zero c b = (c, [])
timeouts (suc n) c b =
    let (d, first) = resend_timeout c b in let (d', rest) = timeouts n d b in (d', first ++ rest)

abbrev pub copies : ℕ → List Delivery → List Delivery
copies zero l = []
copies (suc n) l = l ++ copies n l

-- How many timers a decided bid has left, and what they deliver.
resends_deliver :
    (j n : ℕ) (c : Coordinator) (b : String) (e : PendingEntry)
    → lookup b c.pending ≡ some e
    → e.resolved ≡ true
    → e.attempts ≡ pos n
    → c.max_resend_attempts ≡ pos (n + j)
    → n + j + 1 < two_63
    → let (d, sent) = timeouts (suc j) c b in
      (lookup b d.pending ≡ none) × (sent ≡ copies j (deliver e.session_id e.user_id e.env))
unfolding timeouts
resends_deliver zero n c b e at done made most small =
    let up : add64 e.attempts (pos 1) ≡ pos (n + 1) =
      rw made (add64_pos n 1 (omega (arith, small))) in
    elim (resend_timeout_cases c b e at) [
      | inl (waits, _) ↦ absurd (ground arith)
      | inr (_, inl (over, q)) ↦ rw q (rw (lookup-release_bid c b b, str_eq_refl b) refl, refl)
      | inr (_, inr (under, q)) ↦ absurd (ground (arith, (rw (up, most) at under)))
    ]
resends_deliver (suc j) n c b e at done made most small =
    let up : add64 e.attempts (pos 1) ≡ pos (n + 1) =
      rw made (add64_pos n 1 (omega (arith, small))) in
    elim (resend_timeout_cases c b e at) [
      | inl (waits, _) ↦ absurd (ground arith)
      | inr (_, inl (over, q)) ↦ absurd (ground (arith, (rw (up, most) at over)))
      | inr (_, inr (under, q)) ↦
          let more = record e { attempts = add64 e.attempts (pos 1); armed = true } in
          let (away, sent) =
            resends_deliver j (n + 1) (record c { pending = insert b more c.pending }) b more
              (lookup-insert_self b more c.pending) done up (most ∙ ap pos (omega arith))
              (omega (arith, small)) in
          rw q (away, ap (λ l. deliver e.session_id e.user_id e.env ++ l) sent)
    ]

-- A decided bid of a session whose id is not 0, that was sent again n times, of n + j at most, and is
-- not acknowledged, is sent again j times by the next j + 1 timers, each time its result, to its user
-- in its session, and is then released; n + j + 1 is below 2 ^ 63.
pub resends_end :
    (j n : ℕ) (c : Coordinator) (b : String) (e : PendingEntry)
    → lookup b c.pending ≡ some e
    → e.resolved ≡ true
    → e.session_id ≢ 0
    → e.attempts ≡ pos n
    → c.max_resend_attempts ≡ pos (n + j)
    → n + j + 1 < two_63
    → let (d, sent) = timeouts (suc j) c b in
      (lookup b d.pending ≡ none)
      × (sent
          ≡ copies j (record { session_id = e.session_id; user_id = e.user_id; env = e.env } ∷ []))
unfolding deliver
resends_end j n c b e at done named made most small =
    let (away, sent) = resends_deliver j n c b e at done made most small in
    let given : (e.session_id == 0) ≡ false = ground (arith, ==_iff e.session_id 0) in
    let one : deliver e.session_id e.user_id e.env
        ≡ record { session_id = e.session_id; user_id = e.user_id; env = e.env } ∷ [] =
      rw (given, deliver) refl in
    (away, sent ∙ ap (copies j) one)
