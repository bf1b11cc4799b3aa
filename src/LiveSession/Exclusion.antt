-- ===== src/LiveSession/Exclusion.antt =====
-- A lot that holds a session's lock keeps it until it releases it or it expires.
use aieas_backend.Prelude.{
  ℕ, ◌≤◌, ℤ, Bool, true, false, ◌==◌, ==_iff, some, Time, lookup, delete, nat_eq, lookup-insert,
  lookup-insert_self, lookup-delete, ◌≡◌, ◌≢◌, ◌⊎◌, inl, inr, refl, ap, ◌∙◌, arith, Bool-cases,
  Option-cases,
}
use aieas_backend.LiveSession.Lock.{
  LockEntry, Lock, maybe_expiry, has_expired, acquire, release, current,
}

-- The lot holds the session up to the time `limit`.
abbrev pub Holds : Lock → ℕ → ℕ → Time → Type 0
Holds l session auction limit =
    (e : LockEntry) × (lookup session l ≡ some e)
    × (e.auction_id ≡ auction)
    × ((e.expires_at ≡ 0) ⊎ (limit ≤ e.expires_at))

-- An operation before `limit` of another lot, or on another session.
pub data Other (session auction : ℕ) (limit : Time) (l : Lock) : Lock → Type 0 where
  acquires :
      (now : Time) (s a : ℕ) (ttl : ℤ)
      → now ≤ limit
      → (s ≢ session) ⊎ (a ≢ auction)
      → Other session auction limit l (acquire l now s a ttl).0
  releases :
      (s a : ℕ) → (s ≢ session) ⊎ (a ≢ auction) → Other session auction limit l (release l s a)
  reads : (now : Time) (s : ℕ) → now ≤ limit → Other session auction limit l (current l now s).0

pub data Others (session auction : ℕ) (limit : Time) (l : Lock) : Lock → Type 0 where
  here : Others session auction limit l l
  next :
      {l' l'' : Lock}
      → Others session auction limit l l'
      → Other session auction limit l' l''
      → Others session auction limit l l''

not_expired :
    (e : LockEntry) (now limit : Time)
    → now ≤ limit
    → (e.expires_at ≡ 0) ⊎ (limit ≤ e.expires_at)
    → has_expired e now ≡ false
unfolding has_expired
not_expired e now limit less h = ground arith

-- Another lot is refused.
refused :
    (l : Lock) (now : Time) (s a b : ℕ) (ttl : ℤ) (limit : Time)
    → Holds l s a limit
    → now ≤ limit
    → b ≢ a
    → acquire l now s b ttl ≡ (l, false, a)
unfolding acquire
refused l now s a b ttl limit (e, at, mine, fresh) less other =
    let differs : (e.auction_id == b) ≡ false = ground (arith, mine, other) in
    rw (at, not_expired e now limit less fresh, differs, acquire)
      (ap (λ (x : ℕ). let r : Lock × Bool × ℕ = (l, false, x) in r) mine)

-- An operation on one session leaves the others.
acquire_elsewhere :
    (l : Lock) (now : Time) (s j a : ℕ) (ttl : ℤ)
    → (s == j) ≡ false
    → lookup j (acquire l now s a ttl).0 ≡ lookup j l
unfolding acquire
acquire_elsewhere l now s j a ttl n =
    let mine : LockEntry = record { auction_id = a; expires_at = maybe_expiry now ttl } in
    elim (Option-cases (lookup s l)) [
      | inl free ↦ rw (free, acquire, lookup-insert s j mine l, n) refl
      | inr (e, at) ↦ elim (Bool-cases (has_expired e now)) [
        | inl old ↦
            rw (at, old, acquire, lookup-insert s j mine (delete s l), n, lookup-delete s j l, n)
              refl
        | inr fresh ↦ elim (Bool-cases (e.auction_id == a)) [
          | inl same ↦ rw (at, fresh, same, acquire, lookup-insert s j mine l, n) refl
          | inr other ↦ rw (at, fresh, other, acquire) refl
        ]
      ]
    ]

release_elsewhere :
    (l : Lock) (s j a : ℕ) → (s == j) ≡ false → lookup j (release l s a) ≡ lookup j l
unfolding release
release_elsewhere l s j a n = elim (Option-cases (lookup s l)) [
  | inl free ↦ rw (free, release) refl
  | inr (e, at) ↦ elim (Bool-cases (e.auction_id == a)) [
    | inl same ↦ rw (at, same, release, lookup-delete s j l, n) refl
    | inr other ↦ rw (at, other, release) refl
  ]
]

current_elsewhere :
    (l : Lock) (now : Time) (s j : ℕ) → (s == j) ≡ false → lookup j (current l now s).0 ≡ lookup j l
unfolding current
current_elsewhere l now s j n = elim (Option-cases (lookup s l)) [
  | inl free ↦ rw (free, current) refl
  | inr (e, at) ↦ elim (Bool-cases (has_expired e now)) [
    | inl old ↦ rw (at, old, current, lookup-delete s j l, n) refl
    | inr fresh ↦ rw (at, fresh, current) refl
  ]
]

elsewhere :
    (l l' : Lock) (session auction : ℕ) (limit : Time)
    → lookup session l' ≡ lookup session l
    → Holds l session auction limit
    → Holds l' session auction limit
elsewhere l l' session auction limit same (e, at, h, k) = (e, same ∙ at, h, k)

release_other :
    (l : Lock) (s a b : ℕ) (limit : Time) → Holds l s a limit → b ≢ a → release l s b ≡ l
unfolding release
release_other l s a b limit (e, at, mine, fresh) other =
    let differs : (e.auction_id == b) ≡ false = ground (arith, mine, other) in
    rw (at, differs, release) refl

current_held :
    (l : Lock) (now : Time) (s a : ℕ) (limit : Time)
    → Holds l s a limit
    → now ≤ limit
    → current l now s ≡ (l, a)
unfolding current
current_held l now s a limit (e, at, mine, fresh) less =
    rw (at, not_expired e now limit less fresh, current)
      (ap (λ (x : ℕ). let r : Lock × ℕ = (l, x) in r) mine)

differs : (s j a b : ℕ) → (s ≢ j) ⊎ (a ≢ b) → (s == j) ≡ true → a ≢ b
differs s j a b (inl n) q = absurd (n ((==_iff s j).0 q))
differs s j a b (inr n) q = n

Other-Holds :
    (session auction : ℕ) (limit : Time) (l l' : Lock)
    → Other session auction limit l l'
    → Holds l session auction limit
    → Holds l' session auction limit
Other-Holds j b limit l l' (acquires now s a ttl less n) h = elim (Bool-cases (s == j)) [
  | inr apart ↦
      elsewhere l (acquire l now s a ttl).0 j b limit (acquire_elsewhere l now s j a ttl apart) h
  | inl same ↦
      let q : s ≡ j = (==_iff s j).0 same in
      rw (q, refused l now j b a ttl limit h less (differs s j a b n same)) h
]
Other-Holds j b limit l l' (releases s a n) h = elim (Bool-cases (s == j)) [
  | inr apart ↦ elsewhere l (release l s a) j b limit (release_elsewhere l s j a apart) h
  | inl same ↦
      let q : s ≡ j = (==_iff s j).0 same in
      rw (q, release_other l j b a limit h (differs s j a b n same)) h
]
Other-Holds j b limit l l' (reads now s less) h = elim (Bool-cases (s == j)) [
  | inr apart ↦ elsewhere l (current l now s).0 j b limit (current_elsewhere l now s j apart) h
  | inl same ↦ let q : s ≡ j = (==_iff s j).0 same in rw (q, current_held l now j b limit h less) h
]

Others-Holds :
    (session auction : ℕ) (limit : Time) (l l' : Lock)
    → Others session auction limit l l'
    → Holds l session auction limit
    → Holds l' session auction limit
Others-Holds j b limit l l' here h = h
Others-Holds j b limit l l' (next {l' = m} o s) h =
    Other-Holds j b limit m l' s (Others-Holds j b limit l m o h)

granted :
    (l : Lock) (now : Time) (s a : ℕ) (ttl : ℤ) (limit : Time)
    → (acquire l now s a ttl).1 ≡ true
    → (maybe_expiry now ttl ≡ 0) ⊎ (limit ≤ maybe_expiry now ttl)
    → Holds (acquire l now s a ttl).0 s a limit
unfolding acquire
granted l now s a ttl limit yes_granted h =
    let mine : LockEntry = record { auction_id = a; expires_at = maybe_expiry now ttl } in
    elim (Option-cases (lookup s l)) [
      | inl free ↦ rw (free, acquire) (mine, lookup-insert_self s mine l, refl, h)
      | inr (e, at) ↦ elim (Bool-cases (has_expired e now)) [
        | inl old ↦ rw (at, old, acquire) (mine, lookup-insert_self s mine (delete s l), refl, h)
        | inr fresh ↦ elim (Bool-cases (e.auction_id == a)) [
          | inl same ↦ rw (at, fresh, same, acquire) (mine, lookup-insert_self s mine l, refl, h)
          | inr other ↦ absurd (ground (arith, rw (at, fresh, other, acquire) at yes_granted))
        ]
      ]
    ]

-- Once a lot has been granted a session, then as long as its grant lasts and it does not act itself,
-- whatever others do on any session, every other lot is refused that session and is told who holds
-- it, and a reading names the holder. A grant without a positive time to live lasts for ever.
pub lock_excludes :
    (l l' : Lock) (now later : Time) (session a b : ℕ) (ttl ttl' : ℤ) (limit : Time)
    → (acquire l now session a ttl).1 ≡ true
    → (maybe_expiry now ttl ≡ 0) ⊎ (limit ≤ maybe_expiry now ttl)
    → Others session a limit (acquire l now session a ttl).0 l'
    → later ≤ limit
    → b ≢ a
    → (acquire l' later session b ttl' ≡ (l', false, a)) × (current l' later session ≡ (l', a))
lock_excludes l l' now later session a b ttl ttl' limit yes_granted lasts others less other =
    let start = granted l now session a ttl limit yes_granted lasts in
    let held = Others-Holds session a limit (acquire l now session a ttl).0 l' others start in
    (
      refused l' later session a b ttl' limit held less other,
      current_held l' later session a limit held less,
    )
