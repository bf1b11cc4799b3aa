-- ===== src/Ids/Order.antt =====
-- Identifiers of one generator increase.
use aieas_backend.Prelude.{
  ℕ, zero, suc, ◌+◌, ◌≤◌, ◌<◌, ℤ, pos, ◌<ℤ◌, ◌≤ℤ◌, ◌+ℤ◌, +ℤ_parts, ◌||◌, ◌==◌, ltb, ltb_ℤ, eqb_ℤ,
  sub64, add64, add64_exact, pos_part, neg_part, Option, none, some, ◌≡◌, ◌⊎◌, inl, inr, refl, ap,
  arith, Bool-cases, Option-cases,
}
use aieas_backend.Ids.Snowflake.{
  Snowflake, wait_until, IdError, Next, waits, fails, bad_type, clock_moved_backwards, stamp,
  advance, next_id,
}

-- Seconds that stay far from the ends of int64.
abbrev pub IsSecond : ℤ → Type 0
IsSecond s = (pos_part s ≤ 4611686018427387904) × (neg_part s ≤ 4611686018427387904)

abbrev pub IsClock : (ℕ → ℤ) → Type 0
IsClock clock = (k : ℕ) → IsSecond (clock k)

abbrev pub Valid : Snowflake → Type 0
Valid g = (g.worker_id ≤ 255) × (g.seq ≤ 511) × IsSecond g.last_sec

-- A later second, or a later number in the same second.
abbrev pub After : ℤ → ℕ → ℤ → ℕ → Type 0
After a s b s' = (a <ℤ b) ⊎ ((a ≡ b) × (s < s'))

-- Next, but for its refusals, ends in a stamp after the last one.
abbrev pub Stamps : Snowflake → ℕ → Next → Type 0
Stamps g id_type r =
    (r ≡ waits)
    ⊎ ((second : ℤ) × (seq : ℕ) × (k : ℕ) × (r ≡ stamp g second seq id_type k)
        × (After g.last_sec g.seq second seq)
        × (seq ≤ 511)
        × IsSecond second)

pair_first : {a s : ℤ} {j k : ℕ} → ◌≡◌ {A = Option (ℤ × ℕ)} (some (a, j)) (some (s, k)) → a ≡ s
pair_first h = ap (λ (o : Option (ℤ × ℕ)). elim o [ none ↦ pos 0 | some p ↦ p.0 ]) h

-- The second after one that is far from the end of int64.
passes : (a b : ℤ) → IsSecond a → add64 a (pos 1) ≤ℤ b → a <ℤ b
passes a b (high, low) l =
    let sum = +ℤ_parts a (pos 1) in
    let l' : a +ℤ pos 1 ≤ℤ b = rw (add64_exact a (pos 1) (ground (arith, sum))) at l in
    omega (arith, sum, l')

waited :
    (clock : ℕ → ℤ) (fuel k : ℕ) (target s : ℤ) (k' : ℕ)
    → IsClock clock
    → wait_until clock fuel k target ≡ some (s, k')
    → (target ≤ℤ s) × IsSecond s
unfolding wait_until
waited clock zero k target s k' c h = absurd (ground arith)
waited clock (suc fuel) k target s k' c h = elim (Bool-cases (ltb_ℤ (clock k) target)) [
  | inl early ↦ waited clock fuel (suc k) target s k' c (rw early at h)
  | inr due ↦
      let q : clock k ≡ s = pair_first (rw (due, wait_until) at h) in
      (rw (← q) (ground arith), rw (← q) (c k))
]

advance-Stamps :
    (clock : ℕ → ℤ) (fuel : ℕ) (g : Snowflake) (second : ℤ) (id_type k : ℕ)
    → IsClock clock
    → Valid g
    → IsSecond second
    → g.last_sec ≤ℤ second
    → Stamps g id_type (advance clock fuel g second id_type k)
unfolding advance
advance-Stamps clock fuel g second id_type k c (fw, fs, fl) sec late =
    elim (Bool-cases (eqb_ℤ second g.last_sec)) [
      | inr new ↦ rw (new, advance) (inr (second, 0, k, refl, inl (ground arith), omega arith, sec))
      | inl same ↦ elim (Bool-cases (ltb 511 (g.seq + 1))) [
        | inr room ↦
            rw (same, room, advance)
              (inr (second, g.seq + 1, k, refl, inr (ground arith, omega arith), ground arith, sec))
        | inl full ↦ elim (Option-cases (wait_until clock fuel k (add64 g.last_sec (pos 1)))) [
          | inl never ↦ rw (same, full, never, advance) (inl refl)
          | inr ((later, k'), found) ↦
              let (reached, sec') =
                waited clock fuel k (add64 g.last_sec (pos 1)) later k' c found in
              rw (same, full, found, advance)
                (inr
                  (later, 0, k', refl, inl (passes g.last_sec later fl reached), omega arith, sec'))
        ]
      ]
    ]

pub next_id-Stamps :
    (clock : ℕ → ℤ) (fuel : ℕ) (g : Snowflake) (id_type k : ℕ)
    → IsClock clock
    → Valid g
    → ((e : IdError) × (j : ℕ) × (next_id clock fuel g id_type k ≡ fails e g j))
      ⊎ Stamps g id_type (next_id clock fuel g id_type k)
unfolding next_id
next_id-Stamps clock fuel g id_type k c v = elim (Bool-cases (id_type == 0 || ltb 31 id_type)) [
  | inl bad ↦ inl (bad_type, k, rw (bad, next_id) refl)
  | inr fine ↦ elim (Bool-cases (ltb_ℤ (clock k) g.last_sec)) [
    | inr forward ↦
        rw (fine, forward, next_id)
          (inr (advance-Stamps clock fuel g (clock k) id_type (suc k) c v (c k) (ground arith)))
    | inl back ↦ elim (Bool-cases (ltb_ℤ (pos 5) (sub64 g.last_sec (clock k)))) [
      | inl far ↦ inl (clock_moved_backwards, suc k, rw (fine, back, far, next_id) refl)
      | inr near ↦ elim (Option-cases (wait_until clock fuel (suc k) g.last_sec)) [
        | inl never ↦ rw (fine, back, near, never, next_id) (inr (inl refl))
        | inr ((second, k'), found) ↦
            let (reached, sec) = waited clock fuel (suc k) g.last_sec second k' c found in
            rw (fine, back, near, found, next_id)
              (inr (advance-Stamps clock fuel g second id_type k' c v sec reached))
      ]
    ]
  ]
]
