-- ===== src/Ids/Increase.antt =====
-- The identifiers of one generator over any number of calls of Next, failed ones included.
use aieas_backend.Prelude.{
  eq_of_parts, ℕ, ◌+◌, ◌*◌, ◌≤◌, ◌<◌, ℤ, pos, negsuc, ◌-ℤ◌, -ℤ_parts, false, ◌≡◌, ◌≢◌, ltb_ℤ, ltb,
  ◌==◌, ◌||◌, sub64, sub64_exact, pos_part, neg_part, ◌⊎◌, inl, inr, refl, sym, ap, ◌∙◌, arith,
  Bool-cases,
}
use aieas_backend.Ids.Snowflake.{Snowflake, epoch, IdError, waits, fails, gives, stamp, next_id}
use aieas_backend.Ids.Layout.{Fits, compose_sum}
use aieas_backend.Ids.Order.{IsSecond, IsClock, Valid, After, next_id-Stamps}

-- The generator after a stamp.
abbrev stamped : Snowflake → ℤ → ℕ → Snowflake
stamped g second seq = record g { last_sec = second; seq = seq }

-- An identifier that carries a second and a number.
abbrev Carries : ℕ → ℕ → Snowflake → Type 0
Carries id id_type g =
    (e : ℕ) × (g.last_sec ≡ pos (1767225600 + e))
    × (Fits e id_type g.worker_id g.seq)
    × (id ≡ e * 4194304 + id_type * 131072 + g.worker_id * 512 + g.seq)

not_gives : {e : IdError} {g g' : Snowflake} {k k' id : ℕ} → fails e g k ≡ gives id g' k' → ⊥
not_gives h = ground arith

not_fails : {e : IdError} {g g' : Snowflake} {k k' id : ℕ} → gives id g k ≡ fails e g' k' → ⊥
not_fails h = ground arith

gives_parts :
    {g g' : Snowflake} {k k' id id' : ℕ}
    → gives id g k ≡ gives id' g' k'
    → (id ≡ id') × (g ≡ g') × (k ≡ k')
gives_parts h = (cc, cc, cc)

fails_state : {e e' : IdError} {g g' : Snowflake} {k k' : ℕ} → fails e g k ≡ fails e' g' k' → g' ≡ g
fails_state h = cc

within :
    (d : ℤ)
    → ltb_ℤ d (pos 0) ≡ false
    → ltb_ℤ (pos 2147483647) d ≡ false
    → (pos_part d ≤ 2147483647) × (neg_part d ≡ 0)
within (pos n) h j = (ground arith, refl)
within (negsuc n) h j = absurd (ground arith)

elapsed :
    (second : ℤ)
    → IsSecond second
    → ltb_ℤ (sub64 second epoch) (pos 0) ≡ false
    → ltb_ℤ (pos 2147483647) (sub64 second epoch) ≡ false
    → (pos_part (sub64 second epoch) ≤ 2147483647)
      × (second ≡ pos (1767225600 + pos_part (sub64 second epoch)))
elapsed second (high, low) begun in_time =
    let parts = -ℤ_parts second epoch in
    let exact : sub64 second epoch ≡ second -ℤ epoch =
      sub64_exact second epoch (ground (arith, parts)) in
    let (bound, whole) = within (sub64 second epoch) begun in_time in
    let parts' = rw (← exact) at parts in
    (bound, eq_of_parts second _ (omega (arith, parts', whole)))

stamp-gives :
    (g : Snowflake) (second : ℤ) (seq id_type k id : ℕ) (g' : Snowflake) (k' : ℕ)
    → g.worker_id ≤ 255
    → seq ≤ 511
    → id_type ≤ 31
    → IsSecond second
    → stamp g second seq id_type k ≡ gives id g' k'
    → (g' ≡ stamped g second seq) × Carries id id_type g'
unfolding stamp
stamp-gives g second seq id_type k id g' k' fw fs ft sec h =
    elim (Bool-cases (ltb_ℤ (sub64 second epoch) (pos 0))) [
      | inl early ↦ absurd (not_gives (rw (early, stamp) at h))
      | inr begun ↦ elim (Bool-cases (ltb_ℤ (pos 2147483647) (sub64 second epoch))) [
        | inl late ↦ absurd (not_gives (rw (begun, late, stamp) at h))
        | inr in_time ↦
            let (q, p, _) = gives_parts (rw (begun, in_time, stamp) at h) in
            let (bound, at) = elapsed second sec begun in_time in
            let e = pos_part (sub64 second epoch) in
            (
              sym p,
              rw (← p) (
                e,
                at,
                (bound, ft, fw, fs),
                sym q ∙ compose_sum e id_type g.worker_id seq (bound, ft, fw, fs),
              ),
            )
      ]
    ]

stamp-fails :
    (g : Snowflake) (second : ℤ) (seq id_type k : ℕ) (e : IdError) (g' : Snowflake) (k' : ℕ)
    → stamp g second seq id_type k ≡ fails e g' k'
    → g' ≡ stamped g second seq
unfolding stamp
stamp-fails g second seq id_type k e g' k' h =
    elim (Bool-cases (ltb_ℤ (sub64 second epoch) (pos 0))) [
      | inl early ↦ fails_state (rw (early, stamp) at h)
      | inr begun ↦ elim (Bool-cases (ltb_ℤ (pos 2147483647) (sub64 second epoch))) [
        | inl late ↦ fails_state (rw (begun, late, stamp) at h)
        | inr in_time ↦ absurd (not_fails (rw (begun, in_time, stamp) at h))
      ]
    ]

-- A generator at the same stamp or a later one.
abbrev Onward : Snowflake → Snowflake → Type 0
Onward g g' =
    (g'.worker_id ≡ g.worker_id)
    × (After g.last_sec g.seq g'.last_sec g'.seq ⊎ ((g.last_sec ≡ g'.last_sec) × (g.seq ≡ g'.seq)))

After-trans : (a b c : ℤ) (s t u : ℕ) → After a s b t → After b t c u → After a s c u
After-trans a b c s t u (inl f) (inl g) = inl (omega (arith, f, g))
After-trans a b c s t u (inl f) (inr (e, _)) = inl (omega (arith, f, ap pos_part e, ap neg_part e))
After-trans a b c s t u (inr (e, _)) (inl g) = inl (omega (arith, g, ap pos_part e, ap neg_part e))
After-trans a b c s t u (inr (e, m)) (inr (d, n)) = inr (e ∙ d, omega (arith, m, n))

Onward-After :
    (g g' : Snowflake) (c : ℤ) (u : ℕ)
    → Onward g g'
    → After g'.last_sec g'.seq c u
    → After g.last_sec g.seq c u
Onward-After g g' c u (_, inl f) n = After-trans g.last_sec g'.last_sec c g.seq g'.seq u f n
Onward-After g g' c u (_, inr (p, q)) n = rw (p, q) n

type_fits : (t : ℕ) → (t == 0 || ltb 31 t) ≡ false → t ≤ 31
type_fits t h = ground arith

gives_type :
    (clock : ℕ → ℤ) (fuel : ℕ) (g : Snowflake) (t k id : ℕ) (g' : Snowflake) (k' : ℕ)
    → next_id clock fuel g t k ≡ gives id g' k'
    → t ≤ 31
unfolding next_id
gives_type clock fuel g t k id g' k' h = elim (Bool-cases (t == 0 || ltb 31 t)) [
  | inl bad ↦ absurd (not_gives (rw (bad, next_id) at h))
  | inr fine ↦ type_fits t fine
]

not_waits : {g : Snowflake} {k id : ℕ} → waits ≡ gives id g k → ⊥
not_waits h = ground arith

-- What one call does that gives an identifier.
next_gives :
    (clock : ℕ → ℤ) (fuel : ℕ) (g : Snowflake) (t k id : ℕ) (g' : Snowflake) (k' : ℕ)
    → IsClock clock
    → Valid g
    → next_id clock fuel g t k ≡ gives id g' k'
    → (Valid g')
      × (g'.worker_id ≡ g.worker_id)
      × (After g.last_sec g.seq g'.last_sec g'.seq)
      × Carries id t g'
next_gives clock fuel g t k id g' k' c v h = elim (next_id-Stamps clock fuel g t k c v) [
  | inl (e, j, q) ↦ absurd (not_gives (sym q ∙ h))
  | inr (inl q) ↦ absurd (not_waits (sym q ∙ h))
  | inr (inr (second, seq, j, q, later, small, sec)) ↦
      let (p, carried) =
        stamp-gives g second seq t j id g' k' v.0 small (gives_type clock fuel g t k id g' k' h) sec
          (sym q ∙ h) in
      (rw p (v.0, small, sec), rw p refl, rw p later, carried)
]

not_waits_fails : {e : IdError} {g : Snowflake} {k : ℕ} → waits ≡ fails e g k → ⊥
not_waits_fails h = ground arith

-- What a failed call does.
next_fails :
    (clock : ℕ → ℤ) (fuel : ℕ) (g : Snowflake) (t k : ℕ) (e : IdError) (g' : Snowflake) (k' : ℕ)
    → IsClock clock
    → Valid g
    → next_id clock fuel g t k ≡ fails e g' k'
    → (Valid g') × Onward g g'
next_fails clock fuel g t k e g' k' c v h = elim (next_id-Stamps clock fuel g t k c v) [
  | inl (_, j, q) ↦ let p : g' ≡ g = fails_state (sym q ∙ h) in rw p (v, (refl, inr (refl, refl)))
  | inr (inl q) ↦ absurd (not_waits_fails (sym q ∙ h))
  | inr (inr (second, seq, j, q, later, small, sec)) ↦
      let p = stamp-fails g second seq t j e g' k' (sym q ∙ h) in
      rw p ((v.0, small, sec), (refl, inl later))
]

-- Any number of calls of Next, for any types, that fail or give an identifier.
pub data Calls (clock : ℕ → ℤ) (fuel : ℕ) (g : Snowflake) : Snowflake → Type 0 where
  here : Calls clock fuel g g
  fail :
      {g' g'' : Snowflake} (t k k' : ℕ) (e : IdError)
      → Calls clock fuel g g'
      → next_id clock fuel g' t k ≡ fails e g'' k'
      → Calls clock fuel g g''
  give :
      {g' g'' : Snowflake} (t k k' id : ℕ)
      → Calls clock fuel g g'
      → next_id clock fuel g' t k ≡ gives id g'' k'
      → Calls clock fuel g g''

Onward-trans : (a b c : Snowflake) → Onward a b → Onward b c → Onward a c
Onward-trans a b c f (w, inl g) = (w ∙ f.0, inl (Onward-After a b c.last_sec c.seq f g))
Onward-trans a b c (w, inl f) (w', inr (p, q)) = (w' ∙ w, inl (rw (p, q) at f))
Onward-trans a b c (w, inr (p, q)) (w', inr (p', q')) = (w' ∙ w, inr (p ∙ p', q ∙ q'))

Calls-Onward :
    {clock : ℕ → ℤ} {fuel : ℕ} {g g' : Snowflake}
    → IsClock clock
    → Valid g
    → Calls clock fuel g g'
    → (Valid g') × Onward g g'
Calls-Onward {g} c v here = (v, (refl, inr (refl, refl)))
Calls-Onward {clock} {fuel} {g} {g' = z} c v (fail {g' = m} t k k' e h q) =
    let (v', f) = Calls-Onward c v h in
    let (v'', n) = next_fails clock fuel m t k e z k' c v' q in (v'', Onward-trans g m z f n)
Calls-Onward {clock} {fuel} {g} {g' = z} c v (give {g' = m} t k k' id h q) =
    let (v', f) = Calls-Onward c v h in
    let (v'', w, n, _) = next_gives clock fuel m t k id z k' c v' q in
    (v'', Onward-trans g m z f (w, inl n))

sums_order :
    (e t w s d u w' s' : ℕ)
    → Fits e t w s
    → Fits d u w' s'
    → w' ≡ w
    → (e < d) ⊎ ((e ≡ d) × (s < s'))
    → let a = e * 4194304 + t * 131072 + w * 512 + s in
      let b = d * 4194304 + u * 131072 + w' * 512 + s' in (a ≢ b) × (t ≡ u → a < b)
sums_order e t w s d u w' s' f f' same (inl l) =
    let less : e * 4194304 + t * 131072 + w * 512 + s < d * 4194304 + u * 131072 + w' * 512 + s' =
      omega (arith, f.1, f.2, f.3, l) in
    (λ q. omega (arith, less, q), λ _. less)
sums_order e t w s d u w' s' f f' same (inr (p, l)) =
    (λ q. omega (arith, q, p, l, f.3, f'.3, same), λ q. omega (arith, q, p, l, same))

-- By the second and the number that two identifiers carry.
carried_order :
    (a b t u : ℕ) (g h : Snowflake)
    → Carries a t g
    → Carries b u h
    → h.worker_id ≡ g.worker_id
    → After g.last_sec g.seq h.last_sec h.seq
    → (a ≢ b) × (t ≡ u → a < b)
carried_order a b t u g h (e, p, f, q) (d, p', f', q') w n =
    let sums = sums_order e t g.worker_id g.seq d u h.worker_id h.seq f f' w (elim n [
      | inl l ↦ inl (omega (arith, l, ap pos_part p, ap neg_part p, ap pos_part p', ap neg_part p'))
      | inr (m, s) ↦ inr (omega (arith, ap pos_part m, ap pos_part p, ap pos_part p'), s)
    ]) in
    rw (q, q') sums

-- Of two identifiers of one generator the later one is different, and greater if they are for the
-- same type, whatever calls of Next come in between. The generator is valid, and the clock's
-- seconds stay away from the ends of int64; it may run back.
pub ids_increase :
    (clock : ℕ → ℤ) (fuel : ℕ) (g g1 g2 g3 : Snowflake) (t u k j k' j' a b : ℕ)
    → IsClock clock
    → Valid g
    → next_id clock fuel g t k ≡ gives a g1 k'
    → Calls clock fuel g1 g2
    → next_id clock fuel g2 u j ≡ gives b g3 j'
    → (a ≢ b) × (t ≡ u → a < b)
ids_increase clock fuel g g1 g2 g3 t u k j k' j' a b c v first between second =
    let (v1, w1, n1, ca) = next_gives clock fuel g t k a g1 k' c v first in
    let (v2, on) = Calls-Onward c v1 between in
    let (v3, w3, n3, cb) = next_gives clock fuel g2 u j b g3 j' c v2 second in
    carried_order a b t u g1 g3 ca cb (w3 ∙ on.0) (Onward-After g1 g2 g3.last_sec g3.seq on n3)
