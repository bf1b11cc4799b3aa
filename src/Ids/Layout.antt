-- ===== src/Ids/Layout.antt =====
-- The bit layout of an identifier.
use aieas_backend.Prelude.{ℕ, ◌+◌, ◌*◌, ◌%◌, ◌≤◌, ◌<◌, ◌≡◌, ap, ◌∙◌, arith, two_64}
use aieas_backend.Ids.Bits.{bit_or, power, bit_or_disjoint}
use aieas_backend.Ids.Snowflake.{compose, extract_type, extract_worker_id}

-- The four parts keep to their bits.
abbrev pub Fits : ℕ → ℕ → ℕ → ℕ → Type 0
Fits elapsed id_type worker seq =
    (elapsed ≤ 2147483647) × (id_type ≤ 31) × (worker ≤ 255) × (seq ≤ 511)

at_17 : (e t : ℕ) → e * 4194304 + t * 131072 ≡ (e * 32 + t) * 131072
at_17 e t = omega arith

at_9 : (e t w : ℕ) → (e * 32 + t) * 131072 + w * 512 ≡ ((e * 32 + t) * 256 + w) * 512
at_9 e t w = omega arith

whole : (e t w s : ℕ) → ((e * 32 + t) * 256 + w) * 512 + s ≡ e * 4194304 + t * 131072 + w * 512 + s
whole e t w s = omega arith

no_carry : (e : ℕ) → e ≤ 2147483647 → e * 4194304 % two_64 ≡ e * 4194304
no_carry e h = omega arith

or_at_22 :
    (e b : ℕ)
    → b < 4194304
    → e * 4194304 + b < 18446744073709551616
    → bit_or 64 (e * 4194304) b ≡ e * 4194304 + b
or_at_22 e b low fits = bit_or_disjoint 64 22 e b low fits

or_at_17 :
    (e b : ℕ)
    → b < 131072
    → e * 131072 + b < 18446744073709551616
    → bit_or 64 (e * 131072) b ≡ e * 131072 + b
or_at_17 e b low fits = bit_or_disjoint 64 17 e b low fits

or_at_9 :
    (e b : ℕ) → b < 512 → e * 512 + b < 18446744073709551616 → bit_or 64 (e * 512) b ≡ e * 512 + b
or_at_9 e b low fits = bit_or_disjoint 64 9 e b low fits

-- The parts do not overlap.
or_parts :
    (e t w s : ℕ)
    → e ≤ 2147483647
    → t ≤ 31
    → w ≤ 255
    → s ≤ 511
    → bit_or 64 (bit_or 64 (bit_or 64 (e * 4194304) (t * 131072)) (w * 512)) s
      ≡ e * 4194304 + t * 131072 + w * 512 + s
or_parts e t w s fe ft fw fs =
    ap (λ (x : ℕ). bit_or 64 (bit_or 64 x (w * 512)) s)
      (or_at_22 e (t * 131072) (omega arith) (omega arith))
    ∙ ap (λ (x : ℕ). bit_or 64 (bit_or 64 x (w * 512)) s) (at_17 e t)
    ∙ ap (λ (x : ℕ). bit_or 64 x s) (or_at_17 (e * 32 + t) (w * 512) (omega arith) (omega arith))
    ∙ ap (λ (x : ℕ). bit_or 64 x s) (at_9 e t w)
    ∙ or_at_9 ((e * 32 + t) * 256 + w) s (omega arith) (omega arith)
    ∙ whole e t w s

pub compose_sum :
    (e t w s : ℕ) → Fits e t w s → compose e t w s ≡ e * 4194304 + t * 131072 + w * 512 + s
unfolding compose
compose_sum e t w s (fe, ft, fw, fs) =
    ap (λ (x : ℕ). bit_or 64 (bit_or 64 (bit_or 64 x (t * power 17)) (w * power 9)) s)
      (no_carry e fe)
    ∙ or_parts e t w s fe ft fw fs

-- The type and the worker are read back from an identifier whose parts keep to their bits.
pub extract-compose :
    (e t w s : ℕ)
    → Fits e t w s
    → (extract_type (compose e t w s) ≡ t) × (extract_worker_id (compose e t w s) ≡ w)
unfolding extract_type extract_worker_id
extract-compose e t w s f =
    let (fe, ft, fw, fs) = f in
    rw (compose_sum e t w s f) (omega (arith, fe, ft, fw, fs), omega (arith, fe, ft, fw, fs))
