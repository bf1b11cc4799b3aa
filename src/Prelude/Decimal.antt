-- ===== src/Prelude/Decimal.antt =====
-- Decimal texts: uint64ToString of internal/transport/ws/bid_async.go, which writes what
-- strconv.FormatUint writes in base 10.
use Prim.Native.Nat.{ℕ, zero, suc, ◌+◌, ◌-◌, ◌*◌, ◌/◌, ◌%◌, ◌<◌}
use Prim.Native.Char.{Char, code}
use Prim.Native.String.{String, ◌++◌}
use text.Mathlib.TextLemmas.{nil-append, cons-append}
use mathlib.Core.Logic.{◌≢◌, inl, inr}
use mathlib.Core.Path.{◌≡◌, refl, sym, ap, ◌∙◌}
use native.Mathlib.Omega.{arith}
use aieas_backend.Prelude.Tests.{◌==◌, ==_iff, if◌then◌else◌, Bool-cases}

-- `byte('0' + d)` for a digit.
abbrev digit_char : ℕ → Char
digit_char d =
    if d == 0
    then "0"
    else if d == 1
    then "1"
    else if d == 2
    then "2"
    else if d == 3
    then "3"
    else if d == 4
    then "4"
    else if d == 5
    then "5"
    else if d == 6
    then "6"
    else if d == 7
    then "7"
    else if d == 8
    then "8"
    else "9"

-- The loop, with room for as many digits as the fuel says.
unfoldable pub digits : ℕ → ℕ → String → String
digits zero n s = s
digits (suc fuel) n s =
    let rest = digits fuel (n / 10) (String.◌∷◌ (digit_char (n % 10)) s) in
    if n == 0 then s else rest

-- A uint64 has at most 20 digits.
unfoldable pub uint64_to_string : ℕ → String
uint64_to_string v = if v == 0 then "0" else digits 20 v ""

-- The number that digits continue.
abbrev value_from : ℕ → String → ℕ
value_from n String.[] = n
value_from n (String.◌∷◌ c s) = value_from (n * 10 + (code c - 48)) s

digit_value : (d : ℕ) → d < 10 → code (digit_char d) ≡ 48 + d
digit_value zero h = refl
digit_value (suc zero) h = refl
digit_value (suc (suc zero)) h = refl
digit_value (suc (suc (suc zero))) h = refl
digit_value (suc (suc (suc (suc zero)))) h = refl
digit_value (suc (suc (suc (suc (suc zero))))) h = refl
digit_value (suc (suc (suc (suc (suc (suc zero)))))) h = refl
digit_value (suc (suc (suc (suc (suc (suc (suc zero))))))) h = refl
digit_value (suc (suc (suc (suc (suc (suc (suc (suc zero)))))))) h = refl
digit_value (suc (suc (suc (suc (suc (suc (suc (suc (suc zero))))))))) h = refl
digit_value (suc (suc (suc (suc (suc (suc (suc (suc (suc (suc d)))))))))) h =
    absurd (omega (arith, h))

-- 10 ^ k
abbrev pub power_10 : ℕ → ℕ
power_10 zero = 1
power_10 (suc k) = 10 * power_10 k

value-digits :
    (fuel n : ℕ) (s : String) → n < power_10 fuel → value_from 0 (digits fuel n s) ≡ value_from n s
unfolding digits
value-digits zero n s h = let e : n ≡ 0 = omega (arith, h) in rw e refl
value-digits (suc fuel) n s h = elim (Bool-cases (n == 0)) [
  | inl e ↦ let z : n ≡ 0 = (==_iff n 0).0 e in rw z refl
  | inr more ↦
      let c = digit_char (n % 10) in
      let v : code c ≡ 48 + n % 10 = digit_value (n % 10) (omega arith) in
      let step : n / 10 * 10 + (code c - 48) ≡ n = rw v (omega arith) in
      rw more (
        value-digits fuel (n / 10) (String.◌∷◌ c s) (omega (arith, h))
        ∙ ap (λ (x : ℕ). value_from x s) step)
]

value-uint64_to_string : (v : ℕ) → v < 100000000000000000000 → value_from 0 (uint64_to_string v) ≡ v
unfolding uint64_to_string
value-uint64_to_string v h = elim (Bool-cases (v == 0)) [
  | inl e ↦ let z : v ≡ 0 = (==_iff v 0).0 e in rw z refl
  | inr more ↦ rw more (value-digits 20 v "" h)
]

pub uint64_to_string_inj :
    (v w : ℕ)
    → v < 100000000000000000000
    → w < 100000000000000000000
    → uint64_to_string v ≡ uint64_to_string w
    → v ≡ w
uint64_to_string_inj v w h k e =
    sym (value-uint64_to_string v h) ∙ ap (value_from 0) e ∙ value-uint64_to_string w k

-- No character of the text is a colon.
abbrev pub HasNoColon : String → Type 0
HasNoColon String.[] = Unit
HasNoColon (String.◌∷◌ c s) = (code c ≢ 58) × HasNoColon s

digits-HasNoColon : (fuel n : ℕ) (s : String) → HasNoColon s → HasNoColon (digits fuel n s)
unfolding digits
digits-HasNoColon zero n s h = h
digits-HasNoColon (suc fuel) n s h = elim (Bool-cases (n == 0)) [
  | inl e ↦ rw e h
  | inr more ↦ rw more (
      digits-HasNoColon fuel (n / 10) (String.◌∷◌ (digit_char (n % 10)) s)
        (λ q. omega (arith, q, digit_value (n % 10) (omega arith)), h))
]

pub uint64_to_string-HasNoColon : (v : ℕ) → HasNoColon (uint64_to_string v)
unfolding uint64_to_string
uint64_to_string-HasNoColon v = elim (Bool-cases (v == 0)) [
  | inl e ↦ rw e (omega arith)
  | inr more ↦ rw more (digits-HasNoColon 20 v "" tt)
]

cons_inj :
    {c d : Char} {s t : String}
    → String.◌∷◌ c s ≡ String.◌∷◌ d t
    → (code c ≡ code d) × (c ≡ d) × (s ≡ t)
cons_inj h = (cc, cc, cc)

HasNoColon-tail : (u s : String) → HasNoColon (u ++ String.◌∷◌ ":" s) → ⊥
HasNoColon-tail String.[] s h = (rw (nil-append (String.◌∷◌ ":" s)) at h).0 refl
HasNoColon-tail (String.◌∷◌ c u) s h =
    HasNoColon-tail u s ((rw (cons-append c u (String.◌∷◌ ":" s)) at h).1)

-- What stands before and behind the last colon.
pub last_colon :
    (u v s t : String)
    → HasNoColon s
    → HasNoColon t
    → u ++ String.◌∷◌ ":" s ≡ v ++ String.◌∷◌ ":" t
    → (u ≡ v) × (s ≡ t)
last_colon String.[] String.[] s t h k e =
    (refl, (cons_inj (rw (nil-append (String.◌∷◌ ":" s), nil-append (String.◌∷◌ ":" t)) at e)).2)
last_colon String.[] (String.◌∷◌ d v) s t h k e =
    let q =
      cons_inj (rw (nil-append (String.◌∷◌ ":" s), cons-append d v (String.◌∷◌ ":" t)) at e) in
    absurd (HasNoColon-tail v t (rw (q.2) at h))
last_colon (String.◌∷◌ c u) String.[] s t h k e =
    let q =
      cons_inj (rw (cons-append c u (String.◌∷◌ ":" s), nil-append (String.◌∷◌ ":" t)) at e) in
    absurd (HasNoColon-tail u s (rw (← q.2) at k))
last_colon (String.◌∷◌ c u) (String.◌∷◌ d v) s t h k e =
    let q =
      cons_inj (rw (cons-append c u (String.◌∷◌ ":" s), cons-append d v (String.◌∷◌ ":" t)) at e) in
    let (p, r) = last_colon u v s t h k (q.2) in (rw (q.1, p) refl, r)
