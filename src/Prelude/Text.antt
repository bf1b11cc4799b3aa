-- ===== src/Prelude/Text.antt =====
-- Text: equality, and Go's strings.TrimSpace, ToLower and ToUpper as far as the code compares them.
use Prim.Native.Char.{Char, code}
use Prim.Native.String.{String}
use native.Mathlib.Omega.{arith}
use mathlib.Core.Bool.{Bool, true, false, ◌&&◌, ◌||◌}
use Prim.Native.Nat.{ℕ, ◌+◌, ◌-◌}
use mathlib.Core.List.{List, [], ◌∷◌, map}
use text.Mathlib.Text.{◌==◌ as text_eq}
use mathlib.Core.Path.{◌≡◌, refl}
use mathlib.Core.Logic.{◌↔◌}
use aieas_backend.Prelude.Tests.{leb, ◌==◌, ==_iff, if◌then◌else◌}

abbrev pub str_eq : String → String → Bool
str_eq = text_eq

abbrev pub is_empty : String → Bool
is_empty String.[] = true
is_empty (String.◌∷◌ c s) = false

-- unicode.IsSpace.
abbrev pub is_space : Char → Bool
is_space c =
    (leb 9 (code c) && leb (code c) 13)
    || code c == 32
    || code c == 0x85
    || code c == 0xA0
    || code c == 0x1680
    || (leb 0x2000 (code c) && leb (code c) 0x200a)
    || code c == 0x2028
    || code c == 0x2029
    || code c == 0x202f
    || code c == 0x205f
    || code c == 0x3000

unfoldable pub trim_left : String → String
trim_left String.[] = String.[]
trim_left (String.◌∷◌ c s) = let rest = trim_left s in if is_space c then rest else String.◌∷◌ c s

unfoldable pub trim_right : String → String
trim_right String.[] = String.[]
trim_right (String.◌∷◌ c s) =
    let rest = trim_right s in if is_space c && is_empty rest then String.[] else String.◌∷◌ c rest

-- strings.TrimSpace.
unfoldable pub trim_space : String → String
unfolding trim_left trim_right
trim_space s = trim_right (trim_left s)

-- The code points of a text.
abbrev pub codes : String → List ℕ
codes String.[] = []
codes (String.◌∷◌ c s) = code c ∷ codes s

-- The letters whose upper (lower) case is an ASCII letter; every other one keeps away from them.
abbrev pub upper_code : ℕ → ℕ
upper_code c =
    if leb b'a' c && leb c b'z'
    then c - 32
    else if c == 0x131
    then b'I'
    else if c == 0x17F
    then b'S'
    else c

-- The letter of the second text that stands where the first has c; c, where it has none.
abbrev letter_of : Char → String → String → Char
letter_of c String.[] us = c
letter_of c (String.◌∷◌ l ls) String.[] = c
letter_of c (String.◌∷◌ l ls) (String.◌∷◌ u us) =
    let rest = letter_of c ls us in if code c == code l then u else rest

-- strings.ToUpper, for the letters of upper_code; letters of other alphabets stay as they are.
unfoldable pub to_upper : String → String
to_upper String.[] = String.[]
to_upper (String.◌∷◌ c s) =
    String.◌∷◌ (letter_of c "abcdefghijklmnopqrstuvwxyzıſ" "ABCDEFGHIJKLMNOPQRSTUVWXYZIS")
      (to_upper s)

abbrev pub lower_code : ℕ → ℕ
lower_code c =
    if leb b'A' c && leb c b'Z'
    then c + 32
    else if c == 0x130
    then b'i'
    else if c == 0x212A
    then b'k'
    else c

abbrev pub same_codes : List ℕ → List ℕ → Bool
same_codes [] [] = true
same_codes (x ∷ xs) (y ∷ ys) = x == y && same_codes xs ys
same_codes _ _ = false

pub same_codes_iff : (xs ys : List ℕ) → (same_codes xs ys ≡ true) ↔ (xs ≡ ys)
same_codes_iff [] [] = (λ h. refl, λ h. refl)
same_codes_iff [] (y ∷ ys) = (λ h. cc, λ h. cc)
same_codes_iff (x ∷ xs) [] = (λ h. cc, λ h. cc)
same_codes_iff (x ∷ xs) (y ∷ ys) = ground (arith, same_codes_iff xs ys, ==_iff x y)

-- strings.ToUpper(strings.TrimSpace(s)) == t, for an ASCII text t; and with ToLower.
unfoldable pub upper_is : String → String → Bool
unfolding trim_space
upper_is s t = same_codes (map upper_code (codes (trim_space s))) (codes t)

unfoldable pub lower_is : String → String → Bool
unfolding trim_space
lower_is s t = same_codes (map lower_code (codes (trim_space s))) (codes t)

pub empty_iff : (s : String) → (is_empty s ≡ true) ↔ (s ≡ "")
empty_iff String.[] = (λ h. refl, λ h. refl)
empty_iff (String.◌∷◌ c s) = (λ h. cc, λ h. cc)
