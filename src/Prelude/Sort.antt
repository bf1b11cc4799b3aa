-- ===== src/Prelude/Sort.antt =====
-- sort.Slice by a test of what comes first, and what a prefix of its result holds.
use Prim.Native.Nat.{ℕ, zero, suc}
use mathlib.Core.Path.{◌≡◌, refl, ap}
use mathlib.Core.Logic.{◌⊎◌, inl, inr}
use mathlib.Core.Bool.{Bool, true, false}
use mathlib.Core.List.{List, [], ◌∷◌}
use aieas_backend.Prelude.Tests.{if◌then◌else◌, Bool-cases}
use aieas_backend.Prelude.Lists.{length, take, All}

abbrev pub place {ℓ} : {A : Type ℓ} → (A → A → Bool) → A → List A → List A
place less o [] = o ∷ []
place less o (x ∷ l) = let rest = place less o l in if less x o then x ∷ rest else o ∷ x ∷ l

abbrev pub sort_by {ℓ} : {A : Type ℓ} → (A → A → Bool) → List A → List A
sort_by less [] = []
sort_by less (o ∷ l) = place less o (sort_by less l)

module _ {A : Type 0} where
  abbrev pub Among : A → List A → Type 0
  Among x [] = ⊥
  Among x (y ∷ l) = (y ≡ x) ⊎ (Among x l)

  -- Each element comes before all behind it.
  abbrev pub Ordered : (A → A → Type 0) → List A → Type 0
  Ordered R [] = Unit
  Ordered R (x ∷ l) = All (R x) l × Ordered R l

module _ {A : Type 0} where
  pub All-Among : (P : A → Type 0) (x : A) (l : List A) → All P l → Among x l → P x
  All-Among P x [] a m = absurd m
  All-Among P x (y ∷ l) (p, a) (inl q) = rw (← q) p
  All-Among P x (y ∷ l) (p, a) (inr m) = All-Among P x l a m

module _ {A : Type 0} (less : A → A → Bool) where
  Among-place : (x o : A) (l : List A) → (o ≡ x) ⊎ (Among x l) → Among x (place less o l)
  Among-place x o [] h = h
  Among-place x o (y ∷ l) h = elim (Bool-cases (less y o)) [
    | inr n ↦ rw n h
    | inl e ↦ rw e (elim h [
      | inl q ↦ inr (Among-place x o l (inl q))
      | inr (inl q) ↦ inl q
      | inr (inr m) ↦ inr (Among-place x o l (inr m))
    ])
  ]

  place-Among : (x o : A) (l : List A) → Among x (place less o l) → (o ≡ x) ⊎ (Among x l)
  place-Among x o [] h = h
  place-Among x o (y ∷ l) h = elim (Bool-cases (less y o)) [
    | inr n ↦ rw n at h
    | inl e ↦
        let m : (y ≡ x) ⊎ (Among x (place less o l)) = rw e at h in
        elim m [
          | inl q ↦ inr (inl q)
          | inr r ↦ elim (place-Among x o l r) [ inl q ↦ inl q | inr q ↦ inr (inr q) ]
        ]
  ]

  -- Sorting keeps the elements.
  pub Among-sort_by : (x : A) (l : List A) → Among x l → Among x (sort_by less l)
  Among-sort_by x [] m = absurd m
  Among-sort_by x (o ∷ l) (inl q) = Among-place x o (sort_by less l) (inl q)
  Among-sort_by x (o ∷ l) (inr m) = Among-place x o (sort_by less l) (inr (Among-sort_by x l m))

  pub sort_by-Among : (x : A) (l : List A) → Among x (sort_by less l) → Among x l
  sort_by-Among x [] h = h
  sort_by-Among x (o ∷ l) h = elim (place-Among x o (sort_by less l) h) [
    | inl q ↦ inl q
    | inr m ↦ inr (sort_by-Among x l m)
  ]

  module _ (R : A → A → Type 0) (trans : (x y z : A) → R x y → R y z → R x z)
      (first : (x y : A) → less x y ≡ true → R x y)
      (second : (x y : A) → less x y ≡ false → R y x) where
    All-through : (x y : A) (l : List A) → R x y → All (R y) l → All (R x) l
    All-through x y [] r a = tt
    All-through x y (z ∷ l) r (s, a) = (trans x y z r s, All-through x y l r a)

    All-place : (x o : A) (l : List A) → R x o → All (R x) l → All (R x) (place less o l)
    All-place x o [] r a = (r, tt)
    All-place x o (y ∷ l) r (s, a) = elim (Bool-cases (less y o)) [
      | inl e ↦ rw e (s, All-place x o l r a)
      | inr n ↦ rw n (r, (s, a))
    ]

    place-Ordered : (o : A) (l : List A) → Ordered R l → Ordered R (place less o l)
    place-Ordered o [] d = (tt, tt)
    place-Ordered o (y ∷ l) (a, d) = elim (Bool-cases (less y o)) [
      | inl e ↦ rw e (All-place y o l (first y o e) a, place-Ordered o l d)
      | inr n ↦ rw n ((second y o n, All-through o y l (second y o n) a), (a, d))
    ]

    pub sort_by-Ordered : (l : List A) → Ordered R (sort_by less l)
    sort_by-Ordered [] = tt
    sort_by-Ordered (o ∷ l) = place-Ordered o (sort_by less l) (sort_by-Ordered l)

module _ {A : Type 0} (R : A → A → Type 0) where
  All-take : (P : A → Type 0) (n : ℕ) (l : List A) → All P l → All P (take n l)
  All-take P zero l a = tt
  All-take P (suc n) [] a = tt
  All-take P (suc n) (x ∷ l) (p, a) = (p, All-take P n l a)

  pub take-Ordered : (n : ℕ) (l : List A) → Ordered R l → Ordered R (take n l)
  take-Ordered zero l d = tt
  take-Ordered (suc n) [] d = tt
  take-Ordered (suc n) (x ∷ l) (a, d) = (All-take (R x) n l a, take-Ordered n l d)

  pub take-Among : (x : A) (n : ℕ) (l : List A) → Among x (take n l) → Among x l
  take-Among x zero l m = absurd m
  take-Among x (suc n) [] m = absurd m
  take-Among x (suc n) (y ∷ l) (inl q) = inl q
  take-Among x (suc n) (y ∷ l) (inr m) = inr (take-Among x n l m)

  -- An element is in the first n, or these are n elements that come before it.
  pub take_cases :
      (x : A) (n : ℕ) (l : List A)
      → Ordered R l
      → Among x l
      → (Among x (take n l)) ⊎ ((All (λ y. R y x) (take n l)) × (length (take n l) ≡ n))
  take_cases x zero l d m = inr (tt, refl)
  take_cases x (suc n) [] d m = absurd m
  take_cases x (suc n) (y ∷ l) (a, d) (inl q) = inl (inl q)
  take_cases x (suc n) (y ∷ l) (a, d) (inr m) = elim (take_cases x n l d m) [
    | inl t ↦ inl (inr t)
    | inr (b, c) ↦ inr ((All-Among (R y) x l a m, b), ap suc c)
  ]
