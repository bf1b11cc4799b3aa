-- ===== src/Cache/Sizes.antt =====
-- How long the list of the cache is, and what its last element leaves.
use aieas_backend.Prelude.{
  ℕ, zero, suc, ◌+◌, ◌≤◌, false, some, List, [], ◌∷◌, ◌≡◌, inl, inr, refl, sym, ap, ◌∙◌, arith,
  lookup, delete, nat_eq, string_eq, Distinct, some_inj, no_value, apart, Bool-cases, length, take,
  ◌==◌, ==_iff,
}
use aieas_backend.Cache.L1.{CacheEntry, back}
use aieas_backend.Cache.Recency.{values}

pub length-delete : (i : ℕ) (m : List (ℕ × CacheEntry)) → length (delete i m) ≤ length m
unfolding delete
length-delete i [] = omega arith
length-delete i ((j, e) ∷ m) = ground (arith, length-delete i m)

pub length-delete_present :
    (i : ℕ) (e : CacheEntry) (m : List (ℕ × CacheEntry))
    → lookup i m ≡ some e
    → length (delete i m) + 1 ≤ length m
unfolding delete lookup
length-delete_present i e [] h = no_value h
length-delete_present i e ((j, w) ∷ m) h = elim (Bool-cases (j == i)) [
  | inl same ↦ rw same (omega (arith, length-delete i m))
  | inr other ↦ rw other (omega (arith, length-delete_present i e m (rw other at h)))
]

pub length-values : (m : List (ℕ × CacheEntry)) → length (values m) ≡ length m
length-values [] = refl
length-values ((i, e) ∷ m) = ap suc (length-values m)

pub take_all : (n : ℕ) (l : List CacheEntry) → length l ≤ n → take n l ≡ l
take_all zero [] h = refl
take_all zero (e ∷ l) h = absurd (omega (arith, h))
take_all (suc n) [] h = refl
take_all (suc n) (e ∷ l) h = ap (λ t. e ∷ t) (take_all n l (omega (arith, h)))

pub back_present :
    (x : ℕ × CacheEntry) (m : List (ℕ × CacheEntry))
    → (i : ℕ) × (e : CacheEntry) × (back (x ∷ m) ≡ some i) × (lookup i (x ∷ m) ≡ some e)
unfolding lookup
back_present (i, e) [] = (i, e, refl, rw ((==_iff i i).1 refl) refl)
back_present (j, w) (y ∷ m) =
    let (i, e, last, at) = back_present y m in
    elim (Bool-cases (j == i)) [
      | inl same ↦ (i, w, last, rw same refl)
      | inr other ↦ (i, e, last, rw other at)
    ]

pub values-delete-back :
    (x : ℕ × CacheEntry) (m : List (ℕ × CacheEntry)) (i : ℕ)
    → Distinct (x ∷ m)
    → back (x ∷ m) ≡ some i
    → values (delete i (x ∷ m)) ≡ take (length m) (values (x ∷ m))
unfolding delete lookup
values-delete-back (j, w) [] i d last = let q : j ≡ i = some_inj last in rw ((==_iff j i).1 q) refl
values-delete-back (j, w) (y ∷ m) i (n, d) last =
    let (i', e, last', at) = back_present y m in
    let q : i ≡ i' = some_inj (sym last ∙ last') in
    let other : (j == i) ≡ false =
      apart j i (λ r. no_value (sym n ∙ ap (λ x. lookup x (y ∷ m)) (r ∙ q) ∙ at)) in
    rw other (ap (λ l. w ∷ l) (values-delete-back y m i d last))

pub fits : (n : ℕ) (m : List (ℕ × CacheEntry)) → length m ≤ n → values m ≡ take n (values m)
fits n m h = sym (take_all n (values m) (omega (arith, h, length-values m)))
