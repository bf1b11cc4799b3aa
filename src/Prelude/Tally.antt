-- ===== src/Prelude/Tally.antt =====
-- Maps with each key once, and how many entries pass a test.
use Prim.Native.Nat.{ℕ, ◌+◌}
use mathlib.Core.Path.{◌≡◌, refl}
use mathlib.Core.Logic.{inl, inr}
use mathlib.Core.Bool.{Bool}
use mathlib.Core.Option.{none, some}
use mathlib.Core.List.{List, [], ◌∷◌}
use native.Mathlib.Omega.{arith}
use aieas_backend.Prelude.Tests.{if◌then◌else◌, Bool-cases}
use aieas_backend.Prelude.Map.{Eq, lookup, insert, delete, lookup-insert, lookup-delete}

module _ {ℓ κ} {K : Type ℓ} ⦃e : Eq K⦄ {V : Type κ} where
  abbrev pub Distinct : List (K × V) → Type κ
  Distinct [] = Unit
  Distinct ((k, v) ∷ m) = (lookup k m ≡ none) × Distinct m

  abbrev pub tally : (V → Bool) → List (K × V) → ℕ
  tally p [] = 0
  tally p ((k, v) ∷ m) = (if p v then 1 else 0) + tally p m

  pub insert-Distinct : (k : K) (v : V) (m : List (K × V)) → Distinct m → Distinct (insert k v m)
  unfolding insert lookup
  insert-Distinct k v [] d = (refl, tt)
  insert-Distinct k v ((j, w) ∷ m) (n, d) = elim (Bool-cases (e.beq j k)) [
    | inl same ↦ rw same (rw ((e.beq_iff j k).0 same) at n, d)
    | inr other ↦ rw other (
      rw (lookup-insert k j v m) (ground (arith, e.beq_iff k j, e.beq_iff j k, n)),
      insert-Distinct k v m d,
    )
  ]

  delete_absent : (k : K) (m : List (K × V)) → lookup k m ≡ none → delete k m ≡ m
  unfolding delete lookup
  delete_absent k [] h = refl
  delete_absent k ((j, w) ∷ m) h = ground (arith, delete_absent k m)

  pub delete-Distinct : (k : K) (m : List (K × V)) → Distinct m → Distinct (delete k m)
  unfolding delete
  delete-Distinct k [] d = tt
  delete-Distinct k ((j, w) ∷ m) (n, d) = elim (Bool-cases (e.beq j k)) [
    | inl same ↦ rw same (delete-Distinct k m d)
    | inr other ↦ rw other (rw (lookup-delete k j m) (ground (arith, n)), delete-Distinct k m d)
  ]

  pub tally-insert_new :
      (p : V → Bool) (k : K) (v : V) (m : List (K × V))
      → lookup k m ≡ none
      → tally p (insert k v m) ≡ (if p v then 1 else 0) + tally p m
  unfolding insert lookup
  tally-insert_new p k v [] h = refl
  tally-insert_new p k v ((j, w) ∷ m) h = ground (arith, tally-insert_new p k v m)

  -- To overwrite an entry.
  pub tally-insert_old :
      (p : V → Bool) (k : K) (v w : V) (m : List (K × V))
      → lookup k m ≡ some w
      → (if p w then 1 else 0) + tally p (insert k v m) ≡ (if p v then 1 else 0) + tally p m
  unfolding insert lookup
  tally-insert_old p k v w [] h = absurd (ground arith)
  tally-insert_old p k v w ((j, u) ∷ m) h = elim (Bool-cases (e.beq j k)) [
    | inl same ↦ ground (arith)
    | inr other ↦ ground (arith, tally-insert_old p k v w m)
  ]

  pub tally-delete :
      (p : V → Bool) (k : K) (v : V) (m : List (K × V))
      → Distinct m
      → lookup k m ≡ some v
      → (if p v then 1 else 0) + tally p (delete k m) ≡ tally p m
  unfolding delete lookup
  tally-delete p k v [] d h = absurd (ground arith)
  tally-delete p k v ((j, w) ∷ m) (n, d) h = elim (Bool-cases (e.beq j k)) [
    | inl same ↦
        let away : delete k m ≡ m = delete_absent k m (rw ((e.beq_iff j k).0 same) at n) in
        rw (same, away) (ground (arith))
    | inr other ↦ ground (arith, tally-delete p k v m d)
  ]
