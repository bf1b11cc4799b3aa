-- ===== src/Prelude/Entries.antt =====
-- Which entries a map has after an insertion or a deletion.
use mathlib.Core.Path.{◌≡◌}
use mathlib.Core.Logic.{◌⊎◌, inl, inr}
use mathlib.Core.Bool.{false}
use mathlib.Core.Option.{none, some}
use mathlib.Core.List.{List}
use native.Mathlib.Omega.{arith}
use aieas_backend.Prelude.Tests.{Bool-cases}
use aieas_backend.Prelude.Map.{Eq, lookup, insert, delete, lookup-insert, lookup-delete}

pub some_inj {ℓ} : {A : Type ℓ} {x y : A} → some x ≡ some y → x ≡ y
some_inj h = cc

pub no_value {ℓ κ} : {A : Type ℓ} {B : Type κ} {x : A} → none ≡ some x → B
no_value h = absurd (ground arith)

module _ {ℓ} {K : Type ℓ} ⦃e : Eq K⦄ where
  -- Two keys are different where their equality refutes something.
  pub apart : (k j : K) → (k ≡ j → ⊥) → e.beq k j ≡ false
  apart k j h = elim (Bool-cases (e.beq k j)) [
    | inl same ↦ absurd (h ((e.beq_iff k j).0 same))
    | inr other ↦ other
  ]

  pub differ : (k j : K) → e.beq k j ≡ false → k ≡ j → ⊥
  differ k j h q = ground (arith, (e.beq_iff k j).1 q)

module _ {ℓ κ} {K : Type ℓ} ⦃e : Eq K⦄ {V : Type κ} where
  -- What a map holds after a deletion it held before, under another key.
  pub kept :
      (k j : K) (m : List (K × V)) (x : V)
      → lookup j (delete k m) ≡ some x
      → (e.beq k j ≡ false) × (lookup j m ≡ some x)
  kept k j m x h = elim (Bool-cases (e.beq k j)) [
    | inl same ↦ no_value (rw (lookup-delete k j m, same) at h)
    | inr other ↦ (other, rw (lookup-delete k j m, other) at h)
  ]

  pub spared :
      (k j : K) (m : List (K × V)) (x : V)
      → e.beq k j ≡ false
      → lookup j m ≡ some x
      → lookup j (delete k m) ≡ some x
  spared k j m x other h = rw (lookup-delete k j m, other) h

  -- What a map holds after an insertion is the new value or was there.
  pub insert_cases :
      (k j : K) (v : V) (m : List (K × V)) (x : V)
      → lookup j (insert k v m) ≡ some x
      → ((k ≡ j) × (v ≡ x)) ⊎ ((e.beq k j ≡ false) × (lookup j m ≡ some x))
  insert_cases k j v m x h = elim (Bool-cases (e.beq k j)) [
    | inl same ↦ inl ((e.beq_iff k j).0 same, some_inj (rw (lookup-insert k j v m, same) at h))
    | inr other ↦ inr (other, rw (lookup-insert k j v m, other) at h)
  ]

  pub passed_by :
      (k j : K) (v : V) (m : List (K × V)) (x : V)
      → e.beq k j ≡ false
      → lookup j m ≡ some x
      → lookup j (insert k v m) ≡ some x
  passed_by k j v m x other h = rw (lookup-insert k j v m, other) h
