-- ===== src/Domain/Error.antt =====
-- The error values of internal/domain/user.go that the modelled code returns; `nil` is `none`.
use aieas_backend.Prelude.{◌⊎◌, inl, inr, refl, ◌≡◌, Bool, true, false}

pub data Error : Type 0 where
  user_not_found account_disabled invalid_password token_invalid token_missing forbidden : Error
  invalid_argument not_found conflict invalid_state idempotency_key optimistic_conflict : Error
  -- any other error, of a repository or of the runtime
  other_error : Error

-- A Go result `(value, error)`, where the caller uses the value only if the error is nil.
pub data Result {ℓ} (A : Type ℓ) : Type ℓ where
  ok : A → Result A
  err : Error → Result A

infixl 5 ◌>>=◌ ◌>>◌
abbrev pub ◌>>=◌ {ℓ κ} : {A : Type ℓ} {B : Type κ} → Result A → (A → Result B) → Result B
ok a >>= f = f a
err e >>= f = err e

abbrev pub ◌>>◌ {ℓ κ} : {A : Type ℓ} {B : Type κ} → Result A → Result B → Result B
m >> k = m >>= λ _. k

-- `if c { return err }`, by the condition under which the code goes on.
abbrev pub guard : Bool → Error → Result (Unit {0})
guard true e = ok tt
guard false e = err e

pub ok-injective {ℓ} : {A : Type ℓ} {a b : A} → ok a ≡ ok b → a ≡ b
ok-injective h = cc

pub Result-cases {ℓ} :
    {A : Type ℓ} (m : Result A) → ((a : A) × (m ≡ ok a)) ⊎ ((e : Error) × (m ≡ err e))
Result-cases (ok a) = inl (a, refl)
Result-cases (err e) = inr (e, refl)
