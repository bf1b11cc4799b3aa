-- ===== src/Tests/Ids.antt =====
-- The theorems on identifiers at a clock that stands still and then runs.
use aieas_backend.Prelude.{
  ℕ, zero, suc, ◌<◌, ℤ, pos, negsuc, ◌≤ℤ◌, ◌≡◌, ◌≢◌, refl, arith, some, sub64, add64, wrap64, ◌-ℤ◌,
  ◌+ℤ◌,
}
use aieas_backend.Ids.Bits.{bit_or}
use aieas_backend.Ids.Snowflake.{
  Snowflake, next_id, advance, stamp, wait_until, compose, gives, extract_type, extract_worker_id,
}
use aieas_backend.Ids.Layout.{extract-compose}
use aieas_backend.Ids.Order.{IsClock}
use aieas_backend.Ids.Increase.{Calls, here, give, ids_increase}
use aieas_backend.Ids.Waiting.{wait_until_ends}

-- Two readings of one second, a step back, and the second after.
abbrev clock : ℕ → ℤ
clock zero = pos 1767225700
clock (suc zero) = pos 1767225700
clock (suc (suc zero)) = pos 1767225698
clock (suc (suc (suc zero))) = pos 1767225699
clock _ = pos 1767225701

clock-IsClock : IsClock clock
clock-IsClock zero = (omega arith, omega arith)
clock-IsClock (suc zero) = (omega arith, omega arith)
clock-IsClock (suc (suc zero)) = (omega arith, omega arith)
clock-IsClock (suc (suc (suc zero))) = (omega arith, omega arith)
clock-IsClock (suc (suc (suc (suc n)))) = (omega arith, omega arith)

abbrev fresh_generator : Snowflake
fresh_generator = record { worker_id = 3; last_sec = negsuc 0; seq = 0 }

abbrev at_100 : ℕ → Snowflake
at_100 seq = record { worker_id = 3; last_sec = pos 1767225700; seq = seq }

-- Opens what Next computes with.
unfoldable running_ids : Unit {0}
unfolding next_id advance stamp wait_until compose bit_or sub64 add64 wrap64 ◌-ℤ◌ ◌+ℤ◌ extract_type
    extract_worker_id
running_ids = tt

first_call : next_id clock 9 fresh_generator 1 0 ≡ gives 419563008 (at_100 0) 1
unfolding running_ids
first_call = refl

between-Calls : Calls clock 9 (at_100 0) (at_100 1)
unfolding running_ids
between-Calls = give 3 1 2 419825153 here refl

-- The clock has gone back by two seconds, and the generator waits.
third_call :
    next_id clock 9 (at_100 1) 1 2
    ≡ gives 423757312 (record { worker_id = 3; last_sec = pos 1767225701; seq = 0 }) 5
unfolding running_ids
third_call = refl

abbrev first_id : ℕ
first_id = 419563008

abbrev third_id : ℕ
third_id = 423757312

abbrev auction_type : ℕ
auction_type = 1

ids_increase_example : (first_id ≢ third_id) × (auction_type ≡ auction_type → first_id < third_id)
ids_increase_example =
    ids_increase clock 9 fresh_generator (at_100 0) (at_100 1)
      (record { worker_id = 3; last_sec = pos 1767225701; seq = 0 }) 1 1 0 2 1 5 419563008 423757312
      clock-IsClock (omega arith, omega arith, (omega arith, omega arith)) first_call between-Calls
      third_call

extract-compose_example :
    (extract_type (compose 100 3 7 5) ≡ 3) × (extract_worker_id (compose 100 3 7 5) ≡ 7)
extract-compose_example =
    extract-compose 100 3 7 5 (omega arith, omega arith, omega arith, omega arith)

wait_until_ends_example :
    (second : ℤ) × (k' : ℕ) × (wait_until clock 3 2 (pos 1767225700) ≡ some (second, k'))
    × (pos 1767225700 ≤ℤ second)
    × (k' < 6)
wait_until_ends_example = wait_until_ends clock 3 2 2 (pos 1767225700) (omega arith) (omega arith)
