-- ===== src/Ids/Snowflake.antt =====
-- The generator of internal/infra/idgen/snowflake.go. The clock is the sequence of the seconds
-- (Unix time) that it answers, one at each reading; `k` counts the readings so far. A mutex makes
-- each Next one step.
use aieas_backend.Prelude.{
  ℕ, zero, suc, ◌+◌, ◌*◌, ◌/◌, ◌%◌, ℤ, pos, negsuc, ◌||◌, if◌then◌else◌, ◌==◌, ltb, ltb_ℤ, eqb_ℤ,
  sub64, add64, pos_part, Option, none, some, two_64,
}
use aieas_backend.Ids.Bits.{bit_or, power}

-- 2026-01-01T00:00:00Z
abbrev pub epoch : ℤ
epoch = pos 1767225600

abbrev pub max_id_type : ℕ
max_id_type = 31

abbrev pub max_worker : ℕ
max_worker = 255

abbrev pub max_seq : ℕ
max_seq = 511

abbrev pub max_elapsed : ℕ
max_elapsed = 2147483647

pub record Snowflake : Type 0 where
  pub worker_id : ℕ
  pub last_sec : ℤ
  pub seq : ℕ

-- NewSnowflakeWithClock
unfoldable pub new_snowflake : ℤ → Option Snowflake
new_snowflake worker =
    if ltb_ℤ worker (pos 0) || ltb_ℤ (pos max_worker) worker
    then none
    else some (record { worker_id = pos_part worker; last_sec = negsuc 0; seq = 0 })

-- waitUntil, with at most `fuel` further readings: the second that it returns, and the number of
-- readings then.
unfoldable pub wait_until : (ℕ → ℤ) → ℕ → ℕ → ℤ → Option (ℤ × ℕ)
wait_until clock zero k target = none
wait_until clock (suc fuel) k target =
    let rest = wait_until clock fuel (suc k) target in
    if ltb_ℤ (clock k) target then rest else some (clock k, suc k)

pub data IdError : Type 0 where
  bad_type clock_moved_backwards before_epoch timestamp_overflow : IdError

pub data Next : Type 0 where
  -- the clock has not reached the awaited second within the fuel
  waits : Next
  fails : IdError → Snowflake → ℕ → Next
  gives : ℕ → Snowflake → ℕ → Next

-- The identifier from its four parts; shifts within 64 bits lose nothing here.
unfoldable pub compose : ℕ → ℕ → ℕ → ℕ → ℕ
unfolding bit_or
compose elapsed id_type worker seq =
    bit_or 64
      (bit_or 64 (bit_or 64 (elapsed * power 22 % two_64) (id_type * power 17)) (worker * power 9))
      seq

-- The end of Next, once the second and the sequence number are settled.
unfoldable pub stamp : Snowflake → ℤ → ℕ → ℕ → ℕ → Next
unfolding compose
stamp g second seq id_type k =
    let g' : Snowflake = record g { last_sec = second; seq = seq } in
    let elapsed = sub64 second epoch in
    if ltb_ℤ elapsed (pos 0)
    then fails before_epoch g' k
    else if ltb_ℤ (pos max_elapsed) elapsed
    then fails timestamp_overflow g' k
    else gives (compose (pos_part elapsed) id_type g.worker_id seq) g' k

-- The sequence number within the second, with the wait for the next second when they run out.
unfoldable pub advance : (ℕ → ℤ) → ℕ → Snowflake → ℤ → ℕ → ℕ → Next
unfolding wait_until stamp
advance clock fuel g second id_type k =
    if eqb_ℤ second g.last_sec
    then if ltb max_seq (g.seq + 1)
      then elim (wait_until clock fuel k (add64 g.last_sec (pos 1))) [
        | none ↦ waits
        | some (later, k') ↦ stamp g later 0 id_type k'
      ]
      else stamp g second (g.seq + 1) id_type k
    else stamp g second 0 id_type k

-- Snowflake.Next
unfoldable pub next_id : (ℕ → ℤ) → ℕ → Snowflake → ℕ → ℕ → Next
unfolding wait_until advance
next_id clock fuel g id_type k =
    if id_type == 0 || ltb max_id_type id_type
    then fails bad_type g k
    else if ltb_ℤ (clock k) g.last_sec
    then if ltb_ℤ (pos 5) (sub64 g.last_sec (clock k))
      then fails clock_moved_backwards g (suc k)
      else elim (wait_until clock fuel (suc k) g.last_sec) [
        | none ↦ waits
        | some (second, k') ↦ advance clock fuel g second id_type k'
      ]
    else advance clock fuel g (clock k) id_type (suc k)

-- NextAuctionID and NextOrderID
unfoldable pub next_auction_id : (ℕ → ℤ) → ℕ → Snowflake → ℕ → Next
unfolding next_id
next_auction_id clock fuel g k = next_id clock fuel g 1 k

unfoldable pub next_order_id : (ℕ → ℤ) → ℕ → Snowflake → ℕ → Next
unfolding next_id
next_order_id clock fuel g k = next_id clock fuel g 3 k

-- ExtractType and ExtractWorkerID; `&` with a mask of k ones is the remainder by 2 ^ k.
unfoldable pub extract_type : ℕ → ℕ
extract_type id = id / power 17 % 32

unfoldable pub extract_worker_id : ℕ → ℕ
extract_worker_id id = id / power 9 % 256
