-- ===== src/Prelude/Clock.antt =====
-- Go's time.Time as the nanoseconds since the first instant of year 1, its zero value.
use Prim.Native.Nat.{ℕ, ◌+◌, ◌-◌, ◌*◌, ◌/◌, ◌≤◌}
use mathlib.Core.Path.{◌≡◌}
use mathlib.Core.Bool.{Bool}
use native.Mathlib.Omega.{arith}
use aieas_backend.Prelude.Tests.{ltb, ◌==◌}
use aieas_backend.Prelude.Int.{ℤ, pos_part, neg_part, sub_ℕ}

abbrev pub Time : Type 0
Time = ℕ

-- Milliseconds from year 1 to 1970.
abbrev pub unix_epoch_ms : ℕ
unix_epoch_ms = 62135596800000

abbrev pub is_zero_time : Time → Bool
is_zero_time t = t == 0

abbrev pub before : Time → Time → Bool
before t u = ltb t u

-- t.UnixMilli()
unfoldable pub unix_milli : Time → ℤ
unix_milli t = sub_ℕ (t / 1000000) unix_epoch_ms

-- time.UnixMilli(ms), for instants from year 1 on.
unfoldable pub from_unix_milli : ℤ → Time
from_unix_milli ms = (unix_epoch_ms + pos_part ms - neg_part ms) * 1000000

pub unix_milli-from_unix_milli :
    (ms : ℤ) → neg_part ms ≤ unix_epoch_ms → unix_milli (from_unix_milli ms) ≡ ms
unfolding unix_milli from_unix_milli
unix_milli-from_unix_milli ms h = ground arith
