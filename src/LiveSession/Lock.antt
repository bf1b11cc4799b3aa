-- ===== src/LiveSession/Lock.antt =====
-- MemoryLiveSessionLock: at most one lot of a session is on auction. A mutex makes each operation
-- one step; `now` is the clock's answer in it.
use aieas_backend.Prelude.{
  ℕ, ◌+◌, ℤ, pos, Bool, true, false, not, ◌&&◌, ◌==◌, if◌then◌else◌, none, some, List, Time,
  is_zero_time, before, leb_ℤ, pos_part, lookup, insert, delete, nat_eq,
}

pub record LockEntry : Type 0 where
  pub auction_id : ℕ
  pub expires_at : Time

abbrev pub Lock : Type 0
Lock = List (ℕ × LockEntry)

-- maybeExpiry; a duration is in nanoseconds
unfoldable pub maybe_expiry : Time → ℤ → Time
maybe_expiry now ttl = if leb_ℤ ttl (pos 0) then 0 else now + pos_part ttl

unfoldable pub has_expired : LockEntry → Time → Bool
has_expired e now = not (is_zero_time e.expires_at) && before e.expires_at now

-- Acquire, with whether it was granted and to which lot the session belongs.
unfoldable pub acquire : Lock → Time → ℕ → ℕ → ℤ → Lock × Bool × ℕ
unfolding maybe_expiry has_expired
acquire l now session auction ttl =
    let mine : LockEntry = record { auction_id = auction; expires_at = maybe_expiry now ttl } in
    elim (lookup session l) [
      | none ↦ (insert session mine l, true, auction)
      | some e ↦
          if has_expired e now
          then (insert session mine (delete session l), true, auction)
          else if e.auction_id == auction
          then (insert session mine l, true, auction)
          else (l, false, e.auction_id)
    ]

-- Release
unfoldable pub release : Lock → ℕ → ℕ → Lock
release l session auction = elim (lookup session l) [
  | none ↦ l
  | some e ↦ if e.auction_id == auction then delete session l else l
]

-- Current, which also drops an expired entry.
unfoldable pub current : Lock → Time → ℕ → Lock × ℕ
unfolding has_expired
current l now session = elim (lookup session l) [
  | none ↦ (l, 0)
  | some e ↦ if has_expired e now then (delete session l, 0) else (l, e.auction_id)
]
