-- ===== src/Tests/LiveSession.antt =====
-- The session lock with two lots and two sessions, and the life of a session.
use aieas_backend.Prelude.{pos, false, ◌≡◌, inl, inr, refl, arith, [], ◌∷◌, lookup, insert, nat_eq}
use aieas_backend.LiveSession.Lock.{Lock, acquire, release, current, maybe_expiry, has_expired}
use aieas_backend.LiveSession.Exclusion.{Others, acquires, releases, lock_excludes}

-- Lot 7 holds session 1 up to the time 600, and lot 9 takes session 2.
abbrev held : Lock
held = (1, record { auction_id = 7; expires_at = 600 }) ∷ []

abbrev two_held : Lock
two_held =
    (1, record { auction_id = 7; expires_at = 600 })
    ∷ (2, record { auction_id = 9; expires_at = 0 })
    ∷ []

lock_excludes_example :
    (acquire two_held 600 1 8 (pos 500) ≡ (two_held, false, 7))
    × (current two_held 600 1 ≡ (two_held, 7))
unfolding acquire maybe_expiry has_expired lookup insert release
lock_excludes_example =
    lock_excludes [] two_held 100 600 1 7 8 (pos 500) (pos 500) 600 refl (inr (omega arith))
      (Others.next
        (Others.next Others.here (acquires 200 2 9 (pos 0) (omega arith) (inl (omega arith))))
        (releases 1 8 (inr (omega arith))))
      (omega arith) (omega arith)
