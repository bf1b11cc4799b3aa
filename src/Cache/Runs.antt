-- ===== src/Cache/Runs.antt =====
-- Any sequence of calls of the cache.
use aieas_backend.Prelude.{
  ℕ, zero, suc, ◌+◌, ◌≤◌, ℤ, pos, pos_part, String, Bool, false, if◌then◌else◌, Option, some, List,
  [], ◌∷◌, Time, ◌≡◌, ◌⊎◌, refl, ap, ◌∙◌, arith, lookup, nat_eq, string_eq, no_value, leb_ℤ, length,
  eq_iff,
}
use aieas_backend.Cache.L1.{
  Cache, CacheEntry, new_l1_cache, get, set, new_entry, is_expired, invalidate,
}
use aieas_backend.Cache.Agreement.{Agrees}
use aieas_backend.Cache.Recency.{values, find, recent_get, recent_set, recent_invalidate}
use aieas_backend.Cache.Refinement.{Valid, get-Refines, set-Refines, invalidate-Refines}

-- Calls of the cache, and their answers.
pub data Call : Type 0 where
  gets : Time → String → Call
  sets : Time → String → List ℕ → Bool → ℤ → Call
  drops : List String → Call

unfoldable pub run : Cache → List Call → List (Option (List ℕ × Bool))
run c [] = []
run c (gets now k ∷ l) = (get c now k).1 ∷ run (get c now k).0 l
run c (sets now k raw negative ttl ∷ l) = run (set c now k raw negative ttl) l
run c (drops ks ∷ l) = run (invalidate c ks) l

unfoldable pub run_recent : ℕ → List CacheEntry → List Call → List (Option (List ℕ × Bool))
run_recent n r [] = []
run_recent n r (gets now k ∷ l) = (recent_get r now k).1 ∷ run_recent n (recent_get r now k).0 l
run_recent n r (sets now k raw negative ttl ∷ l) =
    run_recent n (recent_set n (new_entry now k raw negative ttl) r) l
run_recent n r (drops ks ∷ l) = run_recent n (recent_invalidate r ks) l

run-Refines :
    (n : ℕ) (c : Cache) (l : List Call) → Valid n c → run c l ≡ run_recent n (values c.order) l
unfolding run run_recent
run-Refines n c [] v = refl
run-Refines n c (gets now k ∷ l) v =
    let (w, same) = get-Refines n c now k v in
    let state = ap (λ (x : List CacheEntry × Option (List ℕ × Bool)). x.0) same in
    let answer = ap (λ (x : List CacheEntry × Option (List ℕ × Bool)). x.1) same in
    rw (← state, ← answer) (ap (λ r. (get c now k).1 ∷ r) (run-Refines n (get c now k).0 l w))
run-Refines n c (sets now k raw negative ttl ∷ l) v =
    let (w, same) = set-Refines n c now k raw negative ttl v in
    run-Refines n (set c now k raw negative ttl) l w ∙ ap (λ r. run_recent n r l) same
run-Refines n c (drops ks ∷ l) v =
    let (w, same) = invalidate-Refines n c ks v in
    run-Refines n (invalidate c ks) l w ∙ ap (λ r. run_recent n r l) same

unfoldable pub room_of : ℤ → ℕ
room_of capacity = if leb_ℤ capacity (pos 0) then 1 else pos_part capacity

room_of_pos : (capacity : ℤ) → 1 ≤ room_of capacity
unfolding room_of
room_of_pos capacity = ground arith

new-Valid : (capacity : ℤ) → Valid (room_of capacity) (new_l1_cache capacity)
unfolding new_l1_cache room_of lookup
new-Valid capacity = record {
  agrees = record {
    distinct = tt;
    indexed = λ i e h. no_value h;
    present = λ k i h. no_value h;
    old = λ i e h. no_value h;
  };
  limit = ground arith;
  bounded = omega arith;
}

-- Any sequence of calls gets from a new cache the answers that the list of recent entries gives,
-- which keeps the entries last used, at most the capacity of them, and 1 where that is not positive.
pub l1_cache-Refines :
    (capacity : ℤ) (l : List Call)
    → run (new_l1_cache capacity) l ≡ run_recent (room_of capacity) [] l
unfolding new_l1_cache
l1_cache-Refines capacity l =
    run-Refines (room_of capacity) (new_l1_cache capacity) l (new-Valid capacity)

unfoldable pub after : Cache → List Call → Cache
after c [] = c
after c (gets now k ∷ l) = after (get c now k).0 l
after c (sets now k raw negative ttl ∷ l) = after (set c now k raw negative ttl) l
after c (drops ks ∷ l) = after (invalidate c ks) l

after-Valid : (n : ℕ) (c : Cache) (l : List Call) → Valid n c → Valid n (after c l)
unfolding after
after-Valid n c [] v = v
after-Valid n c (gets now k ∷ l) v = after-Valid n (get c now k).0 l ((get-Refines n c now k v).0)
after-Valid n c (sets now k raw negative ttl ∷ l) v =
    after-Valid n (set c now k raw negative ttl) l ((set-Refines n c now k raw negative ttl v).0)
after-Valid n c (drops ks ∷ l) v =
    after-Valid n (invalidate c ks) l ((invalidate-Refines n c ks v).0)

found_in_front :
    (n : ℕ) (now : Time) (e : CacheEntry) (r : List CacheEntry)
    → 1 ≤ n
    → is_expired e now ≡ false
    → (recent_get (recent_set n e r) now e.key).1 ≡ some (e.raw, e.negative)
found_in_front zero now e r some_room fresh = absurd (omega (arith, some_room))
found_in_front (suc n) now e r some_room fresh =
    let found : find e.key (recent_set (suc n) e r) ≡ some e =
      rw ((eq_iff e.key e.key).1 refl) refl in
    rw (found, recent_get, fresh) refl

lasts :
    (now later : Time) (k : String) (raw : List ℕ) (negative : Bool) (ttl : ℤ)
    → (pos_part ttl ≡ 0) ⊎ (later ≤ now + pos_part ttl)
    → is_expired (new_entry now k raw negative ttl) later ≡ false
unfolding is_expired
lasts now later k raw negative ttl h = ground (arith, h)

-- What is written into a cache that any calls have made of a new one is what the next call reads
-- under its key, as long as the clock is not past the time to live; one that is not positive never
-- runs out.
pub get-set :
    (capacity : ℤ) (l : List Call) (now later : Time) (k : String) (raw : List ℕ) (negative : Bool)
    (ttl : ℤ)
    → (pos_part ttl ≡ 0) ⊎ (later ≤ now + pos_part ttl)
    → let c = after (new_l1_cache capacity) l in
      (get (set c now k raw negative ttl) later k).1 ≡ some (raw, negative)
get-set capacity l now later k raw negative ttl h =
    let n = room_of capacity in
    let e = new_entry now k raw negative ttl in
    let c = after (new_l1_cache capacity) l in
    let v = after-Valid n (new_l1_cache capacity) l (new-Valid capacity) in
    let (w, same) = set-Refines n c now k raw negative ttl v in
    let (_, answer) = get-Refines n (set c now k raw negative ttl) later k w in
    ap (λ (x : List CacheEntry × Option (List ℕ × Bool)). x.1) answer
    ∙ ap (λ r. (recent_get r later k).1) same
    ∙ found_in_front n later e (values c.order) (room_of_pos capacity)
        (lasts now later k raw negative ttl h)

-- After any calls of a new cache its list has at most as many entries as it has room for, the index
-- has the element of each key, and no key of another.
pub after-Agrees :
    (capacity : ℤ) (l : List Call)
    → let c = after (new_l1_cache capacity) l in (length c.order ≤ room_of capacity) × (Agrees c)
after-Agrees capacity l =
    let v = after-Valid (room_of capacity) (new_l1_cache capacity) l (new-Valid capacity) in
    (v.bounded, v.agrees)
