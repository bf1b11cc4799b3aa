-- ===== src/Tests/Cached.antt =====
-- A cache for two entries, of which the third drops the one last used.
use aieas_backend.Prelude.{
  pos, true, false, none, some, List, [], ◌∷◌, ◌≡◌, inr, refl, arith, lookup, insert, delete,
  nat_eq, string_eq, ◌≤◌, length,
}
use aieas_backend.Cache.L1.{
  new_l1_cache, get, set, remove_element, evict_oldest, is_expired, invalidate, invalidate_key,
}
use aieas_backend.Cache.Agreement.{Agrees}
use aieas_backend.Cache.Runs.{
  Call, gets, sets, drops, run, run_recent, after, room_of, l1_cache-Refines, get-set, after-Agrees,
}

abbrev calls : List Call
calls =
    sets 10 "a" (1 ∷ []) false (pos 0)
    ∷ sets 11 "b" (2 ∷ []) false (pos 5)
    ∷ gets 12 "a"
    ∷ sets 13 "c" [] true (pos 5)
    ∷ gets 14 "b"
    ∷ gets 14 "c"
    ∷ gets 19 "c"
    ∷ drops ("a" ∷ [])
    ∷ gets 20 "a"
    ∷ []

calls_answer :
    run (new_l1_cache (pos 2)) calls
    ≡ some (1 ∷ [], false) ∷ none ∷ some ([], true) ∷ none ∷ none ∷ []
unfolding run new_l1_cache get set remove_element evict_oldest is_expired invalidate invalidate_key
    lookup insert delete
calls_answer = refl

l1_cache-Refines_example : run (new_l1_cache (pos 2)) calls ≡ run_recent (room_of (pos 2)) [] calls
l1_cache-Refines_example = l1_cache-Refines (pos 2) calls

get-set_example :
    (get (set (after (new_l1_cache (pos 2)) calls) 30 "d" (4 ∷ []) false (pos 5)) 33 "d").1
    ≡ some (4 ∷ [], false)
get-set_example = get-set (pos 2) calls 30 33 "d" (4 ∷ []) false (pos 5) (inr (omega arith))

after-Agrees_example :
    let c = after (new_l1_cache (pos 2)) calls in (length c.order ≤ room_of (pos 2)) × (Agrees c)
after-Agrees_example = after-Agrees (pos 2) calls
