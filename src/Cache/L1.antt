-- ===== src/Cache/L1.antt =====
-- l1Cache of internal/infra/cache/l1.go. An element of container/list is its handle, a number that no
-- other element has had: `order` holds the elements from the front, with their entries, and `index`
-- the handle of each key. The mutex makes each method one step; `now` is the clock's answer in it.
use aieas_backend.Prelude.{
  ℕ, suc, ◌+◌, ℤ, pos, pos_part, String, Bool, not, ◌&&◌, if◌then◌else◌, Option, none, some, List,
  [], ◌∷◌, Time, is_zero_time, before, lookup, insert, delete, nat_eq, string_eq, leb_ℤ, ltb,
  length,
}

-- l1Entry
pub record CacheEntry : Type 0 where
  pub key : String
  pub raw : List ℕ
  pub negative : Bool
  pub expires_at : Time

-- l1Cache
pub record Cache : Type 0 where
  pub capacity : ℤ
  pub order : List (ℕ × CacheEntry)
  pub index : List (String × ℕ)
  -- the handle of the next element
  pub next_handle : ℕ

-- newL1Cache
unfoldable pub new_l1_cache : ℤ → Cache
new_l1_cache capacity = record {
  capacity = if leb_ℤ capacity (pos 0) then pos 1 else capacity;
  order = [];
  index = [];
  next_handle = 0;
}

-- removeElement
unfoldable pub remove_element : Cache → ℕ → Cache
remove_element c elem_id = elim (lookup elem_id c.order) [
  | none ↦ c
  | some e ↦ record c { order = delete elem_id c.order; index = delete e.key c.index }
]

-- list.Back
abbrev pub back : List (ℕ × CacheEntry) → Option ℕ
back [] = none
back ((i, e) ∷ []) = some i
back (x ∷ y ∷ l) = back (y ∷ l)

-- evictOldest
unfoldable pub evict_oldest : Cache → Cache
unfolding remove_element
evict_oldest c = elim (back c.order) [ none ↦ c | some i ↦ remove_element c i ]

unfoldable pub is_expired : CacheEntry → Time → Bool
is_expired e now = not (is_zero_time e.expires_at) && before e.expires_at now

-- An entry's value at the front of the list: MoveToFront, after a change of the value.
abbrev pub move_to_front : Cache → ℕ → CacheEntry → Cache
move_to_front c i e = record c { order = (i, e) ∷ delete i c.order }

-- get: the raw bytes and whether they stand for a known absence; none is a miss.
unfoldable pub get : Cache → Time → String → Cache × Option (List ℕ × Bool)
unfolding is_expired
get c now key = elim (lookup key c.index) [
  | none ↦ (c, none)
  | some i ↦ elim (lookup i c.order) [
    | none ↦ (c, none)
    | some e ↦
        if is_expired e now
        then (remove_element c i, none)
        else (move_to_front c i e, some (e.raw, e.negative))
  ]
]

-- The entry that set writes.
abbrev pub new_entry : Time → String → List ℕ → Bool → ℤ → CacheEntry
new_entry now key raw negative ttl = record {
  key = key;
  raw = raw;
  negative = negative;
  expires_at = if leb_ℤ ttl (pos 0) then 0 else now + pos_part ttl;
}

-- PushFront and the new key of the index.
abbrev pub pushed : Cache → CacheEntry → Cache
pushed c e = record c {
  order = (c.next_handle, e) ∷ c.order;
  index = insert e.key c.next_handle c.index;
  next_handle = suc c.next_handle;
}

-- set
unfoldable pub set : Cache → Time → String → List ℕ → Bool → ℤ → Cache
unfolding evict_oldest
set c now key raw negative ttl =
    let e = new_entry now key raw negative ttl in
    elim (lookup key c.index) [
      | some i ↦ move_to_front c i e
      | none ↦
          if ltb (pos_part c.capacity) (length (pushed c e).order)
          then evict_oldest (pushed c e)
          else pushed c e
    ]

-- The loop body of invalidate.
unfoldable pub invalidate_key : Cache → String → Cache
unfolding remove_element
invalidate_key c key = elim (lookup key c.index) [ none ↦ c | some i ↦ remove_element c i ]

-- invalidate
unfoldable pub invalidate : Cache → List String → Cache
invalidate c [] = c
invalidate c (key ∷ keys) = invalidate (invalidate_key c key) keys
