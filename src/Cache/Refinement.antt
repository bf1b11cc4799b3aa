-- ===== src/Cache/Refinement.antt =====
-- Every method of the cache does what the list of recent entries says, within the capacity.
use aieas_backend.Prelude.{
  ℕ, ◌≤◌, ◌<◌, ℤ, pos_part, String, Bool, none, some, List, [], ◌∷◌, Time, ◌≡◌, inl, inr, refl, sym,
  ap, ◌∙◌, arith, lookup, nat_eq, string_eq, Bool-cases, Option-cases, ltb, length, take,
}
use aieas_backend.Cache.L1.{
  Cache, CacheEntry, remove_element, evict_oldest, move_to_front, get, set, new_entry, pushed,
  is_expired, invalidate, invalidate_key,
}
use aieas_backend.Cache.Agreement.{Agrees, removed-Agrees, moved-Agrees, pushed-Agrees}
use aieas_backend.Cache.Recency.{
  values, without, recent_get, recent_set, recent_invalidate, values-delete, find-values,
  find-Nowhere, only_at, nowhere,
}
use aieas_backend.Cache.Sizes.{
  length-delete, length-delete_present, back_present, values-delete-back, fits,
}

-- A cache for n entries.
pub record Valid (n : ℕ) (c : Cache) : Type 0 where
  pub agrees : Agrees c
  pub limit : pos_part c.capacity ≡ n
  pub bounded : length c.order ≤ n

values-removed :
    (c : Cache) (k : String) (i : ℕ)
    → Agrees c
    → lookup k c.index ≡ some i
    → values (remove_element c i).order ≡ without k (values c.order)
unfolding remove_element
values-removed c k i v known =
    let (e, at, key) = v.present k i known in
    rw (at, remove_element) (values-delete i k c.order v.distinct (only_at c k i v known))

removed_bounded :
    (n : ℕ) (c : Cache) (i : ℕ)
    → length c.order ≤ n
    → (length (remove_element c i).order ≤ n) × ((remove_element c i).capacity ≡ c.capacity)
unfolding remove_element
removed_bounded n c i h = elim (Option-cases (lookup i c.order)) [
  | inl away ↦ rw (away, remove_element) (h, refl)
  | inr (e, at) ↦ rw (at, remove_element) (omega (arith, h, length-delete i c.order), refl)
]

-- A known element comes to the front with a value under its key.
moved-Valid :
    (n : ℕ) (c : Cache) (i : ℕ) (e e' : CacheEntry)
    → Valid n c
    → lookup i c.order ≡ some e
    → e'.key ≡ e.key
    → Valid n (move_to_front c i e')
moved-Valid n c i e e' v at same = record {
  agrees = moved-Agrees c i e e' v.agrees at same;
  limit = v.limit;
  bounded = omega (arith, v.bounded, length-delete_present i e c.order at);
}

removed-Valid : (n : ℕ) (c : Cache) (i : ℕ) → Valid n c → Valid n (remove_element c i)
removed-Valid n c i v = record {
  agrees = removed-Agrees c i v.agrees;
  limit = ap pos_part ((removed_bounded n c i v.bounded).1) ∙ v.limit;
  bounded = (removed_bounded n c i v.bounded).0;
}

pub get-Refines :
    (n : ℕ) (c : Cache) (now : Time) (k : String)
    → Valid n c
    → Valid n (get c now k).0
      × ((values (get c now k).0.order, (get c now k).1) ≡ recent_get (values c.order) now k)
unfolding get
get-Refines n c now k v = elim (Option-cases (lookup k c.index)) [
  | inl unknown ↦
      let (none_found, _) =
        find-Nowhere k c.order v.agrees.distinct (nowhere c k v.agrees unknown) in
      rw (unknown, get, recent_get, none_found) (v, refl)
  | inr (i, known) ↦
      let (e, at, key) = v.agrees.present k i known in
      let found = find-values i k e c.order v.agrees.distinct (only_at c k i v.agrees known) at in
      elim (Bool-cases (is_expired e now)) [
        | inl late ↦
            rw (known, at, get, recent_get, found, late)
              (removed-Valid n c i v, ap (λ l. (l, none)) (values-removed c k i v.agrees known))
        | inr fresh ↦
            rw (known, at, get, recent_get, found, fresh)
              (
                moved-Valid n c i e e v at refl,
                ap (λ l. (e ∷ l, some (e.raw, e.negative)))
                    (values-delete i k c.order v.agrees.distinct (only_at c k i v.agrees known)),
              )
      ]
]

values-pushed :
    (n : ℕ) (c : Cache) (e : CacheEntry)
    → Valid n c
    → lookup e.key c.index ≡ none
    → e ∷ without e.key (values c.order) ≡ values (pushed c e).order
values-pushed n c e v unknown =
    ap (λ l. e ∷ l)
      ((find-Nowhere e.key c.order v.agrees.distinct (nowhere c e.key v.agrees unknown)).1)

-- Too many elements by one: the last goes.
evicted-Refines :
    (n : ℕ) (c : Cache) (e : CacheEntry)
    → Valid n c
    → lookup e.key c.index ≡ none
    → n < length (pushed c e).order
    → Valid n (evict_oldest (pushed c e))
      × (values (evict_oldest (pushed c e)).order ≡ recent_set n e (values c.order))
unfolding evict_oldest remove_element
evicted-Refines n c e v unknown over =
    let w = pushed-Agrees c e v.agrees unknown in
    let (i, f, last, at) = back_present (c.next_handle, e) c.order in
    let full : length c.order ≡ n = omega (arith, v.bounded, over) in
    rw (last, at, evict_oldest, remove_element)
      (
        record {
          agrees = (let r = removed-Agrees (pushed c e) i w in rw (at, remove_element) at r);
          limit = v.limit;
          bounded = omega (arith, over, full, length-delete_present i f (pushed c e).order at);
        },
        values-delete-back (c.next_handle, e) c.order i w.distinct last
            ∙ rw (full, ← values-pushed n c e v unknown) refl,
      )

pub set-Refines :
    (n : ℕ) (c : Cache) (now : Time) (k : String) (raw : List ℕ) (negative : Bool) (ttl : ℤ)
    → Valid n c
    → Valid n (set c now k raw negative ttl)
      × (values (set c now k raw negative ttl).order
          ≡ recent_set n (new_entry now k raw negative ttl) (values c.order))
unfolding set
set-Refines n c now k raw negative ttl v =
    let e = new_entry now k raw negative ttl in
    elim (Option-cases (lookup k c.index)) [
      | inr (i, known) ↦
          let (f, at, key) = v.agrees.present k i known in
          let w = moved-Valid n c i f e v at (sym key) in
          let same =
            ap (λ l. e ∷ l)
              (values-delete i k c.order v.agrees.distinct (only_at c k i v.agrees known)) in
          rw (known, set) (w, fits n (move_to_front c i e).order w.bounded ∙ ap (take n) same)
      | inl unknown ↦ elim (Bool-cases (ltb (pos_part c.capacity) (length (pushed c e).order))) [
        | inl over ↦
            rw (unknown, set, over)
              (evicted-Refines n c e v unknown (ground (arith, v.limit, over)))
        | inr room ↦
            let short : length (pushed c e).order ≤ n = ground (arith, v.limit, room) in
            rw (unknown, set, room)
              (
                record {
                  agrees = pushed-Agrees c e v.agrees unknown;
                  limit = v.limit;
                  bounded = short;
                },
                fits n (pushed c e).order short ∙ ap (take n) (sym (values-pushed n c e v unknown)),
              )
      ]
    ]

invalidate_key-Refines :
    (n : ℕ) (c : Cache) (k : String)
    → Valid n c
    → Valid n (invalidate_key c k)
      × (values (invalidate_key c k).order ≡ without k (values c.order))
unfolding invalidate_key
invalidate_key-Refines n c k v = elim (Option-cases (lookup k c.index)) [
  | inl unknown ↦
      rw (unknown, invalidate_key)
        (v, sym ((find-Nowhere k c.order v.agrees.distinct (nowhere c k v.agrees unknown)).1))
  | inr (i, known) ↦
      rw (known, invalidate_key) (removed-Valid n c i v, values-removed c k i v.agrees known)
]

pub invalidate-Refines :
    (n : ℕ) (c : Cache) (ks : List String)
    → Valid n c
    → Valid n (invalidate c ks)
      × (values (invalidate c ks).order ≡ recent_invalidate (values c.order) ks)
unfolding invalidate
invalidate-Refines n c [] v = (v, refl)
invalidate-Refines n c (k ∷ ks) v =
    let (w, same) = invalidate_key-Refines n c k v in
    let (w', same') = invalidate-Refines n (invalidate_key c k) ks w in
    (w', same' ∙ ap (λ l. recent_invalidate l ks) same)
