-- ===== src/Cache/Agreement.antt =====
-- The list and the index of the cache agree, and every method keeps that.
use aieas_backend.Prelude.{
  ℕ, ◌<◌, String, false, none, some, List, ◌∷◌, ◌≡◌, ◌⊎◌, inl, inr, refl, sym, ap, ◌∙◌, arith,
  lookup, delete, nat_eq, string_eq, Distinct, delete-Distinct, lookup-insert_self, lookup-delete,
  some_inj, no_value, apart, differ, kept, spared, insert_cases, passed_by, Bool-cases,
  Option-cases, ◌==◌, ==_iff,
}
use aieas_backend.Cache.L1.{Cache, CacheEntry, remove_element, move_to_front, pushed}

-- Each element has one handle, and the index has the handle of each element under its key only.
pub record Agrees (c : Cache) : Type 0 where
  pub distinct : Distinct c.order
  pub indexed : (i : ℕ) (e : CacheEntry) → lookup i c.order ≡ some e → lookup e.key c.index ≡ some i
  pub present :
      (k : String) (i : ℕ)
      → lookup k c.index ≡ some i
      → (e : CacheEntry) × (lookup i c.order ≡ some e) × (e.key ≡ k)
  pub old : (i : ℕ) (e : CacheEntry) → lookup i c.order ≡ some e → i < c.next_handle

pub removed-Agrees : (c : Cache) (i : ℕ) → Agrees c → Agrees (remove_element c i)
unfolding remove_element
removed-Agrees c i v = elim (Option-cases (lookup i c.order)) [
  | inl away ↦ rw (away, remove_element) v
  | inr (e, at) ↦
      rw (at, remove_element)
        (record {
          distinct = delete-Distinct i c.order v.distinct;
          indexed = λ j f h.
              let (other, there) = kept i j c.order f h in
              spared e.key f.key c.index j
                (apart e.key f.key (λ q. differ i j other (
                  some_inj
                    (sym (v.indexed i e at) ∙ ap (λ k. lookup k c.index) q ∙ v.indexed j f there))))
                (v.indexed j f there);
          present = λ k j h.
              let (other, there) = kept e.key k c.index j h in
              let (f, at', same) = v.present k j there in
              (
                f,
                spared i j c.order f
                    (apart i j (λ q. differ e.key k other (
                      ap (λ (x : CacheEntry). x.key)
                        (some_inj (sym at ∙ ap (λ x. lookup x c.order) q ∙ at'))
                      ∙ same)))
                    at',
                same,
              );
          old = λ j f h. v.old j f ((kept i j c.order f h).1);
        })
]

front_cases :
    (i j : ℕ) (e f : CacheEntry) (m : List (ℕ × CacheEntry))
    → lookup j ((i, e) ∷ delete i m) ≡ some f
    → ((i ≡ j) × (e ≡ f)) ⊎ (((i == j) ≡ false) × (lookup j m ≡ some f))
unfolding lookup
front_cases i j e f m h = elim (Bool-cases (i == j)) [
  | inl same ↦ inl ((==_iff i j).0 same, some_inj (rw same at h))
  | inr other ↦ inr (other, (kept i j m f (rw other at h)).1)
]

pub moved-Agrees :
    (c : Cache) (i : ℕ) (e e' : CacheEntry)
    → Agrees c
    → lookup i c.order ≡ some e
    → e'.key ≡ e.key
    → Agrees (move_to_front c i e')
unfolding lookup
moved-Agrees c i e e' v at same_key = record {
  distinct = (
    rw (lookup-delete i i c.order, (==_iff i i).1 refl) refl,
    delete-Distinct i c.order v.distinct,
  );
  indexed = λ j f h. elim (front_cases i j e' f c.order h) [
    | inl (same, q) ↦ rw (← q, same_key, ← same) (v.indexed i e at)
    | inr (other, there) ↦ v.indexed j f there
  ];
  present = λ k j h.
      let (f, there, key) = v.present k j h in
      elim (Bool-cases (i == j)) [
        | inl same ↦
            let q : e ≡ f =
              some_inj (sym at ∙ ap (λ x. lookup x c.order) ((==_iff i j).0 same) ∙ there) in
            (e', rw same refl, same_key ∙ ap (λ (x : CacheEntry). x.key) q ∙ key)
        | inr other ↦ (f, rw other (spared i j c.order f other there), key)
      ];
  old = λ j f h. elim (front_cases i j e' f c.order h) [
    | inl (same, q) ↦ rw (← same) (v.old i e at)
    | inr (other, there) ↦ v.old j f there
  ];
}

unknown_handle : (c : Cache) → Agrees c → lookup c.next_handle c.order ≡ none
unknown_handle c v = elim (Option-cases (lookup c.next_handle c.order)) [
  | inl away ↦ away
  | inr (e, at) ↦ absurd (omega (arith, v.old c.next_handle e at))
]

pub pushed-Agrees :
    (c : Cache) (e : CacheEntry) → Agrees c → lookup e.key c.index ≡ none → Agrees (pushed c e)
unfolding lookup
pushed-Agrees c e v unknown =
    let n = c.next_handle in
    record {
      distinct = (unknown_handle c v, v.distinct);
      indexed = λ j f h. elim (Bool-cases (n == j)) [
        | inl same ↦
            let q : e ≡ f = some_inj (rw same at h) in
            rw (← q, ← (==_iff n j).0 same) (lookup-insert_self e.key n c.index)
        | inr other ↦
            let there : lookup j c.order ≡ some f = rw other at h in
            passed_by e.key f.key n c.index j
              (apart e.key f.key
                (λ q. no_value (sym unknown ∙ ap (λ k. lookup k c.index) q ∙ v.indexed j f there)))
              (v.indexed j f there)
      ];
      present = λ k j h. elim (insert_cases e.key k n c.index j h) [
        | inl (same, q) ↦ (e, rw (← q, (==_iff n n).1 refl) refl, same)
        | inr (_, known) ↦
            let (f, there, key) = v.present k j known in
            let less = v.old j f there in
            let other : (n == j) ≡ false = ground (arith, less, ==_iff n j) in
            (f, rw other there, key)
      ];
      old = λ j f h. elim (Bool-cases (n == j)) [
        | inl same ↦ ground (arith, ==_iff n j)
        | inr other ↦
            let there : lookup j c.order ≡ some f = rw other at h in omega (arith, v.old j f there)
      ];
    }
