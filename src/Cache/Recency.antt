-- ===== src/Cache/Recency.antt =====
-- The cache as the list of its entries, the last used first, of which it keeps a bounded number.
use aieas_backend.Prelude.{
  ℕ, String, Bool, if◌then◌else◌, Option, none, some, List, [], ◌∷◌, Time, ◌≡◌, inl, inr, refl, sym,
  ap, ◌∙◌, lookup, delete, nat_eq, string_eq, str_eq, Distinct, some_inj, no_value, apart, differ,
  Bool-cases, take, ◌==◌, ==_iff, eq_iff,
}
use aieas_backend.Cache.L1.{Cache, CacheEntry, is_expired}
use aieas_backend.Cache.Agreement.{Agrees}

abbrev pub values : List (ℕ × CacheEntry) → List CacheEntry
values [] = []
values ((i, e) ∷ m) = e ∷ values m

-- What the cache promises, on the entries alone.
abbrev pub find : String → List CacheEntry → Option CacheEntry
find k [] = none
find k (e ∷ l) = if str_eq e.key k then some e else find k l

abbrev pub without : String → List CacheEntry → List CacheEntry
without k [] = []
without k (e ∷ l) = let rest = without k l in if str_eq e.key k then rest else e ∷ rest

-- A read finds the entry of the key that has not expired and brings it to the front.
abbrev pub recent_get : List CacheEntry → Time → String → List CacheEntry × Option (List ℕ × Bool)
recent_get l now k = elim (find k l) [
  | none ↦ (l, none)
  | some e ↦
      if is_expired e now then (without k l, none) else (e ∷ without k l, some (e.raw, e.negative))
]

-- A write puts its entry in front of the others and keeps as many as there is room for.
abbrev pub recent_set : ℕ → CacheEntry → List CacheEntry → List CacheEntry
recent_set room e l = take room (e ∷ without e.key l)

abbrev pub recent_invalidate : List CacheEntry → List String → List CacheEntry
recent_invalidate l [] = l
recent_invalidate l (k ∷ ks) = recent_invalidate (without k l) ks

behind_head :
    (j i : ℕ) (w e : CacheEntry) (m : List (ℕ × CacheEntry))
    → lookup j m ≡ none
    → lookup i m ≡ some e
    → lookup i ((j, w) ∷ m) ≡ some e
unfolding lookup
behind_head j i w e m n h = rw (apart j i (λ q. no_value (sym n ∙ ap (λ x. lookup x m) q ∙ h))) h

-- Only the handle i has the key k.
abbrev pub OnlyAt : ℕ → String → List (ℕ × CacheEntry) → Type 0
OnlyAt i k m =
    (j : ℕ) (e : CacheEntry) → lookup j m ≡ some e → ((j ≡ i → e.key ≡ k) × (e.key ≡ k → j ≡ i))

pub values-delete :
    (i : ℕ) (k : String) (m : List (ℕ × CacheEntry))
    → Distinct m
    → OnlyAt i k m
    → values (delete i m) ≡ without k (values m)
unfolding delete lookup
values-delete i k [] d h = refl
values-delete i k ((j, w) ∷ m) (n, d) h =
    let tail = values-delete i k m d (λ x e at. h x e (behind_head j x w e m n at)) in
    let (forth, returns) = h j w (rw ((==_iff j j).1 refl) refl) in
    elim (Bool-cases (j == i)) [
      | inl same ↦ rw (same, (eq_iff w.key k).1 (forth ((==_iff j i).0 same))) tail
      | inr other ↦
          rw (other, apart w.key k (λ q. differ j i other (returns q))) (ap (λ l. w ∷ l) tail)
    ]

pub find-values :
    (i : ℕ) (k : String) (e : CacheEntry) (m : List (ℕ × CacheEntry))
    → Distinct m
    → OnlyAt i k m
    → lookup i m ≡ some e
    → find k (values m) ≡ some e
unfolding lookup
find-values i k e [] d h at = no_value at
find-values i k e ((j, w) ∷ m) (n, d) h at =
    let (forth, returns) = h j w (rw ((==_iff j j).1 refl) refl) in
    elim (Bool-cases (j == i)) [
      | inl same ↦ rw ((eq_iff w.key k).1 (forth ((==_iff j i).0 same))) (rw same at at)
      | inr other ↦ rw (apart w.key k (λ q. differ j i other (returns q))) (
          find-values i k e m d (λ x f there. h x f (behind_head j x w f m n there))
            (rw other at at))
    ]

abbrev pub Nowhere : String → List (ℕ × CacheEntry) → Type 0
Nowhere k m = (j : ℕ) (e : CacheEntry) → lookup j m ≡ some e → e.key ≡ k → ⊥

pub find-Nowhere :
    (k : String) (m : List (ℕ × CacheEntry))
    → Distinct m
    → Nowhere k m
    → (find k (values m) ≡ none) × (without k (values m) ≡ values m)
unfolding lookup
find-Nowhere k [] d h = (refl, refl)
find-Nowhere k ((j, w) ∷ m) (n, d) h =
    let (p, q) = find-Nowhere k m d (λ x e at. h x e (behind_head j x w e m n at)) in
    let other = apart w.key k (h j w (rw ((==_iff j j).1 refl) refl)) in
    (rw other p, rw other (ap (λ l. w ∷ l) q))

pub only_at :
    (c : Cache) (k : String) (i : ℕ) → Agrees c → lookup k c.index ≡ some i → OnlyAt i k c.order
only_at c k i v known j e at =
    let (f, there, key) = v.present k i known in
    (
      (λ q.
          ap (λ (x : CacheEntry). x.key) (some_inj (sym at ∙ ap (λ x. lookup x c.order) q ∙ there))
          ∙ key),
      (λ q. some_inj (sym (v.indexed j e at) ∙ ap (λ x. lookup x c.index) q ∙ known)),
    )

pub nowhere : (c : Cache) (k : String) → Agrees c → lookup k c.index ≡ none → Nowhere k c.order
nowhere c k v unknown j e at q =
    no_value (sym unknown ∙ ap (λ x. lookup x c.index) (sym q) ∙ v.indexed j e at)
