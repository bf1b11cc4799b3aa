-- ===== src/Realtime/Store/Ranking.antt =====
-- What TopN answers: the best rows of the ranking, in order.
use aieas_backend.Prelude.{
  ℕ, ◌+◌, ◌≤◌, ℤ, pos, String, true, false, some, List, [], ◌∷◌, ◌≡◌, ◌⊎◌, inl, inr, refl, ◌∙◌,
  arith, lookup, nat_eq, string_eq, All, Among, Ordered, sort_by, sort_by-Among, Among-sort_by,
  sort_by-Ordered, take-Ordered, take-Among, take_cases, length, length-take, ◌<ℤ◌, ◌≤ℤ◌,
  eq_of_parts,
}
use aieas_backend.Domain.Bid.{RankingEntry}
use aieas_backend.Realtime.Entry.{Entry, Standing}
use aieas_backend.Realtime.Store.{Store, top_n, top_rows, top_limit, ranked_from, ranks_before}

-- A row is not behind another: a higher price, then an earlier time, then an earlier number.
abbrev pub NotBehind : String × Standing → String × Standing → Type 0
NotBehind (u, a) (v, b) =
    (b.price <ℤ a.price)
    ⊎ ((a.price ≡ b.price)
        × ((a.accepted_at <ℤ b.accepted_at) ⊎ ((a.accepted_at ≡ b.accepted_at) × (a.seq ≤ℤ b.seq))))

NotBehind-trans : (x y z : String × Standing) → NotBehind x y → NotBehind y z → NotBehind x z
NotBehind-trans (u, a) (v, b) (w, c) h k = ground (arith, h, k)

before-NotBehind : (x y : String × Standing) → ranks_before x y ≡ true → NotBehind x y
before-NotBehind (u, a) (v, b) h =
    ground (arith, eq_of_parts a.price b.price, eq_of_parts a.accepted_at b.accepted_at)

behind-NotBehind : (x y : String × Standing) → ranks_before x y ≡ false → NotBehind y x
behind-NotBehind (u, a) (v, b) h =
    ground (arith, eq_of_parts b.price a.price, eq_of_parts b.accepted_at a.accepted_at)

pub top_rows-Ordered : (e : Entry) (limit : ℤ) → Ordered NotBehind (top_rows e limit)
unfolding top_rows
top_rows-Ordered e limit =
    take-Ordered NotBehind (top_limit limit) (sort_by ranks_before e.ranking) (
      sort_by-Ordered ranks_before NotBehind NotBehind-trans before-NotBehind behind-NotBehind
        e.ranking)

pub top_rows-Among :
    (e : Entry) (limit : ℤ) (x : String × Standing) → Among x (top_rows e limit) → Among x e.ranking
unfolding top_rows
top_rows-Among e limit x m =
    sort_by-Among ranks_before x e.ranking
      (take-Among NotBehind x (top_limit limit) (sort_by ranks_before e.ranking) m)

pub top_rows_cases :
    (e : Entry) (limit : ℤ) (x : String × Standing)
    → Among x e.ranking
    → (Among x (top_rows e limit))
      ⊎ ((All (λ y. NotBehind y x) (top_rows e limit))
          × (length (top_rows e limit) ≡ top_limit limit))
unfolding top_rows
top_rows_cases e limit x m =
    take_cases NotBehind x (top_limit limit) (sort_by ranks_before e.ranking)
      (sort_by-Ordered ranks_before NotBehind NotBehind-trans before-NotBehind behind-NotBehind
        e.ranking)
      (Among-sort_by ranks_before x e.ranking m)

pub top_limit_bounds : (limit : ℤ) → (1 ≤ top_limit limit) × (top_limit limit ≤ 100)
unfolding top_limit
top_limit_bounds limit = (ground arith, ground arith)

length-top_rows : (e : Entry) (limit : ℤ) → length (top_rows e limit) ≤ top_limit limit
unfolding top_rows
length-top_rows e limit =
    omega (arith, length-take (top_limit limit) (sort_by ranks_before e.ranking))

-- How many rows are asked for: the limit where it is from 1 to 100, and 10 otherwise.
abbrev pub Asked : ℤ → ℕ → Type 0
Asked limit n =
    ((pos 1 ≤ℤ limit) × (limit ≤ℤ pos 100) × (limit ≡ pos n))
    ⊎ (((limit ≤ℤ pos 0) ⊎ (pos 100 <ℤ limit)) × (n ≡ 10))

top_limit-Asked : (limit : ℤ) (n : ℕ) → Asked limit n → top_limit limit ≡ n
unfolding top_limit
top_limit-Asked limit n (inl (low, high, q)) = rw q (ground (arith, (rw q at low), (rw q at high)))
top_limit-Asked limit n (inr (inl low, q)) = ground (arith, low, q)
top_limit-Asked limit n (inr (inr high, q)) = ground (arith, high, q)

-- The answers are the rows, with their bidders and prices, numbered from k on.
abbrev pub Numbers : ℕ → List (String × Standing) → List RankingEntry → Type 0
Numbers k [] [] = Unit
Numbers k [] (r ∷ rs) = ⊥
Numbers k (x ∷ l) [] = ⊥
Numbers k ((u, a) ∷ l) (r ∷ rs) =
    (r.rank ≡ pos k) × (r.bidder_id ≡ u) × (r.price ≡ a.price) × Numbers (k + 1) l rs

ranked_from-Numbers : (k : ℕ) (l : List (String × Standing)) → Numbers (k + 1) l (ranked_from k l)
ranked_from-Numbers k [] = tt
ranked_from-Numbers k ((u, a) ∷ l) = (refl, refl, refl, ranked_from-Numbers (k + 1) l)

length-asked : (e : Entry) (limit : ℤ) (n : ℕ) → top_limit limit ≡ n → length (top_rows e limit) ≤ n
length-asked e limit n same = rw same at (length-top_rows e limit)

asked_cases :
    (e : Entry) (limit : ℤ) (n : ℕ)
    → top_limit limit ≡ n
    → (x : String × Standing) → Among x e.ranking
    → (Among x (top_rows e limit))
      ⊎ ((All (λ y. NotBehind y x) (top_rows e limit)) × (length (top_rows e limit) ≡ n))
asked_cases e limit n same x m = elim (top_rows_cases e limit x m) [
  | inl there ↦ inl there
  | inr (behind, full) ↦ inr (behind, full ∙ same)
]

-- For an auction of the store TopN answers rows of its ranking with the numbers 1, 2 and so on, at
-- most n of them: n is the limit where that is from 1 to 100, and 10 otherwise. They stand in order,
-- and every row of the ranking is among them or is not before any of them, which are then n.
pub top_n_best :
    (s : Store) (auction_id : ℕ) (e : Entry) (limit : ℤ) (n : ℕ)
    → lookup auction_id s ≡ some e
    → Asked limit n
    → (rows : List (String × Standing)) × (Numbers 1 rows (top_n s auction_id limit))
      × (length rows ≤ n)
      × (Ordered NotBehind rows)
      × ((x : String × Standing) → Among x rows → Among x e.ranking)
      × ((x : String × Standing)
          → Among x e.ranking
          → (Among x rows) ⊎ ((All (λ y. NotBehind y x) rows) × (length rows ≡ n)))
unfolding top_n
top_n_best s auction_id e limit n at asked =
    let same = top_limit-Asked limit n asked in
    (
      top_rows e limit,
      rw (at, top_n) (ranked_from-Numbers 0 (top_rows e limit)),
      length-asked e limit n same,
      top_rows-Ordered e limit,
      top_rows-Among e limit,
      asked_cases e limit n same,
    )
