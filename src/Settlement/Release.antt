-- ===== src/Settlement/Release.antt =====
-- What releaseDeposits does to each deposit of the ledger.
use aieas_backend.Prelude.{
  ℕ, String, Bool, false, not, ◌||◌, ◌==◌, ==_iff, if◌then◌else◌, Option, none, some, List, [], ◌∷◌,
  Time, ◌≡◌, inl, inr, refl, sym, ap, ◌∙◌, lookup, insert, nat_eq, string_eq, Distinct,
  lookup-insert, lookup-insert_self, some_inj, no_value, apart, passed_by, insert-Distinct,
  insert_cases, is_zero_time, Bool-cases, Option-cases,
}
use aieas_backend.Domain.Error.{Error}
use aieas_backend.Settlement.Deposits.{
  DepositLedger, DepositRepository, deposit_key, of_auction, list_by_auction, update_deposit,
  new_deposit_repository, create_deposit,
}
use aieas_backend.Settlement.Hammer.{
  is_releasable, is_user, released, release_each, release_deposits,
}

-- Each ledger stands under its own id, and the index finds the ledger of a lot and a user.
pub record Sound (r : DepositRepository) : Type 0 where
  pub distinct : Distinct r.items
  pub keyed : (id : ℕ) (d : DepositLedger) → lookup id r.items ≡ some d → d.id ≡ id
  pub indexed :
      (k : String) (id : ℕ)
      → lookup k r.index ≡ some id
      → (d : DepositLedger) × (lookup id r.items ≡ some d)
        × (deposit_key d.auction_id d.user_id ≡ k)

-- Whether the loop passes over a ledger.
abbrev pub is_skipped : Option String → DepositLedger → Bool
is_skipped winner d = is_user d.user_id winner || not (is_releasable d.status)

abbrev pub freed : Time → String → DepositLedger → DepositLedger
freed now remark d = record (released remark d) { updated_at = now }

-- What becomes of a ledger.
abbrev pub after_release : Time → ℕ → String → Option String → DepositLedger → DepositLedger
after_release now a remark winner d =
    if d.auction_id == a then (if is_skipped winner d then d else freed now remark d) else d

updated :
    (r : DepositRepository) (now : Time) (d old : DepositLedger)
    → lookup d.id r.items ≡ some old
    → ((update_deposit r now d).1 ≡ none)
      × ((update_deposit r now d).0.items ≡ insert d.id (record d { updated_at = now }) r.items)
unfolding update_deposit
updated r now d old at = (rw (at, update_deposit) refl, rw (at, update_deposit) refl)

module _ (now : Time) (a : ℕ) (remark : String) (winner : Option String) where
  -- The ledgers of m, which stand in r too, are released there.
  abbrev Releases :
      DepositRepository → List (ℕ × DepositLedger) → DepositRepository × Option Error → Type 0
  Releases r m (r', failure) =
      (failure ≡ none)
      × ((id : ℕ) (d : DepositLedger)
          → lookup id m ≡ some d
          → lookup id r'.items ≡ some (after_release now a remark winner d))
      × ((id : ℕ) → lookup id m ≡ none → lookup id r'.items ≡ lookup id r.items)

  -- One ledger in front, which has become what it should in r1.
  join :
      (r r1 : DepositRepository) (k : ℕ) (e : DepositLedger) (m : List (ℕ × DepositLedger))
      (result : DepositRepository × Option Error)
      → lookup k m ≡ none
      → lookup k r1.items ≡ some (after_release now a remark winner e)
      → ((id : ℕ) → (k == id) ≡ false → lookup id r1.items ≡ lookup id r.items)
      → Releases r1 m result
      → Releases r ((k, e) ∷ m) result
  unfolding lookup
  join r r1 k e m (r', failure) new done others (fine, changed, kept) = (
    fine,
    (λ id d h. elim (Bool-cases (k == id)) [
      | inl same ↦
          let q : e ≡ d = some_inj (rw same at h) in
          rw (← q, ← (==_iff k id).0 same) (kept k new ∙ done)
      | inr other ↦ changed id d (rw other at h)
    ]),
    (λ id h. elim (Bool-cases (k == id)) [
      | inl same ↦ no_value (sym (rw same at h))
      | inr other ↦ kept id (rw other at h) ∙ others id other
    ]),
  )

  -- What stands in the rest stands behind the head.
  below :
      (k id : ℕ) (e d : DepositLedger) (m : List (ℕ × DepositLedger))
      → lookup k m ≡ none
      → lookup id m ≡ some d
      → ((k == id) ≡ false) × (lookup id ((k, e) ∷ m) ≡ some d)
  unfolding lookup
  below k id e d m new h =
      let other : (k == id) ≡ false =
        apart k id (λ q. no_value (sym new ∙ ap (λ x. lookup x m) q ∙ h)) in
      (other, rw other h)

  release_each-Releases :
      (r : DepositRepository) (m : List (ℕ × DepositLedger))
      → Distinct m
      → ((id : ℕ) (d : DepositLedger) → lookup id m ≡ some d → d.id ≡ id)
      → ((id : ℕ) (d : DepositLedger) → lookup id m ≡ some d → lookup id r.items ≡ some d)
      → Releases r m (release_each r now (of_auction a m) remark winner)
  unfolding release_each lookup
  release_each-Releases r [] d keyed there = (refl, (λ id e h. no_value h), λ id h. refl)
  release_each-Releases r ((k, e) ∷ m) (new, d) keyed there =
      let head : lookup k ((k, e) ∷ m) ≡ some e = rw ((==_iff k k).1 refl) refl in
      let at = there k e head in
      let tail =
        release_each-Releases r m d (λ id f h. keyed id f ((below k id e f m new h).1))
          (λ id f h. there id f ((below k id e f m new h).1)) in
      elim (Bool-cases (e.auction_id == a)) [
        | inr elsewhere ↦ rw elsewhere (
            join r r k e m (release_each r now (of_auction a m) remark winner) new
              (rw (elsewhere, after_release) at) (λ id o. refl) tail)
        | inl same_lot ↦ elim (Bool-cases (is_skipped winner e)) [
          | inl skipped ↦
              rw (same_lot, skipped, release_each)
                (join r r k e m (release_each r now (of_auction a m) remark winner) new
                  (rw (same_lot, skipped, after_release) at) (λ id o. refl) tail)
          | inr taken ↦
              let own : e.id ≡ k = keyed k e head in
              let (fine, written) =
                updated r now (released remark e) e (ap (λ x. lookup x r.items) own ∙ at) in
              let r1 = (update_deposit r now (released remark e)).0 in
              let stored : r1.items ≡ insert k (freed now remark e) r.items =
                written ∙ ap (λ x. insert x (freed now remark e) r.items) own in
              let freed_at : lookup k r1.items ≡ some (freed now remark e) =
                rw stored (lookup-insert_self k (freed now remark e) r.items) in
              let others : (id : ℕ) → (k == id) ≡ false → lookup id r1.items ≡ lookup id r.items =
                λ id o. rw (stored, lookup-insert k id (freed now remark e) r.items, o) refl in
              rw (same_lot, taken, release_each, fine)
                (join r r1 k e m (release_each r1 now (of_auction a m) remark winner) new
                  (rw (same_lot, taken, after_release) freed_at) others
                  (release_each-Releases r1 m d (λ id f h. keyed id f ((below k id e f m new h).1))
                    (λ id f h.
                      let (o, there') = below k id e f m new h in others id o ∙ there id f there')))
        ]
      ]

-- In a sound ledger releaseDeposits does not fail. It releases the deposits on the lot that are
-- pending or ready and are not the given winner's, and leaves every other deposit as it is.
pub release_deposits_each :
    (r : DepositRepository) (now : Time) (a : ℕ) (remark : String) (winner : Option String)
    → Sound r
    → let (r', failure) = release_deposits r now a remark winner in
      (failure ≡ none)
      × ((id : ℕ) (d : DepositLedger)
          → lookup id r.items ≡ some d
          → lookup id r'.items ≡ some (after_release now a remark winner d))
unfolding release_deposits list_by_auction
release_deposits_each r now a remark winner v =
    let (fine, changed, _) =
      release_each-Releases now a remark winner r r.items v.distinct v.keyed (λ id d h. h) in
    (fine, changed)

pub new_deposit_repository-Sound : Sound new_deposit_repository
unfolding lookup
new_deposit_repository-Sound = record {
  distinct = tt;
  keyed = λ id d h. no_value h;
  indexed = λ k id h. no_value h;
}

-- Create keeps the ledger sound, where the id of the new deposit is not taken.
pub create_deposit-Sound :
    (r : DepositRepository) (now : Time) (d : DepositLedger)
    → Sound r
    → lookup (if d.id == 0 then r.next else d.id) r.items ≡ none
    → Sound (create_deposit r now d).0
unfolding create_deposit
create_deposit-Sound r now d v fresh =
    let k = deposit_key d.auction_id d.user_id in
    let id = if d.id == 0 then r.next else d.id in
    let d' : DepositLedger = record d {
      id = id;
      created_at = if is_zero_time d.created_at then now else d.created_at;
      updated_at = now;
    } in
    elim (Option-cases (lookup k r.index)) [
      | inr (old, known) ↦ rw (known, create_deposit) v
      | inl unknown ↦
          rw (unknown, create_deposit)
            (record {
              distinct = insert-Distinct id d' r.items v.distinct;
              keyed = λ j f h. elim (insert_cases id j d' r.items f h) [
                | inl (same, q) ↦ ap (λ (x : DepositLedger). x.id) (sym q) ∙ same
                | inr (_, old) ↦ v.keyed j f old
              ];
              indexed = λ x j h. elim (insert_cases k x id r.index j h) [
                | inl (same, q) ↦ (d', rw (← q) (lookup-insert_self id d' r.items), same)
                | inr (_, known) ↦
                    let (f, there, at_x) = v.indexed x j known in
                    let other : (id == j) ≡ false =
                      apart id j
                        (λ q. no_value (sym fresh ∙ ap (λ z. lookup z r.items) q ∙ there)) in
                    (f, passed_by id j d' r.items f other there, at_x)
              ];
            })
    ]
