-- ===== src/Settlement/Capture.antt =====
-- What the sale of a lot does to the deposits: the winner's becomes part of the payment, and the
-- others are released.
use aieas_backend.Prelude.{
  ℕ, String, ◌==◌, ==_iff, none, some, Time, ◌≡◌, ◌≢◌, inl, inr, refl, sym, ap, ◌∙◌, arith, lookup,
  insert, nat_eq, string_eq, insert-Distinct, insert_cases, lookup-insert, lookup-insert_self,
  some_inj, no_value, apart, passed_by, Bool-cases, Option-cases,
}
use aieas_backend.Domain.Error.{ok, err, not_found}
use aieas_backend.Settlement.Deposits.{
  DepositLedger, DepositRepository, deposit_captured, deposit_key, update_deposit,
  find_by_auction_user,
}
use aieas_backend.Settlement.Hammer.{capture_deposit, release_deposits}
use aieas_backend.Settlement.Release.{Sound, after_release, release_deposits_each}

abbrev pub captured : Time → ℕ → DepositLedger → DepositLedger
captured now order_id d = record d {
  status = deposit_captured;
  related_order_id = some order_id;
  remark = "captured_by_hammer";
  updated_at = now;
}

-- A ledger is overwritten by one of the same id, lot and user.
replaced-Sound :
    (r : DepositRepository) (id : ℕ) (d d' : DepositLedger) (k : String)
    → Sound r
    → lookup id r.items ≡ some d
    → d'.id ≡ id
    → deposit_key d.auction_id d.user_id ≡ k
    → deposit_key d'.auction_id d'.user_id ≡ k
    → Sound (record r { items = insert id d' r.items; index = insert k id r.index })
replaced-Sound r id d d' k v at own old_key key = record {
  distinct = insert-Distinct id d' r.items v.distinct;
  keyed = λ j f h. elim (insert_cases id j d' r.items f h) [
    | inl (same, q) ↦ ap (λ (x : DepositLedger). x.id) (sym q) ∙ own ∙ same
    | inr (_, old) ↦ v.keyed j f old
  ];
  indexed = λ x j h. elim (insert_cases k x id r.index j h) [
    | inl (same, q) ↦ (d', rw (← q) (lookup-insert_self id d' r.items), key ∙ same)
    | inr (_, known) ↦
        let (f, there, at_x) = v.indexed x j known in
        elim (Bool-cases (id == j)) [
          | inl same ↦
              let q : d ≡ f =
                some_inj (sym at ∙ ap (λ z. lookup z r.items) ((==_iff id j).0 same) ∙ there) in
              (
                d',
                rw (lookup-insert id j d' r.items, same) refl,
                key
                    ∙ sym old_key
                    ∙ ap (λ (z : DepositLedger). deposit_key z.auction_id z.user_id) q
                    ∙ at_x,
              )
          | inr other ↦ (f, passed_by id j d' r.items f other there, at_x)
        ]
  ];
}

-- What becomes of a ledger under an id.
abbrev pub Sold : DepositRepository → Time → ℕ → String → ℕ → DepositRepository → Type 0
Sold r now a winner order_id r' =
    (id : ℕ) (d : DepositLedger)
    → lookup id r.items ≡ some d
    → (lookup (deposit_key a winner) r.index ≡ some id
        → lookup id r'.items ≡ some (captured now order_id d))
      × (lookup (deposit_key a winner) r.index ≢ some id
          → lookup id r'.items ≡ some (after_release now a "released_by_hammer" (some winner) d))

update_known :
    (r : DepositRepository) (now : Time) (d old : DepositLedger)
    → lookup d.id r.items ≡ some old
    → update_deposit r now d ≡ (
      record r {
        items = insert d.id (record d { updated_at = now }) r.items;
        index = insert (deposit_key d.auction_id d.user_id) d.id r.index;
      },
      none,
    )
unfolding update_deposit
update_known r now d old at = rw (at, update_deposit) refl

capture_known :
    (r : DepositRepository) (now : Time) (a : ℕ) (winner : String) (order_id id : ℕ)
    (d : DepositLedger)
    → Sound r
    → lookup (deposit_key a winner) r.index ≡ some id
    → lookup id r.items ≡ some d
    → (capture_deposit r now a winner order_id ≡ (
      record r {
        items = insert id (captured now order_id d) r.items;
        index = insert (deposit_key a winner) id r.index;
      },
      none,
    ))
unfolding capture_deposit find_by_auction_user
capture_known r now a winner order_id id d v known at =
    let own = v.keyed id d at in
    let (f, there, key) = v.indexed (deposit_key a winner) id known in
    let q : f ≡ d = some_inj (sym there ∙ at) in
    let key_d : deposit_key d.auction_id d.user_id ≡ deposit_key a winner =
      ap (λ (z : DepositLedger). deposit_key z.auction_id z.user_id) (sym q) ∙ key in
    let found : find_by_auction_user r a winner ≡ ok d =
      rw (known, at, find_by_auction_user) refl in
    rw (found, capture_deposit)
      (update_known r now
          (record d {
            status = deposit_captured;
            related_order_id = some order_id;
            remark = "captured_by_hammer";
          })
          d (ap (λ x. lookup x r.items) own ∙ at)
        ∙ ap
            (λ (x : ℕ). (
              record r {
                items = insert x (captured now order_id d) r.items;
                index = insert (deposit_key d.auction_id d.user_id) x r.index;
              },
              none,
            ))
            own
        ∙ ap
            (λ (k : String). (
              record r {
                items = insert id (captured now order_id d) r.items;
                index = insert k id r.index;
              },
              none,
            ))
            key_d)

capture_unknown :
    (r : DepositRepository) (now : Time) (a : ℕ) (winner : String) (order_id : ℕ)
    → lookup (deposit_key a winner) r.index ≡ none
    → capture_deposit r now a winner order_id ≡ (r, none)
unfolding capture_deposit find_by_auction_user
capture_unknown r now a winner order_id nobody =
    let absent : find_by_auction_user r a winner ≡ err not_found =
      rw (nobody, find_by_auction_user) refl in
    rw (absent, capture_deposit) refl

-- A captured ledger is not one to release.
captured_stays :
    (now : Time) (a order_id : ℕ) (winner : String) (d : DepositLedger)
    → after_release now a "released_by_hammer" (some winner) (captured now order_id d)
      ≡ captured now order_id d
captured_stays now a order_id winner d = ground arith

-- Where the lot is sold, neither step fails, the winner's deposit is captured, and every other one is
-- what releaseDeposits makes of it.
pub capture-release :
    (r : DepositRepository) (now : Time) (a : ℕ) (winner : String) (order_id : ℕ)
    → Sound r
    → let (r', failure) = capture_deposit r now a winner order_id in
      let (r'', failure') = release_deposits r' now a "released_by_hammer" (some winner) in
      (failure ≡ none) × (failure' ≡ none) × Sold r now a winner order_id r''
capture-release r now a winner order_id v =
    elim (Option-cases (lookup (deposit_key a winner) r.index)) [
      | inl nobody ↦
          let skipped : capture_deposit r now a winner order_id ≡ (r, none) =
            capture_unknown r now a winner order_id nobody in
          let (fine, rest) = release_deposits_each r now a "released_by_hammer" (some winner) v in
          rw skipped
            (refl, fine, λ id d at. ((λ known. no_value (sym nobody ∙ known)), λ _. rest id d at))
      | inr (own, known) ↦
          let (e, there, key) = v.indexed (deposit_key a winner) own known in
          let c = captured now order_id e in
          let w : Sound (record r {
            items = insert own c r.items;
            index = insert (deposit_key a winner) own r.index;
          }) =
            replaced-Sound r own e c (deposit_key a winner) v there (v.keyed own e there) key key in
          let (fine, rest) = release_deposits_each _ now a "released_by_hammer" (some winner) w in
          rw (capture_known r now a winner order_id own e v known there) (
            refl,
            fine,
            λ id d at. (
              (λ same.
                  let q : own ≡ id = some_inj (sym known ∙ same) in
                  let f : e ≡ d = some_inj (sym there ∙ ap (λ x. lookup x r.items) q ∙ at) in
                  rest id (captured now order_id d)
                    (rw (← q, ← f) (lookup-insert_self own c r.items))
                  ∙ ap some (captured_stays now a order_id winner d)),
              (λ others. rest id d (
                  passed_by own id c r.items d (apart own id (λ q. others (known ∙ ap some q)))
                    at)),
            ),
          )
    ]
