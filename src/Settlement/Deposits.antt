-- ===== src/Settlement/Deposits.antt =====
-- The ledger of deposits: DepositStatus and DepositLedger of internal/domain/ops.go, and the memory
-- repository of internal/modules/deposit/repository/repository.go. `now` is the clock's answer.
use Prim.Native.String.{◌++◌}
use aieas_backend.Prelude.{
  ℕ, ◌+◌, ◌%◌, ℤ, pos, String, ◌==◌, if◌then◌else◌, Option, none, some, List, [], ◌∷◌, Time,
  is_zero_time, lookup, insert, nat_eq, string_eq, two_64, uint64_to_string,
}
use aieas_backend.Domain.Error.{Error, conflict, not_found, Result, ok, err}

pub data DepositStatus : Type 0 where
  deposit_pending deposit_ready deposit_captured deposit_released deposit_failed : DepositStatus
  other_deposit : String → DepositStatus

pub record DepositLedger : Type 0 where
  pub id : ℕ
  pub auction_id : ℕ
  pub user_id : String
  pub amount : ℤ
  pub status : DepositStatus
  pub related_order_id : Option ℕ
  pub remark : String
  pub created_at : Time
  pub updated_at : Time

pub record DepositRepository : Type 0 where
  pub next : ℕ
  pub items : List (ℕ × DepositLedger)
  pub index : List (String × ℕ)

-- NewMemoryDepositRepository
abbrev pub new_deposit_repository : DepositRepository
new_deposit_repository = record { next = 1; items = []; index = [] }

-- depositKey; FormatUint in base 10 writes what uint64_to_string does.
unfoldable pub deposit_key : ℕ → String → String
deposit_key auction_id user_id = uint64_to_string auction_id ++ String.◌∷◌ ":" user_id

-- Create: the ledger that its caller's pointer has behind it, where there is no error.
unfoldable pub create_deposit :
    DepositRepository → Time → DepositLedger → DepositRepository × Result DepositLedger
create_deposit r now d =
    let key = deposit_key d.auction_id d.user_id in
    elim (lookup key r.index) [
      | some _ ↦ (r, err conflict)
      | none ↦
          let d' : DepositLedger = record d {
            id = if d.id == 0 then r.next else d.id;
            created_at = if is_zero_time d.created_at then now else d.created_at;
            updated_at = now;
          } in
          (
            record {
              next = if d.id == 0 then (r.next + 1) % two_64 else r.next;
              items = insert d'.id d' r.items;
              index = insert key d'.id r.index;
            },
            ok d',
          )
    ]

-- A map's zero value for a missing ledger.
abbrev pub zero_deposit : DepositLedger
zero_deposit = record {
  id = 0;
  auction_id = 0;
  user_id = "";
  amount = pos 0;
  status = other_deposit "";
  related_order_id = none;
  remark = "";
  created_at = 0;
  updated_at = 0;
}

-- FindByAuctionUser
unfoldable pub find_by_auction_user : DepositRepository → ℕ → String → Result DepositLedger
find_by_auction_user r auction_id user_id = elim (lookup (deposit_key auction_id user_id) r.index) [
  | none ↦ err not_found
  | some id ↦ ok (elim (lookup id r.items) [ none ↦ zero_deposit | some d ↦ d ])
]

abbrev pub of_auction : ℕ → List (ℕ × DepositLedger) → List DepositLedger
of_auction auction_id [] = []
of_auction auction_id ((id, d) ∷ m) =
    let rest = of_auction auction_id m in if d.auction_id == auction_id then d ∷ rest else rest

-- ListByAuction; a map's iteration has no order, and the only caller updates each ledger by itself.
unfoldable pub list_by_auction : DepositRepository → ℕ → List DepositLedger
list_by_auction r auction_id = of_auction auction_id r.items

-- Update
unfoldable pub update_deposit :
    DepositRepository → Time → DepositLedger → DepositRepository × Option Error
update_deposit r now d = elim (lookup d.id r.items) [
  | none ↦ (r, some not_found)
  | some _ ↦ (
    record r {
      items = insert d.id (record d { updated_at = now }) r.items;
      index = insert (deposit_key d.auction_id d.user_id) d.id r.index;
    },
    none,
  )
]
