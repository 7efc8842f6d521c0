-- ===== src/Deposits.antt =====
-- packages/wallet/src/deposits-repo.ts: the class PgDepositsRepo. A reference is the primary key of
-- its row, so a lookup finds the only row. The table stands beside the ledger that a settled
-- deposit is credited to, and the balances that the players were told.
pub mod Webhook
pub mod Delivery
pub mod Credited
pub mod Steps
pub mod Crediting
pub mod Reached
pub mod Unconfirmed
pub mod Settling
use crash_game.Prelude.{
  String, Bool, true, false, Option, none, some, List, [], ◌∷◌, ◌++◌, find, str_eq, if◌then◌else◌,
}
use crash_game.Prelude.Int.{ℤ}
use crash_game.Prelude.Action.{Result, ok, err}
use crash_game.Ledger.{Table}

-- `DepositStatus`
pub data DepositStatus : Type 0 where
  pending settled failed : DepositStatus

-- A row of `deposits`.
pub record Deposit : Type 0 where
  pub reference : String
  pub player_id : String
  pub currency : String
  pub amount_minor : ℤ
  pub status : DepositStatus

pub record Desk : Type 0 where
  pub ledger : Table
  pub deposits : List Deposit
  pub notices : List (String × ℤ × String)

abbrev pub has_reference : String → Deposit → Bool
has_reference reference d = str_eq d.reference reference

-- The input of `createPending`.
pub record DepositInput : Type 0 where
  pub reference : String
  pub player_id : String
  pub currency : String
  pub amount_minor : ℤ

pub data DepositError : Type 0 where
  duplicate_reference : DepositError

abbrev pub pending_row : DepositInput → Deposit
pending_row input = record {
  reference = input.reference;
  player_id = input.player_id;
  currency = input.currency;
  amount_minor = input.amount_minor;
  status = pending;
}

-- The insertion, which a row with the same primary key makes throw.
abbrev pub create_beside :
    DepositInput → Desk → Option Deposit → Result DepositError (Unit {0}) × Desk
create_beside input desk (some d) = (err duplicate_reference, desk)
create_beside input desk none =
    (ok tt, record desk { deposits = desk.deposits ++ pending_row input ∷ [] })

-- `PgDepositsRepo.get`
unfoldable pub get : String → Desk → Option Deposit
get reference desk = find (has_reference reference) desk.deposits

-- `PgDepositsRepo.createPending`
unfoldable pub create_pending : DepositInput → Desk → Result DepositError (Unit {0}) × Desk
unfolding get
create_pending input desk = create_beside input desk (get input.reference desk)

abbrev pub is_pending : DepositStatus → Bool
is_pending pending = true
is_pending _ = false

-- `UPDATE deposits SET status = … WHERE reference = $1 AND status = 'pending'`
unfoldable pub set_status : String → DepositStatus → List Deposit → List Deposit
set_status reference status [] = []
set_status reference status (d ∷ ds) =
    let rest = set_status reference status ds in
    if has_reference reference d
    then (if is_pending d.status then record d { status = status } else d) ∷ ds
    else d ∷ rest

-- `rowCount === 1`
abbrev pub was_pending : Option Deposit → Bool
was_pending none = false
was_pending (some d) = is_pending d.status

-- `PgDepositsRepo.markSettled`
unfoldable pub mark_settled : String → Desk → Bool × Desk
unfolding get set_status
mark_settled reference desk = (
  was_pending (get reference desk),
  record desk { deposits = set_status reference settled desk.deposits },
)

-- `PgDepositsRepo.markFailed`
unfoldable pub mark_failed : String → Desk → Desk
unfolding set_status
mark_failed reference desk = record desk { deposits = set_status reference failed desk.deposits }
