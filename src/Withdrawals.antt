-- ===== src/Withdrawals.antt =====
-- packages/wallet/src/withdrawals-repo-pg.ts: the class PgWithdrawalsRepo, over the ledger. A
-- reference is the primary key of its row, so a lookup finds the only row. Each method is one
-- transaction: what is thrown leaves the state as it was.
pub mod Conserved
pub mod Final
use crash_game.Prelude.{
  String, concat, Bool, true, false, Option, none, some, List, [], ◌∷◌, ◌++◌, find, str_eq,
  if◌then◌else◌,
}
use crash_game.Prelude.Int.{ℤ}
use crash_game.Prelude.Action.{Result, ok, err}
use crash_game.Ledger.{Kind, Table, LedgerError, debit_in_tx, credit_in_tx}

-- `WithdrawalStatus`
pub data WithdrawalStatus : Type 0 where
  pending processing success failed : WithdrawalStatus

pub record Withdrawal : Type 0 where
  pub reference : String
  pub player_id : String
  pub currency : String
  pub amount_minor : ℤ
  pub phone : String
  pub provider : String
  pub provider_txn_id : Option String
  pub status : WithdrawalStatus
  pub failure_reason : Option String

-- The tables that the repository writes.
pub record Bank : Type 0 where
  pub ledger : Table
  pub withdrawals : List Withdrawal

pub data WithdrawalError : Type 0 where
  ledger_error : LedgerError → WithdrawalError
  duplicate_reference : WithdrawalError

abbrev pub has_reference : String → Withdrawal → Bool
has_reference reference w = str_eq w.reference reference

-- `PgWithdrawalsRepo.get`
unfoldable pub get : String → Bank → Option Withdrawal
get reference bank = find (has_reference reference) bank.withdrawals

-- `UPDATE withdrawals SET … WHERE reference = $1`
unfoldable pub set_row : String → (Withdrawal → Withdrawal) → List Withdrawal → List Withdrawal
set_row reference f [] = []
set_row reference f (w ∷ ws) =
    let rest = set_row reference f ws in if has_reference reference w then f w ∷ ws else w ∷ rest

-- The input of `request`, and the reference that it draws.
pub record WithdrawalInput : Type 0 where
  pub player_id : String
  pub currency : String
  pub amount_minor : ℤ
  pub phone : String
  pub provider : String

abbrev pub new_withdrawal : String → WithdrawalInput → Withdrawal
new_withdrawal reference input = record {
  reference = reference;
  player_id = input.player_id;
  currency = input.currency;
  amount_minor = input.amount_minor;
  phone = input.phone;
  provider = input.provider;
  provider_txn_id = none;
  status = pending;
  failure_reason = none;
}

-- The insertion, which a row with the same primary key makes throw.
abbrev pub insert_row :
    String
    → WithdrawalInput
    → Bank
    → ℤ
    → Table
    → Option Withdrawal
    → Result WithdrawalError (Withdrawal × ℤ) × Bank
insert_row reference input bank balance_minor ledger (some w) = (err duplicate_reference, bank)
insert_row reference input bank balance_minor ledger none = (
  ok (new_withdrawal reference input, balance_minor),
  record { ledger = ledger; withdrawals = bank.withdrawals ++ new_withdrawal reference input ∷ [] },
)

-- The steps after the debit, whose result and table come in.
abbrev pub insert_withdrawal :
    String
    → WithdrawalInput
    → Bank
    → Result LedgerError ℤ × Table
    → Result WithdrawalError (Withdrawal × ℤ) × Bank
insert_withdrawal reference input bank (err e, ledger) = (err (ledger_error e), bank)
insert_withdrawal reference input bank (ok balance_minor, ledger) =
    insert_row reference input bank balance_minor ledger (get reference bank)

-- `PgWithdrawalsRepo.request`
unfoldable pub request :
    String → WithdrawalInput → Bank → Result WithdrawalError (Withdrawal × ℤ) × Bank
unfolding debit_in_tx get
request reference input bank = insert_withdrawal reference input bank (
    debit_in_tx input.player_id input.amount_minor reference input.currency Kind.withdrawal
      bank.ledger)

abbrev pub is_pending : WithdrawalStatus → Bool
is_pending pending = true
is_pending _ = false

-- `status IN ('pending','processing')`
abbrev pub is_open : WithdrawalStatus → Bool
is_open pending = true
is_open processing = true
is_open _ = false

-- `coalesce($2, provider_txn_id)`
abbrev pub coalesce : Option String → Option String → Option String
coalesce none old = old
coalesce (some new) old = some new

-- An `UPDATE` of the row with the reference, if its status passes the guard, and whether it was one
abbrev pub update_found :
    (WithdrawalStatus → Bool)
    → (Withdrawal → Withdrawal)
    → String
    → Bank
    → Option Withdrawal
    → Bool × Bank
update_found guard f reference bank none = (false, bank)
update_found guard f reference bank (some w) =
    if guard w.status
    then (true, record bank { withdrawals = set_row reference f bank.withdrawals })
    else (false, bank)

abbrev pub update_guarded :
    (WithdrawalStatus → Bool) → (Withdrawal → Withdrawal) → String → Bank → Bool × Bank
update_guarded guard f reference bank = update_found guard f reference bank (get reference bank)

abbrev pub moved_to : WithdrawalStatus → Option String → Withdrawal → Withdrawal
moved_to status txn_id w = record w {
  status = status;
  provider_txn_id = coalesce txn_id w.provider_txn_id;
}

-- `PgWithdrawalsRepo.markProcessing`
unfoldable pub mark_processing : String → Option String → Bank → Bool × Bank
unfolding get set_row
mark_processing reference txn_id bank =
    update_guarded is_pending (moved_to processing txn_id) reference bank

-- `PgWithdrawalsRepo.markSucceeded`
unfoldable pub mark_succeeded : String → Option String → Bank → Bool × Bank
unfolding get set_row
mark_succeeded reference txn_id bank =
    update_guarded is_open (moved_to success txn_id) reference bank

abbrev pub failed_for : String → Withdrawal → Withdrawal
failed_for reason w = record w { status = failed; failure_reason = some reason }

-- The `COMMIT` or the `ROLLBACK` after the credit.
abbrev pub refund_row :
    String
    → (reason : String) → Bank
    → Result LedgerError (Unit {0}) × Table
    → Result WithdrawalError Bool × Bank
refund_row reference reason bank (err e, ledger) = (err (ledger_error e), bank)
refund_row reference reason bank (ok _, ledger) = (
  ok true,
  record { ledger = ledger; withdrawals = set_row reference (failed_for reason) bank.withdrawals },
)

abbrev pub refund_found :
    String → (reason : String) → Bank → Option Withdrawal → Result WithdrawalError Bool × Bank
refund_found reference reason bank none = (ok false, bank)
refund_found reference reason bank (some w) =
    if is_open w.status
    then refund_row reference reason bank (
        credit_in_tx w.player_id w.amount_minor Kind.adjust (concat "wd-refund:" reference)
          w.currency bank.ledger)
    else (ok false, bank)

-- `PgWithdrawalsRepo.failAndRefund`; the reason comes cut to 500 characters.
unfoldable pub fail_and_refund :
    String → (reason : String) → Bank → Result WithdrawalError Bool × Bank
unfolding get set_row credit_in_tx
fail_and_refund reference reason bank = refund_found reference reason bank (get reference bank)

-- A call of the repository that writes.
pub data WithdrawalCall : Type 0 where
  request_call : (reference : String) → WithdrawalInput → WithdrawalCall
  processing_call : (reference : String) → Option String → WithdrawalCall
  succeeded_call : (reference : String) → Option String → WithdrawalCall
  refund_call : (reference reason : String) → WithdrawalCall

unfoldable pub after_call : WithdrawalCall → Bank → Bank
unfolding request mark_processing mark_succeeded fail_and_refund
after_call (request_call reference input) bank = (request reference input bank).1
after_call (processing_call reference txn) bank = (mark_processing reference txn bank).1
after_call (succeeded_call reference txn) bank = (mark_succeeded reference txn bank).1
after_call (refund_call reference reason) bank = (fail_and_refund reference reason bank).1

unfoldable pub after_calls : List WithdrawalCall → Bank → Bank
unfolding after_call
after_calls [] bank = bank
after_calls (call ∷ calls) bank = after_calls calls (after_call call bank)
