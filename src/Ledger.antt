-- ===== src/Ledger.antt =====
-- packages/wallet/src/wallet-ledger.ts: the append-only ledger of the personal lobby. A balance is
-- the sum of a player's rows in a currency. The check and the insertion of a debit run under a lock
-- of the player, so each method is one step on the table.
pub mod Balance
pub mod Overdraw
pub mod Deposits
use crash_game.Prelude.{
  ℕ, String, Bool, true, false, ◌&&◌, Option, none, some, List, [], ◌∷◌, ◌++◌, any, str_eq, ◌==◌,
  if◌then◌else◌,
}
use crash_game.Prelude.Int.{ℤ, pos, negsuc, ◌+ℤ◌, ◌-ℤ◌, ltb_ℤ}
use crash_game.Prelude.Action.{Result, ok, err, Action, pure, throw, gets, modify, ◌>>=◌, ◌>>◌}

-- The values that `wallet_ledger_kind_check` allows.
pub data Kind : Type 0 where
  deposit bet win adjust withdrawal : Kind

abbrev pub is_deposit : Kind → Bool
is_deposit Kind.deposit = true
is_deposit _ = false

-- A row of `wallet_ledger`, which is never changed.
pub record Entry : Type 0 where
  pub player_id : String
  pub currency : String
  pub amount_minor : ℤ
  pub kind : Kind
  pub ref : Option String

pub data LedgerError : Type 0 where
  insufficient_funds : (player_id : String) → (balance_minor requested_minor : ℤ) → LedgerError
  bad_amount : LedgerError

abbrev pub Table : Type 0
Table = List Entry

abbrev pub Method : Type 0 → Type 0
Method A = Action Table LedgerError A

-- `WHERE player_id = $1 AND currency = $2`
abbrev pub is_of : String → String → Entry → Bool
is_of player_id currency e = str_eq e.player_id player_id && str_eq e.currency currency

-- `COALESCE(SUM(amount_minor), 0)`
unfoldable pub balance : String → String → Table → ℤ
balance player_id currency [] = pos 0
balance player_id currency (e ∷ rows) =
    if is_of player_id currency e
    then e.amount_minor +ℤ balance player_id currency rows
    else balance player_id currency rows

-- `!Number.isInteger(amountMinor) || amountMinor <= 0`; an amount is an integer here.
abbrev pub assert_positive_int : ℤ → Method (Unit {0})
assert_positive_int amount t = (if ltb_ℤ (pos 0) amount then ok tt else err bad_amount, t)

abbrev pub insert : Entry → Method (Unit {0})
insert e t = (ok tt, t ++ e ∷ [])

-- A deposit row with the same reference, on which the partial unique index `uq_wallet_deposit_ref`
-- conflicts; a null reference conflicts with none.
abbrev pub same_ref : Option String → Option String → Bool
same_ref (some a) (some b) = str_eq a b
same_ref _ _ = false

abbrev pub is_deposit_of : Option String → Entry → Bool
is_deposit_of ref e = is_deposit e.kind && same_ref e.ref ref

-- `INSERT … ON CONFLICT (ref) WHERE kind = 'deposit' DO NOTHING`
abbrev pub insert_deposit : Entry → Method (Unit {0})
insert_deposit e t = (ok tt, if any (is_deposit_of e.ref) t then t else t ++ e ∷ [])

-- `WalletLedger.deposit`
unfoldable pub credit_deposit : String → ℤ → String → Option String → Method ℤ
credit_deposit player_id amount_minor currency ref = assert_positive_int amount_minor >>= λ _.
    insert_deposit (record {
      player_id = player_id;
      currency = currency;
      amount_minor = amount_minor;
      kind = Kind.deposit;
      ref = ref;
    })
    >>= λ _. gets (balance player_id currency)

-- The debit of the given kind.
abbrev pub debit_entry : String → ℤ → String → String → Kind → Entry
debit_entry player_id amount_minor ref currency kind = record {
  player_id = player_id;
  currency = currency;
  amount_minor = pos 0 -ℤ amount_minor;
  kind = kind;
  ref = some ref;
}

-- The step of `debitInTx` under the lock: the check, the insertion, and the new balance.
abbrev pub guarded_debit : String → ℤ → String → String → Kind → ℤ → Method ℤ
guarded_debit player_id amount_minor ref currency kind bal t =
    if ltb_ℤ bal amount_minor
    then (err (insufficient_funds player_id bal amount_minor), t)
    else (ok (bal -ℤ amount_minor), t ++ debit_entry player_id amount_minor ref currency kind ∷ [])

-- `WalletLedger.debitInTx`; `bet` and `betInTx` are this at the kind `bet`, and throw what it throws
-- after the transaction is rolled back.
unfoldable pub debit_in_tx : String → ℤ → String → String → Kind → Method ℤ
debit_in_tx player_id amount_minor ref currency kind = assert_positive_int amount_minor >>= λ _.
    gets (balance player_id currency) >>= guarded_debit player_id amount_minor ref currency kind

-- `WalletLedger.bet`, `WalletLedger.betInTx`
unfoldable pub place_bet : String → ℤ → String → String → Method ℤ
unfolding debit_in_tx
place_bet player_id amount_minor ref currency =
    debit_in_tx player_id amount_minor ref currency Kind.bet

-- `WalletLedger.creditInTx`
unfoldable pub credit_in_tx : String → ℤ → Kind → String → String → Method (Unit {0})
credit_in_tx player_id amount_minor kind ref currency = assert_positive_int amount_minor >>= λ _.
    insert (record {
      player_id = player_id;
      currency = currency;
      amount_minor = amount_minor;
      kind = kind;
      ref = some ref;
    })

-- `WalletLedger.win`
unfoldable pub credit_win : String → ℤ → String → String → Method ℤ
unfolding credit_in_tx
credit_win player_id amount_minor ref currency =
    credit_in_tx player_id amount_minor Kind.win ref currency >>= λ _.
    gets (balance player_id currency)

abbrev is_zero : ℤ → Bool
is_zero (pos n) = n == 0
is_zero (negsuc _) = false

-- `WalletLedger.adjust`: any amount but zero, with no guard against an overdraw
unfoldable pub adjust_balance : String → ℤ → String → String → Method ℤ
adjust_balance player_id amount_minor ref currency t =
    if is_zero amount_minor
    then (err bad_amount, t)
    else (insert (record {
      player_id = player_id;
      currency = currency;
      amount_minor = amount_minor;
      kind = Kind.adjust;
      ref = some ref;
    })
          >>= λ _. gets (balance player_id currency))
        t
