-- ===== src/VoidBet.antt =====
-- packages/server/src/game/bets.ts: `voidOperatorBet`, which sends one bet through a rollback.
pub mod Returns
pub mod Voided
use crash_game.Prelude.{
  String, concat, Bool, true, false, Option, none, some, List, [], or_else, if◌then◌else◌,
}
use crash_game.Prelude.Action.{Result, ok, err, pure, throw, try_catch, ◌>>=◌}
use crash_game.BetState.{BetEvent, is_terminal}
use crash_game.World.{
  BetRow, AlertEvent, WalletResponse, World, Thrown, Method, wallet_failure, invalid_transition,
  plain_error, message_of,
}
use crash_game.BetLog.{SideData, no_side_data, get_by_id, transition}
use crash_game.BetLog.Rows.{find_row}
use crash_game.WalletClient.{WalletClient, RollbackRequest}
use crash_game.Bets.{emit}

pub data VoidResult : Type 0 where
  did_void skipped : VoidResult

-- `rb-${row.betTxnId}`, unless an earlier attempt has left its id in the row
abbrev pub rollback_id : Option BetRow → BetRow → String
rollback_id fresh row = elim fresh [
  | none ↦ concat "rb-" row.bet_txn_id
  | some r ↦ or_else r.rollback_txn_id (concat "rb-" row.bet_txn_id)
]

-- `rollbackErr ? rollbackErr.code : err.message`
abbrev pub error_string : Thrown → String
error_string (wallet_failure e) = e.code
error_string other = message_of other

abbrev pub rollback_request : BetRow → (txn_id reason : String) → RollbackRequest
rollback_request row txn_id reason = record {
  player_id = row.player_id;
  bet_txn_id = row.bet_txn_id;
  txn_id = txn_id;
  reason = reason;
}

abbrev pub reason_data : String → SideData
reason_data reason = record no_side_data { error_code = some reason }

-- The first `try` of a row with a client: whether `rollback_started` went through. Only an
-- `InvalidTransitionError` is caught.
abbrev pub start_try : String → String → Method Bool
start_try bet_id reason =
    transition bet_id BetEvent.rollback_started (reason_data reason) >>= λ _. pure true

abbrev pub start_catch : Thrown → Method Bool
start_catch (invalid_transition _) = pure false
start_catch other = throw other

-- The second one, which sends the rollback.
abbrev pub complete_rollback : String → String → WalletResponse → Method VoidResult
complete_rollback bet_id txn_id _ =
    transition bet_id BetEvent.rollback_completed
      (record no_side_data { rollback_txn_id = some txn_id })
    >>= λ _. pure did_void

abbrev pub rollback_try :
    WalletClient → (bet_id reason : String) → BetRow → (txn_id : String) → Method VoidResult
rollback_try client bet_id reason row txn_id =
    client.rollback (rollback_request row txn_id reason) >>= complete_rollback bet_id txn_id

abbrev pub rollback_catch : String → BetRow → Thrown → Method VoidResult
rollback_catch reason row e =
    emit (AlertEvent.rollback_failed row reason (error_string e)) >>= λ _. pure skipped

abbrev pub finish_rollback : WalletClient → (bet_id reason : String) → BetRow → Method VoidResult
finish_rollback client bet_id reason row w =
    try_catch (rollback_try client bet_id reason row (rollback_id (find_row bet_id w.rows) row))
      (rollback_catch reason row) w

abbrev pub after_start : WalletClient → (bet_id reason : String) → BetRow → Bool → Method VoidResult
after_start client bet_id reason row true = finish_rollback client bet_id reason row
after_start client bet_id reason row false = pure skipped

-- The only `try` of a row without a client: every error is logged.
abbrev pub orphan_try : String → String → Method VoidResult
orphan_try bet_id reason =
    transition bet_id BetEvent.rollback_started (reason_data reason) >>= λ _. pure skipped

abbrev pub log_and_skip : Thrown → Method VoidResult
log_and_skip _ = pure skipped

-- The steps for a row that is not terminal.
unfoldable pub void_row :
    Option WalletClient → (bet_id reason : String) → BetRow → Method VoidResult
void_row none bet_id reason row = try_catch (orphan_try bet_id reason) log_and_skip
void_row (some client) bet_id reason row =
    try_catch (start_try bet_id reason) start_catch >>= after_start client bet_id reason row

-- The early returns: no row, or a terminal one.
abbrev pub void_found :
    (String → Option WalletClient) → (bet_id reason : String) → Option BetRow → Method VoidResult
void_found client_for bet_id reason none = pure skipped
void_found client_for bet_id reason (some row) =
    if is_terminal row.state
    then pure skipped
    else void_row (client_for row.operator_id) bet_id reason row

-- `voidOperatorBet`; `deps` is what `getOperatorWiringDeps` returns: the clients of the operators
-- that are neither unknown nor paused.
unfoldable pub void_operator_bet :
    Option (String → Option WalletClient) → (bet_id reason : String) → Method VoidResult
void_operator_bet none bet_id reason =
    throw (plain_error "[voidOperatorBet] OperatorWiringDeps not initialized — bootstrap defect")
void_operator_bet (some client_for) bet_id reason =
    get_by_id bet_id >>= void_found client_for bet_id reason
