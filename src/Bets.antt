-- ===== src/Bets.antt =====
-- packages/server/src/game/bets.ts, the operator-backed bet: placing it and cashing it out.
-- Another handler can run while a wallet call is awaited: the
-- client is any method on the world. The metrics that wrap a wallet call change nothing.
pub mod Place
pub mod Settle
use crash_game.Prelude.{
  ℕ, ◌+◌, String, concat, Bool, true, false, Option, none, some, List, [], ◌∷◌, ◌++◌, str_eq,
  or_else, if◌then◌else◌,
}
use crash_game.Prelude.Action.{
  Result, ok, err, Action, pure, throw, gets, try_catch, ◌>>=◌, ◌>>◌, modify,
}
use crash_game.Errors.{WalletError, network_error, is_confirmed_rejection}
use crash_game.BetState.{BetState, armed, flying, BetEvent, is_terminal}
use crash_game.World.{
  BetRow, AlertEvent, WalletResponse, World, Thrown, Method, wallet_failure, invalid_transition,
  plain_error, message_of,
}
use crash_game.BetLog.{
  CreateBetInput, SideData, no_side_data, create, get_by_id, transition, list_by_round,
}
use crash_game.WalletClient.{WalletClient, BetRequest, WinRequest, RollbackRequest}

-- `err instanceof WalletError ? err : new WalletNetworkError(err.message)`
unfoldable pub as_wallet_error : Thrown → WalletError
as_wallet_error (wallet_failure e) = e
as_wallet_error other = network_error (message_of other)

-- `PlaceOperatorBetInput`; the `autoCashout` that it may carry is not read here.
pub record PlaceOperatorBetInput : Type 0 where
  pub operator_id : String
  pub player_id : String
  pub session_id : String
  pub round_id : String
  pub currency : String
  pub amount_minor : ℕ
  pub bet_id : String
  pub bet_txn_id : String
  pub game_id : String

-- `PlaceOperatorBetResult`, `CashOutOperatorBetResult`
pub record WalletBetResult : Type 0 where
  pub row : BetRow
  pub balance_minor : ℕ
  pub currency : String

abbrev pub create_input : PlaceOperatorBetInput → CreateBetInput
create_input input = record {
  bet_id = input.bet_id;
  operator_id = input.operator_id;
  player_id = input.player_id;
  session_id = input.session_id;
  round_id = input.round_id;
  currency = input.currency;
  amount_minor = input.amount_minor;
  bet_txn_id = input.bet_txn_id;
  game_id = some input.game_id;
}

abbrev pub bet_request : PlaceOperatorBetInput → ℕ → BetRequest
bet_request input now = record {
  player_id = input.player_id;
  session_id = input.session_id;
  round_id = input.round_id;
  bet_id = input.bet_id;
  txn_id = input.bet_txn_id;
  amount_minor = input.amount_minor;
  currency = input.currency;
  game_id = input.game_id;
  placed_at = some now;
}

abbrev pub result_of : BetRow → WalletResponse → WalletBetResult
result_of row resp = record {
  row = row;
  balance_minor = resp.balance_minor;
  currency = resp.currency;
}

-- The `try` of `placeOperatorBet`, and its step after the wallet's answer.
abbrev pub arm_bet : PlaceOperatorBetInput → WalletResponse → Method WalletBetResult
arm_bet input resp =
    transition input.bet_id BetEvent.bet_accepted
      (record no_side_data { bet_op_txn_id = some resp.operator_txn_id })
    >>= λ row. pure (result_of row resp)

abbrev pub accept_bet : WalletClient → PlaceOperatorBetInput → Method WalletBetResult
accept_bet client input = do
  now ← gets (λ w. w.now)
  resp ← client.bet (bet_request input now)
  arm_bet input resp

-- Its `catch`: a confirmed rejection voids the bet, an ambiguous failure starts a rollback.
abbrev pub reject_bet : PlaceOperatorBetInput → Thrown → Method WalletBetResult
reject_bet input thrown =
    let wallet_err = as_wallet_error thrown in
    transition input.bet_id
      (if is_confirmed_rejection wallet_err
        then BetEvent.bet_rejected
        else BetEvent.rollback_started)
      (record no_side_data { error_code = some wallet_err.code })
    >>= λ _. throw (wallet_failure wallet_err)

-- `placeOperatorBet`
unfoldable pub place_operator_bet : WalletClient → PlaceOperatorBetInput → Method WalletBetResult
place_operator_bet client input =
    create (create_input input) >>= λ _. try_catch (accept_bet client input) (reject_bet input)

-- `CashOutOperatorBetInput`
pub record CashOutOperatorBetInput : Type 0 where
  pub bet_id : String
  pub win_txn_id : String
  pub multiplier : ℕ
  pub win_amount_minor : ℕ
  pub settled_at : ℕ

-- `alerter.emit(event)`
abbrev pub emit : AlertEvent → Method (Unit {0})
emit event = modify (λ w. record w { alerts = w.alerts ++ event ∷ [] })

-- The `/win` request of a row that is `SETTLING`.
abbrev pub win_request : CashOutOperatorBetInput → BetRow → WinRequest
win_request input row = record {
  player_id = row.player_id;
  session_id = row.session_id;
  round_id = row.round_id;
  bet_id = input.bet_id;
  bet_txn_id = row.bet_txn_id;
  txn_id = input.win_txn_id;
  amount_minor = input.win_amount_minor;
  multiplier = input.multiplier;
  currency = row.currency;
  settled_at = some input.settled_at;
}

-- The `try` of `cashOutOperatorBet`, and its step after the wallet's answer.
abbrev pub close_win : CashOutOperatorBetInput → WalletResponse → Method WalletBetResult
close_win input resp =
    transition input.bet_id BetEvent.win_settled (record no_side_data {
      win_txn_id = some input.win_txn_id;
      win_op_txn_id = some resp.operator_txn_id;
      win_amount_minor = some input.win_amount_minor;
      multiplier = some input.multiplier;
    })
    >>= λ row. pure (result_of row resp)

abbrev pub settle_win : WalletClient → CashOutOperatorBetInput → BetRow → Method WalletBetResult
settle_win client input settling_row =
    client.win (win_request input settling_row) >>= close_win input

-- `emitWinFailed`, and the error thrown on.
abbrev pub alert_and_throw : WalletError → BetRow → Method WalletBetResult
alert_and_throw wallet_err failed_row =
    emit (AlertEvent.win_failed failed_row "cashout" wallet_err.code) >>= λ _.
    throw (wallet_failure wallet_err)

-- Its `catch`.
abbrev pub fail_win : CashOutOperatorBetInput → Thrown → Method WalletBetResult
fail_win input thrown =
    let wallet_err = as_wallet_error thrown in
    transition input.bet_id BetEvent.win_failed (record no_side_data {
      win_txn_id = some input.win_txn_id;
      error_code = some wallet_err.code;
    })
    >>= alert_and_throw wallet_err

-- What is written before the wallet is called, so that a crash can be recovered from.
abbrev pub request_data : CashOutOperatorBetInput → SideData
request_data input = record no_side_data {
  win_txn_id = some input.win_txn_id;
  multiplier = some input.multiplier;
  win_amount_minor = some input.win_amount_minor;
}

abbrev pub win_or_fail : WalletClient → CashOutOperatorBetInput → BetRow → Method WalletBetResult
win_or_fail client input settling_row =
    try_catch (settle_win client input settling_row) (fail_win input)

-- `cashOutOperatorBet`
unfoldable pub cash_out_operator_bet :
    WalletClient → CashOutOperatorBetInput → Method WalletBetResult
cash_out_operator_bet client input =
    transition input.bet_id BetEvent.cashout_requested (request_data input)
    >>= win_or_fail client input
