-- ===== src/Examples/Data.antt =====
-- A bet, a log that holds it, and clients that answer at once.
use crash_game.Prelude.{false, none, List, []}
use crash_game.Prelude.Action.{Result}
use crash_game.BetState.{BetState}
use crash_game.Errors.{WalletError, network_error, wallet_error}
use crash_game.World.{BetRow, WalletResponse, World, Thrown}
use crash_game.WalletClient.{WalletClient}

abbrev pub bet_in : BetState → BetRow
bet_in state = record {
  bet_id = "b1";
  operator_id = "op";
  player_id = "p1";
  session_id = "s1";
  round_id = "r1";
  currency = "KES";
  amount_minor = 1000;
  state = state;
  bet_txn_id = "t1";
  win_txn_id = none;
  rollback_txn_id = none;
  bet_op_txn_id = none;
  win_op_txn_id = none;
  win_amount_minor = none;
  multiplier = none;
  error_code = none;
  game_id = "crash";
  created_at = 5;
  updated_at = 5;
}

abbrev pub log_of : List BetRow → World
log_of rows = record { rows = rows; idempotency = []; alerts = []; now = 10 }

abbrev pub paid : WalletResponse
paid = record { operator_txn_id = "o1"; balance_minor = 5000; currency = "KES"; status = none }

-- Clients whose every call ends alike and leaves the log as it is.
abbrev pub client_of : Result Thrown WalletResponse → WalletClient
client_of r = record { bet = λ req w. (r, w); win = λ req w. (r, w); rollback = λ req w. (r, w) }

abbrev pub refusal : WalletError
refusal = record {
  name = wallet_error;
  code = "INSUFFICIENT_FUNDS";
  message = "too poor";
  http_status = 402;
  retryable = false;
  balance_minor = none;
}

abbrev pub unreachable : WalletError
unreachable = network_error "unreachable"
