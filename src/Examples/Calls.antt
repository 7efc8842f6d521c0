-- ===== src/Examples/Calls.antt =====
-- Calls of the wallet: retries, replays, placing, cashing out and voiding a bet.
use crash_game.Prelude.{ℕ, String, ◌≡◌, refl, inr, Option, some, [], ◌∷◌, arith}
use crash_game.Prelude.Action.{ok, err}
use crash_game.BetState.{flying, settling, rollback_pending, is_terminal}
use crash_game.World.{World, TxnKind, WalletResponse, Method, wallet_failure}
use crash_game.BetLog.{updated, new_row}
use crash_game.BetLog.Rows.{find_row, find_txn, update_row}
use crash_game.BetLog.Histories.{time_call, after_calls}
use crash_game.WalletClient.{WalletClient, with_idempotency}
use crash_game.WalletClient.Replay.{with_idempotency_replays}
use crash_game.Bets.{
  PlaceOperatorBetInput, place_operator_bet, CashOutOperatorBetInput, cash_out_operator_bet,
  create_input, request_data,
}
use crash_game.Bets.Place.{IsPlaced, place_operator_bet-IsPlaced, created}
use crash_game.Bets.Settle.{IsCashedOut, cash_out_operator_bet-IsCashedOut, requested_world}
use crash_game.VoidBet.{void_operator_bet, reason_data}
use crash_game.VoidBet.Voided.{IsVoided, void_operator_bet-IsVoided, started_world, sent_id}
use crash_game.Examples.Data.{bet_in, log_of, paid, client_of, refusal, unreachable}

abbrev too_many : ℕ
too_many = 429

abbrev accepting : Method WalletResponse
accepting w = (ok paid, w)

abbrev failing : Method WalletResponse
failing w = (err (wallet_failure unreachable), w)

abbrev later : World
later =
    after_calls (time_call 60 ∷ [])
      (with_idempotency "op" "h1" TxnKind.win "w1" accepting (log_of [])).1

with_idempotency_replays_example :
    with_idempotency "op" "h1" TxnKind.win "w1" failing later ≡ (ok paid, later)
with_idempotency_replays_example =
    with_idempotency_replays "op" "h1" "h1" TxnKind.win TxnKind.win "w1" accepting failing
      (log_of []) (time_call 60 ∷ []) refl refl refl

abbrev placing : PlaceOperatorBetInput
placing = record {
  operator_id = "op";
  player_id = "p1";
  session_id = "s1";
  round_id = "r1";
  currency = "KES";
  amount_minor = 1000;
  bet_id = "b2";
  bet_txn_id = "t2";
  game_id = "crash";
}

abbrev declining : WalletClient
declining = client_of (err (wallet_failure refusal))

abbrev placed_world : World
placed_world = created declining placing (log_of (bet_in flying ∷ []))

place_operator_bet-IsPlaced_example :
    IsPlaced
      (err (wallet_failure refusal))
      "b2"
      (place_operator_bet declining placing (log_of (bet_in flying ∷ [])))
unfolding find_row find_txn
place_operator_bet-IsPlaced_example =
    place_operator_bet-IsPlaced declining placing (log_of (bet_in flying ∷ []))
      (err (wallet_failure refusal)) placed_world (new_row (create_input placing) 10) refl refl refl
      refl refl

abbrev cashing : CashOutOperatorBetInput
cashing = record {
  bet_id = "b1";
  win_txn_id = "w1";
  multiplier = 250;
  win_amount_minor = 2500;
  settled_at = 11;
}

abbrev flying_log : World
flying_log = log_of (bet_in flying ∷ [])

cash_out_operator_bet-IsCashedOut_example :
    IsCashedOut
      (ok paid)
      cashing
      (requested_world (client_of (ok paid)) cashing (bet_in flying) flying_log)
      (cash_out_operator_bet (client_of (ok paid)) cashing flying_log)
unfolding find_row update_row
cash_out_operator_bet-IsCashedOut_example =
    cash_out_operator_bet-IsCashedOut (client_of (ok paid)) cashing flying_log (bet_in flying)
      (ok paid) (requested_world (client_of (ok paid)) cashing (bet_in flying) flying_log)
      (updated settling 10 (request_data cashing) (bet_in flying)) refl (inr refl) refl refl refl

abbrev client_for : String → Option WalletClient
client_for _ = some (client_of (ok paid))

void_operator_bet-IsVoided_example :
    IsVoided
      (ok paid)
      "b1"
      (sent_id client_for (client_of (ok paid)) "b1" "manual_void" (bet_in flying) flying_log)
      "manual_void"
      (bet_in flying)
      (started_world client_for (client_of (ok paid)) "b1" "manual_void" (bet_in flying) flying_log)
      (void_operator_bet (some client_for) "b1" "manual_void" flying_log)
unfolding find_row update_row is_terminal
void_operator_bet-IsVoided_example =
    void_operator_bet-IsVoided client_for (client_of (ok paid)) "b1" "manual_void" (bet_in flying)
      flying_log (ok paid)
      (started_world client_for (client_of (ok paid)) "b1" "manual_void" (bet_in flying) flying_log)
      (updated rollback_pending 10 (reason_data "manual_void") (bet_in flying)) refl refl
      (ground arith) refl refl refl refl
