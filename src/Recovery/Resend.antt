-- ===== src/Recovery/Resend.antt =====
-- Recovery sends the win of a cash-out that was cut off, with a client that has no bet log.
use crash_game.Prelude.{ℕ, some}
use crash_game.BetState.{settling}
use crash_game.World.{BetRow, WalletResponse, World, Method}
use crash_game.BetLog.{updated}
use crash_game.WalletClient.{Payload, WinRequest, client_without_log, WalletClient}
use crash_game.Bets.{CashOutOperatorBetInput, request_data, win_request}

module _ (sleep : ℕ → World → World) (max_rollback_attempts : ℕ)
    (do_request : Payload → Method WalletResponse) (input : CashOutOperatorBetInput) where
  abbrev client : WalletClient
  client = client_without_log sleep max_rollback_attempts do_request

  -- The row that `cashOutOperatorBet` writes before it calls the wallet, and the request that it
  -- sends for it, at a later time.
  abbrev pub cut_off : ℕ → BetRow → BetRow
  cut_off now r = updated settling now (request_data input) r

  abbrev pub sent_again : BetRow → ℕ → WinRequest
  sent_again row now = record (win_request input row) { settled_at = some now }
