-- ===== src/Examples/Recovered.antt =====
-- A crash, and the recovery after it.
use crash_game.BetLog.Histories.{LogCall, transition_call, after_calls}
use crash_game.Prelude.{
  List, ℕ, String, ◌≡◌, refl, Option, none, some, [], ◌∷◌, str_eq, if◌then◌else◌,
}
use crash_game.Prelude.Action.{ok, err}
use crash_game.BetState.{BetEvent, pending, flying, settling, rollback_pending}
use crash_game.World.{BetRow, World, WalletResponse, Method, wallet_failure}
use crash_game.BetLog.Rows.{find_row}
use crash_game.BetLog.Histories.{after_calls}
use crash_game.WalletClient.{WalletClient, Payload}
use crash_game.Bets.{CashOutOperatorBetInput}
use crash_game.Recovery.{run_recovery, rollback_row, settling_row, RecoveryReport}
use crash_game.Recovery.Rows.{
  IsRolledBack, IsRewon, rollback_row-IsRolledBack, settling_row-IsRewon,
}
use crash_game.Recovery.Report.{AddsUp, run_recovery-AddsUp}
use crash_game.Bets.{request_data}
use crash_game.Examples.Data.{bet_in, log_of, paid, client_of, unreachable}

abbrev cashing : CashOutOperatorBetInput
cashing = record {
  bet_id = "b1";
  win_txn_id = "w1";
  multiplier = 250;
  win_amount_minor = 2500;
  settled_at = 11;
}

abbrev paying : WalletClient
paying = client_of (ok paid)

abbrev dead : WalletClient
dead = client_of (err (wallet_failure unreachable))

abbrev half_voided : World
half_voided = log_of (bet_in rollback_pending ∷ [])

rollback_row-IsRolledBack_example :
    IsRolledBack
      (ok paid)
      (bet_in rollback_pending)
      half_voided
      (rollback_row (some paying) (bet_in rollback_pending) half_voided)
unfolding find_row
rollback_row-IsRolledBack_example =
    rollback_row-IsRolledBack paying (bet_in rollback_pending) half_voided half_voided (ok paid)
      (bet_in rollback_pending) refl refl refl

abbrev half_won : BetRow
half_won = record (bet_in settling) {
  win_txn_id = some "w1";
  win_amount_minor = some 2500;
  multiplier = some 250;
}

settling_row-IsRewon_example :
    IsRewon
      (err (wallet_failure unreachable))
      half_won
      "w1"
      2500
      (log_of (half_won ∷ []))
      (settling_row (some dead) half_won (log_of (half_won ∷ [])))
unfolding find_row
settling_row-IsRewon_example =
    settling_row-IsRewon dead half_won "w1" 2500 250 (log_of (half_won ∷ [])) half_won refl refl
      (log_of (half_won ∷ [])) (err (wallet_failure unreachable)) refl refl refl refl

abbrev client_for : String → Option WalletClient
client_for id = if str_eq id "op" then some paying else none

abbrev crashed : World
crashed = log_of (bet_in pending ∷ record half_won { bet_id = "b2"; bet_txn_id = "t2" } ∷ [])

run_recovery-AddsUp_example :
    (report : RecoveryReport) × (w' : World) × (run_recovery client_for 500 crashed
      ≡ (ok report, w'))
    × AddsUp report
run_recovery-AddsUp_example = run_recovery-AddsUp client_for 500 crashed

abbrev no_sleep : ℕ → World → World
no_sleep ms w = w

abbrev requests : Payload → Method WalletResponse
requests payload w = (ok paid, w)

abbrev in_play : World
in_play = log_of (bet_in flying ∷ [])

-- A cash-out of the bet begins after the rows were listed.
abbrev meanwhile : BetRow → List LogCall
meanwhile row = transition_call "b1" BetEvent.cashout_requested (request_data cashing) ∷ []
