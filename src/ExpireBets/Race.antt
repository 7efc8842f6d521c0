-- ===== src/ExpireBets/Race.antt =====
-- `expireOperatorBetsOnCrash` beside handlers that cash out and void the same bets.
use crash_game.Prelude.{ℕ, ◌≤◌, String, ◌≡◌, some}
use crash_game.BetState.{BetState}
use crash_game.World.{BetRow, World}
use crash_game.BetLog.Rows.{find_row, update_row}
use crash_game.BetLog.Forward.{phase}
use crash_game.ExpireBets.Step.{lost_row}

lost_in : BetRow → World → World
lost_in row w = record w { rows = update_row row.bet_id (lost_row w.now) w.rows }

-- The bet has come at least so far.
abbrev pub HasCome : ℕ → String → World → Type 0
HasCome n k w = (r : BetRow) × (find_row k w.rows ≡ some r) × (n ≤ phase r.state)
