-- ===== src/ExpireBets.antt =====
-- packages/server/src/game/bets.ts: `expireOperatorBetsOnCrash`, which loses the bets of a round
-- that are still in play when it crashes.
pub mod Step
pub mod Loop
pub mod Crash
pub mod Race
use crash_game.Prelude.{
  ℕ, ◌+◌, String, Bool, true, false, ◌&&◌, ◌||◌, Option, none, some, List, [], ◌∷◌, str_eq,
  if◌then◌else◌,
}
use crash_game.Prelude.Action.{Result, ok, err, pure, throw, try_catch, ◌>>=◌}
use crash_game.BetState.{BetState, armed, flying, BetEvent, same_state}
use crash_game.World.{BetRow, World, Thrown, Method, invalid_transition}
use crash_game.BetLog.{no_side_data, transition, list_by_round}

-- The two tests with which the loop skips a row, negated: the row is of the game, if one is given,
-- and `ARMED` or `FLYING`.
abbrev pub expires : Option String → BetRow → Bool
expires game_id row =
    (elim game_id [ none ↦ true | some g ↦ str_eq row.game_id g ])
    && (same_state armed row.state || same_state flying row.state)

abbrev pub crash_try : BetRow → Method ℕ
crash_try row = transition row.bet_id BetEvent.round_crashed no_side_data >>= λ _. pure 1

abbrev pub crash_catch : Thrown → Method ℕ
crash_catch (invalid_transition _) = pure 0
crash_catch other = throw other

-- One round of the loop: how much it adds to the count.
unfoldable pub expire_row : BetRow → Method ℕ
expire_row row = try_catch (crash_try row) crash_catch

-- What other handlers write while the loop waits for the log, before it writes for a row.
abbrev pub Meanwhile : Type 0
Meanwhile = BetRow → World → World

unfoldable pub expire_rows : Meanwhile → Option String → List BetRow → ℕ → Method ℕ
unfolding expire_row
expire_rows others game_id [] count w = (ok count, w)
expire_rows others game_id (row ∷ rows) count w = elim (expires game_id row) [
  | false ↦ expire_rows others game_id rows count w
  | true ↦
      let (r, w') = expire_row row (others row w) in
      elim r [ ok n ↦ expire_rows others game_id rows (count + n) w' | err e ↦ (err e, w') ]
]

-- `expireOperatorBetsOnCrash`
unfoldable pub expire_operator_bets_on_crash : Meanwhile → String → Option String → Method ℕ
unfolding expire_rows
expire_operator_bets_on_crash others round_id game_id =
    list_by_round round_id >>= λ rows. expire_rows others game_id rows 0

-- Nothing else is written.
abbrev pub quiet : Meanwhile
quiet row w = w
