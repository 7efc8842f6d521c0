-- ===== src/ExpireBets/Step.antt =====
-- How the loop body of `expireOperatorBetsOnCrash` ends.
use crash_game.Prelude.{ℕ, ◌≡◌, ◌∙◌, ap, ◌⊎◌, inl, inr, none, some, arith}
use crash_game.Prelude.Action.{ok, err, pure, bind_ok, bind_err, try_ok, try_err}
use crash_game.BetState.{
  BetState, pending, InvalidTransitionError, armed, flying, lost, BetEvent, next_state, transitions,
}
use crash_game.World.{BetRow, World, Thrown, bet_not_found}
use crash_game.BetLog.{no_side_data, transition, updated}
use crash_game.BetLog.Rows.{find_row, update_row}
use crash_game.BetLog.Outcomes.{transition-Outcome, missing, refused, moved}
use crash_game.ExpireBets.{crash_try, crash_catch, expire_row}

pub crashed_next :
    (s : BetState) → (s ≡ armed) ⊎ (s ≡ flying) → next_state s BetEvent.round_crashed ≡ ok lost
unfolding next_state transitions
crashed_next s (inl h) = rw h
crashed_next s (inr h) = rw h

pub lost_stays :
    (s : BetState) (t : BetState) → s ≡ lost → ¬ (next_state s BetEvent.round_crashed ≡ ok t)
unfolding next_state transitions
lost_stays s t h e = ground arith

-- The row after a crash that took it.
abbrev pub lost_row : ℕ → BetRow → BetRow
lost_row now r = updated lost now no_side_data r

-- How one row of the listing ends: as an abort only if its bet is gone.
pub data RowEnd (row : BetRow) (w : World) : Type 0 where
  gone :
      find_row row.bet_id w.rows ≡ none
      → (e : Thrown) → expire_row row w ≡ (err e, w)
      → RowEnd row w
  same :
      (r : BetRow) (x : InvalidTransitionError)
      → find_row row.bet_id w.rows ≡ some r
      → next_state r.state BetEvent.round_crashed ≡ err x
      → expire_row row w ≡ (ok 0, w)
      → RowEnd row w
  taken :
      (r : BetRow)
      → find_row row.bet_id w.rows ≡ some r
      → next_state r.state BetEvent.round_crashed ≡ ok lost
      → expire_row row w
        ≡ (ok 1, record w { rows = update_row row.bet_id (updated lost w.now no_side_data) w.rows })
      → RowEnd row w

only_lost : (s : BetState) (t : BetState) → next_state s BetEvent.round_crashed ≡ ok t → t ≡ lost
unfolding next_state transitions
only_lost pending t h = ground arith
only_lost _ t h = ground arith

pub row_end : (row : BetRow) (w : World) → RowEnd row w
unfolding expire_row
row_end row w = elim (transition-Outcome row.bet_id BetEvent.round_crashed no_side_data w) [
  | missing absent stop ↦ gone absent (bet_not_found row.bet_id) (
      try_err (crash_try row) crash_catch
        (bind_err (transition row.bet_id BetEvent.round_crashed no_side_data) (λ _. pure 1) stop))
  | refused r x found next stop ↦ same r x found next (
      try_err (crash_try row) crash_catch
        (bind_err (transition row.bet_id BetEvent.round_crashed no_side_data) (λ _. pure 1) stop))
  | moved r t found next done ↦
      let is_lost = only_lost r.state t next in
      taken r found (next ∙ ap ok is_lost) (
        try_ok (crash_try row) crash_catch (
          bind_ok (transition row.bet_id BetEvent.round_crashed no_side_data) (λ _. pure 1)
            (done ∙ λ i. (
              ok (updated (is_lost i) w.now no_side_data r),
              record w {
                rows = update_row row.bet_id (updated (is_lost i) w.now no_side_data) w.rows;
              },
            ))))
]
