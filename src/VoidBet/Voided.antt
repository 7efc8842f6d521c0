-- ===== src/VoidBet/Voided.antt =====
-- What `voidOperatorBet` has done when it ends.
use crash_game.Prelude.{
  String, ◌≡◌, refl, ◌∙◌, ◌≢◌, true, false, Option, some, [], ◌∷◌, ◌++◌, arith,
}
use crash_game.Prelude.Action.{Result, ok, err, try_catch, pure, bind_ok, bind_err, try_ok, try_err}
use crash_game.BetState.{
  BetState, pending, rollback_pending, voided, BetEvent, next_state, transitions, is_terminal,
}
use crash_game.World.{BetRow, AlertEvent, WalletResponse, World, Thrown}
use crash_game.BetLog.{SideData, no_side_data, transition, updated}
use crash_game.BetLog.Rows.{find_row, update_row}
use crash_game.BetLog.Outcomes.{find_row-transition, transition-moved}
use crash_game.WalletClient.{WalletClient}
use crash_game.VoidBet.{
  VoidResult, did_void, skipped, rollback_id, error_string, rollback_request, reason_data,
  start_try, start_catch, complete_rollback, rollback_try, rollback_catch, after_start, void_row,
  void_operator_bet,
}

-- The end of a call whose rollback the wallet answered with the first argument, in the world `v`.
abbrev pub IsVoided :
    Result Thrown WalletResponse
    → (bet_id txn_id reason : String) → BetRow
    → World
    → Result Thrown VoidResult × World
    → Type 0
IsVoided (ok resp) bet_id txn_id reason row v (result, w) =
    (last : BetRow) × (result ≡ ok did_void)
    × (find_row bet_id w.rows ≡ some last)
    × (last.state ≡ voided)
    × (last.rollback_txn_id ≡ some txn_id)
    × (w.alerts ≡ v.alerts)
IsVoided (err e) bet_id txn_id reason row v (result, w) =
    (result ≡ ok skipped)
    × (w ≡ record v {
      alerts = v.alerts ++ AlertEvent.rollback_failed row reason (error_string e) ∷ [];
    })

started_next :
    (s : BetState)
    → is_terminal s ≡ false
    → s ≢ rollback_pending
    → next_state s BetEvent.rollback_started ≡ ok rollback_pending
unfolding next_state transitions is_terminal
started_next pending h ne = refl
started_next rollback_pending h ne = absurd (ne refl)
started_next _ h ne = ground arith

completed_next :
    (s : BetState) → s ≡ rollback_pending → next_state s BetEvent.rollback_completed ≡ ok voided
unfolding next_state transitions
completed_next s h = rw h

module _ (client_for : String → Option WalletClient) (client : WalletClient)
    (bet_id reason : String) (row : BetRow) (w : World) where
  -- The world in which the rollback is sent, and its transaction id.
  abbrev pub started_world : World
  started_world = record w {
    rows = update_row bet_id (updated rollback_pending w.now (reason_data reason)) w.rows;
  }

  abbrev pub sent_id : String
  sent_id = rollback_id (find_row bet_id started_world.rows) row

  finish_IsVoided :
      (answer : Result Thrown WalletResponse) (v : World) (late : BetRow)
      → client.rollback (rollback_request row sent_id reason) started_world ≡ (answer, v)
      → find_row bet_id v.rows ≡ some late
      → late.state ≡ rollback_pending
      → IsVoided answer bet_id sent_id reason row v
          (after_start client bet_id reason row true started_world)
  finish_IsVoided (ok resp) v late answered found is_pending =
      let side : SideData = record no_side_data { rollback_txn_id = some sent_id } in
      let (v', step, left, quiet) =
        find_row-transition bet_id BetEvent.rollback_completed side v late voided found
          (completed_next late.state is_pending) in
      rw
        (try_ok (rollback_try client bet_id reason row sent_id) (rollback_catch reason row) (
          bind_ok (client.rollback (rollback_request row sent_id reason))
            (complete_rollback bet_id sent_id) answered
          ∙ bind_ok (transition bet_id BetEvent.rollback_completed side) (λ _. pure did_void) step))
        (updated voided v.now side late, refl, left, refl, refl, quiet)
  finish_IsVoided (err e) v late answered found is_pending =
      rw
        (try_err (rollback_try client bet_id reason row sent_id) (rollback_catch reason row) (
          bind_err (client.rollback (rollback_request row sent_id reason))
            (complete_rollback bet_id sent_id) answered))
        (refl, refl)

  -- Voiding a bet that is `PENDING`, `ARMED`, `FLYING` or `SETTLING`, with a client for its
  -- operator, when the other handlers leave it `ROLLBACK_PENDING` while the wallet is called: on an
  -- answer the bet is `VOIDED`, the rollback's transaction id is in the row, and no alert is
  -- emitted; on any failure exactly one alert is emitted, nothing else changes, and the call is
  -- skipped, so that the bet stays `ROLLBACK_PENDING` for the recovery.
  pub void_operator_bet-IsVoided :
      (answer : Result Thrown WalletResponse) (v : World) (late : BetRow)
      → find_row bet_id w.rows ≡ some row
      → is_terminal row.state ≡ false
      → row.state ≢ rollback_pending
      → client_for row.operator_id ≡ some client
      → client.rollback (rollback_request row sent_id reason) started_world ≡ (answer, v)
      → find_row bet_id v.rows ≡ some late
      → late.state ≡ rollback_pending
      → IsVoided answer bet_id sent_id reason row v
          (void_operator_bet (some client_for) bet_id reason w)
  unfolding void_operator_bet void_row
  void_operator_bet-IsVoided answer v late there in_play ne has_client answered found is_pending =
      rw (there, in_play, has_client)
        (rw
          (bind_ok (try_catch (start_try bet_id reason) start_catch)
            (after_start client bet_id reason row)
            (try_ok (start_try bet_id reason) start_catch (
              bind_ok (transition bet_id BetEvent.rollback_started (reason_data reason))
                (λ _. pure true)
                (transition-moved bet_id BetEvent.rollback_started (reason_data reason) w row
                  rollback_pending there (started_next row.state in_play ne)))))
          (finish_IsVoided answer v late answered found is_pending))
