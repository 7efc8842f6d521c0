-- ===== src/Recovery/Rows.antt =====
-- What recovery does with one row.
use crash_game.Prelude.{String, ◌≡◌, refl, sym, ap, ◌∙◌, some, ◌∷◌, [], ◌++◌, ℕ}
use mathlib.Core.Path.{subst}
use crash_game.Prelude.Action.{Result, ok, err, pure, bind_ok, bind_err, try_ok, try_err}
use crash_game.BetState.{
  BetState, settling, settled, rollback_pending, voided, BetEvent, next_state, transitions,
}
use crash_game.World.{BetRow, AlertEvent, WalletResponse, World, Thrown, wallet_failure}
use crash_game.BetLog.{SideData, no_side_data, transition, updated}
use crash_game.BetLog.Rows.{find_row}
use crash_game.BetLog.Outcomes.{find_row-transition}
use crash_game.WalletClient.{WalletClient}
use crash_game.Recovery.{
  Verdict, resolved, failed, recovery_rollback_id, recovery_rollback, close_rollback,
  rollback_row_try, give_up, rollback_row, recovery_win, close_settling, settling_try, settled_data,
  failed_data, close_failed, alert_failed, settling_catch, settling_call, settling_fields,
  settling_row,
}

-- The end of a row that was `ROLLBACK_PENDING`, by the operator's answer.
abbrev pub IsRolledBack :
    Result Thrown WalletResponse → BetRow → World → Result Thrown Verdict × World → Type 0
IsRolledBack (ok resp) row v (result, w) =
    (last : BetRow) × (result ≡ ok resolved)
    × (find_row row.bet_id w.rows ≡ some last)
    × (last.state ≡ voided)
    × (last.rollback_txn_id ≡ some (recovery_rollback_id row))
IsRolledBack (err e) row v (result, w) = (result ≡ ok failed) × (w ≡ v)

completed_next :
    (s : BetState) → s ≡ rollback_pending → next_state s BetEvent.rollback_completed ≡ ok voided
unfolding next_state transitions
completed_next s h = rw h

-- Recovery of a row with a client, when the other handlers leave it `ROLLBACK_PENDING` while the
-- wallet is called: on an answer the bet is `VOIDED` with the rollback's transaction id and counts
-- as resolved; on any error it counts as failed, and nothing is written after the call, so that the
-- next run finds it again.
pub rollback_row-IsRolledBack :
    (client : WalletClient) (row : BetRow) (w v : World) (answer : Result Thrown WalletResponse)
    (late : BetRow)
    → client.rollback (recovery_rollback row) w ≡ (answer, v)
    → find_row row.bet_id v.rows ≡ some late
    → late.state ≡ rollback_pending
    → IsRolledBack answer row v (rollback_row (some client) row w)
unfolding rollback_row
rollback_row-IsRolledBack client row w v (ok resp) late answered found is_pending =
    let side : SideData = record no_side_data {
      rollback_txn_id = some (recovery_rollback_id row);
    } in
    let (v', step, left, quiet) =
      find_row-transition row.bet_id BetEvent.rollback_completed side v late voided found
        (completed_next late.state is_pending) in
    rw
      (try_ok (rollback_row_try client row) give_up (
        bind_ok (client.rollback (recovery_rollback row)) (close_rollback row) answered
        ∙ bind_ok (transition row.bet_id BetEvent.rollback_completed side) (λ _. pure resolved)
            step))
      (updated voided v.now side late, refl, left, refl, refl)
rollback_row-IsRolledBack client row w v (err e) late answered found is_pending =
    rw
      (try_err (rollback_row_try client row) give_up
        (bind_err (client.rollback (recovery_rollback row)) (close_rollback row) answered))
      (refl, refl)

settled_next : (s : BetState) → s ≡ settling → next_state s BetEvent.win_settled ≡ ok settled
unfolding next_state transitions
settled_next s h = rw h

failed_next :
    (s : BetState) → s ≡ settling → next_state s BetEvent.win_failed ≡ ok BetState.win_failed
unfolding next_state transitions
failed_next s h = rw h

-- The end of a row that was `SETTLING`, by the operator's answer.
abbrev pub IsRewon :
    Result Thrown WalletResponse
    → BetRow
    → String
    → ℕ
    → World
    → Result Thrown Verdict × World
    → Type 0
IsRewon (ok resp) row win_txn_id amount v (result, w) =
    (last : BetRow) × (result ≡ ok resolved)
    × (find_row row.bet_id w.rows ≡ some last)
    × (last.state ≡ settled)
    × (last.win_amount_minor ≡ some amount)
    × (last.win_op_txn_id ≡ some resp.operator_txn_id)
    × (w.alerts ≡ v.alerts)
IsRewon (err (wallet_failure e)) row win_txn_id amount v (result, w) =
    (last : BetRow) × (result ≡ ok failed)
    × (find_row row.bet_id w.rows ≡ some last)
    × (last.state ≡ BetState.win_failed)
    × (last.win_txn_id ≡ some win_txn_id)
    × (last.error_code ≡ some e.code)
    × (w.alerts ≡ v.alerts ++ AlertEvent.win_failed last "recovery" e.code ∷ [])
IsRewon (err other) row win_txn_id amount v (result, w) = (result ≡ ok failed) × (w ≡ v)

module _ (client : WalletClient) (row : BetRow) (win_txn_id : String) (amount multiplier : ℕ)
    (v : World) (late : BetRow) (found : find_row row.bet_id v.rows ≡ some late)
    (is_settling : late.state ≡ settling) where
  rewon :
      (w : World) (answer : Result Thrown WalletResponse)
      → client.win (recovery_win row win_txn_id amount multiplier w.now) w ≡ (answer, v)
      → IsRewon answer row win_txn_id amount v
          (settling_call (some client) row win_txn_id amount multiplier w)
  rewon w (ok resp) answered =
      let side : SideData = settled_data win_txn_id amount multiplier resp in
      let (v', step, left, quiet) =
        find_row-transition row.bet_id BetEvent.win_settled side v late settled found
          (settled_next late.state is_settling) in
      rw
        (try_ok (settling_try client row win_txn_id amount multiplier)
          (settling_catch row win_txn_id)
          (bind_ok (client.win (recovery_win row win_txn_id amount multiplier w.now))
              (close_settling row win_txn_id amount multiplier) answered
            ∙ bind_ok (transition row.bet_id BetEvent.win_settled side) (λ _. pure resolved) step))
        (updated settled v.now side late, refl, left, refl, refl, refl, quiet)
  rewon w (err (wallet_failure e)) answered =
      let side : SideData = failed_data win_txn_id e in
      let (v', step, left, quiet) =
        find_row-transition row.bet_id BetEvent.win_failed side v late BetState.win_failed found
          (failed_next late.state is_settling) in
      rw
        (try_err (settling_try client row win_txn_id amount multiplier)
            (settling_catch row win_txn_id)
            (bind_err (client.win (recovery_win row win_txn_id amount multiplier w.now))
              (close_settling row win_txn_id amount multiplier) answered)
          ∙ try_ok (close_failed row win_txn_id e) give_up
              (bind_ok (transition row.bet_id BetEvent.win_failed side) (alert_failed e) step))
        (
          updated BetState.win_failed v.now side late,
          refl,
          left,
          refl,
          refl,
          refl,
          ap
              (λ alerts.
                alerts
                ++ AlertEvent.win_failed (updated BetState.win_failed v.now side late) "recovery"
                    e.code
                  ∷ [])
              quiet,
        )
  rewon w (err other) answered =
      rw
        (try_err (settling_try client row win_txn_id amount multiplier)
          (settling_catch row win_txn_id)
          (bind_err (client.win (recovery_win row win_txn_id amount multiplier w.now))
            (close_settling row win_txn_id amount multiplier) answered))
        (refl, refl)

  -- Recovery of a row that has its win's data and a client, when the other handlers leave it
  -- `SETTLING` while the wallet is called: on an answer the bet is `SETTLED` with the amount and the
  -- operator's transaction id, and counts as resolved; on a `WalletError` it is `WIN_FAILED` with
  -- the error's code and exactly one alert is emitted; on any other error nothing is written after
  -- the call, and the row stays `SETTLING`. Both count as failed.
  pub settling_row-IsRewon :
      (w : World) (answer : Result Thrown WalletResponse)
      → row.win_txn_id ≡ some win_txn_id
      → row.win_amount_minor ≡ some amount
      → row.multiplier ≡ some multiplier
      → client.win (recovery_win row win_txn_id amount multiplier w.now) w ≡ (answer, v)
      → IsRewon answer row win_txn_id amount v (settling_row (some client) row w)
  unfolding settling_row
  settling_row-IsRewon w answer has_txn has_amount has_multiplier answered =
      subst (IsRewon answer row win_txn_id amount v)
        (λ i.
          settling_fields (some client) row (sym has_txn i) (sym has_amount i)
            (sym has_multiplier i) w)
        (rewon w answer answered)
