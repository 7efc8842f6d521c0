-- ===== src/Recovery.antt =====
-- packages/wallet/src/recovery.ts: the worker that drives the rows left by a crash to an end, in
-- three sweeps. `clientCache` returns what `getClient` has computed for an operator, so it is the
-- function `client_for`, without a client for an unknown operator or a factory that throws.
pub mod Rows
pub mod Total
pub mod Report
pub mod Resend
use crash_game.Prelude.{
  ℕ, ◌+◌, ◌-◌, String, concat, Bool, true, false, Option, none, some, List, [], ◌∷◌, length, any,
  str_eq, or_else, if◌then◌else◌,
}
use crash_game.Prelude.Int.{ℤ, pos, sub_ℕ}
use crash_game.Prelude.Action.{Result, ok, err, pure, try_catch, ◌>>=◌}
use crash_game.BetState.{BetState, pending, rollback_pending, settling, BetEvent}
use crash_game.Errors.{WalletError}
use crash_game.World.{BetRow, AlertEvent, WalletResponse, World, Thrown, Method, wallet_failure}
use crash_game.BetLog.{SideData, no_side_data, transition, list_by_state}
use crash_game.WalletClient.{WalletClient, RollbackRequest, WinRequest}
use crash_game.Bets.{emit}

-- How the loop ends with a row: the counter of the report that goes up.
pub data Verdict : Type 0 where
  resolved failed skipped : Verdict

-- A bucket of `RecoveryReport`.
pub record Count : Type 0 where
  pub found : ℤ
  pub resolved_count : ℕ
  pub failed_count : ℕ
  pub skipped_count : ℕ

pub record RecoveryReport : Type 0 where
  pub pending_count : Count
  pub rollback_pending_count : Count
  pub settling_count : Count

abbrev pub counted : Verdict → Count → Count
counted resolved c = record c { resolved_count = c.resolved_count + 1 }
counted failed c = record c { failed_count = c.failed_count + 1 }
counted skipped c = record c { skipped_count = c.skipped_count + 1 }

abbrev pub found_only : ℕ → Count
found_only n = record { found = pos n; resolved_count = 0; failed_count = 0; skipped_count = 0 }

abbrev pub give_up : Thrown → Method Verdict
give_up _ = pure failed

-- Step 1, one row: whether it was moved to `ROLLBACK_PENDING`
abbrev pub pending_data : SideData
pending_data = record no_side_data { error_code = some "recovery_pending_at_startup" }

abbrev pub start_row_try : BetRow → Method Bool
start_row_try row = transition row.bet_id BetEvent.rollback_started pending_data >>= λ _. pure true

abbrev pub not_moved : Thrown → Method Bool
not_moved _ = pure false

unfoldable pub pending_row : BetRow → Method Bool
pending_row row = try_catch (start_row_try row) not_moved

-- The first loop: the ids of the moved rows, `pendingOriginatedBetIds`, and the bucket
unfoldable pub pending_sweep : List BetRow → List String → Count → Method (List String × Count)
unfolding pending_row
pending_sweep [] moved_ids c = pure (moved_ids, c)
pending_sweep (row ∷ rows) moved_ids c = pending_row row >>= λ has_moved.
    pending_sweep rows (if has_moved then row.bet_id ∷ moved_ids else moved_ids)
      (if has_moved then c else counted failed c)

-- Step 2, one row
abbrev pub recovery_rollback_id : BetRow → String
recovery_rollback_id row = or_else row.rollback_txn_id (concat "rb-" row.bet_txn_id)

abbrev pub recovery_rollback : BetRow → RollbackRequest
recovery_rollback row = record {
  player_id = row.player_id;
  bet_txn_id = row.bet_txn_id;
  txn_id = recovery_rollback_id row;
  reason = "round_voided";
}

abbrev pub close_rollback : BetRow → WalletResponse → Method Verdict
close_rollback row _ =
    transition row.bet_id BetEvent.rollback_completed
      (record no_side_data { rollback_txn_id = some (recovery_rollback_id row) })
    >>= λ _. pure resolved

abbrev pub rollback_row_try : WalletClient → BetRow → Method Verdict
rollback_row_try client row = client.rollback (recovery_rollback row) >>= close_rollback row

unfoldable pub rollback_row : Option WalletClient → BetRow → Method Verdict
rollback_row none row = pure skipped
rollback_row (some client) row = try_catch (rollback_row_try client row) give_up

-- The second loop, with the buckets `pending` and `rollbackPending`
unfoldable pub rollback_sweep :
    (String → Option WalletClient)
    → List String
    → List BetRow
    → Count × Count
    → Method (Count × Count)
unfolding rollback_row
rollback_sweep client_for moved_ids [] buckets = pure buckets
rollback_sweep client_for moved_ids (row ∷ rows) buckets =
    rollback_row (client_for row.operator_id) row >>= λ v.
    rollback_sweep client_for moved_ids rows (
      if any (str_eq row.bet_id) moved_ids
      then (counted v buckets.0, buckets.1)
      else (buckets.0, counted v buckets.1))

-- Step 3, one row; the time comes from the clock of the world in which `/win` is sent.
abbrev pub recovery_win :
    BetRow → (win_txn_id : String) → (win_amount_minor multiplier : ℕ) → ℕ → WinRequest
recovery_win row win_txn_id win_amount_minor multiplier now = record {
  player_id = row.player_id;
  session_id = row.session_id;
  round_id = row.round_id;
  bet_id = row.bet_id;
  bet_txn_id = row.bet_txn_id;
  txn_id = win_txn_id;
  amount_minor = win_amount_minor;
  multiplier = multiplier;
  currency = row.currency;
  settled_at = some now;
}

abbrev pub settled_data :
    (win_txn_id : String) → (win_amount_minor multiplier : ℕ) → WalletResponse → SideData
settled_data win_txn_id win_amount_minor multiplier resp = record no_side_data {
  win_txn_id = some win_txn_id;
  win_op_txn_id = some resp.operator_txn_id;
  win_amount_minor = some win_amount_minor;
  multiplier = some multiplier;
}

abbrev pub close_settling : BetRow → String → ℕ → ℕ → WalletResponse → Method Verdict
close_settling row win_txn_id win_amount_minor multiplier resp =
    transition row.bet_id BetEvent.win_settled
      (settled_data win_txn_id win_amount_minor multiplier resp)
    >>= λ _. pure resolved

abbrev pub settling_try : WalletClient → BetRow → String → ℕ → ℕ → Method Verdict
settling_try client row win_txn_id win_amount_minor multiplier w =
    (client.win (recovery_win row win_txn_id win_amount_minor multiplier w.now)
        >>= close_settling row win_txn_id win_amount_minor multiplier)
      w

-- The `catch`: only a `WalletError` closes the row.
abbrev pub failed_data : String → WalletError → SideData
failed_data win_txn_id e = record no_side_data {
  win_txn_id = some win_txn_id;
  error_code = some e.code;
}

abbrev pub alert_failed : WalletError → BetRow → Method Verdict
alert_failed e failed_row =
    emit (AlertEvent.win_failed failed_row "recovery" e.code) >>= λ _. pure failed

abbrev pub close_failed : BetRow → String → WalletError → Method Verdict
close_failed row win_txn_id e =
    transition row.bet_id BetEvent.win_failed (failed_data win_txn_id e) >>= alert_failed e

abbrev pub settling_catch : BetRow → String → Thrown → Method Verdict
settling_catch row win_txn_id (wallet_failure e) = try_catch (close_failed row win_txn_id e) give_up
settling_catch row win_txn_id _ = pure failed

abbrev pub settling_call : Option WalletClient → BetRow → String → ℕ → ℕ → Method Verdict
settling_call none row win_txn_id win_amount_minor multiplier = pure skipped
settling_call (some client) row win_txn_id win_amount_minor multiplier =
    try_catch (settling_try client row win_txn_id win_amount_minor multiplier)
      (settling_catch row win_txn_id)

abbrev pub settling_fields :
    Option WalletClient → BetRow → Option String → Option ℕ → Option ℕ → Method Verdict
settling_fields client row (some win_txn_id) (some win_amount_minor) (some multiplier) =
    settling_call client row win_txn_id win_amount_minor multiplier
settling_fields client row _ _ _ = pure skipped

unfoldable pub settling_row : Option WalletClient → BetRow → Method Verdict
settling_row client row =
    settling_fields client row row.win_txn_id row.win_amount_minor row.multiplier

unfoldable pub settling_sweep : (String → Option WalletClient) → List BetRow → Count → Method Count
unfolding settling_row
settling_sweep client_for [] c = pure c
settling_sweep client_for (row ∷ rows) c = settling_row (client_for row.operator_id) row >>= λ v.
    settling_sweep client_for rows (counted v c)

unfoldable pub settling_phase :
    (String → Option WalletClient) → ℕ → Count → Count → Method RecoveryReport
unfolding settling_sweep
settling_phase client_for max_per_state p r = list_by_state settling max_per_state >>= λ rows.
    settling_sweep client_for rows (found_only (length rows)) >>= λ s.
    pure (record { pending_count = p; rollback_pending_count = r; settling_count = s })

-- `report.rollbackPending.found = rollbackPendingRows.length - pendingOriginatedBetIds.size`; the
-- ids in the set are keys of rows, so that the list of them has the size of the set.
abbrev pub adjusted : ℕ → List String → Count → Count
adjusted listed moved_ids r = record r { found = sub_ℕ listed (length moved_ids) }

unfoldable pub rollback_phase :
    (String → Option WalletClient) → ℕ → List String × Count → Method RecoveryReport
unfolding rollback_sweep settling_phase
rollback_phase client_for max_per_state (moved_ids, p) =
    list_by_state rollback_pending max_per_state >>= λ rows.
    rollback_sweep client_for moved_ids rows (p, found_only (length rows)) >>= λ buckets.
    settling_phase client_for max_per_state buckets.0 (adjusted (length rows) moved_ids buckets.1)

-- `runRecovery`
unfoldable pub run_recovery : (String → Option WalletClient) → ℕ → Method RecoveryReport
unfolding pending_sweep rollback_phase
run_recovery client_for max_per_state = list_by_state pending max_per_state >>= λ rows.
    pending_sweep rows [] (found_only (length rows)) >>= rollback_phase client_for max_per_state
