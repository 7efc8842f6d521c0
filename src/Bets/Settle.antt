-- ===== src/Bets/Settle.antt =====
-- What `cashOutOperatorBet` has done when it ends.
use crash_game.Prelude.{◌≡◌, refl, ◌∙◌, ap, ◌≢◌, ◌⊎◌, inl, inr, some, [], ◌∷◌, ◌++◌}
use crash_game.Prelude.Action.{Result, ok, err, pure, bind_ok, bind_err, try_ok, try_err}
use crash_game.BetState.{
  BetState, armed, flying, settling, settled, BetEvent, next_state, transitions,
}
use crash_game.World.{
  BetRow, AlertEvent, WalletResponse, World, Thrown, wallet_failure, invalid_transition,
}
use crash_game.BetLog.{SideData, no_side_data, transition, updated}
use crash_game.BetLog.Rows.{find_row, update_row}
use crash_game.BetLog.Outcomes.{find_row-transition, transition-moved, transition-refused}
use crash_game.WalletClient.{WalletClient}
use crash_game.Bets.{
  CashOutOperatorBetInput, WalletBetResult, result_of, as_wallet_error, win_request, request_data,
  close_win, settle_win, alert_and_throw, fail_win, win_or_fail, cash_out_operator_bet,
}

-- The end of a call in which the wallet answered with the first argument, in the world `v`.
abbrev pub IsCashedOut :
    Result Thrown WalletResponse
    → CashOutOperatorBetInput
    → World
    → Result Thrown WalletBetResult × World
    → Type 0
IsCashedOut (ok resp) input v (result, w) =
    (row : BetRow) × (result ≡ ok (result_of row resp))
    × (find_row input.bet_id w.rows ≡ some row)
    × (row.state ≡ settled)
    × (row.win_amount_minor ≡ some input.win_amount_minor)
    × (row.win_op_txn_id ≡ some resp.operator_txn_id)
    × (w.alerts ≡ v.alerts)
IsCashedOut (err e) input v (result, w) =
    (row : BetRow) × (result ≡ err (wallet_failure (as_wallet_error e)))
    × (find_row input.bet_id w.rows ≡ some row)
    × (row.state ≡ BetState.win_failed)
    × (row.win_txn_id ≡ some input.win_txn_id)
    × (row.error_code ≡ some (as_wallet_error e).code)
    × (w.alerts ≡ v.alerts ++ AlertEvent.win_failed row "cashout" (as_wallet_error e).code ∷ [])

settled_next : (s : BetState) → s ≡ settling → next_state s BetEvent.win_settled ≡ ok settled
unfolding next_state transitions
settled_next s h = rw h

failed_next :
    (s : BetState) → s ≡ settling → next_state s BetEvent.win_failed ≡ ok BetState.win_failed
unfolding next_state transitions
failed_next s h = rw h

pub requested_next :
    (s : BetState)
    → (s ≡ armed) ⊎ (s ≡ flying)
    → next_state s BetEvent.cashout_requested ≡ ok settling
unfolding next_state transitions
requested_next s (inl h) = rw h
requested_next s (inr h) = rw h

module _ (client : WalletClient) (input : CashOutOperatorBetInput) where
  win_failed_end :
      (e : Thrown) (v : World) (row : BetRow)
      → find_row input.bet_id v.rows ≡ some row
      → row.state ≡ settling
      → IsCashedOut (err e) input v (fail_win input e v)
  win_failed_end e v row found is_settling =
      let side : SideData = record no_side_data {
        win_txn_id = some input.win_txn_id;
        error_code = some (as_wallet_error e).code;
      } in
      let (v', moved, left, quiet) =
        find_row-transition input.bet_id BetEvent.win_failed side v row BetState.win_failed found
          (failed_next row.state is_settling) in
      rw
        (bind_ok (transition input.bet_id BetEvent.win_failed side)
          (alert_and_throw (as_wallet_error e)) moved)
        (
          updated BetState.win_failed v.now side row,
          refl,
          left,
          refl,
          refl,
          refl,
          ap
              (λ alerts.
                alerts
                ++ AlertEvent.win_failed (updated BetState.win_failed v.now side row) "cashout"
                    (as_wallet_error e).code
                  ∷ [])
              quiet,
        )

  win_end :
      (r : Result Thrown WalletResponse) (settling_row : BetRow) (u v : World) (row : BetRow)
      → client.win (win_request input settling_row) u ≡ (r, v)
      → find_row input.bet_id v.rows ≡ some row
      → row.state ≡ settling
      → IsCashedOut r input v (win_or_fail client input settling_row u)
  win_end (ok resp) settling_row u v row answered found is_settling =
      let side : SideData = record no_side_data {
        win_txn_id = some input.win_txn_id;
        win_op_txn_id = some resp.operator_txn_id;
        win_amount_minor = some input.win_amount_minor;
        multiplier = some input.multiplier;
      } in
      let (v', moved, left, quiet) =
        find_row-transition input.bet_id BetEvent.win_settled side v row settled found
          (settled_next row.state is_settling) in
      rw
        (try_ok (settle_win client input settling_row) (fail_win input) (
          bind_ok (client.win (win_request input settling_row)) (close_win input) answered
          ∙ bind_ok (transition input.bet_id BetEvent.win_settled side)
              (λ row'. pure (result_of row' resp)) moved))
        (updated settled v.now side row, refl, left, refl, refl, refl, quiet)
  win_end (err e) settling_row u v row answered found is_settling =
      rw
        (try_err (settle_win client input settling_row) (fail_win input)
          (bind_err (client.win (win_request input settling_row)) (close_win input) answered))
        (win_failed_end e v row found is_settling)

  -- The row and the world in which the wallet's `/win` is called.
  abbrev pub requested : BetRow → World → BetRow
  requested r w = updated settling w.now (request_data input) r

  abbrev pub requested_world : BetRow → World → World
  requested_world r w = record w {
    rows = update_row input.bet_id (updated settling w.now (request_data input)) w.rows;
  }

  -- Cashing out a bet that is `ARMED` or `FLYING`, when the other handlers leave it `SETTLING`
  -- while the wallet is called: on an answer the bet is `SETTLED` with the win's amount and the
  -- operator's transaction id, and no alert is emitted; on any failure it is `WIN_FAILED`, with the
  -- win's transaction id kept for a later credit and the error's code, exactly one alert is emitted
  -- and the wallet's error is thrown.
  pub cash_out_operator_bet-IsCashedOut :
      (w : World) (r : BetRow) (answer : Result Thrown WalletResponse) (v : World) (row : BetRow)
      → find_row input.bet_id w.rows ≡ some r
      → (r.state ≡ armed) ⊎ (r.state ≡ flying)
      → client.win (win_request input (requested r w)) (requested_world r w) ≡ (answer, v)
      → find_row input.bet_id v.rows ≡ some row
      → row.state ≡ settling
      → IsCashedOut answer input v (cash_out_operator_bet client input w)
  unfolding cash_out_operator_bet
  cash_out_operator_bet-IsCashedOut w r answer v row found cashable answered later is_settling =
      rw
        (bind_ok (transition input.bet_id BetEvent.cashout_requested (request_data input))
          (win_or_fail client input)
          (transition-moved input.bet_id BetEvent.cashout_requested (request_data input) w r
            settling found (requested_next r.state cashable)))
        (win_end answer (requested r w) (requested_world r w) v row answered later is_settling)

refused_next :
    (s : BetState)
    → s ≢ armed
    → s ≢ flying
    → next_state s BetEvent.cashout_requested
      ≡ err (record { from = s; event = BetEvent.cashout_requested })
unfolding next_state transitions
refused_next armed a f = absurd (a refl)
refused_next flying a f = absurd (f refl)
refused_next _ a f = refl

-- A bet in any other state, one that is being cashed out or has been among them, is refused before
-- the wallet is called: the error names the state, and nothing has changed.
pub cash_out_operator_bet-refused :
    (client : WalletClient) (input : CashOutOperatorBetInput) (w : World) (r : BetRow)
    → find_row input.bet_id w.rows ≡ some r
    → r.state ≢ armed
    → r.state ≢ flying
    → cash_out_operator_bet client input w ≡ (
      err (invalid_transition (record { from = r.state; event = BetEvent.cashout_requested })),
      w,
    )
unfolding cash_out_operator_bet
cash_out_operator_bet-refused client input w r found a f =
    bind_err (transition input.bet_id BetEvent.cashout_requested (request_data input))
      (win_or_fail client input)
      (transition-refused input.bet_id BetEvent.cashout_requested (request_data input) w r _ found
        (refused_next r.state a f))
