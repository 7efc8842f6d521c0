-- ===== src/Bets/Place.antt =====
-- What `placeOperatorBet` has done when it ends.
use crash_game.Prelude.{
  String, ◌≡◌, refl, ◌∙◌, sym, Bool, true, false, none, some, [], ◌∷◌, ◌++◌, arith, if◌then◌else◌,
}
use mathlib.Core.Path.{subst}
use crash_game.Prelude.Action.{
  Result, ok, err, try_catch, throw, pure, bind_ok, bind_err, try_ok, try_err,
}
use crash_game.Errors.{is_confirmed_rejection}
use crash_game.BetState.{
  BetState, pending, armed, voided, rollback_pending, BetEvent, next_state, transitions,
}
use crash_game.World.{BetRow, WalletResponse, World, Thrown, wallet_failure}
use crash_game.BetLog.{create, transition, new_row, SideData, no_side_data, updated}
use crash_game.BetLog.Rows.{find_row, find_txn}
use crash_game.BetLog.Outcomes.{find_row-transition}
use crash_game.WalletClient.{WalletClient}
use crash_game.Bets.{
  PlaceOperatorBetInput, WalletBetResult, create_input, bet_request, result_of, as_wallet_error,
  arm_bet, accept_bet, reject_bet, place_operator_bet,
}

-- The end of a call in which the wallet answered with the first argument.
abbrev pub IsPlaced :
    Result Thrown WalletResponse → String → Result Thrown WalletBetResult × World → Type 0
IsPlaced (ok resp) bet_id (result, w) =
    (row : BetRow) × (result ≡ ok (result_of row resp))
    × (find_row bet_id w.rows ≡ some row)
    × (row.state ≡ armed)
    × (row.bet_op_txn_id ≡ some resp.operator_txn_id)
IsPlaced (err e) bet_id (result, w) =
    (row : BetRow) × (result ≡ err (wallet_failure (as_wallet_error e)))
    × (find_row bet_id w.rows ≡ some row)
    × (row.state
        ≡ (if is_confirmed_rejection (as_wallet_error e) then voided else rollback_pending))
    × (row.error_code ≡ some (as_wallet_error e).code)

abbrev refusal : Bool → BetEvent
refusal confirmed = if confirmed then BetEvent.bet_rejected else BetEvent.rollback_started

refusal_next :
    (s : BetState) (confirmed : Bool)
    → s ≡ pending
    → next_state s (refusal confirmed) ≡ ok (if confirmed then voided else rollback_pending)
unfolding next_state transitions
refusal_next s true h = rw h
refusal_next s false h = rw h

accepted_next : (s : BetState) → s ≡ pending → next_state s BetEvent.bet_accepted ≡ ok armed
unfolding next_state transitions
accepted_next s h = rw h

module _ (client : WalletClient) (input : PlaceOperatorBetInput) (w : World) where
  -- The world in which the wallet is called, and its answer.
  abbrev pub created : World
  created = record w { rows = w.rows ++ new_row (create_input input) w.now ∷ [] }

  abbrev pub wallet_answer : Result Thrown WalletResponse × World
  wallet_answer = client.bet (bet_request input w.now) created

  place_try :
      find_row input.bet_id w.rows ≡ none
      → find_txn input.bet_txn_id w.rows ≡ none
      → place_operator_bet client input w
        ≡ try_catch (accept_bet client input) (reject_bet input) created
  unfolding place_operator_bet create
  place_try no_id no_txn = ground arith

  rejected :
      (e : Thrown) (v : World) (r : BetRow)
      → find_row input.bet_id v.rows ≡ some r
      → r.state ≡ pending
      → IsPlaced (err e) input.bet_id (reject_bet input e v)
  rejected e v r found is_pending =
      let confirmed = is_confirmed_rejection (as_wallet_error e) in
      let side : SideData = record no_side_data { error_code = some (as_wallet_error e).code } in
      let (v', moved, left, _) =
        find_row-transition input.bet_id (refusal confirmed) side v r
          (if confirmed then voided else rollback_pending) found
          (refusal_next r.state confirmed is_pending) in
      rw
        (bind_ok (transition input.bet_id (refusal confirmed) side)
          (λ _. throw {A = WalletBetResult} (wallet_failure (as_wallet_error e))) moved)
        (
          updated (if confirmed then voided else rollback_pending) v.now side r,
          refl,
          left,
          refl,
          refl,
        )

  placed :
      (r : Result Thrown WalletResponse) (v : World) (row : BetRow)
      → wallet_answer ≡ (r, v)
      → find_row input.bet_id v.rows ≡ some row
      → row.state ≡ pending
      → IsPlaced r input.bet_id (try_catch (accept_bet client input) (reject_bet input) created)
  placed (ok resp) v row answered found is_pending =
      let side : SideData = record no_side_data { bet_op_txn_id = some resp.operator_txn_id } in
      let (v', moved, left, _) =
        find_row-transition input.bet_id BetEvent.bet_accepted side v row armed found
          (accepted_next row.state is_pending) in
      rw
        (try_ok (accept_bet client input) (reject_bet input) (
          bind_ok (client.bet (bet_request input w.now)) (arm_bet input) answered
          ∙ bind_ok (transition input.bet_id BetEvent.bet_accepted side)
              (λ row'. pure (result_of row' resp)) moved))
        (updated armed v.now side row, refl, left, refl, refl)
  placed (err e) v row answered found is_pending =
      rw
        (try_err (accept_bet client input) (reject_bet input)
          (bind_err (client.bet (bet_request input w.now)) (arm_bet input) answered))
        (rejected e v row found is_pending)

  -- Placing a bet with fresh ids, when the other handlers leave it `PENDING` while the wallet is
  -- called: on an answer the bet is `ARMED`, with the operator's transaction id, and the row, the
  -- balance and the currency are returned; on a confirmed rejection (a signed 4xx) it is `VOIDED`,
  -- on any other failure it is `ROLLBACK_PENDING`, with the error's code, and the wallet's error is
  -- thrown. In no case does it stay `PENDING`.
  pub place_operator_bet-IsPlaced :
      (r : Result Thrown WalletResponse) (v : World) (row : BetRow)
      → find_row input.bet_id w.rows ≡ none
      → find_txn input.bet_txn_id w.rows ≡ none
      → wallet_answer ≡ (r, v)
      → find_row input.bet_id v.rows ≡ some row
      → row.state ≡ pending
      → IsPlaced r input.bet_id (place_operator_bet client input w)
  place_operator_bet-IsPlaced r v row no_id no_txn answered found is_pending =
      subst (IsPlaced r input.bet_id) (sym (place_try no_id no_txn))
        (placed r v row answered found is_pending)
