-- ===== src/Examples/BetLog.antt =====
-- Histories of a bet and calls of the bet log.
use crash_game.Prelude.{◌≤◌, ◌+◌, ◌≡◌, refl, some, List, [], ◌∷◌, count}
use crash_game.BetState.{pending, settled, BetEvent, transitions, next_state}
use crash_game.BetState.Path.{run}
use crash_game.BetState.History.{is_credit, is_refund, is_loss, is_debit}
use crash_game.World.{World, IdempotencyEntry, Envelope, TxnKind}
use crash_game.BetLog.{CreateBetInput, no_side_data, create, transition}
use crash_game.BetLog.Rows.{find_row, find_txn, update_row}
use crash_game.BetLog.Refinement.{state_of}
use crash_game.BetLog.Histories.{
  LogCall, create_call, transition_call, time_call, after_call, after_calls, accepted,
  state_of-after_calls, after_calls-one_outcome, after_calls-IsKeyed,
}
use crash_game.BetLog.Keys.{IsKeyed}
use crash_game.Examples.Data.{bet_in, log_of, paid}

abbrev won_events : List BetEvent
won_events =
    BetEvent.bet_accepted ∷ BetEvent.round_started ∷ BetEvent.cashout_requested
    ∷ BetEvent.win_settled ∷ []

abbrev new_bet : CreateBetInput
new_bet = record {
  bet_id = "b1";
  operator_id = "op";
  player_id = "p1";
  session_id = "s1";
  round_id = "r1";
  currency = "KES";
  amount_minor = 1000;
  bet_txn_id = "t1";
  game_id = some "crash";
}

-- A bet that is placed, accepted, and credited, with a second cash-out that is refused.
abbrev calls : List LogCall
calls =
    create_call new_bet
    ∷ transition_call "b1" BetEvent.bet_accepted no_side_data
    ∷ time_call 3
    ∷ transition_call "b1" BetEvent.round_started no_side_data
    ∷ transition_call "b1" BetEvent.cashout_requested no_side_data
    ∷ transition_call "b1" BetEvent.cashout_requested no_side_data
    ∷ transition_call "b1" BetEvent.win_settled no_side_data
    ∷ []

after_calls-one_outcome_example :
    (count is_credit (accepted "b1" calls (log_of [])) ≡ 1)
    × (count is_refund (accepted "b1" calls (log_of [])) ≡ 0)
    × (count is_loss (accepted "b1" calls (log_of [])) ≡ 0)
    × (count is_credit (accepted "b1" calls (log_of []))
          + count is_loss (accepted "b1" calls (log_of []))
        ≤ count is_debit (accepted "b1" calls (log_of [])))
unfolding after_calls after_call create transition state_of find_row next_state transitions find_txn
    update_row
after_calls-one_outcome_example = after_calls-one_outcome "b1" calls (log_of []) settled refl refl

state_of-after_calls_example :
    state_of (after_calls calls (log_of (bet_in pending ∷ []))) "b1"
    ≡ run pending (accepted "b1" calls (log_of (bet_in pending ∷ [])))
unfolding state_of find_row
state_of-after_calls_example =
    state_of-after_calls "b1" calls (log_of (bet_in pending ∷ [])) pending refl

abbrev old_entry : IdempotencyEntry
old_entry = record {
  txn_id = "t1";
  operator_id = "op";
  kind = TxnKind.bet;
  request_hash = "h1";
  response_json = Envelope.value paid;
  created_at = 7;
}

abbrev other_entry : IdempotencyEntry
other_entry = record old_entry { request_hash = "h2" }

abbrev logged : World
logged = record (log_of []) { idempotency = old_entry ∷ [] }

after_calls-IsKeyed_example : IsKeyed (after_calls calls logged)
after_calls-IsKeyed_example =
    after_calls-IsKeyed calls logged (record { unique_rows = tt; unique_entries = (refl, tt) })
