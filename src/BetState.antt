-- ===== src/BetState.antt =====
-- packages/wallet/src/state-machine.ts: the states of a bet, the events, and the transition table.
pub mod Path
pub mod History
use crash_game.Prelude.{Bool, true, false, Option, none, some}
use crash_game.Prelude.Action.{Result, ok, err}

pub data BetState : Type 0 where
  pending armed flying settling settled lost rollback_pending voided win_failed : BetState

pub data BetEvent : Type 0 where
  bet_accepted bet_rejected round_started cashout_requested win_settled win_failed : BetEvent
  win_force_credited round_crashed rollback_started rollback_completed : BetEvent

-- `InvalidTransitionError`
pub record InvalidTransitionError : Type 0 where
  pub from : BetState
  pub event : BetEvent

-- `TRANSITIONS.get(key)`, a line for each entry of the table
unfoldable pub transitions : BetState → BetEvent → Option BetState
transitions pending BetEvent.bet_accepted = some armed
transitions pending BetEvent.bet_rejected = some voided
transitions pending BetEvent.rollback_started = some rollback_pending
transitions armed BetEvent.round_started = some flying
transitions armed BetEvent.cashout_requested = some settling
transitions armed BetEvent.round_crashed = some lost
transitions armed BetEvent.rollback_started = some rollback_pending
transitions flying BetEvent.cashout_requested = some settling
transitions flying BetEvent.round_crashed = some lost
transitions flying BetEvent.rollback_started = some rollback_pending
transitions settling BetEvent.win_settled = some settled
transitions settling BetEvent.win_failed = some BetState.win_failed
transitions settling BetEvent.rollback_started = some rollback_pending
transitions BetState.win_failed BetEvent.win_force_credited = some settled
transitions BetState.win_failed BetEvent.rollback_started = some rollback_pending
transitions rollback_pending BetEvent.rollback_completed = some voided
transitions _ _ = none

-- `nextState`, which throws where the table has no entry
unfoldable pub next_state : BetState → BetEvent → Result InvalidTransitionError BetState
next_state current event = elim (transitions current event) [
  | none ↦ err (record { from = current; event = event })
  | some next ↦ ok next
]

-- `TERMINAL_STATES.has(state)`, and `isTerminal`
unfoldable pub is_terminal : BetState → Bool
is_terminal settled = true
is_terminal lost = true
is_terminal voided = true
is_terminal BetState.win_failed = true
is_terminal _ = false

-- `===` of two states
abbrev pub same_state : BetState → BetState → Bool
same_state pending pending = true
same_state armed armed = true
same_state flying flying = true
same_state settling settling = true
same_state settled settled = true
same_state lost lost = true
same_state rollback_pending rollback_pending = true
same_state voided voided = true
same_state BetState.win_failed BetState.win_failed = true
same_state _ _ = false
