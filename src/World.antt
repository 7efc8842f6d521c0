-- ===== src/World.antt =====
-- The rows and errors of the money path, and the state that its handlers read and write: the two
-- tables of the bet log (packages/wallet/src/bet-log.ts), the alerts that were emitted
-- (packages/wallet/src/alerter.ts), and the clock.
use crash_game.Prelude.{ℕ, String, Bool, Option, List, concat}
use crash_game.Prelude.Action.{Action}
use crash_game.BetState.{
  BetState, pending, armed, flying, settling, settled, lost, rollback_pending, voided, BetEvent,
  InvalidTransitionError,
}
use crash_game.Errors.{Json, WalletError}

-- `BetRow`. A multiplier is in hundredths, as the server quantises it.
pub record BetRow : Type 0 where
  pub bet_id : String
  pub operator_id : String
  pub player_id : String
  pub session_id : String
  pub round_id : String
  pub currency : String
  pub amount_minor : ℕ
  pub state : BetState
  pub bet_txn_id : String
  pub win_txn_id : Option String
  pub rollback_txn_id : Option String
  pub bet_op_txn_id : Option String
  pub win_op_txn_id : Option String
  pub win_amount_minor : Option ℕ
  pub multiplier : Option ℕ
  pub error_code : Option String
  pub game_id : String
  pub created_at : ℕ
  pub updated_at : ℕ

-- `TxnKind`
pub data TxnKind : Type 0 where
  bet win rollback : TxnKind

-- The operator's answer to `/bet`, `/win` and `/rollback`; only the last has a `status`.
pub record WalletResponse : Type 0 where
  pub operator_txn_id : String
  pub balance_minor : ℕ
  pub currency : String
  pub status : Option String

-- What `responseJson` encodes: `{ ok: true, value }` or `{ ok: false, error }`.
pub data Envelope : Type 0 where
  value : WalletResponse → Envelope
  error : String → String → ℕ → Bool → Option Json → Envelope

-- `IdempotencyEntry`
pub record IdempotencyEntry : Type 0 where
  pub txn_id : String
  pub operator_id : String
  pub kind : TxnKind
  pub request_hash : String
  pub response_json : Envelope
  pub created_at : ℕ

-- `AlertEvent`
pub data AlertEvent : Type 0 where
  win_failed : BetRow → (source error : String) → AlertEvent
  rollback_failed : BetRow → (reason error : String) → AlertEvent

pub record World : Type 0 where
  pub rows : List BetRow
  pub idempotency : List IdempotencyEntry
  pub alerts : List AlertEvent
  pub now : ℕ

-- What a method of the money path can throw.
pub data Thrown : Type 0 where
  wallet_failure : WalletError → Thrown
  invalid_transition : InvalidTransitionError → Thrown
  bet_not_found : String → Thrown
  duplicate_bet_id : String → Thrown
  duplicate_bet_txn_id : String → Thrown
  idempotency_mismatch : String → Thrown
  plain_error : String → Thrown

abbrev pub Method : Type 0 → Type 0
Method A = Action World Thrown A

pub state_name : BetState → String
state_name pending = "PENDING"
state_name armed = "ARMED"
state_name flying = "FLYING"
state_name settling = "SETTLING"
state_name settled = "SETTLED"
state_name lost = "LOST"
state_name rollback_pending = "ROLLBACK_PENDING"
state_name voided = "VOIDED"
state_name BetState.win_failed = "WIN_FAILED"

pub event_name : BetEvent → String
event_name BetEvent.bet_accepted = "bet_accepted"
event_name BetEvent.bet_rejected = "bet_rejected"
event_name BetEvent.round_started = "round_started"
event_name BetEvent.cashout_requested = "cashout_requested"
event_name BetEvent.win_settled = "win_settled"
event_name BetEvent.win_failed = "win_failed"
event_name BetEvent.win_force_credited = "win_force_credited"
event_name BetEvent.round_crashed = "round_crashed"
event_name BetEvent.rollback_started = "rollback_started"
event_name BetEvent.rollback_completed = "rollback_completed"

-- `err.message`, as the constructors of the error classes build it
pub message_of : Thrown → String
message_of (wallet_failure e) = e.message
message_of (invalid_transition e) =
    concat "Invalid transition: " (concat (state_name e.from) (concat " + " (event_name e.event)))
message_of (bet_not_found id) = concat "Bet '" (concat id "' not found")
message_of (duplicate_bet_id id) = concat "A bet with id '" (concat id "' already exists")
message_of (duplicate_bet_txn_id id) =
    concat "A bet with bet_txn_id '" (concat id "' already exists")
message_of (idempotency_mismatch id) =
    concat "Idempotency mismatch for txn_id '" (concat id "': same txn_id, different request_hash")
message_of (plain_error m) = m
