-- ===== src/BetLog.antt =====
-- packages/wallet/src/bet-log-pg.ts: the tables `bet_log` and `txn_idempotency`, whose constraints
-- stand in packages/wallet/src/pg.ts. A query runs alone, and `transition` runs in one transaction
-- that holds the row's lock, so each method is one step on the tables.
pub mod Rows
pub mod Outcomes
pub mod Keys
pub mod Refinement
pub mod Histories
pub mod Forward
pub mod Idempotency
pub mod Order
use Rows.{find_row, find_txn, update_row}
use crash_game.Prelude.{
  ℕ, String, Bool, true, false, ◌&&◌, Option, none, some, List, [], ◌∷◌, ◌++◌, leb, str_eq, take,
  filter, find, if◌then◌else◌,
}
use crash_game.Prelude.Action.{Result, ok, err}
use crash_game.BetState.{BetState, pending, BetEvent, next_state, same_state}
use crash_game.World.{
  BetRow, IdempotencyEntry, World, Thrown, Method, invalid_transition, bet_not_found,
  duplicate_bet_id, duplicate_bet_txn_id, idempotency_mismatch,
}

-- `CreateBetInput`
pub record CreateBetInput : Type 0 where
  pub bet_id : String
  pub operator_id : String
  pub player_id : String
  pub session_id : String
  pub round_id : String
  pub currency : String
  pub amount_minor : ℕ
  pub bet_txn_id : String
  pub game_id : Option String

-- The row that `INSERT` adds.
abbrev pub new_row : CreateBetInput → ℕ → BetRow
new_row input now = record {
  bet_id = input.bet_id;
  operator_id = input.operator_id;
  player_id = input.player_id;
  session_id = input.session_id;
  round_id = input.round_id;
  currency = input.currency;
  amount_minor = input.amount_minor;
  state = pending;
  bet_txn_id = input.bet_txn_id;
  win_txn_id = none;
  rollback_txn_id = none;
  bet_op_txn_id = none;
  win_op_txn_id = none;
  win_amount_minor = none;
  multiplier = none;
  error_code = none;
  game_id = elim input.game_id [ some g ↦ g | none ↦ "galaxy-crash" ];
  created_at = now;
  updated_at = now;
}

-- `PgBetLog.create`: `bet_id` is the primary key, and `bet_txn_id` is unique.
unfoldable pub create : CreateBetInput → Method BetRow
create input w = elim (find_row input.bet_id w.rows) [
  | some _ ↦ (err (duplicate_bet_id input.bet_id), w)
  | none ↦ elim (find_txn input.bet_txn_id w.rows) [
    | some _ ↦ (err (duplicate_bet_txn_id input.bet_txn_id), w)
    | none ↦ (ok (new_row input w.now), record w { rows = w.rows ++ new_row input w.now ∷ [] })
  ]
]

-- `PgBetLog.getById`
abbrev pub get_by_id : String → Method (Option BetRow)
get_by_id bet_id w = (ok (find_row bet_id w.rows), w)

-- The `sideData` of `transition`: a field that is absent leaves its column alone.
pub record SideData : Type 0 where
  pub win_txn_id : Option String
  pub rollback_txn_id : Option String
  pub bet_op_txn_id : Option String
  pub win_op_txn_id : Option String
  pub win_amount_minor : Option ℕ
  pub multiplier : Option ℕ
  pub error_code : Option String

abbrev pub no_side_data : SideData
no_side_data = record {
  win_txn_id = none;
  rollback_txn_id = none;
  bet_op_txn_id = none;
  win_op_txn_id = none;
  win_amount_minor = none;
  multiplier = none;
  error_code = none;
}

-- `if (v !== undefined) add(col, v)`
abbrev pub set_column {ℓ} : {A : Type ℓ} → Option A → Option A → Option A
set_column none old = old
set_column (some v) old = some v

-- The `SET` list of the `UPDATE`.
abbrev pub updated : BetState → ℕ → SideData → BetRow → BetRow
updated next now side r = record r {
  state = next;
  win_txn_id = set_column side.win_txn_id r.win_txn_id;
  rollback_txn_id = set_column side.rollback_txn_id r.rollback_txn_id;
  bet_op_txn_id = set_column side.bet_op_txn_id r.bet_op_txn_id;
  win_op_txn_id = set_column side.win_op_txn_id r.win_op_txn_id;
  win_amount_minor = set_column side.win_amount_minor r.win_amount_minor;
  multiplier = set_column side.multiplier r.multiplier;
  error_code = set_column side.error_code r.error_code;
  updated_at = now;
}

-- `PgBetLog.transition`: what is thrown rolls the transaction back.
unfoldable pub transition : String → BetEvent → SideData → Method BetRow
transition bet_id event side w = elim (find_row bet_id w.rows) [
  | none ↦ (err (bet_not_found bet_id), w)
  | some r ↦ elim (next_state r.state event) [
    | err e ↦ (err (invalid_transition e), w)
    | ok next ↦ (
      ok (updated next w.now side r),
      record w { rows = update_row bet_id (updated next w.now side) w.rows },
    )
  ]
]

-- `ORDER BY created_at ASC`; rows of one second stay in the order of insertion.
pub insert_by_created : BetRow → List BetRow → List BetRow
insert_by_created r [] = r ∷ []
insert_by_created r (s ∷ rest) =
    if leb r.created_at s.created_at then r ∷ s ∷ rest else s ∷ insert_by_created r rest

unfoldable pub order_by_created : List BetRow → List BetRow
unfolding insert_by_created
order_by_created [] = []
order_by_created (r ∷ rest) = insert_by_created r (order_by_created rest)

-- `WHERE state = $1`
abbrev pub has_state : BetState → BetRow → Bool
has_state s r = same_state s r.state

-- `PgBetLog.listByState`
unfoldable pub list_by_state : BetState → ℕ → Method (List BetRow)
list_by_state state limit w =
    (ok (take limit (order_by_created (filter (has_state state) w.rows))), w)

-- `PgBetLog.listByRound`
unfoldable pub list_by_round : String → Method (List BetRow)
list_by_round round_id w =
    (ok (order_by_created (filter (λ r. str_eq r.round_id round_id) w.rows)), w)

-- The primary key of `txn_idempotency` is (txn_id, operator_id).
abbrev pub has_key : String → String → IdempotencyEntry → Bool
has_key operator_id txn_id e = str_eq e.txn_id txn_id && str_eq e.operator_id operator_id

-- `PgBetLog.getIdempotency`
unfoldable pub get_idempotency : String → String → Method (Option IdempotencyEntry)
get_idempotency operator_id txn_id w = (ok (find (has_key operator_id txn_id) w.idempotency), w)

-- `PgBetLog.putIdempotency`: on a duplicate key the recorded entry stays.
unfoldable pub put_idempotency : IdempotencyEntry → Method (Unit {0})
put_idempotency entry w = elim (find (has_key entry.operator_id entry.txn_id) w.idempotency) [
  | none ↦ (ok tt, record w { idempotency = w.idempotency ++ entry ∷ [] })
  | some existing ↦ (
    if str_eq existing.request_hash entry.request_hash
        then ok tt
        else err (idempotency_mismatch entry.txn_id),
    w,
  )
]
