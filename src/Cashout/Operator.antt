-- ===== src/Cashout/Operator.antt =====
-- packages/server/src/game/bets.ts, tryCashoutBet: which path a bet takes, and the path of an
-- operator's bet.
use crash_game.Prelude.{truthy, ℕ, String, true, Option, none, some, or_else, if◌then◌else◌}
use crash_game.Prelude.Int.{pos}
use crash_game.Prelude.Action.{Result, ok, err, pure, throw, gets, ◌>>=◌, ◌>>◌}
use crash_game.BetState.{BetEvent}
use crash_game.World
use crash_game.World.{BetRow, AlertEvent, World, Thrown, wallet_failure, plain_error}
use crash_game.BetLog.{no_side_data, transition, get_by_id}
use crash_game.WalletClient.{WalletClient}
use crash_game.Bets.{WalletBetResult, CashOutOperatorBetInput, emit, cash_out_operator_bet}
use crash_game.Session.Play.{record_win, record_stats_safely}
use crash_game.Cashout.{
  Bet, Source, OperatorDeps, Method, send, set_bet, on_store, on_world, value_of, win_amount,
  marked_out, with_profit, cash_out_bet, cash_out_lobby_bet, cashout_success, cashout_pending,
  cashout,
}

pub record OperatorBet : Type 0 where
  pub operator_id : String
  pub bet_id : String
  pub currency : String
  pub amount_minor : ℕ

-- The path that a bet takes.
pub data Route : Type 0 where
  legacy : Route
  lobby : (lobby_player_id : String) (amount_minor : ℕ) → Route
  operator : OperatorBet → Route

abbrev pub operator_route : (operator_id bet_id currency : Option String) → Option ℕ → Route
operator_route (some operator_id) (some bet_id) (some currency) (some amount_minor) =
    operator (record {
      operator_id = operator_id;
      bet_id = bet_id;
      currency = currency;
      amount_minor = amount_minor;
    })
operator_route _ _ _ _ = legacy

abbrev pub lobby_route : Option String → Option ℕ → Route → Route
lobby_route (some lobby_player_id) (some amount_minor) other = lobby lobby_player_id amount_minor
lobby_route _ _ other = other

-- The conditions of `tryCashoutBet`, in their order
unfoldable pub route : Bet → Route
route bet =
    if bet.is_bot
    then legacy
    else lobby_route (truthy bet.lobby_player_id) bet.amount_minor (
        operator_route (truthy bet.operator_id) (truthy bet.bet_id) (truthy bet.currency)
          bet.amount_minor)

abbrev pub with_txn : String → Bet → Bet
with_txn win_txn_id bet = record bet { win_txn_id = some win_txn_id }

-- How every failure of the operator path ends.
abbrev pub pend :
    Bet
    → OperatorBet
    → (win_txn_id : String) → (multiplier : ℕ) → Source
    → (message : String) → Option ℕ
    → Method (Unit {0})
pend bet o win_txn_id multiplier source message http_status = do
  send (cashout_pending bet.player_id message win_txn_id http_status)
  send (cashout bet.player_id multiplier (win_amount o.amount_minor multiplier) source true)

-- The transitions for an operator that is paused, and the alert.
abbrev pub fail_paused :
    OperatorBet → (win_txn_id : String) → (multiplier : ℕ) → World.Method BetRow
fail_paused o win_txn_id multiplier = do
  transition o.bet_id BetEvent.cashout_requested (record no_side_data {
    win_txn_id = some win_txn_id;
    multiplier = some multiplier;
    win_amount_minor = some (win_amount o.amount_minor multiplier);
  })
  transition o.bet_id BetEvent.win_failed (record no_side_data {
    win_txn_id = some win_txn_id;
    error_code = some "OPERATOR_PAUSED_AT_CASHOUT";
  })

abbrev pub alert_paused : Option BetRow → World.Method (Unit {0})
alert_paused none = pure tt
alert_paused (some row) = emit (AlertEvent.win_failed row "cashout" "OPERATOR_PAUSED_AT_CASHOUT")

abbrev pub cash_out_paused :
    Bet → OperatorBet → (win_txn_id : String) → (multiplier : ℕ) → Source → Method (Unit {0})
cash_out_paused bet o win_txn_id multiplier source = do
  on_world (fail_paused o win_txn_id multiplier)
  set_bet (λ b. with_txn win_txn_id (marked_out multiplier b))
  on_world (get_by_id o.bet_id >>= alert_paused)
  pend bet o win_txn_id multiplier source
      "Win pending — operator unavailable; will be credited automatically." none

abbrev pub cash_out_input :
    OperatorBet → (win_txn_id : String) → (multiplier now : ℕ) → CashOutOperatorBetInput
cash_out_input o win_txn_id multiplier now = record {
  bet_id = o.bet_id;
  win_txn_id = win_txn_id;
  multiplier = multiplier;
  win_amount_minor = win_amount o.amount_minor multiplier;
  settled_at = now;
}

abbrev pub http_status_of : Thrown → Option ℕ
http_status_of (wallet_failure e) = some e.http_status
http_status_of _ = none

-- After `cashOutOperatorBet`: its answer, or the `catch`.
abbrev pub finish_operator :
    Bet
    → OperatorBet
    → (win_txn_id : String) → (multiplier : ℕ) → Source
    → Result Thrown WalletBetResult
    → Method (Unit {0})
finish_operator bet o win_txn_id multiplier source (ok answer) = do
  set_bet (λ b.
      with_txn win_txn_id
        (with_profit (win_amount o.amount_minor multiplier) (marked_out multiplier b)))
  send (cashout bet.player_id multiplier (win_amount o.amount_minor multiplier) source true)
  stats ← on_store (
      record_stats_safely (
        record_win bet.player_id (pos o.amount_minor) (pos (win_amount o.amount_minor multiplier))
          multiplier (some answer.currency)))
  send (
      cashout_success bet.player_id multiplier (win_amount o.amount_minor multiplier)
        (pos answer.balance_minor) (some answer.currency) source (value_of stats)
        (or_else bet.slot 0))
finish_operator bet o win_txn_id multiplier source (err e) = do
  set_bet (λ b. with_txn win_txn_id (marked_out multiplier b))
  pend bet o win_txn_id multiplier source "Win pending — contact support" (http_status_of e)

abbrev pub cash_out_with :
    Bet
    → OperatorBet
    → (win_txn_id : String) → (multiplier : ℕ) → Source
    → Option WalletClient
    → Method (Unit {0})
cash_out_with bet o win_txn_id multiplier source none =
    cash_out_paused bet o win_txn_id multiplier source
cash_out_with bet o win_txn_id multiplier source (some client) = do
  now ← gets (λ h. h.world.now)
  answer ← on_world (cash_out_operator_bet client (cash_out_input o win_txn_id multiplier now))
  finish_operator bet o win_txn_id multiplier source answer

abbrev pub cash_out_operator :
    Bet
    → OperatorBet
    → (win_txn_id : String) → (multiplier : ℕ) → Source
    → Option OperatorDeps
    → Method (Unit {0})
cash_out_operator bet o win_txn_id multiplier source none =
    throw (plain_error "[tryCashoutBet] OperatorWiringDeps not initialized — bootstrap defect")
cash_out_operator bet o win_txn_id multiplier source (some deps) =
    cash_out_with bet o win_txn_id multiplier source (deps.client_of o.operator_id)

abbrev pub cash_out_by :
    (win_txn_id : String) → Bet → (multiplier : ℕ) → Source → Route → Method (Unit {0})
cash_out_by win_txn_id bet multiplier source legacy = cash_out_bet bet multiplier source
cash_out_by win_txn_id bet multiplier source (lobby lobby_player_id amount_minor) =
    cash_out_lobby_bet lobby_player_id bet amount_minor multiplier source
cash_out_by win_txn_id bet multiplier source (operator o) =
    gets (λ h. h.operators) >>= cash_out_operator bet o win_txn_id multiplier source

-- `tryCashoutBet`
unfoldable pub try_cashout_bet :
    (win_txn_id : String) → (multiplier : ℕ) → Source → Method (Unit {0})
try_cashout_bet win_txn_id multiplier source h =
    if h.bet.cashed_out
    then (ok tt, h)
    else cash_out_by win_txn_id h.bet multiplier source (route h.bet) h
