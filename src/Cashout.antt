-- ===== src/Cashout.antt =====
-- packages/server/src/game/bets.ts: tryCashoutBet with its demo, lobby and operator paths, on a bet
-- that a round holds in memory. Stakes of demo bets are in hundredths of a credit, all others in
-- minor units, multipliers in hundredths. `win_txn_id` is what `randomUUID()` draws. No other call on
-- the same bet runs while one waits; one that overlaps begins in the hall that the first has left.
pub mod Operator
pub mod Routes
pub mod Once
pub mod Lobby
pub mod InFlight
use crash_game.Prelude.{
  ℕ, ◌+◌, ◌*◌, ◌/◌, String, str_eq, concat, show, Bool, true, false, ◌&&◌, Option, none, some,
  or_else, is_some, List, [], ◌∷◌, ◌++◌, if◌then◌else◌,
}
use crash_game.Prelude.Float.{nearest, times, whole, math_round}
use crash_game.Prelude.Int.{ℤ, pos}
use crash_game.Prelude.Action.{
  Result, ok, err, Action, pure, throw, gets, modify, try_catch, ◌>>=◌, ◌>>◌,
}
use crash_game.BetState.{BetEvent}
use crash_game.World
use crash_game.World.{BetRow, AlertEvent, World, Thrown, wallet_failure, plain_error}
use crash_game.BetLog.{SideData, no_side_data, transition, get_by_id}
use crash_game.WalletClient.{WalletClient}
use crash_game.Bets.{WalletBetResult, CashOutOperatorBetInput, emit, cash_out_operator_bet}
use crash_game.Session
use crash_game.Session.{
  SessionStats, HistoryEntry, Store, StoreError, store_offline, adjust_balance,
}
use crash_game.Session.Play.{record_win, record_stats_safely, append_history}
use crash_game.Ledger.{Table, LedgerError, credit_win}

-- `Bet`
pub record Bet : Type 0 where
  pub player_id : String
  pub amount : ℕ
  pub auto_cashout : Option ℕ
  pub cashout_multiplier : Option ℕ
  pub cashed_out : Bool
  pub profit : Option ℕ
  pub is_bot : Bool
  pub bot_name : Option String
  pub display_name : Option String
  pub operator_id : Option String
  pub bet_id : Option String
  pub bet_txn_id : Option String
  pub win_txn_id : Option String
  pub currency : Option String
  pub amount_minor : Option ℕ
  pub game_id : Option String
  pub lobby_player_id : Option String
  pub slot : Option ℕ

pub data Source : Type 0 where
  manual auto : Source

abbrev pub is_auto : Source → Bool
is_auto auto = true
is_auto manual = false

-- What is sent to a session, or to all.
pub data Frame : Type 0 where
  cashout_success :
      (session_id : String) (multiplier profit : ℕ) (balance : ℤ) (currency : Option String)
      (source : Source) (stats : Option SessionStats) (slot : ℕ)
      → Frame
  cashout_pending : (session_id message win_txn_id : String) (http_status : Option ℕ) → Frame
  error_frame : (session_id message : String) → Frame
  cashout :
      (player_id : String) (multiplier profit : ℕ) (source : Source) (is_operator : Bool) → Frame

-- `operatorWiringDeps`: the clients of the operators that are active
pub record OperatorDeps : Type 0 where
  pub client_of : String → Option WalletClient

-- What a cash-out reads and writes: the bet itself, the sessions, the ledger of the lobby, the money
-- path of the operators, the frames sent, and the round number of the bet's game.
pub record Hall : Type 0 where
  pub bet : Bet
  pub store : Store
  pub ledger : Option Table
  pub world : World
  pub frames : List Frame
  pub round_number : Option ℕ
  pub operators : Option OperatorDeps

abbrev pub Method : Type 0 → Type 0
Method A = Action Hall Thrown A

abbrev pub default_currency : String
default_currency = "KES"

abbrev pub send : Frame → Method (Unit {0})
send frame = modify (λ h. record h { frames = h.frames ++ frame ∷ [] })

abbrev pub set_bet : (Bet → Bet) → Method (Unit {0})
set_bet f = modify (λ h. record h { bet = f h.bet })

-- Work on one part of the hall; what it throws comes back as a value.
abbrev pub on_store : {A : Type 0} → Session.Method A → Method (Result StoreError A)
on_store m h = let (r, s) = m h.store in (ok r, record h { store = s })

abbrev pub on_world : {A : Type 0} → World.Method A → Method (Result Thrown A)
on_world m h = let (r, w) = m h.world in (ok r, record h { world = w })

abbrev pub value_of : Result StoreError (Option SessionStats) → Option SessionStats
value_of (ok stats) = stats
value_of (err _) = none

-- `Math.round(amountMinor * multiplier)`, a product of doubles: the multiplier is the double next to
-- its number of hundredths.
unfoldable pub win_amount : ℕ → ℕ → ℕ
unfolding times nearest
win_amount amount multiplier = math_round (times (whole amount) (nearest multiplier 100))

-- `Math.round(amount * multiplier * 100) / 100`, in hundredths like the amount
unfoldable pub demo_profit : ℕ → ℕ → ℕ
unfolding times nearest
demo_profit amount multiplier =
    math_round (times (times (nearest amount 100) (nearest multiplier 100)) (whole 100))

abbrev pub marked_out : ℕ → Bet → Bet
marked_out multiplier bet = record bet { cashed_out = true; cashout_multiplier = some multiplier }

abbrev pub with_profit : ℕ → Bet → Bet
with_profit profit bet = record bet { profit = some profit }

-- The `try` of `cashOutBet`
abbrev pub credit_demo :
    Bet → (round_number multiplier profit now : ℕ) → Source → Session.Method (ℤ × SessionStats)
credit_demo bet round_number multiplier profit now source = do
  balance ← adjust_balance bet.player_id (pos profit)
  stats ← record_win bet.player_id (pos bet.amount) (pos profit) multiplier none
  append_history bet.player_id (
      HistoryEntry.cashout round_number (pos bet.amount) multiplier (pos profit) (is_auto source)
        now)
  pure (balance, stats)

-- Its end: the frame of a success, or its `catch`.
abbrev pub demo_frame :
    Bet
    → (multiplier profit : ℕ) → Source
    → Result StoreError (ℤ × SessionStats)
    → Method (Unit {0})
demo_frame bet multiplier profit source (ok (balance, stats)) = send (
    cashout_success bet.player_id multiplier profit balance none source (some stats)
      (or_else bet.slot 0))
demo_frame bet multiplier profit source (err store_offline) =
    send (error_frame bet.player_id "Session store offline — balance not updated")
demo_frame bet multiplier profit source (err StoreError.session_not_found) = pure tt

abbrev pub pay_demo : Bet → Option ℕ → (multiplier profit : ℕ) → Source → Method (Unit {0})
pay_demo bet none multiplier profit source = pure tt
pay_demo bet (some round_number) multiplier profit source = do
  now ← gets (λ h. h.store.now)
  result ← on_store (credit_demo bet round_number multiplier profit now source)
  demo_frame bet multiplier profit source result

-- `cashOutBet`, after its guard
unfoldable pub cash_out_bet : Bet → (multiplier : ℕ) → Source → Method (Unit {0})
cash_out_bet bet multiplier source = do
  set_bet (λ b. with_profit (demo_profit bet.amount multiplier) (marked_out multiplier b))
  round ← gets (λ h. h.round_number)
  pay_demo bet (if bet.is_bot then none else round) multiplier (demo_profit bet.amount multiplier)
      source
  send (cashout bet.player_id multiplier (demo_profit bet.amount multiplier) source false)

abbrev pub lobby_ref : Option ℕ → Option ℕ → String
lobby_ref none slot = concat "rnd-x-s" (show (or_else slot 0))
lobby_ref (some round_number) slot =
    concat (concat (concat "rnd-" (show round_number)) "-s") (show (or_else slot 0))

-- After `deps.wallet.win`
abbrev pub lobby_frame :
    Bet
    → (amount_minor multiplier win_minor : ℕ) → Source
    → Result LedgerError ℤ
    → Method (Unit {0})
lobby_frame bet amount_minor multiplier win_minor source (err e) =
    send (error_frame bet.player_id "Cashout failed to credit — contact support")
lobby_frame bet amount_minor multiplier win_minor source (ok balance_minor) =
    let currency = or_else bet.currency default_currency in
    on_store (
      record_stats_safely
        (record_win bet.player_id (pos amount_minor) (pos win_minor) multiplier (some currency)))
    >>= λ stats. send (
        cashout_success bet.player_id multiplier win_minor balance_minor (some currency) source
          (value_of stats) (or_else bet.slot 0))

abbrev pub credit_lobby :
    String → Bet → (win_minor : ℕ) → (ref : String) → Table → Method (Result LedgerError ℤ)
credit_lobby lobby_player_id bet win_minor ref t h =
    let (r, t') =
      credit_win lobby_player_id (pos win_minor) ref (or_else bet.currency default_currency) t in
    (ok r, record h { ledger = some t' })

abbrev pub pay_lobby :
    String
    → Bet
    → (amount_minor multiplier win_minor : ℕ) → (ref : String) → Source
    → Option Table
    → Method (Unit {0})
pay_lobby lobby_player_id bet amount_minor multiplier win_minor ref source none = pure tt
pay_lobby lobby_player_id bet amount_minor multiplier win_minor ref source (some t) =
    credit_lobby lobby_player_id bet win_minor ref t
    >>= lobby_frame bet amount_minor multiplier win_minor source

-- `cashOutLobbyBet`, after its guard; without the wiring of the lobby nothing is credited.
unfoldable pub cash_out_lobby_bet :
    String → Bet → (amount_minor multiplier : ℕ) → Source → Method (Unit {0})
cash_out_lobby_bet lobby_player_id bet amount_minor multiplier source = do
  set_bet (λ b. with_profit (win_amount amount_minor multiplier) (marked_out multiplier b))
  round ← gets (λ h. h.round_number)
  table ← gets (λ h. h.ledger)
  pay_lobby lobby_player_id bet amount_minor multiplier (win_amount amount_minor multiplier)
      (lobby_ref round bet.slot) source table
  send (cashout bet.player_id multiplier (win_amount amount_minor multiplier) source false)
