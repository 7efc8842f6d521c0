-- ===== src/Examples/Cashouts.antt =====
-- Bets that are cashed out, at concrete inputs.
use crash_game.Prelude.{◌≡◌, refl, String, Option, some, none, true, false, [], ◌∷◌, inr, arith}
use crash_game.Prelude.Int.{pos}
use crash_game.Prelude.Action.{ok}
use crash_game.BetState.{flying, settling}
use crash_game.BetLog.{updated}
use crash_game.BetLog.Rows.{find_row, update_row}
use crash_game.WalletClient.{WalletClient}
use crash_game.Bets.{request_data}
use crash_game.Bets.Settle.{requested_world}
use crash_game.Session.{zero_stats}
use crash_game.Ledger.{Kind, Table}
use crash_game.Cashout.{
  Bet, manual, auto, cashout_pending, cashout, Hall, marked_out, win_amount, demo_profit,
}
use crash_game.Cashout.Operator.{OperatorBet, with_txn, cash_out_input, try_cashout_bet}
use crash_game.Cashout.Once.{Attempt, after_attempts, after_attempts-once}
use crash_game.Cashout.Lobby.{IsPaid, try_cashout_bet-IsPaid}
use crash_game.Cashout.InFlight.{
  IsServed, IsEnded, try_cashout_bet-in_flight, try_cashout_bet-IsEnded,
}
use crash_game.Examples.Data.{bet_in, log_of, paid, client_of}

abbrev staked : Bet
staked = record {
  player_id = "s1";
  amount = 1000;
  auto_cashout = none;
  cashout_multiplier = none;
  cashed_out = false;
  profit = none;
  is_bot = false;
  bot_name = none;
  display_name = none;
  operator_id = some "op";
  bet_id = some "b1";
  bet_txn_id = some "t1";
  win_txn_id = none;
  currency = some "KES";
  amount_minor = some 1000;
  game_id = none;
  lobby_player_id = none;
  slot = none;
}

abbrev only_client : String → Option WalletClient
only_client _ = some (client_of (ok paid))

abbrev hall : Hall
hall = record {
  bet = staked;
  store = record {
    online = true;
    sessions = [];
    stats = ("s1", zero_stats) ∷ [];
    histories = [];
    rate_buckets = [];
    now = 1000;
  };
  ledger = none;
  world = log_of (bet_in flying ∷ []);
  frames = [];
  round_number = some 7;
  operators = some (record { client_of = only_client });
}

abbrev awaiting : Hall
awaiting = record hall { world = log_of (bet_in settling ∷ []) }

abbrev deposited : Table
deposited =
    record {
      player_id = "p1";
      currency = "KES";
      amount_minor = pos 500;
      kind = Kind.deposit;
      ref = none;
    }
    ∷ []

abbrev lobby_hall : Hall
lobby_hall = record hall {
  bet = record staked { lobby_player_id = some "p1" };
  ledger = some deposited;
}

abbrev click : Attempt
click = record { win_txn_id = "w1"; multiplier = 250; source = manual }

abbrev tick : Attempt
tick = record { win_txn_id = "w2"; multiplier = 200; source = auto }

abbrev order : OperatorBet
order = record { operator_id = "op"; bet_id = "b1"; currency = "KES"; amount_minor = 1000 }

hall-IsServed : IsServed hall order (client_of (ok paid))
hall-IsServed = record {
  deps = record { client_of = only_client };
  still = refl;
  person = refl;
  no_player = refl;
  by_operator = refl;
  known = refl;
  priced = refl;
  staked = refl;
  wired = refl;
  active = refl;
}

awaiting-IsServed : IsServed awaiting order (client_of (ok paid))
awaiting-IsServed = record {
  deps = record { client_of = only_client };
  still = refl;
  person = refl;
  no_player = refl;
  by_operator = refl;
  known = refl;
  priced = refl;
  staked = refl;
  wired = refl;
  active = refl;
}

after_attempts-once_example :
    let (r, h') = try_cashout_bet "w1" 250 manual hall in
    (r ≡ ok tt) × (h'.bet.cashed_out ≡ true) × (after_attempts (click ∷ tick ∷ tick ∷ []) hall ≡ h')
after_attempts-once_example = after_attempts-once click (tick ∷ tick ∷ []) hall refl

try_cashout_bet-IsPaid_example :
    IsPaid lobby_hall deposited "p1" "KES" 2500 (try_cashout_bet "w1" 250 manual lobby_hall)
unfolding win_amount
try_cashout_bet-IsPaid_example =
    try_cashout_bet-IsPaid "w1" 250 manual lobby_hall "p1" 1000 deposited refl refl refl refl refl

-- A product of doubles that falls below the half that it would be exactly.
win_below : win_amount 25 114 ≡ 28
unfolding win_amount
win_below = refl

demo_win : demo_profit 1000 250 ≡ 2500
unfolding demo_profit
demo_win = refl

try_cashout_bet-in_flight_example : try_cashout_bet "w2" 200 auto awaiting ≡ (
  ok tt,
  record awaiting {
    bet = with_txn "w2" (marked_out 200 staked);
    frames =
        cashout_pending "s1" "Win pending — contact support" "w2" none
        ∷ cashout "s1" 200 2000 auto true
        ∷ [];
  },
)
unfolding find_row win_amount
try_cashout_bet-in_flight_example =
    try_cashout_bet-in_flight "w2" 200 auto awaiting order (client_of (ok paid)) awaiting-IsServed
      (bet_in settling) refl (ground arith) (ground arith)

try_cashout_bet-IsEnded_example :
    IsEnded "w1" 250 manual hall order
      (client_of (ok paid))
      hall-IsServed
      (ok paid)
      (requested_world
        (client_of (ok paid))
        (cash_out_input order "w1" 250 10)
        (bet_in flying)
        hall.world)
      (try_cashout_bet "w1" 250 manual hall)
unfolding find_row update_row
try_cashout_bet-IsEnded_example =
    try_cashout_bet-IsEnded "w1" 250 manual hall order (client_of (ok paid)) hall-IsServed
      (bet_in flying) (ok paid)
      (requested_world (client_of (ok paid)) (cash_out_input order "w1" 250 10) (bet_in flying)
        hall.world)
      (updated settling 10 (request_data (cash_out_input order "w1" 250 10)) (bet_in flying)) refl
      (inr refl) refl refl refl
