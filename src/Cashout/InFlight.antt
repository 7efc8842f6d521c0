-- ===== src/Cashout/InFlight.antt =====
-- tryCashoutBet on an operator's bet: how it ends with the wallet, and a second call while the
-- first still awaits it.
use mathlib.Core.Path.{subst}
use crash_game.Prelude.{
  truthy, ◌≡◌, refl, sym, ap, ◌∙◌, ◌≢◌, ◌⊎◌, ℕ, String, some, none, true, false, [], ◌∷◌, ◌++◌,
}
use crash_game.Prelude.Action.{Result, ok, err}
use crash_game.BetState.{BetState, armed, flying, settling, settled}
use crash_game.World.{AlertEvent, BetRow, Thrown, World, WalletResponse}
use crash_game.BetLog.Rows.{find_row}
use crash_game.WalletClient.{WalletClient}
use crash_game.Bets.{
  WalletBetResult, CashOutOperatorBetInput, as_wallet_error, cash_out_operator_bet, win_request,
}
use crash_game.Bets.Settle.{
  IsCashedOut, requested, requested_world, cash_out_operator_bet-IsCashedOut,
  cash_out_operator_bet-refused,
}
use crash_game.Cashout.{
  Source, cashout_pending, cashout, Hall, OperatorDeps, win_amount, marked_out,
}
use crash_game.Cashout.Routes.{try_cashout_bet-first, route-operator}
use crash_game.Cashout.Operator.{
  OperatorBet, with_txn, cash_out_input, finish_operator, cash_out_operator, cash_out_with,
  cash_out_by, try_cashout_bet,
}

-- A bet in play that takes the path of an operator whose client is there.
pub record IsServed (h : Hall) (o : OperatorBet) (client : WalletClient) : Type 0 where
  pub deps : OperatorDeps
  pub still : h.bet.cashed_out ≡ false
  pub person : h.bet.is_bot ≡ false
  pub no_player : truthy h.bet.lobby_player_id ≡ none
  pub by_operator : truthy h.bet.operator_id ≡ some o.operator_id
  pub known : truthy h.bet.bet_id ≡ some o.bet_id
  pub priced : truthy h.bet.currency ≡ some o.currency
  pub staked : h.bet.amount_minor ≡ some o.amount_minor
  pub wired : h.operators ≡ some deps
  pub active : deps.client_of o.operator_id ≡ some client

module _ (txn : String) (multiplier : ℕ) (source : Source) (h : Hall) (o : OperatorBet)
    (client : WalletClient) (served : IsServed h o client) where
  abbrev pub input : CashOutOperatorBetInput
  input = cash_out_input o txn multiplier h.world.now

  -- The handler after the wallet.
  abbrev finished : Result Thrown WalletBetResult × World → Result Thrown (Unit {0}) × Hall
  finished (answer, w) =
      finish_operator h.bet o txn multiplier source answer (record h { world = w })

  finished_lem :
      try_cashout_bet txn multiplier source h
      ≡ finished (cash_out_operator_bet client input h.world)
  finished_lem =
      try_cashout_bet-first txn multiplier source h served.still
      ∙ ap (λ way. cash_out_by txn h.bet multiplier source way h)
          (route-operator h.bet o.amount_minor o.operator_id o.bet_id o.currency served.person
            served.no_player served.by_operator served.known served.priced served.staked)
      ∙ ap (λ x. cash_out_operator h.bet o txn multiplier source x h) served.wired
      ∙ ap (λ x. cash_out_with h.bet o txn multiplier source x h) served.active

  -- A bet whose row is in no state to be cashed out, one that a first call has left `SETTLING`
  -- among them: the wallet is not called, and no row, alert, balance or statistic changes, so that
  -- the transaction id of this call is written to no row; but the bet is marked as cashed out under
  -- that id, and the player is told that the win is pending.
  pub try_cashout_bet-in_flight :
      (row : BetRow)
      → find_row o.bet_id h.world.rows ≡ some row
      → row.state ≢ armed
      → row.state ≢ flying
      → try_cashout_bet txn multiplier source h ≡ (
        ok tt,
        record h {
          bet = with_txn txn (marked_out multiplier h.bet);
          frames =
              (h.frames
                ++ cashout_pending h.bet.player_id "Win pending — contact support" txn none ∷ [])
              ++ cashout h.bet.player_id multiplier
                  (win_amount o.amount_minor multiplier)
                  source
                  true
                ∷ [];
        },
      )
  try_cashout_bet-in_flight row found not_armed not_flying =
      finished_lem
      ∙ ap finished
          (cash_out_operator_bet-refused client input h.world row found not_armed not_flying)

  -- How a call ends in which the wallet answered, in the world `v`.
  abbrev pub IsEnded :
      Result Thrown WalletResponse → World → Result Thrown (Unit {0}) × Hall → Type 0
  IsEnded (ok resp) v (r, h') =
      (row : BetRow) × (r ≡ ok tt)
      × (find_row o.bet_id h'.world.rows ≡ some row)
      × (row.state ≡ settled)
      × (row.win_amount_minor ≡ h'.bet.profit)
      × (h'.world.alerts ≡ v.alerts)
  IsEnded (err e) v (r, h') =
      (row : BetRow) × (r ≡ ok tt)
      × (find_row o.bet_id h'.world.rows ≡ some row)
      × (row.state ≡ BetState.win_failed)
      × (row.win_txn_id ≡ h'.bet.win_txn_id)
      × (h'.world.alerts
          ≡ v.alerts ++ AlertEvent.win_failed row "cashout" (as_wallet_error e).code ∷ [])
      × (h'.store ≡ h.store)

  finished-IsEnded :
      (r : Result Thrown WalletResponse) (v : World) (x : Result Thrown WalletBetResult × World)
      → IsCashedOut r input v x
      → IsEnded r v (finished x)
  finished-IsEnded (ok resp) v (answer, w) (row, answered, found, is_settled, paid, op, quiet) =
      subst (λ a. IsEnded (ok resp) v (finished (a, w))) (sym answered)
        (row, refl, found, is_settled, paid, quiet)
  finished-IsEnded (err e) v (answer, w) (row, answered, found, failed, kept, code, alerted) =
      subst (λ a. IsEnded (err e) v (finished (a, w))) (sym answered)
        (row, refl, found, failed, kept, alerted, refl)

  -- A bet that is `ARMED` or `FLYING`, when the other handlers leave it `SETTLING` while the wallet
  -- is called: the call returns whatever the wallet answers. On an answer the row is `SETTLED` with
  -- the win that the bet shows as its profit, and no alert is emitted; on any failure it is
  -- `WIN_FAILED` under the transaction id that the bet carries, exactly one alert is emitted, and no
  -- statistic counts the win.
  pub try_cashout_bet-IsEnded :
      (r : BetRow) (answer : Result Thrown WalletResponse) (v : World) (row : BetRow)
      → find_row o.bet_id h.world.rows ≡ some r
      → (r.state ≡ armed) ⊎ (r.state ≡ flying)
      → client.win
          (win_request input (requested client input r h.world))
          (requested_world client input r h.world)
        ≡ (answer, v)
      → find_row o.bet_id v.rows ≡ some row
      → row.state ≡ settling
      → IsEnded answer v (try_cashout_bet txn multiplier source h)
  try_cashout_bet-IsEnded r answer v row found cashable answered later is_settling =
      subst (IsEnded answer v) (sym finished_lem) (
        finished-IsEnded answer v _ (
          cash_out_operator_bet-IsCashedOut client input h.world r answer v row found cashable
            answered later is_settling))
