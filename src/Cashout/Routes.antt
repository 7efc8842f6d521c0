-- ===== src/Cashout/Routes.antt =====
-- The first conditions of `tryCashoutBet`, and which of its paths they lead to.
use crash_game.Prelude.{truthy, ◌≡◌, ap, ◌∙◌, ℕ, String, some, none, true, false, if◌then◌else◌}
use crash_game.Prelude.Action.{ok}
use crash_game.Cashout.{Bet, Source, Hall}
use crash_game.Cashout.Operator.{
  Route, legacy, lobby, operator, route, lobby_route, operator_route, cash_out_by, try_cashout_bet,
}

module _ (txn : String) (multiplier : ℕ) (source : Source) (h : Hall) where
  pub try_cashout_bet-again :
      h.bet.cashed_out ≡ true → try_cashout_bet txn multiplier source h ≡ (ok tt, h)
  unfolding try_cashout_bet
  try_cashout_bet-again out =
      ap (λ b. if b then (ok tt, h) else cash_out_by txn h.bet multiplier source (route h.bet) h)
        out

  pub try_cashout_bet-first :
      h.bet.cashed_out ≡ false
      → try_cashout_bet txn multiplier source h
        ≡ cash_out_by txn h.bet multiplier source (route h.bet) h
  unfolding try_cashout_bet
  try_cashout_bet-first still =
      ap (λ b. if b then (ok tt, h) else cash_out_by txn h.bet multiplier source (route h.bet) h)
        still

module _ (bet : Bet) (amount : ℕ) where
  abbrev other : Route
  other =
      operator_route (truthy bet.operator_id) (truthy bet.bet_id) (truthy bet.currency)
        bet.amount_minor

  person-lobby_route :
      bet.is_bot ≡ false
      → route bet ≡ lobby_route (truthy bet.lobby_player_id) bet.amount_minor other
  unfolding route
  person-lobby_route person =
      ap
        (λ b. if b then legacy else lobby_route (truthy bet.lobby_player_id) bet.amount_minor other)
        person

  pub route-lobby :
      (p : String)
      → bet.is_bot ≡ false
      → truthy bet.lobby_player_id ≡ some p
      → bet.amount_minor ≡ some amount
      → route bet ≡ lobby p amount
  route-lobby p person player stake =
      person-lobby_route person
      ∙ ap (λ o. lobby_route o bet.amount_minor other) player
      ∙ ap (λ a. lobby_route (some p) a other) stake

  pub route-operator :
      (o b c : String)
      → bet.is_bot ≡ false
      → truthy bet.lobby_player_id ≡ none
      → truthy bet.operator_id ≡ some o
      → truthy bet.bet_id ≡ some b
      → truthy bet.currency ≡ some c
      → bet.amount_minor ≡ some amount
      → route bet
        ≡ operator (record { operator_id = o; bet_id = b; currency = c; amount_minor = amount })
  route-operator o b c person no_player by_operator known priced stake =
      person-lobby_route person
      ∙ ap (λ x. lobby_route x bet.amount_minor other) no_player
      ∙ ap (λ x. operator_route x (truthy bet.bet_id) (truthy bet.currency) bet.amount_minor)
          by_operator
      ∙ ap (λ x. operator_route (some o) x (truthy bet.currency) bet.amount_minor) known
      ∙ ap (λ x. operator_route (some o) (some b) x bet.amount_minor) priced
      ∙ ap (λ x. operator_route (some o) (some b) (some c) x) stake
