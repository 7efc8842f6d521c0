-- ===== src/Cashout/Lobby.antt =====
-- What cashing out a bet of the personal lobby does to the ledger.
use mathlib.Core.Path.{subst}
use crash_game.Prelude.{
  truthy, ◌≡◌, refl, sym, ap, ◌∙◌, ℕ, String, str_eq, ◌&&◌, Option, some, or_else, true, false, [],
  ◌∷◌, ◌++◌, inl, inr, Bool-cases, arith, eq_iff,
}
use crash_game.Prelude.Int.{ℤ, pos, ◌+ℤ◌, ltb_ℤ, int_laws}
use crash_game.Prelude.Action.{Result, ok, err, ◌>>=◌}
use crash_game.World.{Thrown}
use crash_game.Ledger.{
  Kind, Entry, Table, LedgerError, bad_amount, balance, credit_win, credit_in_tx,
}
use crash_game.Ledger.Balance.{balance-append}
use crash_game.Cashout.{
  Bet, Source, Hall, cashout, send, default_currency, win_amount, marked_out, with_profit,
  lobby_ref, lobby_frame, pay_lobby, cash_out_lobby_bet,
}
use crash_game.Cashout.Routes.{try_cashout_bet-first, route-lobby}
use crash_game.Cashout.Operator.{cash_out_by, try_cashout_bet}

abbrev pub win_entry : String → ℕ → String → String → Entry
win_entry player_id win ref currency = record {
  player_id = player_id;
  currency = currency;
  amount_minor = pos win;
  kind = Kind.win;
  ref = some ref;
}

module _ (p : String) (win : ℕ) (ref c : String) (t : Table) where
  credit_win-refused :
      ltb_ℤ (pos 0) (pos win) ≡ false → credit_win p (pos win) ref c t ≡ (err bad_amount, t)
  unfolding credit_win credit_in_tx
  credit_win-refused h = ground arith

  credit_win-done :
      ltb_ℤ (pos 0) (pos win) ≡ true
      → credit_win p (pos win) ref c t
        ≡ (ok (balance p c (t ++ win_entry p win ref c ∷ [])), t ++ win_entry p win ref c ∷ [])
  unfolding credit_win credit_in_tx
  credit_win-done h = ground arith

-- The end of a call that began in the hall `h` with the ledger `t`, for a player's win in a currency.
abbrev pub IsPaid : Hall → Table → String → String → ℕ → Result Thrown (Unit {0}) × Hall → Type 0
IsPaid h t p c win (r, h') =
    (t' : Table) × (h'.ledger ≡ some t')
    × (balance p c t' ≡ balance p c t +ℤ pos win)
    × ((p' c' : String) → (str_eq p p' && str_eq c c') ≡ false → balance p' c' t' ≡ balance p' c' t)
    × (h'.bet.profit ≡ some win)
    × (h'.world ≡ h.world)
    × (ltb_ℤ (pos 0) (pos win) ≡ false → h'.store ≡ h.store)

no_win : (win : ℕ) → ltb_ℤ (pos 0) (pos win) ≡ false → win ≡ 0
no_win win h = ground arith

balance-paid :
    (p c ref : String) (win : ℕ) (t : Table)
    → balance p c (t ++ win_entry p win ref c ∷ []) ≡ balance p c t +ℤ pos win
balance-paid p c ref win t =
    balance-append p c t (win_entry p win ref c) ∙ ground (arith, eq_iff p p, eq_iff c c)

module _ (p : String) (bet : Bet) (amount multiplier : ℕ) (source : Source) (h : Hall) where
  abbrev win : ℕ
  win = win_amount amount multiplier

  abbrev currency : String
  currency = or_else bet.currency default_currency

  abbrev ref : String
  ref = lobby_ref h.round_number bet.slot

  abbrev marked : Hall
  marked = record h { bet = with_profit win (marked_out multiplier h.bet) }

  -- The handler after the ledger has answered, and the whole of it.
  abbrev credited : Result LedgerError ℤ × Table → Result Thrown (Unit {0}) × Hall
  credited (r, t') =
      (lobby_frame bet amount multiplier win source r >>= λ _.
      send (cashout bet.player_id multiplier win source false))
        (record marked { ledger = some t' })

  abbrev paid : Option Table → Result Thrown (Unit {0}) × Hall
  paid o =
      (pay_lobby p bet amount multiplier win ref source o >>= λ _.
      send (cashout bet.player_id multiplier win source false))
        marked

  credited-IsPaid :
      (t : Table) → IsPaid h t p currency win (credited (credit_win p (pos win) ref currency t))
  credited-IsPaid t = elim (Bool-cases (ltb_ℤ (pos 0) (pos win))) [
    | inl some_win ↦
        subst (λ x. IsPaid h t p currency win (credited x))
          (sym (credit_win-done p win ref currency t some_win))
          (
            t ++ win_entry p win ref currency ∷ [],
            refl,
            balance-paid p currency ref win t,
            λ p' c' other. balance-append p' c' t (win_entry p win ref currency) ∙ rw other,
            refl,
            refl,
            λ no. ground arith,
          )
    | inr none_won ↦
        subst (λ x. IsPaid h t p currency win (credited x))
          (sym (credit_win-refused p win ref currency t none_won))
          (
            t,
            refl,
            subst (λ n. balance p currency t ≡ balance p currency t +ℤ pos n)
                (sym (no_win win none_won)) (omega int_laws),
            λ p' c' other. refl,
            refl,
            refl,
            λ _. refl,
          )
  ]

  cash_out_lobby_bet-IsPaid :
      (t : Table)
      → h.ledger ≡ some t
      → IsPaid h t p currency win (cash_out_lobby_bet p bet amount multiplier source h)
  unfolding cash_out_lobby_bet
  cash_out_lobby_bet-IsPaid t wired =
      subst (λ o. IsPaid h t p currency win (paid o)) (sym wired) (credited-IsPaid t)

-- The bet of a player of the lobby, when it is still in play: the player's balance in the currency of
-- the bet rises by exactly what the code computes as the win, the product of the stake and the
-- multiplier as doubles, rounded to a whole minor unit, and no other balance changes; the bet carries
-- that win as its profit; the rows of the operators' bets, their alerts and their idempotency keys
-- stay as they were; and a win of nothing counts in no statistics.
pub try_cashout_bet-IsPaid :
    (txn : String) (multiplier : ℕ) (source : Source) (h : Hall) (p : String) (amount : ℕ)
    (t : Table)
    → h.bet.cashed_out ≡ false
    → h.bet.is_bot ≡ false
    → truthy h.bet.lobby_player_id ≡ some p
    → h.bet.amount_minor ≡ some amount
    → h.ledger ≡ some t
    → IsPaid h t p
        (or_else h.bet.currency default_currency)
        (win_amount amount multiplier)
        (try_cashout_bet txn multiplier source h)
try_cashout_bet-IsPaid txn multiplier source h p amount t still person player stake wired =
    subst (IsPaid h t p (or_else h.bet.currency default_currency) (win_amount amount multiplier))
      (sym (
        try_cashout_bet-first txn multiplier source h still
        ∙ ap (λ way. cash_out_by txn h.bet multiplier source way h)
            (route-lobby h.bet amount p person player stake)))
      (cash_out_lobby_bet-IsPaid p h.bet amount multiplier source h t wired)
