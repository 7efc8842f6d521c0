-- ===== src/Cashout/Once.antt =====
-- A bet is cashed out once, however often a player clicks and the engine ticks.
use mathlib.Core.Path.{subst}
use crash_game.Prelude.{
  ◌≡◌, refl, ap, sym, arith, ◌∙◌, ℕ, String, inl, inr, Option, none, some, is_some, true, false,
  List, [], ◌∷◌, Bool-cases, if◌then◌else◌,
}
use crash_game.Prelude.Int.{ℤ}
use crash_game.Prelude.Action.{Result, ok, err, ◌>>=◌, bind_ok}
use crash_game.Session.{SessionStats, StoreError, store_offline, session_not_found}
use crash_game.Ledger.{Table, LedgerError}
use crash_game.World.{Thrown}
use crash_game.WalletClient.{WalletClient}
use crash_game.Bets.{WalletBetResult, cash_out_operator_bet}
use crash_game.Cashout.{
  Bet, Source, Frame, cashout, Hall, OperatorDeps, Method, send, win_amount, demo_profit,
  marked_out, with_profit, demo_frame, pay_demo, cash_out_bet, lobby_ref, lobby_frame, pay_lobby,
  cash_out_lobby_bet,
}
use crash_game.Cashout.Routes.{try_cashout_bet-again, try_cashout_bet-first}
use crash_game.Cashout.Operator.{
  OperatorBet, Route, legacy, lobby, operator, route, cash_out_input, finish_operator,
  cash_out_with, cash_out_operator, cash_out_by, try_cashout_bet,
}

-- What a call leaves: it returned, and the bet is out.
abbrev pub IsOut : Result Thrown (Unit {0}) × Hall → Type 0
IsOut (r, h) = (r ≡ ok tt) × (h.bet.cashed_out ≡ true)

-- A step of the handler that does not touch the bet.
abbrev Kept : Hall → Result Thrown (Unit {0}) × Hall → Type 0
Kept h (r, h') = (r ≡ ok tt) × (h'.bet ≡ h.bet)

demo_frame-keeps :
    (bet : Bet) (multiplier profit : ℕ) (source : Source) (r : Result StoreError (ℤ × SessionStats))
    (h : Hall)
    → Kept h (demo_frame bet multiplier profit source r h)
demo_frame-keeps bet multiplier profit source (ok _) h = (refl, refl)
demo_frame-keeps bet multiplier profit source (err store_offline) h = (refl, refl)
demo_frame-keeps bet multiplier profit source (err session_not_found) h = (refl, refl)

pay_demo-keeps :
    (bet : Bet) (o : Option ℕ) (multiplier profit : ℕ) (source : Source) (h : Hall)
    → Kept h (pay_demo bet o multiplier profit source h)
pay_demo-keeps bet none multiplier profit source h = (refl, refl)
pay_demo-keeps bet (some n) multiplier profit source h =
    demo_frame-keeps bet multiplier profit source _ _

lobby_frame-keeps :
    (bet : Bet) (amount multiplier win : ℕ) (source : Source) (r : Result LedgerError ℤ) (h : Hall)
    → Kept h (lobby_frame bet amount multiplier win source r h)
lobby_frame-keeps bet amount multiplier win source (ok _) h = (refl, refl)
lobby_frame-keeps bet amount multiplier win source (err _) h = (refl, refl)

pay_lobby-keeps :
    (p : String) (bet : Bet) (amount multiplier win : ℕ) (ref : String) (source : Source)
    (t : Option Table) (h : Hall)
    → Kept h (pay_lobby p bet amount multiplier win ref source t h)
pay_lobby-keeps p bet amount multiplier win ref source none h = (refl, refl)
pay_lobby-keeps p bet amount multiplier win ref source (some t) h =
    lobby_frame-keeps bet amount multiplier win source _ _

-- A step that keeps the bet, and the frame that is sent after it.
then-IsOut :
    (m : Method (Unit {0})) (frame : Frame) (h : Hall)
    → h.bet.cashed_out ≡ true
    → Kept h (m h)
    → IsOut ((m >>= λ _. send frame) h)
then-IsOut m frame h out (returned, kept) =
    let (_, h') = m h in
    subst IsOut (sym (bind_ok m (λ _. send frame) {s = h} {s' = h'} (ap (λ r. (r, h')) returned)))
      (refl, ap (λ b. b.cashed_out) kept ∙ out)

-- The bet as a path of the lobby or of demo credits marks it first.
abbrev marked : Hall → (profit multiplier : ℕ) → Hall
marked h profit multiplier = record h { bet = with_profit profit (marked_out multiplier h.bet) }

cash_out_bet-IsOut :
    (bet : Bet) (multiplier : ℕ) (source : Source) (h : Hall)
    → IsOut (cash_out_bet bet multiplier source h)
unfolding cash_out_bet
cash_out_bet-IsOut bet multiplier source h =
    let win = demo_profit bet.amount multiplier in
    let round = if bet.is_bot then none else h.round_number in
    then-IsOut (pay_demo bet round multiplier win source)
      (cashout bet.player_id multiplier win source false) (marked h win multiplier) refl
      (pay_demo-keeps bet round multiplier win source (marked h win multiplier))

cash_out_lobby_bet-IsOut :
    (p : String) (bet : Bet) (amount multiplier : ℕ) (source : Source) (h : Hall)
    → IsOut (cash_out_lobby_bet p bet amount multiplier source h)
unfolding cash_out_lobby_bet
cash_out_lobby_bet-IsOut p bet amount multiplier source h =
    let win = win_amount amount multiplier in
    let ref = lobby_ref h.round_number bet.slot in
    then-IsOut (pay_lobby p bet amount multiplier win ref source h.ledger)
      (cashout bet.player_id multiplier win source false) (marked h win multiplier) refl
      (pay_lobby-keeps p bet amount multiplier win ref source h.ledger (marked h win multiplier))

finish_operator-IsOut :
    (bet : Bet) (o : OperatorBet) (txn : String) (multiplier : ℕ) (source : Source)
    (r : Result Thrown WalletBetResult) (h : Hall)
    → IsOut (finish_operator bet o txn multiplier source r h)
finish_operator-IsOut bet o txn multiplier source (ok _) h = (refl, refl)
finish_operator-IsOut bet o txn multiplier source (err _) h = (refl, refl)

cash_out_with-IsOut :
    (bet : Bet) (o : OperatorBet) (txn : String) (multiplier : ℕ) (source : Source)
    (client : Option WalletClient) (h : Hall)
    → IsOut (cash_out_with bet o txn multiplier source client h)
cash_out_with-IsOut bet o txn multiplier source none h = (refl, refl)
cash_out_with-IsOut bet o txn multiplier source (some client) h =
    let (answer, w) =
      cash_out_operator_bet client (cash_out_input o txn multiplier h.world.now) h.world in
    finish_operator-IsOut bet o txn multiplier source answer (record h { world = w })

cash_out_operator-IsOut :
    (bet : Bet) (o : OperatorBet) (txn : String) (multiplier : ℕ) (source : Source)
    (deps : Option OperatorDeps) (h : Hall)
    → is_some deps ≡ true
    → IsOut (cash_out_operator bet o txn multiplier source deps h)
cash_out_operator-IsOut bet o txn multiplier source none h wired = ground arith
cash_out_operator-IsOut bet o txn multiplier source (some deps) h wired =
    cash_out_with-IsOut bet o txn multiplier source (deps.client_of o.operator_id) h

cash_out_by-IsOut :
    (txn : String) (bet : Bet) (multiplier : ℕ) (source : Source) (way : Route) (h : Hall)
    → is_some h.operators ≡ true
    → IsOut (cash_out_by txn bet multiplier source way h)
cash_out_by-IsOut txn bet multiplier source legacy h wired =
    cash_out_bet-IsOut bet multiplier source h
cash_out_by-IsOut txn bet multiplier source (lobby p amount) h wired =
    cash_out_lobby_bet-IsOut p bet amount multiplier source h
cash_out_by-IsOut txn bet multiplier source (operator o) h wired =
    cash_out_operator-IsOut bet o txn multiplier source h.operators h wired

try_cashout_bet-IsOut :
    (txn : String) (multiplier : ℕ) (source : Source) (h : Hall)
    → is_some h.operators ≡ true
    → IsOut (try_cashout_bet txn multiplier source h)
try_cashout_bet-IsOut txn multiplier source h wired = elim (Bool-cases h.bet.cashed_out) [
  | inl out ↦ subst IsOut (sym (try_cashout_bet-again txn multiplier source h out)) (refl, out)
  | inr still ↦
      subst IsOut (sym (try_cashout_bet-first txn multiplier source h still))
        (cash_out_by-IsOut txn h.bet multiplier source (route h.bet) h wired)
]

-- A click of the player, or a tick of the engine that has passed the target.
pub record Attempt : Type 0 where
  pub win_txn_id : String
  pub multiplier : ℕ
  pub source : Source

-- The hall after these attempts, each at an end before the next begins.
unfoldable pub after_attempts : List Attempt → Hall → Hall
after_attempts [] h = h
after_attempts (a ∷ attempts) h =
    let (_, h') = try_cashout_bet a.win_txn_id a.multiplier a.source h in after_attempts attempts h'

after_attempts-out :
    (attempts : List Attempt) (h : Hall) → h.bet.cashed_out ≡ true → after_attempts attempts h ≡ h
unfolding after_attempts
after_attempts-out [] h out = refl
after_attempts-out (a ∷ attempts) h out =
    rw (try_cashout_bet-again a.win_txn_id a.multiplier a.source h out)
      (after_attempts-out attempts h out)

-- Once the server is wired, the first attempt to cash a bet out returns, whatever path the bet takes
-- and whatever the wallet answers or the store throws, and the bet is marked as cashed out; however
-- many attempts follow, by hand or by the engine and at any multiplier, they change nothing: no
-- balance, no row, no frame, no statistics.
pub after_attempts-once :
    (a : Attempt) (attempts : List Attempt) (h : Hall)
    → is_some h.operators ≡ true
    → let (r, h') = try_cashout_bet a.win_txn_id a.multiplier a.source h in
      (r ≡ ok tt) × (h'.bet.cashed_out ≡ true) × (after_attempts (a ∷ attempts) h ≡ h')
unfolding after_attempts
after_attempts-once a attempts h wired =
    let (returned, out) = try_cashout_bet-IsOut a.win_txn_id a.multiplier a.source h wired in
    (returned, out, after_attempts-out attempts _ out)
