-- ===== src/BetState/History.antt =====
-- What the accepted events of one bet say about the player's money: a debit, and at most one of a
-- credit, a refund and a loss.
use crash_game.Prelude.{
  ℕ, ◌+◌, ◌≤◌, ◌≡◌, Bool, true, false, some, List, [], ◌∷◌, arith, count, if◌then◌else◌,
}
use crash_game.BetState.{
  BetState, pending, settled, lost, rollback_pending, voided, BetEvent, transitions,
}
use crash_game.BetState.Path.{run, run-cons}

-- The events at which the operator has credited the win.
abbrev pub is_credit : BetEvent → Bool
is_credit BetEvent.win_settled = true
is_credit BetEvent.win_force_credited = true
is_credit _ = false

-- The events after which the stake is back with the player, or never left.
abbrev pub is_refund : BetEvent → Bool
is_refund BetEvent.bet_rejected = true
is_refund BetEvent.rollback_completed = true
is_refund _ = false

abbrev pub is_loss : BetEvent → Bool
is_loss BetEvent.round_crashed = true
is_loss _ = false

-- The operator has confirmed the debit.
abbrev pub is_debit : BetEvent → Bool
is_debit BetEvent.bet_accepted = true
is_debit _ = false

abbrev pub one_if : Bool → ℕ
one_if b = if b then 1 else 0

abbrev pub is_settled : BetState → Bool
is_settled settled = true
is_settled _ = false

abbrev pub is_voided : BetState → Bool
is_voided voided = true
is_voided _ = false

abbrev pub is_lost : BetState → Bool
is_lost lost = true
is_lost _ = false

-- The states of a bet whose debit is known.
abbrev pub is_debited : BetState → Bool
is_debited pending = false
is_debited rollback_pending = false
is_debited voided = false
is_debited _ = true

-- The effect of one accepted event on the four counts.
record Tally (s : BetState) (e : BetEvent) (t : BetState) : Type 0 where
  credit : one_if (is_credit e) + one_if (is_settled s) ≡ one_if (is_settled t)
  refund : one_if (is_refund e) + one_if (is_voided s) ≡ one_if (is_voided t)
  loss : one_if (is_loss e) + one_if (is_lost s) ≡ one_if (is_lost t)
  debit : one_if (is_debited t) ≤ one_if (is_debit e) + one_if (is_debited s)

transitions-Tally :
    (s : BetState) (e : BetEvent) (t : BetState) → transitions s e ≡ some t → Tally s e t
unfolding transitions
transitions-Tally pending e t h = ground arith
transitions-Tally _ e t h = ground arith

record Totals (s : BetState) (es : List BetEvent) (t : BetState) : Type 0 where
  credits : count is_credit es + one_if (is_settled s) ≡ one_if (is_settled t)
  refunds : count is_refund es + one_if (is_voided s) ≡ one_if (is_voided t)
  losses : count is_loss es + one_if (is_lost s) ≡ one_if (is_lost t)
  debits : one_if (is_debited t) ≤ count is_debit es + one_if (is_debited s)

run-Totals : (s : BetState) (es : List BetEvent) (t : BetState) → run s es ≡ some t → Totals s es t
run-Totals s [] t h = unfold run in ground arith
run-Totals s (e ∷ es) t h =
    let (u, step, rest) = run-cons s e es t h in
    omega (arith, transitions-Tally s e u step, run-Totals u es t rest)

debited_of_final :
    (t : BetState) → one_if (is_settled t) + one_if (is_lost t) ≤ one_if (is_debited t)
debited_of_final pending = omega arith
debited_of_final _ = omega arith

-- In every history of a bet that starts at `PENDING`, the win is credited exactly once if the bet
-- ends `SETTLED` and never otherwise, the stake is refunded exactly once if it ends `VOIDED` and
-- never otherwise, and it is lost likewise for `LOST`; a bet that is credited or lost has been
-- debited.
pub run-one_outcome :
    (es : List BetEvent) (t : BetState)
    → run pending es ≡ some t
    → (count is_credit es ≡ one_if (is_settled t))
      × (count is_refund es ≡ one_if (is_voided t))
      × (count is_loss es ≡ one_if (is_lost t))
      × (count is_credit es + count is_loss es ≤ count is_debit es)
run-one_outcome es t h = omega (arith, run-Totals pending es t h, debited_of_final t)
