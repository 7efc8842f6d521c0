-- ===== src/Payout/Initiate.antt =====
-- `initiate` comes to its end, whatever the provider answers and whatever runs while it waits.
use crash_game.Prelude.{
  ◌≡◌, refl, ap, ◌∙◌, String, Bool, false, true, Option, none, some, or_else, Bool-cases, inl, inr,
  concat, if◌then◌else◌,
}
use crash_game.Prelude.Int.{pos, ◌≤ℤ◌}
use crash_game.Prelude.Action.{Result, ok, err}
use crash_game.Ledger.{Kind, Table, LedgerError, credit_in_tx}
use crash_game.Ledger.Balance.{positive_test}
use crash_game.Withdrawals.{
  Withdrawal, Bank, get, is_open, refund_row, refund_found, fail_and_refund,
}
use crash_game.Payout.{
  PayoutResult, PayoutError, rejected, unknown, PayOutProvider, Answer, Task, sending, initiated,
  sent, refused, resume,
}
use crash_game.Payout.Forged.{credited}

-- The row with the reference, if there is one, holds a positive amount.
abbrev pub IsPositive : String → Bank → Type 0
IsPositive reference bank = (x : Withdrawal) → get reference bank ≡ some x → pos 1 ≤ℤ x.amount_minor

-- Three waits of a method, in the tables that it finds when each of them ends.
unfoldable pub three_waits : PayOutProvider → Answer → Task → (b1 b2 b3 : Bank) → Task
unfolding resume
three_waits provider answer task b1 b2 b3 =
    let (t1, _) = resume provider answer task b1 in
    let (t2, _) = resume provider answer t1 b2 in let (t3, _) = resume provider answer t2 b3 in t3

refund_found-ok :
    (reference reason : String) (bank : Bank) (o : Option Withdrawal)
    → ((x : Withdrawal) → o ≡ some x → pos 1 ≤ℤ x.amount_minor)
    → (b : Bool) × ((refund_found reference reason bank o).0 ≡ ok b)
refund_found-ok reference reason bank none positive = (false, refl)
refund_found-ok reference reason bank (some x) positive = elim (Bool-cases (is_open x.status)) [
  | inl alive ↦ (
    true,
    ap (λ b. (if b then refund_row reference reason bank (credit x) else (ok false, bank)).0) alive
        ∙ ap (λ r. (refund_row reference reason bank r).0)
            (credited reference x bank.ledger (positive_test x.amount_minor (positive x refl))),
  )
  | inr over ↦ (
    false,
    ap (λ b. (if b then refund_row reference reason bank (credit x) else (ok false, bank)).0) over,
  )
]
  where
    credit : Withdrawal → Result LedgerError (Unit {0}) × Table
    credit x =
        credit_in_tx x.player_id x.amount_minor Kind.adjust (concat "wd-refund:" reference)
          x.currency bank.ledger

refund-ok :
    (reference reason : String) (bank : Bank)
    → IsPositive reference bank
    → (b : Bool) × ((fail_and_refund reference reason bank).0 ≡ ok b)
unfolding fail_and_refund
refund-ok reference reason bank positive =
    refund_found-ok reference reason bank (get reference bank) positive

module _ (provider : PayOutProvider) (w : Withdrawal) (recipient_name : String)
    (answer : Answer) where
  -- Whatever the provider answers to the payout, an error of the network among it, and whatever other
  -- parts of the program write while it waits: `initiate` does not throw, and after at most three
  -- waits it returns a withdrawal, as long as a row that it may have to refund holds a positive amount.
  pub initiate-ends :
      (b1 b2 b3 : Bank)
      → IsPositive w.reference b2
      → (x : Withdrawal) × (three_waits provider answer (sending w recipient_name) b1 b2 b3
          ≡ initiated x)
  unfolding three_waits resume
  initiate-ends b1 b2 b3 positive = ends answer.payout
    where
      two_more : Result PayoutError PayoutResult → Task
      two_more r =
          let (t2, _) = resume provider answer (sent w r) b2 in
          let (t3, _) = resume provider answer t2 b3 in t3

      ends : (r : Result PayoutError PayoutResult) → (x : Withdrawal) × (two_more r ≡ initiated x)
      ends (ok r) = (or_else (get w.reference b3) w, refl)
      ends (err unknown) = (or_else (get w.reference b2) w, refl)
      ends (err (rejected m)) =
          let (b, returned) = refund-ok w.reference m b2 positive in
          (
            or_else (get w.reference b3) w,
            ap (λ r. let (t3, _) = resume provider answer (refused w r) b3 in t3) returned,
          )
