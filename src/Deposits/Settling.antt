-- ===== src/Deposits/Settling.antt =====
-- A confirmed webhook settles its deposit, also when an earlier handler stopped half way.
use crash_game.Prelude.{
  ℕ, zero, suc, String, ◌≡◌, refl, sym, ap, ◌∙◌, inl, inr, Bool, true, false, Option, some, List,
  [], ◌∷◌, ◌++◌, find, arith,
}
use mathlib.Core.Path.{subst}
use crash_game.Prelude.Int.{ℤ, pos, ltb_ℤ}
use crash_game.Errors.{Json}
use crash_game.Ledger.{Entry, Table, balance, credit_deposit}
use crash_game.Deposits.{
  DepositStatus, Deposit, Desk, has_reference, get, mark_settled, is_pending, was_pending,
}
use crash_game.Deposits.Webhook.{
  Outcome, ParsedEvent, VerifiedTxn, Request, PayInProvider, Task, looking, crediting, settling,
  answered, is_ours, receive, looked, confirms, credited, resume,
}
use crash_game.Deposits.Credited.{entry_of, credits, IsSound, IsRow, settled_found}
use crash_game.Deposits.Reached.{found_reference}
use crash_game.Deposits.Steps.{credit_end}
use crash_game.Deposits.Crediting.{credited_before, credited_now}

-- A handler that runs on for a number of steps, always with the same answer.
unfoldable pub run_handler : ℕ → Option VerifiedTxn → Task × Desk → Task × Desk
unfolding resume
run_handler zero answer (task, desk) = (task, desk)
run_handler (suc n) answer (task, desk) = run_handler n answer (resume answer task desk)

module _ (evt : ParsedEvent) (d : Deposit) (v : VerifiedTxn) (desk : Desk) where
  abbrev told : Desk → List (String × ℤ × String)
  told after =
      desk.notices ++ (d.player_id, balance d.player_id d.currency after.ledger, d.currency) ∷ []

  -- The handler has answered; the deposit is settled, credited once, and its player was told.
  abbrev pub IsDone : Task × Desk → Type 0
  IsDone (task, after) =
      (task ≡ answered 200)
      × (get evt.reference after ≡ some (record d { status = DepositStatus.settled }))
      × (credits evt.reference after.ledger ≡ entry_of d ∷ [])
      × (after.notices ≡ told after)

  module _ (found : find (has_reference evt.reference) desk.deposits ≡ some d)
      (waiting : d.status ≡ DepositStatus.pending) where
    flipped : was_pending (find (has_reference evt.reference) desk.deposits) ≡ true
    flipped = ap was_pending found ∙ ap is_pending waiting

    from_settling :
        (t : Table)
        → credits evt.reference t ≡ entry_of d ∷ []
        → IsDone (run_handler 2 (some v) (settling evt d, record desk { ledger = t }))
    unfolding run_handler resume get mark_settled
    from_settling t h =
        rw flipped (refl, settled_found evt.reference desk.deposits d found waiting, h, refl)

    from_crediting :
        IsSound desk
        → evt.reference ≡ d.reference
        → ltb_ℤ (pos 0) d.amount_minor ≡ true
        → IsDone (run_handler 3 (some v) (crediting evt d, desk))
    unfolding run_handler
    from_crediting sound same positive =
        subst
          (λ r. IsDone (
            run_handler 2 (some v) (
              credited evt d desk
                (credit_deposit d.player_id d.amount_minor d.currency (some r) desk.ledger))))
          (sym same)
          (elim (credit_end d desk.ledger) [
            | inl (thrown, bad) ↦ cc
            | inr (inl (b, done, again)) ↦ rw done (
                from_settling desk.ledger
                  (own (λ r. credits r desk.ledger) (credited_before desk d sound row again)))
            | inr (inr (b, done, first)) ↦ rw done (
                from_settling (desk.ledger ++ entry_of d ∷ []) (
                  own (λ r. credits r (desk.ledger ++ entry_of d ∷ []))
                    (credited_now desk d sound first)))
          ])
      where
        row : IsRow d (find (has_reference d.reference) desk.deposits)
        row =
            subst (λ r. IsRow d (find (has_reference r) desk.deposits)) same
              (subst (IsRow d) (sym found) refl)

        own :
            (f : String → List Entry)
            → f d.reference ≡ entry_of d ∷ []
            → f evt.reference ≡ entry_of d ∷ []
        own f h = ap f same ∙ h

    -- The handler that looked the deposit up.
    pub from_looking :
        IsSound desk
        → evt.reference ≡ d.reference
        → ltb_ℤ (pos 0) d.amount_minor ≡ true
        → evt.outcome ≡ Outcome.success
        → confirms evt d v ≡ true
        → IsDone (run_handler 5 (some v) (looking evt, desk))
    unfolding run_handler resume get
    from_looking sound same positive success agrees =
        subst (λ o. IsDone (run_handler 4 (some v) (looked evt o evt.outcome, desk))) (sym found)
          (subst (λ x. IsDone (run_handler 4 (some v) (looked evt (some d) x, desk))) (sym success)
            (rw agrees (from_crediting sound same positive)))

module _ (provider : PayInProvider) (claimed : Json → Bool) where
  -- A signed webhook of the processor about a game deposit that is pending, when the processor
  -- confirms the transaction: the handler, run to its end, answers 200, the deposit is settled and
  -- credited exactly once with the amount of its row, and its player is told the new balance. This
  -- holds on every sound desk, so also when an earlier handler stopped between the credit and
  -- `markSettled`: the webhook that is sent again finishes the work and does not credit twice.
  pub run_handler-IsDone :
      (req : Request) (payload : Json) (evt : ParsedEvent) (d : Deposit) (v : VerifiedTxn)
      (desk : Desk)
      → IsSound desk
      → provider.verify_webhook_signature req.header req.raw ≡ true
      → req.payload ≡ some payload
      → claimed payload ≡ false
      → provider.parse_event payload ≡ some evt
      → is_ours evt ≡ true
      → evt.outcome ≡ Outcome.success
      → get evt.reference desk ≡ some d
      → d.status ≡ DepositStatus.pending
      → ltb_ℤ (pos 0) d.amount_minor ≡ true
      → confirms evt d v ≡ true
      → IsDone evt d v desk (run_handler 5 (some v) (receive provider claimed req, desk))
  unfolding get
  run_handler-IsDone req payload evt d v desk sound signed body free event ours success found
        waiting positive agrees =
      subst (λ t. IsDone evt d v desk (run_handler 5 (some v) (t, desk))) (sym received)
        (from_looking evt d v desk found waiting sound
          (sym (found_reference evt.reference desk.deposits d found)) positive success agrees)
    where
      received : receive provider claimed req ≡ looking evt
      received = unfold receive in ground (arith, signed, body, free, event, ours)
