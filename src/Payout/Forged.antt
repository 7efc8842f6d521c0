-- ===== src/Payout/Forged.antt =====
-- A payout webhook that names the transaction of another payout.
use crash_game.Prelude.{
  ◌≡◌, refl, ap, ◌∙◌, String, concat, truthy, starts_with, eq_iff, arith, true, false, some, [],
  ◌∷◌, ◌++◌, if◌then◌else◌,
}
use crash_game.Prelude.Int.{pos, ◌+ℤ◌, ◌≤ℤ◌, ltb_ℤ}
use crash_game.Prelude.Action.{ok}
use crash_game.Errors.{Json}
use crash_game.Ledger.{Kind, Entry, Table, balance, credit_in_tx}
use crash_game.Ledger.Balance.{balance-append, positive_test}
use crash_game.Withdrawals.{
  Withdrawal, Bank, get, is_open, coalesce, refund_row, refund_found, fail_and_refund,
}
use crash_game.Payout.{
  failed, PayoutEvent, PayOutProvider, Answer, by_webhook, Task, loading, confirming, applying,
  withdrawal_ref_prefix, parsed, on_webhook, lookup_first, loaded, confirmed, apply, resume,
}

abbrev refund_entry : String → Withdrawal → Entry
refund_entry reference w = record {
  player_id = w.player_id;
  currency = w.currency;
  amount_minor = w.amount_minor;
  kind = Kind.adjust;
  ref = some (concat "wd-refund:" reference);
}

pub credited :
    (reference : String) (w : Withdrawal) (t : Table)
    → ltb_ℤ (pos 0) w.amount_minor ≡ true
    → credit_in_tx w.player_id w.amount_minor Kind.adjust
        (concat "wd-refund:" reference)
        w.currency
        t
      ≡ (ok tt, t ++ refund_entry reference w ∷ [])
unfolding credit_in_tx
credited reference w t positive = ground (arith, positive)

refunded :
    (reference reason : String) (w : Withdrawal) (bank : Bank)
    → get reference bank ≡ some w
    → is_open w.status ≡ true
    → pos 1 ≤ℤ w.amount_minor
    → (fail_and_refund reference reason bank).1.ledger
      ≡ bank.ledger ++ refund_entry reference w ∷ []
unfolding fail_and_refund
refunded reference reason w bank found alive positive =
    let credit =
      credit_in_tx w.player_id w.amount_minor Kind.adjust (concat "wd-refund:" reference) w.currency
        bank.ledger in
    ap (λ o. (refund_found reference reason bank o).1.ledger) found
    ∙ ap (λ b. (if b then refund_row reference reason bank credit else (ok false, bank)).1.ledger)
        alive
    ∙ ap (λ r. (refund_row reference reason bank r).1.ledger)
        (credited reference w bank.ledger (positive_test w.amount_minor positive))

-- `onWebhook` to its end, when nothing else runs.
unfoldable pub handled : PayOutProvider → Answer → Json → Bank → Task × Bank
unfolding on_webhook resume
handled provider answer payload bank =
    let (loading_task, bank1) = resume provider answer (on_webhook provider payload) bank in
    let (confirming_task, bank2) = resume provider answer loading_task bank1 in
    resume provider answer confirming_task bank2

module _ (provider : PayOutProvider) (answer : Answer) (payload : Json) (bank : Bank)
    (evt : PayoutEvent) (w : Withdrawal) (txn_id : String)
    (event : provider.parse_payout_event payload ≡ some evt)
    (ours : starts_with evt.reference withdrawal_ref_prefix ≡ true)
    (found : get evt.reference bank ≡ some w) (alive : is_open w.status ≡ true)
    (named : truthy (coalesce evt.provider_txn_id w.provider_txn_id) ≡ some txn_id)
    (refuted : answer.lookup_payout ≡ some failed) where
  begins : on_webhook provider payload ≡ loading evt
  unfolding on_webhook
  begins = ap parsed event ∙ rw ours refl

  loads : loaded provider evt (get evt.reference bank) ≡ confirming evt w txn_id
  loads =
      ap (loaded provider evt) found
      ∙ rw alive
          (ap (lookup_first provider evt w (coalesce evt.provider_txn_id w.provider_txn_id)) named)

  abbrev last : Task
  last = applying w.reference failed (some txn_id) "confirmed lookup" by_webhook

  handled_lem : handled provider answer payload bank ≡ resume provider answer last bank
  unfolding handled resume
  handled_lem =
      ap
        (λ task.
          let (t1, b1) = resume provider answer task bank in
          let (t2, b2) = resume provider answer t1 b1 in resume provider answer t2 b2)
        begins
      ∙ ap (λ task. let (t2, b2) = resume provider answer task bank in resume provider answer t2 b2)
          loads
      ∙ ap (λ o. resume provider answer (confirmed provider evt w txn_id o) bank) refuted

  -- A webhook that names an open withdrawal of ours and any transaction that the provider looks up as
  -- failed: the withdrawal's whole amount goes back to the player's balance, also when that
  -- transaction is another payout's and the withdrawal's own is still under way.
  pub handled-refunds :
      pos 1 ≤ℤ w.amount_minor
      → w.reference ≡ evt.reference
      → balance w.player_id w.currency (handled provider answer payload bank).1.ledger
        ≡ balance w.player_id w.currency bank.ledger +ℤ w.amount_minor
  unfolding resume apply
  handled-refunds positive same =
      ap (λ r. balance w.player_id w.currency r.1.ledger) handled_lem
      ∙ ap (balance w.player_id w.currency) (
          refunded w.reference "payout failed (confirmed lookup)" w bank
            (ap (λ r. get r bank) same ∙ found) alive positive)
      ∙ balance-append w.player_id w.currency bank.ledger (refund_entry w.reference w)
      ∙ ground (arith, eq_iff w.player_id w.player_id, eq_iff w.currency w.currency)
