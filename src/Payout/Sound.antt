-- ===== src/Payout/Sound.antt =====
-- What is known of a withdrawal and of a method that waits, when the provider tells the truth.
use mathlib.Core.Path.{subst}
use crash_game.Prelude.{
  ◌≡◌, refl, sym, ap, String, Bool, eq_iff, arith, true, false, Option, none, some, List, [], ◌∷◌,
  find, All, All-append, Bool-cases, inl, inr,
}
use crash_game.Prelude.Int.{ℤ}
use crash_game.Prelude.Action.{Result, ok, err}
use crash_game.Ledger.{Kind, Table, LedgerError, debit_in_tx}
use crash_game.Withdrawals
use crash_game.Withdrawals.{
  WithdrawalStatus, processing, Withdrawal, Bank, WithdrawalInput, has_reference, get, set_row,
  new_withdrawal, insert_row, insert_withdrawal, request, is_pending, is_open, coalesce, moved_to,
  update_found, mark_processing, mark_succeeded, failed_for, refund_row, refund_found,
  fail_and_refund,
}
use crash_game.Withdrawals.Conserved.{is_failed}
use crash_game.Payout.{
  failed, Caller, by_reconcile, Task, refusing, loading, confirming, marking_succeeded,
  marking_processing, checking, applying,
}

All-find :
    (P : Withdrawal → Type 0) (p : Withdrawal → Bool) (ws : List Withdrawal) (w : Withdrawal)
    → All P ws
    → find p ws ≡ some w
    → P w
All-find P p [] w h found = ground arith
All-find P p (x ∷ ws) w h found = elim (Bool-cases (p x)) [
  | inl here ↦ subst P (first here) h.0
  | inr apart ↦ All-find P p ws w h.1 (later apart)
]
  where
    first : p x ≡ true → x ≡ w
    first here = ground arith

    later : p x ≡ false → find p ws ≡ some w
    later apart = ground arith

-- `landed` tells which references the provider pays in the end, `owner` the reference of each of its
-- transactions.
module _ (landed : String → Bool) (owner : String → String) where
  abbrev pub IsOwn : String → Option String → Type 0
  IsOwn reference none = Unit
  IsOwn reference (some txn_id) = owner txn_id ≡ reference

  pub record IsSane (w : Withdrawal) : Type 0 where
    pub own : IsOwn w.reference w.provider_txn_id
    pub kept : landed w.reference ≡ true → is_failed w.status ≡ false

  abbrev pub IsSoundCaller : Caller → Type 0
  IsSoundCaller (by_reconcile rest needs_review) =
      All (λ w. IsOwn w.reference w.provider_txn_id) rest
  IsSoundCaller _ = Unit

  abbrev pub IsSound : Task → Type 0
  IsSound (refusing w message) = landed w.reference ≡ false
  IsSound (loading evt) = IsOwn evt.reference evt.provider_txn_id
  IsSound (confirming evt w txn_id) = owner txn_id ≡ w.reference
  IsSound (marking_succeeded reference txn_id) = IsOwn reference txn_id
  IsSound (marking_processing reference txn_id) = IsOwn reference txn_id
  IsSound (checking w txn_id rest needs_review) =
      (owner txn_id ≡ w.reference)
      × IsOwn w.reference w.provider_txn_id
      × All (λ x. IsOwn x.reference x.provider_txn_id) rest
  IsSound (applying reference status txn_id source caller) =
      (status ≡ failed → landed reference ≡ false) × IsOwn reference txn_id × IsSoundCaller caller
  IsSound _ = Unit

  set_row-IsSane :
      (reference : String) (f : Withdrawal → Withdrawal)
      → ((w : Withdrawal) → w.reference ≡ reference → IsSane w → IsSane (f w))
      → (ws : List Withdrawal) → All IsSane ws
      → All IsSane (set_row reference f ws)
  unfolding set_row
  set_row-IsSane reference f keeps [] h = tt
  set_row-IsSane reference f keeps (w ∷ ws) h = elim (Bool-cases (has_reference reference w)) [
    | inl here ↦ rw here (keeps w ((eq_iff w.reference reference).0 here) h.0, h.1)
    | inr apart ↦ rw apart (h.0, set_row-IsSane reference f keeps ws h.1)
  ]

  pub coalesced :
      (reference : String) (new old : Option String)
      → IsOwn reference new
      → IsOwn reference old
      → IsOwn reference (coalesce new old)
  coalesced reference none old n o = o
  coalesced reference (some t) old n o = n

  moved_to-IsSane :
      (reference : String) (status : WithdrawalStatus) (txn_id : Option String)
      → IsOwn reference txn_id
      → is_failed status ≡ false
      → (w : Withdrawal) → w.reference ≡ reference
      → IsSane w
      → IsSane (moved_to status txn_id w)
  moved_to-IsSane reference status txn_id own alive w same h = record {
    own =
        coalesced w.reference txn_id w.provider_txn_id (subst (λ r. IsOwn r txn_id) (sym same) own)
          h.own;
    kept = λ _. alive;
  }

  failed_for-IsSane :
      (reference reason : String)
      → landed reference ≡ false
      → (w : Withdrawal) → w.reference ≡ reference
      → IsSane w
      → IsSane (failed_for reason w)
  failed_for-IsSane reference reason lost w same h = record {
    own = h.own;
    kept = λ yes. ground (arith, ap landed same);
  }

  update_found-IsSane :
      (guard : WithdrawalStatus → Bool) (f : Withdrawal → Withdrawal) (reference : String)
      (bank : Bank)
      → ((w : Withdrawal) → w.reference ≡ reference → IsSane w → IsSane (f w))
      → All IsSane bank.withdrawals
      → (o : Option Withdrawal) → All IsSane (update_found guard f reference bank o).1.withdrawals
  update_found-IsSane guard f reference bank keeps h none = h
  update_found-IsSane guard f reference bank keeps h (some w) = elim (Bool-cases (guard w.status)) [
    | inl passes ↦ rw passes (set_row-IsSane reference f keeps bank.withdrawals h)
    | inr shut ↦ rw shut h
  ]

  module _ (bank : Bank) (sane : All IsSane bank.withdrawals) where
    pub mark_processing-IsSane :
        (reference : String) (txn_id : Option String)
        → IsOwn reference txn_id
        → All IsSane (mark_processing reference txn_id bank).1.withdrawals
    unfolding mark_processing
    mark_processing-IsSane reference txn_id own =
        update_found-IsSane is_pending (moved_to processing txn_id) reference bank
          (moved_to-IsSane reference processing txn_id own refl) sane (get reference bank)

    pub mark_succeeded-IsSane :
        (reference : String) (txn_id : Option String)
        → IsOwn reference txn_id
        → All IsSane (mark_succeeded reference txn_id bank).1.withdrawals
    unfolding mark_succeeded
    mark_succeeded-IsSane reference txn_id own =
        update_found-IsSane is_open (moved_to Withdrawals.success txn_id) reference bank
          (moved_to-IsSane reference Withdrawals.success txn_id own refl) sane (get reference bank)

    refund_row-IsSane :
        (reference reason : String) (r : Result LedgerError (Unit {0}) × Table)
        → landed reference ≡ false
        → All IsSane (refund_row reference reason bank r).1.withdrawals
    refund_row-IsSane reference reason (err e, t) lost = sane
    refund_row-IsSane reference reason (ok u, t) lost =
        set_row-IsSane reference (failed_for reason) (failed_for-IsSane reference reason lost)
          bank.withdrawals sane

    refund_found-IsSane :
        (reference reason : String) (o : Option Withdrawal)
        → landed reference ≡ false
        → All IsSane (refund_found reference reason bank o).1.withdrawals
    refund_found-IsSane reference reason none lost = sane
    refund_found-IsSane reference reason (some w) lost = elim (Bool-cases (is_open w.status)) [
      | inl passes ↦ rw passes (refund_row-IsSane reference reason _ lost)
      | inr shut ↦ rw shut sane
    ]

    pub fail_and_refund-IsSane :
        (reference reason : String)
        → landed reference ≡ false
        → All IsSane (fail_and_refund reference reason bank).1.withdrawals
    unfolding fail_and_refund
    fail_and_refund-IsSane reference reason lost =
        refund_found-IsSane reference reason (get reference bank) lost

    insert_row-IsSane :
        (reference : String) (input : WithdrawalInput) (b : ℤ) (t : Table) (o : Option Withdrawal)
        → All IsSane (insert_row reference input bank b t o).1.withdrawals
    insert_row-IsSane reference input b t (some w) = sane
    insert_row-IsSane reference input b t none =
        All-append IsSane bank.withdrawals (new_withdrawal reference input ∷ []) sane
          (record { own = tt; kept = λ _. refl }, tt)

    insert_withdrawal-IsSane :
        (reference : String) (input : WithdrawalInput) (r : Result LedgerError ℤ × Table)
        → All IsSane (insert_withdrawal reference input bank r).1.withdrawals
    insert_withdrawal-IsSane reference input (err e, t) = sane
    insert_withdrawal-IsSane reference input (ok b, t) =
        insert_row-IsSane reference input b t (get reference bank)

    pub request-IsSane :
        (reference : String) (input : WithdrawalInput)
        → All IsSane (request reference input bank).1.withdrawals
    unfolding request
    request-IsSane reference input = insert_withdrawal-IsSane reference input (
        debit_in_tx input.player_id input.amount_minor reference input.currency Kind.withdrawal
          bank.ledger)

    pub get-IsSane : (reference : String) (w : Withdrawal) → get reference bank ≡ some w → IsSane w
    unfolding get
    get-IsSane reference w found =
        All-find IsSane (has_reference reference) bank.withdrawals w sane found
