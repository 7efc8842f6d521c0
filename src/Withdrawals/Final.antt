-- ===== src/Withdrawals/Final.antt =====
-- A withdrawal that is paid or has failed stays so.
use crash_game.Prelude.{
  String, concat, ◌≡◌, refl, sym, ap, ◌∙◌, Bool, false, Option, none, some, List, [], ◌∷◌, ◌++◌,
  find, str_eq, eq_iff, arith, Bool-cases, inl, inr,
}
use mathlib.Core.Path.{subst}
use crash_game.Prelude.Int.{ℤ}
use crash_game.Prelude.Action.{Result, ok, err}
use crash_game.Ledger.{Kind, Table, LedgerError, credit_in_tx}
use crash_game.Withdrawals.{
  WithdrawalStatus, processing, success, Withdrawal, Bank, WithdrawalInput, has_reference, get,
  set_row, new_withdrawal, insert_row, insert_withdrawal, request, is_open, is_pending, moved_to,
  update_found, update_guarded, mark_processing, mark_succeeded, failed_for, refund_row,
  refund_found, fail_and_refund, WithdrawalCall, request_call, processing_call, succeeded_call,
  refund_call, after_call, after_calls,
}

find-append :
    (reference : String) (ws : List Withdrawal) (n w : Withdrawal)
    → find (has_reference reference) ws ≡ some w
    → find (has_reference reference) (ws ++ n ∷ []) ≡ some w
find-append reference [] n w h = ground arith
find-append reference (x ∷ ws) n w h = ground (arith, find-append reference ws n w)

find-set_row :
    (reference other : String) (f : Withdrawal → Withdrawal) (ws : List Withdrawal)
    → ((w : Withdrawal) → (f w).reference ≡ w.reference)
    → str_eq other reference ≡ false
    → find (has_reference reference) (set_row other f ws) ≡ find (has_reference reference) ws
unfolding set_row
find-set_row reference other f [] keeps h = refl
find-set_row reference other f (x ∷ ws) keeps h = ground (
  arith,
  h,
  keeps x,
  find-set_row reference other f ws keeps h,
  eq_iff x.reference other,
  eq_iff x.reference reference,
  eq_iff (f x).reference reference,
  eq_iff other reference,
)

-- The row with the reference is final, and is this one.
abbrev pub IsFinal : String → Withdrawal → Bank → Type 0
IsFinal reference w bank = (get reference bank ≡ some w) × (is_open w.status ≡ false)

closed : (s : WithdrawalStatus) → is_open s ≡ false → is_pending s ≡ false
closed s h = ground (arith, h)

update_shut :
    (guard : WithdrawalStatus → Bool) (f : Withdrawal → Withdrawal) (reference : String)
    (bank : Bank)
    → (o : Option Withdrawal) (w : Withdrawal) → o ≡ some w
    → guard w.status ≡ false
    → update_found guard f reference bank o ≡ (false, bank)
update_shut guard f reference bank none w h shut = ground (arith, h)
update_shut guard f reference bank (some x) w h shut = ground (arith, h, shut)

update_other :
    (guard : WithdrawalStatus → Bool) (f : Withdrawal → Withdrawal) (reference other : String)
    (bank : Bank)
    → ((x : Withdrawal) → (f x).reference ≡ x.reference)
    → str_eq other reference ≡ false
    → (o : Option Withdrawal)
    → get reference (update_found guard f other bank o).1 ≡ get reference bank
unfolding get
update_other guard f reference other bank keeps apart none = refl
update_other guard f reference other bank keeps apart (some x) =
    elim (Bool-cases (guard x.status)) [
      | inl passes ↦ rw passes (find-set_row reference other f bank.withdrawals keeps apart)
      | inr shut ↦ rw shut refl
    ]

refund_other :
    (reference other reason : String) (bank : Bank) (r : Result LedgerError (Unit {0}) × Table)
    → str_eq other reference ≡ false
    → get reference (refund_row other reason bank r).1 ≡ get reference bank
unfolding get
refund_other reference other reason bank (err e, t) apart = refl
refund_other reference other reason bank (ok u, t) apart =
    find-set_row reference other (failed_for reason) bank.withdrawals (λ x. refl) apart

refund_found_other :
    (reference other reason : String) (bank : Bank) (o : Option Withdrawal)
    → str_eq other reference ≡ false
    → get reference (refund_found other reason bank o).1 ≡ get reference bank
refund_found_other reference other reason bank none apart = refl
refund_found_other reference other reason bank (some x) apart =
    elim (Bool-cases (is_open x.status)) [
      | inl passes ↦ rw passes (
          refund_other reference other reason bank
            (credit_in_tx x.player_id x.amount_minor Kind.adjust (concat "wd-refund:" other)
              x.currency bank.ledger)
            apart)
      | inr shut ↦ rw shut refl
    ]

refund_shut :
    (reference reason : String) (bank : Bank) (o : Option Withdrawal) (w : Withdrawal)
    → o ≡ some w
    → is_open w.status ≡ false
    → refund_found reference reason bank o ≡ (ok false, bank)
refund_shut reference reason bank none w h shut = ground (arith, h)
refund_shut reference reason bank (some x) w h shut =
    rw (ap is_open (ap (λ y. y.status) (some_same x w h)) ∙ shut) refl
  where
    some_same : (x w : Withdrawal) → some x ≡ some w → x ≡ w
    some_same x w h = ground (arith, h)

inserted_other :
    (reference other : String) (input : WithdrawalInput) (bank : Bank) (b : ℤ) (t : Table)
    (o : Option Withdrawal) (w : Withdrawal)
    → get reference bank ≡ some w
    → get reference (insert_row other input bank b t o).1 ≡ some w
unfolding get
inserted_other reference other input bank b t (some x) w h = h
inserted_other reference other input bank b t none w h =
    find-append reference bank.withdrawals (new_withdrawal other input) w h

requested_other :
    (reference other : String) (input : WithdrawalInput) (bank : Bank)
    (r : Result LedgerError ℤ × Table) (w : Withdrawal)
    → get reference bank ≡ some w
    → get reference (insert_withdrawal other input bank r).1 ≡ some w
requested_other reference other input bank (err e, t) w h = h
requested_other reference other input bank (ok b, t) w h =
    inserted_other reference other input bank b t (get other bank) w h

module _ (reference : String) (w : Withdrawal) (bank : Bank)
    (final : IsFinal reference w bank) where
  updated_final :
      (guard : WithdrawalStatus → Bool) (f : Withdrawal → Withdrawal) (other : String)
      → ((x : Withdrawal) → (f x).reference ≡ x.reference)
      → guard w.status ≡ false
      → get reference (update_guarded guard f other bank).1 ≡ some w
  updated_final guard f other keeps shut = elim (Bool-cases (str_eq other reference)) [
    | inl same ↦
        subst (λ r. get reference (update_guarded guard f r bank).1 ≡ some w)
          (sym ((eq_iff other reference).0 same))
          (ap (λ r. get reference r.1) (update_shut guard f reference bank _ w final.0 shut)
            ∙ final.0)
    | inr apart ↦ update_other guard f reference other bank keeps apart (get other bank) ∙ final.0
  ]

  refunded_final :
      (other reason : String) → get reference (fail_and_refund other reason bank).1 ≡ some w
  unfolding fail_and_refund
  refunded_final other reason = elim (Bool-cases (str_eq other reference)) [
    | inl same ↦
        subst (λ r. get reference (fail_and_refund r reason bank).1 ≡ some w)
          (sym ((eq_iff other reference).0 same))
          (ap (λ r. get reference r.1) (refund_shut reference reason bank _ w final.0 final.1)
            ∙ final.0)
    | inr apart ↦ refund_found_other reference other reason bank (get other bank) apart ∙ final.0
  ]

after_call-IsFinal :
    (reference : String) (w : Withdrawal) (call : WithdrawalCall) (bank : Bank)
    → IsFinal reference w bank
    → IsFinal reference w (after_call call bank)
unfolding after_call request mark_processing mark_succeeded
after_call-IsFinal reference w (request_call other input) bank h =
    (requested_other reference other input bank _ w h.0, h.1)
after_call-IsFinal reference w (processing_call other txn) bank h = (
  updated_final reference w bank h is_pending (moved_to processing txn) other (λ x. refl)
      (closed w.status h.1),
  h.1,
)
after_call-IsFinal reference w (succeeded_call other txn) bank h =
    (updated_final reference w bank h is_open (moved_to success txn) other (λ x. refl) h.1, h.1)
after_call-IsFinal reference w (refund_call other reason) bank h =
    (refunded_final reference w bank h other reason, h.1)

after_calls-IsFinal :
    (reference : String) (w : Withdrawal) (calls : List WithdrawalCall) (bank : Bank)
    → IsFinal reference w bank
    → IsFinal reference w (after_calls calls bank)
unfolding after_calls
after_calls-IsFinal reference w [] bank h = h
after_calls-IsFinal reference w (call ∷ calls) bank h =
    after_calls-IsFinal reference w calls (after_call call bank)
      (after_call-IsFinal reference w call bank h)

-- Once a withdrawal is paid or has failed, its row never changes again, whatever is called: and a
-- further `failAndRefund` of it returns false and writes nothing, so that neither a paid withdrawal
-- is refunded nor a failed one refunded twice.
pub fail_and_refund-once :
    (reference : String) (w : Withdrawal) (bank : Bank)
    → IsFinal reference w bank
    → (calls : List WithdrawalCall) (reason : String)
    → let later = after_calls calls bank in
      (get reference later ≡ some w) × (fail_and_refund reference reason later ≡ (ok false, later))
unfolding fail_and_refund
fail_and_refund-once reference w bank final calls reason =
    let kept = after_calls-IsFinal reference w calls bank final in
    (kept.0, refund_shut reference reason (after_calls calls bank) _ w kept.0 kept.1)
