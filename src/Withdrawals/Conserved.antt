-- ===== src/Withdrawals/Conserved.antt =====
-- Money that is withdrawn is neither lost nor made.
use crash_game.Prelude.{
  String, concat, ◌≡◌, ◌⊎◌, refl, sym, ap, ◌∙◌, Bool, true, false, not, ◌&&◌, Option, some, List,
  [], ◌∷◌, ◌++◌, find, str_eq, if◌then◌else◌, arith, Bool-cases, Option-cases, inl, inr,
}
use crash_game.Prelude.Int.{ℤ, pos, ◌+ℤ◌, ◌-ℤ◌, ltb_ℤ, int_laws}
use crash_game.Prelude.Action.{ok, err}
use crash_game.Ledger.{
  Kind, Entry, Table, LedgerError, insufficient_funds, bad_amount, is_of, balance, debit_in_tx,
  debit_entry, credit_in_tx,
}
use crash_game.Ledger.Balance.{balance-append}
use crash_game.Withdrawals.{
  WithdrawalStatus, failed, processing, success, is_pending, Withdrawal, Bank, WithdrawalInput,
  has_reference, get, set_row, new_withdrawal, insert_withdrawal, request, is_open, moved_to,
  update_guarded, mark_processing, mark_succeeded, failed_for, refund_row, fail_and_refund,
  WithdrawalCall, request_call, processing_call, succeeded_call, refund_call, after_call,
  after_calls,
}

abbrev pub is_failed : WithdrawalStatus → Bool
is_failed failed = true
is_failed _ = false

-- What a row holds of a player's money in a currency: nothing once it has failed.
abbrev pub held_by : String → String → Withdrawal → ℤ
held_by p c w =
    if str_eq w.player_id p && str_eq w.currency c && not (is_failed w.status)
    then w.amount_minor
    else pos 0

unfoldable pub held : String → String → List Withdrawal → ℤ
held p c [] = pos 0
held p c (w ∷ ws) = held_by p c w +ℤ held p c ws

-- The balance and the withdrawals that have not failed.
abbrev pub funds : String → String → Bank → ℤ
funds p c bank = balance p c bank.ledger +ℤ held p c bank.withdrawals

assoc : (a b c : ℤ) → (a +ℤ b) +ℤ c ≡ a +ℤ (b +ℤ c)
assoc a b c = omega int_laws

swap : (a b c : ℤ) → (a +ℤ b) +ℤ c ≡ (c +ℤ b) +ℤ a
swap a b c = omega int_laws

zero_left : (a : ℤ) → pos 0 +ℤ a ≡ a +ℤ pos 0
zero_left a = omega int_laws

held-append :
    (p c : String) (ws : List Withdrawal) (w : Withdrawal)
    → held p c (ws ++ w ∷ []) ≡ held p c ws +ℤ held_by p c w
unfolding held
held-append p c [] w = sym (zero_left (held_by p c w))
held-append p c (x ∷ ws) w =
    ap (λ n. held_by p c x +ℤ n) (held-append p c ws w)
    ∙ sym (assoc (held_by p c x) (held p c ws) (held_by p c w))

found_first :
    (reference : String) (x : Withdrawal) (ws : List Withdrawal) (w : Withdrawal)
    → has_reference reference x ≡ true
    → find (has_reference reference) (x ∷ ws) ≡ some w
    → x ≡ w
found_first reference x ws w here h = ground (arith, here, h)

found_later :
    (reference : String) (x : Withdrawal) (ws : List Withdrawal) (w : Withdrawal)
    → has_reference reference x ≡ false
    → find (has_reference reference) (x ∷ ws) ≡ some w
    → find (has_reference reference) ws ≡ some w
found_later reference x ws w there h = ground (arith, there, h)

held-set_row :
    (p c reference : String) (f : Withdrawal → Withdrawal) (ws : List Withdrawal) (w : Withdrawal)
    → find (has_reference reference) ws ≡ some w
    → held p c (set_row reference f ws) +ℤ held_by p c w ≡ held p c ws +ℤ held_by p c (f w)
unfolding held set_row
held-set_row p c reference f [] w h = ground arith
held-set_row p c reference f (x ∷ ws) w h = elim (Bool-cases (has_reference reference x)) [
  | inl here ↦
      let same : x ≡ w = found_first reference x ws w here h in
      rw here (
        ap (λ y. (held_by p c (f x) +ℤ held p c ws) +ℤ held_by p c y) (sym same)
        ∙ swap (held_by p c (f x)) (held p c ws) (held_by p c x)
        ∙ ap (λ y. (held_by p c x +ℤ held p c ws) +ℤ held_by p c (f y)) same)
  | inr there ↦ rw there (
      assoc (held_by p c x) (held p c (set_row reference f ws)) (held_by p c w)
      ∙ ap (λ n. held_by p c x +ℤ n)
          (held-set_row p c reference f ws w (found_later reference x ws w there h))
      ∙ sym (assoc (held_by p c x) (held p c ws) (held_by p c (f w))))
]

-- How a debit and a credit end: as a throw, or with one more row.
debit_end :
    (p : String) (a : ℤ) (ref c : String) (k : Kind) (t : Table)
    → ((e : LedgerError) × (debit_in_tx p a ref c k t ≡ (err e, t)))
      ⊎ ((b : ℤ) × (debit_in_tx p a ref c k t ≡ (ok b, t ++ debit_entry p a ref c k ∷ [])))
unfolding debit_in_tx
debit_end p a ref c k t = elim (Bool-cases (ltb_ℤ (pos 0) a)) [
  | inl h ↦ elim (Bool-cases (ltb_ℤ (balance p c t) a)) [
    | inl short ↦ inl (insufficient_funds p (balance p c t) a, ground (arith, h, short))
    | inr covered ↦ inr (balance p c t -ℤ a, ground (arith, h, covered))
  ]
  | inr h ↦ inl (bad_amount, ground (arith, h))
]

abbrev credit_entry : String → ℤ → Kind → String → String → Entry
credit_entry p a k ref c = record {
  player_id = p;
  currency = c;
  amount_minor = a;
  kind = k;
  ref = some ref;
}

credit_end :
    (p : String) (a : ℤ) (k : Kind) (ref c : String) (t : Table)
    → (credit_in_tx p a k ref c t ≡ (err bad_amount, t))
      ⊎ (credit_in_tx p a k ref c t ≡ (ok tt, t ++ credit_entry p a k ref c ∷ []))
unfolding credit_in_tx
credit_end p a k ref c t = elim (Bool-cases (ltb_ℤ (pos 0) a)) [
  | inl h ↦ inr (ground (arith, h))
  | inr h ↦ inl (ground (arith, h))
]

debited_part :
    (b : Bool) (B H a : ℤ)
    → (if b then B +ℤ (pos 0 -ℤ a) else B) +ℤ (H +ℤ (if b && true then a else pos 0)) ≡ B +ℤ H
debited_part true B H a = omega int_laws
debited_part false B H a = omega int_laws

refunded_part :
    (b : Bool) (B H H' a : ℤ)
    → H' +ℤ (if b && true then a else pos 0) ≡ H +ℤ (if b && false then a else pos 0)
    → (if b then B +ℤ a else B) +ℤ H' ≡ B +ℤ H
refunded_part true B H H' a h = grind (int_laws, h)
refunded_part false B H H' a h = grind (int_laws, h)

and_assoc : (a b c : Bool) → (a && b && c) ≡ ((a && b) && c)
and_assoc true b c = refl
and_assoc false b c = refl

cancel_held : (a b d : ℤ) → a +ℤ d ≡ b +ℤ d → a ≡ b
cancel_held a b d h = grind (int_laws, h)

open_rows : (w : Withdrawal) → is_open w.status ≡ true → true ≡ not (is_failed w.status)
open_rows w h = ground (arith, h)

pending_open : (w : Withdrawal) → is_pending w.status ≡ true → true ≡ not (is_failed w.status)
pending_open w h = ground (arith, h)

pending_kept :
    (p c : String) (status : WithdrawalStatus) (txn : Option String) (w : Withdrawal)
    → is_failed status ≡ false
    → true ≡ not (is_failed w.status)
    → held_by p c (moved_to status txn w) ≡ held_by p c w
pending_kept p c status txn w new old = ground (arith, new, old)

-- The balance and what is held move together.
module _ (p c : String) where
  held_new :
      (w : Withdrawal) (b : Bool)
      → b ≡ not (is_failed w.status)
      → held_by p c w
        ≡ (if (str_eq w.player_id p && str_eq w.currency c) && b then w.amount_minor else pos 0)
  held_new w b h = ground (arith, h)

  inserted_funds :
      (reference : String) (input : WithdrawalInput) (bank : Bank) (b : ℤ)
      → funds p c
          (insert_withdrawal reference input bank (
            ok b,
            bank.ledger
                ++ debit_entry input.player_id input.amount_minor reference input.currency
                    Kind.withdrawal
                  ∷ [],
          )).1
        ≡ funds p c bank
  inserted_funds reference input bank b = elim (Option-cases (get reference bank)) [
    | inr (w, there) ↦ rw there refl
    | inl absent ↦
        let w = new_withdrawal reference input in
        let e =
          debit_entry input.player_id input.amount_minor reference input.currency Kind.withdrawal in
        rw absent (
          ap (λ n. n +ℤ held p c (bank.withdrawals ++ w ∷ [])) (balance-append p c bank.ledger e)
          ∙ ap
              (λ n.
                (if is_of p c e
                  then balance p c bank.ledger +ℤ e.amount_minor
                  else balance p c bank.ledger)
                +ℤ n)
              (held-append p c bank.withdrawals w
                ∙ ap (λ n. held p c bank.withdrawals +ℤ n) (held_new w true refl))
          ∙ debited_part (is_of p c e) (balance p c bank.ledger) (held p c bank.withdrawals)
              input.amount_minor)
  ]

  funds-request :
      (reference : String) (input : WithdrawalInput) (bank : Bank)
      → funds p c (request reference input bank).1 ≡ funds p c bank
  unfolding request
  funds-request reference input bank =
      elim (debit_end input.player_id input.amount_minor reference input.currency Kind.withdrawal
        bank.ledger) [
          | inl (e, refused) ↦
              ap (λ r. funds p c (insert_withdrawal reference input bank r).1) refused
          | inr (b, done) ↦
              ap (λ r. funds p c (insert_withdrawal reference input bank r).1) done
              ∙ inserted_funds reference input bank b
        ]

  guarded_funds :
      (guard : WithdrawalStatus → Bool) (f : Withdrawal → Withdrawal) (reference : String)
      (bank : Bank)
      → ((w : Withdrawal) → guard w.status ≡ true → held_by p c (f w) ≡ held_by p c w)
      → funds p c (update_guarded guard f reference bank).1 ≡ funds p c bank
  guarded_funds guard f reference bank keeps = elim (Option-cases (get reference bank)) [
    | inl absent ↦ rw absent refl
    | inr (w, there) ↦ elim (Bool-cases (guard w.status)) [
      | inr shut ↦ rw (there, shut) refl
      | inl passes ↦
          rw (there, passes)
            (ap (λ n. balance p c bank.ledger +ℤ n)
              (cancel_held _ _ (held_by p c w) (
                held-set_row p c reference f bank.withdrawals w (unfold get in there)
                ∙ ap (λ n. held p c bank.withdrawals +ℤ n) (keeps w passes))))
    ]
  ]

  refunded_funds :
      (reference reason : String) (bank : Bank) (w : Withdrawal)
      → find (has_reference reference) bank.withdrawals ≡ some w
      → is_open w.status ≡ true
      → funds p c
          (refund_row reference reason bank (
            credit_in_tx w.player_id w.amount_minor Kind.adjust
              (concat "wd-refund:" reference)
              w.currency
              bank.ledger)).1
        ≡ funds p c bank
  refunded_funds reference reason bank w there is_there =
      let e =
        credit_entry w.player_id w.amount_minor Kind.adjust (concat "wd-refund:" reference)
          w.currency in
      let ws = set_row reference (failed_for reason) bank.withdrawals in
      elim (credit_end w.player_id w.amount_minor Kind.adjust (concat "wd-refund:" reference)
        w.currency bank.ledger) [
          | inl refused ↦ ap (λ r. funds p c (refund_row reference reason bank r).1) refused
          | inr done ↦
              ap (λ r. funds p c (refund_row reference reason bank r).1) done
              ∙ ap (λ n. n +ℤ held p c ws) (balance-append p c bank.ledger e)
              ∙ refunded_part (is_of p c e) (balance p c bank.ledger) (held p c bank.withdrawals)
                  (held p c ws) w.amount_minor
                  (ap (λ n. held p c ws +ℤ n) (sym (held_new w true (open_rows w is_there)))
                    ∙ held-set_row p c reference (failed_for reason) bank.withdrawals w there
                    ∙ ap (λ n. held p c bank.withdrawals +ℤ n)
                        (held_new (failed_for reason w) false refl))
        ]

  refund_funds :
      (reference reason : String) (bank : Bank)
      → funds p c (fail_and_refund reference reason bank).1 ≡ funds p c bank
  unfolding fail_and_refund get
  refund_funds reference reason bank =
      elim (Option-cases (find (has_reference reference) bank.withdrawals)) [
        | inl absent ↦ rw absent refl
        | inr (w, there) ↦ elim (Bool-cases (is_open w.status)) [
          | inl passes ↦ rw (there, passes) (refunded_funds reference reason bank w there passes)
          | inr shut ↦ rw (there, shut) refl
        ]
      ]

  -- Whatever withdrawals are requested, sent, paid and refunded, in whatever order and however often
  -- an event is repeated: the balance of a player in a currency, together with the amounts of the
  -- withdrawals that have not failed, stays the same. So a request takes exactly what it records,
  -- and each failed withdrawal is refunded exactly once.
  pub after_calls-funds :
      (calls : List WithdrawalCall) (bank : Bank)
      → funds p c (after_calls calls bank) ≡ funds p c bank
  unfolding after_calls after_call mark_processing mark_succeeded
  after_calls-funds [] bank = refl
  after_calls-funds (call ∷ calls) bank =
      after_calls-funds calls (after_call call bank) ∙ one_call call
    where
      one_call : (k : WithdrawalCall) → funds p c (after_call k bank) ≡ funds p c bank
      one_call (request_call reference input) = funds-request reference input bank
      one_call (processing_call reference txn) =
          guarded_funds is_pending (moved_to processing txn) reference bank
            (λ w h. pending_kept p c processing txn w refl (pending_open w h))
      one_call (succeeded_call reference txn) =
          guarded_funds is_open (moved_to success txn) reference bank
            (λ w h. pending_kept p c success txn w refl (open_rows w h))
      one_call (refund_call reference reason) = refund_funds reference reason bank
