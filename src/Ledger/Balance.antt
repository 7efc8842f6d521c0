-- ===== src/Ledger/Balance.antt =====
-- What each method of the ledger does to the balances.
use crash_game.Prelude.{
  String, ◌≡◌, refl, ◌∙◌, inl, inr, true, false, ◌&&◌, [], ◌∷◌, ◌++◌, str_eq, eq_iff, arith,
  Bool-cases, if◌then◌else◌,
}
use crash_game.Prelude.Int.{ℤ, pos, ◌+ℤ◌, ◌-ℤ◌, ◌≤ℤ◌, ltb_ℤ, int_laws}
use crash_game.Prelude.Action.{ok, err}
use crash_game.Ledger.{
  Kind, Entry, Table, insufficient_funds, is_of, balance, debit_entry, debit_in_tx,
}

-- A new row counts for its own player and currency.
pub balance-append :
    (p c : String) (t : Table) (e : Entry)
    → balance p c (t ++ e ∷ [])
      ≡ (if is_of p c e then balance p c t +ℤ e.amount_minor else balance p c t)
unfolding balance
balance-append p c [] e = elim (Bool-cases (is_of p c e)) [
  | inl h ↦ rw h (omega int_laws)
  | inr h ↦ rw h
]
balance-append p c (x ∷ t) e = grind (int_laws, balance-append p c t e)

add_negated : (a b : ℤ) → a +ℤ (pos 0 -ℤ b) ≡ a -ℤ b
add_negated a b = omega int_laws

pub positive_test : (a : ℤ) → pos 1 ≤ℤ a → ltb_ℤ (pos 0) a ≡ true
positive_test a h = ground arith

module _ (p : String) (amount : ℤ) (ref c : String) (kind : Kind) (t : Table) where
  debit_refused :
      ltb_ℤ (pos 0) amount ≡ true
      → ltb_ℤ (balance p c t) amount ≡ true
      → debit_in_tx p amount ref c kind t ≡ (err (insufficient_funds p (balance p c t) amount), t)
  unfolding debit_in_tx
  debit_refused h short = ground arith

  debit_done :
      ltb_ℤ (pos 0) amount ≡ true
      → ltb_ℤ (balance p c t) amount ≡ false
      → debit_in_tx p amount ref c kind t
        ≡ (ok (balance p c t -ℤ amount), t ++ debit_entry p amount ref c kind ∷ [])
  unfolding debit_in_tx
  debit_done h covered = ground arith

  balance-debited :
      balance p c (t ++ debit_entry p amount ref c kind ∷ []) ≡ balance p c t -ℤ amount
  balance-debited =
      balance-append p c t (debit_entry p amount ref c kind)
      ∙ ground (arith, eq_iff p p, eq_iff c c, add_negated (balance p c t) amount)

  -- A debit of a positive amount: if it is covered, the player's balance in that currency falls by
  -- exactly the amount and the new balance is returned; if it is not, the call throws with the
  -- balance and the amount asked for, and the table is as it was. No other balance changes.
  debit_in_tx_lem :
      pos 1 ≤ℤ amount
      → let (result, t') = debit_in_tx p amount ref c kind t in
        (result ≡ (
          if ltb_ℤ (balance p c t) amount
          then err (insufficient_funds p (balance p c t) amount)
          else ok (balance p c t -ℤ amount)))
        × (balance p c t'
            ≡ (if ltb_ℤ (balance p c t) amount then balance p c t else balance p c t -ℤ amount))
        × ((p' c' : String)
            → (str_eq p p' && str_eq c c') ≡ false
            → balance p' c' t' ≡ balance p' c' t)
  debit_in_tx_lem positive = elim (Bool-cases (ltb_ℤ (balance p c t) amount)) [
    | inl short ↦
        rw (debit_refused (positive_test amount positive) short)
          (rw short (refl, refl, λ p' c' other. refl))
    | inr covered ↦ rw (debit_done (positive_test amount positive) covered) (
        rw covered (
          refl,
          balance-debited,
          λ p' c' other. balance-append p' c' t (debit_entry p amount ref c kind) ∙ rw other,
        ))
  ]
