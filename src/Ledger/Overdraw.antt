-- ===== src/Ledger/Overdraw.antt =====
-- No balance of the ledger is ever negative, whatever the calls: the check of a debit and the
-- amounts of the credits see to it. A deposit that is sent twice counts once.
use crash_game.Prelude.{
  String, ◌≡◌, refl, sym, not, Bool, true, false, Option, some, List, [], ◌∷◌, ◌++◌, any, eq_iff,
  arith,
}
use mathlib.Core.Path.{subst}
use crash_game.Prelude.Int.{ℤ, pos, ◌+ℤ◌, ◌-ℤ◌, ◌≤ℤ◌, ltb_ℤ, int_laws, -ℤ_parts, +ℤ_parts}
use crash_game.Ledger.{
  Kind, Entry, Table, is_deposit_of, balance, debit_entry, debit_in_tx, place_bet, credit_deposit,
  credit_in_tx, credit_win,
}
use crash_game.Ledger.Balance.{balance-append}

-- A call of the ledger, with what it is called with; `adjust` is the administrator's and is not
-- among them.
pub data LedgerCall : Type 0 where
  deposit_call :
      (player_id : String) (amount_minor : ℤ) (currency : String) (ref : Option String) → LedgerCall
  bet_call : (player_id : String) (amount_minor : ℤ) (ref currency : String) → LedgerCall
  withdraw_call : (player_id : String) (amount_minor : ℤ) (ref currency : String) → LedgerCall
  win_call : (player_id : String) (amount_minor : ℤ) (ref currency : String) → LedgerCall
  credit_call :
      (player_id : String) (amount_minor : ℤ) (kind : Kind) (ref currency : String) → LedgerCall

-- The table after a call, which may have thrown.
unfoldable pub after_call : LedgerCall → Table → Table
unfolding place_bet
after_call (deposit_call p a c r) t = let (_, t') = credit_deposit p a c r t in t'
after_call (bet_call p a r c) t = let (_, t') = place_bet p a r c t in t'
after_call (withdraw_call p a r c) t = let (_, t') = debit_in_tx p a r c Kind.withdrawal t in t'
after_call (win_call p a r c) t = let (_, t') = credit_win p a r c t in t'
after_call (credit_call p a k r c) t = let (_, t') = credit_in_tx p a k r c t in t'

unfoldable pub after_calls : List LedgerCall → Table → Table
after_calls [] t = t
after_calls (call ∷ calls) t = after_calls calls (after_call call t)

unfoldable pub IsCovered : Table → Type 0
IsCovered t = (p c : String) → pos 0 ≤ℤ balance p c t

-- A call leaves the table as it was or appends one row, whose amount is not negative, or is that of
-- a debit which the balance covers.
pub data Appended (t : Table) : Table → Type 0 where
  unchanged : Appended t t
  credited : (e : Entry) → pos 0 ≤ℤ e.amount_minor → Appended t (t ++ e ∷ [])
  debited :
      (e : Entry)
      → pos 0 ≤ℤ (balance e.player_id e.currency t +ℤ e.amount_minor)
      → Appended t (t ++ e ∷ [])

-- What a call appends, when both of its tests allow it.
abbrev pub guarded : Bool → Bool → Table → Entry → Table
guarded true true t e = t ++ e ∷ []
guarded _ _ t e = t

guarded-credited :
    (positive fresh : Bool) (t : Table) (e : Entry)
    → (positive ≡ true → pos 0 ≤ℤ e.amount_minor)
    → Appended t (guarded positive fresh t e)
guarded-credited true true t e h = credited e (h refl)
guarded-credited true false t e h = unchanged
guarded-credited false true t e h = unchanged
guarded-credited false false t e h = unchanged

guarded-debited :
    (positive covered : Bool) (t : Table) (e : Entry)
    → (covered ≡ true → pos 0 ≤ℤ (balance e.player_id e.currency t +ℤ e.amount_minor))
    → Appended t (guarded positive covered t e)
guarded-debited true true t e h = debited e (h refl)
guarded-debited true false t e h = unchanged
guarded-debited false true t e h = unchanged
guarded-debited false false t e h = unchanged

positive_test : (a : ℤ) → ltb_ℤ (pos 0) a ≡ true → pos 0 ≤ℤ a
positive_test a h = ground arith

covered_test : (b a : ℤ) → not (ltb_ℤ b a) ≡ true → pos 0 ≤ℤ (b +ℤ (pos 0 -ℤ a))
covered_test b a h = ground (arith, -ℤ_parts (pos 0) a, +ℤ_parts b (pos 0 -ℤ a))

module _ (p : String) (a : ℤ) (c : String) (t : Table) where
  pub deposit_table :
      (r : Option String)
      → after_call (deposit_call p a c r) t
        ≡ guarded
            (ltb_ℤ (pos 0) a)
            (not (any (is_deposit_of r) t))
            t
            (record { player_id = p; currency = c; amount_minor = a; kind = Kind.deposit; ref = r })
  unfolding after_call credit_deposit
  deposit_table r = ground arith

  debit_table :
      (ref : String) (k : Kind)
      → (let (_, t') = debit_in_tx p a ref c k t in t')
        ≡ guarded (ltb_ℤ (pos 0) a) (not (ltb_ℤ (balance p c t) a)) t (debit_entry p a ref c k)
  unfolding debit_in_tx
  debit_table ref k = ground arith

  credit_table :
      (k : Kind) (ref : String)
      → (let (_, t') = credit_in_tx p a k ref c t in t')
        ≡ guarded
            (ltb_ℤ (pos 0) a)
            true
            t
            (record { player_id = p; currency = c; amount_minor = a; kind = k; ref = some ref })
  unfolding credit_in_tx
  credit_table k ref = ground arith

  win_table :
      (ref : String)
      → (let (_, t') = credit_win p a ref c t in t')
        ≡ guarded (ltb_ℤ (pos 0) a) true t (record {
          player_id = p;
          currency = c;
          amount_minor = a;
          kind = Kind.win;
          ref = some ref;
        })
  unfolding credit_win
  win_table ref = ground (arith, credit_table Kind.win ref)

  debit-Appended :
      (ref : String) (k : Kind) → Appended t (let (_, t') = debit_in_tx p a ref c k t in t')
  debit-Appended ref k =
      subst (λ t'. Appended t t') (sym (debit_table ref k))
        (guarded-debited _ _ t (debit_entry p a ref c k) (covered_test (balance p c t) a))

pub call-Appended : (call : LedgerCall) (t : Table) → Appended t (after_call call t)
unfolding after_call place_bet
call-Appended (deposit_call p a c r) t =
    subst (λ t'. Appended t t') (sym (deposit_table p a c t r))
      (guarded-credited _ _ t _ (positive_test a))
call-Appended (bet_call p a r c) t = debit-Appended p a c t r Kind.bet
call-Appended (withdraw_call p a r c) t = debit-Appended p a c t r Kind.withdrawal
call-Appended (win_call p a r c) t =
    subst (λ t'. Appended t t') (sym (win_table p a c t r))
      (guarded-credited _ _ t _ (positive_test a))
call-Appended (credit_call p a k r c) t =
    subst (λ t'. Appended t t') (sym (credit_table p a c t k r))
      (guarded-credited _ _ t _ (positive_test a))

sum_covered : (a b : ℤ) → pos 0 ≤ℤ a → pos 0 ≤ℤ b → pos 0 ≤ℤ (a +ℤ b)
sum_covered a b ha hb = omega int_laws

Appended-IsCovered : (t t' : Table) → Appended t t' → IsCovered t → IsCovered t'
unfolding IsCovered
Appended-IsCovered t _ unchanged ht = ht
Appended-IsCovered t _ (credited e h) ht = λ p c.
    ground
      (arith, balance-append p c t e, ht p c, sum_covered (balance p c t) e.amount_minor (ht p c) h)
Appended-IsCovered t _ (debited e h) ht =
    λ p c. ground (arith, balance-append p c t e, ht p c, eq_iff e.player_id p, eq_iff e.currency c)

-- Whatever deposits, bets, withdrawals and credits are called, in whatever order and with whatever
-- amounts, and whichever of them throw: no player's balance is ever negative in any currency,
-- when none was to begin with.
pub after_calls-IsCovered :
    (calls : List LedgerCall) (t : Table) → IsCovered t → IsCovered (after_calls calls t)
unfolding after_calls
after_calls-IsCovered [] t h = h
after_calls-IsCovered (call ∷ calls) t h =
    after_calls-IsCovered calls (after_call call t)
      (Appended-IsCovered t (after_call call t) (call-Appended call t) h)
