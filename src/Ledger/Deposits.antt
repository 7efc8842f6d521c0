-- ===== src/Ledger/Deposits.antt =====
-- A deposit that is sent again is not counted again, which is what the partial unique index on the
-- reference is for: the provider's webhook may be delivered more than once.
use mathlib.Core.Path.{subst}
use crash_game.Prelude.{
  String, ◌≡◌, refl, sym, ◌∙◌, Bool, true, false, some, List, [], ◌∷◌, ◌++◌, any, str_eq_refl,
  Bool-cases, inl, inr, arith,
}
use crash_game.Prelude.Int.{ℤ, pos, ltb_ℤ}
use crash_game.Ledger.{Entry, Table, is_deposit_of}
use crash_game.Ledger.Overdraw.{
  LedgerCall, deposit_call, after_call, after_calls, Appended, unchanged, credited, debited,
  call-Appended, deposit_table, guarded,
}

any-append :
    (p : Entry → Bool) (t : Table) (e : Entry) → any p t ≡ true → any p (t ++ e ∷ []) ≡ true
any-append p [] e h = ground arith
any-append p (x ∷ t) e h = ground (arith, any-append p t e)

Appended-any : (p : Entry → Bool) (t t' : Table) → Appended t t' → any p t ≡ true → any p t' ≡ true
Appended-any p t _ unchanged h = h
Appended-any p t _ (credited e c) h = any-append p t e h
Appended-any p t _ (debited e c) h = any-append p t e h

after_calls-any :
    (p : Entry → Bool) (calls : List LedgerCall) (t : Table)
    → any p t ≡ true
    → any p (after_calls calls t) ≡ true
unfolding after_calls
after_calls-any p [] t h = h
after_calls-any p (call ∷ calls) t h =
    after_calls-any p calls (after_call call t)
      (Appended-any p t (after_call call t) (call-Appended call t) h)

any-last : (p : Entry → Bool) (t : Table) (e : Entry) → p e ≡ true → any p (t ++ e ∷ []) ≡ true
any-last p [] e h = ground arith
any-last p (x ∷ t) e h = ground (arith, any-last p t e h)

repeated : (positive : Bool) (t : Table) (e : Entry) → guarded positive false t e ≡ t
repeated true t e = refl
repeated false t e = refl

deposited :
    (p : String) (a : ℤ) (c ref : String) (t : Table)
    → ltb_ℤ (pos 0) a ≡ true
    → any (is_deposit_of (some ref)) (after_call (deposit_call p a c (some ref)) t) ≡ true
deposited p a c ref t h =
    subst (λ t'. any (is_deposit_of (some ref)) t' ≡ true) (sym (deposit_table p a c t (some ref)))
      (elim (Bool-cases (any (is_deposit_of (some ref)) t)) [
        | inl again ↦ rw (h, again) again
        | inr first ↦
            rw (h, first) (any-last (is_deposit_of (some ref)) t _ (rw (str_eq_refl ref) refl))
      ])

-- After a deposit of a positive amount under a reference, and whatever calls of the ledger come
-- after it, a deposit under the same reference changes nothing, for whichever player, amount and
-- currency it is sent.
pub deposit_once :
    (p : String) (a : ℤ) (c ref : String) (t : Table)
    → ltb_ℤ (pos 0) a ≡ true
    → (calls : List LedgerCall) (p' : String) (a' : ℤ) (c' : String)
    → let later = after_calls calls (after_call (deposit_call p a c (some ref)) t) in
      after_call (deposit_call p' a' c' (some ref)) later ≡ later
deposit_once p a c ref t h calls p' a' c' =
    deposit_table p' a' c' later (some ref)
    ∙ rw (after_calls-any (is_deposit_of (some ref)) calls _ (deposited p a c ref t h))
        (repeated (ltb_ℤ (pos 0) a') later _)
  where
    later : Table
    later = after_calls calls (after_call (deposit_call p a c (some ref)) t)
