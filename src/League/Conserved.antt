-- ===== src/League/Conserved.antt =====
-- No money is lost or made by the leagues.
use crash_game.Prelude.{
  ℕ, suc, String, ◌==◌, ◌+◌, ◌*◌, ◌≡◌, ◌⊎◌, refl, sym, ap, ◌∙◌, true, false, some, List, [], ◌∷◌,
  ◌++◌, length, find, any, count, str_eq, eq_iff, if◌then◌else◌, arith, Bool-cases, inl, inr,
}
use mathlib.Core.Path.{subst}
use crash_game.Prelude.Int.{ℤ, pos, ◌+ℤ◌, int_laws}
use crash_game.Prelude.Action.{ok, err, bind_ok, bind_err}
use crash_game.Ledger.{Kind, Table, LedgerError, bad_amount, credit_in_tx}
use crash_game.League.{
  LeagueStatus, opened, settled, cancelled, is_open, League, Member, has_id, of_league, set_league,
  entry_ref,
}
use crash_game.League.Settle.{refund_all, credit_all}
use crash_game.League.Accounts.{
  total, held_as, held_by, held, credit_total, credit_some, assoc, swap,
}
use crash_game.Fantasy.Payouts.{total_paid}

module _ (r currency : String) (fee : ℕ) where
  pub refund_all-total :
      (ms : List Member) (t : Table)
      → ((e : LedgerError) × (t' : Table) × (refund_all r fee currency ms t ≡ (err e, t')))
        ⊎ ((t' : Table) × (refund_all r fee currency ms t ≡ (ok tt, t'))
            × (total t' ≡ total t +ℤ pos (fee * length ms)))
  unfolding refund_all
  refund_all-total [] t = inr (t, refl, zero_right (total t))
    where
      zero_right : (a : ℤ) → a ≡ a +ℤ pos (fee * 0)
      zero_right a = omega int_laws
  refund_all-total (m ∷ ms) t =
      let credit =
        credit_in_tx m.player_id (pos fee) Kind.adjust (entry_ref "fantasy-refund:" r m.player_id)
          currency in
      elim (credit_total m.player_id (pos fee) Kind.adjust
        (entry_ref "fantasy-refund:" r m.player_id) currency t) [
          | inl thrown ↦
              inl (bad_amount, t, bind_err credit (λ _. refund_all r fee currency ms) thrown)
          | inr (t1, done, more) ↦ elim (refund_all-total ms t1) [
            | inl (e, t2, thrown) ↦
                inl (e, t2, bind_ok credit (λ _. refund_all r fee currency ms) done ∙ thrown)
            | inr (t2, rest, sum) ↦ inr (
              t2,
              bind_ok credit (λ _. refund_all r fee currency ms) done ∙ rest,
              sum ∙ ap (λ n. n +ℤ pos (fee * length ms)) more ∙ one_more (total t) (length ms),
            )
          ]
        ]
    where
      one_more : (a : ℤ) (n : ℕ) → (a +ℤ pos fee) +ℤ pos (fee * n) ≡ a +ℤ pos (fee * suc n)
      one_more a n = grind int_laws

  pub credit_all-total :
      (entries : List (String × ℕ)) (paid : ℕ) (t : Table)
      → (t' : Table) × (credit_all r currency entries paid t ≡ (ok (paid + total_paid entries), t'))
        × (total t' ≡ total t +ℤ pos (total_paid entries))
  unfolding credit_all total_paid
  credit_all-total [] paid t = (t, ground arith, zero_right (total t))
    where
      zero_right : (a : ℤ) → a ≡ a +ℤ pos 0
      zero_right a = omega int_laws
  credit_all-total ((k, amount) ∷ entries) paid t = elim (Bool-cases (amount == 0)) [
    | inl nothing ↦
        let zero_amount : amount ≡ 0 = ground (arith, nothing) in
        let (t2, done, sum) = credit_all-total entries paid t in
        (
          t2,
          rw nothing (done ∙ ap (λ n. (ok n, t2)) (omega (arith, zero_amount))),
          sum ∙ ap (λ n. total t +ℤ pos n) (omega (arith, zero_amount)),
        )
    | inr something ↦
        let credit =
          credit_in_tx k (pos amount) Kind.win (entry_ref "fantasy-payout:" r k) currency in
        let (t1, paid_one, more) =
          credit_some k amount Kind.win (entry_ref "fantasy-payout:" r k) currency t something in
        let (t2, done, sum) = credit_all-total entries (paid + amount) t1 in
        (
          t2,
          rw something (
              bind_ok credit (λ _. credit_all r currency entries (paid + amount)) paid_one
              ∙ done
              ∙ ap (λ n. (ok n, t2)) (add_assoc paid amount (total_paid entries))),
          sum
              ∙ ap (λ n. n +ℤ pos (total_paid entries)) more
              ∙ one_more (total t) amount (total_paid entries),
        )
  ]
    where
      one_more : (a : ℤ) (n m : ℕ) → (a +ℤ pos n) +ℤ pos m ≡ a +ℤ pos (n + m)
      one_more a n m = omega int_laws

      add_assoc : (a b c : ℕ) → (a + b) + c ≡ a + (b + c)
      add_assoc a b c = omega arith

pub count-append :
    (r : String) (ms : List Member) (m : Member)
    → count (of_league r) (ms ++ m ∷ []) ≡ count (of_league r) ms + (if of_league r m then 1 else 0)
count-append r [] m = omega arith
count-append r (x ∷ ms) m = omega (arith, count-append r ms m)

-- The primary key of the leagues.
unfoldable pub IsUnique : List League → Type 0
IsUnique [] = Unit
IsUnique (l ∷ ls) = (any (has_id l.league_id) ls ≡ false) × IsUnique ls

-- Where no league has the id, a new member of it is none of the listed leagues'.
held_apart :
    (r : String) (ls : List League) (ms : List Member) (m : Member)
    → m.league_id ≡ r
    → any (has_id r) ls ≡ false
    → held ls (ms ++ m ∷ []) ≡ held ls ms
unfolding held
held_apart r [] ms m own h = refl
held_apart r (l ∷ ls) ms m own h =
    ap (λ n. held_as l.status l n +ℤ held ls (ms ++ m ∷ [])) (count-append l.league_id ms m ∙ other)
    ∙ ap (λ n. held_by ms l +ℤ n) (held_apart r ls ms m own (ground (arith, h)))
  where
    other :
        count (of_league l.league_id) ms + (if of_league l.league_id m then 1 else 0)
        ≡ count (of_league l.league_id) ms
    other = ground (arith, h, own, eq_iff m.league_id l.league_id, eq_iff l.league_id r)

held_as_more :
    (s : LeagueStatus) (l : League) (n : ℕ)
    → is_open s ≡ true
    → held_as s l (n + 1) ≡ held_as s l n +ℤ pos l.entry_fee_minor
held_as_more opened l n h = grind int_laws
held_as_more settled l n h = cc
held_as_more cancelled l n h = cc

held_by_more :
    (ms : List Member) (m : Member) (l : League)
    → m.league_id ≡ l.league_id
    → is_open l.status ≡ true
    → held_by (ms ++ m ∷ []) l ≡ held_by ms l +ℤ pos l.entry_fee_minor
held_by_more ms m l own entering =
    ap (held_as l.status l) (
      count-append l.league_id ms m
      ∙ ap (λ b. count (of_league l.league_id) ms + (if b then 1 else 0))
          ((eq_iff m.league_id l.league_id).1 own))
    ∙ held_as_more l.status l (count (of_league l.league_id) ms) entering

held_by_apart :
    (ms : List Member) (m : Member) (l : League)
    → str_eq m.league_id l.league_id ≡ false
    → held_by (ms ++ m ∷ []) l ≡ held_by ms l
held_by_apart ms m l apart = ap (held_as l.status l) (
    count-append l.league_id ms m
    ∙ ap (λ b. count (of_league l.league_id) ms + (if b then 1 else 0)) apart
    ∙ omega arith)

found_first :
    (r : String) (x : League) (ls : List League) (l : League)
    → has_id r x ≡ true
    → find (has_id r) (x ∷ ls) ≡ some l
    → x ≡ l
found_first r x ls l here h = ground (arith, here, h)

found_later :
    (r : String) (x : League) (ls : List League) (l : League)
    → has_id r x ≡ false
    → find (has_id r) (x ∷ ls) ≡ some l
    → find (has_id r) ls ≡ some l
found_later r x ls l there h = ground (arith, there, h)

-- A new member of an open league brings its fee.
pub held_joined :
    (r : String) (ls : List League) (ms : List Member) (m : Member) (l : League)
    → IsUnique ls
    → m.league_id ≡ r
    → find (has_id r) ls ≡ some l
    → is_open l.status ≡ true
    → held ls (ms ++ m ∷ []) ≡ held ls ms +ℤ pos l.entry_fee_minor
unfolding held IsUnique
held_joined r [] ms m l unique own found entering = cc
held_joined r (x ∷ ls) ms m l unique own found entering = elim (Bool-cases (has_id r x)) [
  | inl here ↦
      let id : x.league_id ≡ r = (eq_iff x.league_id r).0 here in
      let same : x ≡ l = found_first r x ls l here found in
      ap (λ n. n +ℤ held ls (ms ++ m ∷ []))
        (held_by_more ms m x (own ∙ sym id) (ap (λ y. is_open y.status) same ∙ entering))
      ∙ ap (λ n. (held_by ms x +ℤ pos x.entry_fee_minor) +ℤ n)
          (held_apart r ls ms m own (subst (λ q. any (has_id q) ls ≡ false) id unique.0))
      ∙ exchange (held_by ms x) (pos x.entry_fee_minor) (held ls ms)
      ∙ ap (λ y. (held_by ms x +ℤ held ls ms) +ℤ pos y.entry_fee_minor) same
  | inr there ↦
      ap (λ n. n +ℤ held ls (ms ++ m ∷ [])) (held_by_apart ms m x (elsewhere there))
      ∙ ap (λ n. held_by ms x +ℤ n)
          (held_joined r ls ms m l unique.1 own (found_later r x ls l there found) entering)
      ∙ sym (assoc (held_by ms x) (held ls ms) (pos l.entry_fee_minor))
]
  where
    exchange : (a b c : ℤ) → (a +ℤ b) +ℤ c ≡ (a +ℤ c) +ℤ b
    exchange a b c = omega int_laws

    elsewhere : has_id r x ≡ false → str_eq m.league_id x.league_id ≡ false
    elsewhere there =
        ground (arith, there, own, eq_iff m.league_id x.league_id, eq_iff x.league_id r)

pub held-set_league :
    (r : String) (f : League → League) (ls : List League) (ms : List Member) (l : League)
    → find (has_id r) ls ≡ some l
    → held (set_league r f ls) ms +ℤ held_by ms l ≡ held ls ms +ℤ held_by ms (f l)
unfolding held set_league
held-set_league r f [] ms l h = cc
held-set_league r f (x ∷ ls) ms l h = elim (Bool-cases (has_id r x)) [
  | inl here ↦
      let same : x ≡ l = found_first r x ls l here h in
      rw here (
        ap (λ y. (held_by ms (f x) +ℤ held ls ms) +ℤ held_by ms y) (sym same)
        ∙ swap (held_by ms (f x)) (held ls ms) (held_by ms x)
        ∙ ap (λ y. (held_by ms x +ℤ held ls ms) +ℤ held_by ms (f y)) same)
  | inr there ↦ rw there (
      assoc (held_by ms x) (held (set_league r f ls) ms) (held_by ms l)
      ∙ ap (λ n. held_by ms x +ℤ n) (held-set_league r f ls ms l (found_later r x ls l there h))
      ∙ sym (assoc (held_by ms x) (held ls ms) (held_by ms (f l))))
]
