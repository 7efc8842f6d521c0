-- ===== src/League/Accounts.antt =====
-- The books of the leagues: what the ledger holds in all, and what the leagues hold.
use crash_game.League.{is_entry}
use crash_game.Prelude.{
  ℕ, suc, String, ◌==◌, ◌+◌, ◌*◌, ◌≡◌, ◌⊎◌, refl, sym, ap, ◌∙◌, Bool, false, Option, none, some,
  or_else, List, [], ◌∷◌, ◌++◌, length, filter, find, count, str_eq, if◌then◌else◌, arith,
  Bool-cases, inl, inr,
}
use crash_game.Prelude.Int.{ℤ, pos, ◌+ℤ◌, ◌-ℤ◌, ltb_ℤ, int_laws}
use crash_game.Prelude.Action.{ok, err}
use crash_game.Ledger.{
  Kind, Entry, Table, LedgerError, bad_amount, insufficient_funds, balance, debit_entry,
  debit_in_tx, place_bet, credit_in_tx,
}
use crash_game.League.{LeagueStatus, opened, settled, cancelled, League, Member, House, of_league}
use crash_game.League.Settle.{
  set_results, with_result, has_key, insert_joined, by_join, joined_before,
}
use crash_game.Fantasy.Leaderboard.{Entrant}

-- The sum of all rows, of whatever player and currency.
unfoldable pub total : Table → ℤ
total [] = pos 0
total (e ∷ t) = e.amount_minor +ℤ total t

-- What a league holds: the fees of its members while it is open, then its rake.
abbrev pub held_as : LeagueStatus → League → ℕ → ℤ
held_as opened l n = pos (l.entry_fee_minor * n)
held_as settled l n = or_else l.rake_minor (pos 0)
held_as cancelled l n = pos 0

abbrev pub held_by : List Member → League → ℤ
held_by ms l = held_as l.status l (count (of_league l.league_id) ms)

unfoldable pub held : List League → List Member → ℤ
held [] ms = pos 0
held (l ∷ ls) ms = held_by ms l +ℤ held ls ms

-- The money of the players and of the leagues.
abbrev pub assets : House → ℤ
assets house = total house.ledger +ℤ held house.leagues house.members

pub assoc : (a b c : ℤ) → (a +ℤ b) +ℤ c ≡ a +ℤ (b +ℤ c)
assoc a b c = omega int_laws

pub swap : (a b c : ℤ) → (a +ℤ b) +ℤ c ≡ (c +ℤ b) +ℤ a
swap a b c = omega int_laws

pub total-append : (t : Table) (e : Entry) → total (t ++ e ∷ []) ≡ total t +ℤ e.amount_minor
unfolding total
total-append [] e = omega int_laws
total-append (x ∷ t) e =
    ap (λ n. x.amount_minor +ℤ n) (total-append t e)
    ∙ sym (assoc x.amount_minor (total t) e.amount_minor)

-- A debit and a credit that do not throw.
pub debit_total :
    (p : String) (a : ℤ) (ref c : String) (t : Table)
    → ((e : LedgerError) × (place_bet p a ref c t ≡ (err e, t)))
      ⊎ ((b : ℤ) × (t' : Table) × (place_bet p a ref c t ≡ (ok b, t')) × (total t' +ℤ a ≡ total t))
unfolding place_bet debit_in_tx
debit_total p a ref c t = elim (Bool-cases (ltb_ℤ (pos 0) a)) [
  | inr h ↦ inl (bad_amount, ground (arith, h))
  | inl h ↦ elim (Bool-cases (ltb_ℤ (balance p c t) a)) [
    | inl short ↦ inl (insufficient_funds p (balance p c t) a, ground (arith, h, short))
    | inr covered ↦ inr (
      balance p c t -ℤ a,
      t ++ debit_entry p a ref c Kind.bet ∷ [],
      ground (arith, h, covered),
      ap (λ n. n +ℤ a) (total-append t (debit_entry p a ref c Kind.bet)) ∙ back (total t) a,
    )
  ]
]
  where
    back : (b a : ℤ) → (b +ℤ (pos 0 -ℤ a)) +ℤ a ≡ b
    back b a = omega int_laws

pub credit_total :
    (p : String) (a : ℤ) (k : Kind) (ref c : String) (t : Table)
    → (credit_in_tx p a k ref c t ≡ (err bad_amount, t))
      ⊎ ((t' : Table) × (credit_in_tx p a k ref c t ≡ (ok tt, t')) × (total t' ≡ total t +ℤ a))
unfolding credit_in_tx
credit_total p a k ref c t = elim (Bool-cases (ltb_ℤ (pos 0) a)) [
  | inl h ↦ inr (
    t ++ record { player_id = p; currency = c; amount_minor = a; kind = k; ref = some ref } ∷ [],
    ground (arith, h),
    total-append t _,
  )
  | inr h ↦ inl (ground (arith, h))
]

-- Joining the table in another order.
length-insert :
    (by_uuid : String → String → Bool) (m : Member) (ms : List Member)
    → length (insert_joined by_uuid m ms) ≡ suc (length ms)
unfolding insert_joined
length-insert by_uuid m [] = refl
length-insert by_uuid m (n ∷ ns) = elim (Bool-cases (joined_before by_uuid n m)) [
  | inl earlier ↦ rw earlier (ap suc (length-insert by_uuid m ns))
  | inr later ↦ rw later refl
]

pub length-by_join :
    (by_uuid : String → String → Bool) (ms : List Member) → length (by_join by_uuid ms) ≡ length ms
unfolding by_join
length-by_join by_uuid [] = refl
length-by_join by_uuid (m ∷ ms) =
    length-insert by_uuid m (by_join by_uuid ms) ∙ ap suc (length-by_join by_uuid ms)

pub length-filter :
    (r : String) (ms : List Member) → length (filter (of_league r) ms) ≡ count (of_league r) ms
length-filter r [] = refl
length-filter r (m ∷ ms) = ground (arith, length-filter r ms)

with_result_league :
    (by_key : List (String × ℕ)) (o : Option (Entrant × ℕ)) (m : Member)
    → (with_result by_key o m).league_id ≡ m.league_id
with_result_league by_key none m = refl
with_result_league by_key (some (e, rank)) m = refl

pub count-set_results :
    (r s : String) (ranked : List (Entrant × ℕ)) (by_key : List (String × ℕ)) (ms : List Member)
    → count (of_league r) (set_results s ranked by_key ms) ≡ count (of_league r) ms
unfolding set_results
count-set_results r s ranked by_key [] = refl
count-set_results r s ranked by_key (m ∷ ms) = elim (Bool-cases (of_league s m)) [
  | inl here ↦ rw here (
      ap
        (λ id.
          (if str_eq id r then 1 else 0) + count (of_league r) (set_results s ranked by_key ms))
        (with_result_league by_key (find (has_key m.player_id) ranked) m)
      ∙ ap (λ n. (if of_league r m then 1 else 0) + n) (count-set_results r s ranked by_key ms))
  | inr there ↦
      rw there
        (ap (λ n. (if of_league r m then 1 else 0) + n) (count-set_results r s ranked by_key ms))
]

with_result_player :
    (by_key : List (String × ℕ)) (o : Option (Entrant × ℕ)) (m : Member)
    → (with_result by_key o m).player_id ≡ m.player_id
with_result_player by_key none m = refl
with_result_player by_key (some (e, rank)) m = refl

pub entries-set_results :
    (r p s : String) (ranked : List (Entrant × ℕ)) (by_key : List (String × ℕ)) (ms : List Member)
    → count (is_entry r p) (set_results s ranked by_key ms) ≡ count (is_entry r p) ms
unfolding set_results
entries-set_results r p s ranked by_key [] = refl
entries-set_results r p s ranked by_key (m ∷ ms) = elim (Bool-cases (of_league s m)) [
  | inl here ↦ rw here (
      ground (
        arith,
        with_result_league by_key (find (has_key m.player_id) ranked) m,
        with_result_player by_key (find (has_key m.player_id) ranked) m,
        entries-set_results r p s ranked by_key ms,
      ))
  | inr there ↦ rw there (omega (arith, entries-set_results r p s ranked by_key ms))
]

pub held-same :
    (ls : List League) (ms ns : List Member)
    → ((r : String) → count (of_league r) ms ≡ count (of_league r) ns)
    → held ls ms ≡ held ls ns
unfolding held
held-same [] ms ns h = refl
held-same (l ∷ ls) ms ns h =
    ap (λ n. held_as l.status l n +ℤ held ls ms) (h l.league_id)
    ∙ ap (λ n. held_by ns l +ℤ n) (held-same ls ms ns h)

-- A credit of some money does not throw.
pub credit_some :
    (p : String) (n : ℕ) (k : Kind) (ref c : String) (t : Table)
    → (n == 0) ≡ false
    → (t' : Table) × (credit_in_tx p (pos n) k ref c t ≡ (ok tt, t'))
      × (total t' ≡ total t +ℤ pos n)
unfolding credit_in_tx
credit_some p n k ref c t h = (
  t ++ record { player_id = p; currency = c; amount_minor = pos n; kind = k; ref = some ref } ∷ [],
  ground (arith, h),
  total-append t _,
)
