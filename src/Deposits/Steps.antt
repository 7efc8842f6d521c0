-- ===== src/Deposits/Steps.antt =====
-- What creating a deposit, crediting it, and the other uses of the ledger do to the soundness of
-- the desk.
use crash_game.Prelude.{
  String, ◌≡◌, ◌≢◌, refl, sym, ap, ◌∙◌, ◌⊎◌, inl, inr, true, false, Option, none, some, List, [],
  ◌∷◌, ◌++◌, find, any, if◌then◌else◌, arith, Bool-cases,
}
use mathlib.Core.Path.{subst}
use mathlib.Core.List.{append-nil}
use crash_game.Prelude.Int.{ℤ, pos, ltb_ℤ}
use crash_game.Prelude.Action.{Result, ok, err}
use crash_game.Ledger.{
  Kind, Entry, Table, LedgerError, bad_amount, is_deposit, is_deposit_of, balance, credit_deposit,
  debit_in_tx, debit_entry, credit_in_tx, credit_win, place_bet,
}
use crash_game.Deposits.{
  DepositStatus, Deposit, Desk, DepositInput, has_reference, pending_row, get, create_beside,
  create_pending,
}
use crash_game.Deposits.Credited.{
  entry_of, credits, Standing, IsSound, IsRow, credits-append, Grows, Grows-refl,
}

find-append :
    (r : String) (ds : List Deposit) (n : Deposit)
    → find (has_reference r) (ds ++ n ∷ []) ≡ (
        if any (has_reference r) ds
        then find (has_reference r) ds
        else if has_reference r n
        then some n
        else none)
find-append r [] n = refl
find-append r (x ∷ ds) n = ground (arith, find-append r ds n)

any-find :
    (r : String) (ds : List Deposit)
    → any (has_reference r) ds ≡ false
    → find (has_reference r) ds ≡ none
any-find r [] h = refl
any-find r (x ∷ ds) h = ground (arith, any-find r ds)

find-any :
    (r : String) (ds : List Deposit)
    → find (has_reference r) ds ≡ none
    → any (has_reference r) ds ≡ false
find-any r [] h = refl
find-any r (x ∷ ds) h = ground (arith, find-any r ds)

stand_fresh :
    (r : String) (n : Deposit) (es : List Entry)
    → n.status ≢ DepositStatus.settled
    → Standing none es
    → Standing (if has_reference r n then some n else none) es
stand_fresh r n es unsettled h = elim (Bool-cases (has_reference r n)) [
  | inl here ↦ rw here (inr (h, unsettled))
  | inr there ↦ rw there h
]

credits-other :
    (r : String) (t : Table) (e : Entry)
    → is_deposit e.kind ≡ false
    → credits r (t ++ e ∷ []) ≡ credits r t
credits-other r t e other = credits-append r t e ∙ rw other (append-nil (credits r t))

module _ (desk : Desk) where
  created : DepositInput → Desk
  created input = record desk { deposits = desk.deposits ++ pending_row input ∷ [] }

  created-IsSound : (input : DepositInput) → IsSound desk → IsSound (created input)
  unfolding created
  created-IsSound input sound r = elim (Bool-cases (any (has_reference r) desk.deposits)) [
    | inl old ↦
        subst (λ o. Standing o (credits r desk.ledger))
          (sym (find-append r desk.deposits (pending_row input) ∙ rw old refl)) (sound r)
    | inr new ↦
        subst (λ o. Standing o (credits r desk.ledger))
          (sym (find-append r desk.deposits (pending_row input) ∙ rw new refl))
          (stand_fresh r (pending_row input) (credits r desk.ledger) (λ e. cc)
            (subst (λ o. Standing o (credits r desk.ledger)) (any-find r desk.deposits new)
              (sound r)))
  ]

  created-Grows : (input : DepositInput) → Grows desk (created input)
  unfolding created
  created-Grows input = record {
    rows = λ r d h. elim (Bool-cases (any (has_reference r) desk.deposits)) [
      | inl old ↦
          subst (IsRow d) (sym (find-append r desk.deposits (pending_row input) ∙ rw old refl)) h
      | inr new ↦ absurd (subst (IsRow d) (any-find r desk.deposits new) h)
    ];
    credited = λ r e h. h;
  }

  beside_lem :
      (input : DepositInput) (o : Option Deposit)
      → ((create_beside input desk o).1 ≡ desk) ⊎ ((create_beside input desk o).1 ≡ created input)
  unfolding created
  beside_lem input none = inr refl
  beside_lem input (some d) = inl refl

  pub created_lem :
      (input : DepositInput)
      → IsSound desk
      → IsSound (create_pending input desk).1 × Grows desk (create_pending input desk).1
  unfolding create_pending
  created_lem input sound = elim (beside_lem input (get input.reference desk)) [
    | inl same ↦ subst (λ x. IsSound x × Grows desk x) (sym same) (sound, Grows-refl desk)
    | inr new ↦
        subst (λ x. IsSound x × Grows desk x) (sym new)
          (created-IsSound input sound, created-Grows input)
  ]

  abbrev pub with_entry : Entry → Desk
  with_entry e = record desk { ledger = desk.ledger ++ e ∷ [] }

  -- An entry that no deposit has.
  other_lem :
      (e : Entry)
      → is_deposit e.kind ≡ false
      → IsSound desk
      → IsSound (with_entry e) × Grows desk (with_entry e)
  other_lem e other sound = (
    λ r.
        subst (Standing (find (has_reference r) desk.deposits))
          (sym (credits-other r desk.ledger e other)) (sound r),
    record { rows = λ r d h. h; credited = λ r x h. credits-other r desk.ledger e other ∙ h },
  )

-- How a method of the ledger that makes no deposit ends.
abbrev pub IsOther : Table → Table → Type 0
IsOther t t' = (t' ≡ t) ⊎ ((e : Entry) × (t' ≡ t ++ e ∷ []) × (is_deposit e.kind ≡ false))

pub credits_lem : (r : String) (t t' : Table) → IsOther t t' → credits r t' ≡ credits r t
credits_lem r t t' (inl same) = ap (credits r) same
credits_lem r t t' (inr (e, added, other)) = ap (credits r) added ∙ credits-other r t e other

debit-IsOther :
    (p : String) (a : ℤ) (ref c : String) (k : Kind) (t : Table)
    → is_deposit k ≡ false
    → IsOther t (debit_in_tx p a ref c k t).1
unfolding debit_in_tx
debit-IsOther p a ref c k t other = elim (Bool-cases (ltb_ℤ (pos 0) a)) [
  | inl h ↦ elim (Bool-cases (ltb_ℤ (balance p c t) a)) [
    | inl short ↦ inl (ground (arith, h, short))
    | inr covered ↦ inr (debit_entry p a ref c k, ground (arith, h, covered), other)
  ]
  | inr h ↦ inl (ground (arith, h))
]

pub wager-IsOther :
    (p : String) (a : ℤ) (ref c : String) (t : Table) → IsOther t (place_bet p a ref c t).1
unfolding place_bet
wager-IsOther p a ref c t = debit-IsOther p a ref c Kind.bet t refl

pub withdraw-IsOther :
    (p : String) (a : ℤ) (ref c : String) (t : Table)
    → IsOther t (debit_in_tx p a ref c Kind.withdrawal t).1
withdraw-IsOther p a ref c t = debit-IsOther p a ref c Kind.withdrawal t refl

abbrev credit_entry : String → ℤ → Kind → String → String → Entry
credit_entry p a k ref c = record {
  player_id = p;
  currency = c;
  amount_minor = a;
  kind = k;
  ref = some ref;
}

pub refund-IsOther :
    (p : String) (a : ℤ) (ref c : String) (t : Table)
    → IsOther t (credit_in_tx p a Kind.adjust ref c t).1
unfolding credit_in_tx
refund-IsOther p a ref c t = elim (Bool-cases (ltb_ℤ (pos 0) a)) [
  | inl h ↦ inr (credit_entry p a Kind.adjust ref c, ground (arith, h), refl)
  | inr h ↦ inl (ground (arith, h))
]

pub winning-IsOther :
    (p : String) (a : ℤ) (ref c : String) (t : Table) → IsOther t (credit_win p a ref c t).1
unfolding credit_win
winning-IsOther p a ref c t = elim (Bool-cases (ltb_ℤ (pos 0) a)) [
  | inl h ↦ inr (credit_entry p a Kind.win ref c, ground (arith, h), refl)
  | inr h ↦ inl (ground (arith, h))
]

pub ledger_lem :
    (desk : Desk) (t : Table)
    → IsOther desk.ledger t
    → IsSound desk
    → IsSound (record desk { ledger = t }) × Grows desk (record desk { ledger = t })
ledger_lem desk t (inl same) sound =
    subst (λ x. IsSound (record desk { ledger = x }) × Grows desk (record desk { ledger = x }))
      (sym same) (sound, Grows-refl desk)
ledger_lem desk t (inr (e, added, other)) sound =
    subst (λ x. IsSound (record desk { ledger = x }) × Grows desk (record desk { ledger = x }))
      (sym added) (other_lem desk e other sound)

-- How crediting a deposit ends: it throws, or the reference was there, or the row is appended.
module _ (d : Deposit) (t : Table) where
  abbrev pub credit_of : Result LedgerError ℤ × Table
  credit_of = credit_deposit d.player_id d.amount_minor d.currency (some d.reference) t

  pub credit_end :
      ((credit_of ≡ (err bad_amount, t)) × (ltb_ℤ (pos 0) d.amount_minor ≡ false))
      ⊎ ((b : ℤ) × (credit_of ≡ (ok b, t)) × (any (is_deposit_of (some d.reference)) t ≡ true))
      ⊎ ((b : ℤ) × (credit_of ≡ (ok b, t ++ entry_of d ∷ []))
          × (any (is_deposit_of (some d.reference)) t ≡ false))
  unfolding credit_deposit
  credit_end = elim (Bool-cases (ltb_ℤ (pos 0) d.amount_minor)) [
    | inr h ↦ inl (ground (arith, h), h)
    | inl h ↦ elim (Bool-cases (any (is_deposit_of (some d.reference)) t)) [
      | inl again ↦ inr (inl (balance d.player_id d.currency t, ground (arith, h, again), again))
      | inr first ↦ inr (
          inr (
            balance d.player_id d.currency (t ++ entry_of d ∷ []),
            ground (arith, h, first),
            first,
          ))
    ]
  ]
