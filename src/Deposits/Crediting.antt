-- ===== src/Deposits/Crediting.antt =====
-- Crediting a deposit whose row is there.
use crash_game.Prelude.{
  String, ◌≡◌, ◌≢◌, refl, sym, ap, ◌∙◌, inl, inr, true, false, Option, none, some, List, [], ◌∷◌,
  ◌++◌, find, any, str_eq, eq_iff, str_eq_refl, Bool-cases, if◌then◌else◌,
}
use mathlib.Core.Path.{subst}
use mathlib.Core.List.{append-nil}
use crash_game.Ledger.{Entry, is_deposit_of}
use crash_game.Deposits.{Deposit, Desk, has_reference}
use crash_game.Deposits.Credited.{
  entry_of, credits, Standing, IsSound, IsRow, credits-append, credits-none, any-credits, Grows,
}
use crash_game.Deposits.Steps.{with_entry}

-- With a row and a credit, the credit is the row's.
stood :
    (d : Deposit) (o : Option Deposit) (es : List Entry)
    → IsRow d o
    → Standing o es
    → es ≢ []
    → es ≡ entry_of d ∷ []
stood d none es row h some_credit = elim row [ ]
stood d (some x) es row (inl h) some_credit = h ∙ ap (λ e. e ∷ []) row
stood d (some x) es row (inr h) some_credit = absurd (some_credit h.0)

module _ (desk : Desk) (d : Deposit) (sound : IsSound desk) where
  pub credited_before :
      IsRow d (find (has_reference d.reference) desk.deposits)
      → any (is_deposit_of (some d.reference)) desk.ledger ≡ true
      → credits d.reference desk.ledger ≡ entry_of d ∷ []
  credited_before row again =
      stood d (find (has_reference d.reference) desk.deposits) (credits d.reference desk.ledger) row
        (sound d.reference) (λ e. cc (again, any-credits d.reference desk.ledger e))

  own_credit :
      (r : String)
      → credits r (entry_of d ∷ []) ≡ (if str_eq d.reference r then entry_of d ∷ [] else [])
  own_credit r = elim (Bool-cases (str_eq d.reference r)) [ inl h ↦ rw h refl | inr h ↦ rw h refl ]

  own_stand :
      (o : Option Deposit) (es : List Entry) → IsRow d o → es ≡ entry_of d ∷ [] → Standing o es
  own_stand none es row h = elim row [ ]
  own_stand (some x) es row h = inl (h ∙ ap (λ e. e ∷ []) (sym row))

  module _ (first : any (is_deposit_of (some d.reference)) desk.ledger ≡ false) where
    pub credited_now : credits d.reference (desk.ledger ++ entry_of d ∷ []) ≡ entry_of d ∷ []
    credited_now =
        credits-append d.reference desk.ledger (entry_of d)
        ∙ ap (λ es. es ++ credits d.reference (entry_of d ∷ []))
            (credits-none d.reference desk.ledger first)
        ∙ own_credit d.reference
        ∙ rw (str_eq_refl d.reference) refl

    elsewhere :
        (r : String)
        → str_eq d.reference r ≡ false
        → credits r (desk.ledger ++ entry_of d ∷ []) ≡ credits r desk.ledger
    elsewhere r apart =
        credits-append r desk.ledger (entry_of d)
        ∙ ap (λ es. credits r desk.ledger ++ es) (own_credit r ∙ rw apart refl)
        ∙ append-nil (credits r desk.ledger)

    pub credited-IsSound :
        IsRow d (find (has_reference d.reference) desk.deposits)
        → IsSound (with_entry desk (entry_of d))
    credited-IsSound row r = elim (Bool-cases (str_eq d.reference r)) [
      | inl same ↦
          subst
            (λ q.
              Standing (find (has_reference q) desk.deposits)
                (credits q (desk.ledger ++ entry_of d ∷ [])))
            ((eq_iff d.reference r).0 same)
            (own_stand (find (has_reference d.reference) desk.deposits) _ row credited_now)
      | inr apart ↦
          subst (Standing (find (has_reference r) desk.deposits)) (sym (elsewhere r apart))
            (sound r)
    ]

    pub credited-Grows : Grows desk (with_entry desk (entry_of d))
    credited-Grows = record {
      rows = λ r x h. h;
      credited = λ r e h. elim (Bool-cases (str_eq d.reference r)) [
        | inl same ↦ absurd (none_here r same e h)
        | inr apart ↦ elsewhere r apart ∙ h
      ];
    }
      where
        none_here :
            (r : String)
            → str_eq d.reference r ≡ true
            → (e : Entry) → credits r desk.ledger ≡ e ∷ []
            → ⊥
        none_here r same e h =
            cc (h, credits-none d.reference desk.ledger first, (eq_iff d.reference r).0 same)
