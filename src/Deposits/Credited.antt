-- ===== src/Deposits/Credited.antt =====
-- Every deposit is credited once at most, to its player, and a settled one was credited.
use crash_game.Prelude.{
  String, ◌≡◌, ◌≢◌, refl, sym, ap, ◌∙◌, ◌⊎◌, inl, inr, Bool, true, false, Option, none, some, List,
  [], ◌∷◌, ◌++◌, find, any, filter, str_eq, eq_iff, if◌then◌else◌, arith, Bool-cases, str_eq_refl,
}
use mathlib.Core.Path.{subst}
use crash_game.Ledger.{Kind, Entry, Table, is_deposit_of}
use crash_game.Deposits.{
  DepositStatus, pending, settled, failed, Deposit, Desk, has_reference, is_pending, set_status,
}

-- The row that crediting a deposit appends.
abbrev pub entry_of : Deposit → Entry
entry_of d = record {
  player_id = d.player_id;
  currency = d.currency;
  amount_minor = d.amount_minor;
  kind = Kind.deposit;
  ref = some d.reference;
}

-- The deposits of the ledger with a reference.
abbrev pub credits : String → Table → List Entry
credits r t = filter (is_deposit_of (some r)) t

-- How the ledger stands to a deposit: it was credited once, as its row says, or it was not, and is
-- not settled. Without a row there is no credit.
abbrev pub Standing : Option Deposit → List Entry → Type 0
Standing none es = es ≡ []
Standing (some d) es = (es ≡ entry_of d ∷ []) ⊎ ((es ≡ []) × (d.status ≢ settled))

abbrev pub IsSound : Desk → Type 0
IsSound desk =
    (r : String) → Standing (find (has_reference r) desk.deposits) (credits r desk.ledger)

-- The row of the deposit is there, whatever its status has become.
abbrev pub IsRow : Deposit → Option Deposit → Type 0
IsRow d none = ⊥
IsRow d (some x) = entry_of x ≡ entry_of d

pub credits-append :
    (r : String) (t : Table) (e : Entry)
    → credits r (t ++ e ∷ []) ≡ credits r t ++ credits r (e ∷ [])
credits-append r [] e = refl
credits-append r (x ∷ t) e = ground (arith, credits-append r t e)

pub credits-none :
    (r : String) (t : Table) → any (is_deposit_of (some r)) t ≡ false → credits r t ≡ []
credits-none r [] h = refl
credits-none r (x ∷ t) h = ground (arith, credits-none r t)

pub any-credits :
    (r : String) (t : Table) → credits r t ≡ [] → any (is_deposit_of (some r)) t ≡ false
any-credits r [] h = refl
any-credits r (x ∷ t) h = ground (arith, h, any-credits r t)

marked : DepositStatus → Deposit → Deposit
marked status d = if is_pending d.status then record d { status = status } else d

when_marked : Bool → DepositStatus → Option Deposit → Option Deposit
when_marked b status none = none
when_marked true status (some d) = some (marked status d)
when_marked false status (some d) = some d

find-set_status :
    (r q : String) (status : DepositStatus) (ds : List Deposit)
    → find (has_reference r) (set_status q status ds)
      ≡ when_marked (str_eq q r) status (find (has_reference r) ds)
unfolding set_status when_marked marked
find-set_status r q status [] = refl
find-set_status r q status (x ∷ ds) =
    ground
      (arith, find-set_status r q status ds, eq_iff x.reference q, eq_iff x.reference r, eq_iff q r)

entry_of-marked : (status : DepositStatus) (d : Deposit) → entry_of (marked status d) ≡ entry_of d
unfolding marked
entry_of-marked status d = elim (Bool-cases (is_pending d.status)) [
  | inl h ↦ rw h refl
  | inr h ↦ rw h refl
]

IsRow-marked :
    (b : Bool) (status : DepositStatus) (d : Deposit) (o : Option Deposit)
    → IsRow d o
    → IsRow d (when_marked b status o)
unfolding when_marked
IsRow-marked b status d none h = elim h [ ]
IsRow-marked true status d (some x) h = entry_of-marked status x ∙ h
IsRow-marked false status d (some x) h = h

marked_failed : (d : Deposit) → d.status ≢ settled → (marked failed d).status ≢ settled
unfolding marked
marked_failed d h = elim (Bool-cases (is_pending d.status)) [
  | inl p ↦ rw p (λ e. cc)
  | inr p ↦ rw p h
]

stand_failed :
    (b : Bool) (o : Option Deposit) (es : List Entry)
    → Standing o es
    → Standing (when_marked b failed o) es
unfolding when_marked
stand_failed b none es h = h
stand_failed true (some d) es (inl h) = inl (h ∙ ap (λ e. e ∷ []) (sym (entry_of-marked failed d)))
stand_failed true (some d) es (inr h) = inr (h.0, marked_failed d h.1)
stand_failed false (some d) es h = h

stand_settled :
    (b : Bool) (o : Option Deposit) (es : List Entry)
    → Standing o es
    → (b ≡ true → es ≢ [])
    → Standing (when_marked b settled o) es
unfolding when_marked
stand_settled b none es h c = h
stand_settled true (some d) es (inl h) c =
    inl (h ∙ ap (λ e. e ∷ []) (sym (entry_of-marked settled d)))
stand_settled true (some d) es (inr h) c = absurd (c refl h.0)
stand_settled false (some d) es h c = h

-- What was there is there: rows but for their status, and credits.
pub record Grows (s t : Desk) : Type 0 where
  pub rows :
      (r : String) (d : Deposit)
      → IsRow d (find (has_reference r) s.deposits)
      → IsRow d (find (has_reference r) t.deposits)
  pub credited :
      (r : String) (e : Entry) → credits r s.ledger ≡ e ∷ [] → credits r t.ledger ≡ e ∷ []

pub Grows-refl : (s : Desk) → Grows s s
Grows-refl s = record { rows = λ r d h. h; credited = λ r e h. h }

module _ (desk : Desk) (sound : IsSound desk) where
  pub status_Grows :
      (q : String) (status : DepositStatus)
      → Grows desk (record desk { deposits = set_status q status desk.deposits })
  status_Grows q status = record {
    rows = λ r d h.
        subst (IsRow d) (sym (find-set_status r q status desk.deposits))
          (IsRow-marked (str_eq q r) status d (find (has_reference r) desk.deposits) h);
    credited = λ r e h. h;
  }

  pub failed-IsSound :
      (q : String) → IsSound (record desk { deposits = set_status q failed desk.deposits })
  failed-IsSound q r =
      subst (λ o. Standing o (credits r desk.ledger))
        (sym (find-set_status r q failed desk.deposits))
        (stand_failed (str_eq q r) (find (has_reference r) desk.deposits) (credits r desk.ledger)
          (sound r))

  pub settled-IsSound :
      (q : String)
      → credits q desk.ledger ≢ []
      → IsSound (record desk { deposits = set_status q settled desk.deposits })
  settled-IsSound q c r =
      subst (λ o. Standing o (credits r desk.ledger))
        (sym (find-set_status r q settled desk.deposits))
        (stand_settled (str_eq q r) (find (has_reference r) desk.deposits) (credits r desk.ledger)
          (sound r) (λ h. subst (λ x. credits x desk.ledger ≢ []) ((eq_iff q r).0 h) c))

marked_pending :
    (status : DepositStatus) (d : Deposit)
    → d.status ≡ pending
    → marked status d ≡ record d { status = status }
unfolding marked
marked_pending status d waiting =
    ap (λ b. if b then record d { status = status } else d) (ap is_pending waiting)

-- Settling a pending row changes its status and nothing else.
pub settled_found :
    (r : String) (ds : List Deposit) (d : Deposit)
    → find (has_reference r) ds ≡ some d
    → d.status ≡ pending
    → find (has_reference r) (set_status r settled ds) ≡ some (record d { status = settled })
unfolding when_marked
settled_found r ds d found waiting =
    find-set_status r r settled ds
    ∙ ap (λ b. when_marked b settled (find (has_reference r) ds)) (str_eq_refl r)
    ∙ ap (when_marked true settled) found
    ∙ ap some (marked_pending settled d waiting)
