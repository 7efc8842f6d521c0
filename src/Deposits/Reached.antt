-- ===== src/Deposits/Reached.antt =====
-- The soundness of the desk through every schedule of the handlers.
use crash_game.Prelude.{
  ℕ, String, ◌≡◌, ◌≢◌, refl, sym, ap, ◌∙◌, inl, inr, Bool, true, false, Option, none, some, List,
  [], ◌∷◌, find, eq_iff, arith, Bool-cases, All, All-append, All-set, All-get, get_elem?,
  if◌then◌else◌,
}
use mathlib.Core.Path.{subst}
use crash_game.Errors.{Json}
use crash_game.Ledger
use crash_game.Deposits
use crash_game.Ledger.{Table, LedgerError, credit_deposit}
use crash_game.Deposits.{Deposit, Desk, has_reference, get, mark_settled, mark_failed}
use crash_game.Deposits.Webhook.{
  Outcome, ParsedEvent, VerifiedTxn, Request, PayInProvider, Task, looking, verifying, crediting,
  settling, reading, failing, answered, parsed, checked_body, is_ours, receive, looked, verified,
  confirms, credited, resume,
}
use crash_game.Deposits.Delivery.{
  Server, Event, create, arrive, go_on, restart, wager, winning, withdraw, refund, went_on, after,
  after_all,
}
use crash_game.Deposits.Credited.{
  entry_of, credits, IsSound, IsRow, Grows, Grows-refl, status_Grows, failed-IsSound,
  settled-IsSound,
}
use crash_game.Deposits.Steps.{
  created_lem, ledger_lem, wager-IsOther, winning-IsOther, withdraw-IsOther, refund-IsOther,
  credit_of, credit_end,
}
use crash_game.Deposits.Crediting.{credited_before, credited_now, credited-IsSound, credited-Grows}

-- The deposit that a handler holds is one of the rows.
abbrev pub IsLinked : Desk → ParsedEvent → Deposit → Type 0
IsLinked desk evt d =
    (evt.reference ≡ d.reference) × IsRow d (find (has_reference d.reference) desk.deposits)

abbrev pub IsFit : Desk → Task → Type 0
IsFit desk (verifying evt d) = IsLinked desk evt d
IsFit desk (crediting evt d) = IsLinked desk evt d
IsFit desk (settling evt d) =
    IsLinked desk evt d × (credits d.reference desk.ledger ≡ entry_of d ∷ [])
IsFit desk (looking evt) = Unit
IsFit desk (reading d) = Unit
IsFit desk (failing evt) = Unit
IsFit desk (answered status) = Unit

IsFit-grown : (s t : Desk) → Grows s t → (task : Task) → IsFit s task → IsFit t task
IsFit-grown s t g (looking evt) h = tt
IsFit-grown s t g (verifying evt d) h = (h.0, g.rows d.reference d h.1)
IsFit-grown s t g (crediting evt d) h = (h.0, g.rows d.reference d h.1)
IsFit-grown s t g (settling evt d) h =
    ((h.0.0, g.rows d.reference d h.0.1), g.credited d.reference (entry_of d) h.1)
IsFit-grown s t g (reading d) h = tt
IsFit-grown s t g (failing evt) h = tt
IsFit-grown s t g (answered status) h = tt

All-grown :
    (s t : Desk) → Grows s t → (tasks : List Task) → All (IsFit s) tasks → All (IsFit t) tasks
All-grown s t g [] h = tt
All-grown s t g (x ∷ xs) h = (IsFit-grown s t g x h.0, All-grown s t g xs h.1)

-- A step of a handler that keeps what the others rely on.
abbrev pub IsKept : Desk → Task × Desk → Type 0
IsKept desk (task', desk') = IsSound desk' × Grows desk desk' × IsFit desk' task'

pub found_reference :
    (r : String) (ds : List Deposit) (d : Deposit)
    → find (has_reference r) ds ≡ some d
    → d.reference ≡ r
found_reference r [] d h = ground (arith, h)
found_reference r (x ∷ ds) d h = elim (Bool-cases (has_reference r x)) [
  | inl here ↦ ground (arith, h, here, eq_iff x.reference r)
  | inr there ↦ found_reference r ds d (ground (arith, h, there))
]

IsRow-self : (d : Deposit) (o : Option Deposit) → o ≡ some d → IsRow d o
IsRow-self d o h = subst (IsRow d) (sym h) refl

module _ (desk : Desk) (sound : IsSound desk) where
  unmoved : (task : Task) → IsFit desk task → IsKept desk (task, desk)
  unmoved task fit = (sound, Grows-refl desk, fit)

  looked-IsFit :
      (evt : ParsedEvent) (o : Option Deposit) (outcome : Outcome)
      → find (has_reference evt.reference) desk.deposits ≡ o
      → IsFit desk (looked evt o outcome)
  looked-IsFit evt none outcome h = tt
  looked-IsFit evt (some d) Outcome.success h =
      let same = found_reference evt.reference desk.deposits d h in
      (sym same, IsRow-self d _ (ap (λ r. find (has_reference r) desk.deposits) same ∙ h))
  looked-IsFit evt (some d) Outcome.failed h = tt
  looked-IsFit evt (some d) Outcome.ignore h = tt

  verified-IsFit :
      (evt : ParsedEvent) (d : Deposit) (answer : Option VerifiedTxn)
      → IsLinked desk evt d
      → IsFit desk (verified evt d answer)
  verified-IsFit evt d none h = tt
  verified-IsFit evt d (some v) h = elim (Bool-cases (confirms evt d v)) [
    | inl agrees ↦ rw agrees h
    | inr differs ↦ rw differs tt
  ]

  credited-IsKept :
      (evt : ParsedEvent) (d : Deposit)
      → IsLinked desk evt d
      → IsKept desk (credited evt d desk (credit_of d desk.ledger))
  credited-IsKept evt d h = elim (credit_end d desk.ledger) [
    | inl (thrown, bad) ↦ rw thrown (unmoved (answered 500) tt)
    | inr (inl (b, done, again)) ↦
        rw done (unmoved (settling evt d) (h, credited_before desk d sound h.1 again))
    | inr (inr (b, done, first)) ↦ rw done (
      credited-IsSound desk d sound first h.1,
      credited-Grows desk d sound first,
      (h, credited_now desk d sound first),
    )
  ]

  some_entry : (es : List Ledger.Entry) (e : Ledger.Entry) → es ≡ e ∷ [] → es ≢ []
  some_entry es e h = λ empty. cc

  resumed-IsKept :
      (answer : Option VerifiedTxn) (task : Task)
      → IsFit desk task
      → IsKept desk (resume answer task desk)
  unfolding resume get
  resumed-IsKept answer (looking evt) h =
      unmoved (looked evt (get evt.reference desk) evt.outcome)
        (looked-IsFit evt (get evt.reference desk) evt.outcome refl)
  resumed-IsKept answer (verifying evt d) h =
      unmoved (verified evt d answer) (verified-IsFit evt d answer h)
  resumed-IsKept answer (crediting evt d) h =
      subst
        (λ r. IsKept desk (
          credited evt d desk
            (credit_deposit d.player_id d.amount_minor d.currency (some r) desk.ledger)))
        (sym h.0) (credited-IsKept evt d h)
  resumed-IsKept answer (settling evt d) h = (
    settled-IsSound desk sound evt.reference
        (subst (λ r. credits r desk.ledger ≢ []) (sym h.0.0) (some_entry _ (entry_of d) h.1)),
    status_Grows desk sound evt.reference Deposits.DepositStatus.settled,
    fit_next (mark_settled evt.reference desk).0 d,
  )
    where
      fit_next :
          (b : Bool) (d : Deposit)
          → IsFit (mark_settled evt.reference desk).1 (if b then reading d else answered 200)
      fit_next true d = tt
      fit_next false d = tt
  resumed-IsKept answer (reading d) h =
      (sound, record { rows = λ r x g. g; credited = λ r e g. g }, tt)
  resumed-IsKept answer (failing evt) h = (
    failed-IsSound desk sound evt.reference,
    status_Grows desk sound evt.reference Deposits.DepositStatus.failed,
    tt,
  )
  resumed-IsKept answer (answered status) h = unmoved (answered status) tt

-- The rows and the ledger agree, and every handler in flight holds a deposit that is a row.
pub record IsServing (s : Server) : Type 0 where
  pub sound : IsSound s.desk
  pub fit : All (IsFit s.desk) s.tasks

module _ (provider : PayInProvider) (claimed : Json → Bool) where
  parsed-IsFit : (desk : Desk) (o : Option ParsedEvent) → IsFit desk (parsed o)
  parsed-IsFit desk none = tt
  parsed-IsFit desk (some evt) = elim (Bool-cases (is_ours evt)) [
    | inl ours ↦ rw ours tt
    | inr foreign ↦ rw foreign tt
  ]

  body-IsFit : (desk : Desk) (o : Option Json) → IsFit desk (checked_body provider claimed o)
  body-IsFit desk none = tt
  body-IsFit desk (some payload) = elim (Bool-cases (claimed payload)) [
    | inl taken ↦ rw taken tt
    | inr free ↦ rw free (parsed-IsFit desk (provider.parse_event payload))
  ]

  received-IsFit : (desk : Desk) (req : Request) → IsFit desk (receive provider claimed req)
  unfolding receive
  received-IsFit desk req =
      elim (Bool-cases (provider.verify_webhook_signature req.header req.raw)) [
        | inl signed ↦ rw signed (body-IsFit desk req.payload)
        | inr forged ↦ rw forged tt
      ]

  went_on-IsServing :
      (i : ℕ) (answer : Option VerifiedTxn) (s : Server) (o : Option Task)
      → get_elem? s.tasks i ≡ o
      → IsServing s
      → IsServing (went_on provider claimed i answer s o)
  went_on-IsServing i answer s none found h = h
  went_on-IsServing i answer s (some task) found h =
      let fit = All-get (IsFit s.desk) s.tasks i task h.fit found in
      let kept = resumed-IsKept s.desk h.sound answer task fit in
      let desk' = (resume answer task s.desk).1 in
      record {
        sound = kept.0;
        fit =
            All-set (IsFit desk') s.tasks i (resume answer task s.desk).0
              (All-grown s.desk desk' kept.1 s.tasks h.fit) kept.2;
      }

  moved :
      (s : Server) (desk' : Desk)
      → IsServing s
      → IsSound desk' × Grows s.desk desk'
      → IsServing (record s { desk = desk' })
  moved s desk' h k = record { sound = k.0; fit = All-grown s.desk desk' k.1 s.tasks h.fit }

  after-IsServing : (e : Event) (s : Server) → IsServing s → IsServing (after provider claimed e s)
  unfolding after
  after-IsServing (create input) s h = moved s _ h (created_lem s.desk input h.sound)
  after-IsServing (arrive req) s h = record {
    sound = h.sound;
    fit = All-append (IsFit s.desk) s.tasks _ h.fit (received-IsFit s.desk req, tt);
  }
  after-IsServing (go_on i answer) s h = went_on-IsServing i answer s (get_elem? s.tasks i) refl h
  after-IsServing restart s h = record { sound = h.sound; fit = tt }
  after-IsServing (wager p a r c) s h =
      moved s _ h (ledger_lem s.desk _ (wager-IsOther p a r c s.desk.ledger) h.sound)
  after-IsServing (winning p a r c) s h =
      moved s _ h (ledger_lem s.desk _ (winning-IsOther p a r c s.desk.ledger) h.sound)
  after-IsServing (withdraw p a r c) s h =
      moved s _ h (ledger_lem s.desk _ (withdraw-IsOther p a r c s.desk.ledger) h.sound)
  after-IsServing (refund p a r c) s h =
      moved s _ h (ledger_lem s.desk _ (refund-IsOther p a r c s.desk.ledger) h.sound)

  -- From a server where the following holds (an empty one is such), whatever deposits are created, webhooks come in, answers the processor gives, restarts and other
  -- uses of the ledger there are, in whatever order the handlers go on: the ledger holds at most one
  -- credit under the reference of a deposit, with the player, the currency and the amount of its
  -- row; it holds exactly that one if the deposit is settled; and no credit under a reference that
  -- has no row. A handler in flight holds a deposit that is a row.
  pub after_all-IsServing :
      (es : List Event) (s : Server) → IsServing s → IsServing (after_all provider claimed es s)
  unfolding after_all
  after_all-IsServing [] s h = h
  after_all-IsServing (e ∷ es) s h =
      after_all-IsServing es (after provider claimed e s) (after-IsServing e s h)
