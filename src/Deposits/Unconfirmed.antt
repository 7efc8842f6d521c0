-- ===== src/Deposits/Unconfirmed.antt =====
-- No deposit is credited that the processor has not confirmed.
use crash_game.Prelude.{
  ℕ, String, ◌≡◌, refl, ap, ◌∙◌, inl, inr, Bool, true, false, ◌&&◌, Option, none, some, List, [],
  ◌∷◌, str_eq, eq_iff, arith, Bool-cases, All, All-append, All-set, All-get, get_elem?,
  if◌then◌else◌,
}
use mathlib.Core.List.{append-nil}
use crash_game.Prelude.Int.{ℤ, pos, ltb_ℤ}
use crash_game.Prelude.Action.{Result, ok, err}
use crash_game.Errors.{Json}
use crash_game.Ledger.{Kind, Entry, Table, LedgerError, is_deposit_of, credit_deposit}
use crash_game.Ledger
use crash_game.Ledger.Overdraw.{deposit_table}
use crash_game.Prelude.{any, not}
use crash_game.Deposits.{
  Deposit, Desk, get, create_beside, create_pending, mark_settled, mark_failed, DepositInput,
}
use crash_game.Deposits.Webhook.{
  Outcome, ParsedEvent, VerifiedTxn, Request, PayInProvider, Task, looking, verifying, crediting,
  settling, reading, failing, answered, parsed, checked_body, is_ours, receive, looked, verified,
  confirms, credited, resume,
}
use crash_game.Deposits.Delivery.{
  Server, Event, create, arrive, go_on, restart, wager, winning, withdraw, refund, went_on, after,
  after_all,
}
use crash_game.Deposits.Credited.{credits, credits-append}
use crash_game.Deposits.Steps.{
  credits_lem, wager-IsOther, winning-IsOther, withdraw-IsOther, refund-IsOther,
}

module _ (r : String) where
  -- Not about to credit the reference.
  abbrev pub IsIdle : Task → Type 0
  IsIdle (crediting evt d) = str_eq evt.reference r ≡ false
  IsIdle (looking evt) = Unit
  IsIdle (verifying evt d) = Unit
  IsIdle (settling evt d) = Unit
  IsIdle (reading d) = Unit
  IsIdle (failing evt) = Unit
  IsIdle (answered status) = Unit

  -- An answer that does not say that the money under the reference has landed.
  abbrev pub IsSilent : Option VerifiedTxn → Type 0
  IsSilent none = Unit
  IsSilent (some v) = (str_eq v.status "success" && str_eq v.reference r) ≡ false

  abbrev pub IsUnconfirming : Event → Type 0
  IsUnconfirming (go_on i answer) = IsSilent answer
  IsUnconfirming (create input) = Unit
  IsUnconfirming (arrive req) = Unit
  IsUnconfirming restart = Unit
  IsUnconfirming (wager p a ref c) = Unit
  IsUnconfirming (winning p a ref c) = Unit
  IsUnconfirming (withdraw p a ref c) = Unit
  IsUnconfirming (refund p a ref c) = Unit

  verified-IsIdle :
      (evt : ParsedEvent) (d : Deposit) (answer : Option VerifiedTxn)
      → IsSilent answer
      → IsIdle (verified evt d answer)
  verified-IsIdle evt d none h = tt
  verified-IsIdle evt d (some v) h = elim (Bool-cases (confirms evt d v)) [
    | inl agrees ↦ rw agrees (
        ground (
          arith,
          h,
          agrees,
          eq_iff v.reference evt.reference,
          eq_iff v.reference r,
          eq_iff evt.reference r,
        ))
    | inr differs ↦ rw differs tt
  ]

  looked-IsIdle :
      (evt : ParsedEvent) (o : Option Deposit) (outcome : Outcome) → IsIdle (looked evt o outcome)
  looked-IsIdle evt none outcome = tt
  looked-IsIdle evt (some d) Outcome.success = tt
  looked-IsIdle evt (some d) Outcome.failed = tt
  looked-IsIdle evt (some d) Outcome.ignore = tt

  appended_apart :
      (q : String) (p : String) (a : ℤ) (c : String) (t : Table)
      → str_eq q r ≡ false
      → (positive fresh : Bool)
      → credits r (
          Ledger.Overdraw.guarded positive fresh t (record {
            player_id = p;
            currency = c;
            amount_minor = a;
            kind = Kind.deposit;
            ref = some q;
          }))
        ≡ credits r t
  appended_apart q p a c t apart true true =
      credits-append r t _ ∙ rw apart (append-nil (credits r t))
  appended_apart q p a c t apart true false = refl
  appended_apart q p a c t apart false true = refl
  appended_apart q p a c t apart false false = refl

  credit_apart :
      (evt : ParsedEvent) (d : Deposit) (desk : Desk)
      → str_eq evt.reference r ≡ false
      → credits r
          (credit_deposit d.player_id d.amount_minor d.currency (some evt.reference) desk.ledger).1
        ≡ credits r desk.ledger
  credit_apart evt d desk apart =
      unfold Ledger.Overdraw.after_call in
      (ap (credits r)
          (deposit_table d.player_id d.amount_minor d.currency desk.ledger (some evt.reference))
        ∙ appended_apart evt.reference d.player_id d.amount_minor d.currency desk.ledger apart
            (ltb_ℤ (pos 0) d.amount_minor)
            (not (any (is_deposit_of (some evt.reference)) desk.ledger)))

  abbrev IsStill : Desk → Task × Desk → Type 0
  IsStill desk (task', desk') = IsIdle task' × (credits r desk'.ledger ≡ credits r desk.ledger)

  credited-IsStill :
      (evt : ParsedEvent) (d : Deposit) (desk : Desk) (x : Result LedgerError ℤ × Table)
      → credits r x.1 ≡ credits r desk.ledger
      → IsStill desk (credited evt d desk x)
  credited-IsStill evt d desk (ok b, t) h = (tt, h)
  credited-IsStill evt d desk (err e, t) h = (tt, refl)

  resumed-IsStill :
      (answer : Option VerifiedTxn) (task : Task) (desk : Desk)
      → IsSilent answer
      → IsIdle task
      → IsStill desk (resume answer task desk)
  unfolding resume
  resumed-IsStill answer (looking evt) desk a h =
      (looked-IsIdle evt (get evt.reference desk) evt.outcome, refl)
  resumed-IsStill answer (verifying evt d) desk a h = (verified-IsIdle evt d answer a, refl)
  resumed-IsStill answer (crediting evt d) desk a h =
      credited-IsStill evt d desk _ (credit_apart evt d desk h)
  resumed-IsStill answer (settling evt d) desk a h =
      (settled_idle (mark_settled evt.reference desk).0 d, unfold mark_settled in refl)
    where
      settled_idle : (b : Bool) (d : Deposit) → IsIdle (if b then reading d else answered 200)
      settled_idle true d = tt
      settled_idle false d = tt
  resumed-IsStill answer (reading d) desk a h = (tt, refl)
  resumed-IsStill answer (failing evt) desk a h = (tt, unfold mark_failed in refl)
  resumed-IsStill answer (answered status) desk a h = (tt, refl)

  module _ (provider : PayInProvider) (claimed : Json → Bool) where
    parsed-IsIdle : (o : Option ParsedEvent) → IsIdle (parsed o)
    parsed-IsIdle none = tt
    parsed-IsIdle (some evt) = elim (Bool-cases (is_ours evt)) [
      | inl ours ↦ rw ours tt
      | inr foreign ↦ rw foreign tt
    ]

    body-IsIdle : (o : Option Json) → IsIdle (checked_body provider claimed o)
    body-IsIdle none = tt
    body-IsIdle (some payload) = elim (Bool-cases (claimed payload)) [
      | inl taken ↦ rw taken tt
      | inr free ↦ rw free (parsed-IsIdle (provider.parse_event payload))
    ]

    received-IsIdle : (req : Request) → IsIdle (receive provider claimed req)
    unfolding receive
    received-IsIdle req = elim (Bool-cases (provider.verify_webhook_signature req.header req.raw)) [
      | inl signed ↦ rw signed (body-IsIdle req.payload)
      | inr forged ↦ rw forged tt
    ]

    created_still :
        (input : DepositInput) (desk : Desk) (o : Option Deposit)
        → (create_beside input desk o).1.ledger ≡ desk.ledger
    created_still input desk none = refl
    created_still input desk (some d) = refl

    abbrev IsQuiet : Server → Server → Type 0
    IsQuiet s t = All IsIdle t.tasks × (credits r t.desk.ledger ≡ credits r s.desk.ledger)

    went_on-IsQuiet :
        (i : ℕ) (answer : Option VerifiedTxn) (s : Server) (o : Option Task)
        → IsSilent answer
        → get_elem? s.tasks i ≡ o
        → All IsIdle s.tasks
        → IsQuiet s (went_on provider claimed i answer s o)
    went_on-IsQuiet i answer s none a found h = (h, refl)
    went_on-IsQuiet i answer s (some task) a found h =
        let kept = resumed-IsStill answer task s.desk a (All-get IsIdle s.tasks i task h found) in
        (All-set IsIdle s.tasks i (resume answer task s.desk).0 h kept.0, kept.1)

    after-IsQuiet :
        (e : Event) (s : Server)
        → IsUnconfirming e
        → All IsIdle s.tasks
        → IsQuiet s (after provider claimed e s)
    unfolding after
    after-IsQuiet (create input) s u h = (
      h,
      unfold create_pending in
          ap (credits r) (created_still input s.desk (get input.reference s.desk)),
    )
    after-IsQuiet (arrive req) s u h =
        (All-append IsIdle s.tasks _ h (received-IsIdle req, tt), refl)
    after-IsQuiet (go_on i answer) s u h = went_on-IsQuiet i answer s (get_elem? s.tasks i) u refl h
    after-IsQuiet restart s u h = (tt, refl)
    after-IsQuiet (wager p a ref c) s u h =
        (h, credits_lem r s.desk.ledger _ (wager-IsOther p a ref c s.desk.ledger))
    after-IsQuiet (winning p a ref c) s u h =
        (h, credits_lem r s.desk.ledger _ (winning-IsOther p a ref c s.desk.ledger))
    after-IsQuiet (withdraw p a ref c) s u h =
        (h, credits_lem r s.desk.ledger _ (withdraw-IsOther p a ref c s.desk.ledger))
    after-IsQuiet (refund p a ref c) s u h =
        (h, credits_lem r s.desk.ledger _ (refund-IsOther p a ref c s.desk.ledger))

    -- If no answer of the processor says that the transaction with the reference has succeeded, and
    -- no handler had such an answer before, then nothing is credited under the reference: whatever
    -- webhooks come in, signed or forged, and in whatever order the handlers go on.
    pub after_all-credits :
        (es : List Event) (s : Server)
        → All IsUnconfirming es
        → All IsIdle s.tasks
        → credits r (after_all provider claimed es s).desk.ledger ≡ credits r s.desk.ledger
    unfolding after_all
    after_all-credits [] s u h = refl
    after_all-credits (e ∷ es) s u h =
        let step = after-IsQuiet e s u.0 h in
        after_all-credits es (after provider claimed e s) u.1 step.0 ∙ step.1
