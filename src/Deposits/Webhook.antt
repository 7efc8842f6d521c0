-- ===== src/Deposits/Webhook.antt =====
-- packages/server/src/http/deposit-webhook.ts: the handler of a collection webhook, cut where it
-- awaits: between two awaits it runs alone, and while it waits the other handlers go on.
use crash_game.Prelude.{
  ℕ, String, starts_with, Bool, true, false, ◌&&◌, Option, none, some, [], ◌∷◌, ◌++◌, str_eq,
  if◌then◌else◌,
}
use crash_game.Prelude.Int.{ℤ, ltb_ℤ}
use crash_game.Prelude.Action.{Result, ok, err}
use crash_game.Errors.{Json}
use crash_game.Ledger.{Table, LedgerError, balance, credit_deposit}
use crash_game.Deposits.{Deposit, Desk, get, mark_settled, mark_failed}

pub data Outcome : Type 0 where
  success failed ignore : Outcome

pub record ParsedEvent : Type 0 where
  pub reference : String
  pub outcome : Outcome
  pub txn_key : String

pub record VerifiedTxn : Type 0 where
  pub status : String
  pub reference : String
  pub amount_minor : Option ℤ
  pub currency : Option String

-- A request with its headers, its raw body, and what `JSON.parse` makes of the body; none: it throws
pub record Request : Type 0 where
  pub header : String → Option String
  pub raw : String
  pub payload : Option Json

-- The processor's part of the interface that runs without waiting; a parser that throws gives none.
pub record PayInProvider : Type 0 where
  pub verify_webhook_signature : (String → Option String) → String → Bool
  pub parse_event : Json → Option ParsedEvent

-- Where a handler waits: for `deposits.get`, `verifyTransaction`, `wallet.deposit`, `markSettled`,
-- `wallet.balance` or `markFailed`; or it has answered, with this status.
pub data Task : Type 0 where
  looking : ParsedEvent → Task
  verifying : ParsedEvent → Deposit → Task
  crediting : ParsedEvent → Deposit → Task
  settling : ParsedEvent → Deposit → Task
  reading : Deposit → Task
  failing : ParsedEvent → Task
  answered : (status : ℕ) → Task

-- `/^game-dep-/.test(evt.reference)`
abbrev pub is_ours : ParsedEvent → Bool
is_ours evt = starts_with evt.reference "game-dep-"

abbrev pub parsed : Option ParsedEvent → Task
parsed none = answered 500
parsed (some evt) = if is_ours evt then looking evt else answered 200

-- `handleEvent` up to `deposits.get`; `claimed` is whether the payouts take the event.
abbrev pub handle_event : PayInProvider → (Json → Bool) → Json → Task
handle_event provider claimed payload =
    if claimed payload then answered 200 else parsed (provider.parse_event payload)

abbrev pub checked_body : PayInProvider → (Json → Bool) → Option Json → Task
checked_body provider claimed none = answered 400
checked_body provider claimed (some payload) = handle_event provider claimed payload

-- The handler from the request to its first wait
unfoldable pub receive : PayInProvider → (Json → Bool) → Request → Task
receive provider claimed req =
    if provider.verify_webhook_signature req.header req.raw
    then checked_body provider claimed req.payload
    else answered 400

-- `v.amountMinor === undefined || v.amountMinor === dep.amountMinor`
abbrev pub amount_ok : Option ℤ → ℤ → Bool
amount_ok none amount = true
amount_ok (some a) amount =
    if ltb_ℤ a amount then false else (if ltb_ℤ amount a then false else true)

abbrev pub currency_ok : Option String → String → Bool
currency_ok none currency = true
currency_ok (some c) currency = str_eq c currency

-- `statusOk && referenceOk && amountOk && currencyOk`
abbrev pub confirms : ParsedEvent → Deposit → VerifiedTxn → Bool
confirms evt dep v =
    str_eq v.status "success"
    && str_eq v.reference evt.reference
    && amount_ok v.amount_minor dep.amount_minor
    && currency_ok v.currency dep.currency

-- After `deposits.get`
abbrev pub looked : ParsedEvent → Option Deposit → Outcome → Task
looked evt none outcome = answered 200
looked evt (some dep) success = verifying evt dep
looked evt (some dep) failed = failing evt
looked evt (some dep) ignore = answered 200

-- After `verifyTransaction`, which answers or throws (none)
abbrev pub verified : ParsedEvent → Deposit → Option VerifiedTxn → Task
verified evt dep none = answered 500
verified evt dep (some v) = if confirms evt dep v then crediting evt dep else answered 200

-- After `wallet.deposit`
abbrev pub credited : ParsedEvent → Deposit → Desk → Result LedgerError ℤ × Table → Task × Desk
credited evt dep desk (ok _, ledger) = (settling evt dep, record desk { ledger = ledger })
credited evt dep desk (err _, ledger) = (answered 500, desk)

-- The handler from the end of a wait to the next; `answer` is the processor's.
unfoldable pub resume : Option VerifiedTxn → Task → Desk → Task × Desk
unfolding get mark_settled mark_failed credit_deposit
resume answer (looking evt) desk = (looked evt (get evt.reference desk) evt.outcome, desk)
resume answer (verifying evt dep) desk = (verified evt dep answer, desk)
resume answer (crediting evt dep) desk =
    credited evt dep desk
      (credit_deposit dep.player_id dep.amount_minor dep.currency (some evt.reference) desk.ledger)
resume answer (settling evt dep) desk =
    let (flipped, desk') = mark_settled evt.reference desk in
    (if flipped then reading dep else answered 200, desk')
resume answer (reading dep) desk = (
  answered 200,
  record desk {
    notices =
        desk.notices
        ++ (dep.player_id, balance dep.player_id dep.currency desk.ledger, dep.currency) ∷ [];
  },
)
resume answer (failing evt) desk = (answered 200, mark_failed evt.reference desk)
resume answer (answered status) desk = (answered status, desk)
