-- ===== src/Payout.antt =====
-- packages/server/src/payments/withdrawals.ts: the class WithdrawalService, cut where it awaits:
-- between two awaits a method runs alone, and while it waits the others go on. The provider is
-- reached over HTTP: its answers are inputs.
pub mod Delivery
pub mod Sound
pub mod Steps
pub mod Sure
pub mod Forged
pub mod Initiate
use crash_game.Prelude.{
  String, concat, starts_with, truthy, Bool, true, false, Option, none, some, or_else, List, [],
  ◌∷◌, ◌++◌, if◌then◌else◌,
}
use crash_game.Prelude.Int.{ℤ}
use crash_game.Prelude.Action.{Result, ok, err}
use crash_game.Errors.{Json}
use crash_game.Withdrawals.{
  Withdrawal, WithdrawalError, Bank, get, is_open, coalesce, mark_processing, mark_succeeded,
  fail_and_refund,
}

pub data PayoutStatus : Type 0 where
  pending success failed : PayoutStatus

pub record PayoutInput : Type 0 where
  pub reference : String
  pub currency : String
  pub amount_minor : ℤ
  pub phone : String
  pub recipient_name : String
  pub reason : String

pub record PayoutResult : Type 0 where
  pub provider_txn_id : Option String
  pub status : PayoutStatus

-- What `payout` throws: a rejection, or an error after which the outcome is not known.
pub data PayoutError : Type 0 where
  rejected : (message : String) → PayoutError
  unknown : PayoutError

pub record PayoutEvent : Type 0 where
  pub reference : String
  pub provider_txn_id : Option String
  pub status : Option PayoutStatus

-- The provider's part of the interface that runs without waiting.
pub record PayOutProvider : Type 0 where
  pub parse_payout_event : Json → Option PayoutEvent
  pub webhook_signed : Bool

-- What the provider answers to the call that a method waits for.
pub record Answer : Type 0 where
  pub payout : Result PayoutError PayoutResult
  pub lookup_payout : Option PayoutStatus

pub data WebhookAnswer : Type 0 where
  ignored applied deferred : WebhookAnswer

-- The method that called `apply`, and what it goes on with.
pub data Caller : Type 0 where
  by_initiate : Withdrawal → Caller
  by_webhook : Caller
  by_reconcile : (rest : List Withdrawal) (needs_review : List String) → Caller

-- Where a method waits: `initiate` for `payout`, for `failAndRefund` in its `catch` and for the last
-- `get`; `onWebhook` for `get`, for `lookupPayout` and for the call that closes it; `reconcile` for
-- `lookupPayout`; each of them in `apply`. Or it has ended.
pub data Task : Type 0 where
  sending : Withdrawal → (recipient_name : String) → Task
  refusing : Withdrawal → (message : String) → Task
  reading : Withdrawal → Task
  initiated : Withdrawal → Task
  loading : PayoutEvent → Task
  confirming : PayoutEvent → Withdrawal → (txn_id : String) → Task
  marking_succeeded : (reference : String) → (txn_id : Option String) → Task
  marking_processing : (reference : String) → (txn_id : Option String) → Task
  answered : WebhookAnswer → Task
  checking :
      Withdrawal → (txn_id : String) (rest : List Withdrawal) (needs_review : List String) → Task
  reconciled : (needs_review : List String) → Task
  applying :
      (reference : String)
      → PayoutStatus
      → (txn_id : Option String) → (source : String) → Caller
      → Task
  thrown : WithdrawalError → Task

-- The request that `initiate` sends.
abbrev pub payout_input : Withdrawal → String → PayoutInput
payout_input w recipient_name = record {
  reference = w.reference;
  currency = w.currency;
  amount_minor = w.amount_minor;
  phone = w.phone;
  recipient_name = recipient_name;
  reason = "Withdrawal";
}

-- `WITHDRAWAL_REF_PREFIX`
abbrev pub withdrawal_ref_prefix : String
withdrawal_ref_prefix = "game-wd-"

abbrev pub parsed : Option PayoutEvent → Task
parsed none = answered ignored
parsed (some evt) =
    if starts_with evt.reference withdrawal_ref_prefix then loading evt else answered ignored

-- `onWebhook` up to its first wait
unfoldable pub on_webhook : PayOutProvider → Json → Task
on_webhook provider payload = parsed (provider.parse_payout_event payload)

-- The loop of `reconcile` up to its next wait
unfoldable pub next_row : List Withdrawal → (needs_review : List String) → Task
next_row [] needs_review = reconciled needs_review
next_row (w ∷ rest) needs_review = elim (truthy w.provider_txn_id) [
  | some txn_id ↦ checking w txn_id rest needs_review
  | none ↦ next_row rest (needs_review ++ w.reference ∷ [])
]

-- After `payout`
abbrev pub sent : Withdrawal → Result PayoutError PayoutResult → Task
sent w (ok r) = applying w.reference r.status r.provider_txn_id "provider response" (by_initiate w)
sent w (err (rejected message)) = refusing w message
sent w (err unknown) = reading w

-- `onWebhook` when no lookup has confirmed the event
abbrev pub unconfirmed :
    (webhook_signed : Bool) → Option PayoutStatus → (reference : String) → Option String → Task
unconfirmed true (some success) reference txn_id = marking_succeeded reference txn_id
unconfirmed webhook_signed (some pending) reference txn_id = marking_processing reference txn_id
unconfirmed webhook_signed status reference txn_id = answered deferred

-- After `lookupPayout` in `onWebhook`
abbrev pub confirmed :
    PayOutProvider → PayoutEvent → Withdrawal → String → Option PayoutStatus → Task
confirmed provider evt w txn_id (some status) =
    applying w.reference status (some txn_id) "confirmed lookup" by_webhook
confirmed provider evt w txn_id none =
    unconfirmed provider.webhook_signed evt.status w.reference (some txn_id)

-- `txnId ? await … : null`
abbrev pub lookup_first :
    PayOutProvider → PayoutEvent → Withdrawal → Option String → Option String → Task
lookup_first provider evt w txn_id (some t) = confirming evt w t
lookup_first provider evt w txn_id none =
    unconfirmed provider.webhook_signed evt.status w.reference txn_id

-- After `get` in `onWebhook`
abbrev pub loaded : PayOutProvider → PayoutEvent → Option Withdrawal → Task
loaded provider evt none = answered ignored
loaded provider evt (some w) =
    let txn_id = coalesce evt.provider_txn_id w.provider_txn_id in
    if is_open w.status
    then lookup_first provider evt w txn_id (truthy txn_id)
    else answered ignored

-- After `lookupPayout` in `reconcile`
abbrev pub checked : Withdrawal → List Withdrawal → List String → Option PayoutStatus → Task
checked w rest needs_review (some success) =
    applying w.reference success w.provider_txn_id "reconciliation" (by_reconcile rest needs_review)
checked w rest needs_review (some failed) =
    applying w.reference failed w.provider_txn_id "reconciliation" (by_reconcile rest needs_review)
checked w rest needs_review _ = next_row rest (needs_review ++ w.reference ∷ [])

-- `apply`, in which one method of the repository is called.
unfoldable pub apply :
    String
    → PayoutStatus
    → Option String
    → (source : String) → Bank
    → Result WithdrawalError (Unit {0}) × Bank
unfolding mark_succeeded mark_processing fail_and_refund
apply reference success txn_id source bank = (ok tt, (mark_succeeded reference txn_id bank).1)
apply reference pending txn_id source bank = (ok tt, (mark_processing reference txn_id bank).1)
apply reference failed txn_id source bank =
    let (r, bank') =
      fail_and_refund reference (concat (concat "payout failed (" source) ")") bank in
    (elim r [ ok _ ↦ ok tt | err e ↦ err e ], bank')

-- After `apply`: `initiate` catches what it throws.
abbrev pub went_on : Caller → Result WithdrawalError (Unit {0}) → Task
went_on (by_initiate w) r = reading w
went_on by_webhook (ok _) = answered applied
went_on (by_reconcile rest needs_review) (ok _) = next_row rest needs_review
went_on by_webhook (err e) = thrown e
went_on (by_reconcile rest needs_review) (err e) = thrown e

abbrev pub refused : Withdrawal → Result WithdrawalError Bool → Task
refused w (ok _) = reading w
refused w (err e) = thrown e

-- A method from the end of a wait to the next
unfoldable pub resume : PayOutProvider → Answer → Task → Bank → Task × Bank
unfolding get apply mark_succeeded mark_processing fail_and_refund
resume provider answer (sending w recipient_name) bank = (sent w answer.payout, bank)
resume provider answer (refusing w message) bank =
    let (r, bank') = fail_and_refund w.reference message bank in (refused w r, bank')
resume provider answer (reading w) bank = (initiated (or_else (get w.reference bank) w), bank)
resume provider answer (initiated w) bank = (initiated w, bank)
resume provider answer (loading evt) bank = (loaded provider evt (get evt.reference bank), bank)
resume provider answer (confirming evt w txn_id) bank =
    (confirmed provider evt w txn_id answer.lookup_payout, bank)
resume provider answer (marking_succeeded reference txn_id) bank =
    (answered applied, (mark_succeeded reference txn_id bank).1)
resume provider answer (marking_processing reference txn_id) bank =
    (answered applied, (mark_processing reference txn_id bank).1)
resume provider answer (answered a) bank = (answered a, bank)
resume provider answer (checking w txn_id rest needs_review) bank =
    (checked w rest needs_review answer.lookup_payout, bank)
resume provider answer (reconciled needs_review) bank = (reconciled needs_review, bank)
resume provider answer (applying reference status txn_id source caller) bank =
    let (r, bank') = apply reference status txn_id source bank in (went_on caller r, bank')
resume provider answer (thrown e) bank = (thrown e, bank)
