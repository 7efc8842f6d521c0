-- ===== src/Examples/Paidout.antt =====
-- Payouts that land, and one that a webhook makes fail, at concrete inputs.
use crash_game.Prelude.{
  ◌≡◌, refl, String, Bool, false, str_eq, if◌then◌else◌, some, none, List, [], ◌∷◌, arith,
}
use crash_game.Prelude.Int.{pos, ◌+ℤ◌}
use crash_game.Prelude.Action.{ok, err}
use crash_game.Errors.{Json}
use crash_game.Ledger.{Kind, balance, debit_in_tx}
use crash_game.Withdrawals
use crash_game.Withdrawals.{
  Withdrawal, Bank, WithdrawalInput, get, set_row, request, mark_processing, mark_succeeded,
  fail_and_refund,
}
use crash_game.Withdrawals.Conserved.{is_failed}
use crash_game.Payout.{
  pending, success, failed, unknown, PayoutEvent, PayOutProvider, Answer, sending, initiated,
  on_webhook, next_row, apply, resume,
}
use crash_game.Payout.Delivery.{Server, Event, requested, initiate, arrive, go_on, after, after_all}
use crash_game.Payout.Sure.{after_all-lands}
use crash_game.Payout.Forged.{handled, handled-refunds}
use crash_game.Payout.Initiate.{three_waits, initiate-ends}

abbrev landing : String → Bool
landing reference = str_eq reference "game-wd-1"

abbrev owner_of : String → String
owner_of txn_id = if str_eq txn_id "t1" then "game-wd-1" else "game-wd-2"

abbrev event : PayoutEvent
event = record { reference = "game-wd-1"; provider_txn_id = some "t1"; status = some success }

abbrev forged : PayoutEvent
forged = record event { provider_txn_id = some "t2"; status = none }

abbrev provider_of : PayoutEvent → PayOutProvider
provider_of evt = record { parse_payout_event = λ _. some evt; webhook_signed = false }

abbrev wish : WithdrawalInput
wish = record {
  player_id = "p1";
  currency = "KES";
  amount_minor = pos 300;
  phone = "254700000001";
  provider = "maplerad";
}

abbrev row_in : Withdrawals.WithdrawalStatus → Withdrawal
row_in status = record {
  reference = "game-wd-1";
  player_id = "p1";
  currency = "KES";
  amount_minor = pos 300;
  phone = "254700000001";
  provider = "maplerad";
  provider_txn_id = some "t1";
  status = status;
  failure_reason = none;
}

abbrev empty : Bank
empty = record {
  ledger =
      record {
        player_id = "p1";
        currency = "KES";
        amount_minor = pos 500;
        kind = Kind.deposit;
        ref = none;
      }
      ∷ [];
  withdrawals = [];
}

abbrev on_its_way : Bank
on_its_way = record empty { withdrawals = row_in Withdrawals.processing ∷ [] }

abbrev says : Answer
says = record {
  payout = ok (record { provider_txn_id = some "t1"; status = pending });
  lookup_payout = some success;
}

abbrev denies : Answer
denies = record says { payout = err unknown; lookup_payout = some failed }

abbrev day : List Event
day =
    requested "game-wd-1" wish
    ∷ initiate (row_in Withdrawals.pending) "Ann"
    ∷ go_on 0 says
    ∷ go_on 0 says
    ∷ arrive Json.null
    ∷ go_on 1 says
    ∷ go_on 1 says
    ∷ go_on 1 says
    ∷ []

abbrev start : Server
start = record { bank = empty; tasks = [] }

after_all-lands_example : is_failed Withdrawals.success ≡ false
unfolding after_all after request on_webhook resume next_row apply mark_processing mark_succeeded
    fail_and_refund get set_row debit_in_tx balance ◌+ℤ◌
after_all-lands_example =
    after_all-lands landing owner_of (provider_of event) day start
      (record { rows = tt; tasks = tt })
      (tt, (tt, ((λ h. ground arith, refl), (tt, (refl, (tt, (λ h. ground arith, (tt, tt))))))))
      "game-wd-1" (row_in Withdrawals.success) refl refl

handled-refunds_example :
    balance "p1" "KES" (handled (provider_of forged) denies Json.null on_its_way).1.ledger
    ≡ balance "p1" "KES" on_its_way.ledger +ℤ pos 300
unfolding get
handled-refunds_example =
    handled-refunds (provider_of forged) denies Json.null on_its_way forged
      (row_in Withdrawals.processing) "t2" refl refl refl refl refl refl (ground arith) refl

initiate-ends_example :
    (x : Withdrawal) × (three_waits
        (provider_of event)
        denies
        (sending (row_in Withdrawals.pending) "Ann")
        empty
        empty
        empty
      ≡ initiated x)
unfolding get
initiate-ends_example =
    initiate-ends (provider_of event) (row_in Withdrawals.pending) "Ann" denies empty empty empty
      (λ x there. ground arith)
