-- ===== src/Examples/Withdrawn.antt =====
-- Withdrawals that are requested, paid and refunded, at concrete inputs.
use crash_game.Prelude.{◌≡◌, refl, false, none, some, List, [], ◌∷◌}
use crash_game.Prelude.Int.{pos}
use crash_game.Prelude.Action.{ok}
use crash_game.Ledger.{Kind}
use crash_game.Withdrawals.{
  success, Withdrawal, Bank, WithdrawalInput, get, fail_and_refund, WithdrawalCall, request_call,
  processing_call, succeeded_call, refund_call, after_calls,
}
use crash_game.Withdrawals.Conserved.{funds, after_calls-funds}
use crash_game.Withdrawals.Final.{fail_and_refund-once}

abbrev cash_out : WithdrawalInput
cash_out = record {
  player_id = "p1";
  currency = "KES";
  amount_minor = pos 300;
  phone = "254700000001";
  provider = "mpesa";
}

abbrev paid : Withdrawal
paid = record {
  reference = "w1";
  player_id = "p1";
  currency = "KES";
  amount_minor = pos 300;
  phone = "254700000001";
  provider = "mpesa";
  provider_txn_id = some "t1";
  status = success;
  failure_reason = none;
}

abbrev vault : Bank
vault = record {
  ledger =
      record {
        player_id = "p1";
        amount_minor = pos 500;
        kind = Kind.deposit;
        ref = some "d1";
        currency = "KES";
      }
      ∷ [];
  withdrawals = paid ∷ [];
}

abbrev payouts_made : List WithdrawalCall
payouts_made =
    request_call "w2" cash_out
    ∷ processing_call "w2" (some "t2")
    ∷ refund_call "w2" "TIMEOUT"
    ∷ refund_call "w2" "TIMEOUT"
    ∷ refund_call "w1" "LATE"
    ∷ request_call "w3" cash_out
    ∷ succeeded_call "w3" none
    ∷ request_call "w4" cash_out
    ∷ []

after_calls-funds_example :
    funds "p1" "KES" (after_calls payouts_made vault) ≡ funds "p1" "KES" vault
after_calls-funds_example = after_calls-funds "p1" "KES" payouts_made vault

fail_and_refund-once_example :
    let later = after_calls payouts_made vault in
    (get "w1" later ≡ some paid) × (fail_and_refund "w1" "LATE" later ≡ (ok false, later))
unfolding get
fail_and_refund-once_example = fail_and_refund-once "w1" paid vault (refl, refl) payouts_made "LATE"
