-- ===== src/Examples/Deposited.antt =====
-- Deposits and their webhooks, at concrete inputs.
use crash_game.Prelude.{
  String, ◌≡◌, refl, false, none, some, List, [], ◌∷◌, ◌▸◌, Bool, Bool-cases, inl, inr,
}
use crash_game.Prelude.Int.{pos}
use crash_game.Errors.{Json}
use crash_game.Deposits.{DepositStatus, Deposit, Desk, DepositInput, get, has_reference}
use crash_game.Deposits.Webhook.{Outcome, ParsedEvent, VerifiedTxn, Request, PayInProvider, receive}
use crash_game.Deposits.Delivery.{Server, Event, create, arrive, go_on, restart, wager, after_all}
use crash_game.Deposits.Credited.{IsSound, credits}
use crash_game.Deposits.Reached.{IsServing, after_all-IsServing}
use crash_game.Deposits.Unconfirmed.{after_all-credits}
use crash_game.Deposits.Settling.{IsDone, run_handler, run_handler-IsDone}

abbrev landed : ParsedEvent
landed = record { reference = "game-dep-1"; outcome = Outcome.success; txn_key = "t1" }

abbrev processor : PayInProvider
processor = record {
  verify_webhook_signature = λ header raw. Bool.true;
  parse_event = λ payload. some landed;
}

abbrev unclaimed : Json → Bool
unclaimed payload = false

abbrev webhook : Request
webhook = record { header = λ name. none; raw = "null"; payload = some Json.null }

abbrev ticket : DepositInput
ticket = record {
  reference = "game-dep-1";
  player_id = "p1";
  currency = "KES";
  amount_minor = pos 700;
}

abbrev waiting : Deposit
waiting = record {
  reference = "game-dep-1";
  player_id = "p1";
  currency = "KES";
  amount_minor = pos 700;
  status = DepositStatus.pending;
}

abbrev proof_of : String → VerifiedTxn
proof_of status = record {
  status = status;
  reference = "game-dep-1";
  amount_minor = some (pos 700);
  currency = none;
}

abbrev empty_server : Server
empty_server = record { desk = record { ledger = []; deposits = []; notices = [] }; tasks = [] }

-- Two webhooks for one deposit, a restart between the credit and the settling, and a bet.
abbrev schedule : List Event
schedule =
    create ticket
    ∷ arrive webhook
    ∷ arrive webhook
    ∷ go_on 0 none
    ∷ go_on 0 (some (proof_of "success"))
    ∷ go_on 0 none
    ∷ go_on 1 none
    ∷ restart
    ∷ arrive webhook
    ∷ go_on 0 none
    ∷ go_on 0 (some (proof_of "success"))
    ∷ wager "p1" (pos 100) "b1" "KES"
    ∷ go_on 0 none
    ∷ go_on 0 none
    ∷ []

after_all-IsServing_example : IsServing (after_all processor unclaimed schedule empty_server)
after_all-IsServing_example =
    after_all-IsServing processor unclaimed schedule empty_server
      (record { sound = λ r. refl; fit = tt })

abbrev doubtful : List Event
doubtful =
    create ticket
    ∷ arrive webhook
    ∷ go_on 0 none
    ∷ go_on 0 (some (proof_of "pending"))
    ∷ arrive webhook
    ∷ go_on 1 none
    ∷ go_on 1 none
    ∷ []

after_all-credits_example :
    credits "game-dep-1" (after_all processor unclaimed doubtful empty_server).desk.ledger
    ≡ credits "game-dep-1" empty_server.desk.ledger
after_all-credits_example =
    after_all-credits "game-dep-1" processor unclaimed doubtful empty_server
      (tt ▸ tt ▸ tt ▸ refl ▸ tt ▸ tt ▸ tt ▸ tt) tt

abbrev counter : Desk
counter = record { ledger = []; deposits = waiting ∷ []; notices = [] }

run_handler-IsDone_example :
    IsDone landed waiting
      (proof_of "success")
      counter
      (run_handler 5 (some (proof_of "success")) (receive processor unclaimed webhook, counter))
unfolding get
run_handler-IsDone_example =
    run_handler-IsDone processor unclaimed webhook Json.null landed waiting (proof_of "success")
      counter counter-IsSound refl refl refl refl refl refl refl refl refl refl
  where
    counter-IsSound : IsSound counter
    counter-IsSound r = elim (Bool-cases (has_reference r waiting)) [
      | inl here ↦ rw here (inr (refl, λ e. cc))
      | inr there ↦ rw there refl
    ]
