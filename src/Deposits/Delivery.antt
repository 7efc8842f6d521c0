-- ===== src/Deposits/Delivery.antt =====
-- The webhook handlers in flight, and all that can happen beside them.
use crash_game.Prelude.{ℕ, String, Bool, Option, none, some, List, [], ◌∷◌, ◌++◌, get_elem?, set}
use crash_game.Prelude.Int.{ℤ}
use crash_game.Errors.{Json}
use crash_game.Ledger.{Kind, place_bet, debit_in_tx, credit_win, credit_in_tx}
use crash_game.Deposits.{Desk, DepositInput, create_pending}
use crash_game.Deposits.Webhook.{Task, Request, VerifiedTxn, PayInProvider, receive, resume}

-- The desk, and the handlers that have begun.
pub record Server : Type 0 where
  pub desk : Desk
  pub tasks : List Task

-- A deposit is created, a webhook comes in, a handler goes on, the server restarts and loses its
-- handlers, or another part of the program uses the ledger.
pub data Event : Type 0 where
  create : DepositInput → Event
  arrive : Request → Event
  go_on : (task : ℕ) → Option VerifiedTxn → Event
  restart : Event
  wager : (player_id : String) (amount_minor : ℤ) (ref currency : String) → Event
  winning : (player_id : String) (amount_minor : ℤ) (ref currency : String) → Event
  withdraw : (player_id : String) (amount_minor : ℤ) (ref currency : String) → Event
  refund : (player_id : String) (amount_minor : ℤ) (ref currency : String) → Event

module _ (provider : PayInProvider) (claimed : Json → Bool) where
  abbrev pub went_on : ℕ → Option VerifiedTxn → Server → Option Task → Server
  went_on i answer s none = s
  went_on i answer s (some task) =
      let (task', desk') = resume answer task s.desk in
      record { desk = desk'; tasks = set s.tasks i task' }

  unfoldable pub after : Event → Server → Server
  unfolding create_pending receive resume place_bet credit_win debit_in_tx credit_in_tx
  after (create input) s = record s { desk = (create_pending input s.desk).1 }
  after (arrive req) s = record s { tasks = s.tasks ++ receive provider claimed req ∷ [] }
  after (go_on i answer) s = went_on i answer s (get_elem? s.tasks i)
  after restart s = record s { tasks = [] }
  after (wager p a r c) s = record s {
    desk = record s.desk { ledger = (place_bet p a r c s.desk.ledger).1 };
  }
  after (winning p a r c) s = record s {
    desk = record s.desk { ledger = (credit_win p a r c s.desk.ledger).1 };
  }
  after (withdraw p a r c) s = record s {
    desk = record s.desk { ledger = (debit_in_tx p a r c Kind.withdrawal s.desk.ledger).1 };
  }
  after (refund p a r c) s = record s {
    desk = record s.desk { ledger = (credit_in_tx p a Kind.adjust r c s.desk.ledger).1 };
  }

  unfoldable pub after_all : List Event → Server → Server
  unfolding after
  after_all [] s = s
  after_all (e ∷ es) s = after_all es (after e s)
