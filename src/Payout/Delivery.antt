-- ===== src/Payout/Delivery.antt =====
-- The methods of the service in flight, and all that can happen beside them.
use crash_game.Prelude.{ℕ, String, Option, none, some, List, [], ◌∷◌, ◌++◌, get_elem?, set}
use crash_game.Errors.{Json}
use crash_game.Ledger.{Table}
use crash_game.Withdrawals.{Withdrawal, WithdrawalInput, Bank, request}
use crash_game.Payout.{Task, sending, Answer, PayOutProvider, on_webhook, next_row, resume}

-- The tables, and the methods that have begun.
pub record Server : Type 0 where
  pub bank : Bank
  pub tasks : List Task

-- A withdrawal is requested, `initiate` or `onWebhook` begins, `reconcile` begins with the rows that
-- it has listed, a method goes on, the server restarts and loses its methods, or another part of the
-- program writes to the ledger.
pub data Event : Type 0 where
  requested : (reference : String) → WithdrawalInput → Event
  initiate : Withdrawal → (recipient_name : String) → Event
  arrive : Json → Event
  reconcile : List Withdrawal → Event
  go_on : (task : ℕ) → Answer → Event
  restart : Event
  elsewhere : Table → Event

module _ (provider : PayOutProvider) where
  abbrev pub went_on_in : ℕ → Answer → Server → Option Task → Server
  went_on_in i answer s none = s
  went_on_in i answer s (some task) =
      let (task', bank') = resume provider answer task s.bank in
      record { bank = bank'; tasks = set s.tasks i task' }

  unfoldable pub after : Event → Server → Server
  unfolding request on_webhook next_row resume
  after (requested reference input) s = record s { bank = (request reference input s.bank).1 }
  after (initiate w name) s = record s { tasks = s.tasks ++ sending w name ∷ [] }
  after (arrive payload) s = record s { tasks = s.tasks ++ on_webhook provider payload ∷ [] }
  after (reconcile listed) s = record s { tasks = s.tasks ++ next_row listed [] ∷ [] }
  after (go_on i answer) s = went_on_in i answer s (get_elem? s.tasks i)
  after restart s = record s { tasks = [] }
  after (elsewhere ledger) s = record s { bank = record s.bank { ledger = ledger } }

  unfoldable pub after_all : List Event → Server → Server
  unfolding after
  after_all [] s = s
  after_all (e ∷ es) s = after_all es (after e s)
