-- ===== src/Payout/Sure.antt =====
-- A payout that lands is never refunded, whatever is in flight.
use crash_game.Prelude.{
  ◌≡◌, refl, ap, ◌∙◌, ℕ, String, Bool, true, false, Option, none, some, List, [], ◌∷◌, ◌++◌,
  get_elem?, All, All-append, All-set, All-get,
}
use crash_game.Withdrawals.{Withdrawal, Bank, get}
use crash_game.Withdrawals.Conserved.{is_failed}
use crash_game.Payout.{
  PayOutProvider, Answer, Task, sending, refusing, reading, initiated, loading, confirming,
  marking_succeeded, marking_processing, answered, checking, reconciled, applying, thrown,
  on_webhook, resume,
}
use crash_game.Payout.Delivery.{
  Server, Event, requested, initiate, arrive, reconcile, go_on, restart, elsewhere, went_on_in,
  after, after_all,
}
use crash_game.Payout.Sound.{
  IsOwn, IsSane, IsSound, mark_processing-IsSane, mark_succeeded-IsSane, fail_and_refund-IsSane,
  request-IsSane, get-IsSane,
}
use crash_game.Payout.Steps.{
  get-reference, IsHonest, IsOwnEvent, parsed-IsSound, next_row-IsSound, sent-IsSound,
  confirmed-IsSound, loaded-IsSound, checked-IsSound, went_on-IsSound, refused-IsSound,
  apply-IsSane,
}

module _ (landed : String → Bool) (owner : String → String) (provider : PayOutProvider) where
  abbrev pub IsHonestTask : Answer → Option Task → Type 0
  IsHonestTask answer none = Unit
  IsHonestTask answer (some task) = IsHonest landed owner provider answer task

  -- What is asked of each event: a webhook's transaction is one of its reference, `reconcile` lists
  -- rows of the table, and an answer is true.
  abbrev pub IsFair : Event → Server → Type 0
  IsFair (arrive payload) s = IsOwnEvent landed owner provider (provider.parse_payout_event payload)
  IsFair (reconcile listed) s = All (λ w. get w.reference s.bank ≡ some w) listed
  IsFair (go_on i answer) s = IsHonestTask answer (get_elem? s.tasks i)
  IsFair _ s = Unit

  abbrev pub AreFair : List Event → Server → Type 0
  AreFair [] s = Unit
  AreFair (e ∷ es) s = IsFair e s × AreFair es (after provider e s)

  pub record IsSafe (s : Server) : Type 0 where
    pub rows : All (IsSane landed owner) s.bank.withdrawals
    pub tasks : All (IsSound landed owner) s.tasks

  resume-IsSafe :
      (answer : Answer) (task : Task) (bank : Bank)
      → All (IsSane landed owner) bank.withdrawals
      → IsSound landed owner task
      → IsHonest landed owner provider answer task
      → let (task', bank') = resume provider answer task bank in
        IsSound landed owner task' × All (IsSane landed owner) bank'.withdrawals
  unfolding resume
  resume-IsSafe answer (sending w name) bank sane sound honest =
      (sent-IsSound landed owner provider w answer.payout honest, sane)
  resume-IsSafe answer (refusing w m) bank sane sound honest = (
    refused-IsSound landed owner provider w _,
    fail_and_refund-IsSane landed owner bank sane w.reference m sound,
  )
  resume-IsSafe answer (reading w) bank sane sound honest = (tt, sane)
  resume-IsSafe answer (initiated w) bank sane sound honest = (tt, sane)
  resume-IsSafe answer (loading evt) bank sane sound honest = (
    loaded-IsSound landed owner provider evt (get evt.reference bank) sound (λ w found. (
      get-reference evt.reference bank w found,
      get-IsSane landed owner bank sane evt.reference w found,
    )),
    sane,
  )
  resume-IsSafe answer (confirming evt w t) bank sane sound honest =
      (confirmed-IsSound landed owner provider evt w t answer.lookup_payout sound honest, sane)
  resume-IsSafe answer (marking_succeeded reference txn_id) bank sane sound honest =
      (tt, mark_succeeded-IsSane landed owner bank sane reference txn_id sound)
  resume-IsSafe answer (marking_processing reference txn_id) bank sane sound honest =
      (tt, mark_processing-IsSane landed owner bank sane reference txn_id sound)
  resume-IsSafe answer (answered a) bank sane sound honest = (tt, sane)
  resume-IsSafe answer (checking w t rest needs) bank sane sound honest =
      (checked-IsSound landed owner provider w t rest needs answer.lookup_payout sound honest, sane)
  resume-IsSafe answer (reconciled needs) bank sane sound honest = (tt, sane)
  resume-IsSafe answer (applying reference status txn_id source caller) bank sane sound honest = (
    went_on-IsSound landed owner provider caller _ sound.2,
    apply-IsSane landed owner provider reference status txn_id source bank sane sound.0 sound.1,
  )
  resume-IsSafe answer (thrown e) bank sane sound honest = (tt, sane)

  went_on_in-IsSafe :
      (i : ℕ) (answer : Answer) (s : Server) (o : Option Task)
      → get_elem? s.tasks i ≡ o
      → IsSafe s
      → IsHonestTask answer o
      → IsSafe (went_on_in provider i answer s o)
  went_on_in-IsSafe i answer s none found h honest = h
  went_on_in-IsSafe i answer s (some task) found h honest =
      let (sound, sane) =
        resume-IsSafe answer task s.bank h.rows
          (All-get (IsSound landed owner) s.tasks i task h.tasks found) honest in
      record { rows = sane; tasks = All-set (IsSound landed owner) s.tasks i _ h.tasks sound }

  listed-IsOwn :
      (bank : Bank) (ws : List Withdrawal)
      → All (IsSane landed owner) bank.withdrawals
      → All (λ w. get w.reference bank ≡ some w) ws
      → All (λ w. IsOwn landed owner w.reference w.provider_txn_id) ws
  listed-IsOwn bank [] sane h = tt
  listed-IsOwn bank (w ∷ ws) sane h =
      ((get-IsSane landed owner bank sane w.reference w h.0).own, listed-IsOwn bank ws sane h.1)

  begun-IsSafe :
      (s : Server) (task : Task)
      → IsSafe s
      → IsSound landed owner task
      → IsSafe (record s { tasks = s.tasks ++ task ∷ [] })
  begun-IsSafe s task h sound = record {
    rows = h.rows;
    tasks = All-append (IsSound landed owner) s.tasks (task ∷ []) h.tasks (sound, tt);
  }

  after-IsSafe : (e : Event) (s : Server) → IsFair e s → IsSafe s → IsSafe (after provider e s)
  unfolding after on_webhook
  after-IsSafe (requested reference input) s fair h = record {
    rows = request-IsSane landed owner s.bank h.rows reference input;
    tasks = h.tasks;
  }
  after-IsSafe (initiate w name) s fair h = begun-IsSafe s (sending w name) h tt
  after-IsSafe (arrive payload) s fair h =
      begun-IsSafe s _ h
        (parsed-IsSound landed owner provider (provider.parse_payout_event payload) fair)
  after-IsSafe (reconcile listed) s fair h =
      begun-IsSafe s _ h
        (next_row-IsSound landed owner provider listed [] (listed-IsOwn s.bank listed h.rows fair))
  after-IsSafe (go_on i answer) s fair h =
      went_on_in-IsSafe i answer s (get_elem? s.tasks i) refl h fair
  after-IsSafe restart s fair h = record { rows = h.rows; tasks = tt }
  after-IsSafe (elsewhere ledger) s fair h = record { rows = h.rows; tasks = h.tasks }

  after_all-IsSafe :
      (es : List Event) (s : Server) → AreFair es s → IsSafe s → IsSafe (after_all provider es s)
  unfolding after_all
  after_all-IsSafe [] s fair h = h
  after_all-IsSafe (e ∷ es) s fair h =
      after_all-IsSafe es (after provider e s) fair.1 (after-IsSafe e s fair.0 h)

  -- Whatever calls of `initiate`, `onWebhook` and `reconcile` are in flight, in whatever order they go
  -- on, and however often the server restarts: when the provider rejects or fails only payouts that
  -- do not land, and each webhook's transaction is one of the withdrawal it names, a withdrawal that
  -- lands has not failed, so it is not refunded.
  pub after_all-lands :
      (es : List Event) (s : Server)
      → IsSafe s
      → AreFair es s
      → (reference : String) (w : Withdrawal) → landed reference ≡ true
      → get reference (after_all provider es s).bank ≡ some w
      → is_failed w.status ≡ false
  after_all-lands es s safe fair reference w lands found =
      let later = after_all provider es s in
      (get-IsSane landed owner later.bank (after_all-IsSafe es s fair safe).rows reference w
          found).kept
        (ap landed (get-reference reference later.bank w found) ∙ lands)
