-- ===== src/VoidBet/Returns.antt =====
-- `voidOperatorBet` never throws once the server is wired.
use crash_game.Prelude.{
  String, ◌≡◌, refl, inl, inr, Bool, true, false, Option, none, some, arith, Bool-cases,
}
use crash_game.Prelude.Action.{Result, ok, err, try_catch, pure, bind_ok, bind_err, try_ok, try_err}
use crash_game.BetState.{BetEvent, is_terminal}
use crash_game.World.{BetRow, World, Thrown, Method}
use crash_game.BetLog.{transition}
use crash_game.BetLog.Rows.{find_row}
use crash_game.BetLog.Outcomes.{transition-Outcome, missing, refused, moved}
use crash_game.WalletClient.{WalletClient}
use crash_game.VoidBet.{
  skipped, rollback_id, reason_data, start_try, start_catch, rollback_try, rollback_catch,
  void_found, after_start, orphan_try, log_and_skip, void_row, void_operator_bet,
}

-- The call has returned.
abbrev pub Returns : {A : Type 0} → Result Thrown A × World → Type 0
Returns {A} (r, w) = (a : A) × (r ≡ ok a)

try-Returns :
    {A : Type 0} (m : Method A) (handler : Thrown → Method A) (w : World)
    → ((e : Thrown) (v : World) → Returns (handler e v))
    → Returns (try_catch m handler w)
try-Returns {A} m handler w total = go (m w).0 refl
  where
    go : (r : Result Thrown A) → (m w).0 ≡ r → Returns (try_catch m handler w)
    go (ok a) e = (a, rw (try_ok m handler (λ i. (e i, (m w).1))))
    go (err x) e = rw (try_err m handler (λ i. (e i, (m w).1))) (total x (m w).1)

-- How the first step ends on a row that is there.
started :
    (bet_id reason : String) (w : World) (r : BetRow)
    → find_row bet_id w.rows ≡ some r
    → (b : Bool) × (w' : World) × (try_catch (start_try bet_id reason) start_catch w ≡ (ok b, w'))
started bet_id reason w r found =
    elim (transition-Outcome bet_id BetEvent.rollback_started (reason_data reason) w) [
      | missing absent _ ↦ absurd (ground arith)
      | refused r' x _ _ same ↦ (
        false,
        w,
        try_err (start_try bet_id reason) start_catch (
            bind_err (transition bet_id BetEvent.rollback_started (reason_data reason))
              (λ _. pure true) same),
      )
      | moved r' t _ _ done ↦ (
        true,
        _,
        try_ok (start_try bet_id reason) start_catch (
            bind_ok (transition bet_id BetEvent.rollback_started (reason_data reason))
              (λ _. pure true) done),
      )
    ]

after_start-Returns :
    (client : WalletClient) (bet_id reason : String) (row : BetRow) (b : Bool) (w : World)
    → Returns (after_start client bet_id reason row b w)
after_start-Returns client bet_id reason row true w =
    try-Returns (rollback_try client bet_id reason row (rollback_id (find_row bet_id w.rows) row))
      (rollback_catch reason row) w (λ e v. (skipped, refl))
after_start-Returns client bet_id reason row false w = (skipped, refl)

void_row-Returns :
    (client : Option WalletClient) (bet_id reason : String) (row r : BetRow) (w : World)
    → find_row bet_id w.rows ≡ some r
    → Returns (void_row client bet_id reason row w)
unfolding void_row
void_row-Returns none bet_id reason row r w found =
    try-Returns (orphan_try bet_id reason) log_and_skip w (λ e v. (skipped, refl))
void_row-Returns (some client) bet_id reason row r w found =
    let (b, w', done) = started bet_id reason w r found in
    rw
      (bind_ok (try_catch (start_try bet_id reason) start_catch)
        (after_start client bet_id reason row) done)
      (after_start-Returns client bet_id reason row b w')

void_found-Returns :
    (client_for : String → Option WalletClient) (bet_id reason : String) (found : Option BetRow)
    → (w : World) → find_row bet_id w.rows ≡ found
    → Returns (void_found client_for bet_id reason found w)
void_found-Returns client_for bet_id reason none w h = (skipped, refl)
void_found-Returns client_for bet_id reason (some row) w h =
    elim (Bool-cases (is_terminal row.state)) [
      | inl terminal ↦ rw terminal (skipped, refl)
      | inr in_play ↦
          rw in_play (void_row-Returns (client_for row.operator_id) bet_id reason row row w h)
    ]

-- With the dependencies wired, voiding a bet never throws, whatever the row, the clients and the
-- answers of the operator's wallet: it returns that the bet was voided or that it was skipped.
void_operator_bet-Returns :
    (client_for : String → Option WalletClient) (bet_id reason : String) (w : World)
    → Returns (void_operator_bet (some client_for) bet_id reason w)
unfolding void_operator_bet
void_operator_bet-Returns client_for bet_id reason w =
    void_found-Returns client_for bet_id reason (find_row bet_id w.rows) w refl
