-- ===== src/BetLog/Outcomes.antt =====
-- The three ways in which `transition` ends, to split a proof on.
use crash_game.Prelude.{String, ◌≡◌, ◌⊎◌, inl, inr, refl, none, some, Option-cases, arith, eq_iff}
use crash_game.Prelude.Action.{Result, ok, err}
use crash_game.BetState.{BetState, BetEvent, InvalidTransitionError, next_state}
use crash_game.World.{BetRow, World, bet_not_found, invalid_transition}
use crash_game.BetLog.{SideData, updated, transition}
use crash_game.BetLog.Rows.{find_row, update_row, find_row-update_row}

pub Result-cases {ℓ} :
    {E A : Type ℓ} (r : Result E A) → ((e : E) × (r ≡ err e)) ⊎ ((a : A) × (r ≡ ok a))
Result-cases (err e) = inl (e, refl)
Result-cases (ok a) = inr (a, refl)

module _ (k : String) (e : BetEvent) (side : SideData) (w : World) where
  pub transition-missing :
      find_row k w.rows ≡ none → transition k e side w ≡ (err (bet_not_found k), w)
  unfolding transition
  transition-missing h = ground arith

  pub transition-refused :
      (r : BetRow) (x : InvalidTransitionError)
      → find_row k w.rows ≡ some r
      → next_state r.state e ≡ err x
      → transition k e side w ≡ (err (invalid_transition x), w)
  unfolding transition
  transition-refused r x h n = ground arith

  pub transition-moved :
      (r : BetRow) (t : BetState)
      → find_row k w.rows ≡ some r
      → next_state r.state e ≡ ok t
      → transition k e side w ≡ (
        ok (updated t w.now side r),
        record w { rows = update_row k (updated t w.now side) w.rows },
      )
  unfolding transition
  transition-moved r t h n = ground arith

  pub data Outcome : Type 0 where
    missing :
        find_row k w.rows ≡ none → transition k e side w ≡ (err (bet_not_found k), w) → Outcome
    refused :
        (r : BetRow) (x : InvalidTransitionError)
        → find_row k w.rows ≡ some r
        → next_state r.state e ≡ err x
        → transition k e side w ≡ (err (invalid_transition x), w)
        → Outcome
    moved :
        (r : BetRow) (t : BetState)
        → find_row k w.rows ≡ some r
        → next_state r.state e ≡ ok t
        → transition k e side w ≡ (
          ok (updated t w.now side r),
          record w { rows = update_row k (updated t w.now side) w.rows },
        )
        → Outcome

  pub transition-Outcome : Outcome
  transition-Outcome = elim (Option-cases (find_row k w.rows)) [
    | inl none_found ↦ missing none_found (transition-missing none_found)
    | inr (r, found) ↦ elim (Result-cases (next_state r.state e)) [
      | inl (x, n) ↦ refused r x found n (transition-refused r x found n)
      | inr (t, n) ↦ moved r t found n (transition-moved r t found n)
    ]
  ]

-- A transition that the table allows, its result, and what it leaves under the key.
pub find_row-transition :
    (k : String) (e : BetEvent) (side : SideData) (w : World) (r : BetRow) (t : BetState)
    → find_row k w.rows ≡ some r
    → next_state r.state e ≡ ok t
    → (w' : World) × (transition k e side w ≡ (ok (updated t w.now side r), w'))
      × (find_row k w'.rows ≡ some (updated t w.now side r))
      × (w'.alerts ≡ w.alerts)
find_row-transition k e side w r t found next = (
  record w { rows = update_row k (updated t w.now side) w.rows },
  transition-moved k e side w r t found next,
  ground (arith, find_row-update_row (updated t w.now side) (λ r. refl) k k w.rows, eq_iff k k),
  refl,
)
