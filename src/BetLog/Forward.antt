-- ===== src/BetLog/Forward.antt =====
-- Every call of the log moves a bet forward or leaves it.
use crash_game.Prelude.{
  ℕ, ◌≤◌, String, ◌≡◌, some, List, [], ◌∷◌, arith, Bool-cases, Option-cases, inl, inr,
}
use crash_game.BetState.{BetState, pending, armed, flying, BetEvent, transitions}
use crash_game.World.{BetRow, World}
use crash_game.BetLog.Rows.{find_row}
use crash_game.BetLog.Refinement.{state_of, state_of-some}
use crash_game.BetLog.Histories.{
  LogCall, after_call, after_calls, is_accepted, event_of, step_state, call_step, accepted_moves,
}

-- How far a bet has come: it waits for its debit, is in play, or is past its flight.
abbrev pub phase : BetState → ℕ
phase pending = 0
phase armed = 1
phase flying = 1
phase _ = 2

-- A step after which every row is still there and no bet has gone back.
abbrev pub IsForward : World → World → Type 0
IsForward w w' =
    (k : String) (r : BetRow)
    → find_row k w.rows ≡ some r
    → (r' : BetRow) × (find_row k w'.rows ≡ some r') × (phase r.state ≤ phase r'.state)

transitions-forward :
    (s : BetState) (e : BetEvent) (t : BetState) → transitions s e ≡ some t → phase s ≤ phase t
unfolding transitions
transitions-forward s e t h = ground arith

state_of-row :
    (w : World) (k : String) (s : BetState)
    → state_of w k ≡ some s
    → (r : BetRow) × (find_row k w.rows ≡ some r) × (r.state ≡ s)
unfolding state_of
state_of-row w k s h = elim (Option-cases (find_row k w.rows)) [
  | inl missing ↦ absurd (ground (arith, h, missing))
  | inr (r, found) ↦ (r, found, ground (arith, h, found))
]

states-forward :
    (k : String) (calls : List LogCall) (w : World) (s : BetState)
    → state_of w k ≡ some s
    → (t : BetState) × (state_of (after_calls calls w) k ≡ some t) × (phase s ≤ phase t)
unfolding after_calls step_state
states-forward k [] w s h = (s, h, omega arith)
states-forward k (c ∷ calls) w s h = elim (Bool-cases (is_accepted k c w)) [
  | inl moves ↦
      let (t, m) = accepted_moves k c w s h moves in
      let (u, later, le) =
        states-forward k calls (after_call c w) t (ground (arith, call_step k c w s h, moves, m)) in
      (u, later, omega (arith, le, transitions-forward s (event_of c) t m))
  | inr stays ↦
      states-forward k calls (after_call c w) s (ground (arith, call_step k c w s h, stays))
]

pub after_calls-IsForward : (calls : List LogCall) (w : World) → IsForward w (after_calls calls w)
after_calls-IsForward calls w k r found =
    let (t, later, le) = states-forward k calls w r.state (state_of-some w k r found) in
    let (r', found', at) = state_of-row (after_calls calls w) k t later in
    (r', found', ground (arith, le, at))
