-- ===== src/BetState/Path.antt =====
-- How the transition table is shaped: which states an event can leave, and that no history is long.
use crash_game.Prelude.{
  ℕ, ◌+◌, ◌≤◌, ◌<◌, ◌≡◌, refl, ◌≢◌, ◌↔◌, ◌⊎◌, inl, inr, Bool, true, false, not, ◌&&◌, ◌||◌,
  if◌then◌else◌, Option, none, some, List, Option-cases, [], ◌∷◌, arith, length,
}
use crash_game.Prelude.Action.{ok, err}
use crash_game.BetState.{
  InvalidTransitionError, BetState, pending, armed, flying, settling, settled, lost,
  rollback_pending, voided, BetEvent, transitions, next_state, is_terminal,
}

-- The events of one bet applied in turn; the first refused event ends the run.
unfoldable pub run : BetState → List BetEvent → Option BetState
run s [] = some s
run s (e ∷ es) = elim (transitions s e) [ none ↦ none | some t ↦ run t es ]

-- How far along its life a bet is.
abbrev pub rank : BetState → ℕ
rank pending = 0
rank armed = 1
rank flying = 2
rank settling = 3
rank BetState.win_failed = 4
rank rollback_pending = 5
rank _ = 6

pub transitions_of_ok :
    (s : BetState) (e : BetEvent) (t : BetState) → next_state s e ≡ ok t → transitions s e ≡ some t
unfolding next_state
transitions_of_ok s e t h = ground arith

pub transitions_of_err :
    (s : BetState) (e : BetEvent) (x : InvalidTransitionError)
    → next_state s e ≡ err x
    → transitions s e ≡ none
unfolding next_state
transitions_of_err s e x h = ground arith

-- The first step of a run.
pub run-cons :
    (s : BetState) (e : BetEvent) (es : List BetEvent) (t : BetState)
    → run s (e ∷ es) ≡ some t
    → (u : BetState) × (transitions s e ≡ some u) × (run u es ≡ some t)
unfolding run
run-cons s e es t h = elim (Option-cases (transitions s e)) [
  | inl refused ↦ ground arith
  | inr (u, accepted) ↦ (u, accepted, ground arith)
]

-- Every accepted event moves a bet forward.
transitions-rank :
    (s : BetState) (e : BetEvent) (t : BetState) → transitions s e ≡ some t → rank s < rank t
unfolding transitions
transitions-rank pending e t h = ground arith
transitions-rank _ e t h = ground arith

run-rank :
    (s : BetState) (es : List BetEvent) (t : BetState)
    → run s es ≡ some t
    → length es + rank s ≤ rank t
run-rank s [] t h = unfold run in ground arith
run-rank s (e ∷ es) t h =
    let (u, step, rest) = run-cons s e es t h in
    omega (arith, transitions-rank s e u step, run-rank u es t rest)

rank-le : (s : BetState) → rank s ≤ 6
rank-le pending = omega arith
rank-le _ = omega arith

-- No bet accepts more than six events, from any state: the machine cannot loop.
run-length-le :
    (s : BetState) (es : List BetEvent) (t : BetState) → run s es ≡ some t → length es ≤ 6
run-length-le s es t h = omega (arith, run-rank s es t h, rank-le t)

abbrev is_win_failed : BetState → Bool
is_win_failed BetState.win_failed = true
is_win_failed _ = false

abbrev is_rollback_pending : BetState → Bool
is_rollback_pending rollback_pending = true
is_rollback_pending _ = false

-- The states that an event can leave.
abbrev pub CanMove : BetState → Type 0
CanMove s = (e : BetEvent) × (t : BetState) × (next_state s e ≡ ok t)

stuck_of_settled : (s : BetState) → is_terminal s ≡ true → s ≢ BetState.win_failed → ¬ CanMove s
unfolding next_state transitions is_terminal
stuck_of_settled settled h w (e, t, m) = ground arith
stuck_of_settled _ h w (e, t, m) = ground arith

move_of : (s : BetState) → (is_terminal s ≡ false) ⊎ (s ≡ BetState.win_failed) → CanMove s
unfolding next_state transitions is_terminal
move_of pending h = (BetEvent.bet_accepted, armed, refl)
move_of armed h = (BetEvent.round_started, flying, refl)
move_of flying h = (BetEvent.cashout_requested, settling, refl)
move_of settling h = (BetEvent.win_settled, settled, refl)
move_of rollback_pending h = (BetEvent.rollback_completed, voided, refl)
move_of BetState.win_failed h = (BetEvent.win_force_credited, settled, refl)
move_of settled h = absurd (ground arith)
move_of lost h = absurd (ground arith)
move_of voided h = absurd (ground arith)

CanMove-cases : (s : BetState) → CanMove s → (is_terminal s ≡ false) ⊎ (s ≡ BetState.win_failed)
unfolding next_state transitions is_terminal
CanMove-cases pending c = inl refl
CanMove-cases armed c = inl refl
CanMove-cases flying c = inl refl
CanMove-cases settling c = inl refl
CanMove-cases rollback_pending c = inl refl
CanMove-cases BetState.win_failed c = inr refl
CanMove-cases settled (e, t, m) = absurd (ground arith)
CanMove-cases lost (e, t, m) = absurd (ground arith)
CanMove-cases voided (e, t, m) = absurd (ground arith)

-- A state can be left exactly when it is not terminal or is `WIN_FAILED`: `SETTLED`, `LOST` and
-- `VOIDED` are final.
CanMove-iff : (s : BetState) → CanMove s ↔ ((is_terminal s ≡ false) ⊎ (s ≡ BetState.win_failed))
CanMove-iff s = (CanMove-cases s, move_of s)

-- A rollback can be started exactly from a non-terminal state that is not `ROLLBACK_PENDING`, or
-- from `WIN_FAILED`, and leads to `ROLLBACK_PENDING`; elsewhere the error names state and event.
next_state-rollback_started :
    (s : BetState)
    → next_state s BetEvent.rollback_started ≡ (
        if is_terminal s && not (is_win_failed s) || is_rollback_pending s
        then err (record { from = s; event = BetEvent.rollback_started })
        else ok rollback_pending)
unfolding next_state transitions is_terminal
next_state-rollback_started pending = refl
next_state-rollback_started _ = refl
