-- ===== src/BetLog/Histories.antt =====
-- Any sequence of calls on the bet log, by any handlers: the state of a bet is where its own
-- accepted events have taken it.
use crash_game.Prelude.{
  ℕ, ◌+◌, ◌≤◌, String, ◌≡◌, refl, ◌∙◌, ◌⊎◌, inl, inr, Bool, true, false, Option, none, some, List,
  [], ◌∷◌, str_eq, eq_iff, arith, count, ◌&&◌, Bool-cases, Option-cases,
}
use crash_game.BetState.{BetState, pending, BetEvent, transitions}
use crash_game.BetState.Path.{run}
use crash_game.BetState.History.{
  is_credit, is_refund, is_loss, is_debit, is_settled, is_voided, is_lost, one_if, run-one_outcome,
}
use crash_game.World.{IdempotencyEntry, World}
use crash_game.BetLog.{CreateBetInput, SideData, create, transition, put_idempotency, new_row}
use crash_game.BetLog.Rows.{find_row-append}
use crash_game.BetLog.Keys.{IsKeyed, create-IsKeyed, transition-IsKeyed, put_idempotency-IsKeyed}
use crash_game.BetLog.Refinement.{state_of, accepts, transition_refines}

-- A call that writes to the bet log, or time that passes.
pub data LogCall : Type 0 where
  create_call : CreateBetInput → LogCall
  transition_call : String → BetEvent → SideData → LogCall
  put_call : IdempotencyEntry → LogCall
  time_call : ℕ → LogCall

-- The world after the call, whether it returns or throws.
unfoldable pub after_call : LogCall → World → World
after_call (create_call input) w = (create input w).1
after_call (transition_call k e side) w = (transition k e side w).1
after_call (put_call entry) w = (put_idempotency entry w).1
after_call (time_call t) w = record w { now = w.now + t }

unfoldable pub after_calls : List LogCall → World → World
after_calls [] w = w
after_calls (c ∷ calls) w = after_calls calls (after_call c w)

-- Whether the call is an event of the bet `k` that the log accepts.
abbrev pub is_accepted : String → LogCall → World → Bool
is_accepted k (transition_call j e side) w = str_eq k j && accepts j e (state_of w)
is_accepted k _ w = false

abbrev pub event_of : LogCall → BetEvent
event_of (transition_call j e side) = e
event_of _ = BetEvent.bet_accepted

-- The events that the log accepts for the bet `k`.
pub accepted : String → List LogCall → World → List BetEvent
accepted k [] w = []
accepted k (c ∷ calls) w =
    let rest = accepted k calls (after_call c w) in
    elim (is_accepted k c w) [ true ↦ event_of c ∷ rest | false ↦ rest ]

-- The state that a bet has after one call, from the state before it.
unfoldable pub step_state : String → LogCall → World → BetState → Option BetState
step_state k c w s = elim (is_accepted k c w) [ true ↦ transitions s (event_of c) | false ↦ some s ]

create_keeps :
    (k : String) (input : CreateBetInput) (w : World) (s : BetState)
    → state_of w k ≡ some s
    → state_of (create input w).1 k ≡ some s
unfolding create state_of
create_keeps k input w s h =
    ground (arith, find_row-append k w.rows (new_row input w.now), eq_iff input.bet_id k)

create_adds :
    (k : String) (input : CreateBetInput) (w : World)
    → state_of w k ≡ none
    → (state_of (create input w).1 k ≡ none) ⊎ (state_of (create input w).1 k ≡ some pending)
unfolding create state_of
create_adds k input w h =
    ground (arith, find_row-append k w.rows (new_row input w.now), eq_iff input.bet_id k)

rows_decide : (v w : World) (k : String) → v.rows ≡ w.rows → state_of v k ≡ state_of w k
unfolding state_of
rows_decide v w k e = rw e

put_idempotency-rows :
    (entry : IdempotencyEntry) (w : World) → (put_idempotency entry w).1.rows ≡ w.rows
unfolding put_idempotency
put_idempotency-rows entry w = ground arith

pub call_step :
    (k : String) (c : LogCall) (w : World) (s : BetState)
    → state_of w k ≡ some s
    → state_of (after_call c w) k ≡ step_state k c w s
unfolding after_call step_state
call_step k (create_call input) w s h = create_keeps k input w s h
call_step k (transition_call j e side) w s h =
    (transition_refines j e side w).0 k ∙ ground (arith, eq_iff k j)
call_step k (put_call entry) w s h =
    rows_decide (put_idempotency entry w).1 w k (put_idempotency-rows entry w) ∙ h
call_step k (time_call t) w s h = rows_decide (record w { now = w.now + t }) w k refl ∙ h

pub accepted_moves :
    (k : String) (c : LogCall) (w : World) (s : BetState)
    → state_of w k ≡ some s
    → is_accepted k c w ≡ true
    → (t : BetState) × (transitions s (event_of c) ≡ some t)
accepted_moves k (transition_call j e side) w s h a = elim (Option-cases (transitions s e)) [
  | inl refused ↦ absurd (ground (arith, eq_iff k j))
  | inr found ↦ found
]
accepted_moves k (create_call input) w s h a = absurd (ground arith)
accepted_moves k (put_call entry) w s h a = absurd (ground arith)
accepted_moves k (time_call t) w s h a = absurd (ground arith)

-- A bet that is in the log is, after any calls, in the state to which its accepted events lead.
pub state_of-after_calls :
    (k : String) (calls : List LogCall) (w : World) (s : BetState)
    → state_of w k ≡ some s
    → state_of (after_calls calls w) k ≡ run s (accepted k calls w)
unfolding after_calls accepted run step_state
state_of-after_calls k [] w s h = h
state_of-after_calls k (c ∷ calls) w s h = elim (Bool-cases (is_accepted k c w)) [
  | inl moves ↦
      let (t, m) = accepted_moves k c w s h moves in
      ground (arith, call_step k c w s h, state_of-after_calls k calls (after_call c w) t)
  | inr stays ↦ ground (arith, call_step k c w s h, state_of-after_calls k calls (after_call c w) s)
]

-- A call for a bet that is not in the log leaves it out, or creates it.
call_absent :
    (k : String) (c : LogCall) (w : World)
    → state_of w k ≡ none
    → (is_accepted k c w ≡ false)
      × ((state_of (after_call c w) k ≡ none) ⊎ (state_of (after_call c w) k ≡ some pending))
unfolding after_call
call_absent k (create_call input) w h = (refl, create_adds k input w h)
call_absent k (transition_call j e side) w h = (
  ground (arith, eq_iff k j),
  inl ((transition_refines j e side w).0 k ∙ ground (arith, eq_iff k j)),
)
call_absent k (put_call entry) w h =
    (refl, inl (rows_decide (put_idempotency entry w).1 w k (put_idempotency-rows entry w) ∙ h))
call_absent k (time_call t) w h =
    (refl, inl (rows_decide (record w { now = w.now + t }) w k refl ∙ h))

-- The life of a bet begins at `PENDING`.
pub accepted-run :
    (k : String) (calls : List LogCall) (w : World) (t : BetState)
    → state_of w k ≡ none
    → state_of (after_calls calls w) k ≡ some t
    → run pending (accepted k calls w) ≡ some t
unfolding after_calls accepted
accepted-run k [] w t h f = ground arith
accepted-run k (c ∷ calls) w t h f = elim (call_absent k c w h).1 [
  | inl absent ↦
      ground (arith, (call_absent k c w h).0, accepted-run k calls (after_call c w) t absent)
  | inr created ↦ ground (
    arith,
    (call_absent k c w h).0,
    state_of-after_calls k calls (after_call c w) pending created,
  )
]

-- Whatever handlers call the bet log, in whatever order, for a bet that was not in the log and ends
-- in state `t`: the log has accepted exactly one event that closes it as credited if `t` is
-- `SETTLED` and none otherwise, exactly one that closes it as refunded or refused if `t` is
-- `VOIDED` and none otherwise, exactly one crash if `t` is `LOST` and none otherwise; and those of
-- the first and of the last kind are at most as many as the debits it accepted. These are events of
-- the log: what an operator has paid for a call that was never answered is not counted.
pub after_calls-one_outcome :
    (k : String) (calls : List LogCall) (w : World) (t : BetState)
    → state_of w k ≡ none
    → state_of (after_calls calls w) k ≡ some t
    → (count is_credit (accepted k calls w) ≡ one_if (is_settled t))
      × (count is_refund (accepted k calls w) ≡ one_if (is_voided t))
      × (count is_loss (accepted k calls w) ≡ one_if (is_lost t))
      × (count is_credit (accepted k calls w) + count is_loss (accepted k calls w)
          ≤ count is_debit (accepted k calls w))
after_calls-one_outcome k calls w t absent final =
    run-one_outcome (accepted k calls w) t (accepted-run k calls w t absent final)

after_call-IsKeyed : (call : LogCall) (w : World) → IsKeyed w → IsKeyed (after_call call w)
unfolding after_call
after_call-IsKeyed (create_call input) w h = create-IsKeyed input w h
after_call-IsKeyed (transition_call k e side) w h = transition-IsKeyed k e side w h
after_call-IsKeyed (put_call entry) w h = put_idempotency-IsKeyed entry w h
after_call-IsKeyed (time_call t) w h = record {
  unique_rows = h.unique_rows;
  unique_entries = h.unique_entries;
}

-- Whatever handlers call the bet log, in whatever order: no two bets ever share an id or a
-- transaction id, and no two recorded outcomes share an operator and a transaction id.
pub after_calls-IsKeyed :
    (calls : List LogCall) (w : World) → IsKeyed w → IsKeyed (after_calls calls w)
unfolding after_calls
after_calls-IsKeyed [] w h = h
after_calls-IsKeyed (call ∷ calls) w h =
    after_calls-IsKeyed calls (after_call call w) (after_call-IsKeyed call w h)
