-- ===== src/BetLog/Refinement.antt =====
-- The bet log as what it stands for: a state for each bet id. Every method is a step of that
-- abstract log, and the state of each bet is the outcome of the events that were accepted for it.
use crash_game.Prelude.{
  String, ◌≡◌, refl, Bool, true, false, Option, none, some, str_eq, eq_iff, arith, if◌then◌else◌,
}
use crash_game.Prelude.Action.{Result, ok, err}
use crash_game.BetState.{BetState, BetEvent, transitions}
use crash_game.BetState.Path.{transitions_of_ok, transitions_of_err}
use crash_game.World.{BetRow, World}
use crash_game.BetLog.{SideData, transition, updated}
use crash_game.BetLog.Outcomes.{missing, refused, moved, transition-Outcome}
use crash_game.BetLog.Rows.{find_row, update_row, find_row-update_row}

-- The state of a bet, if there is such a bet.
unfoldable pub state_of : World → String → Option BetState
state_of w k = elim (find_row k w.rows) [ none ↦ none | some r ↦ some r.state ]

pub state_of-none : (w : World) (k : String) → find_row k w.rows ≡ none → state_of w k ≡ none
unfolding state_of
state_of-none w k h = ground arith

pub state_of-some :
    (w : World) (k : String) (r : BetRow) → find_row k w.rows ≡ some r → state_of w k ≡ some r.state
unfolding state_of
state_of-some w k r h = ground arith

-- The abstract log.
abbrev pub AbstractLog : Type 0
AbstractLog = String → Option BetState

-- The abstract event: it moves the one bet if the table allows it, and is ignored otherwise.
abbrev pub advance : String → BetEvent → AbstractLog → AbstractLog
advance k e log j =
    if str_eq j k
    then (elim (log k) [
      | none ↦ none
      | some s ↦ elim (transitions s e) [ none ↦ some s | some t ↦ some t ]
    ])
    else log j

-- Whether the abstract log accepts the event.
abbrev pub accepts : String → BetEvent → AbstractLog → Bool
accepts k e log = elim (log k) [
  | none ↦ false
  | some s ↦ elim (transitions s e) [ none ↦ false | some _ ↦ true ]
]

abbrev pub succeeded {ℓ} : {E A : Type ℓ} → Result E A → Bool
succeeded (ok _) = true
succeeded (err _) = false

unmoved_of_missing :
    (k : String) (e : BetEvent) (w : World) (j : String)
    → find_row k w.rows ≡ none
    → state_of w j ≡ advance k e (state_of w) j
unmoved_of_missing k e w j nf = ground (arith, state_of-none w k nf, eq_iff j k)

moved_state :
    (k : String) (e : BetEvent) (side : SideData) (w : World) (r : BetRow) (t : BetState)
    → find_row k w.rows ≡ some r
    → transitions r.state e ≡ some t
    → (j : String)
    → state_of (record w { rows = update_row k (updated t w.now side) w.rows }) j
      ≡ advance k e (state_of w) j
unfolding state_of
moved_state k e side w r t f n j =
    ground (arith, find_row-update_row (updated t w.now side) (λ r. refl) k j w.rows, eq_iff j k)

-- `transition` does to the states of all bets what the abstract event does, and it succeeds exactly
-- when the abstract log accepts the event.
pub transition_refines :
    (k : String) (e : BetEvent) (side : SideData) (w : World)
    → ((j : String) → state_of (transition k e side w).1 j ≡ advance k e (state_of w) j)
      × (succeeded (transition k e side w).0 ≡ accepts k e (state_of w))
transition_refines k e side w = elim (transition-Outcome k e side w) [
  | missing nf same ↦
      rw same ((λ j. unmoved_of_missing k e w j nf), ground (arith, state_of-none w k nf))
  | refused r x f n same ↦ rw same (
    (λ j. ground (arith, state_of-some w k r f, transitions_of_err r.state e x n, eq_iff j k)),
    ground (arith, state_of-some w k r f, transitions_of_err r.state e x n),
  )
  | moved r t f n done ↦ rw done (
    (λ j. moved_state k e side w r t f (transitions_of_ok r.state e t n) j),
    ground (arith, state_of-some w k r f, transitions_of_ok r.state e t n),
  )
]
