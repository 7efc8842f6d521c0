-- ===== src/Simulate/Verify.antt =====
-- packages/shared/src/simulate.ts, `verifySlip`: the recomputation of a slip by the player, and what
-- it finds. `JSON.stringify` of two timelines is compared as the timelines are.
use crash_game.Prelude.{
  ℕ, suc, String, Bool, true, false, not, ◌&&◌, Option, none, some, List, [], ◌∷◌, ◌==◌, str_eq,
  if◌then◌else◌,
}
use crash_game.Prelude.Action.{Result, ok, err}
use crash_game.Football.{Score}
use crash_game.Simulate.{Crypto, SimulateConfig, Selection, Team, home_team, away_team, GoalEvent}
use crash_game.Simulate.Slip.{InvalidSlip, LegResult, SlipResult, simulate_slip}

-- The reasons that are given.
pub data Reason : Type 0 where
  wrong_seed : Reason
  recomputation_failed : InvalidSlip → Reason
  wrong_result : Reason
  wrong_payout : Reason
  wrong_leg : ℕ → Reason
  wrong_presence : ℕ → Reason
  wrong_score : ℕ → Reason
  wrong_timeline : ℕ → Reason
  wrong_half_time : ℕ → Reason

abbrev pub bool_eq : Bool → Bool → Bool
bool_eq true b = b
bool_eq false b = not b

abbrev pub score_eq : Score → Score → Bool
score_eq s t = s.home == t.home && s.away == t.away

abbrev pub team_eq : Team → Team → Bool
team_eq home_team home_team = true
team_eq away_team away_team = true
team_eq _ _ = false

abbrev pub event_eq : GoalEvent → GoalEvent → Bool
event_eq e f = e.minute == f.minute && team_eq e.team f.team && score_eq e.score f.score

unfoldable pub events_eq : List GoalEvent → List GoalEvent → Bool
events_eq [] [] = true
events_eq [] (f ∷ fs) = false
events_eq (e ∷ es) [] = false
events_eq (e ∷ es) (f ∷ fs) = event_eq e f && events_eq es fs

abbrev pub option_eq : {A : Type 0} → (A → A → Bool) → Option A → Option A → Bool
option_eq eq none none = true
option_eq eq none (some b) = false
option_eq eq (some a) none = false
option_eq eq (some a) (some b) = eq a b

-- `(a == null) !== (b == null)`
abbrev pub same_presence : Option Score → Option Score → Bool
same_presence none none = true
same_presence (some a) (some b) = true
same_presence _ _ = false

-- The body of the loop, for a leg that the report has
unfoldable pub leg_mismatch : ℕ → LegResult → LegResult → Option Reason
unfolding events_eq
leg_mismatch i mine theirs =
    if not (bool_eq mine.won theirs.won)
    then some (wrong_leg i)
    else (if not (same_presence mine.score theirs.score)
        then some (wrong_presence i)
        else (if not (option_eq score_eq mine.score theirs.score)
            then some (wrong_score i)
            else (if not (option_eq events_eq mine.timeline theirs.timeline)
                then some (wrong_timeline i)
                else (if not (option_eq score_eq mine.half_time_score theirs.half_time_score)
                    then some (wrong_half_time i)
                    else none))))

abbrev pub first_reason : Option Reason → Option Reason → Option Reason
first_reason none later = later
first_reason (some r) later = some r

-- The loop; a leg that the report lacks has no `won`.
unfoldable pub legs_mismatch : ℕ → List LegResult → List LegResult → Option Reason
unfolding leg_mismatch
legs_mismatch i [] reported = none
legs_mismatch i (mine ∷ legs) [] = some (wrong_leg i)
legs_mismatch i (mine ∷ legs) (theirs ∷ reported) =
    first_reason (leg_mismatch i mine theirs) (legs_mismatch (suc i) legs reported)

unfoldable pub mismatch : Result InvalidSlip SlipResult → SlipResult → Option Reason
unfolding legs_mismatch
mismatch (err e) reported = some (recomputation_failed e)
mismatch (ok recomputed) reported =
    if not (bool_eq recomputed.slip_won reported.slip_won)
    then some wrong_result
    else (if not (recomputed.payout_multiplier == reported.payout_multiplier)
        then some wrong_payout
        else legs_mismatch 0 recomputed.legs reported.legs)

-- `verifySlip`: the reason why the report is refused, or none
unfoldable pub verify_slip :
    Crypto → String → SlipResult → List Selection → SimulateConfig → Option Reason
unfolding mismatch simulate_slip
verify_slip c seed reported sels config =
    if not (str_eq (c.sha256 seed) reported.commit)
    then some wrong_seed
    else mismatch (simulate_slip c seed reported.nonce sels config) reported
