-- ===== src/Simulate/Slip.antt =====
-- packages/shared/src/simulate.ts: a slip, its validation and its resolution.
use crash_game.Prelude.{
  ℕ, suc, ◌*◌, ◌^◌, String, Bool, ◌||◌, Option, none, some, List, [], ◌∷◌, length, any, all, ltb,
  leb, ◌==◌, str_eq, if◌then◌else◌,
}
use crash_game.Prelude.Action.{Result, ok, err}
use crash_game.Football.{Score}
use crash_game.Simulate.{
  Crypto, SimulateConfig, Selection, GoalEvent, leg_uniform, draw_score, build_timeline,
  half_time_from, min,
}

-- The causes of an `InvalidSlipError`.
pub data InvalidSlip : Type 0 where
  rtp_out_of_range : ℕ → InvalidSlip
  empty_slip : InvalidSlip
  too_many_legs : ℕ → InvalidSlip
  missing_event : InvalidSlip
  missing_pick : InvalidSlip
  odds_too_low : ℕ → String → InvalidSlip
  duplicate_event : String → InvalidSlip

-- The first loop of `assertValidSlip`; a slip is typed here, its odds are numbers, so that the tests
-- with `typeof` and `Number.isFinite` have nothing to refuse.
unfoldable pub bad_selection : List Selection → Option InvalidSlip
bad_selection [] = none
bad_selection (s ∷ sels) =
    let rest = bad_selection sels in
    if str_eq s.event_id ""
    then some missing_event
    else (if str_eq s.pick ""
        then some missing_pick
        else (if leb s.odds 100 then some (odds_too_low s.odds s.event_id) else rest))

-- The second loop, with the set `seen` as a list
unfoldable pub duplicate_on : List String → List Selection → Option InvalidSlip
duplicate_on seen [] = none
duplicate_on seen (s ∷ sels) =
    let rest = duplicate_on (s.event_id ∷ seen) sels in
    if any (str_eq s.event_id) seen then some (duplicate_event s.event_id) else rest

-- One check after another: the first one that throws ends the validation.
abbrev pub first_error : Option InvalidSlip → Option InvalidSlip → Option InvalidSlip
first_error none later = later
first_error (some e) later = some e

-- `assertValidSlip`, which throws what it finds
unfoldable pub assert_valid_slip : List Selection → SimulateConfig → Option InvalidSlip
assert_valid_slip sels config =
    if config.rtp == 0 || ltb 1000000 config.rtp
    then some (rtp_out_of_range config.rtp)
    else (if length sels == 0
        then some empty_slip
        else (if ltb config.max_legs (length sels)
            then some (too_many_legs config.max_legs)
            else first_error (bad_selection sels) (duplicate_on [] sels)))

unfoldable pub product : List Selection → ℕ
product [] = 1
product (s ∷ sels) = s.odds * product sels

-- `combinedOdds`, in units of 1 / 100 ^ n for n legs
unfoldable pub combined_odds : List Selection → SimulateConfig → ℕ
unfolding product
combined_odds sels config = min (product sels) (config.max_combined_odds * 100 ^ length sels)

-- `LegResult`; the win probability is `chance` over `odds * 10000`.
pub record LegResult : Type 0 where
  pub event_id : String
  pub market : String
  pub pick : String
  pub odds : ℕ
  pub u : ℕ
  pub chance : ℕ
  pub won : Bool
  pub score : Option Score
  pub timeline : Option (List GoalEvent)
  pub half_time_score : Option Score

pub record SlipResult : Type 0 where
  pub slip_won : Bool
  pub combined : ℕ
  pub payout_multiplier : ℕ
  pub legs : List LegResult
  pub nonce : String
  pub commit : String

-- The timeline of a drawn score.
unfoldable pub playthrough : Crypto → String → String → ℕ → Option Score → Option (List GoalEvent)
playthrough c seed nonce i none = none
playthrough c seed nonce i (some score) = some (build_timeline c seed nonce i score)

unfoldable pub half_time : Option (List GoalEvent) → Option Score
half_time none = none
half_time (some timeline) = some (half_time_from timeline)

-- `Math.min(1, Math.max(0, perLegHold / sel.odds))`
abbrev pub win_chance : ℕ → Selection → ℕ
win_chance hold sel = min hold (sel.odds * 10000)

-- `u < winProbability`
abbrev pub leg_wins : ℕ → ℕ → Selection → Bool
leg_wins u hold sel = ltb (u * (sel.odds * 10000)) (win_chance hold sel * 2 ^ 52)

-- The callback of `selections.map`
unfoldable pub resolve_leg : Crypto → String → String → ℕ → ℕ → Selection → LegResult
unfolding playthrough half_time
resolve_leg c seed nonce hold i sel =
    let u = leg_uniform c seed nonce i sel in
    let won = leg_wins u hold sel in
    let score = draw_score c seed nonce i sel won in
    let timeline = playthrough c seed nonce i score in
    record {
      event_id = sel.event_id;
      market = sel.market;
      pick = sel.pick;
      odds = sel.odds;
      u = u;
      chance = win_chance hold sel;
      won = won;
      score = score;
      timeline = timeline;
      half_time_score = half_time timeline;
    }

unfoldable pub resolve_legs : Crypto → String → String → ℕ → ℕ → List Selection → List LegResult
unfolding resolve_leg
resolve_legs c seed nonce hold i [] = []
resolve_legs c seed nonce hold i (sel ∷ sels) =
    resolve_leg c seed nonce hold i sel ∷ resolve_legs c seed nonce hold (suc i) sels

unfoldable pub resolved : Crypto → String → String → List Selection → SimulateConfig → SlipResult
unfolding resolve_legs combined_odds
resolved c seed nonce sels config =
    let legs = resolve_legs c seed nonce (c.nth_root config.rtp (length sels)) 0 sels in
    let won = all (λ l. l.won) legs in
    let combo = combined_odds sels config in
    record {
      slip_won = won;
      combined = combo;
      payout_multiplier = if won then combo else 0;
      legs = legs;
      nonce = nonce;
      commit = c.sha256 seed;
    }

abbrev pub after_check : Option InvalidSlip → SlipResult → Result InvalidSlip SlipResult
after_check none r = ok r
after_check (some e) r = err e

-- `simulateSlip`
unfoldable pub simulate_slip :
    Crypto → String → String → List Selection → SimulateConfig → Result InvalidSlip SlipResult
unfolding assert_valid_slip resolved
simulate_slip c seed nonce sels config =
    after_check (assert_valid_slip sels config) (resolved c seed nonce sels config)
