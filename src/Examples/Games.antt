-- ===== src/Examples/Games.antt =====
-- A slip of Simulate, and the markets it is picked from.
use crash_game.Prelude.{
  ℕ, ◌≡◌, ◌↔◌, refl, concat, true, none, List, [], ◌∷◌, All, ltb, if◌then◌else◌,
}
use crash_game.Football.{Score, market_catalogue, score_grid, find_outcome}
use crash_game.Football.Markets.{winners, places, catalogue-winners}
use crash_game.Simulate.{
  Crypto, SimulateConfig, Selection, default_goal_rates, draw_score, build_timeline,
}
use crash_game.Simulate.Draw.{Narrated, draw_score-Narrated}
use crash_game.Simulate.Timeline.{IsPlayed, build_timeline-IsPlayed}
use crash_game.Simulate.Slip.{
  assert_valid_slip, bad_selection, duplicate_on, simulate_slip, resolved, SlipResult,
}
use crash_game.Simulate.Valid.{InBounds, IsSlip, assert_valid_slip_iff}
use crash_game.Simulate.Verify.{verify_slip}
use crash_game.Simulate.Confirm.{Confirms, verify_slip_iff, simulate_slip-verifies}

abbrev three_one : Score
three_one = record { home = 3; away = 1 }

catalogue-winners_example : All (λ g. winners three_one g ≡ places g) market_catalogue
catalogue-winners_example = catalogue-winners three_one

abbrev small_grid : List (List ℕ)
small_grid = (5 ∷ 3 ∷ []) ∷ (4 ∷ 2 ∷ []) ∷ []

-- Stand-ins for the hash functions and the powers.
abbrev toy : Crypto
toy = record {
  bits52 = λ seed message. 2251799813685248;
  sha256 = λ text. concat "hash of " text;
  nth_root = λ r n. r;
  poisson_pmf = λ rate k. if ltb k 4 then rate else 1;
}

abbrev over : Selection
over = record {
  event_id = "e1";
  market = "over_under_2_5";
  pick = "over";
  odds = 190;
  goal_rates = none;
}

abbrev home_win : Selection
home_win = record { event_id = "e2"; market = "1x2"; pick = "home"; odds = 150; goal_rates = none }

abbrev config : SimulateConfig
config = record { rtp = 950000; max_combined_odds = 100000; max_legs = 20 }

abbrev slip : List Selection
slip = over ∷ home_win ∷ []

draw_score-Narrated_example :
    Narrated
      (score_grid toy.poisson_pmf default_goal_rates 10)
      true
      (find_outcome "over_under_2_5" "over")
      (draw_score toy "seed" "n1" 0 over true)
draw_score-Narrated_example = draw_score-Narrated toy "seed" "n1" 0 over true

build_timeline-IsPlayed_example :
    IsPlayed 0
      (record { home = 0; away = 0 })
      three_one
      (build_timeline toy "seed" "n1" 0 three_one)
build_timeline-IsPlayed_example = build_timeline-IsPlayed toy "seed" "n1" 0 three_one

assert_valid_slip_iff_example :
    (assert_valid_slip slip config ≡ none) ↔ (InBounds slip config × IsSlip [] slip)
assert_valid_slip_iff_example = assert_valid_slip_iff slip config

abbrev report : SlipResult
report = resolved toy "seed" "n1" slip config

verify_slip_iff_example : (verify_slip toy "other" report slip config ≡ none) ↔ (
    (toy.sha256 "other" ≡ report.commit)
    × Confirms (simulate_slip toy "other" report.nonce slip config) report)
verify_slip_iff_example = verify_slip_iff toy "other" report slip config

simulate_slip-verifies_example : verify_slip toy "seed" report slip config ≡ none
unfolding simulate_slip assert_valid_slip bad_selection duplicate_on
simulate_slip-verifies_example = simulate_slip-verifies toy "seed" "n1" slip config report refl
