-- ===== src/Football.antt =====
-- packages/shared/src/football.ts: the catalogue of the markets that Simulate offers, with the
-- predicate that settles each outcome, and the grid of scorelines they are priced from. A weight
-- of the grid is a number in units of the caller's choice. The source's floats add up to 1; here
-- every use compares a weight with the sum of the grid, so the division by the sum is left out.
pub mod Markets
pub mod Probabilities
use crash_game.Prelude.{
  ℕ, zero, suc, ◌+◌, ◌*◌, ◌%◌, String, concat, Bool, true, false, not, ◌&&◌, ◌||◌, Option, none,
  some, List, [], ◌∷◌, ◌++◌, map, ltb, leb, ◌==◌, str_eq, if◌then◌else◌, show,
}

pub record Score : Type 0 where
  pub home : ℕ
  pub away : ℕ

-- Expected goals, in hundredths.
pub record GoalRates : Type 0 where
  pub home_rate : ℕ
  pub away_rate : ℕ

pub record MarketOutcome : Type 0 where
  pub market : String
  pub pick : String
  pub label : String
  pub settles : Score → Bool

pub record MarketGroup : Type 0 where
  pub group_market : String
  pub name : String
  pub outcomes : List MarketOutcome

abbrev pub outcome : String → String → String → (Score → Bool) → MarketOutcome
outcome market pick label settles = record {
  market = market;
  pick = pick;
  label = label;
  settles = settles;
}

abbrev pub group : String → String → List MarketOutcome → MarketGroup
group market name outcomes = record { group_market = market; name = name; outcomes = outcomes }

abbrev pub match_result : MarketGroup
match_result = group "1x2" "Match Result" (
    outcome "1x2" "home" "1" (λ s. ltb s.away s.home)
    ∷ outcome "1x2" "draw" "X" (λ s. s.home == s.away)
    ∷ outcome "1x2" "away" "2" (λ s. ltb s.home s.away)
    ∷ [])

abbrev pub double_chance : MarketGroup
double_chance = group "double_chance" "Double Chance" (
    outcome "double_chance" "home_draw" "1X" (λ s. leb s.away s.home)
    ∷ outcome "double_chance" "home_away" "12" (λ s. not (s.home == s.away))
    ∷ outcome "double_chance" "draw_away" "X2" (λ s. leb s.home s.away)
    ∷ [])

abbrev pub both_to_score : MarketGroup
both_to_score = group "btts" "Both Teams to Score" (
    outcome "btts" "yes" "Yes" (λ s. ltb 0 s.home && ltb 0 s.away)
    ∷ outcome "btts" "no" "No" (λ s. s.home == 0 || s.away == 0)
    ∷ [])

abbrev pub odd_even : MarketGroup
odd_even = group "odd_even" "Odd/Even Goals" (
    outcome "odd_even" "odd" "Odd" (λ s. (s.home + s.away) % 2 == 1)
    ∷ outcome "odd_even" "even" "Even" (λ s. (s.home + s.away) % 2 == 0)
    ∷ [])

-- The line n + 1/2 is written n.
abbrev pub over_under_lines : List ℕ
over_under_lines = 0 ∷ 1 ∷ 2 ∷ 3 ∷ 4 ∷ []

abbrev pub line_token : ℕ → String
line_token line = concat (show line) "_5"

abbrev pub line_text : ℕ → String
line_text line = concat (show line) ".5"

abbrev pub over_under : ℕ → MarketGroup
over_under line =
    group (concat "over_under_" (line_token line)) (concat "Over/Under " (line_text line)) (
      outcome (concat "over_under_" (line_token line)) "over" (concat "Over " (line_text line))
        (λ s. ltb (2 * line + 1) (2 * (s.home + s.away)))
      ∷ outcome (concat "over_under_" (line_token line)) "under" (concat "Under " (line_text line))
          (λ s. ltb (2 * (s.home + s.away)) (2 * line + 1))
      ∷ [])

abbrev pub total_goals : MarketGroup
total_goals = group "total_goals" "Total Goals" (
    outcome "total_goals" "0_1" "0-1" (λ s. leb (s.home + s.away) 1)
    ∷ outcome "total_goals" "2_3" "2-3" (λ s. leb 2 (s.home + s.away) && leb (s.home + s.away) 3)
    ∷ outcome "total_goals" "4_6" "4-6" (λ s. leb 4 (s.home + s.away) && leb (s.home + s.away) 6)
    ∷ outcome "total_goals" "7_plus" "7+" (λ s. leb 7 (s.home + s.away))
    ∷ [])

abbrev pub correct : ℕ → ℕ → MarketOutcome
correct h a =
    outcome "correct_score" (concat (show h) (concat "_" (show a)))
      (concat (show h) (concat "-" (show a))) (λ s. s.home == h && s.away == a)

abbrev pub correct_row : ℕ → List MarketOutcome
correct_row h = correct h 0 ∷ correct h 1 ∷ correct h 2 ∷ correct h 3 ∷ []

abbrev pub correct_score : MarketGroup
correct_score = group "correct_score" "Correct Score" (
    (correct_row 0 ++ correct_row 1 ++ correct_row 2 ++ correct_row 3)
    ++ outcome "correct_score" "other" "Any other" (λ s. ltb 3 s.home || ltb 3 s.away) ∷ [])

-- `marketCatalogue()`, which `CATALOGUE` holds
unfoldable pub market_catalogue : List MarketGroup
market_catalogue =
    (match_result ∷ double_chance ∷ both_to_score ∷ odd_even ∷ [])
    ++ map over_under over_under_lines
    ++ total_goals ∷ correct_score ∷ []

-- `CATALOGUE.flatMap(...)`, in the order in which `INDEX` takes the entries
unfoldable pub all_outcomes : List MarketGroup → List MarketOutcome
all_outcomes [] = []
all_outcomes (g ∷ groups) = g.outcomes ++ all_outcomes groups

abbrev pub key : String → String → String
key market pick = concat market (concat ":" pick)

-- `Map.get` of a map that was built from entries: of two entries with a key the later one counts.
unfoldable pub map_get : String → List MarketOutcome → Option MarketOutcome
map_get k [] = none
map_get k (o ∷ entries) =
    let rest = map_get k entries in
    elim rest [
      | some found ↦ some found
      | none ↦ if str_eq (key o.market o.pick) k then some o else none
    ]

-- `findOutcome`
unfoldable pub find_outcome : String → String → Option MarketOutcome
unfolding map_get all_outcomes market_catalogue
find_outcome market pick = map_get (key market pick) (all_outcomes market_catalogue)

-- The weights at `from`, `from + 1`, …
abbrev pub weights : (ℕ → ℕ) → ℕ → ℕ → List ℕ
weights f zero from = []
weights f (suc n) from = f from ∷ weights f n (suc from)

-- `scoreGrid`, given the chance of k goals at a rate
unfoldable pub score_grid : (ℕ → ℕ → ℕ) → GoalRates → ℕ → List (List ℕ)
score_grid poisson_pmf rates max_goals =
    map (λ h. map (λ a. h * a) (weights (poisson_pmf rates.away_rate) (suc max_goals) 0))
      (weights (poisson_pmf rates.home_rate) (suc max_goals) 0)

-- A sum over the cells of a row, whose scores are (home, away), (home, away + 1), …
unfoldable pub sum_row : (Score → Bool) → ℕ → ℕ → List ℕ → ℕ
sum_row counts home away [] = 0
sum_row counts home away (p ∷ row) =
    (if counts (record { home = home; away = away }) then p else 0)
    + sum_row counts home (suc away) row

unfoldable pub sum_grid : (Score → Bool) → ℕ → List (List ℕ) → ℕ
unfolding sum_row
sum_grid counts home [] = 0
sum_grid counts home (row ∷ grid) = sum_row counts home 0 row + sum_grid counts (suc home) grid

-- `outcomeProbability`
unfoldable pub outcome_probability : List (List ℕ) → MarketOutcome → ℕ
unfolding sum_grid
outcome_probability grid o = sum_grid o.settles 0 grid
