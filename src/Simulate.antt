-- ===== src/Simulate.antt =====
-- packages/shared/src/simulate.ts: the bet slip that is played by a random draw, and the match that
-- tells its result. A uniform is the number below 2 ^ 52 that the source divides by 2 ^ 52; odds
-- are in hundredths, the RTP and the hold of a leg in millionths, and a quotient is kept as its two
-- parts. The HMAC and the SHA-256 of `crypto`, and `Math.pow` and the Poisson law made of
-- `Math.exp` and `Math.log`, are the parameters of the library `Crypto`.
pub mod Slip
pub mod Draw
pub mod Timeline
pub mod Verify
pub mod Valid
pub mod Confirm
use crash_game.Prelude.{
  ℕ, zero, suc, ◌+◌, ◌-◌, ◌*◌, ◌/◌, ◌^◌, String, concat, Bool, true, false, ◌&&◌, ◌||◌, Option,
  none, some, List, [], ◌∷◌, ◌++◌, not, length, any, all, ltb, leb, ◌==◌, str_eq, if◌then◌else◌,
  or_else, show,
}
use crash_game.Football.{Score, GoalRates, MarketOutcome, find_outcome, score_grid}

-- What the code takes from `crypto` and `Math`: `bits52` is the first 13 hexadecimal digits of the
-- HMAC-SHA256 under the seed, `sha256` the digest of a text, `nth_root r n` is r ^ (1 / n), and
-- `poisson_pmf` the weight of a number of goals at a rate.
pub record Crypto : Type 0 where
  pub bits52 : String → String → ℕ
  pub sha256 : String → String
  pub nth_root : ℕ → ℕ → ℕ
  pub poisson_pmf : ℕ → ℕ → ℕ

-- `SimulateConfig`
pub record SimulateConfig : Type 0 where
  pub rtp : ℕ
  pub max_combined_odds : ℕ
  pub max_legs : ℕ

pub record Selection : Type 0 where
  pub event_id : String
  pub market : String
  pub pick : String
  pub odds : ℕ
  pub goal_rates : Option GoalRates

abbrev pub default_goal_rates : GoalRates
default_goal_rates = record { home_rate = 145; away_rate = 115 }

pub data Team : Type 0 where
  home_team away_team : Team

-- A drawn goal, before the minutes are put in order.
pub record Goal : Type 0 where
  pub drawn_minute : ℕ
  pub side : Team

pub record GoalEvent : Type 0 where
  pub minute : ℕ
  pub team : Team
  pub score : Score

abbrev pub leg_uniform : Crypto → String → String → ℕ → Selection → ℕ
leg_uniform c server_seed nonce index sel = c.bits52 server_seed (
    concat nonce
      (concat ":" (concat (show index) (concat ":" (concat sel.event_id (concat ":" sel.pick))))))

abbrev pub aux_uniform : Crypto → String → String → ℕ → String → ℕ
aux_uniform c server_seed nonce index tag =
    c.bits52 server_seed (concat nonce (concat ":" (concat (show index) (concat ":" tag))))

-- A scoreline with its weight.
pub record Candidate : Type 0 where
  pub candidate_score : Score
  pub p : ℕ

-- `outcome.settles(score) !== won` skips a cell, and so does a weight of 0.
abbrev pub same_bool : Bool → Bool → Bool
same_bool true b = b
same_bool false true = false
same_bool false false = true

unfoldable pub row_candidates : MarketOutcome → Bool → ℕ → ℕ → List ℕ → List Candidate
row_candidates o won home away [] = []
row_candidates o won home away (p ∷ row) =
    let score : Score = record { home = home; away = away } in
    let rest = row_candidates o won home (suc away) row in
    if same_bool (o.settles score) won && ltb 0 p
    then record { candidate_score = score; p = p } ∷ rest
    else rest

unfoldable pub candidates : MarketOutcome → Bool → ℕ → List (List ℕ) → List Candidate
candidates o won home [] = []
candidates o won home (row ∷ grid) =
    row_candidates o won home 0 row ++ candidates o won (suc home) grid

unfoldable pub total_weight : List Candidate → ℕ
total_weight [] = 0
total_weight (c ∷ cs) = c.p + total_weight cs

-- The loop on `acc`: the first candidate at which the sum passes `u * total`, or else the last one.
unfoldable pub pick_candidate : ℕ → ℕ → Candidate → List Candidate → Score
pick_candidate target acc c [] = c.candidate_score
pick_candidate target acc c (d ∷ cs) =
    let rest = pick_candidate target (acc + c.p) d cs in
    if ltb target ((acc + c.p) * 2 ^ 52) then c.candidate_score else rest

unfoldable pub draw_from : ℕ → List Candidate → Option Score
unfolding pick_candidate total_weight
draw_from u [] = none
draw_from u (c ∷ cs) =
    if ltb 0 (total_weight (c ∷ cs))
    then some (pick_candidate (u * total_weight (c ∷ cs)) 0 c cs)
    else none

-- `drawScore` from the uniform, the grid and the outcome on: `if (!outcome) return null`
unfoldable pub draw_for : ℕ → List (List ℕ) → Bool → Option MarketOutcome → Option Score
unfolding draw_from candidates
draw_for u grid won none = none
draw_for u grid won (some o) = draw_from u (candidates o won 0 grid)

-- `drawScore`; 10 is `MAX_GOALS`.
unfoldable pub draw_score : Crypto → String → String → ℕ → Selection → Bool → Option Score
unfolding draw_for
draw_score c server_seed nonce index sel won =
    draw_for (aux_uniform c server_seed nonce index "score")
      (score_grid c.poisson_pmf (or_else sel.goal_rates default_goal_rates) 10) won
      (find_outcome sel.market sel.pick)

-- The goals i, i + 1, … of a side: `1 + Math.floor(u * 90)`
unfoldable pub draw_goals : Crypto → String → String → ℕ → String → Team → ℕ → ℕ → List Goal
draw_goals c seed nonce index tag side zero i = []
draw_goals c seed nonce index tag side (suc n) i =
    record {
      drawn_minute = 1 + aux_uniform c seed nonce index (concat tag (show i)) * 90 / 2 ^ 52;
      side = side;
    }
    ∷ draw_goals c seed nonce index tag side n (suc i)

abbrev pub is_home : Team → Bool
is_home home_team = true
is_home away_team = false

-- `x.minute - y.minute || (x.team === y.team ? 0 : x.team === 'home' ? -1 : 1)` is above 0
abbrev pub comes_after : Goal → Goal → Bool
comes_after x y =
    ltb y.drawn_minute x.drawn_minute
    || (x.drawn_minute == y.drawn_minute && is_home y.side && not (is_home x.side))

unfoldable pub insert_goal : Goal → List Goal → List Goal
insert_goal g [] = g ∷ []
insert_goal g (x ∷ xs) =
    let rest = insert_goal g xs in if comes_after g x then x ∷ rest else g ∷ x ∷ xs

-- `raw.sort(…)`, which is stable
unfoldable pub sort_goals : List Goal → List Goal
unfolding insert_goal
sort_goals [] = []
sort_goals (g ∷ gs) = insert_goal g (sort_goals gs)

abbrev pub scored : Team → Score → Score
scored home_team s = record { home = s.home + 1; away = s.away }
scored away_team s = record { home = s.home; away = s.away + 1 }

abbrev pub max : ℕ → ℕ → ℕ
max a b = if ltb a b then b else a

abbrev pub min : ℕ → ℕ → ℕ
min a b = if ltb b a then b else a

-- The callback of `raw.map`, with `last` and `running` as its state
unfoldable pub run_goals : ℕ → Score → List Goal → List GoalEvent
run_goals last running [] = []
run_goals last running (g ∷ gs) =
    let minute = min 90 (max g.drawn_minute (last + 1)) in
    let score = scored g.side running in
    record { minute = minute; team = g.side; score = score } ∷ run_goals minute score gs

-- `buildTimeline`
unfoldable pub build_timeline : Crypto → String → String → ℕ → Score → List GoalEvent
unfolding run_goals sort_goals draw_goals
build_timeline c seed nonce index score =
    run_goals 0 (record { home = 0; away = 0 })
      (sort_goals (
        draw_goals c seed nonce index "gh" home_team score.home 0
        ++ draw_goals c seed nonce index "ga" away_team score.away 0))

-- `halfTimeFrom`, from a score on
unfoldable pub half_time_on : Score → List GoalEvent → Score
half_time_on ht [] = ht
half_time_on ht (g ∷ timeline) =
    let rest = half_time_on (scored g.team ht) timeline in if ltb 45 g.minute then ht else rest

unfoldable pub half_time_from : List GoalEvent → Score
unfolding half_time_on
half_time_from timeline = half_time_on (record { home = 0; away = 0 }) timeline
