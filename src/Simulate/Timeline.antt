-- ===== src/Simulate/Timeline.antt =====
-- The playthrough of a leg: the goals in the order they are shown.
use crash_game.Prelude.{
  ℕ, zero, suc, ◌+◌, ◌≤◌, ◌<◌, ◌≡◌, refl, ◌∙◌, String, Bool, true, false, not, ◌&&◌, List, [], ◌∷◌,
  ◌++◌, count, ltb, leb, if◌then◌else◌, arith, Bool-cases, inl, inr,
}
use crash_game.Football.{Score}
use crash_game.Simulate.{
  Crypto, Team, home_team, away_team, Goal, GoalEvent, draw_goals, is_home, insert_goal, sort_goals,
  scored, max, min, run_goals, build_timeline, half_time_on, half_time_from,
}

-- Goals that are shown from a minute and a running score on: each is a minute of the match, not
-- before the one shown last, adds one to its side's score, and the last one ends at `final`.
unfoldable pub IsPlayed : ℕ → Score → Score → List GoalEvent → Type 0
IsPlayed last running final [] = (running.home ≡ final.home) × (running.away ≡ final.away)
IsPlayed last running final (e ∷ events) =
    last ≤ e.minute
    × 1 ≤ e.minute
    × e.minute ≤ 90
    × (e.score ≡ scored e.team running)
    × IsPlayed e.minute e.score final events

abbrev goals_of : Bool → List Goal → ℕ
goals_of home goals = count (λ g. if home then is_home g.side else not (is_home g.side)) goals

abbrev finished : Score → List Goal → Score
finished s goals = record {
  home = s.home + goals_of true goals;
  away = s.away + goals_of false goals;
}

run_goals-IsPlayed :
    (last : ℕ) (running final : Score) (goals : List Goal)
    → last ≤ 90
    → running.home + goals_of true goals ≡ final.home
    → running.away + goals_of false goals ≡ final.away
    → IsPlayed last running final (run_goals last running goals)
unfolding IsPlayed run_goals
run_goals-IsPlayed last running final [] h eh ea = ground arith
run_goals-IsPlayed last running final (g ∷ goals) h eh ea = (
  ground arith,
  ground arith,
  ground arith,
  refl,
  run_goals-IsPlayed (min 90 (max g.drawn_minute (last + 1))) (scored g.side running) final goals
      (ground arith) (ground arith) (ground arith),
)

goals_of-insert :
    (home : Bool) (g : Goal) (goals : List Goal)
    → goals_of home (insert_goal g goals) ≡ goals_of home (g ∷ goals)
unfolding insert_goal
goals_of-insert home g [] = refl
goals_of-insert home g (x ∷ goals) = ground (arith, goals_of-insert home g goals)

goals_of-sort :
    (home : Bool) (goals : List Goal) → goals_of home (sort_goals goals) ≡ goals_of home goals
unfolding sort_goals
goals_of-sort home [] = refl
goals_of-sort home (g ∷ goals) =
    goals_of-insert home g (sort_goals goals) ∙ ground (arith, goals_of-sort home goals)

goals_of-append :
    (home : Bool) (xs ys : List Goal)
    → goals_of home (xs ++ ys) ≡ goals_of home xs + goals_of home ys
goals_of-append home [] ys = omega arith
goals_of-append home (x ∷ xs) ys = omega (arith, goals_of-append home xs ys)

goals_of-draw :
    (c : Crypto) (seed nonce : String) (index : ℕ) (tag : String) (home : Bool) (side : Team)
    (n i : ℕ)
    → goals_of home (draw_goals c seed nonce index tag side n i)
      ≡ (if (if home then is_home side else not (is_home side)) then n else 0)
unfolding draw_goals
goals_of-draw c seed nonce index tag home side zero i = ground arith
goals_of-draw c seed nonce index tag home side (suc n) i =
    ground (arith, goals_of-draw c seed nonce index tag home side n (suc i))

-- The playthrough of a score is shown in order: its minutes are from 1 to 90 and do not go down,
-- every goal adds one to its side, and the last running score is the score that was drawn.
pub build_timeline-IsPlayed :
    (c : Crypto) (seed nonce : String) (index : ℕ) (score : Score)
    → IsPlayed 0 (record { home = 0; away = 0 }) score (build_timeline c seed nonce index score)
unfolding build_timeline
build_timeline-IsPlayed c seed nonce index score =
    run_goals-IsPlayed 0 (record { home = 0; away = 0 }) score (sort_goals (home ++ away))
      (omega arith)
      (ground (
        arith,
        goals_of-sort true (home ++ away),
        goals_of-append true home away,
        goals_of-draw c seed nonce index "gh" true home_team score.home 0,
        goals_of-draw c seed nonce index "ga" true away_team score.away 0,
      ))
      (ground (
        arith,
        goals_of-sort false (home ++ away),
        goals_of-append false home away,
        goals_of-draw c seed nonce index "gh" false home_team score.home 0,
        goals_of-draw c seed nonce index "ga" false away_team score.away 0,
      ))
  where
    home : List Goal
    home = draw_goals c seed nonce index "gh" home_team score.home 0

    away : List Goal
    away = draw_goals c seed nonce index "ga" away_team score.away 0

-- The goals of a side up to the 45th minute.
abbrev pub first_half : Bool → List GoalEvent → ℕ
first_half home events =
    count (λ e. leb e.minute 45 && (if home then is_home e.team else not (is_home e.team))) events

late :
    (home : Bool) (last : ℕ) (running final : Score) (events : List GoalEvent)
    → 45 < last
    → IsPlayed last running final events
    → first_half home events ≡ 0
unfolding IsPlayed
late home last running final [] h p = refl
late home last running final (e ∷ events) h p =
    let (order, first, last_minute, one, rest) = p in
    ground (arith, order, late home e.minute e.score final events (omega (arith, h, order)) rest)

half_time_on-counts :
    (home : Bool) (last : ℕ) (ht running final : Score) (events : List GoalEvent)
    → IsPlayed last running final events
    → (if home then (half_time_on ht events).home else (half_time_on ht events).away)
      ≡ (if home then ht.home else ht.away) + first_half home events
unfolding IsPlayed half_time_on
half_time_on-counts home last ht running final [] p = omega arith
half_time_on-counts home last ht running final (e ∷ events) p =
    let (order, first, last_minute, one, rest) = p in
    elim (Bool-cases (ltb 45 e.minute)) [
      | inl second ↦
          rw second
            (ground (arith, late home e.minute e.score final events (ground (arith, second)) rest))
      | inr early ↦ rw early (
          ground
            (arith, half_time_on-counts home e.minute (scored e.team ht) e.score final events rest))
    ]

-- The half-time score of a playthrough counts, for each side, exactly its goals up to the 45th
-- minute: stopping at the first later goal misses none, since the goals are in order.
half_time_from-counts :
    (c : Crypto) (seed nonce : String) (index : ℕ) (score : Score)
    → let timeline = build_timeline c seed nonce index score in
      ((half_time_from timeline).home ≡ first_half true timeline)
      × ((half_time_from timeline).away ≡ first_half false timeline)
unfolding half_time_from
half_time_from-counts c seed nonce index score =
    (ground (arith, counts true), ground (arith, counts false))
  where
    kick_off : Score
    kick_off = record { home = 0; away = 0 }

    counts :
        (home : Bool)
        → let ht = half_time_on kick_off (build_timeline c seed nonce index score) in
          (if home then ht.home else ht.away)
          ≡ (if home then 0 else 0) + first_half home (build_timeline c seed nonce index score)
    counts home =
        half_time_on-counts home 0 kick_off kick_off score _
          (build_timeline-IsPlayed c seed nonce index score)
