-- ===== src/Fantasy.antt =====
-- packages/shared/src/fantasy.ts: the rules of the fantasy league. Costs are in tenths of a
-- million, points are integers; the map of the players is a function, and the sentences that
-- `squadIssues` returns are the constructors of a type.
pub mod Squad
pub mod Leaderboard
pub mod Payouts
pub mod Ranking
use crash_game.Prelude.{
  ℕ, suc, ◌+◌, ◌-◌, ◌*◌, ◌/◌, Bool, true, false, not, ◌&&◌, Option, none, some, List, [], ◌∷◌, ◌++◌,
  length, any, count, ltb, ◌==◌, if◌then◌else◌,
}
use crash_game.Prelude.Int.{ℤ, pos, ◌+ℤ◌, ltb_ℤ}

pub data Position : Type 0 where
  gkp def mid fwd : Position

abbrev pub same_position : Position → Position → Bool
same_position gkp gkp = true
same_position def def = true
same_position mid mid = true
same_position fwd fwd = true
same_position _ _ = false

abbrev pub squad_size : ℕ
squad_size = 11

abbrev pub budget_tenths : ℕ
budget_tenths = 850

abbrev pub max_per_club : ℕ
max_per_club = 3

-- `POSITION_LIMITS`
abbrev pub least : Position → ℕ
least gkp = 1
least def = 3
least mid = 2
least fwd = 1

abbrev pub most : Position → ℕ
most gkp = 1
most def = 5
most mid = 5
most fwd = 3

pub record SquadPlayer : Type 0 where
  pub id : ℕ
  pub position : Position
  pub team_id : ℕ
  pub cost : ℕ

pub record SquadPick : Type 0 where
  pub player_ids : List ℕ
  pub captain_id : ℕ
  pub vice_captain_id : ℕ

pub record LivePlayerPoints : Type 0 where
  pub points : ℤ
  pub minutes : ℕ

abbrev pub Pool : Type 0
Pool = ℕ → Option SquadPlayer

abbrev pub cost_of : Option SquadPlayer → ℕ
cost_of none = 0
cost_of (some p) = p.cost

-- `squadCost`
unfoldable pub squad_cost : List ℕ → Pool → ℕ
squad_cost [] pool = 0
squad_cost (id ∷ ids) pool = cost_of (pool id) + squad_cost ids pool

pub data Issue : Type 0 where
  picked_twice unavailable club_limit no_captain no_vice_captain same_captain : Issue
  wrong_size : ℕ → Issue
  too_few too_many : Position → Issue
  over_budget : ℕ → Issue

abbrev pub includes : List ℕ → ℕ → Bool
includes ids id = any (λ x. x == id) ids

-- `new Set(ids).size`
unfoldable pub set_size : List ℕ → ℕ
set_size [] = 0
set_size (id ∷ ids) = if includes ids id then set_size ids else suc (set_size ids)

-- `if (test) issues.push(issue)`
abbrev pub when : Bool → Issue → List Issue
when true issue = issue ∷ []
when false issue = []

-- What the checks have pushed, one after another.
unfoldable pub collect : List (List Issue) → List Issue
collect [] = []
collect (issues ∷ checks) = issues ++ collect checks

-- `ids.map((id) => pool.get(id))`, or none if one of the players is not in the pool
unfoldable pub picked : List ℕ → Pool → Option (List SquadPlayer)
picked [] pool = some []
picked (id ∷ ids) pool =
    let rest = picked ids pool in
    elim (pool id) [ none ↦ none | some p ↦ elim rest [ none ↦ none | some ps ↦ some (p ∷ ps) ] ]

abbrev pub number : Position → List SquadPlayer → ℕ
number place players = count (λ p. same_position p.position place) players

abbrev pub position_issues : Position → List SquadPlayer → List Issue
position_issues place players =
    when (ltb (number place players) (least place)) (too_few place)
    ++ when (ltb (most place) (number place players)) (too_many place)

-- `perClub.set(p.teamId, (perClub.get(p.teamId) ?? 0) + 1)`
unfoldable pub bump : ℕ → List (ℕ × ℕ) → List (ℕ × ℕ)
bump team [] = (team, 1) ∷ []
bump team ((t, n) ∷ clubs) =
    let rest = bump team clubs in if t == team then (t, suc n) ∷ clubs else (t, n) ∷ rest

unfoldable pub per_club : List (ℕ × ℕ) → List SquadPlayer → List (ℕ × ℕ)
unfolding bump
per_club clubs [] = clubs
per_club clubs (p ∷ players) = per_club (bump p.team_id clubs) players

-- The checks once every player is known.
abbrev pub picked_checks : SquadPick → Pool → List SquadPlayer → List (List Issue)
picked_checks pick pool players =
    position_issues gkp players
    ∷ position_issues def players
    ∷ position_issues mid players
    ∷ position_issues fwd players
    ∷ when (any (λ c. ltb max_per_club c.1) (per_club [] players)) club_limit
    ∷ when (ltb budget_tenths (squad_cost pick.player_ids pool))
        (over_budget (squad_cost pick.player_ids pool - budget_tenths))
    ∷ when (not (includes pick.player_ids pick.captain_id)) no_captain
    ∷ when (not (includes pick.player_ids pick.vice_captain_id)) no_vice_captain
    ∷ when (pick.captain_id == pick.vice_captain_id) same_captain
    ∷ []

unfoldable pub picked_issues : SquadPick → Pool → List SquadPlayer → List Issue
unfolding collect
picked_issues pick pool players = collect (picked_checks pick pool players)

abbrev pub known_issues : SquadPick → Pool → Option (List SquadPlayer) → List Issue
known_issues pick pool none = unavailable ∷ []
known_issues pick pool (some players) = picked_issues pick pool players

abbrev pub squad_checks : SquadPick → Pool → List (List Issue)
squad_checks pick pool =
    when (not (set_size pick.player_ids == length pick.player_ids)) picked_twice
    ∷ when (not (length pick.player_ids == squad_size)) (wrong_size (length pick.player_ids))
    ∷ known_issues pick pool (picked pick.player_ids pool)
    ∷ []

-- `squadIssues`
unfoldable pub squad_issues : SquadPick → Pool → List Issue
unfolding collect
squad_issues pick pool = collect (squad_checks pick pool)

abbrev pub Live : Type 0
Live = ℕ → Option LivePlayerPoints

abbrev pub points_of : Option LivePlayerPoints → ℤ
points_of none = pos 0
points_of (some l) = l.points

abbrev pub minutes_of : Option LivePlayerPoints → ℕ
minutes_of none = 0
minutes_of (some l) = l.minutes

unfoldable pub total_points : List ℕ → Live → ℤ
total_points [] live = pos 0
total_points (id ∷ ids) live = points_of (live id) +ℤ total_points ids live

-- `squadPoints`; `CAPTAIN_MULTIPLIER - 1` is 1
unfoldable pub squad_points : SquadPick → Live → ℤ
unfolding total_points
squad_points pick live =
    total_points pick.player_ids live
    +ℤ points_of (
        live (
          if ltb 0 (minutes_of (live pick.captain_id))
          then pick.captain_id
          else pick.vice_captain_id))
