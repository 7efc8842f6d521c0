-- ===== src/Fantasy/Squad.antt =====
-- What `squadIssues` lets pass.
use crash_game.Prelude.{
  ℕ, ◌+◌, ◌≤◌, ◌≡◌, ◌≢◌, refl, Bool, true, false, not, Option, none, some, List, [], ◌∷◌, ◌++◌,
  length, All, any, count, ltb, ◌==◌, if◌then◌else◌, arith,
}
use crash_game.Fantasy.{
  Position, gkp, def, mid, fwd, least, most, SquadPlayer, SquadPick, Pool, squad_cost, Issue,
  includes, set_size, when, picked, number, position_issues, bump, per_club, picked_checks,
  squad_checks, picked_issues, known_issues, squad_issues, squad_size, collect, picked_twice,
  wrong_size,
}

-- No player stands twice in the list.
unfoldable pub IsDistinct : List ℕ → Type 0
IsDistinct [] = Unit
IsDistinct (id ∷ ids) = (includes ids id ≡ false) × IsDistinct ids

abbrev pub InLimits : Position → List SquadPlayer → Type 0
InLimits place players = least place ≤ number place players × number place players ≤ most place

-- The rules of a squad, with the players that its ids stand for.
unfoldable pub IsLegal : SquadPick → Pool → List SquadPlayer → Type 0
IsLegal pick pool players =
    (picked pick.player_ids pool ≡ some players)
    × IsDistinct pick.player_ids
    × (length pick.player_ids ≡ 11)
    × ((place : Position) → InLimits place players)
    × ((team : ℕ) → count (λ p. p.team_id == team) players ≤ 3)
    × squad_cost pick.player_ids pool ≤ 850
    × (includes pick.player_ids pick.captain_id ≡ true)
    × (includes pick.player_ids pick.vice_captain_id ≡ true)
    × pick.captain_id ≢ pick.vice_captain_id

when-nil : (b : Bool) (issue : Issue) → when b issue ≡ [] → b ≡ false
when-nil b issue h = ground (arith, h)

append-nil : (xs ys : List Issue) → xs ++ ys ≡ [] → (xs ≡ []) × (ys ≡ [])
append-nil [] ys h = (refl, h)
append-nil (x ∷ xs) ys h = ground (arith, h)

collect-nil :
    (checks : List (List Issue)) → collect checks ≡ [] → All (λ issues. issues ≡ []) checks
unfolding collect
collect-nil [] h = tt
collect-nil (issues ∷ checks) h =
    let (none_here, rest) = append-nil issues (collect checks) h in
    (none_here, collect-nil checks rest)

set_size-le : (ids : List ℕ) → set_size ids ≤ length ids
unfolding set_size
set_size-le [] = omega arith
set_size-le (id ∷ ids) = ground (arith, set_size-le ids)

set_size-IsDistinct : (ids : List ℕ) → set_size ids ≡ length ids → IsDistinct ids
unfolding set_size IsDistinct
set_size-IsDistinct [] h = tt
set_size-IsDistinct (id ∷ ids) h = (
  ground (arith, h, set_size-le ids),
  set_size-IsDistinct ids (ground (arith, h, set_size-le ids)),
)

-- The number of a club in the map.
abbrev look : ℕ → List (ℕ × ℕ) → ℕ
look team [] = 0
look team ((t, n) ∷ clubs) = if t == team then n else look team clubs

look-bump :
    (team u : ℕ) (clubs : List (ℕ × ℕ))
    → look team (bump u clubs) ≡ look team clubs + (if u == team then 1 else 0)
unfolding bump
look-bump team u [] = ground arith
look-bump team u ((t, n) ∷ clubs) = ground (arith, look-bump team u clubs)

look-per_club :
    (team : ℕ) (clubs : List (ℕ × ℕ)) (players : List SquadPlayer)
    → look team (per_club clubs players) ≡ look team clubs + count (λ p. p.team_id == team) players
unfolding per_club
look-per_club team clubs [] = omega arith
look-per_club team clubs (p ∷ players) =
    omega (arith, look-per_club team (bump p.team_id clubs) players, look-bump team p.team_id clubs)

look-le :
    (team : ℕ) (clubs : List (ℕ × ℕ)) → any (λ c. ltb 3 c.1) clubs ≡ false → look team clubs ≤ 3
look-le team [] h = omega arith
look-le team ((t, n) ∷ clubs) h = ground (arith, h, look-le team clubs)

in_limits :
    (place : Position) (players : List SquadPlayer)
    → position_issues place players ≡ []
    → InLimits place players
in_limits place players h = ground (arith, h)

picked-IsLegal :
    (pick : SquadPick) (pool : Pool) (players : List SquadPlayer)
    → picked pick.player_ids pool ≡ some players
    → set_size pick.player_ids ≡ length pick.player_ids
    → length pick.player_ids ≡ 11
    → picked_issues pick pool players ≡ []
    → IsLegal pick pool players
unfolding IsLegal picked_issues
picked-IsLegal pick pool players known once eleven h =
    let (goal, (defence, (middle, (attack, (clubs, (budget, (captain, (vice, (other, _))))))))) =
      collect-nil (picked_checks pick pool players) h in
    (
      known,
      set_size-IsDistinct pick.player_ids once,
      eleven,
      λ place. elim place as (λ q. InLimits q players) [
        | gkp ↦ in_limits gkp players goal
        | def ↦ in_limits def players defence
        | mid ↦ in_limits mid players middle
        | fwd ↦ in_limits fwd players attack
      ],
      λ team. omega (
        arith,
        look-per_club team [] players,
        look-le team (per_club [] players) (when-nil _ _ clubs),
      ),
      ground (arith, when-nil _ _ budget),
      ground (arith, when-nil _ _ captain),
      ground (arith, when-nil _ _ vice),
      ground (arith, when-nil _ _ other),
    )

-- A squad against which there is no issue is legal: eleven different players of the pool, of every
-- position as many as its limits allow, at most three of a club, within the budget, with a captain
-- and another vice-captain from the eleven.
pub squad_issues-IsLegal :
    (pick : SquadPick) (pool : Pool)
    → squad_issues pick pool ≡ []
    → (players : List SquadPlayer) × IsLegal pick pool players
unfolding squad_issues
squad_issues-IsLegal pick pool h =
    let (once, (eleven, (known, _))) = collect-nil (squad_checks pick pool) h in
    known_players (picked pick.player_ids pool) refl once eleven known
  where
    known_players :
        (o : Option (List SquadPlayer))
        → picked pick.player_ids pool ≡ o
        → when (not (set_size pick.player_ids == length pick.player_ids)) picked_twice ≡ []
        → when (not (length pick.player_ids == squad_size)) (wrong_size (length pick.player_ids))
          ≡ []
        → known_issues pick pool o ≡ []
        → (players : List SquadPlayer) × IsLegal pick pool players
    known_players none there once eleven known = absurd (ground (arith, known))
    known_players (some players) there once eleven known = (
      players,
      picked-IsLegal pick pool players there (ground (arith, when-nil _ _ once))
          (ground (arith, when-nil _ _ eleven)) known,
    )
