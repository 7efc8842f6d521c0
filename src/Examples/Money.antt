-- ===== src/Examples/Money.antt =====
-- The ledger, the pool of a league and its leaderboard.
use crash_game.Prelude.{ℕ, suc, ◌%◌, ltb, ◌≡◌, refl, some, List, [], ◌∷◌, All, if◌then◌else◌, arith}
use crash_game.Prelude.Int.{pos}
use crash_game.Ledger.{Table, balance}
use crash_game.Ledger.Overdraw.{
  LedgerCall, deposit_call, bet_call, win_call, after_call, after_calls, IsCovered,
  after_calls-IsCovered,
}
use crash_game.Ledger.Deposits.{deposit_once}
use crash_game.Fantasy.Leaderboard.{Entrant, rank_by_points}
use crash_game.Fantasy.{
  SquadPick, SquadPlayer, Position, gkp, def, mid, fwd, Pool, squad_issues, collect, picked_issues,
  picked, per_club, bump, squad_cost, set_size,
}
use crash_game.Fantasy.Ranking.{better, rank_by_points_lem}
use crash_game.Fantasy.Payouts.{Ranked}
use crash_game.Fantasy.Squad.{IsLegal, squad_issues-IsLegal}

abbrev sessions : List LedgerCall
sessions =
    deposit_call "p1" (pos 500) "KES" (some "d1")
    ∷ bet_call "p1" (pos 400) "b1" "KES"
    ∷ bet_call "p1" (pos 400) "b2" "KES"
    ∷ win_call "p1" (pos 900) "b1" "KES"
    ∷ []

after_calls-IsCovered_example : IsCovered (after_calls sessions [])
unfolding IsCovered balance
after_calls-IsCovered_example = after_calls-IsCovered sessions [] (λ p c. omega arith)

deposit_once_example :
    let later =
      after_calls sessions (after_call (deposit_call "p1" (pos 500) "KES" (some "d9")) []) in
    after_call (deposit_call "p2" (pos 700) "KES" (some "d9")) later ≡ later
deposit_once_example = deposit_once "p1" (pos 500) "KES" "d9" [] refl sessions "p2" (pos 700) "KES"

abbrev rich : Table
rich = after_calls sessions []

abbrev board : List Entrant
board =
    record { key = "ann"; entrant_points = pos 40 }
    ∷ record { key = "ben"; entrant_points = pos 55 }
    ∷ record { key = "cat"; entrant_points = pos 40 }
    ∷ []

rank_by_points_lem_example :
    All (λ x. x.1 ≡ suc (better x.0.entrant_points board)) (rank_by_points board)
rank_by_points_lem_example = rank_by_points_lem board

abbrev player : ℕ → Position → ℕ → SquadPlayer
player id position team_id = record { id = id; position = position; team_id = team_id; cost = 50 }

-- Goalkeeper 1, defenders 2 to 5, midfielders 6 to 9, forwards 10 and 11, of four clubs.
abbrev place : ℕ → Position
place id = if ltb id 2 then gkp else (if ltb id 6 then def else (if ltb id 10 then mid else fwd))

abbrev pool : Pool
pool id = some (player id (place id) (id % 4))

abbrev eleven : SquadPick
eleven = record {
  player_ids = 1 ∷ 2 ∷ 3 ∷ 4 ∷ 5 ∷ 6 ∷ 7 ∷ 8 ∷ 9 ∷ 10 ∷ 11 ∷ [];
  captain_id = 9;
  vice_captain_id = 10;
}

squad_issues-IsLegal_example : (players : List SquadPlayer) × IsLegal eleven pool players
unfolding squad_issues collect picked_issues picked per_club bump squad_cost set_size
squad_issues-IsLegal_example = squad_issues-IsLegal eleven pool refl

abbrev ranked : List Ranked
ranked =
    record { key = "ann"; rank = 1 }
    ∷ record { key = "ben"; rank = 2 }
    ∷ record { key = "cat"; rank = 2 }
    ∷ []
