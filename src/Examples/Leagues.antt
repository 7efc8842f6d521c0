-- ===== src/Examples/Leagues.antt =====
-- Leagues that are joined, settled and cancelled, at concrete inputs.
use crash_game.Prelude.{
  arith, find, ℕ, String, ◌≡◌, refl, Bool, none, some, List, [], ◌∷◌, ◌==◌, str_eq, if◌then◌else◌,
}
use crash_game.Prelude.Int.{pos}
use crash_game.Prelude.Action.{ok, err}
use crash_game.Ledger.{Entry, Kind}
use crash_game.Fantasy.{SquadPick, Live}
use crash_game.League.{has_id, LeagueStatus, League, House, LeagueTemplate, league_locked, join}
use crash_game.League.Settle.{settle, already_final}
use crash_game.League.Conserved.{IsUnique}
use crash_game.League.Joining.{IsBalanced}
use crash_game.League.Books.{
  LeagueCall, ensure_call, join_call, settle_call, after_calls, after_calls-IsBalanced,
}
use crash_game.League.Once.{settle_once}

abbrev weekly : LeagueTemplate
weekly = record {
  template_id = "weekly";
  name = "Weekly";
  blurb = "";
  entry_fee_minor = 1000;
  currency = "KES";
}

abbrev eleven : ℕ → SquadPick
eleven captain = record { player_ids = 1 ∷ 2 ∷ 3 ∷ []; captain_id = captain; vice_captain_id = 3 }

-- Player 1 has nine points, player 2 four.
abbrev gameweek_points : Live
gameweek_points id =
    if id == 1
    then some (record { points = pos 9; minutes = 90 })
    else (if id == 2 then some (record { points = pos 4; minutes = 80 }) else none)

abbrev by_text : String → String → Bool
by_text a b = str_eq a "ann"

abbrev topped_up : String → Entry
topped_up player_id = record {
  player_id = player_id;
  currency = "KES";
  amount_minor = pos 5000;
  kind = Kind.deposit;
  ref = none;
}

abbrev bank : House
bank = record {
  ledger = topped_up "ann" ∷ topped_up "ben" ∷ [];
  leagues = [];
  members = [];
  now = 10;
}

abbrev season : List LeagueCall
season =
    ensure_call (weekly ∷ []) 7 100
    ∷ join_call "weekly-gw7" "ann" (eleven 1) 20
    ∷ join_call "weekly-gw7" "ben" (eleven 2) 30
    ∷ join_call "weekly-gw7" "ben" (eleven 1) 40
    ∷ settle_call "weekly-gw7" gameweek_points
    ∷ ensure_call (weekly ∷ []) 8 200
    ∷ join_call "weekly-gw8" "ann" (eleven 2) 120
    ∷ settle_call "weekly-gw8" gameweek_points
    ∷ []

after_calls-IsBalanced_example : IsBalanced bank (after_calls by_text season bank)
after_calls-IsBalanced_example = after_calls-IsBalanced by_text season bank (record {
  unique = unfold IsUnique in tt;
  capped = tt;
  linked = λ r h. refl;
  keyed = λ r p. omega arith;
})

abbrev finished : League
finished = record {
  league_id = "weekly-gw6";
  name = "Weekly";
  blurb = "";
  gameweek = 6;
  deadline = 50;
  entry_fee_minor = 1000;
  currency = "KES";
  rake_bps = 1000;
  payout_bps = 5000 ∷ 3000 ∷ 2000 ∷ [];
  status = LeagueStatus.settled;
  pool_minor = some 2000;
  rake_minor = some (pos 560);
  settled_at = some 60;
}

abbrev later_bank : House
later_bank = record bank { leagues = finished ∷ [] }

settle_once_example :
    let later = after_calls by_text season later_bank in
    (settle by_text "weekly-gw6" gameweek_points later ≡ (
      ok (record {
        league_id = "weekly-gw6";
        status = already_final;
        entrants = 0;
        pool_minor = 2000;
        rake_minor = pos 560;
        paid_minor = 0;
      }),
      later,
    ))
    × (join "weekly-gw6" "ann" (eleven 1) 20 later ≡ (err (league_locked "weekly-gw6"), later))
    × (find (has_id "weekly-gw6") later.leagues ≡ some finished)
settle_once_example =
    settle_once "weekly-gw6" finished by_text later_bank (refl, refl) season gameweek_points "ann"
      (eleven 1) 20
