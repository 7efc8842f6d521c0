-- ===== src/League.antt =====
-- packages/wallet/src/fantasy-league-repo-pg.ts: the class PgFantasyLeagueRepo over the ledger: the
-- leagues, their members, and the money of both. A league's id is the primary key of its row, and
-- league and player that of a member's. Each method is one transaction: what is thrown leaves the
-- state as it was. `by_uuid` is the order in which Postgres sorts players.
pub mod Settle
pub mod Accounts
pub mod Places
pub mod Conserved
pub mod Lawful
pub mod Joining
pub mod Paying
pub mod Books
pub mod Once
use crash_game.Prelude.{
  ℕ, String, concat, show, ◌+◌, ltb, ◌==◌, leb, str_eq, Bool, true, false, ◌&&◌, Option, none, some,
  or_else, List, [], ◌∷◌, ◌++◌, map, length, filter, find, any, if◌then◌else◌,
}
use crash_game.Prelude.Int.{ℤ, pos, ◌+ℤ◌}
use crash_game.Prelude.Action.{Result, ok, err}
use crash_game.Ledger.{Kind, Table, LedgerError, place_bet, credit_in_tx}
use crash_game.Fantasy.{SquadPick, Live, squad_points}
use crash_game.Fantasy.Leaderboard.{Entrant, rank_by_points, PoolSplit, split_pool}
use crash_game.Fantasy.Payouts.{Ranked, Payouts, payouts}

-- `LeagueStatus`; `opened` is 'open'.
pub data LeagueStatus : Type 0 where
  opened settled cancelled : LeagueStatus

abbrev pub is_open : LeagueStatus → Bool
is_open opened = true
is_open _ = false

-- A row of `fantasy_leagues`.
pub record League : Type 0 where
  pub league_id : String
  pub name : String
  pub blurb : String
  pub gameweek : ℕ
  pub deadline : ℕ
  pub entry_fee_minor : ℕ
  pub currency : String
  pub rake_bps : ℕ
  pub payout_bps : List ℕ
  pub status : LeagueStatus
  pub pool_minor : Option ℕ
  pub rake_minor : Option ℤ
  pub settled_at : Option ℕ

-- A row of `fantasy_league_members`.
pub record Member : Type 0 where
  pub league_id : String
  pub player_id : String
  pub squad : SquadPick
  pub points : Option ℤ
  pub final_rank : Option ℕ
  pub payout_minor : Option ℕ
  pub joined_at : ℕ

-- The tables, and the clock of the database.
pub record House : Type 0 where
  pub ledger : Table
  pub leagues : List League
  pub members : List Member
  pub now : ℕ

pub data LeagueError : Type 0 where
  league_not_found : (league_id : String) → LeagueError
  league_locked : (league_id : String) → LeagueError
  already_joined : (league_id player_id : String) → LeagueError
  check_violation : LeagueError
  ledger_error : LedgerError → LeagueError

abbrev pub has_id : String → League → Bool
has_id league_id l = str_eq l.league_id league_id

abbrev pub of_league : String → Member → Bool
of_league league_id m = str_eq m.league_id league_id

abbrev pub is_entry : String → String → Member → Bool
is_entry league_id player_id m = str_eq m.league_id league_id && str_eq m.player_id player_id

-- `UPDATE fantasy_leagues SET … WHERE league_id = $1`
unfoldable pub set_league : String → (League → League) → List League → List League
set_league league_id f [] = []
set_league league_id f (l ∷ ls) =
    let rest = set_league league_id f ls in if has_id league_id l then f l ∷ ls else l ∷ rest

-- `LeagueTemplate`
pub record LeagueTemplate : Type 0 where
  pub template_id : String
  pub name : String
  pub blurb : String
  pub entry_fee_minor : ℕ
  pub currency : String

-- A new league with the defaults of the table.
abbrev pub new_league : LeagueTemplate → (gameweek deadline : ℕ) → League
new_league t gameweek deadline = record {
  league_id = concat (concat t.template_id "-gw") (show gameweek);
  name = t.name;
  blurb = t.blurb;
  gameweek = gameweek;
  deadline = deadline;
  entry_fee_minor = t.entry_fee_minor;
  currency = t.currency;
  rake_bps = 1000;
  payout_bps = 5000 ∷ 3000 ∷ 2000 ∷ [];
  status = opened;
  pool_minor = none;
  rake_minor = none;
  settled_at = none;
}

-- `DO UPDATE SET deadline = …`, of a league that is still open
abbrev pub moved_deadline : ℕ → League → League
moved_deadline deadline l = if is_open l.status then record l { deadline = deadline } else l

-- The insertion of one template: whether the row is new, and the leagues
abbrev pub upsert_league : League → List League → Option League → Bool × List League
upsert_league l ls (some old) = (false, set_league l.league_id (moved_deadline l.deadline) ls)
upsert_league l ls none = (true, ls ++ l ∷ [])

-- The loop on the templates; a fee of zero violates the check of the table, and what was inserted
-- before it stays, since the loop is not a transaction.
unfoldable pub ensure_leagues :
    List LeagueTemplate → (gameweek deadline created : ℕ) → House → Result LeagueError ℕ × House
unfolding set_league
ensure_leagues [] gameweek deadline created house = (ok created, house)
ensure_leagues (t ∷ ts) gameweek deadline created house =
    let l = new_league t gameweek deadline in
    let (inserted, ls) = upsert_league l house.leagues (find (has_id l.league_id) house.leagues) in
    let rest =
      ensure_leagues ts gameweek deadline (if inserted then created + 1 else created)
        (record house { leagues = ls }) in
    if t.entry_fee_minor == 0 then (err check_violation, house) else rest

-- `PgFantasyLeagueRepo.getEntry`
unfoldable pub get_entry : String → String → House → Option Member
get_entry league_id player_id house = find (is_entry league_id player_id) house.members

abbrev pub new_member : String → String → SquadPick → ℕ → Member
new_member league_id player_id squad now = record {
  league_id = league_id;
  player_id = player_id;
  squad = squad;
  points = none;
  final_rank = none;
  payout_minor = none;
  joined_at = now;
}

abbrev pub with_member : Member → Table → House → House
with_member m t house = record house { ledger = t; members = house.members ++ m ∷ [] }

-- The commit or the rollback after the debit
abbrev pub join_debited :
    Member → House → Result LedgerError ℤ × Table → Result LeagueError (Option Member × ℤ) × House
join_debited m house (err e, t) = (err (ledger_error e), house)
join_debited m house (ok balance_minor, t) =
    let house' = with_member m t house in
    (ok (get_entry m.league_id m.player_id house', balance_minor), house')

abbrev pub entry_ref : String → String → String → String
entry_ref label league_id player_id = concat (concat (concat label league_id) ":") player_id

-- The insertion of the member and the debit of the fee
abbrev pub join_open :
    String → League → String → SquadPick → House → Result LeagueError (Option Member × ℤ) × House
join_open league_id l player_id squad house =
    if any (is_entry league_id player_id) house.members
    then (err (already_joined league_id player_id), house)
    else join_debited (new_member league_id player_id squad house.now) house (
        place_bet player_id (pos l.entry_fee_minor) (entry_ref "fantasy-entry:" league_id player_id)
          l.currency house.ledger)

abbrev pub join_found :
    String
    → String
    → SquadPick
    → ℕ
    → House
    → Option League
    → Result LeagueError (Option Member × ℤ) × House
join_found league_id player_id squad now_ms house none = (err (league_not_found league_id), house)
join_found league_id player_id squad now_ms house (some l) =
    if is_open l.status && ltb now_ms l.deadline
    then join_open league_id l player_id squad house
    else (err (league_locked league_id), house)

-- `PgFantasyLeagueRepo.join`
unfoldable pub join :
    String
    → String
    → SquadPick
    → (now_ms : ℕ) → House
    → Result LeagueError (Option Member × ℤ) × House
unfolding get_entry place_bet
join league_id player_id squad now_ms house =
    join_found league_id player_id squad now_ms house (find (has_id league_id) house.leagues)
