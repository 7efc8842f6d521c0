-- ===== src/League/Settle.antt =====
-- packages/wallet/src/fantasy-league-repo-pg.ts: `settle`, with the refunds of a cancelled league.
use crash_game.Prelude.{
  ℕ, String, ltb, ◌==◌, ◌+◌, str_eq, Bool, true, ◌&&◌, Option, none, some, or_else, List, [], ◌∷◌,
  map, length, filter, find, if◌then◌else◌,
}
use crash_game.Prelude.Int.{ℤ, pos, ◌+ℤ◌}
use crash_game.Prelude.Action.{Result, ok, err, Action, pure, ◌>>=◌}
use crash_game.Ledger.{Kind, Table, LedgerError, credit_in_tx}
use crash_game.Fantasy.{Live, squad_points}
use crash_game.Fantasy.Leaderboard.{Entrant, rank_by_points, split_pool}
use crash_game.Fantasy.Payouts.{Ranked, payouts}
use crash_game.League.{
  LeagueStatus, is_open, League, Member, House, LeagueError, league_not_found, ledger_error, has_id,
  of_league, set_league, entry_ref,
}

-- `MIN_ENTRANTS`
abbrev pub min_entrants : ℕ
min_entrants = 2

-- `SettlementOutcome['status']`
pub data OutcomeStatus : Type 0 where
  settled cancelled already_final : OutcomeStatus

pub record SettlementOutcome : Type 0 where
  pub league_id : String
  pub status : OutcomeStatus
  pub entrants : ℕ
  pub pool_minor : ℕ
  pub rake_minor : ℤ
  pub paid_minor : ℕ

-- The loop that refunds the fees; a credit that throws ends it.
unfoldable pub refund_all :
    String → (fee : ℕ) → String → List Member → Action Table LedgerError (Unit {0})
refund_all league_id fee currency [] = pure tt
refund_all league_id fee currency (m ∷ ms) =
    credit_in_tx m.player_id (pos fee) Kind.adjust
      (entry_ref "fantasy-refund:" league_id m.player_id) currency
    >>= λ _. refund_all league_id fee currency ms

-- The loop that credits the payouts, and what it has paid; payouts of nothing are left out.
unfoldable pub credit_all :
    String → String → List (String × ℕ) → (paid_minor : ℕ) → Action Table LedgerError ℕ
credit_all league_id currency [] paid_minor = pure paid_minor
credit_all league_id currency ((player_id, amount) ∷ entries) paid_minor =
    let skipped = credit_all league_id currency entries paid_minor in
    let credited =
      credit_in_tx player_id (pos amount) Kind.win (entry_ref "fantasy-payout:" league_id player_id)
        currency
      >>= λ _. credit_all league_id currency entries (paid_minor + amount) in
    if amount == 0 then skipped else credited

abbrev pub entrant_of : Live → Member → Entrant
entrant_of live m = record { key = m.player_id; entrant_points = squad_points m.squad live }

abbrev pub ranked_of : Entrant × ℕ → Ranked
ranked_of (e, rank) = record { key = e.key; rank = rank }

abbrev pub has_key : String → Entrant × ℕ → Bool
has_key key (e, rank) = str_eq e.key key

abbrev pub is_key : String → String × ℕ → Bool
is_key key (k, amount) = str_eq k key

-- `byKey.get(r.key) ?? 0`
abbrev pub payout_of : Option (String × ℕ) → ℕ
payout_of none = 0
payout_of (some (k, amount)) = amount

abbrev pub with_result : List (String × ℕ) → Option (Entrant × ℕ) → Member → Member
with_result by_key none m = m
with_result by_key (some (e, rank)) m = record m {
  points = some e.entrant_points;
  final_rank = some rank;
  payout_minor = some (payout_of (find (is_key m.player_id) by_key));
}

-- `UPDATE fantasy_league_members … FROM unnest(…)`
unfoldable pub set_results :
    String → List (Entrant × ℕ) → List (String × ℕ) → List Member → List Member
set_results league_id ranked by_key [] = []
set_results league_id ranked by_key (m ∷ ms) =
    (if of_league league_id m then with_result by_key (find (has_key m.player_id) ranked) m else m)
    ∷ set_results league_id ranked by_key ms

abbrev pub closed_as : LeagueStatus → (pool_minor : ℕ) → (rake_minor : ℤ) → ℕ → League → League
closed_as status pool_minor rake_minor now l = record l {
  status = status;
  pool_minor = some pool_minor;
  rake_minor = some rake_minor;
  settled_at = some now;
}

abbrev pub Settled : Type 0
Settled = Result LeagueError SettlementOutcome × House

-- The end of a cancelled league
abbrev pub cancel_refunded :
    String → (entrants : ℕ) → House → Result LedgerError (Unit {0}) × Table → Settled
cancel_refunded league_id entrants house (err e, t) = (err (ledger_error e), house)
cancel_refunded league_id entrants house (ok _, t) = (
  ok (record {
    league_id = league_id;
    status = OutcomeStatus.cancelled;
    entrants = entrants;
    pool_minor = 0;
    rake_minor = pos 0;
    paid_minor = 0;
  }),
  record house {
    ledger = t;
    leagues =
        set_league league_id (closed_as LeagueStatus.cancelled 0 (pos 0) house.now) house.leagues;
  },
)

-- The end of a league that pays out
abbrev pub settle_credited :
    String
    → (entrants pool_minor : ℕ) → (rake_minor : ℤ) → List Member
    → House
    → Result LedgerError ℕ × Table
    → Settled
settle_credited league_id entrants pool_minor rake_minor members house (err e, t) =
    (err (ledger_error e), house)
settle_credited league_id entrants pool_minor rake_minor members house (ok paid_minor, t) = (
  ok (record {
    league_id = league_id;
    status = OutcomeStatus.settled;
    entrants = entrants;
    pool_minor = pool_minor;
    rake_minor = rake_minor;
    paid_minor = paid_minor;
  }),
  record house {
    ledger = t;
    leagues =
        set_league league_id (closed_as LeagueStatus.settled pool_minor rake_minor house.now)
          house.leagues;
    members = members;
  },
)

module _ (by_uuid : String → String → Bool) where
  -- `ORDER BY m.joined_at ASC, m.player_id ASC`
  abbrev pub joined_before : Member → Member → Bool
  joined_before m n =
      if ltb m.joined_at n.joined_at
      then true
      else m.joined_at == n.joined_at && by_uuid m.player_id n.player_id

  unfoldable pub insert_joined : Member → List Member → List Member
  insert_joined m [] = m ∷ []
  insert_joined m (n ∷ ns) =
      let rest = insert_joined m ns in if joined_before n m then n ∷ rest else m ∷ n ∷ ns

  unfoldable pub by_join : List Member → List Member
  unfolding insert_joined
  by_join [] = []
  by_join (m ∷ ms) = insert_joined m (by_join ms)

  -- The ranking, the split and the payouts of a league with enough entrants
  abbrev pub settle_ranked : String → League → List Member → Live → House → Settled
  settle_ranked league_id l entries live house =
      let ranked = rank_by_points (map (entrant_of live) entries) in
      let split = split_pool l.entry_fee_minor (length entries) l.rake_bps in
      let p = payouts (map ranked_of ranked) split.prize_pool_minor l.payout_bps in
      settle_credited league_id (length entries) split.pool_minor
        (pos split.rake_minor +ℤ p.dust_minor) (set_results league_id ranked p.by_key house.members)
        house (credit_all league_id l.currency p.by_key 0 house.ledger)

  abbrev pub settle_open : String → League → List Member → Live → House → Settled
  settle_open league_id l entries live house =
      if ltb (length entries) min_entrants
      then cancel_refunded league_id (length entries) house
          (refund_all league_id l.entry_fee_minor l.currency entries house.ledger)
      else settle_ranked league_id l entries live house

  abbrev pub settle_found : String → Live → House → Option League → Settled
  settle_found league_id live house none = (err (league_not_found league_id), house)
  settle_found league_id live house (some l) =
      if is_open l.status
      then settle_open league_id l (by_join (filter (of_league league_id) house.members)) live house
      else (
        ok (record {
          league_id = league_id;
          status = already_final;
          entrants = 0;
          pool_minor = or_else l.pool_minor 0;
          rake_minor = or_else l.rake_minor (pos 0);
          paid_minor = 0;
        }),
        house,
      )

  -- `PgFantasyLeagueRepo.settle`
  unfoldable pub settle : String → Live → House → Settled
  unfolding rank_by_points split_pool payouts refund_all credit_all set_results set_league by_join
  settle league_id live house =
      settle_found league_id live house (find (has_id league_id) house.leagues)
