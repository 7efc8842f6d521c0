-- ===== src/Session/Play.antt =====
-- packages/server/src/store.ts: the history of a session, its statistics, and the limit of its bets.
use crash_game.Prelude.{
  ℕ, ◌+◌, String, leb, Bool, true, Option, none, some, or_else, List, [], ◌∷◌, take, if◌then◌else◌,
}
use crash_game.Prelude.Int.{ℤ, pos, negsuc, ◌+ℤ◌, ◌-ℤ◌, ltb_ℤ}
use crash_game.Prelude.Action.{ok, err, pure, gets, ◌>>=◌, ◌>>◌}
use crash_game.Prelude.Dict.{lookup, insert}
use crash_game.Session.{
  SessionStats, zero_stats, HistoryEntry, BucketEntry, Method, ensure_online, put_stats,
}

-- `HISTORY_LIMIT`, `BETS_PER_MINUTE`
abbrev pub history_limit : ℕ
history_limit = 500

abbrev pub bets_per_minute : ℕ
bets_per_minute = 40

-- `appendHistory`
unfoldable pub append_history : String → HistoryEntry → Method (Unit {0})
append_history id entry s = (
  ok tt,
  if s.online
      then record s {
        histories =
            insert id (take history_limit (entry ∷ or_else (lookup id s.histories) [])) s.histories;
      }
      else s,
)

abbrev pub min : ℕ → ℕ → ℕ
min a b = if leb a b then a else b

-- `getHistory`
unfoldable pub get_history : String → (limit : ℕ) → Method (List HistoryEntry)
get_history id limit = do
  ensure_online
  list ← gets (λ s. lookup id s.histories)
  pure (take (min limit history_limit) (or_else list []))

-- `getStats`
unfoldable pub get_stats : String → Method SessionStats
get_stats id = do
  ensure_online
  found ← gets (λ s. lookup id s.stats)
  pure (or_else found zero_stats)

-- `if (currency && !s.currency) s.currency = currency`
abbrev pub stamped : Option String → Option String → Option String
stamped given (some old) = some old
stamped given none = given

abbrev pub stamp : Option String → SessionStats → SessionStats
stamp given s = record s { currency = stamped given s.currency }

-- `mutateStats`
abbrev pub mutate_stats :
    String → (SessionStats → SessionStats) → Option String → Method SessionStats
mutate_stats id f currency = do
  found ← gets (λ s. lookup id s.stats)
  put_stats id (f (stamp currency (or_else found zero_stats)))
  pure (f (stamp currency (or_else found zero_stats)))

abbrev pub max : ℕ → ℕ → ℕ
max a b = if leb a b then b else a

abbrev pub max_ℤ : ℤ → ℤ → ℤ
max_ℤ a b = if ltb_ℤ a b then b else a

abbrev pub count_bet : ℤ → SessionStats → SessionStats
count_bet stake s = record s {
  bets = s.bets + 1;
  total_wagered = s.total_wagered +ℤ stake;
  net_profit = s.net_profit -ℤ stake;
}

-- `s.currentStreak >= 0 ? s.currentStreak + 1 : 1`
abbrev pub longer_win : ℤ → ℤ
longer_win streak = if ltb_ℤ streak (pos 0) then pos 1 else streak +ℤ pos 1

-- `s.currentStreak <= 0 ? s.currentStreak - 1 : -1`
abbrev pub longer_loss : ℤ → ℤ
longer_loss streak = if ltb_ℤ (pos 0) streak then negsuc 0 else streak -ℤ pos 1

abbrev pub count_win : (stake payout : ℤ) → (multiplier : ℕ) → SessionStats → SessionStats
count_win stake payout multiplier s = record s {
  wins = s.wins + 1;
  total_won = s.total_won +ℤ payout;
  net_profit = s.net_profit +ℤ payout;
  biggest_cashout = max s.biggest_cashout multiplier;
  biggest_win = max_ℤ s.biggest_win (payout -ℤ stake);
  current_streak = longer_win s.current_streak;
  best_streak = max_ℤ s.best_streak (longer_win s.current_streak);
}

abbrev pub count_loss : SessionStats → SessionStats
count_loss s = record s { losses = s.losses + 1; current_streak = longer_loss s.current_streak }

-- `recordBet`
unfoldable pub record_bet : String → ℤ → Option String → Method SessionStats
record_bet id stake currency = ensure_online >>= λ _. mutate_stats id (count_bet stake) currency

-- `recordWin`
unfoldable pub record_win :
    String → (stake payout : ℤ) → (multiplier : ℕ) → Option String → Method SessionStats
record_win id stake payout multiplier currency =
    ensure_online >>= λ _. mutate_stats id (count_win stake payout multiplier) currency

-- `recordLoss`
unfoldable pub record_loss : String → Option String → Method SessionStats
record_loss id currency = ensure_online >>= λ _. mutate_stats id count_loss currency

-- `recordStatsSafely`
abbrev pub record_stats_safely : Method SessionStats → Method (Option SessionStats)
record_stats_safely m s =
    let (r, s') = m s in (elim r [ ok stats ↦ ok (some stats) | err _ ↦ ok none ], s')

abbrev pub next_bucket : ℕ → Option BucketEntry → Bool × BucketEntry
next_bucket now none = (true, record { count = 1; reset_at = now + 60000 })
next_bucket now (some entry) =
    if leb entry.reset_at now
    then (true, record { count = 1; reset_at = now + 60000 })
    else (leb (entry.count + 1) bets_per_minute, record entry { count = entry.count + 1 })

-- `checkRateLimit`
unfoldable pub check_rate_limit : String → Method Bool
check_rate_limit id s =
    let (granted, entry) = next_bucket s.now (lookup id s.rate_buckets) in
    (ok granted, record s { rate_buckets = insert id entry s.rate_buckets })

-- The sweep of the stale buckets, every five minutes
unfoldable pub sweep : ℕ → List (String × BucketEntry) → List (String × BucketEntry)
sweep now [] = []
sweep now ((id, entry) ∷ buckets) =
    let rest = sweep now buckets in if leb entry.reset_at now then rest else (id, entry) ∷ rest
