-- ===== src/Examples/Sessions.antt =====
-- Sessions that play, at concrete inputs.
use crash_game.Prelude.{
  inr, String, ◌≡◌, ◌≤◌, refl, true, none, some, Option, List, [], ◌∷◌, ◌▸◌, arith, take,
}
use crash_game.Prelude.Int.{pos}
use crash_game.Prelude.Action.{ok}
use crash_game.Prelude.Dict.{lookup}
use crash_game.Session.{HistoryEntry, SessionStats, zero_stats, Store}
use crash_game.Session.Play.{get_stats, get_history, bets_per_minute, min, history_limit}
use crash_game.Session.Streaks.{Play, placed, won, lost, IsSummary}
use crash_game.Session.Stats.{record_plays, plays_of, get_stats-IsSummary}
use crash_game.Session.History.{append_all, entries_of, get_history_lem}
use crash_game.Session.RateLimit.{granted, granted-le}

abbrev opened : Store
opened = record {
  online = true;
  sessions = [];
  stats = ("s1", zero_stats) ∷ ("s2", zero_stats) ∷ [];
  histories = [];
  rate_buckets = [];
  now = 1000;
}

abbrev evening : List (String × Option String × Play)
evening =
    ("s1", none, won (pos 100) (pos 250) 250)
    ∷ ("s1", none, placed (pos 100))
    ∷ ("s2", some "KES", lost)
    ∷ ("s1", none, lost)
    ∷ ("s2", some "KES", placed (pos 5000))
    ∷ ("s1", none, placed (pos 100))
    ∷ []

get_stats-IsSummary_example :
    let later = record_plays evening opened in
    (x : SessionStats) × (get_stats "s1" later ≡ (ok x, later))
    × IsSummary (plays_of "s1" evening) x
unfolding lookup
get_stats-IsSummary_example = get_stats-IsSummary "s1" evening opened refl refl

abbrev log : List (String × HistoryEntry)
log =
    ("s1", HistoryEntry.crashed 8 (pos 100) 130 none 900)
    ∷ ("s2", HistoryEntry.bet 8 (pos 50) none 850)
    ∷ ("s1", HistoryEntry.bet 8 (pos 100) (some 200) 800)
    ∷ []

get_history_lem_example :
    let later = append_all log opened in
    get_history "s1" 50 later ≡ (ok (take (min 50 history_limit) (entries_of "s1" log)), later)
unfolding lookup
get_history_lem_example = get_history_lem "s1" 50 log opened refl refl

-- A session that has used up an earlier minute.
abbrev waiting : Store
waiting = record opened { rate_buckets = ("s1", record { count = 40; reset_at = 900 }) ∷ [] }

granted-le_example :
    granted "s1" (("s1", 1000) ∷ ("s2", 1001) ∷ ("s1", 1002) ∷ []) waiting ≤ bets_per_minute
unfolding lookup
granted-le_example =
    granted-le "s1" 1000 (("s2", 1001) ∷ ("s1", 1002) ∷ []) waiting
      (inr (record { count = 40; reset_at = 900 }, refl, omega arith))
      ((λ e. omega arith) ▸ (λ e. omega arith) ▸ tt)
