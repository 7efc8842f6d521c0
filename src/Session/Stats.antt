-- ===== src/Session/Stats.antt =====
-- The statistics that the store keeps of each session.
use crash_game.Prelude.{
  String, ◌≡◌, refl, sym, ap, ◌∙◌, true, Option, some, or_else, List, [], ◌∷◌, str_eq, eq_iff,
  if◌then◌else◌, Bool-cases, inl, inr,
}
use mathlib.Core.Path.{subst}
use crash_game.Prelude.Action.{ok}
use crash_game.Prelude.Dict.{lookup, insert, lookup-insert}
use crash_game.Session.{SessionStats, zero_stats, Store, Method}
use crash_game.Session.Play.{
  stamp, count_bet, count_win, count_loss, get_stats, record_bet, record_win, record_loss,
}
use crash_game.Session.Streaks
use crash_game.Session.Streaks.{
  Play, placed, won, lost, IsSummary, stamp-IsSummary, count_bet-IsSummary, count_win-IsSummary,
  count_loss-IsSummary,
}

-- A play is recorded for a session.
unfoldable pub record_play : String → Option String → Play → Method SessionStats
unfolding record_bet record_win record_loss
record_play id currency (placed stake) = record_bet id stake currency
record_play id currency (won stake payout multiplier) =
    record_win id stake payout multiplier currency
record_play id currency lost = record_loss id currency

-- Plays of some sessions, the newest first.
unfoldable pub record_plays : List (String × Option String × Play) → Store → Store
unfolding record_play
record_plays [] s = s
record_plays ((id, currency, p) ∷ ps) s = (record_play id currency p (record_plays ps s)).1

-- The plays of one session among them
unfoldable pub plays_of : String → List (String × Option String × Play) → List Play
plays_of id [] = []
plays_of id ((j, currency, p) ∷ ps) =
    let rest = plays_of id ps in if str_eq j id then p ∷ rest else rest

counted : Play → SessionStats → SessionStats
counted (placed stake) = count_bet stake
counted (won stake payout multiplier) = count_win stake payout multiplier
counted lost = count_loss

counted-IsSummary :
    (p : Play) (ps : List Play) (s : SessionStats)
    → IsSummary ps s
    → IsSummary (p ∷ ps) (counted p s)
unfolding counted
counted-IsSummary (placed stake) ps s h = count_bet-IsSummary stake ps s h
counted-IsSummary (won stake payout multiplier) ps s h =
    count_win-IsSummary stake payout multiplier ps s h
counted-IsSummary lost ps s h = count_loss-IsSummary ps s h

-- What recording a play leaves in the store.
recorded : String → Option String → Play → Store → Store
recorded id currency p s = record s {
  stats = insert id (counted p (stamp currency (or_else (lookup id s.stats) zero_stats))) s.stats;
}

record_play_lem :
    (id : String) (currency : Option String) (p : Play) (s : Store)
    → s.online ≡ true
    → (record_play id currency p s).1 ≡ recorded id currency p s
unfolding record_play recorded counted
record_play_lem id currency (placed stake) s on = rw on refl
record_play_lem id currency (won stake payout multiplier) s on = rw on refl
record_play_lem id currency lost s on = rw on refl

online_after :
    (ps : List (String × Option String × Play)) (s : Store)
    → s.online ≡ true
    → (record_plays ps s).online ≡ true
unfolding record_plays recorded
online_after [] s on = on
online_after ((id, currency, p) ∷ ps) s on =
    ap (λ t. t.online) (record_play_lem id currency p (record_plays ps s) (online_after ps s on))
    ∙ online_after ps s on

-- The statistics of a session, where it has some.
abbrev IsKnown : String → List Play → Store → Type 0
IsKnown id ps s = (x : SessionStats) × (lookup id s.stats ≡ some x) × IsSummary ps x

IsKnown-after :
    (id j : String) (currency : Option String) (p : Play) (ps : List Play) (s : Store)
    → IsKnown id ps s
    → IsKnown id (if str_eq j id then p ∷ ps else ps) (recorded j currency p s)
unfolding recorded
IsKnown-after id j currency p ps s (x, found, h) = elim (Bool-cases (str_eq j id)) [
  | inr other ↦ rw other (x, lookup-insert j id _ s.stats ∙ rw other found, h)
  | inl same ↦ rw same (
    counted p (stamp currency x),
    lookup-insert j id _ s.stats
        ∙ rw same (
            ap (λ o. some (counted p (stamp currency (or_else o zero_stats))))
              (ap (λ k. lookup k s.stats) ((eq_iff j id).0 same) ∙ found)),
    counted-IsSummary p ps (stamp currency x) (stamp-IsSummary currency ps x h),
  )
]

plays-IsKnown :
    (id : String) (ps : List (String × Option String × Play)) (s : Store)
    → s.online ≡ true
    → IsKnown id [] s
    → IsKnown id (plays_of id ps) (record_plays ps s)
unfolding record_plays plays_of
plays-IsKnown id [] s on h = h
plays-IsKnown id ((j, currency, p) ∷ ps) s on h =
    subst (IsKnown id (plays_of id ((j, currency, p) ∷ ps)))
      (sym (record_play_lem j currency p (record_plays ps s) (online_after ps s on)))
      (IsKnown-after id j currency p (plays_of id ps) (record_plays ps s)
        (plays-IsKnown id ps s on h))

-- However bets, wins and losses of all sessions are recorded one after another, while the store is
-- online: what `getStats` returns for a session that began with `ZERO_STATS` is the account of its
-- own plays. The counters are the numbers of bets, wins and losses, the profit is what was won less
-- what was staked, the current streak is the wins since the last loss or, negative, the losses since
-- the last win, and the best streak is the most wins in a row at any time.
pub get_stats-IsSummary :
    (id : String) (ps : List (String × Option String × Play)) (s : Store)
    → s.online ≡ true
    → lookup id s.stats ≡ some zero_stats
    → let later = record_plays ps s in
      (x : SessionStats) × (get_stats id later ≡ (ok x, later)) × IsSummary (plays_of id ps) x
unfolding get_stats
get_stats-IsSummary id ps s on fresh =
    let (x, found, h) = plays-IsKnown id ps s on (zero_stats, fresh, Streaks.zero-IsSummary) in
    (x, rw (online_after ps s on, found) refl, h)
