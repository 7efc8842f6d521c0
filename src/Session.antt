-- ===== src/Session.antt =====
-- packages/server/src/store.ts: the session store. A key of RocksDB with its prefix is a dictionary
-- here; a lock makes each read-modify-write one step. Demo credits are counted in hundredths and
-- money in minor units, so that `quantize` and `Math.round` change nothing.
pub mod Play
pub mod Stats
pub mod Streaks
pub mod History
pub mod RateLimit
use crash_game.Prelude.{
  ℕ, ◌+◌, ◌*◌, String, ltb, Bool, true, false, not, ◌&&◌, Option, none, some, or_else, List, [],
  ◌∷◌, str_eq, if◌then◌else◌,
}
use crash_game.Prelude.Int.{ℤ, pos, ◌+ℤ◌}
use crash_game.Prelude.Action.{Result, ok, err, Action, pure, throw, gets, modify, ◌>>=◌, ◌>>◌}
use crash_game.Prelude.Dict.{lookup, insert, delete}

pub record RgLimits : Type 0 where
  pub max_bet_minor : Option ℕ
  pub session_ends_at : Option ℕ

-- `Session`
pub record Session : Type 0 where
  pub session_id : String
  pub display_name : String
  pub balance : ℤ
  pub created_at : ℕ
  pub expires_at : ℕ
  pub operator_id : Option String
  pub player_id : Option String
  pub currency : Option String
  pub balance_minor : Option ℤ
  pub rg_limits : Option RgLimits
  pub game_id : Option String
  pub lobby_player_id : Option String

-- `SessionStats`; a multiplier is in hundredths.
pub record SessionStats : Type 0 where
  pub bets : ℕ
  pub wins : ℕ
  pub losses : ℕ
  pub total_wagered : ℤ
  pub total_won : ℤ
  pub net_profit : ℤ
  pub biggest_cashout : ℕ
  pub biggest_win : ℤ
  pub current_streak : ℤ
  pub best_streak : ℤ
  pub currency : Option String

-- `ZERO_STATS`
abbrev pub zero_stats : SessionStats
zero_stats = record {
  bets = 0;
  wins = 0;
  losses = 0;
  total_wagered = pos 0;
  total_won = pos 0;
  net_profit = pos 0;
  biggest_cashout = 0;
  biggest_win = pos 0;
  current_streak = pos 0;
  best_streak = pos 0;
  currency = none;
}

-- `HistoryEntry`
pub data HistoryEntry : Type 0 where
  bet : (round_number : ℕ) (amount : ℤ) (auto_cashout : Option ℕ) (at : ℕ) → HistoryEntry
  cashout :
      (round_number : ℕ) (amount : ℤ) (multiplier : ℕ) (payout : ℤ) (auto : Bool) (at : ℕ)
      → HistoryEntry
  crashed :
      (round_number : ℕ) (amount : ℤ) (crash_point : ℕ) (server_seed : Option String) (at : ℕ)
      → HistoryEntry

-- `BucketEntry`
pub record BucketEntry : Type 0 where
  pub count : ℕ
  pub reset_at : ℕ

pub record Store : Type 0 where
  pub online : Bool
  pub sessions : List (String × Session)
  pub stats : List (String × SessionStats)
  pub histories : List (String × List HistoryEntry)
  pub rate_buckets : List (String × BucketEntry)
  pub now : ℕ

pub data StoreError : Type 0 where
  store_offline session_not_found : StoreError

abbrev pub Method : Type 0 → Type 0
Method A = Action Store StoreError A

-- `ensureOnline`
abbrev pub ensure_online : Method (Unit {0})
ensure_online s = (if s.online then ok tt else err store_offline, s)

-- `SESSION_TTL_SEC * 1000` and `OPERATOR_SESSION_TTL_MS`
abbrev pub session_ttl_ms : ℕ
session_ttl_ms = 60 * 60 * 24 * 1000

abbrev pub operator_session_ttl_ms : ℕ
operator_session_ttl_ms = 8 * 60 * 60 * 1000

abbrev pub put_session : Session → Method (Unit {0})
put_session session =
    modify (λ s. record s { sessions = insert session.session_id session s.sessions })

abbrev pub put_stats : String → SessionStats → Method (Unit {0})
put_stats id stats = modify (λ s. record s { stats = insert id stats s.stats })

-- The end of each way to make a session
abbrev pub open_session : (ℕ → Session) → Method Session
open_session make = do
  ensure_online
  now ← gets (λ s. s.now)
  put_session (make now)
  put_stats (make now).session_id zero_stats
  pure (make now)

pub record OperatorSessionInput : Type 0 where
  pub operator_id : String
  pub player_id : String
  pub currency : String
  pub balance_minor : ℤ
  pub display_name : String
  pub rg_limits : Option RgLimits
  pub game_id : Option String

-- `createOperatorSession`; the new id comes in.
unfoldable pub create_operator_session : String → OperatorSessionInput → Method Session
create_operator_session id opts = open_session (λ now. record {
  session_id = id;
  display_name = opts.display_name;
  balance = opts.balance_minor;
  created_at = now;
  expires_at = now + operator_session_ttl_ms;
  operator_id = some opts.operator_id;
  player_id = some opts.player_id;
  currency = some opts.currency;
  balance_minor = some opts.balance_minor;
  rg_limits = opts.rg_limits;
  game_id = some (or_else opts.game_id "galaxy-crash");
  lobby_player_id = none;
})

-- `createPlayerSession`
unfoldable pub create_player_session :
    (id lobby_player_id username game_id : String) (balance_minor : ℤ) (currency : Option String)
    → (default_currency : String) → Method Session
create_player_session id lobby_player_id username game_id balance_minor currency default_currency =
    open_session (λ now. record {
      session_id = id;
      display_name = username;
      balance = balance_minor;
      created_at = now;
      expires_at = now + operator_session_ttl_ms;
      operator_id = none;
      player_id = none;
      currency = some (or_else currency default_currency);
      balance_minor = some balance_minor;
      rg_limits = none;
      game_id = some game_id;
      lobby_player_id = some lobby_player_id;
    })

abbrev pub get_raw : String → Method (Option Session)
get_raw id = gets (λ s. lookup id s.sessions)

-- `deleteSession`
unfoldable pub delete_session : String → Method (Unit {0})
delete_session id s = (
  ok tt,
  if s.online
      then record s {
        sessions = delete id s.sessions;
        stats = delete id s.stats;
        histories = delete id s.histories;
      }
      else s,
)

-- The lazy expiry of `getSession`
abbrev pub unexpired : String → Option Session → Method (Option Session)
unexpired id none s = (ok none, s)
unexpired id (some session) s =
    if ltb 0 session.expires_at && ltb session.expires_at s.now
    then (delete_session id >>= λ _. pure none) s
    else (ok (some session), s)

-- `getSession`
unfoldable pub get_session : String → Method (Option Session)
unfolding delete_session
get_session id = do ensure_online; found ← get_raw id; unexpired id found

abbrev pub bind_missing : String → Session → Option String → Method (Unit {0})
bind_missing game_id session (some g) = pure tt
bind_missing game_id session none = put_session (record session { game_id = some game_id })

abbrev pub bind_found : String → Option Session → Method (Unit {0})
bind_found game_id none = pure tt
bind_found game_id (some session) = bind_missing game_id session session.game_id

-- `bindSessionGame`
unfoldable pub bind_session_game : String → String → Method (Unit {0})
unfolding get_session
bind_session_game id game_id = get_session id >>= bind_found game_id

abbrev pub touched : Session → Method (Unit {0})
touched session s = put_session (record session { expires_at = s.now + session_ttl_ms }) s

abbrev pub refresh_found : Option Session → Method (Unit {0})
refresh_found none = pure tt
refresh_found (some session) = touched session

-- `refreshTtl`
unfoldable pub refresh_ttl : String → Method (Unit {0})
refresh_ttl id s = if s.online then (get_raw id >>= refresh_found) s else (ok tt, s)

abbrev pub moved_balance : (ℤ → ℤ) → Option Session → Method ℤ
moved_balance f none = throw session_not_found
moved_balance f (some session) =
    let balance = f session.balance in
    touched (record session { balance = balance }) >>= λ _. pure balance

-- `adjustBalance`
unfoldable pub adjust_balance : String → ℤ → Method ℤ
adjust_balance id delta = do
  ensure_online
  found ← get_raw id
  moved_balance (λ balance. balance +ℤ delta) found

-- `setBalance`
unfoldable pub set_balance : String → ℤ → Method (Unit {0})
set_balance id balance = do
  ensure_online
  found ← get_raw id
  moved_balance (λ _. balance) found
  pure tt
