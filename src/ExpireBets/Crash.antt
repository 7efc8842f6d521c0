-- ===== src/ExpireBets/Crash.antt =====
-- What `expireOperatorBetsOnCrash` does to the bet log.
use crash_game.Prelude.{
  String, ◌≡◌, refl, ◌∙◌, Bool, ◌&&◌, not, is_some, Option, some, List, [], ◌∷◌, arith, str_eq,
  eq_iff, count, filter, if◌then◌else◌,
}
use crash_game.World.{BetRow, World}
use crash_game.BetLog.{order_by_created}
use crash_game.BetLog.Rows.{find_row}
use crash_game.BetLog.Keys.{HasUniqueRows}
use crash_game.BetLog.Order.{count-order_by_created, count-filter, count_found}
use crash_game.ExpireBets.{expires}
use crash_game.ExpireBets.Loop.{hits, is_missing}

-- The rows that the loop goes through.
abbrev pub listing : String → World → List BetRow
listing round_id w = order_by_created (filter (λ r. str_eq r.round_id round_id) w.rows)

-- How often a row is listed and passes the tests, counted in the table.
count-listing :
    (p : BetRow → Bool) (round_id : String) (w : World)
    → count p (listing round_id w) ≡ count (λ r. str_eq r.round_id round_id && p r) w.rows
count-listing p round_id w =
    count-order_by_created p (filter (λ r. str_eq r.round_id round_id) w.rows)
    ∙ count-filter p (λ r. str_eq r.round_id round_id) w.rows

count_swap :
    (p q r : BetRow → Bool) (rows : List BetRow)
    → count (λ s. p s && (q s && r s)) rows ≡ count (λ s. q s && (p s && r s)) rows
count_swap p q r [] = refl
count_swap p q r (s ∷ rows) = ground (arith, count_swap p q r rows)

-- The bets that the crash takes: of the round, of the game if one is given, and in play.
abbrev pub is_taken : String → Option String → BetRow → Bool
is_taken round_id game_id r = str_eq r.round_id round_id && expires game_id r

pub hits-listing :
    (round_id : String) (game_id : Option String) (k : String) (w : World) (r : BetRow)
    → HasUniqueRows w.rows
    → find_row k w.rows ≡ some r
    → hits game_id k (listing round_id w) ≡ (if is_taken round_id game_id r then 1 else 0)
hits-listing round_id game_id k w r u found =
    count-listing (λ s. str_eq s.bet_id k && expires game_id s) round_id w
    ∙ count_swap (λ s. str_eq s.round_id round_id) (λ s. str_eq s.bet_id k) (expires game_id) w.rows
    ∙ count_found (is_taken round_id game_id) k w.rows r u found

present_weaken :
    (r : BetRow) (all rows : List BetRow)
    → count (λ s. not (is_some (find_row s.bet_id all))) rows ≡ 0
    → count (λ s. not (is_some (find_row s.bet_id (r ∷ all)))) rows ≡ 0
unfolding find_row
present_weaken r all [] h = refl
present_weaken r all (s ∷ rows) h = ground (arith, present_weaken r all rows)

rows_present : (rows : List BetRow) → count (λ s. not (is_some (find_row s.bet_id rows))) rows ≡ 0
unfolding find_row
rows_present [] = refl
rows_present (r ∷ rows) =
    ground (arith, present_weaken r rows rows (rows_present rows), eq_iff r.bet_id r.bet_id)

count_and_zero :
    (p q : BetRow → Bool) (rows : List BetRow) → count q rows ≡ 0 → count (λ r. p r && q r) rows ≡ 0
count_and_zero p q [] h = refl
count_and_zero p q (r ∷ rows) h = ground (arith, count_and_zero p q rows)

pub listing_present :
    (round_id : String) (w : World) → count (is_missing w) (listing round_id w) ≡ 0
listing_present round_id w =
    count-listing (is_missing w) round_id w
    ∙ count_and_zero (λ r. str_eq r.round_id round_id) (is_missing w) w.rows (rows_present w.rows)
