-- ===== src/BetLog/Order.antt =====
-- The listings of the bet log: what a row that is found by its key has to do with the rows listed.
use crash_game.Prelude.{
  ℕ, ◌≤◌, String, ◌≡◌, refl, Bool, ◌&&◌, none, some, List, [], ◌∷◌, str_eq, eq_iff, arith, filter,
  count, if◌then◌else◌,
}
use crash_game.World.{BetRow}
use crash_game.BetLog.{insert_by_created, order_by_created}
use crash_game.BetLog.Rows.{find_row}
use crash_game.BetLog.Keys.{HasUniqueRows}

-- Neither the order nor the size of a listing changes which rows are in it.
module _ (p : BetRow → Bool) where
  count-insert_by_created :
      (r : BetRow) (rows : List BetRow) → count p (insert_by_created r rows) ≡ count p (r ∷ rows)
  unfolding insert_by_created
  count-insert_by_created r [] = refl
  count-insert_by_created r (s ∷ rows) = ground (arith, count-insert_by_created r rows)

  pub count-order_by_created : (rows : List BetRow) → count p (order_by_created rows) ≡ count p rows
  unfolding order_by_created
  count-order_by_created [] = refl
  count-order_by_created (r ∷ rows) =
      ground (arith, count-insert_by_created r (order_by_created rows), count-order_by_created rows)

pub count-filter :
    (p q : BetRow → Bool) (rows : List BetRow)
    → count p (filter q rows) ≡ count (λ r. q r && p r) rows
count-filter p q [] = refl
count-filter p q (r ∷ rows) = ground (arith, count-filter p q rows)

pub count_absent :
    (p : BetRow → Bool) (k : String) (rows : List BetRow)
    → find_row k rows ≡ none
    → count (λ r. str_eq r.bet_id k && p r) rows ≡ 0
unfolding find_row
count_absent p k [] h = refl
count_absent p k (r ∷ rows) h = ground (arith, count_absent p k rows)

-- Of the rows with one key exactly the found one counts.
pub count_found :
    (p : BetRow → Bool) (k : String) (rows : List BetRow) (r : BetRow)
    → HasUniqueRows rows
    → find_row k rows ≡ some r
    → count (λ s. str_eq s.bet_id k && p s) rows ≡ (if p r then 1 else 0)
unfolding find_row
count_found p k [] r u h = absurd (ground arith)
count_found p k (s ∷ rows) r u h =
    ground (arith, eq_iff s.bet_id k, count_absent p k rows, count_found p k rows r u.2)

-- Rows come out oldest first.
abbrev pub StartsAt : ℕ → List BetRow → Type 0
StartsAt t [] = Unit
StartsAt t (r ∷ rows) = t ≤ r.created_at

abbrev pub IsOldestFirst : List BetRow → Type 0
IsOldestFirst [] = Unit
IsOldestFirst (r ∷ rows) = StartsAt r.created_at rows × IsOldestFirst rows

insert_by_created-IsOldestFirst :
    (r : BetRow) (rows : List BetRow)
    → IsOldestFirst rows
    → IsOldestFirst (insert_by_created r rows)
unfolding insert_by_created
insert_by_created-IsOldestFirst r [] h = (tt, tt)
insert_by_created-IsOldestFirst r (s ∷ []) h = ground arith
insert_by_created-IsOldestFirst r (s ∷ s' ∷ rows) h =
    ground (arith, insert_by_created-IsOldestFirst r (s' ∷ rows) h.1)

-- A listing is in the order of creation.
pub order_by_created-IsOldestFirst : (rows : List BetRow) → IsOldestFirst (order_by_created rows)
unfolding order_by_created
order_by_created-IsOldestFirst [] = tt
order_by_created-IsOldestFirst (r ∷ rows) =
    insert_by_created-IsOldestFirst r (order_by_created rows) (order_by_created-IsOldestFirst rows)
