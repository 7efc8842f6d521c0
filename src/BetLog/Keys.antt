-- ===== src/BetLog/Keys.antt =====
-- The constraints of the tables hold after every method: one row for a bet id, one for a bet
-- transaction id, and one idempotency entry for an operator and a transaction id.
use crash_game.Prelude.{String, ◌≡◌, refl, false, none, List, [], ◌∷◌, ◌++◌, eq_iff, find, arith}
use crash_game.BetState.{BetEvent}
use crash_game.World.{BetRow, IdempotencyEntry, World}
use crash_game.BetLog.{
  CreateBetInput, SideData, create, transition, put_idempotency, has_key, updated, new_row,
}
use crash_game.BetLog.Outcomes.{missing, refused, moved, transition-Outcome}
use crash_game.BetLog.Rows.{
  find_row, find_txn, update_row, find_row-update_row, find_txn-update_row-none, find_row-append,
  find_txn-append_none,
}

-- No later row has a key of an earlier one.
abbrev pub HasUniqueRows : List BetRow → Type 0
HasUniqueRows [] = Unit
HasUniqueRows (r ∷ rows) =
    (find_row r.bet_id rows ≡ none) × (find_txn r.bet_txn_id rows ≡ none) × HasUniqueRows rows

abbrev pub HasUniqueEntries : List IdempotencyEntry → Type 0
HasUniqueEntries [] = Unit
HasUniqueEntries (e ∷ entries) =
    (find (has_key e.operator_id e.txn_id) entries ≡ none) × HasUniqueEntries entries

pub record IsKeyed (w : World) : Type 0 where
  pub unique_rows : HasUniqueRows w.rows
  pub unique_entries : HasUniqueEntries w.idempotency

module _ (f : BetRow → BetRow) (same_id : (r : BetRow) → (f r).bet_id ≡ r.bet_id)
    (same_txn : (r : BetRow) → (f r).bet_txn_id ≡ r.bet_txn_id) where
  HasUniqueRows-update_row :
      (k : String) (rows : List BetRow) → HasUniqueRows rows → HasUniqueRows (update_row k f rows)
  unfolding update_row
  HasUniqueRows-update_row k [] h = tt
  HasUniqueRows-update_row k (r ∷ rows) h = ground (
    arith,
    same_id r,
    same_txn r,
    HasUniqueRows-update_row k rows h.2,
    find_row-update_row f same_id k r.bet_id rows,
    find_txn-update_row-none f same_id same_txn k r.bet_txn_id rows h.1,
  )

HasUniqueRows-append :
    (rows : List BetRow) (n : BetRow)
    → HasUniqueRows rows
    → find_row n.bet_id rows ≡ none
    → find_txn n.bet_txn_id rows ≡ none
    → HasUniqueRows (rows ++ n ∷ [])
unfolding find_row find_txn
HasUniqueRows-append [] n h new_id new_txn = (refl, refl, tt)
HasUniqueRows-append (r ∷ rows) n h new_id new_txn = ground (
  arith,
  HasUniqueRows-append rows n h.2,
  find_row-append r.bet_id rows n,
  find_txn-append_none r.bet_txn_id rows n,
  eq_iff r.bet_id n.bet_id,
  eq_iff n.bet_id r.bet_id,
  eq_iff r.bet_txn_id n.bet_txn_id,
  eq_iff n.bet_txn_id r.bet_txn_id,
)

find-append_none :
    (op txn : String) (entries : List IdempotencyEntry) (e : IdempotencyEntry)
    → find (has_key op txn) entries ≡ none
    → has_key op txn e ≡ false
    → find (has_key op txn) (entries ++ e ∷ []) ≡ none
find-append_none op txn [] e h ne = ground arith
find-append_none op txn (x ∷ entries) e h ne = ground (arith, find-append_none op txn entries e)

HasUniqueEntries-append :
    (entries : List IdempotencyEntry) (e : IdempotencyEntry)
    → HasUniqueEntries entries
    → find (has_key e.operator_id e.txn_id) entries ≡ none
    → HasUniqueEntries (entries ++ e ∷ [])
HasUniqueEntries-append [] e h new = (refl, tt)
HasUniqueEntries-append (x ∷ entries) e h new = ground (
  arith,
  HasUniqueEntries-append entries e h.1,
  find-append_none x.operator_id x.txn_id entries e h.0,
  eq_iff x.txn_id e.txn_id,
  eq_iff e.txn_id x.txn_id,
  eq_iff x.operator_id e.operator_id,
  eq_iff e.operator_id x.operator_id,
)

pub create-IsKeyed : (input : CreateBetInput) (w : World) → IsKeyed w → IsKeyed (create input w).1
unfolding create
create-IsKeyed input w h = ground (arith, HasUniqueRows-append w.rows (new_row input w.now))

pub transition-IsKeyed :
    (k : String) (e : BetEvent) (side : SideData) (w : World)
    → IsKeyed w
    → IsKeyed (transition k e side w).1
transition-IsKeyed k e side w h = elim (transition-Outcome k e side w) [
  | missing _ same ↦ rw same h
  | refused _ _ _ _ same ↦ rw same h
  | moved r t _ _ done ↦ rw done (record {
    unique_rows =
        HasUniqueRows-update_row (updated t w.now side) (λ r. refl) (λ r. refl) k w.rows
          h.unique_rows;
    unique_entries = h.unique_entries;
  })
]

pub put_idempotency-IsKeyed :
    (entry : IdempotencyEntry) (w : World) → IsKeyed w → IsKeyed (put_idempotency entry w).1
unfolding put_idempotency
put_idempotency-IsKeyed entry w h = ground (arith, HasUniqueEntries-append w.idempotency entry)
