-- ===== src/BetLog/Rows.antt =====
-- Rows of `bet_log` by their keys: a lookup after an update and after an insertion.
use crash_game.Prelude.{
  String, ◌≡◌, refl, false, Option, none, some, List, [], ◌∷◌, ◌++◌, str_eq, eq_iff, arith,
  if◌then◌else◌,
}
use crash_game.World.{BetRow}

-- `SELECT * FROM bet_log WHERE bet_id = $1`, the first row
unfoldable pub find_row : String → List BetRow → Option BetRow
find_row bet_id [] = none
find_row bet_id (r ∷ rows) = if str_eq r.bet_id bet_id then some r else find_row bet_id rows

-- `SELECT * FROM bet_log WHERE bet_txn_id = $1`, the first row (`PgBetLog.getByBetTxnId`)
unfoldable pub find_txn : String → List BetRow → Option BetRow
find_txn bet_txn_id [] = none
find_txn bet_txn_id (r ∷ rows) =
    if str_eq r.bet_txn_id bet_txn_id then some r else find_txn bet_txn_id rows

-- `UPDATE bet_log SET … WHERE bet_id = $n`
unfoldable pub update_row : String → (BetRow → BetRow) → List BetRow → List BetRow
update_row bet_id f [] = []
update_row bet_id f (r ∷ rows) =
    (if str_eq r.bet_id bet_id then f r else r) ∷ update_row bet_id f rows

abbrev pub apply_to {ℓ} : {A : Type ℓ} → (A → A) → Option A → Option A
apply_to f none = none
apply_to f (some a) = some (f a)

-- The found row carries the key.
pub find_row-bet_id :
    (k : String) (rows : List BetRow) (r : BetRow) → find_row k rows ≡ some r → r.bet_id ≡ k
unfolding find_row
find_row-bet_id k [] r h = ground arith
find_row-bet_id k (s ∷ rows) r h = ground (arith, eq_iff s.bet_id k, find_row-bet_id k rows r)

module _ (f : BetRow → BetRow) (same_id : (r : BetRow) → (f r).bet_id ≡ r.bet_id) where
  pub find_row-update_row :
      (k j : String) (rows : List BetRow)
      → find_row j (update_row k f rows)
        ≡ (if str_eq j k then apply_to f (find_row j rows) else find_row j rows)
  unfolding find_row update_row
  find_row-update_row k j [] = ground arith
  find_row-update_row k j (r ∷ rows) = ground (
    arith,
    same_id r,
    find_row-update_row k j rows,
    eq_iff r.bet_id k,
    eq_iff r.bet_id j,
    eq_iff (f r).bet_id j,
    eq_iff j k,
  )

  pub find_txn-update_row-none :
      (same_txn : (r : BetRow) → (f r).bet_txn_id ≡ r.bet_txn_id) (k t : String)
      (rows : List BetRow)
      → find_txn t rows ≡ none
      → find_txn t (update_row k f rows) ≡ none
  unfolding find_txn update_row
  find_txn-update_row-none same_txn k t [] h = refl
  find_txn-update_row-none same_txn k t (r ∷ rows) h = ground (
    arith,
    same_txn r,
    find_txn-update_row-none same_txn k t rows,
    eq_iff r.bet_txn_id t,
    eq_iff (f r).bet_txn_id t,
  )

pub find_row-append :
    (k : String) (rows : List BetRow) (r : BetRow)
    → find_row k (rows ++ r ∷ []) ≡ (
        if str_eq r.bet_id k
        then (elim (find_row k rows) [ some s ↦ some s | none ↦ some r ])
        else find_row k rows)
unfolding find_row
find_row-append k [] r = ground arith
find_row-append k (s ∷ rows) r =
    ground (arith, eq_iff s.bet_id k, eq_iff r.bet_id k, find_row-append k rows r)

pub find_txn-append_none :
    (t : String) (rows : List BetRow) (r : BetRow)
    → find_txn t rows ≡ none
    → str_eq r.bet_txn_id t ≡ false
    → find_txn t (rows ++ r ∷ []) ≡ none
unfolding find_txn
find_txn-append_none t [] r h ne = ground arith
find_txn-append_none t (s ∷ rows) r h ne =
    ground (arith, eq_iff s.bet_txn_id t, find_txn-append_none t rows r)
