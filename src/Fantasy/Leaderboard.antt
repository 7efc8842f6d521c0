-- ===== src/Fantasy/Leaderboard.antt =====
-- packages/shared/src/fantasy.ts: `rankByPoints` and `splitPool`.
use crash_game.Prelude.{
  ℕ, String, suc, ◌-◌, ◌*◌, ◌/◌, Bool, not, ◌&&◌, List, [], ◌∷◌, if◌then◌else◌,
}
use crash_game.Prelude.Int.{ℤ, ltb_ℤ}

-- An entry of the leaderboard.
pub record Entrant : Type 0 where
  pub key : String
  pub entrant_points : ℤ

-- `sort((a, b) => b.e.points - a.e.points || a.i - b.i)`: the highest first, and ties in the order
-- of the input
unfoldable pub insert_entrant : Entrant → List Entrant → List Entrant
insert_entrant e [] = e ∷ []
insert_entrant e (x ∷ xs) =
    let rest = insert_entrant e xs in
    if ltb_ℤ e.entrant_points x.entrant_points then x ∷ rest else e ∷ x ∷ xs

unfoldable pub sort_entrants : List Entrant → List Entrant
unfolding insert_entrant
sort_entrants [] = []
sort_entrants (e ∷ es) = insert_entrant e (sort_entrants es)

abbrev pub same_points : ℤ → ℤ → Bool
same_points a b = not (ltb_ℤ a b) && not (ltb_ℤ b a)

-- The callback of `sorted.map`, after the first element: `idx`, the points before it, and `rank`
unfoldable pub rank_on : ℕ → ℤ → ℕ → List Entrant → List (Entrant × ℕ)
rank_on idx before rank [] = []
rank_on idx before rank (e ∷ es) =
    let r = if same_points e.entrant_points before then rank else suc idx in
    (e, r) ∷ rank_on (suc idx) e.entrant_points r es

unfoldable pub rank_sorted : List Entrant → List (Entrant × ℕ)
unfolding rank_on
rank_sorted [] = []
rank_sorted (e ∷ es) = (e, 1) ∷ rank_on 1 e.entrant_points 1 es

-- `rankByPoints`
unfoldable pub rank_by_points : List Entrant → List (Entrant × ℕ)
unfolding rank_sorted sort_entrants
rank_by_points entries = rank_sorted (sort_entrants entries)

-- `PoolSplit`
pub record PoolSplit : Type 0 where
  pub pool_minor : ℕ
  pub rake_minor : ℕ
  pub prize_pool_minor : ℕ

-- `splitPool`; the rake is at most 10000 basis points, so that the subtraction does not stop at 0.
unfoldable pub split_pool : (entry_fee_minor entrants rake_bps : ℕ) → PoolSplit
split_pool entry_fee_minor entrants rake_bps =
    let pool_minor = entry_fee_minor * entrants in
    let rake_minor = pool_minor * rake_bps / 10000 in
    record {
      pool_minor = pool_minor;
      rake_minor = rake_minor;
      prize_pool_minor = pool_minor - rake_minor;
    }
