-- ===== src/ExpireBets/Loop.antt =====
-- The loop of `expireOperatorBetsOnCrash` over a listing, for one bet.
use crash_game.Prelude.{
  ℕ, ◌+◌, String, ◌≡◌, refl, ◌∙◌, ◌≢◌, ◌⊎◌, inl, inr, Bool, true, false, ◌&&◌, not, is_some, Option,
  none, some, List, [], ◌∷◌, arith, str_eq, eq_iff, count, Bool-cases, if◌then◌else◌,
}
use crash_game.Prelude.Action.{ok, err}
use crash_game.BetState.{armed, flying, lost}
use crash_game.World.{BetRow, World, Thrown}
use crash_game.BetLog.Rows.{find_row, update_row, find_row-update_row, apply_to}
use crash_game.ExpireBets.{Meanwhile, quiet, expires, expire_row, expire_rows}
use crash_game.ExpireBets.Step.{gone, same, taken, row_end, lost_row, crashed_next, lost_stays}

module _ (others : Meanwhile) (game_id : Option String) where
  pub skip :
      (row : BetRow) (rows : List BetRow) (n : ℕ) (w : World)
      → expires game_id row ≡ false
      → expire_rows others game_id (row ∷ rows) n w ≡ expire_rows others game_id rows n w
  unfolding expire_rows
  skip row rows n w h = ground arith

  pub go_on :
      (row : BetRow) (rows : List BetRow) (n m : ℕ) (w w' : World)
      → expires game_id row ≡ true
      → expire_row row (others row w) ≡ (ok m, w')
      → expire_rows others game_id (row ∷ rows) n w ≡ expire_rows others game_id rows (n + m) w'
  unfolding expire_rows
  go_on row rows n m w w' h e = ground arith

  abort :
      (row : BetRow) (rows : List BetRow) (n : ℕ) (w w' : World) (x : Thrown)
      → expires game_id row ≡ true
      → expire_row row (others row w) ≡ (err x, w')
      → expire_rows others game_id (row ∷ rows) n w ≡ (err x, w')
  unfolding expire_rows
  abort row rows n w w' x h e = ground arith

module _ (game_id : Option String) where
  -- How often the listing asks for the bet `k`.
  abbrev pub hits : String → List BetRow → ℕ
  hits k = count (λ s. str_eq s.bet_id k && expires game_id s)

  pub after_taken :
      (id k : String) (w : World)
      → find_row k (update_row id (lost_row w.now) w.rows)
        ≡ (if str_eq k id then apply_to (lost_row w.now) (find_row k w.rows) else find_row k w.rows)
  after_taken id k w = find_row-update_row (lost_row w.now) (λ r. refl) id k w.rows

  -- A bet that is not asked for keeps its row.
  pub expire_rows-others :
      (k : String) (rows : List BetRow) (n : ℕ) (w : World)
      → hits k rows ≡ 0
      → find_row k (expire_rows quiet game_id rows n w).1.rows ≡ find_row k w.rows
  expire_rows-others k [] n w h = unfold expire_rows in refl
  expire_rows-others k (row ∷ rows) n w h = elim (Bool-cases (expires game_id row)) [
    | inr no_match ↦
        rw (skip quiet game_id row rows n w no_match) (expire_rows-others k rows n w (ground arith))
    | inl match ↦ elim (row_end row w) [
      | gone _ x stop ↦ rw (abort quiet game_id row rows n w w x match stop)
      | same r x _ _ stop ↦
          rw (go_on quiet game_id row rows n 0 w w match stop)
            (expire_rows-others k rows (n + 0) w (ground arith))
      | taken r _ _ done ↦ rw (go_on quiet game_id row rows n 1 w _ match done) (
          expire_rows-others k rows (n + 1) _ (ground arith)
          ∙ after_taken row.bet_id k w
          ∙ ground (arith, eq_iff row.bet_id k, eq_iff k row.bet_id))
    ]
  ]

  -- A bet that is `LOST` keeps its row.
  pub expire_rows-lost :
      (k : String) (rows : List BetRow) (n : ℕ) (w : World) (x : BetRow)
      → find_row k w.rows ≡ some x
      → x.state ≡ lost
      → find_row k (expire_rows quiet game_id rows n w).1.rows ≡ some x
  expire_rows-lost k [] n w x h l = unfold expire_rows in h
  expire_rows-lost k (row ∷ rows) n w x h l = elim (Bool-cases (expires game_id row)) [
    | inr no_match ↦
        rw (skip quiet game_id row rows n w no_match) (expire_rows-lost k rows n w x h l)
    | inl match ↦ elim (row_end row w) [
      | gone _ e stop ↦ rw (abort quiet game_id row rows n w w e match stop) h
      | same r e _ _ stop ↦
          rw (go_on quiet game_id row rows n 0 w w match stop)
            (expire_rows-lost k rows (n + 0) w x h l)
      | taken r found next done ↦ rw (go_on quiet game_id row rows n 1 w _ match done) (
          expire_rows-lost k rows (n + 1) _ x
            (after_taken row.bet_id k w
              ∙ ground (arith, eq_iff k row.bet_id, next, found, lost_stays x.state lost l))
            l)
    ]
  ]

-- The row asks for a bet that is not in the log.
abbrev pub is_missing : World → BetRow → Bool
is_missing w s = not (is_some (find_row s.bet_id w.rows))

count_same :
    (p q : BetRow → Bool) (rows : List BetRow)
    → ((s : BetRow) → p s ≡ q s)
    → count p rows ≡ count q rows
count_same p q [] h = refl
count_same p q (r ∷ rows) h = ground (arith, h r, count_same p q rows h)

none_goes_missing :
    (id : String) (w : World) (rows : List BetRow)
    → count (is_missing w) rows ≡ 0
    → count (is_missing (record w { rows = update_row id (lost_row w.now) w.rows })) rows ≡ 0
none_goes_missing id w rows h =
    count_same (is_missing (record w { rows = update_row id (lost_row w.now) w.rows }))
      (is_missing w) rows (λ s. ground (arith, after_taken none id s.bet_id w))
    ∙ h

module _ (game_id : Option String) where
  -- With every bet of the listing in the log the loop ends with a count, not with an error.
  pub expire_rows-returns :
      (rows : List BetRow) (n : ℕ) (w : World)
      → count (is_missing w) rows ≡ 0
      → (m : ℕ) × ((expire_rows quiet game_id rows n w).0 ≡ ok m)
  expire_rows-returns [] n w h = (n, unfold expire_rows in refl)
  expire_rows-returns (row ∷ rows) n w h = elim (Bool-cases (expires game_id row)) [
    | inr no_match ↦
        rw (skip quiet game_id row rows n w no_match) (expire_rows-returns rows n w (ground arith))
    | inl match ↦ elim (row_end row w) [
      | gone absent x stop ↦ absurd (ground arith)
      | same r x _ _ stop ↦
          rw (go_on quiet game_id row rows n 0 w w match stop)
            (expire_rows-returns rows (n + 0) w (ground arith))
      | taken r _ _ done ↦
          rw (go_on quiet game_id row rows n 1 w _ match done) (
            expire_rows-returns rows (n + 1) _ (none_goes_missing row.bet_id w rows (ground arith)))
    ]
  ]

  -- A bet that is in play and asked for is lost.
  pub expire_rows-hit :
      (k : String) (rows : List BetRow) (n : ℕ) (w : World) (r : BetRow)
      → count (is_missing w) rows ≡ 0
      → find_row k w.rows ≡ some r
      → (r.state ≡ armed) ⊎ (r.state ≡ flying)
      → hits game_id k rows ≢ 0
      → find_row k (expire_rows quiet game_id rows n w).1.rows ≡ some (lost_row w.now r)
  expire_rows-hit k [] n w r m h p ne = absurd (ne refl)
  expire_rows-hit k (row ∷ rows) n w r m h p ne = elim (Bool-cases (expires game_id row)) [
    | inr no_match ↦
        rw (skip quiet game_id row rows n w no_match)
          (expire_rows-hit k rows n w r (ground arith) h p (ground arith))
    | inl match ↦ elim (row_end row w) [
      | gone absent x stop ↦ absurd (ground arith)
      | same q x found refuses stop ↦ rw (go_on quiet game_id row rows n 0 w w match stop) (
          expire_rows-hit k rows (n + 0) w r (ground arith) h p
            (ground (arith, eq_iff row.bet_id k, crashed_next r.state p)))
      | taken q found next done ↦ elim (Bool-cases (str_eq row.bet_id k)) [
        | inl asked ↦ rw (go_on quiet game_id row rows n 1 w _ match done) (
            expire_rows-lost game_id k rows (n + 1) _ (lost_row w.now r)
              (after_taken game_id row.bet_id k w
                ∙ ground (arith, eq_iff row.bet_id k, eq_iff k row.bet_id))
              refl)
        | inr other ↦ rw (go_on quiet game_id row rows n 1 w _ match done) (
            expire_rows-hit k rows (n + 1) _ r (none_goes_missing row.bet_id w rows (ground arith))
              (after_taken game_id row.bet_id k w
                ∙ ground (arith, eq_iff row.bet_id k, eq_iff k row.bet_id))
              p (ground arith))
      ]
    ]
  ]
