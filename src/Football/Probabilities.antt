-- ===== src/Football/Probabilities.antt =====
-- The probabilities of a market's outcomes: they are read off one grid, so they add up.
use crash_game.Prelude.{
  ℕ, suc, ◌+◌, ◌*◌, ◌≡◌, refl, ap, ◌∙◌, true, List, [], ◌∷◌, All, count, arith, ◌▸◌,
}
use crash_game.Football.{
  Score, MarketOutcome, MarketGroup, market_catalogue, sum_row, sum_grid, outcome_probability,
}
use crash_game.Football.Markets.{winners, places, catalogue-winners}

-- The sum of the grid, which is 1 in the source.
unfoldable pub total : List (List ℕ) → ℕ
total grid = sum_grid (λ _. true) 0 grid

-- The sum of the probabilities of a market's outcomes, which its margin is added to.
unfoldable pub book : List (List ℕ) → List MarketOutcome → ℕ
book grid [] = 0
book grid (o ∷ outcomes) = outcome_probability grid o + book grid outcomes

row_book : ℕ → ℕ → List ℕ → List MarketOutcome → ℕ
row_book home away row [] = 0
row_book home away row (o ∷ outcomes) =
    sum_row o.settles home away row + row_book home away row outcomes

grid_book : ℕ → List (List ℕ) → List MarketOutcome → ℕ
grid_book home grid [] = 0
grid_book home grid (o ∷ outcomes) = sum_grid o.settles home grid + grid_book home grid outcomes

abbrev at : ℕ → ℕ → Score
at home away = record { home = home; away = away }

row_book-cell :
    (home away p : ℕ) (row : List ℕ) (os : List MarketOutcome)
    → row_book home away (p ∷ row) os
      ≡ count (λ o. o.settles (at home away)) os * p + row_book home (suc away) row os
unfolding row_book sum_row
row_book-cell home away p row [] = omega arith
row_book-cell home away p row (o ∷ os) = ground (arith, row_book-cell home away p row os)

grid_book-row :
    (home : ℕ) (row : List ℕ) (grid : List (List ℕ)) (os : List MarketOutcome)
    → grid_book home (row ∷ grid) os ≡ row_book home 0 row os + grid_book (suc home) grid os
unfolding grid_book row_book sum_grid
grid_book-row home row grid [] = omega arith
grid_book-row home row grid (o ∷ os) = ground (arith, grid_book-row home row grid os)

row_book-nil : (home away : ℕ) (os : List MarketOutcome) → row_book home away [] os ≡ 0
unfolding row_book sum_row
row_book-nil home away [] = refl
row_book-nil home away (o ∷ os) = omega (arith, row_book-nil home away os)

grid_book-nil : (home : ℕ) (os : List MarketOutcome) → grid_book home [] os ≡ 0
unfolding grid_book sum_grid
grid_book-nil home [] = refl
grid_book-nil home (o ∷ os) = omega (arith, grid_book-nil home os)

module _ (os : List MarketOutcome) (k : ℕ)
    (even : (s : Score) → count (λ o. o.settles s) os ≡ k) where
  row_book-even :
      (home away : ℕ) (row : List ℕ)
      → row_book home away row os ≡ k * sum_row (λ _. true) home away row
  unfolding sum_row
  row_book-even home away [] = omega (arith, row_book-nil home away os)
  row_book-even home away (p ∷ row) = ground (
    arith,
    row_book-cell home away p row os,
    even (at home away),
    row_book-even home (suc away) row,
  )

  grid_book-even :
      (home : ℕ) (grid : List (List ℕ))
      → grid_book home grid os ≡ k * sum_grid (λ _. true) home grid
  unfolding sum_grid
  grid_book-even home [] = omega (arith, grid_book-nil home os)
  grid_book-even home (row ∷ grid) = ground (
    arith,
    grid_book-row home row grid os,
    row_book-even home 0 row,
    grid_book-even (suc home) grid,
  )

book_as_grid : (grid : List (List ℕ)) (os : List MarketOutcome) → book grid os ≡ grid_book 0 grid os
unfolding book grid_book outcome_probability
book_as_grid grid [] = refl
book_as_grid grid (o ∷ os) = ap (λ n. sum_grid o.settles 0 grid + n) (book_as_grid grid os)

-- If every scoreline makes as many of each market's outcomes win as its places, every book adds up.
books :
    (grid : List (List ℕ)) (gs : List MarketGroup)
    → ((s : Score) → All (λ g. winners s g ≡ places g) gs)
    → All (λ g. book grid g.outcomes ≡ places g * total grid) gs
unfolding winners total
books grid [] h = tt
books grid (g ∷ gs) h =
    (book_as_grid grid g.outcomes ∙ grid_book-even g.outcomes (places g) (λ s. (h s).0) 0 grid)
    ▸ books grid gs (λ s. (h s).1)

-- For every grid of scorelines, the probabilities of the outcomes of each market of the catalogue
-- add up to the whole grid, and to twice the grid for the double chance.
catalogue-book :
    (grid : List (List ℕ))
    → All (λ g. book grid g.outcomes ≡ places g * total grid) market_catalogue
catalogue-book grid = books grid market_catalogue catalogue-winners
