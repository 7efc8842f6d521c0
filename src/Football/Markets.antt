-- ===== src/Football/Markets.antt =====
-- The markets partition the scorelines, and the index finds every outcome of the catalogue.
use crash_game.Prelude.{ℕ, ◌≡◌, refl, All, count, str_eq, if◌then◌else◌, some, arith, ◌▸◌}
use crash_game.Prelude.{show}
use crash_game.Football.{
  Score, MarketGroup, market_catalogue, all_outcomes, find_outcome, map_get, correct_score,
  over_under,
}

-- How many of a market's outcomes a scoreline settles as won.
unfoldable pub winners : Score → MarketGroup → ℕ
winners s g = count (λ o. o.settles s) g.outcomes

-- A double chance covers two of the three results.
abbrev pub places : MarketGroup → ℕ
places g = if str_eq g.group_market "double_chance" then 2 else 1

correct_score-winners : (s : Score) → winners s correct_score ≡ 1
unfolding winners
correct_score-winners s = ground arith

over_under-winners : (s : Score) (line : ℕ) → winners s (over_under line) ≡ 1
unfolding winners
over_under-winners s line = ground arith

-- Whatever the final score, exactly one outcome of each market of the catalogue is settled as won,
-- and exactly two of the three of the double chance: no market can be lost or won on all sides.
pub catalogue-winners : (s : Score) → All (λ g. winners s g ≡ places g) market_catalogue
unfolding market_catalogue winners show
catalogue-winners s =
    ground arith
    ▸ ground arith
    ▸ ground arith
    ▸ ground arith
    ▸ over_under-winners s 0
    ▸ over_under-winners s 1
    ▸ over_under-winners s 2
    ▸ over_under-winners s 3
    ▸ over_under-winners s 4
    ▸ ground arith
    ▸ correct_score-winners s
    ▸ tt

-- Each of the 41 outcomes of the catalogue is the one that the index finds under its market and its
-- pick: no two outcomes share a key.
pub catalogue-IsIndexed :
    All (λ o. find_outcome o.market o.pick ≡ some o) (all_outcomes market_catalogue)
unfolding market_catalogue all_outcomes find_outcome map_get show
catalogue-IsIndexed =
    refl ▸ refl ▸ refl ▸ refl ▸ refl ▸ refl ▸ refl ▸ refl ▸ refl ▸ refl ▸ refl ▸ refl ▸ refl ▸ refl
    ▸ refl ▸ refl ▸ refl ▸ refl ▸ refl ▸ refl ▸ refl ▸ refl ▸ refl ▸ refl ▸ refl ▸ refl ▸ refl
    ▸ refl ▸ refl ▸ refl ▸ refl ▸ refl ▸ refl ▸ refl ▸ refl ▸ refl ▸ refl ▸ refl ▸ refl ▸ refl
    ▸ refl ▸ tt
